-- ===== src/Replacer.antt =====
-- buffer/replacer.hpp and buffer/replacer.cpp: the pages in the order of their last use, and the
-- victim that the buffer pool evicts.
pub mod Order
pub mod Recent
mod Tests
use simple_duck_dbms.Base.{
  ℕ, ◌+◌, ◌-◌, ◌^◌, Bool, true, false, List, [], ◌∷◌, ◌++◌, Option, none, some, ◌==◌, if◌then◌else◌,
}

-- A node of the linked list; an iterator is the `id` of its node, which no other node gets.
pub record Node : Type 0 where
  pub id : ℕ
  pub page_id : ℕ

pub record BufferReplacer : Type 0 where
  pub mru_pages : List Node
  pub positions : ℕ → Option ℕ
  pub next_id : ℕ

abbrev pub invalid_page_id : ℕ
invalid_page_id = 2 ^ 32 - 1

unfoldable pub no_pages : BufferReplacer
no_pages = record { mru_pages = []; positions = λ p. none; next_id = 0 }

-- `erase` of an iterator.
unfoldable pub erase : ℕ → List Node → List Node
erase id [] = []
erase id (node ∷ nodes) = if node.id == id then nodes else node ∷ erase id nodes

unfoldable pub remove : BufferReplacer → ℕ → BufferReplacer
remove r page_id = elim (r.positions page_id) [
  | none ↦ r
  | some it ↦ record r {
    mru_pages = erase it r.mru_pages;
    positions = λ p. if p == page_id then none else r.positions p;
  }
]

unfoldable pub record_page : BufferReplacer → ℕ → BufferReplacer
record_page r page_id =
    let removed = remove r page_id in
    record {
      mru_pages = removed.mru_pages ++ (record { id = removed.next_id; page_id = page_id } ∷ []);
      positions = λ p. if p == page_id then some removed.next_id else removed.positions p;
      next_id = removed.next_id + 1;
    }

-- `page_table` and the pin counts of the frames are the buffer pool's.
module _ (page_table : ℕ → Option ℕ) (pin_count : ℕ → ℕ) where
  unfoldable pub find_from : List Node → ℕ
  find_from [] = invalid_page_id
  find_from (node ∷ nodes) =
      let rest = find_from nodes in
      elim (page_table node.page_id) [
        | none ↦ rest
        | some frame_id ↦ if pin_count frame_id == 0 then node.page_id else rest
      ]

  unfoldable pub find_lru : BufferReplacer → ℕ
  find_lru r = find_from r.mru_pages
