-- ===== src/TableHeap/Inserted.antt =====
-- What an insert returns.
use simple_duck_dbms.Base.{
  ℕ, ◌≡◌, ◌≢◌, ◌⊎◌, inl, inr, refl, ◌∙◌, false, Option, none, some, List, ◌∷◌, Result, ok, throw,
  Error,
}
use mathlib.Core.List.{Mem, mem-cons_of_mem}
use simple_duck_dbms.Memory.{Memory}
use simple_duck_dbms.Transaction.{Rid}
use simple_duck_dbms.SlottedPage.{invalid_page_id}
use simple_duck_dbms.BufferPool.Invariant.{Ghost}
use simple_duck_dbms.BufferPool.Interface.{Pool, View, Settled}
use simple_duck_dbms.TableHeap.PageView.{PageView, Shows, put, Attempted, refused, placed}
use simple_duck_dbms.TableHeap.Visit.{Settled-trans}
use simple_duck_dbms.TableHeap.Chain.{
  Chain, tuple_of_known, Kept, Stored, Kept-trans, Kept-Stored, in_front, changed, changed_links,
  changed_here, changed_slots, changed_pages,
}

module _ {S : Type 0} (pool : Pool S) (view : View S PageView) where
  -- What an insert returns: the slot that holds the tuple now, on a page of the chain; or none,
  -- where a page could not be fetched; or an exception, where no page could be created.
  pub data HeapInserted (s : S) (ghost : Ghost PageView) (first : ℕ) (t : List ℕ)
      : Result (Option Rid × S) → Type 0 where
    inserted :
        (rid : Rid) (s' : S) (ghost' : Ghost PageView) (pages : List ℕ)
        → Settled pool view s ghost' s'
        → Stored ghost ghost' rid t
        → Chain ghost' first pages
        → Mem rid.page_id pages
        → HeapInserted s ghost first t (ok (some rid, s'))
    unread :
        (s₁ : S) (p : ℕ) (s' : S) (ghost' : Ghost PageView) (pages : List ℕ)
        → pool.fetch_page s₁ p ≡ ok (none, s')
        → Settled pool view s ghost' s'
        → Kept ghost ghost'
        → Chain ghost' first pages
        → HeapInserted s ghost first t (ok (none, s'))
    not_created :
        (s₁ s' : S)
        → pool.new_page s₁ ≡ ok (none, s')
        → HeapInserted s ghost first t (throw Error.runtime_error)

  -- An insert behind page `p`, as an insert from page `p`.
  pub behind :
      (s s' : S) (ghost ghost' : Ghost PageView) (p : ℕ) (v : PageView) (t : List ℕ)
      (r : Result (Option Rid × S))
      → Settled pool view s ghost' s'
      → Kept ghost ghost'
      → p ≢ invalid_page_id
      → ghost' p ≡ some v
      → v.link ≢ invalid_page_id
      → HeapInserted s' ghost' v.link t r
      → HeapInserted s ghost p t r
  behind s s' ghost ghost' p v t r a kept real known on
        (inserted rid s'' g'' pages b stored chain mem) =
      inserted rid s'' g'' (p ∷ pages) (Settled-trans pool view s s' s'' ghost' g'' a b)
        (Kept-Stored ghost ghost' g'' rid t kept stored)
        (in_front ghost' g'' p v pages real known on stored.links chain) (mem-cons_of_mem p mem)
  behind s s' ghost ghost' p v t r a kept real known on
        (unread s₁ q s'' g'' pages e b kept' chain) =
      unread s₁ q s'' g'' (p ∷ pages) e (Settled-trans pool view s s' s'' ghost' g'' a b)
        (Kept-trans ghost ghost' g'' kept kept')
        (in_front ghost' g'' p v pages real known on kept'.links chain)
  behind s s' ghost ghost' p v t r a kept real known on (not_created s₁ s'' e) =
      not_created s₁ s'' e

pub changed-Stored :
    (ghost : Ghost PageView) (p i : ℕ) (v : PageView) (t : List ℕ)
    → ghost p ≡ some v
    → v.tuples i ≡ none
    → Stored ghost (changed ghost p i v (some t)) (record { page_id = p; slot_num = i }) t
changed-Stored ghost p i v t known vacant = record {
  vacant = tuple_of_known ghost p i v known ∙ vacant;
  here = changed_here ghost p i v (some t) known;
  other_pages = changed_pages ghost p i v (some t) known;
  other_slots = changed_slots ghost p i v (some t) known;
  links = λ q w known'.
      let (w', known'', link) = changed_links ghost p i v (some t) known q w known' in
      (w', known'', inl link);
}

pub attempt_cases :
    (v : PageView) (t : List ℕ) (r : Option ℕ × Memory)
    → Attempted v t r
    → ((m : Memory) × (r ≡ (none, m)) × Shows m v × (v.empty ≡ false))
      ⊎ ((i : ℕ) × (m : Memory) × (r ≡ (some i, m))
          × (v.tuples i ≡ none)
          × Shows m (put v i (some t)))
attempt_cases v t r (refused m shows full) = inl (m, refl, shows, full)
attempt_cases v t r (placed i m vacant shows) = inr (i, m, refl, vacant, shows)
