-- ===== src/PinnedPage.antt =====
-- buffer/pinned_page.hpp and buffer/pinned_page.cpp: a pin that the end of a scope gives back. The
-- functions of the table heap unpin where this destructor runs.
pub mod Ownership
use simple_duck_dbms.Base.{ℕ, Bool, true, false, Option, none, some}
use simple_duck_dbms.Replacer.{invalid_page_id}
use simple_duck_dbms.Memory.{Memory}
use simple_duck_dbms.BufferPool.Interface.{Pool}

-- A null pointer is `none`.
pub record PinnedPage : Type 0 where
  pub page : Option ℕ
  pub dirty : Bool

unfoldable pub make_pinned : Option ℕ → PinnedPage
make_pinned page = record { page = page; dirty = false }

unfoldable pub valid : PinnedPage → Bool
valid p = elim p.page [ none ↦ false | some frame ↦ true ]

unfoldable pub mark_dirty : PinnedPage → PinnedPage
mark_dirty p = record p { dirty = true }

-- What is left of a page that was moved from.
unfoldable pub moved : PinnedPage → PinnedPage
moved p = record p { page = none }

-- The move constructor: the new page, which starts without the mark, and the old one.
unfoldable pub move : PinnedPage → PinnedPage × PinnedPage
move other = (record { page = other.page; dirty = false }, moved other)

module _ {S : Type 0} (pool : Pool S) where
  -- The destructor.
  unfoldable pub destroy : S → PinnedPage → S
  destroy s p = elim p.page [
    | none ↦ s
    | some frame ↦ pool.unpin_page s (pool.page_id s frame) p.dirty
  ]

  -- `operator=`, from another object.
  unfoldable pub assign : S → PinnedPage → PinnedPage → S × PinnedPage × PinnedPage
  assign s this other = (destroy s this, other, moved other)

  unfoldable pub page_id : S → PinnedPage → ℕ
  page_id s p = elim p.page [ none ↦ invalid_page_id | some frame ↦ pool.page_id s frame ]

  unfoldable pub data_of : S → PinnedPage → Option Memory
  data_of s p = elim p.page [ none ↦ none | some frame ↦ some (pool.bytes s frame) ]
