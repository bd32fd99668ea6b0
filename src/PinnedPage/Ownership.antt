-- ===== src/PinnedPage/Ownership.antt =====
-- A pin is given back once, by whichever object holds it last.
use simple_duck_dbms.Base.{ℕ, ◌≡◌, refl, true, false, none, some}
use simple_duck_dbms.BufferPool.Interface.{Pool}
use simple_duck_dbms.PinnedPage.{make_pinned, mark_dirty, moved, move, destroy, assign}

module _ {S : Type 0} (pool : Pool S) (s : S) (frame : ℕ) where
  -- A page that was marked, then moved by construction or by assignment to an object without a page:
  -- where both objects are destroyed, it is unpinned once; as dirty after an assignment, and as
  -- clean after a construction, which drops the mark.
  destroy-moved :
      let p = mark_dirty (make_pinned (some frame)) in
      let (constructed, rest) = move p in
      let (s', assigned, rest') = assign pool s (make_pinned none) p in
      (destroy pool (destroy pool s constructed) rest
        ≡ pool.unpin_page s (pool.page_id s frame) false)
      × (destroy pool (destroy pool s' assigned) rest'
          ≡ pool.unpin_page s (pool.page_id s frame) true)
  unfolding make_pinned mark_dirty moved move destroy assign
  destroy-moved = (refl, refl)
