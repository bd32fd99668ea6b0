-- ===== src/TableHeap/Insert.antt =====
-- `insert_tuple` on a chain of pages.
use simple_duck_dbms.Base.{
  ℕ, zero, suc, ◌+◌, ◌^◌, ◌≤◌, ◌<◌, ◌≡◌, ◌≢◌, ◌⊎◌, inl, inr, refl, arith, false, none, List, length,
  All, throw, Error, Bool-cases, ltb, ltb→lt, ltb→le,
}
use simple_duck_dbms.Bytes.{IsByte}
use simple_duck_dbms.SlottedPage.{invalid_page_id}
use simple_duck_dbms.BufferPool.Invariant.{Ghost}
use simple_duck_dbms.BufferPool.Interface.{Pool, View, PoolLaws}
use simple_duck_dbms.TableHeap.{insert_tuple}
use simple_duck_dbms.TableHeap.PageView.{PageView, Shows}
use simple_duck_dbms.TableHeap.Leave.{Few}
use simple_duck_dbms.TableHeap.Chain.{Chain, ends, page}
use simple_duck_dbms.TableHeap.Inserted.{HeapInserted}
use simple_duck_dbms.TableHeap.InsertLoop.{to_create, Loops, step}

module _ {S : Type 0} (pool : Pool S) (view : View S PageView) (laws : PoolLaws pool view Shows)
    (t : List ℕ) (bytes : All IsByte t) where
  loop : (fits : length t ≤ 8180) (fuel : ℕ) → Loops pool view laws t bytes fits fuel
  loop fits zero s ghost first pages created holds few ends real room new bound = absurd (real refl)
  loop fits (suc fuel) s ghost first pages created holds few ends real room new bound =
      absurd (real refl)
  loop fits zero s ghost first pages created holds few (page p v rest real known chain) _ room new
        bound =
      absurd (omega arith)
  loop fits (suc fuel) s ghost first pages created holds few (page p v rest real known chain) _ room
        new bound =
      step pool view laws t bytes fits fuel (loop fits fuel) s ghost p v rest created holds few real
        known chain room (λ e. new e v known) (omega arith)

  -- `insert_tuple`, from the first page of a chain, where the pool keeps its laws, each page is pinned
  -- less than 2 ^ 32 - 1 times, another page can be numbered, and the fuel is more than the pages of
  -- the chain: a tuple of more than 8180 bytes throws; any other goes to a slot that held nothing, on
  -- a page of the chain, which may have got a new last page, and no other slot of any page changes;
  -- or a page could not be fetched, and no tuple has changed; or none could be created. Where a
  -- result is returned, each page is pinned as often as before.
  pub insert_tuple-HeapInserted :
      (fuel : ℕ) (s : S) (ghost : Ghost PageView) (first : ℕ) (pages : List ℕ)
      → view.Holds s ghost none
      → Few view s
      → Chain ghost first pages
      → first ≢ invalid_page_id
      → view.size s + 1 < 2 ^ 32
      → length pages < fuel
      → (8180 < length t) × (insert_tuple pool fuel s first t ≡ throw Error.runtime_error)
        ⊎ (length t ≤ 8180)
          × HeapInserted pool view s ghost first t (insert_tuple pool fuel s first t)
  unfolding insert_tuple to_create
  insert_tuple-HeapInserted fuel s ghost first pages holds few chain real room enough =
      elim (Bool-cases (ltb 8180 (length t))) [
        | inl long ↦ inl (ltb→lt 8180 (length t) long, rw (long, insert_tuple) refl)
        | inr short ↦
            let fits = ltb→le 8180 (length t) short in
            inr (
              fits,
              rw (short, insert_tuple)
                  (loop fits fuel s ghost first pages false holds few chain real (λ e. room)
                    (λ e. cc) (omega arith)),
            )
      ]
