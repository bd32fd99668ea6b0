-- ===== src/Table/Abort/Inserts.antt =====
-- The rows and the log of a transaction that calls `insert_tuple` of a table.
use simple_duck_dbms.Base.{
  ℕ, ◌+◌, ◌^◌, ◌<◌, ◌≡◌, ◌≢◌, refl, sym, ap, ◌∙◌, arith, none, some, Option, List, [], ◌∷◌, ◌++◌,
  length, All, Result, ok, throw, Error,
}
use simple_duck_dbms.Bytes.{IsByte}
use simple_duck_dbms.Tuple.{Tuple, serialize}
use simple_duck_dbms.Transaction.{Rid}
use simple_duck_dbms.SlottedPage.{invalid_page_id}
use simple_duck_dbms.BufferPool.Invariant.{Ghost}
use simple_duck_dbms.BufferPool.Interface.{Pool, View, Settled, PoolLaws}
use simple_duck_dbms.TableHeap.PageView.{PageView, Shows}
use simple_duck_dbms.TableHeap.Leave.{Few}
use simple_duck_dbms.TableHeap.Visit.{Settled-trans}
use simple_duck_dbms.TableHeap.Chain.{Chain, Kept-refl, Kept-Stored, Stored}
use simple_duck_dbms.Table.{Table, Database, delete_undo, insert_tuple}
use simple_duck_dbms.Table.Insert.{
  Logged, RowInserted, incompatible, too_long, no_page, no_fetch, row, withdrawn, stays,
  insert_tuple-RowInserted,
}
use simple_duck_dbms.Table.Abort.{Rows, log_of}

Rows-append :
    (g g₁ g₂ : Ghost PageView) (rows : List (Rid × List ℕ)) (rid : Rid) (tuple : List ℕ)
    → Rows g rows g₁
    → Stored g₁ g₂ rid tuple
    → Rows g (rows ++ ((rid, tuple) ∷ [])) g₂
Rows-append g g₁ g₂ rows rid tuple (Rows.begin _ _ kept) st =
    Rows.row g g₂ g₂ rid tuple [] (Kept-Stored g g₁ g₂ rid tuple kept st)
      (Rows.begin g₂ g₂ (Kept-refl g₂))
Rows-append g g₁ g₂ rows rid tuple (Rows.row _ h _ rid' tuple' rest first run) st =
    Rows.row g h g₂ rid' tuple' (rest ++ ((rid, tuple) ∷ [])) first
      (Rows-append h g₁ g₂ rest rid tuple run st)

log_of-append :
    (rows : List (Rid × List ℕ)) (rid : Rid) (tuple : List ℕ)
    → log_of (rows ++ ((rid, tuple) ∷ [])) ≡ log_of rows ++ (delete_undo rid ∷ [])
log_of-append [] rid tuple = refl
log_of-append ((rid', tuple') ∷ rows) rid tuple =
    ap (λ l. delete_undo rid' ∷ l) (log_of-append rows rid tuple)

module _ {S : Type 0} (pool : Pool S) (view : View S PageView) where
  -- Where an insert returns a RID, the row is the last of the rows, and its record of the log.
  pub data Extended (s : S) (g : Ghost PageView) (first id : ℕ) (rows : List (Rid × List ℕ))
      (bytes : List ℕ) : Result (Option Rid × Database S) → Type 0 where
    extended :
        (rid : Rid) (db : Database S) (ghost : Ghost PageView) (pages : List ℕ)
        → Rows g (rows ++ ((rid, bytes) ∷ [])) ghost
        → (db.locks.transactions id).undo_log ≡ log_of (rows ++ ((rid, bytes) ∷ []))
        → Settled pool view s ghost db.pages
        → Chain ghost first pages
        → Extended s g first id rows bytes (ok (some rid, db))
    no_rid : (db : Database S) → Extended s g first id rows bytes (ok (none, db))
    thrown : (e : Error) → Extended s g first id rows bytes (throw e)

  RowInserted-Extended :
      (s : S) (g ghost : Ghost PageView) (table : Table) (db : Database S) (id : ℕ)
      (rows : List (Rid × List ℕ)) (tuple : Tuple) (bytes : List ℕ)
      (r : Result (Option Rid × Database S))
      → Rows g rows ghost
      → (db.locks.transactions id).undo_log ≡ log_of rows
      → Settled pool view s ghost db.pages
      → RowInserted pool view table db ghost tuple bytes (some id) r
      → Extended s g table.first_page_id id rows bytes r
  unfolding Logged
  RowInserted-Extended s g ghost table db id rows tuple bytes r run log settled
        (row rid s' m m' ghost' pages e b st chain mem logged) =
      extended rid (record { pages = s'; locks = m' }) ghost' pages
        (Rows-append g ghost ghost' rows rid bytes run st)
        (logged.1 ∙ ap (λ l. l ++ (delete_undo rid ∷ [])) log ∙ sym (log_of-append rows rid bytes))
        (Settled-trans pool view s db.pages s' ghost ghost' settled b) chain
  RowInserted-Extended s g ghost table db id rows tuple bytes r run log settled (incompatible e) =
      thrown Error.runtime_error
  RowInserted-Extended s g ghost table db id rows tuple bytes r run log settled (too_long e) =
      thrown Error.runtime_error
  RowInserted-Extended s g ghost table db id rows tuple bytes r run log settled (no_page s₁ s' e) =
      thrown Error.runtime_error
  RowInserted-Extended s g ghost table db id rows tuple bytes r run log settled
        (no_fetch s₁ s' p ghost' pages e b kept chain) =
      no_rid (record db { pages = s' })
  RowInserted-Extended s g ghost table db id rows tuple bytes r run log settled
        (withdrawn rid s' m' g₁ g₂ t st e b kept) =
      no_rid (record { pages = s'; locks = m' })
  RowInserted-Extended s g ghost table db id rows tuple bytes r run log settled
        (stays rid s₁ s' m' ghost' t e e' b st) =
      no_rid (record { pages = s'; locks = m' })

module _ {S : Type 0} (pool : Pool S) (view : View S PageView) (laws : PoolLaws pool view Shows)
    (s : S) (few : Few view s) (g ghost : Ghost PageView) (rows : List (Rid × List ℕ))
    (table : Table) (db : Database S) (id : ℕ) (tuple : Tuple) (bytes : List ℕ) where
  -- A transaction has inserted some rows, from `g` on, each into a slot that held nothing; its log has
  -- their records in order; what the pool is to hold is what the inserts left; the pool keeps its laws,
  -- and each page is pinned less than 2 ^ 32 - 1 times. It inserts a row that is serialized to these
  -- bytes into a table whose heap is a chain of pages, where another page can be numbered and the fuel
  -- is more than the pages of the chain. Where the insert returns a RID, the same is true with the new
  -- row behind the others, so that an abort is rolled back to `g`, and the heap is a chain of pages.
  pub insert_tuple-Extended :
      (fuel : ℕ) (pages : List ℕ)
      → Rows g rows ghost
      → (db.locks.transactions id).undo_log ≡ log_of rows
      → Settled pool view s ghost db.pages
      → serialize tuple ≡ ok bytes
      → All IsByte bytes
      → Chain ghost table.first_page_id pages
      → table.first_page_id ≢ invalid_page_id
      → view.size db.pages + 1 < 2 ^ 32
      → length pages < fuel
      → Extended pool view s g table.first_page_id id rows bytes
          (insert_tuple pool fuel table db tuple (some id))
  insert_tuple-Extended fuel pages run log settled made all_bytes chain real room enough =
      RowInserted-Extended pool view s g ghost table db id rows tuple bytes
        (insert_tuple pool fuel table db tuple (some id)) run log settled
        (insert_tuple-RowInserted pool view laws table db ghost
          (λ q. omega (arith, settled.pins_same q, few q)) tuple bytes (some id) fuel pages made
          all_bytes settled.holds chain real room enough)
