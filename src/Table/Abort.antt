-- ===== src/Table/Abort.antt =====
-- `undo` and `abort` of a transaction that inserted rows, with the records of a table.
pub mod Inserts
mod Tests
use simple_duck_dbms.Base.{ℕ, ◌≡◌, none, some, List, [], ◌∷◌, Result, ok, ◌>>=◌}
use mathlib.Core.List.{Mem}
use simple_duck_dbms.Transaction.{Rid}
use simple_duck_dbms.BufferPool.Invariant.{Ghost}
use simple_duck_dbms.BufferPool.Interface.{Pool, View, Settled}
use simple_duck_dbms.TableHeap
use simple_duck_dbms.TableHeap.PageView.{PageView}
use simple_duck_dbms.TableHeap.Chain.{Linked, Kept, Stored, tuple_of}
use simple_duck_dbms.Table.{UndoRecord, delete_undo, undo_record}

-- The rows of the inserts of a transaction, from the first to the last, each in a slot that held
-- nothing. Where an insert stores nothing, every tuple is kept.
pub data Rows : Ghost PageView → List (Rid × List ℕ) → Ghost PageView → Type 0 where
  begin : (ghost ghost' : Ghost PageView) → Kept ghost ghost' → Rows ghost [] ghost'
  row :
      (ghost ghost₁ ghost' : Ghost PageView) (rid : Rid) (tuple : List ℕ)
      (rows : List (Rid × List ℕ))
      → Stored ghost ghost₁ rid tuple
      → Rows ghost₁ rows ghost'
      → Rows ghost ((rid, tuple) ∷ rows) ghost'

-- The records that they push.
abbrev pub log_of : List (Rid × List ℕ) → List UndoRecord
log_of [] = []
log_of ((rid, tuple) ∷ rows) = delete_undo rid ∷ log_of rows

module _ {S : Type 0} (pool : Pool S) where
  -- The virtual `undo`, on the pool or on an exception.
  unfoldable pub undo_step : UndoRecord → Result S → Result S
  undo_step r s = s >>= undo_record pool r

module _ {S : Type 0} (pool : Pool S) (view : View S PageView) where
  -- A slot after the undo, behind `ghost'`: it holds what it held before the transaction, or the row
  -- that the transaction stored there, and a fetch of its page failed.
  pub data SlotUndone (ghost ghost' : Ghost PageView) (rows : List (Rid × List ℕ)) (q j : ℕ)
      : Type 0 where
    as_before : tuple_of ghost' q j ≡ tuple_of ghost q j → SlotUndone ghost ghost' rows q j
    stays :
        (tuple : List ℕ) (s s' : S)
        → Mem (record { page_id = q; slot_num = j }, tuple) rows
        → tuple_of ghost' q j ≡ some tuple
        → pool.fetch_page s q ≡ ok (none, s')
        → SlotUndone ghost ghost' rows q j

  -- The undo of these rows returns, and each slot is undone; each page is still linked.
  pub data RolledBack (s : S) (ghost : Ghost PageView) (rows : List (Rid × List ℕ))
      : Result S → Type 0 where
    rolled_back :
        (s' : S) (ghost' : Ghost PageView)
        → Settled pool view s ghost' s'
        → ((q j : ℕ) → SlotUndone ghost ghost' rows q j)
        → Linked ghost ghost'
        → RolledBack s ghost rows (ok s')
