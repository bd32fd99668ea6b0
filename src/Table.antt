-- ===== src/Table.antt =====
-- table/table.hpp, table/table.cpp and transaction/undo.cpp: rows in a heap, under row locks, with
-- the records that take the changes back. A transaction is given by its id, `none` for nullptr. The
-- calls run one after the other: a lock that cannot be granted at once is not granted during the
-- wait, which then runs out.
pub mod Locking
pub mod Rollback
pub mod Insert
pub mod Abort
mod Tests
use simple_duck_dbms.Base.{
  ℕ, zero, suc, ◌+◌, Bool, true, false, not, List, [], ◌∷◌, Option, none, some, Result, ok, throw,
  Error, ◌>>=◌, ◌>>◌, throw_if, if◌then◌else◌,
}
use simple_duck_dbms.Schema.{Schema, compatible_with}
use simple_duck_dbms.Tuple
use simple_duck_dbms.Tuple.{Tuple, serialize, of_raw}
use simple_duck_dbms.Transaction.{Rid, rid_eq, push_undo}
use simple_duck_dbms.LockManager.{
  Locks, LockMode, Progress, returned, waiting, set_tx, lock_shared, lock_exclusive, grant,
  time_out,
}
use simple_duck_dbms.BufferPool.Interface.{Pool}
use simple_duck_dbms.TableHeap
use simple_duck_dbms.TableHeap.{TableHeapFetchStatus, all_pages, drop_page, restore_tuple}

-- The undo records of rows: the heap operations of any table undo by the RID alone.
pub data UndoRecord : Type 0 where
  delete_undo : Rid → UndoRecord
  restore_undo : Rid → List ℕ → UndoRecord

pub data DropTableStatus : Type 0 where
  read_pages_failed success : DropTableStatus

pub record Table : Type 0 where
  pub name : List ℕ
  pub first_page_id : ℕ
  pub schema : Schema

-- What the operations of a table change: the pages, and the locks with the transactions.
pub record Database (S : Type 0) : Type 0 where
  pub pages : S
  pub locks : Locks UndoRecord

-- What follows a request for a lock.
unfoldable pub await : LockMode → Progress × Locks UndoRecord → ℕ → Rid → Bool × Locks UndoRecord
await mode (returned locked, m) id rid = (locked, m)
await mode (waiting, m) id rid = elim (grant m id mode rid) [
  | some m' ↦ (true, m')
  | none ↦ (false, time_out m id mode rid)
]

unfoldable pub acquire_shared : Locks UndoRecord → ℕ → Rid → Bool × Locks UndoRecord
acquire_shared m id rid = await LockMode.shared (lock_shared m (some id) rid) id rid

unfoldable pub acquire_exclusive : Locks UndoRecord → ℕ → Rid → Bool × Locks UndoRecord
acquire_exclusive m id rid = await LockMode.exclusive (lock_exclusive m (some id) rid) id rid

-- `tx == nullptr || lock_shared(tx, rid)`, and the same for `lock_exclusive`.
unfoldable pub may_read : Locks UndoRecord → Option ℕ → Rid → Bool × Locks UndoRecord
may_read m none rid = (true, m)
may_read m (some id) rid = acquire_shared m id rid

unfoldable pub may_write : Locks UndoRecord → Option ℕ → Rid → Bool × Locks UndoRecord
may_write m none rid = (true, m)
may_write m (some id) rid = acquire_exclusive m id rid

-- `if (tx != nullptr) tx->push_undo(record)`
unfoldable pub log_undo : Locks UndoRecord → Option ℕ → UndoRecord → Locks UndoRecord
log_undo m none r = m
log_undo m (some id) r = set_tx m id (push_undo (m.transactions id) r)

-- The records of an update.
unfoldable pub log_update : Locks UndoRecord → Option ℕ → Rid → Rid → List ℕ → Locks UndoRecord
log_update m tx rid new_rid old_tuple_bytes =
    log_undo (log_undo m tx (restore_undo rid old_tuple_bytes)) tx (delete_undo new_rid)

module _ {S : Type 0} (pool : Pool S) where
  -- `undo` of a record.
  unfoldable pub undo_record : UndoRecord → S → Result S
  undo_record (delete_undo rid) s = do (deleted, s') ← TableHeap.delete_tuple pool s rid; ok s'
  undo_record (restore_undo rid tuple) s = restore_tuple pool s rid tuple

  -- What is left of `insert_tuple` behind the insert into the heap.
  unfoldable pub inserted_row : Database S → Option ℕ → Rid → Result (Option Rid × Database S)
  inserted_row db tx rid =
      let (locked, m) = may_write db.locks tx rid in
      if locked then ok (some rid, record db { locks = log_undo m tx (delete_undo rid) }) else (do
        (deleted, s) ← TableHeap.delete_tuple pool db.pages rid
        ok (none, record { pages = s; locks = m }))

  unfoldable pub insert_tuple :
      ℕ → Table → Database S → Tuple → Option ℕ → Result (Option Rid × Database S)
  insert_tuple fuel table db tuple tx = do
    throw_if (not (compatible_with table.schema tuple.schema)) Error.runtime_error
    bytes ← serialize tuple
    (rid, s) ← TableHeap.insert_tuple pool fuel db.pages table.first_page_id bytes
    elim rid [
      | none ↦ ok (none, record db { pages = s })
      | some rid ↦ inserted_row (record db { pages = s }) tx rid
    ]

  -- The row in a slot, as its bytes.
  unfoldable pub read_row : Table → Database S → Rid → Result (Option Tuple × Database S)
  read_row table db rid = do
    (bytes, s) ← TableHeap.get_tuple pool db.pages rid
    elim bytes [
      | none ↦ ok (none, record db { pages = s })
      | some bytes ↦ do tuple ← of_raw bytes table.schema; ok (some tuple, record db { pages = s })
    ]

  unfoldable pub get_tuple :
      Table → Database S → Rid → Option ℕ → Result (Option Tuple × Database S)
  get_tuple table db rid tx =
      let (locked, m) = may_read db.locks tx rid in
      if locked
      then read_row table (record db { locks = m }) rid
      else ok (none, record db { locks = m })

  unfoldable pub delete_row : Database S → Rid → Option ℕ → Result (Bool × Database S)
  delete_row db rid tx = do
    (bytes, s) ← TableHeap.get_tuple pool db.pages rid
    elim bytes [
      | none ↦ ok (false, record db { pages = s })
      | some bytes ↦ do
        (deleted, s') ← TableHeap.delete_tuple pool s rid
        ok (
            if deleted
            then (
              true,
              record { pages = s'; locks = log_undo db.locks tx (restore_undo rid bytes) },
            )
            else (false, record db { pages = s' }))
    ]

  unfoldable pub delete_tuple : Database S → Rid → Option ℕ → Result (Bool × Database S)
  delete_tuple db rid tx =
      let (locked, m) = may_write db.locks tx rid in
      if locked
      then delete_row (record db { locks = m }) rid tx
      else ok (false, record db { locks = m })

  -- What is left of `update_tuple` behind the update of the heap, where `old` was in the slot.
  unfoldable pub updated_row :
      Database S → Option ℕ → Rid → Rid → List ℕ → Result (Option Rid × Database S)
  updated_row db tx rid new_rid old =
      let (locked, m) =
        if rid_eq new_rid rid then (true, db.locks) else may_write db.locks tx new_rid in
      if locked
      then ok (some new_rid, record db { locks = log_update m tx rid new_rid old })
      else ok (none, record db { locks = m })

  unfoldable pub update_row :
      ℕ → Table → Database S → Rid → Tuple → Option ℕ → Result (Option Rid × Database S)
  update_row fuel table db rid tuple tx = do
    (old, s) ← TableHeap.get_tuple pool db.pages rid
    elim old [
      | none ↦ ok (none, record db { pages = s })
      | some old ↦ do
        bytes ← serialize tuple
        (new_rid, s') ← TableHeap.update_tuple pool fuel s table.first_page_id rid bytes
        elim new_rid [
          | none ↦ ok (none, record db { pages = s' })
          | some new_rid ↦ updated_row (record db { pages = s' }) tx rid new_rid old
        ]
    ]

  unfoldable pub update_tuple :
      ℕ → Table → Database S → Rid → Tuple → Option ℕ → Result (Option Rid × Database S)
  update_tuple fuel table db rid tuple tx = do
    throw_if (not (compatible_with table.schema tuple.schema)) Error.runtime_error
    let (locked, m) = may_write db.locks tx rid
    (if locked
        then update_row fuel table (record db { locks = m }) rid tuple tx
        else ok (none, record db { locks = m }))

  -- The loop of `drop_pages`: the pages that were not dropped are counted.
  unfoldable pub drop_each : List ℕ → S → ℕ → Result (ℕ × S)
  drop_each [] s failed = ok (failed, s)
  drop_each (page_id ∷ page_ids) s failed = do
    (dropped, s') ← drop_page pool s page_id
    drop_each page_ids s' (if dropped then failed else failed + 1)

  unfoldable pub drop_pages : ℕ → Table → S → Result (ℕ × DropTableStatus × S)
  drop_pages fuel table s = do
    (page_ids, status, s₁) ← all_pages pool fuel s table.first_page_id
    elim status [
      | TableHeapFetchStatus.failed ↦ ok (0, DropTableStatus.read_pages_failed, s₁)
      | TableHeapFetchStatus.success ↦ do
        (failed, s₂) ← drop_each page_ids s₁ 0
        ok (failed, DropTableStatus.success, s₂)
    ]

  pub record Scan : Type 0 where
    pub heap_scan : TableHeap.Scan pool
    pub schema : Schema
    pub tx : Option ℕ

  unfoldable pub scan : Table → S → Option ℕ → Result (Scan × S)
  scan table s tx = do
    (heap_scan, s') ← TableHeap.scan pool s table.first_page_id
    ok (record { heap_scan = heap_scan; schema = table.schema; tx = tx }, s')

  -- `Scan::next`: the lock is taken on the RID that the heap scan stands at.
  unfoldable pub scan_next :
      ℕ → Scan → Database S → Result (Option (Rid × Tuple) × Scan × Database S)
  scan_next fuel c db =
      let (locked, m) = may_read db.locks c.tx (TableHeap.next_rid pool c.heap_scan) in
      if locked
      then (do
        (row, heap_scan, s) ← TableHeap.scan_next pool fuel c.heap_scan db.pages
        let c' = record c { heap_scan = heap_scan }
        elim row [
          | none ↦ ok (none, c', record { pages = s; locks = m })
          | some (rid, bytes) ↦ do
            tuple ← of_raw bytes c.schema
            ok (some (rid, tuple), c', record { pages = s; locks = m })
        ])
      else ok (none, c, record db { locks = m })
