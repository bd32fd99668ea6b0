-- ===== src/Table/Insert.antt =====
-- `insert_tuple` of a table: the row, the lock on it and the record that takes it back.
use simple_duck_dbms.Base.{
  ℕ, ◌+◌, ◌^◌, ◌<◌, ◌≡◌, ◌≢◌, inl, inr, refl, ap, ◌∙◌, Bool, true, false, Option, none, some, List,
  [], ◌∷◌, ◌++◌, length, All, Result, ok, throw, Error, ◌>>=◌, if◌then◌else◌, Bool-cases,
}
use mathlib.Core.List.{Mem}
use simple_duck_dbms.Bytes.{IsByte}
use simple_duck_dbms.Schema.{compatible_with}
use simple_duck_dbms.Tuple.{Tuple, serialize}
use simple_duck_dbms.Transaction.{Rid, contains, push_undo}
use simple_duck_dbms.LockManager.{Locks}
use simple_duck_dbms.SlottedPage.{invalid_page_id}
use simple_duck_dbms.BufferPool.Invariant.{Ghost}
use simple_duck_dbms.BufferPool.Interface.{Pool, View, Settled, PoolLaws}
use simple_duck_dbms.TableHeap
use simple_duck_dbms.TableHeap.PageView.{PageView, Shows}
use simple_duck_dbms.TableHeap.Leave.{Few}
use simple_duck_dbms.TableHeap.Chain.{Chain, Kept, Stored}
use simple_duck_dbms.TableHeap.Inserted.{HeapInserted, inserted, unread, not_created}
use simple_duck_dbms.TableHeap.Insert.{insert_tuple-HeapInserted}
use simple_duck_dbms.Table.{
  UndoRecord, delete_undo, Table, Database, may_write, log_undo, inserted_row, insert_tuple,
  acquire_exclusive,
}
use simple_duck_dbms.Table.Locking.{
  Acquired, held, not_held, acquire_exclusive-Acquired, set_tx_self,
}
use simple_duck_dbms.Table.Rollback.{TakenBack, taken_back, still_there, delete_tuple-TakenBack}

-- The transaction has the lock on the row, and the record of the insert is the last of its log; no
-- transaction, no change.
unfoldable pub Logged : Locks UndoRecord → Option ℕ → Rid → Locks UndoRecord → Type 0
Logged m none rid m' = m' ≡ m
Logged m (some id) rid m' =
    (contains (m'.transactions id).exclusive_locks rid ≡ true)
    × ((m'.transactions id).undo_log ≡ (m.transactions id).undo_log ++ (delete_undo rid ∷ []))

-- The lock that is asked for, and the log behind it.
pub data Asked (m : Locks UndoRecord) (tx : Option ℕ) (rid : Rid)
    : Bool × Locks UndoRecord → Type 0 where
  logged :
      (m' : Locks UndoRecord)
      → Logged m tx rid (log_undo m' tx (delete_undo rid))
      → Asked m tx rid (true, m')
  denied : (m' : Locks UndoRecord) → tx ≢ none → Asked m tx rid (false, m')

acquired-Asked :
    (m : Locks UndoRecord) (id : ℕ) (rid : Rid) (r : Bool × Locks UndoRecord)
    → Acquired m id rid r
    → Asked m (some id) rid r
unfolding Logged log_undo push_undo
acquired-Asked m id rid r (held m' here log) =
    let tx = push_undo (m'.transactions id) (delete_undo rid) in
    let now = set_tx_self m' id tx in
    logged m' (
      ap (λ x. contains x.exclusive_locks rid) now ∙ here,
      ap (λ x. x.undo_log) now ∙ ap (λ l. l ++ (delete_undo rid ∷ [])) log,
    )
acquired-Asked m id rid r (not_held m' log) = denied m' (λ e. cc)

may_write-Asked :
    (m : Locks UndoRecord) (tx : Option ℕ) (rid : Rid) → Asked m tx rid (may_write m tx rid)
unfolding may_write Logged log_undo
may_write-Asked m none rid = logged m refl
may_write-Asked m (some id) rid =
    acquired-Asked m id rid (acquire_exclusive m id rid) (acquire_exclusive-Acquired m id rid)

module _ {S : Type 0} (pool : Pool S) (view : View S PageView) where
  -- What an insert returns: an exception for a schema that does not fit, a row that is too long or
  -- a page that cannot be created; none where the fetch of a page failed; the RID of the row, for
  -- which the exclusive lock was granted, and its record; or none where the lock on the RID that the
  -- row had got was refused, and the row is taken back, unless the fetch of its page failed.
  pub data RowInserted (table : Table) (db : Database S) (ghost : Ghost PageView) (tuple : Tuple)
      (bytes : List ℕ) (tx : Option ℕ) : Result (Option Rid × Database S) → Type 0 where
    incompatible :
        compatible_with table.schema tuple.schema ≡ false
        → RowInserted table db ghost tuple bytes tx (throw Error.runtime_error)
    too_long :
        8180 < length bytes → RowInserted table db ghost tuple bytes tx (throw Error.runtime_error)
    no_page :
        (s₁ s' : S)
        → pool.new_page s₁ ≡ ok (none, s')
        → RowInserted table db ghost tuple bytes tx (throw Error.runtime_error)
    no_fetch :
        (s₁ s' : S) (p : ℕ) (ghost' : Ghost PageView) (pages : List ℕ)
        → pool.fetch_page s₁ p ≡ ok (none, s')
        → Settled pool view db.pages ghost' s'
        → Kept ghost ghost'
        → Chain ghost' table.first_page_id pages
        → RowInserted table db ghost tuple bytes tx (ok (none, record db { pages = s' }))
    row :
        (rid : Rid) (s' : S) (m m' : Locks UndoRecord) (ghost' : Ghost PageView) (pages : List ℕ)
        → may_write db.locks tx rid ≡ (true, m)
        → Settled pool view db.pages ghost' s'
        → Stored ghost ghost' rid bytes
        → Chain ghost' table.first_page_id pages
        → Mem rid.page_id pages
        → Logged db.locks tx rid m'
        → RowInserted table db ghost tuple bytes tx
            (ok (some rid, record { pages = s'; locks = m' }))
    withdrawn :
        (rid : Rid) (s' : S) (m' : Locks UndoRecord) (ghost₁ ghost' : Ghost PageView)
        → tx ≢ none
        → Stored ghost ghost₁ rid bytes
        → may_write db.locks tx rid ≡ (false, m')
        → Settled pool view db.pages ghost' s'
        → Kept ghost ghost'
        → RowInserted table db ghost tuple bytes tx (ok (none, record { pages = s'; locks = m' }))
    stays :
        (rid : Rid) (s₁ s' : S) (m' : Locks UndoRecord) (ghost' : Ghost PageView)
        → tx ≢ none
        → may_write db.locks tx rid ≡ (false, m')
        → pool.fetch_page s₁ rid.page_id ≡ ok (none, s')
        → Settled pool view db.pages ghost' s'
        → Stored ghost ghost' rid bytes
        → RowInserted table db ghost tuple bytes tx (ok (none, record { pages = s'; locks = m' }))

module _ {S : Type 0} (pool : Pool S) (view : View S PageView) (laws : PoolLaws pool view Shows)
    (table : Table) (db : Database S) (ghost : Ghost PageView) (few : Few view db.pages)
    (tuple : Tuple) (bytes : List ℕ) (tx : Option ℕ) where
  withdraw_cases :
      (rid : Rid) (s' : S) (ghost' : Ghost PageView) (m' : Locks UndoRecord) (r : Result (Bool × S))
      → tx ≢ none
      → may_write db.locks tx rid ≡ (false, m')
      → Stored ghost ghost' rid bytes
      → TakenBack pool view db.pages ghost ghost' s' rid r
      → RowInserted pool view table db ghost tuple bytes tx
          (do (deleted, s) ← r; ok (none, record { pages = s; locks = m' }))
  withdraw_cases rid s' g m' r some_tx refused st (taken_back s'' g'' settled kept) =
      withdrawn rid s'' m' g g'' some_tx st refused settled kept
  withdraw_cases rid s' g m' r some_tx refused st (still_there s'' e settled) =
      stays rid s' s'' m' g some_tx refused e settled st

  behind_insert : Rid → S → Bool × Locks UndoRecord → Result (Option Rid × Database S)
  behind_insert rid s' r =
      if r.0
      then ok (some rid, record { pages = s'; locks = log_undo r.1 tx (delete_undo rid) })
      else (do
        (deleted, s) ← TableHeap.delete_tuple pool s' rid
        ok (none, record { pages = s; locks = r.1 }))

  lock_cases :
      (rid : Rid) (s' : S) (ghost' : Ghost PageView) (pages : List ℕ) (r : Bool × Locks UndoRecord)
      → Settled pool view db.pages ghost' s'
      → Stored ghost ghost' rid bytes
      → Chain ghost' table.first_page_id pages
      → Mem rid.page_id pages
      → may_write db.locks tx rid ≡ r
      → Asked db.locks tx rid r
      → RowInserted pool view table db ghost tuple bytes tx (behind_insert rid s' r)
  unfolding behind_insert
  lock_cases rid s' g pages r settled st chain mem e (logged m' log) =
      row rid s' m' (log_undo m' tx (delete_undo rid)) g pages e settled st chain mem log
  lock_cases rid s' g pages r settled st chain mem e (denied m' some_tx) =
      withdraw_cases rid s' g m' (TableHeap.delete_tuple pool s' rid) some_tx e st
        (delete_tuple-TakenBack pool view laws db.pages ghost few s' g rid bytes settled st)

  heap_cases :
      (r : Result (Option Rid × S))
      → HeapInserted pool view db.pages ghost table.first_page_id bytes r
      → RowInserted pool view table db ghost tuple bytes tx (do
        (rid, s) ← r
        elim rid [
          | none ↦ ok (none, record db { pages = s })
          | some rid ↦ inserted_row pool (record db { pages = s }) tx rid
        ])
  unfolding inserted_row behind_insert
  heap_cases r (inserted rid s' g pages settled st chain mem) =
      lock_cases rid s' g pages (may_write db.locks tx rid) settled st chain mem refl
        (may_write-Asked db.locks tx rid)
  heap_cases r (unread s₁ p s' g pages e settled kept chain) =
      no_fetch s₁ s' p g pages e settled kept chain
  heap_cases r (not_created s₁ s' e) = no_page s₁ s' e

  -- `insert_tuple` of a row that is serialized to these bytes, with or without a transaction, into a
  -- table whose heap is a chain of pages, where the pool keeps its laws, each page is pinned less
  -- than 2 ^ 32 - 1 times, another page can be numbered, and the fuel is more than the pages of the
  -- chain. It throws where the schemas are not compatible, the row is longer than 8180 bytes or no
  -- page can be created. Where it returns a RID, the row is in that slot, which held nothing, no
  -- other tuple has changed, and a transaction has the exclusive lock on the RID and the record that
  -- deletes it as the last of its log. Where it returns none, a page could not be fetched, or the
  -- transaction was refused the lock on the RID of the row, which was stored first; every tuple is then as before, unless the page of the row could not be
  -- fetched again, in which case the row stays.
  pub insert_tuple-RowInserted :
      (fuel : ℕ) (pages : List ℕ)
      → serialize tuple ≡ ok bytes
      → All IsByte bytes
      → view.Holds db.pages ghost none
      → Chain ghost table.first_page_id pages
      → table.first_page_id ≢ invalid_page_id
      → view.size db.pages + 1 < 2 ^ 32
      → length pages < fuel
      → RowInserted pool view table db ghost tuple bytes tx
          (insert_tuple pool fuel table db tuple tx)
  unfolding insert_tuple
  insert_tuple-RowInserted fuel pages made all_bytes holds chain real room enough =
      elim (Bool-cases (compatible_with table.schema tuple.schema)) [
        | inr differs ↦ rw (differs, insert_tuple) (incompatible differs)
        | inl fits ↦
            elim (insert_tuple-HeapInserted pool view laws bytes all_bytes fuel db.pages ghost
              table.first_page_id pages holds few chain real room enough) [
                | inl (long, e) ↦ rw (fits, made, e, insert_tuple) (too_long long)
                | inr (short, r) ↦
                    rw (fits, made, insert_tuple)
                      (heap_cases
                        (TableHeap.insert_tuple pool fuel db.pages table.first_page_id bytes) r)
              ]
      ]
