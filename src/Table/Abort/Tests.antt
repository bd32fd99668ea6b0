-- ===== src/Table/Abort/Tests.antt =====
-- Transaction 1 has stored a row of two bytes on page 3 of `BufferPool.Tests`; it is aborted, or it
-- inserts the row of `Tuple.Tests`.
use simple_duck_dbms.Base.{
  ℕ, ◌-◌, ◌≤◌, ◌≡◌, inl, inr, refl, arith, true, List, [], ◌∷◌, length, Option, none, some, Result,
  ok, eq_or_ne,
}
use simple_duck_dbms.Transaction.{Rid, Transaction, push_undo, undo}
use simple_duck_dbms.Transaction
use simple_duck_dbms.DiskManager.Tests.{plain_files, plain_laws}
use simple_duck_dbms.BufferPool.Laws.{pool, view}
use simple_duck_dbms.BufferPool.{make, BufferPoolManager}
use simple_duck_dbms.BufferPool.Tests.{
  empty_page, page_three, page_three_fetched, page_three_fetched-IsPool, page_three_fetched-pins,
}
use simple_duck_dbms.BufferPool.Invariant.{Ghost, updated, pins}
use simple_duck_dbms.BufferPool.Interface.{Changes, Settled}
use simple_duck_dbms.Memory.{Memory}
use simple_duck_dbms.SlottedPage
use simple_duck_dbms.SlottedPage.Insert.{Inserted, no_space, no_slot, stored, insert_tuple-Inserted}
use simple_duck_dbms.TransactionManager.{Manager}
use simple_duck_dbms.TableHeap.{leave}
use simple_duck_dbms.TableHeap.Leave.{Few, leave_changed}
use simple_duck_dbms.TableHeap.Chain.{
  Chain, ends, page, Stored, Kept-refl, tuple_of, changed, changed_here, changed_pages,
  changed_slots, changed_links,
}
use simple_duck_dbms.TableHeap.PageView.{PageView, Shows, put, put-Shows}
use simple_duck_dbms.TableHeap.PageBytes.{new_view, init-Shows}
use simple_duck_dbms.TableHeap.Tests.{laws}
use simple_duck_dbms.Tuple.Tests.{row, row_bytes, row_serialized}
use simple_duck_dbms.Table.Tests.{rows, row_bytes-All}
use simple_duck_dbms.Table.Abort.Inserts.{Extended, insert_tuple-Extended}
use simple_duck_dbms.Table.{Database, insert_tuple, UndoRecord, delete_undo}
use simple_duck_dbms.Table.Abort.{Rows}

-- The page and the slot behind an insertion.
abbrev page_after : Option (ℕ × Memory) → Memory → Memory
page_after none m = m
page_after (some (i, m')) m = m'

abbrev slot_after : Option (ℕ × Memory) → ℕ
slot_after none = 0
slot_after (some (i, m')) = i

-- A tuple fits on an empty page.
filled-Shows :
    (m : Memory) (v : PageView) (t : List ℕ) (o : Option (ℕ × Memory))
    → Shows m v
    → v.empty ≡ true
    → length t ≤ 8180
    → Inserted m t o
    → Shows (page_after o m) (put v (slot_after o) (some t))
filled-Shows m v t o h empty fits (no_space less) =
    let (count, space) = h.empty empty in absurd (omega arith)
filled-Shows m v t o h empty fits (no_slot taken less) =
    let (count, space) = h.empty empty in absurd (omega arith)
filled-Shows m v t o h empty fits (stored i m' p room old new others link space) =
    put-Shows m m' v i (some t) h p new others link

abbrev two_bytes : List ℕ
two_bytes = 1 ∷ 2 ∷ []

empty_page-Shows : Shows empty_page new_view
empty_page-Shows = init-Shows (λ _. 0) (λ x. omega arith)

abbrev filling : Option (ℕ × Memory)
filling = SlottedPage.insert_tuple empty_page two_bytes none

abbrev filled_page : Memory
filled_page = page_after filling empty_page

abbrev filled_view : PageView
filled_view = put new_view (slot_after filling) (some two_bytes)

filled_page-Shows : Shows filled_page filled_view
filled_page-Shows =
    filled-Shows empty_page new_view two_bytes filling empty_page-Shows refl (omega arith) (
      insert_tuple-Inserted empty_page two_bytes none empty_page-Shows.page
        (omega arith, (omega arith, tt)) (omega arith))

-- The pool with the tuple on page 3, which is not pinned any more.
abbrev filled : BufferPoolManager (Memory × ℕ)
filled = leave (pool plain_files) page_three_fetched 0 filled_page true

abbrev filled_slot : Rid
filled_slot = record { page_id = 3; slot_num = slot_after filling }

abbrev filled_three : Ghost PageView
filled_three = updated page_three 3 (some filled_view)

filled-Changes :
    Changes
      (pool plain_files)
      (view plain_files plain_laws Shows)
      page_three_fetched
      3
      filled_three
      none
      (pins page_three_fetched 3 - 1)
      filled
filled-Changes =
    leave_changed (pool plain_files) (view plain_files plain_laws Shows) Shows laws
      page_three_fetched 3 0 page_three page_three_fetched-IsPool refl
      (λ e. omega (arith, page_three_fetched-pins 3)) (omega (arith, page_three_fetched-pins 3))
      filled_page filled_view filled_page-Shows

filled-Settled :
    Settled (pool plain_files) (view plain_files plain_laws Shows) filled filled_three filled
filled-Settled = record { holds = filled-Changes.holds; pins_same = λ q. refl }

filled-Few : Few (view plain_files plain_laws Shows) filled
filled-Few q = elim (eq_or_ne q 3) [
  | inl e ↦ rw e (omega (arith, filled-Changes.pins_self, page_three_fetched-pins 3))
  | inr ne ↦ grind (arith, filled-Changes.pins_ne q ne, page_three_fetched-pins q)
]

filled-Stored : Stored page_three filled_three filled_slot two_bytes
unfolding tuple_of updated changed
filled-Stored = record {
  vacant = refl;
  here = changed_here page_three 3 (slot_after filling) new_view (some two_bytes) refl;
  other_pages = changed_pages page_three 3 (slot_after filling) new_view (some two_bytes) refl;
  other_slots = changed_slots page_three 3 (slot_after filling) new_view (some two_bytes) refl;
  links = λ q v known.
      let (v', known', link) =
        changed_links page_three 3 (slot_after filling) new_view (some two_bytes) refl q v known in
      (v', known', inl link);
}

abbrev one_row : List (Rid × List ℕ)
one_row = (filled_slot, two_bytes) ∷ []

one_row-Rows : Rows page_three one_row filled_three
one_row-Rows =
    Rows.row page_three filled_three filled_three filled_slot two_bytes [] filled-Stored
      (Rows.begin filled_three filled_three (Kept-refl filled_three))

abbrev inserter : Transaction UndoRecord
inserter = push_undo (Transaction.make 1) (delete_undo filled_slot)

abbrev one_active : Manager UndoRecord (Result (BufferPoolManager (Memory × ℕ)))
one_active = record {
  locks = record { transactions = λ id. inserter; lock_table = λ rid. [] };
  next_tx_id = 2;
  active_txs = 1 ∷ [];
  database = ok filled;
}

abbrev one_inserter : Database (BufferPoolManager (Memory × ℕ))
one_inserter = record {
  pages = filled;
  locks = record { transactions = λ id. inserter; lock_table = λ rid. [] };
}

filled-Chain : Chain filled_three 3 (3 ∷ [])
unfolding updated put
filled-Chain = page 3 filled_view [] (λ e. omega arith) refl ends

insert_tuple-Extended_example :
    Extended
      (pool plain_files)
      (view plain_files plain_laws Shows)
      filled
      page_three
      3
      1
      one_row
      row_bytes
      (insert_tuple (pool plain_files) 2 rows one_inserter row (some 1))
unfolding push_undo Transaction.make make
insert_tuple-Extended_example =
    insert_tuple-Extended (pool plain_files) (view plain_files plain_laws Shows) laws filled
      filled-Few page_three filled_three one_row rows one_inserter 1 row row_bytes 2 (3 ∷ [])
      one_row-Rows refl filled-Settled row_serialized row_bytes-All filled-Chain (λ e. omega arith)
      (omega (arith, filled-Changes.size)) (omega arith)
