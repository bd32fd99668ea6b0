-- ===== src/TableHeap/Tests.antt =====
-- A heap of the one page of `BufferPool.Tests`.
use simple_duck_dbms.Base.{some, ℕ, ◌≤◌, ◌<◌, ◌≡◌, ◌⊎◌, refl, arith, [], ◌∷◌, List, throw, Error}
use simple_duck_dbms.Transaction.{Rid}
use simple_duck_dbms.DiskManager.Tests.{plain_files, plain_laws}
use simple_duck_dbms.BufferPool.Interface.{PoolLaws}
use simple_duck_dbms.BufferPool.Laws.{pool, view, pool-PoolLaws}
use simple_duck_dbms.BufferPool.Tests.{
  page_three_fetched, page_three_fetched-IsPool, page_three_fetched-pins, two_frames, page_three,
  two_frames-IsPool, none_pinned,
}
use simple_duck_dbms.BufferPool.{make}
use simple_duck_dbms.TableHeap.{
  create, insert_tuple, get_tuple, delete_tuple, update_tuple, all_pages, scan_next,
}
use simple_duck_dbms.TableHeap.ScanRow.{Open, NextRow}
use simple_duck_dbms.TableHeap.ScanNext.{scan_next-NextRow}
use simple_duck_dbms.TableHeap.Create.{HeapCreated, create-HeapCreated}
use simple_duck_dbms.TableHeap.Update.{HeapUpdated, update_tuple-HeapUpdated}
use simple_duck_dbms.TableHeap.Pages.{Listed, all_pages-Listed}
use simple_duck_dbms.TableHeap.PageView.{Shows}
use simple_duck_dbms.TableHeap.PageBytes.{clip-Shows, new_view}
use simple_duck_dbms.TableHeap.Leave.{Few}
use simple_duck_dbms.TableHeap.Chain.{Chain, ends, page}
use simple_duck_dbms.TableHeap.Inserted.{HeapInserted}
use simple_duck_dbms.TableHeap.Insert.{insert_tuple-HeapInserted}
use simple_duck_dbms.TableHeap.Access.{
  HeapRead, HeapDeleted, get_tuple-HeapRead, delete_tuple-HeapDeleted,
}

pub laws : PoolLaws (pool plain_files) (view plain_files plain_laws Shows) Shows
laws = pool-PoolLaws plain_files plain_laws Shows clip-Shows

pub few : Few (view plain_files plain_laws Shows) two_frames
few q = omega (arith, none_pinned q)

pub one_page : Chain page_three 3 (3 ∷ [])
one_page = page 3 new_view [] (λ e. omega arith) refl ends

abbrev three_bytes : List ℕ
three_bytes = 1 ∷ (2 ∷ (3 ∷ []))

abbrev first_slot : Rid
first_slot = record { page_id = 3; slot_num = 0 }

insert_tuple-HeapInserted_example :
    (8180 < 3)
      × (insert_tuple (pool plain_files) 2 two_frames 3 three_bytes ≡ throw Error.runtime_error)
    ⊎ (3 ≤ 8180)
      × HeapInserted
          (pool plain_files)
          (view plain_files plain_laws Shows)
          two_frames
          page_three
          3
          three_bytes
          (insert_tuple (pool plain_files) 2 two_frames 3 three_bytes)
unfolding make
insert_tuple-HeapInserted_example =
    insert_tuple-HeapInserted (pool plain_files) (view plain_files plain_laws Shows) laws
      three_bytes (omega arith, (omega arith, (omega arith, tt))) 2 two_frames page_three 3 (3 ∷ [])
      two_frames-IsPool few one_page (λ e. omega arith) (omega arith) (omega arith)

get_tuple-HeapRead_example :
    HeapRead
      (pool plain_files)
      (view plain_files plain_laws Shows)
      two_frames
      page_three
      first_slot
      new_view
      (get_tuple (pool plain_files) two_frames first_slot)
get_tuple-HeapRead_example =
    get_tuple-HeapRead (pool plain_files) (view plain_files plain_laws Shows) laws two_frames
      page_three first_slot new_view two_frames-IsPool few refl

delete_tuple-HeapDeleted_example :
    HeapDeleted
      (pool plain_files)
      (view plain_files plain_laws Shows)
      two_frames
      page_three
      first_slot
      new_view
      (delete_tuple (pool plain_files) two_frames first_slot)
delete_tuple-HeapDeleted_example =
    delete_tuple-HeapDeleted (pool plain_files) (view plain_files plain_laws Shows) laws two_frames
      page_three first_slot new_view two_frames-IsPool few refl

update_tuple-HeapUpdated_example :
    HeapUpdated
      (pool plain_files)
      (view plain_files plain_laws Shows)
      two_frames
      page_three
      3
      first_slot
      new_view
      three_bytes
      (update_tuple (pool plain_files) 2 two_frames 3 first_slot three_bytes)
unfolding make
update_tuple-HeapUpdated_example =
    update_tuple-HeapUpdated (pool plain_files) (view plain_files plain_laws Shows) laws three_bytes
      (omega arith, (omega arith, (omega arith, tt))) (omega arith) 2 two_frames page_three 3
      (3 ∷ []) first_slot new_view two_frames-IsPool few refl one_page (λ e. omega arith)
      (omega arith) (omega arith)

all_pages-Listed_example :
    Listed
      (pool plain_files)
      (view plain_files plain_laws Shows)
      two_frames
      page_three
      []
      (3 ∷ [])
      (all_pages (pool plain_files) 1 two_frames 3)
all_pages-Listed_example =
    all_pages-Listed (pool plain_files) (view plain_files plain_laws Shows) laws 1 two_frames
      page_three 3 (3 ∷ []) two_frames-IsPool few one_page (λ e. omega arith) (omega arith)

page_three-Open :
    Open
      (pool plain_files)
      (view plain_files plain_laws Shows)
      page_three_fetched
      page_three
      (λ _. 0)
      3
      0
unfolding make
page_three-Open = record {
  holds = page_three_fetched-IsPool;
  here = refl;
  pins = page_three_fetched-pins;
}

scan_next-NextRow_example :
    NextRow
      (pool plain_files)
      (view plain_files plain_laws Shows)
      page_three
      (λ _. 0)
      3
      0
      []
      (scan_next
        (pool plain_files)
        1
        (record { current_rid = first_slot; current_page = some 0 })
        page_three_fetched)
scan_next-NextRow_example =
    scan_next-NextRow (pool plain_files) (view plain_files plain_laws Shows) laws page_three
      (λ _. 0) (λ q. omega arith) 1 page_three_fetched 3 0 0 new_view [] page_three-Open refl ends
      (omega arith) (omega arith)

create-HeapCreated_example :
    HeapCreated
      (pool plain_files)
      (view plain_files plain_laws Shows)
      two_frames
      page_three
      (create (pool plain_files) two_frames)
unfolding make
create-HeapCreated_example =
    create-HeapCreated (pool plain_files) (view plain_files plain_laws Shows) laws two_frames
      page_three two_frames-IsPool (omega arith)
