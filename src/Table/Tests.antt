-- ===== src/Table/Tests.antt =====
-- The row of `Tuple.Tests` in the heap of `BufferPool.Tests`, for transaction 1.
use simple_duck_dbms.Base.{ℕ, arith, All, [], ◌∷◌, some}
use simple_duck_dbms.Transaction.{Transaction, TransactionState}
use simple_duck_dbms.Transaction
use simple_duck_dbms.Bytes.{IsByte}
use simple_duck_dbms.Tuple.Tests.{row_schema, row, row_bytes, row_serialized}
use simple_duck_dbms.DiskManager.Tests.{plain_files, plain_laws}
use simple_duck_dbms.BufferPool.Laws.{pool, view}
use simple_duck_dbms.BufferPool.{BufferPoolManager, make}
use simple_duck_dbms.BufferPool.Tests.{two_frames, page_three, two_frames-IsPool}
use simple_duck_dbms.Memory.{Memory}
use simple_duck_dbms.TableHeap.PageView.{Shows}
use simple_duck_dbms.TableHeap.Tests.{laws, few, one_page}
use simple_duck_dbms.Table.{Table, Database, insert_tuple}
use simple_duck_dbms.Table.Insert.{RowInserted, insert_tuple-RowInserted}

abbrev pub rows : Table
rows = record { name = 114 ∷ []; first_page_id = 3; schema = row_schema }

abbrev one_transaction : Database (BufferPoolManager (Memory × ℕ))
one_transaction = record {
  pages = two_frames;
  locks = record { transactions = λ id. Transaction.make id; lock_table = λ rid. [] };
}

pub row_bytes-All : All IsByte row_bytes
row_bytes-All = (
  omega arith,
  (
    omega arith,
    (
      omega arith,
      (
        omega arith,
        (
          omega arith,
          (omega arith, (omega arith, (omega arith, (omega arith, (omega arith, tt))))),
        ),
      ),
    ),
  ),
)

insert_tuple-RowInserted_example :
    RowInserted
      (pool plain_files)
      (view plain_files plain_laws Shows)
      rows
      one_transaction
      page_three
      row
      row_bytes
      (some 1)
      (insert_tuple (pool plain_files) 2 rows one_transaction row (some 1))
unfolding make
insert_tuple-RowInserted_example =
    insert_tuple-RowInserted (pool plain_files) (view plain_files plain_laws Shows) laws rows
      one_transaction page_three few row row_bytes (some 1) 2 (3 ∷ []) row_serialized row_bytes-All
      two_frames-IsPool one_page (λ e. omega arith) (omega arith) (omega arith)
