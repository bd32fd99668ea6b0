-- ===== src/Lib.antt =====
-- Verification library of the duck database, a small relational engine in C++.
--
-- The program stores typed rows in tables. A row (tuple/) is turned into bytes behind a bitmap of
-- its NULLs and put into a slotted page (table/slotted_page); pages are chained into table heaps
-- and cached by a buffer pool over a file (buffer/, storage/). A table (table/table) takes row
-- locks from the lock manager and pushes undo records on its transaction (transaction/); a catalog
-- of tables is itself a table heap (catalog/). A query (execution/) is a tree of operators that
-- pull records from a scan of a table and evaluate expressions on them.
--
-- Which file models which part (proofs stand in the modules below each file):
--   Value              src/tuple/value.cpp, include/duck/tuple/value.hpp: the tagged values, their
--                      accessors and bytes. Integers, float and double are bit patterns.
--   Column, Schema     src/tuple/column.cpp, src/tuple/schema.cpp and their headers.
--   NullBitmap, Tuple  src/tuple/tuple.cpp, include/duck/tuple/tuple.hpp: a row, serialize and the
--                      constructor from bytes (of_raw).
--   Expression         src/execution/expression: the classes are one data type, and their
--                      evaluate one function; compare is ComparisonExpression::compare.
--   Operator           src/execution/operator, query_result.cpp, executor.cpp: next of each operator
--                      on the rows that the scan has still to deliver; drain is the loop over the
--                      records of a query in src/main.cpp.
--   Memory, SlottedPage  src/table/slotted_page.cpp and its header: a page is a function from
--                      offsets to bytes, and an operation returns the new bytes. The abstract view
--                      is SlottedPage.Invariant.tuple_at, the tuple in each slot, and the
--                      invariant is IsPage there.
--   Transaction        src/transaction/transaction.cpp and its header, include/duck/common/rid.hpp.
--   LockManager        src/transaction/lock_manager.cpp: lock_shared and lock_exclusive are split at
--                      the wait, where the latch is given up, into the request, grant and time_out;
--                      LockManager.Invariant.Step is what any thread may do next.
--   TransactionManager src/transaction/manager.cpp: begin, commit and abort. Table.Abort has the abort
--                      with the undo records of rows.
--   DiskManager        src/storage/disk_manager.cpp: allocate_page, deallocate_page, read_page,
--                      write_page, flush_all and the constructor (construct), on a file that is a
--                      parameter.
--   Replacer           src/buffer/replacer.cpp: record (record_page), remove and find_lru; an iterator
--                      of the linked list is the number of its node.
--   BufferPool         src/buffer/pool_manager.cpp, page.cpp and their headers: the frames, the page
--                      table and the free frames over DiskManager and Replacer; a Page* is the number
--                      of its frame. BufferPool.Invariant has the tables' invariant and what each page
--                      is to hold, on the disk and in its frame; BufferPool.Interface is what a client
--                      relies on, and BufferPool.Laws gives it.
--   PinnedPage         include/duck/buffer/pinned_page.hpp, src/buffer/pinned_page.cpp.
--   TableHeap          src/table/table_heap.cpp and its header, over the interface of the pool: the
--                      abstract view is a map from pages to tuples by slot (TableHeap.PageView) and
--                      the chain of the pages (TableHeap.Chain).
--   Table              src/table/table.cpp and its header, src/transaction/undo.cpp: rows over TableHeap
--                      and LockManager, and the undo records of rows. A lock that cannot be granted at
--                      once runs out of time, as no other thread runs meanwhile.
--   Base, Bytes        shared names, lists and options over the native numbers, exceptions as values
--                      (Result), integers, and the byte order of the machine, which is little
--                      endian.
--
-- Machine integers keep their wrap-around (% 2 ^ 16 and the like). Exceptions, failed assertions
-- and accesses that C++ leaves undefined are the errors of Result. The loops are structural
-- recursions; those that are not run on fuel: FilterOperator::next and the caller's loop over a
-- query, for which one unit more than there are rows is enough, and the loops of the table heap over
-- its chain: insert_tuple needs one unit more than the chain has pages, all_pages and the next of a
-- scan one for each page from theirs on. The calls of the buffer pool, of the table heap and of the
-- table run one after the other, so that a latch that is given up and taken again has no effect, and
-- the state that an exception leaves behind is not modelled.
--
-- Parameters: floating-point conversion (of a float and of a uint64_t), isnan and comparison
-- (Expression.Floats), of which the asymmetry of < is assumed; the undo records and the database
-- that they change in Transaction and TransactionManager, for which Table.Abort takes the records of
-- rows and the buffer pool; fstat, pread and pwrite (DiskManager.Files, and what is assumed of them:
-- DiskManager.File.Lawful).
--
-- Not modelled: the catalog and its undo record, the database object, the demonstration program but
-- for its loop over a query, the latches of the buffer pool and of its pages, and the printing methods
-- to_string.
pub mod Base
pub mod BufferPool
pub mod Bytes
pub mod Value
pub mod Column
pub mod Replacer
pub mod Schema
pub mod NullBitmap
pub mod Tuple
pub mod Expression
pub mod Operator
pub mod Memory
pub mod SlottedPage
pub mod TableHeap
pub mod PinnedPage
pub mod Table
pub mod Transaction
pub mod LockManager
pub mod TransactionManager
pub mod DiskManager
