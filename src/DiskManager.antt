-- ===== src/DiskManager.antt =====
-- storage/disk_manager.hpp and storage/disk_manager.cpp: the pages of the database file, and the
-- header and the free list in its page 0. The file is a parameter: `fstat`, `pread` and `pwrite`
-- are calls of the operating system.
pub mod Allocation
pub mod File
pub mod Layout
pub mod Pages
pub mod Restart
pub mod Tests
use simple_duck_dbms.Base.{
  ℕ, zero, suc, ◌+◌, ◌-◌, ◌*◌, ◌/◌, ◌%◌, ◌^◌, Bool, true, false, not, List, [], ◌∷◌, ◌++◌, Option,
  none, some, length, replicate, Result, ok, throw, Error, ◌>>=◌, ◌>>◌, throw_if, ltb, ◌==◌,
  if◌then◌else◌,
}
use simple_duck_dbms.Bytes.{to_bytes, of_bytes, subspan}

abbrev pub page_size : ℕ
page_size = 8192

abbrev pub db_magic : ℕ
db_magic = 0x4455434B

abbrev pub db_format_version : ℕ
db_format_version = 1

abbrev pub disk_metadata_page_id : ℕ
disk_metadata_page_id = 0

pub record DiskHeader : Type 0 where
  pub magic : ℕ
  pub version : ℕ
  pub capacity : ℕ
  pub free_list_size : ℕ

-- The first page of `free_list` is the last of the vector.
pub record DiskManager : Type 0 where
  pub disk_header : DiskHeader
  pub capacity : ℕ
  pub free_list : List ℕ

-- What the code calls of a file: the size, or -1 as `none`; at most `count` bytes from an offset, or
-- an error; and a write at an offset, with the number of bytes written.
pub record Files (F : Type 0) : Type 0 where
  pub file_size : F → Option ℕ
  pub pread : F → ℕ → ℕ → Option (List ℕ)
  pub pwrite : F → List ℕ → ℕ → ℕ × F

unfoldable pub allocate_page : DiskManager → ℕ × DiskManager
allocate_page d = elim d.free_list [
  | page_id ∷ free_list ↦ (page_id, record d { free_list = free_list })
  | [] ↦ (d.capacity, record d { capacity = (d.capacity + 1) % 2 ^ 32 })
]

-- Past the limit a warning is printed and the page is dropped.
unfoldable pub deallocate_page : DiskManager → ℕ → Result DiskManager
deallocate_page d page_id =
    if page_id == disk_metadata_page_id
    then throw Error.runtime_error
    else if ltb 1024 (length d.free_list)
    then ok d
    else ok (record d { free_list = page_id ∷ d.free_list })

unfoldable pub header_bytes : DiskHeader → List ℕ
header_bytes h =
    to_bytes 8 h.magic
    ++ (to_bytes 8 h.version ++ (to_bytes 8 h.capacity ++ to_bytes 8 h.free_list_size))

-- The vector from its first page to its last.
unfoldable pub list_bytes : List ℕ → List ℕ
list_bytes [] = []
list_bytes (page_id ∷ free_list) = list_bytes free_list ++ to_bytes 4 page_id

-- `bit_cast<DiskHeader>` of the first 32 bytes.
unfoldable pub header_of : List ℕ → Result DiskHeader
header_of buffer = do
  magic ← subspan buffer 0 8
  version ← subspan buffer 8 8
  capacity ← subspan buffer 16 8
  free_list_size ← subspan buffer 24 8
  ok (record {
    magic = of_bytes magic;
    version = of_bytes version;
    capacity = of_bytes capacity;
    free_list_size = of_bytes free_list_size;
  })

-- `memcpy` of `n` pages that start at `offset`, of which the first comes last.
unfoldable pub list_of : List ℕ → ℕ → ℕ → List ℕ → Result (List ℕ)
list_of buffer zero offset free_list = ok free_list
list_of buffer (suc n) offset free_list = do
  page ← subspan buffer offset 4
  list_of buffer n (offset + 4) (of_bytes page ∷ free_list)

unfoldable pub fresh : DiskManager
fresh = record {
  disk_header = record {
    magic = db_magic;
    version = db_format_version;
    capacity = 0;
    free_list_size = 0;
  };
  capacity = 0;
  free_list = [];
}

-- The end of the constructor.
unfoldable pub recognized : DiskManager → Result (Unit {0})
recognized d = do
  throw_if (not (d.disk_header.magic == db_magic)) Error.runtime_error
  throw_if (not (d.disk_header.version == db_format_version)) Error.runtime_error

module _ {F : Type 0} (files : Files F) where
  unfoldable pub flush_all : DiskManager → F → DiskManager × F
  flush_all d f =
      let header = record d.disk_header {
        capacity = d.capacity;
        free_list_size = length d.free_list;
      } in
      let f₁ = (files.pwrite f (header_bytes header) 0).1 in
      let f₂ = (files.pwrite f₁ (list_bytes d.free_list) 32).1 in
      (record d { disk_header = header }, f₂)

  unfoldable pub write_page : DiskManager → F → ℕ → List ℕ → Result F
  write_page d f page_id buffer =
      if not (ltb page_id d.capacity)
      then throw Error.runtime_error
      else if ltb (length buffer) page_size
      then throw Error.runtime_error
      else (do
        page ← subspan buffer 0 page_size
        let (bytes_written, f') = files.pwrite f page (page_id * page_size)
        if not (bytes_written == page_size) then throw Error.runtime_error else ok f')

  -- The first `page_size` bytes of the buffer of `buffer_size` bytes.
  unfoldable pub read_page : DiskManager → F → ℕ → ℕ → Result (List ℕ)
  read_page d f page_id buffer_size =
      if not (ltb page_id d.capacity)
      then throw Error.runtime_error
      else if ltb buffer_size page_size
      then throw Error.runtime_error
      else elim (files.pread f page_size (page_id * page_size)) [
        | none ↦ throw Error.runtime_error
        | some bytes ↦ ok (bytes ++ replicate (page_size - length bytes) 0)
      ]

  unfoldable pub init_header : DiskManager → F → Result DiskManager
  init_header d f = do
    buffer ← read_page d f disk_metadata_page_id page_size
    header ← header_of buffer
    free_list ← list_of buffer header.free_list_size 32 []
    ok (record { disk_header = header; capacity = header.capacity % 2 ^ 32; free_list = free_list })

  -- The constructor, on an open file. The size is divided as a `size_t`: a failed `fstat`, -1, is
  -- the largest size.
  unfoldable pub construct : F → Result (DiskManager × F)
  construct f =
      let size : ℕ = elim (files.file_size f) [ none ↦ 2 ^ 64 - 1 | some n ↦ n ] in
      if ltb (size / page_size) 1
      then (do
        let d = (allocate_page fresh).1
        let (d', f') = flush_all d f
        recognized d'
        ok (d', f'))
      else (do d ← init_header (record fresh { capacity = 1 }) f; recognized d; ok (d, f))
