-- ===== src/DiskManager/Restart.antt =====
-- What `flush_all` writes, the constructor reads back.
use mathlib.Core.List.{append-nil}
use simple_duck_dbms.Base.{
  ◌+◌, ◌-◌, ◌*◌, ◌/◌, ◌%◌, ◌^◌, ◌≤◌, ◌<◌, ◌≡◌, refl, sym, ap, ◌∙◌, arith, min, false, [], ◌++◌,
  some, length, ok, ltb, lt→ltb, le→ltb, length-append,
}
use simple_duck_dbms.Bytes.{to_bytes, length-to_bytes}
use simple_duck_dbms.Memory.{read_bytes, write_bytes}
use simple_duck_dbms.Memory.Frames.{
  write_bytes_outside, read_bytes_agree, read_bytes-write_bytes, length-read_bytes,
}
use simple_duck_dbms.DiskManager.{
  DiskHeader, DiskManager, Files, header_bytes, list_bytes, list_of, flush_all, read_page,
  init_header, fresh, recognized, construct, db_magic, db_format_version,
}
use simple_duck_dbms.DiskManager.Allocation.{IsDisk}
use simple_duck_dbms.DiskManager.File.{Lawful}
use simple_duck_dbms.DiskManager.Layout.{Words, header_of-header_bytes, list_of-list_bytes}

-- Page 0 as the constructor reads it.
read_meta :
    {F : Type 0} (files : Files F) (w : Lawful files) (d : DiskManager) (f : F)
    → 0 < d.capacity
    → 8192 ≤ w.extent f
    → read_page files d f 0 8192 ≡ ok (read_bytes (w.cell f) 0 8192)
unfolding read_page
read_meta files w d f started big =
    let full : min 8192 (w.extent f - 0) ≡ 8192 = omega arith in
    let bytes : files.pread f 8192 (0 * 8192) ≡ some (read_bytes (w.cell f) 0 8192) =
      w.reads f 8192 0 ∙ ap (λ n. some (read_bytes (w.cell f) 0 n)) full in
    let blank : 8192 - length (read_bytes (w.cell f) 0 8192) ≡ 0 =
      omega (arith, length-read_bytes (w.cell f) 0 8192) in
    rw (lt→ltb 0 d.capacity started, bytes, blank)
      (ap ok (append-nil (read_bytes (w.cell f) 0 8192)))

module _ {F : Type 0} (files : Files F) (w : Lawful files) (d : DiskManager) (f : F) (i : IsDisk d)
    (small : d.capacity < 2 ^ 32) where
  header : DiskHeader
  header = record d.disk_header { capacity = d.capacity; free_list_size = length d.free_list }

  f' : F
  f' = (files.pwrite (files.pwrite f (header_bytes header) 0).1 (list_bytes d.free_list) 32).1

  cells :
      w.cell f'
      ≡ write_bytes (write_bytes (w.cell f) 0 (header_bytes header)) 32 (list_bytes d.free_list)
  unfolding f'
  cells =
      w.writes (files.pwrite f (header_bytes header) 0).1 (list_bytes d.free_list) 32
      ∙ ap (λ m. write_bytes m 32 (list_bytes d.free_list)) (w.writes f (header_bytes header) 0)

  header_size : length (header_bytes header) ≡ 32
  unfolding header_bytes
  header_size = omega (
    arith,
    length-append (to_bytes 8 header.magic) (
        to_bytes 8 header.version
        ++ (to_bytes 8 header.capacity ++ to_bytes 8 header.free_list_size)),
    length-append (to_bytes 8 header.version)
        (to_bytes 8 header.capacity ++ to_bytes 8 header.free_list_size),
    length-append (to_bytes 8 header.capacity) (to_bytes 8 header.free_list_size),
    length-to_bytes 8 header.magic,
    length-to_bytes 8 header.version,
    length-to_bytes 8 header.capacity,
    length-to_bytes 8 header.free_list_size,
  )

  header_read : read_bytes (w.cell f') 0 32 ≡ header_bytes header
  header_read =
      let m = write_bytes (w.cell f) 0 (header_bytes header) in
      rw cells (
        read_bytes_agree (write_bytes m 32 (list_bytes d.free_list)) m 0 32
          (λ x lo hi. write_bytes_outside m 32 (list_bytes d.free_list) x (omega arith))
        ∙ ap (read_bytes m 0) (sym header_size)
        ∙ read_bytes-write_bytes (w.cell f) 0 (header_bytes header))

  list_read : read_bytes (w.cell f') 32 (length (list_bytes d.free_list)) ≡ list_bytes d.free_list
  list_read = rw cells (
      read_bytes-write_bytes (write_bytes (w.cell f) 0 (header_bytes header)) 32
        (list_bytes d.free_list))

  list_back : list_of (read_bytes (w.cell f') 0 8192) (length d.free_list) 32 [] ≡ ok d.free_list
  unfolding list_of
  list_back =
      let none : length d.free_list + 0 ≡ length d.free_list = omega arith in
      ap (λ n. list_of (read_bytes (w.cell f') 0 8192) n 32 []) (sym none)
      ∙ list_of-list_bytes (w.cell f') d.free_list 0 (λ q free. omega (arith, i.below q free))
          (omega (arith, i.short)) list_read

  module _ (magic : d.disk_header.magic ≡ db_magic)
      (version : d.disk_header.version ≡ db_format_version) (big : 8192 ≤ w.extent f) where
    words : Words header
    unfolding header
    words = record {
      magic_fits = omega (arith, magic);
      version_fits = omega (arith, version);
      capacity_fits = omega arith;
      size_fits = omega (arith, i.short);
    }

    still_big : 8192 ≤ w.extent f'
    unfolding f'
    still_big = omega (
      arith,
      w.grows f (header_bytes header) 0,
      w.grows (files.pwrite f (header_bytes header) 0).1 (list_bytes d.free_list) 32,
    )

    reopened : construct files f' ≡ ok (record d { disk_header = header }, f')
    unfolding construct init_header fresh recognized header
    reopened =
        let old : ltb (w.extent f' / 8192) 1 ≡ false =
          le→ltb (w.extent f' / 8192) 1 (omega (arith, still_big)) in
        let wrap : d.capacity % 2 ^ 32 ≡ d.capacity = omega arith in
        rw
          (
            w.size_is f',
            old,
            read_meta files w (record fresh { capacity = 1 }) f' (omega arith) still_big,
            header_of-header_bytes (w.cell f') header words header_read,
            list_back,
            wrap,
            magic,
            version,
          )
          refl

-- After `flush_all`, the constructor on the same file gives the disk manager that `flush_all` left,
-- with its capacity and its free list, if the file has a page at least: a file that is shorter
-- is taken for a new one.
pub construct-flush_all :
    {F : Type 0} (files : Files F) (w : Lawful files) (d : DiskManager) (f : F)
    → IsDisk d
    → d.capacity < 2 ^ 32
    → d.disk_header.magic ≡ db_magic
    → d.disk_header.version ≡ db_format_version
    → 8192 ≤ w.extent f
    → construct files (flush_all files d f).1 ≡ ok (flush_all files d f)
unfolding flush_all f' header
construct-flush_all files w d f i small magic version big =
    reopened files w d f i small magic version big
