-- ===== src/DiskManager/Tests.antt =====
-- A disk of four pages, of which page 2 is free.
use simple_duck_dbms.Base.{
  ℕ, ◌+◌, ◌≡◌, refl, arith, true, [], ◌∷◌, ok, eq_or_ne, inl, inr, some, length, min, List,
  replicate, ◌-◌,
}
use simple_duck_dbms.Memory.{Memory, read_bytes, write_bytes}
use simple_duck_dbms.DiskManager.{
  DiskManager, Files, write_page, allocate_page, deallocate_page, flush_all, construct,
}
use simple_duck_dbms.DiskManager.Allocation.{
  is_free, in_use, distinct, IsDisk, AllocatedPage, allocate_page-AllocatedPage, Deallocated,
  deallocate_page-Deallocated,
}
use simple_duck_dbms.DiskManager.File.{Lawful}
use simple_duck_dbms.DiskManager.Pages.{Written, write_page-Written}
use simple_duck_dbms.DiskManager.Restart.{construct-flush_all}

abbrev pub four_pages : DiskManager
four_pages = record {
  disk_header = record { magic = 0x4455434B; version = 1; capacity = 4; free_list_size = 1 };
  capacity = 4;
  free_list = 2 ∷ [];
}

pub four_pages-IsDisk : IsDisk four_pages
unfolding is_free distinct
four_pages-IsDisk = record {
  below = λ p f. elim (eq_or_ne 2 p) [ inl e ↦ omega arith | inr ne ↦ ground arith ];
  once = refl;
  not_meta = refl;
  started = omega arith;
  short = omega arith;
}

allocate_page-AllocatedPage_example :
    AllocatedPage four_pages (allocate_page four_pages).0 (allocate_page four_pages).1
allocate_page-AllocatedPage_example =
    allocate_page-AllocatedPage four_pages four_pages-IsDisk (omega arith)

pub page_three-in_use : in_use four_pages 3 ≡ true
unfolding in_use is_free
page_three-in_use = refl

deallocate_page-Deallocated_example : Deallocated four_pages 3 (deallocate_page four_pages 3)
deallocate_page-Deallocated_example =
    deallocate_page-Deallocated four_pages 3 four_pages-IsDisk page_three-in_use

-- A file as its bytes and their number.
abbrev pub plain_files : Files (Memory × ℕ)
plain_files = record {
  file_size = λ f. some f.1;
  pread = λ f n offset. some (read_bytes f.0 offset (min n (f.1 - offset)));
  pwrite =
      λ f bs offset. (length bs, (write_bytes f.0 offset bs, f.1 + (offset + length bs - f.1)));
}

abbrev pub plain_laws : Lawful plain_files
plain_laws = record {
  cell = λ f. f.0;
  extent = λ f. f.1;
  size_is = λ f. refl;
  reads = λ f n offset. refl;
  writes = λ f bs offset. refl;
  grows = λ f bs offset. omega arith;
  covers = λ f bs offset. omega arith;
  whole = λ f bs offset. refl;
}

abbrev blank_file : Memory × ℕ
blank_file = (λ x. 0, 32768)

construct-flush_all_example :
    construct plain_files (flush_all plain_files four_pages blank_file).1
    ≡ ok (flush_all plain_files four_pages blank_file)
construct-flush_all_example =
    construct-flush_all plain_files plain_laws four_pages blank_file four_pages-IsDisk (omega arith)
      refl refl (omega arith)

-- Two hundred bytes more than a page.
abbrev long_buffer : List ℕ
long_buffer = replicate 8392 7

write_page-Written_example :
    Written plain_files four_pages blank_file 3 long_buffer
      (write_page plain_files four_pages blank_file 3 long_buffer)
write_page-Written_example =
    write_page-Written plain_files plain_laws four_pages blank_file 3 long_buffer (λ x past. refl)
