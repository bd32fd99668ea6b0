-- ===== src/DiskManager/File.antt =====
-- What is assumed of the operating system's files where no call fails.
use simple_duck_dbms.Base.{ℕ, ◌+◌, ◌-◌, ◌≤◌, ◌≡◌, min, List, some, length}
use simple_duck_dbms.Memory.{Memory, read_bytes, write_bytes}
use simple_duck_dbms.DiskManager.{Files}

-- A regular file on which no call fails: its bytes, and their number. `pread` returns what there is
-- of the bytes asked for, and `pwrite` writes all of its bytes and nothing else,
-- and makes the file as long as that takes.
pub record Lawful {F : Type 0} (files : Files F) : Type 0 where
  pub cell : F → Memory
  pub extent : F → ℕ
  pub size_is : (f : F) → files.file_size f ≡ some (extent f)
  pub reads :
      (f : F) (n offset : ℕ)
      → files.pread f n offset ≡ some (read_bytes (cell f) offset (min n (extent f - offset)))
  pub writes :
      (f : F) (bs : List ℕ) (offset : ℕ)
      → cell (files.pwrite f bs offset).1 ≡ write_bytes (cell f) offset bs
  pub grows : (f : F) (bs : List ℕ) (offset : ℕ) → extent f ≤ extent (files.pwrite f bs offset).1
  pub covers :
      (f : F) (bs : List ℕ) (offset : ℕ) → offset + length bs ≤ extent (files.pwrite f bs offset).1
  pub whole : (f : F) (bs : List ℕ) (offset : ℕ) → (files.pwrite f bs offset).0 ≡ length bs
