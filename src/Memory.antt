-- ===== src/Memory.antt =====
-- The bytes of a page as a memory, and the `reinterpret_cast`s of table/slotted_page.cpp as reads
-- and writes of 16-bit and 32-bit words in it.
pub mod Frames
use simple_duck_dbms.Base.{
  ℕ, zero, suc, ◌+◌, ◌-◌, ◌*◌, ◌/◌, ◌%◌, ◌^◌, List, [], ◌∷◌, Option, none, some, length, get_elem?,
  ltb, ◌==◌, if◌then◌else◌,
}

-- The byte at each offset of the span.
abbrev pub Memory : Type 0
Memory = ℕ → ℕ

unfoldable pub read16 : Memory → ℕ → ℕ
read16 m a = m a + 256 * m (a + 1)

unfoldable pub write16 : Memory → ℕ → ℕ → Memory
write16 m a v x = if x == a then v % 256 else if x == a + 1 then v / 256 % 256 else m x

unfoldable pub read32 : Memory → ℕ → ℕ
read32 m a = read16 m a + 2 ^ 16 * read16 m (a + 2)

unfoldable pub write32 : Memory → ℕ → ℕ → Memory
write32 m a v = write16 (write16 m a (v % 2 ^ 16)) (a + 2) (v / 2 ^ 16 % 2 ^ 16)

-- `subspan(a, n)`, read out.
unfoldable pub read_bytes : Memory → ℕ → ℕ → List ℕ
read_bytes m a zero = []
read_bytes m a (suc n) = m a ∷ read_bytes m (a + 1) n

-- `std::copy` to offset `a`.
unfoldable pub write_bytes : Memory → ℕ → List ℕ → Memory
write_bytes m a [] = m
write_bytes m a (b ∷ bs) = write_bytes (λ x. if x == a then b else m x) (a + 1) bs
