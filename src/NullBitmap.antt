-- ===== src/NullBitmap.antt =====
-- `NullBitmap` of tuple/tuple.hpp and tuple/tuple.cpp: one bit for each column, set for NULL.
pub mod Laws
use Prim.Native.Nat.{bit_or}
use simple_duck_dbms.Base.{
  ℕ, ◌+◌, ◌/◌, ◌%◌, ◌^◌, Bool, List, Option, none, some, get_elem?, set, Result, ok, throw, Error,
  ◌>>=◌, ◌==◌,
}

unfoldable pub size : ℕ → ℕ
size column_count = (column_count + 7) / 8

-- `bitset<8>{byte}[bit]`
unfoldable pub test_bit : ℕ → ℕ → Bool
test_bit byte bit = byte / 2 ^ bit % 2 == 1

-- `byte | (std::byte{1} << bit)`
unfoldable pub with_bit : ℕ → ℕ → ℕ
with_bit byte bit = bit_or byte (2 ^ bit)

-- `bitmap[index]`, which is undefined past the end of the span.
unfoldable pub byte_at : List ℕ → ℕ → Result ℕ
byte_at bitmap index = elim (get_elem? bitmap index) [
  | none ↦ throw Error.undefined
  | some b ↦ ok b
]

unfoldable pub is_null : List ℕ → ℕ → Result Bool
unfolding byte_at
is_null bitmap column = do byte ← byte_at bitmap (column / 8); ok (test_bit byte (column % 8))

unfoldable pub set_null : List ℕ → ℕ → Result (List ℕ)
unfolding byte_at
set_null bitmap column = do
  byte ← byte_at bitmap (column / 8)
  ok (set bitmap (column / 8) (with_bit byte (column % 8)))
