-- ===== src/Column.antt =====
-- tuple/column.hpp and tuple/column.cpp: a column of a schema and its bytes in the catalog.
pub mod RoundTrip
use simple_duck_dbms.Base.{
  ℕ, zero, suc, ◌+◌, ◌%◌, ◌^◌, ◌≡◌, refl, arith, Bool, true, false, ◌&&◌, List, [], ◌∷◌, ◌++◌,
  length, drop, Result, ok, throw, Error, ◌>>=◌, ◌>>◌, throw_if, ltb, ◌==◌, if◌then◌else◌,
}
use simple_duck_dbms.Bytes.{to_bytes, of_bytes, subspan, bytes_eq}
use simple_duck_dbms.Value.{TypeId}

pub record Column : Type 0 where
  pub name : List ℕ
  pub type : TypeId
  pub length : ℕ

-- The enumerators count from 0 in the order of their declaration.
unfoldable pub type_code : TypeId → ℕ
type_code TypeId.int32 = 0
type_code TypeId.int64 = 1
type_code TypeId.uint32 = 2
type_code TypeId.uint64 = 3
type_code TypeId.float = 4
type_code TypeId.double = 5
type_code TypeId.bool = 6
type_code TypeId.char = 7
type_code TypeId.varchar = 8
type_code TypeId.varbinary = 9
type_code (TypeId.unknown n) = n

unfoldable pub code_type : ℕ → TypeId
code_type n =
    if n == 0
    then TypeId.int32
    else if n == 1
    then TypeId.int64
    else if n == 2
    then TypeId.uint32
    else if n == 3
    then TypeId.uint64
    else if n == 4
    then TypeId.float
    else if n == 5
    then TypeId.double
    else if n == 6
    then TypeId.bool
    else if n == 7
    then TypeId.char
    else if n == 8
    then TypeId.varchar
    else if n == 9
    then TypeId.varbinary
    else TypeId.unknown n

-- `operator==`
unfoldable pub same_column : Column → Column → Bool
same_column a b =
    type_code a.type == type_code b.type && a.length == b.length && bytes_eq a.name b.name

fixed_type : TypeId → Bool
fixed_type TypeId.varchar = false
fixed_type TypeId.varbinary = false
fixed_type (TypeId.unknown n) = false
fixed_type _ = true

unfoldable pub is_fixed_size : Column → Bool
unfolding fixed_type
is_fixed_size c = fixed_type c.type

-- Each field is written as a `uint16_t`.
unfoldable pub serialize : Column → List ℕ
serialize c =
    to_bytes 2 (length c.name % 2 ^ 16)
    ++ (c.name ++ (to_bytes 2 (type_code c.type) ++ to_bytes 2 c.length))

-- The column, and the `uint16_t` that counts the bytes read.
unfoldable pub deserialize : List ℕ → Result (Column × ℕ)
deserialize raw = do
  throw_if (ltb (length raw) 2) Error.runtime_error
  name_length_arr ← subspan raw 0 2
  let name_length = of_bytes name_length_arr
  throw_if (ltb (length raw) (2 + name_length + 4)) Error.runtime_error
  name ← subspan raw 2 name_length
  type_arr ← subspan raw (2 + name_length) 2
  length_arr ← subspan raw (2 + name_length + 2) 2
  ok (
    record { name = name; type = code_type (of_bytes type_arr); length = of_bytes length_arr },
    (2 + name_length + 2 + 2) % 2 ^ 16,
  )
