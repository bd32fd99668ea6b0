-- ===== src/Schema.antt =====
-- tuple/schema.hpp and tuple/schema.cpp: the columns of a table and their bytes in the catalog.
-- `to_string`, a debug method, is left out.
pub mod RoundTrip
mod Tests
use simple_duck_dbms.Base.{
  ℕ, zero, suc, ◌+◌, ◌%◌, ◌^◌, Bool, true, false, ◌&&◌, List, [], ◌∷◌, ◌++◌, Option, none, some,
  length, get_elem?, drop, Result, ok, throw, Error, ◌>>=◌, ◌>>◌, throw_if, at, ltb, if◌then◌else◌,
}
use simple_duck_dbms.Bytes.{to_bytes, of_bytes, subspan, bytes_eq}
use simple_duck_dbms.Value.{TypeId}
use simple_duck_dbms.Column.{Column, same_column}
use simple_duck_dbms.Column

pub record Schema : Type 0 where
  pub columns : List Column

-- The constructor from a vector refuses an empty one.
unfoldable pub make : List Column → Result Schema
make [] = throw Error.runtime_error
make (c ∷ cs) = ok (record { columns = c ∷ cs })

unfoldable pub column : Schema → ℕ → Result Column
column s index = at (get_elem? s.columns index)

index_from : ℕ → List ℕ → List Column → Option ℕ
index_from i name [] = none
index_from i name (c ∷ cs) = if bytes_eq c.name name then some i else index_from (suc i) name cs

unfoldable pub column_index : Schema → List ℕ → Option ℕ
unfolding index_from
column_index s name = index_from 0 name s.columns

abbrev pub column_count : Schema → ℕ
column_count s = length s.columns

-- The switch of `fixed_size_of`.
unfoldable pub fixed_size : Column → Result ℕ
fixed_size c = elim c.type [
  | TypeId.int64 ↦ ok 8
  | TypeId.uint64 ↦ ok 8
  | TypeId.double ↦ ok 8
  | TypeId.int32 ↦ ok 4
  | TypeId.uint32 ↦ ok 4
  | TypeId.float ↦ ok 4
  | TypeId.bool ↦ ok 1
  | TypeId.char ↦ ok c.length
  | TypeId.varchar ↦ ok 0
  | TypeId.varbinary ↦ ok 0
  | TypeId.unknown n ↦ throw Error.runtime_error
]

unfoldable pub fixed_size_of : Schema → ℕ → Result ℕ
unfolding column fixed_size
fixed_size_of s index = do c ← column s index; fixed_size c

same_columns : List Column → List Column → Bool
same_columns [] [] = true
same_columns (c ∷ cs) (d ∷ ds) = same_column c d && same_columns cs ds
same_columns _ _ = false

unfoldable pub compatible_with : Schema → Schema → Bool
unfolding same_columns
compatible_with s t = same_columns s.columns t.columns

-- The loop of `serialize` over the first `n` columns.
unfoldable pub serialize_columns : ℕ → List Column → List ℕ
serialize_columns zero cs = []
serialize_columns (suc n) [] = []
serialize_columns (suc n) (c ∷ cs) = Column.serialize c ++ serialize_columns n cs

unfoldable pub serialize : Schema → List ℕ
serialize s = let n = column_count s % 2 ^ 16 in to_bytes 2 n ++ serialize_columns n s.columns

-- The loop of `deserialize`: `n` columns are left, and `offset` is a `uint16_t`.
unfoldable pub deserialize_columns : List ℕ → ℕ → ℕ → Result (List Column)
deserialize_columns raw zero offset = ok []
deserialize_columns raw (suc n) offset = do
  throw_if (ltb (length raw) offset) Error.runtime_error
  (c, size) ← Column.deserialize (drop offset raw)
  cs ← deserialize_columns raw n ((offset + size) % 2 ^ 16)
  ok (c ∷ cs)

unfoldable pub deserialize : List ℕ → Result (List Column)
deserialize raw = do
  throw_if (ltb (length raw) 2) Error.runtime_error
  length_arr ← subspan raw 0 2
  deserialize_columns raw (of_bytes length_arr) 2

-- The constructor from bytes refuses nothing of its own.
unfoldable pub of_raw : List ℕ → Result Schema
unfolding deserialize
of_raw raw = do cs ← deserialize raw; ok (record { columns = cs })

project_columns : Schema → List ℕ → Result (List Column)
unfolding column
project_columns s [] = ok []
project_columns s (i ∷ is) = do c ← column s i; cs ← project_columns s is; ok (c ∷ cs)

unfoldable pub projected : Schema → List ℕ → Result Schema
unfolding project_columns make
projected s idxs = do cs ← project_columns s idxs; make cs
