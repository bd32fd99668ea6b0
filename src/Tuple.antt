-- ===== src/Tuple.antt =====
-- tuple/tuple.hpp and tuple/tuple.cpp: a row of a table and the bytes that hold it. A loop over
-- the column indices is a recursion over the columns that carries the index. `to_string`, a debug
-- helper, is left out.
pub mod Fields
pub mod Stored
pub mod Bitmap
pub mod RoundTrip
pub mod Limits
pub mod Tests
use simple_duck_dbms.Base.{
  ℕ, zero, suc, ◌+◌, ◌-◌, ◌%◌, ◌^◌, Bool, true, false, ◌&&◌, ◌||◌, List, [], ◌∷◌, ◌++◌, Option,
  none, some, length, get_elem?, replicate, Result, ok, throw, Error, ◌>>=◌, ◌>>◌, throw_if, at,
  ltb, ◌==◌, if◌then◌else◌, not,
}
use simple_duck_dbms.Bytes.{to_bytes, of_bytes, subspan}
use simple_duck_dbms.Value.{
  TypeId, ValueType, Value, value_type, null, of_int64, of_uint64, of_int32, of_uint32, of_double,
  of_float, of_bool, of_string, of_vector, serialized_size, serialize_to,
}
use simple_duck_dbms.Column.{Column, is_fixed_size}
use simple_duck_dbms.Schema.{Schema, column_count, column_index, fixed_size}
use simple_duck_dbms.NullBitmap

pub record Tuple : Type 0 where
  pub schema : Schema
  pub values : List Value

value_code : ValueType → ℕ
value_code ValueType.int64 = 0
value_code ValueType.uint64 = 1
value_code ValueType.int32 = 2
value_code ValueType.uint32 = 3
value_code ValueType.double = 4
value_code ValueType.float = 5
value_code ValueType.bool = 6
value_code ValueType.string = 7
value_code ValueType.bytes = 8

-- The loop of the constructor: each value has the type of its column.
check_types : List Column → List Value → Result (Unit {0})
unfolding value_code value_type
check_types [] vs = ok tt
check_types (c ∷ cs) [] = ok tt
check_types (c ∷ cs) (v ∷ vs) = do
  t ← value_type c.type
  throw_if (not (value_code v.type == value_code t)) Error.runtime_error
  check_types cs vs

-- The constructor from values.
unfoldable pub make : List Value → Schema → Result Tuple
unfolding check_types
make values schema = do
  throw_if (not (length values == column_count schema)) Error.runtime_error
  check_types schema.columns values
  ok (record { schema = schema; values = values })

unfoldable pub get : Tuple → ℕ → Result Value
get t index = at (get_elem? t.values index)

unfoldable pub get_named : Tuple → List ℕ → Result Value
unfolding get
get_named t name = elim (column_index t.schema name) [
  | none ↦ throw Error.runtime_error
  | some index ↦ get t index
]

is_char : TypeId → Bool
is_char TypeId.char = true
is_char _ = false

is_varchar : TypeId → Bool
is_varchar TypeId.varchar = true
is_varchar _ = false

is_varbinary : TypeId → Bool
is_varbinary TypeId.varbinary = true
is_varbinary _ = false

-- The size checks of `serialize`, where they stand.
unfoldable pub check_size : Column → Value → Result (Unit {0})
unfolding is_char is_varchar is_varbinary
check_size c v =
    if v.is_null
    then ok tt
    else if is_char c.type || is_varchar c.type
    then (do
      value_size ← serialized_size v
      throw_if (is_char c.type && ltb c.length value_size) Error.runtime_error
      throw_if (is_varchar c.type && (ltb 0 c.length && ltb c.length value_size))
          Error.runtime_error
      throw_if (is_varchar c.type && ltb 0xFFFF value_size) Error.runtime_error
      throw_if (is_varbinary c.type && (ltb 0 c.length && ltb c.length value_size))
          Error.runtime_error
      throw_if (is_varbinary c.type && ltb 0xFFFF value_size) Error.runtime_error)
    else ok tt

-- `out.resize(out.size() + (fixed - written), 0)` if fewer bytes than `fixed` were written.
pub pad : ℕ → ℕ → List ℕ → List ℕ
pad fixed before out =
    let written = length out - before in
    if ltb written fixed then out ++ replicate (fixed - written) 0 else out

write_fixed : Column → Value → List ℕ → Result (List ℕ)
unfolding pad
write_fixed c v out = do
  fixed ← fixed_size c
  written ← (if v.is_null then ok out else serialize_to v out)
  ok (pad fixed (length out) written)

write_variable : Value → List ℕ → Result (List ℕ)
write_variable v out = do
  len ← (if v.is_null then ok 0 else (do n ← serialized_size v; ok (n % 2 ^ 16)))
  if v.is_null then ok (out ++ to_bytes 2 len) else serialize_to v (out ++ to_bytes 2 len)

-- One round of the second loop of `serialize`.
unfoldable pub write_column : Column → Value → List ℕ → Result (List ℕ)
unfolding write_fixed write_variable
write_column c v out = do
  check_size c v
  if is_fixed_size c then write_fixed c v out else write_variable v out

unfoldable pub write_columns : List Column → List Value → List ℕ → Result (List ℕ)
write_columns [] vs out = ok out
write_columns (c ∷ cs) [] out = throw Error.undefined
write_columns (c ∷ cs) (v ∷ vs) out = do out' ← write_column c v out; write_columns cs vs out'

-- The first loop of `serialize`, from column `i` on.
unfoldable pub mark_nulls : ℕ → List Column → List Value → List ℕ → Result (List ℕ)
mark_nulls i [] vs out = ok out
mark_nulls i (c ∷ cs) [] out = throw Error.undefined
mark_nulls i (c ∷ cs) (v ∷ vs) out = do
  out' ← (if v.is_null then NullBitmap.set_null out i else ok out)
  mark_nulls (suc i) cs vs out'

unfoldable pub serialize : Tuple → Result (List ℕ)
serialize t = do
  out ←
      mark_nulls 0 t.schema.columns t.values (replicate (NullBitmap.size (column_count t.schema)) 0)
  write_columns t.schema.columns t.values out

-- The offset is a `uint16_t`.
unfoldable pub read_length : List ℕ → ℕ → Result ℕ
read_length raw offset = do bytes ← subspan raw offset 2; ok (of_bytes bytes)

-- The new value of `offset` after a round of the loop of `compute_offsets`.
unfoldable pub next_offset : List ℕ → ℕ → Column → Result ℕ
next_offset raw offset c = do
  fixed ← fixed_size c
  if ltb 0 fixed
      then ok (offset + fixed)
      else (do n ← read_length raw (offset % 2 ^ 16); ok (offset + (n + 2)))

-- The loop: `offset` is a `size_t`, and what is kept of it a `uint16_t`.
unfoldable pub offsets_from : List ℕ → List Column → ℕ → Result (List ℕ)
offsets_from raw [] offset = ok []
offsets_from raw (c ∷ cs) offset = do
  next ← next_offset raw offset c
  others ← offsets_from raw cs next
  ok ((offset % 2 ^ 16) ∷ others)

unfoldable pub compute_offsets : List ℕ → Schema → Result (List ℕ)
compute_offsets raw s = offsets_from raw s.columns (NullBitmap.size (column_count s))

-- `s.resize(s.find_last_not_of('\0') + 1)`, or the empty string.
unfoldable pub strip_nuls : List ℕ → List ℕ
strip_nuls [] = []
strip_nuls (b ∷ bs) = elim (strip_nuls bs) [
  | [] ↦ if b == 0 then [] else b ∷ []
  | r ∷ rs ↦ b ∷ r ∷ rs
]

-- The switch of `deserialize_value`, on the bytes of the value.
unfoldable pub decode : TypeId → List ℕ → Result Value
decode TypeId.int64 bytes = do b ← subspan bytes 0 8; ok (of_int64 (of_bytes b))
decode TypeId.uint64 bytes = do b ← subspan bytes 0 8; ok (of_uint64 (of_bytes b))
decode TypeId.double bytes = do b ← subspan bytes 0 8; ok (of_double (of_bytes b))
decode TypeId.int32 bytes = do b ← subspan bytes 0 4; ok (of_int32 (of_bytes b))
decode TypeId.uint32 bytes = do b ← subspan bytes 0 4; ok (of_uint32 (of_bytes b))
decode TypeId.float bytes = do b ← subspan bytes 0 4; ok (of_float (of_bytes b))
decode TypeId.bool [] = throw Error.undefined
decode TypeId.bool (b ∷ bs) = ok (of_bool (not (b == 0)))
decode TypeId.char bytes = ok (of_string (strip_nuls bytes))
decode TypeId.varchar bytes = ok (of_string bytes)
decode TypeId.varbinary bytes = ok (of_vector bytes)
decode (TypeId.unknown n) bytes = throw Error.runtime_error

unfoldable pub read_value : List ℕ → ℕ → Column → Result Value
read_value raw offset c = do
  fixed ← fixed_size c
  (size, start) ←
      (if is_fixed_size c
        then ok (fixed, offset)
        else (do n ← read_length raw offset; ok (n, (offset + 2) % 2 ^ 16)))
  bytes ← subspan raw start size
  decode c.type bytes

unfoldable pub deserialize_value : List ℕ → ℕ → ℕ → Column → Result Value
unfolding read_value
deserialize_value raw offset column_index c = do
  is_null ← NullBitmap.is_null raw column_index
  if is_null then (do t ← value_type c.type; ok (null t)) else read_value raw offset c

unfoldable pub values_from : List ℕ → ℕ → List Column → List ℕ → Result (List Value)
values_from raw i [] offsets = ok []
values_from raw i (c ∷ cs) [] = throw Error.undefined
values_from raw i (c ∷ cs) (o ∷ offsets) = do
  v ← deserialize_value raw o i c
  vs ← values_from raw (suc i) cs offsets
  ok (v ∷ vs)

unfoldable pub deserialize : List ℕ → Schema → Result (List Value)
deserialize raw s = do offsets ← compute_offsets raw s; values_from raw 0 s.columns offsets

-- The constructor from bytes.
unfoldable pub of_raw : List ℕ → Schema → Result Tuple
of_raw raw s = do values ← deserialize raw s; ok (record { schema = s; values = values })
