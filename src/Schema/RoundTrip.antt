-- ===== src/Schema/RoundTrip.antt =====
-- Writing a schema and reading it back.
use mathlib.Core.List.{append_assoc, append-nil}
use simple_duck_dbms.Base.{
  ℕ, suc, ◌+◌, ◌%◌, ◌^◌, ◌≤◌, ◌<◌, ◌≡◌, refl, arith, List, [], ◌∷◌, ◌++◌, length, drop, ok, le→ltb,
  All, length-append, drop-append,
}
use simple_duck_dbms.Bytes.{to_bytes, length-to_bytes, of_bytes-to_bytes, subspan_part}
use simple_duck_dbms.Column.{Column}
use simple_duck_dbms.Column
use simple_duck_dbms.Column.RoundTrip.{IsColumn, length-serialize, deserialize-serialize}
use simple_duck_dbms.Schema.{
  Schema, serialize_columns, serialize, deserialize_columns, deserialize, of_raw,
}

-- The bytes that the columns take.
abbrev pub columns_size : List Column → ℕ
columns_size [] = 0
columns_size (c ∷ cs) = length c.name + 6 + columns_size cs

-- One round of the loop.
column_step :
    (raw here : List ℕ) (n : ℕ) (c : Column) (cs : List Column) (offset size : ℕ)
    → offset ≤ length raw
    → drop offset raw ≡ here
    → Column.deserialize here ≡ ok (c, size)
    → deserialize_columns raw n ((offset + size) % 2 ^ 16) ≡ ok cs
    → deserialize_columns raw (suc n) offset ≡ ok (c ∷ cs)
unfolding deserialize_columns
column_step raw here n c cs offset size room e first others =
    rw (le→ltb (length raw) offset room, e, first, others)

-- The loop reads back the columns that stand behind a prefix, up to the offset 65535.
columns_round_trip :
    (pre : List ℕ) (cs : List Column) (rest : List ℕ)
    → All IsColumn cs
    → length pre + columns_size cs < 2 ^ 16
    → deserialize_columns
        (pre ++ (serialize_columns (length cs) cs ++ rest))
        (length cs)
        (length pre)
      ≡ ok cs
unfolding serialize_columns deserialize_columns
columns_round_trip pre [] rest hs h = refl
columns_round_trip pre (c ∷ cs) rest (hc, hs) h =
    let bytes = Column.serialize c in
    let others = serialize_columns (length cs) cs in
    let offset : (length pre + (length c.name + 6) % 2 ^ 16) % 2 ^ 16 ≡ length (pre ++ bytes) =
      omega (arith, length-append pre bytes, length-serialize c) in
    column_step (pre ++ ((bytes ++ others) ++ rest)) ((bytes ++ others) ++ rest) (length cs) c cs
      (length pre) ((length c.name + 6) % 2 ^ 16)
      (omega (arith, length-append pre ((bytes ++ others) ++ rest)))
      (drop-append pre ((bytes ++ others) ++ rest))
      (rw (append_assoc bytes others rest) (deserialize-serialize c (others ++ rest) hc))
      (rw (offset, append_assoc bytes others rest, ← append_assoc pre bytes (others ++ rest))
        (columns_round_trip (pre ++ bytes) cs rest hs
          (omega (arith, length-append pre bytes, length-serialize c))))

pub columns_size-le : (cs : List Column) → length cs ≤ columns_size cs
columns_size-le [] = omega arith
columns_size-le (c ∷ cs) = omega (arith, columns_size-le cs)

-- The count of columns is read first.
deserialize_count :
    (n : ℕ) (cs : List Column)
    → n < 256 ^ 2
    → deserialize (to_bytes 2 n ++ serialize_columns n cs)
      ≡ deserialize_columns (to_bytes 2 n ++ serialize_columns n cs) n 2
unfolding deserialize
deserialize_count n cs h = rw (
  le→ltb (length (to_bytes 2 n ++ serialize_columns n cs)) 2
      (omega (arith, length-append (to_bytes 2 n) (serialize_columns n cs), length-to_bytes 2 n)),
  subspan_part [] (to_bytes 2 n) (serialize_columns n cs) 0 2 refl
      (omega (arith, length-to_bytes 2 n)),
  of_bytes-to_bytes 2 n h,
)

-- A schema whose bytes number less than 65536 comes back from them.
pub schema_of_raw-serialize :
    (s : Schema)
    → All IsColumn s.columns
    → columns_size s.columns + 2 < 2 ^ 16
    → of_raw (serialize s) ≡ ok s
unfolding of_raw serialize
schema_of_raw-serialize s hs h =
    let n = length s.columns in
    let few : n % 2 ^ 16 ≡ n = omega (arith, columns_size-le s.columns) in
    let small : n < 256 ^ 2 = omega (arith, columns_size-le s.columns) in
    let loop : deserialize_columns (to_bytes 2 n ++ (serialize_columns n s.columns ++ [])) n
          (length (to_bytes 2 n))
        ≡ ok s.columns =
      columns_round_trip (to_bytes 2 n) s.columns [] hs (omega (arith, length-to_bytes 2 n)) in
    rw (few, deserialize_count n s.columns small)
      (rw (rw (append-nil (serialize_columns n s.columns), length-to_bytes 2 n) at loop))
