-- ===== src/Column/RoundTrip.antt =====
-- Writing a column and reading it back.
use mathlib.Core.List.{append_assoc}
use simple_duck_dbms.Base.{
  ℕ, ◌+◌, ◌%◌, ◌^◌, ◌≤◌, ◌<◌, ◌≡◌, refl, arith, List, [], ◌++◌, length, ok, le→ltb, length-append,
}
use simple_duck_dbms.Bytes.{
  to_bytes, of_bytes, subspan, length-to_bytes, of_bytes-to_bytes, subspan_part,
}
use simple_duck_dbms.Value.{TypeId}
use simple_duck_dbms.Column.{Column, type_code, code_type, serialize, deserialize}

-- A type that is an enumerator, or a pattern that is none.
abbrev pub IsType : TypeId → Type 0
IsType (TypeId.unknown n) = (10 ≤ n) × (n < 2 ^ 16)
IsType _ = Unit

-- What a C++ column holds: its type and its length are 16-bit words. The name is short enough for
-- its length to be written in 16 bits.
pub record IsColumn (c : Column) : Type 0 where
  pub type_ok : IsType c.type
  pub length_ok : c.length < 2 ^ 16
  pub name_ok : length c.name < 2 ^ 16

type_code-lt : (t : TypeId) → IsType t → type_code t < 2 ^ 16
unfolding type_code
type_code-lt (TypeId.unknown n) h = h.1
type_code-lt _ h = omega arith

code_type-type_code : (t : TypeId) → IsType t → code_type (type_code t) ≡ t
unfolding type_code code_type
code_type-type_code (TypeId.unknown n) h = ground arith
code_type-type_code _ h = refl

pub length-serialize : (c : Column) → length (serialize c) ≡ length c.name + 6
unfolding serialize
length-serialize c = omega (
  arith,
  length-append (to_bytes 2 (length c.name % 2 ^ 16))
      (c.name ++ (to_bytes 2 (type_code c.type) ++ to_bytes 2 c.length)),
  length-append c.name (to_bytes 2 (type_code c.type) ++ to_bytes 2 c.length),
  length-append (to_bytes 2 (type_code c.type)) (to_bytes 2 c.length),
  length-to_bytes,
)

-- The reads of `deserialize`, on four fields that stand one after the other.
deserialize_fields :
    (a n t l rest : List ℕ)
    → length a ≡ 2
    → of_bytes a ≡ length n
    → length t ≡ 2
    → length l ≡ 2
    → deserialize (a ++ (n ++ (t ++ (l ++ rest))))
      ≡ ok (
        record { name = n; type = code_type (of_bytes t); length = of_bytes l },
        (2 + length n + 2 + 2) % 2 ^ 16,
      )
unfolding deserialize
deserialize_fields a n t l rest ha hn ht hl = rw (
  le→ltb (length raw) 2 (omega (arith, size)),
  subspan_part [] a (n ++ (t ++ (l ++ rest))) 0 2 refl (omega arith),
  hn,
  le→ltb (length raw) (2 + length n + 4) (omega (arith, size)),
  subspan_part a n (t ++ (l ++ rest)) 2 (length n) (omega arith) refl,
  third,
  fourth,
)
  where
    raw : List ℕ
    raw = a ++ (n ++ (t ++ (l ++ rest)))

    size : length raw ≡ length n + length rest + 6
    size = omega (
      arith,
      length-append a (n ++ (t ++ (l ++ rest))),
      length-append n (t ++ (l ++ rest)),
      length-append t (l ++ rest),
      length-append l rest,
    )

    third : subspan raw (2 + length n) 2 ≡ ok t
    third = rw (← append_assoc a n (t ++ (l ++ rest))) (
        subspan_part (a ++ n) t (l ++ rest) (2 + length n) 2 (omega (arith, length-append a n))
          (omega arith))

    fourth : subspan raw (2 + length n + 2) 2 ≡ ok l
    fourth =
        rw (← append_assoc a n (t ++ (l ++ rest)), ← append_assoc (a ++ n) t (l ++ rest))
          (subspan_part ((a ++ n) ++ t) l rest (2 + length n + 2) 2
            (omega (arith, length-append (a ++ n) t, length-append a n)) (omega arith))

-- A column whose name, type and length fit the format comes back from its bytes, whatever bytes
-- follow, with the number of bytes read as a `uint16_t`.
pub deserialize-serialize :
    (c : Column) (rest : List ℕ)
    → IsColumn c
    → deserialize (serialize c ++ rest) ≡ ok (c, (length c.name + 6) % 2 ^ 16)
unfolding serialize
deserialize-serialize c rest h =
    let name_size : length c.name % 2 ^ 16 ≡ length c.name = omega arith in
    let count : of_bytes (to_bytes 2 (length c.name % 2 ^ 16)) ≡ length c.name =
      rw name_size (of_bytes-to_bytes 2 (length c.name) h.name_ok) in
    simp append_assoc (
      rw
        (
          deserialize_fields (to_bytes 2 (length c.name % 2 ^ 16)) c.name
              (to_bytes 2 (type_code c.type)) (to_bytes 2 c.length) rest (length-to_bytes 2 _) count
              (length-to_bytes 2 _) (length-to_bytes 2 _),
          of_bytes-to_bytes 2 (type_code c.type) (type_code-lt c.type h.type_ok),
          of_bytes-to_bytes 2 c.length h.length_ok,
          code_type-type_code c.type h.type_ok,
        )
        (ground arith))
