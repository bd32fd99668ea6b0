-- ===== src/Tuple/Stored.antt =====
-- The values that a column can hold, type by type, and the bytes that they take.
use simple_duck_dbms.Base.{
  ℕ, zero, suc, ◌-◌, ◌^◌, ◌≤◌, ◌<◌, ◌≡◌, refl, sym, arith, Bool, true, false, List, [], ◌∷◌, ◌++◌,
  length, replicate, ok, le→ltb, length-append, length-replicate,
}
use simple_duck_dbms.Bytes.{to_bytes, subspan, length-to_bytes, of_bytes-to_bytes, subspan_all}
use simple_duck_dbms.Value.{
  TypeId, ValueType, Value, value_type, null, of_int64, of_uint64, of_int32, of_uint32, of_double,
  of_float, of_bool, of_string, of_vector, serialized_size, serialize_to, bool_byte,
}
use simple_duck_dbms.Column.{Column, is_fixed_size}
use simple_duck_dbms.Schema.{fixed_size}
use simple_duck_dbms.Tuple.Fields.{
  Layout, fixed_Layout, pad_lem, absent_fixed, absent_variable, present_fixed, present_variable,
}
use simple_duck_dbms.Tuple.{check_size, write_column, strip_nuls, decode}

-- A CHAR column has room for a byte.
abbrev pub IsSized : TypeId → ℕ → Type 0
IsSized TypeId.char l = (0 < l) × (l < 2 ^ 16)
IsSized _ l = Unit

-- A column of type `t` and length `l` can hold the value. A number is within its word, a string
-- within the column, and a CHAR string does not end in a NUL byte.
pub data Stored : TypeId → ℕ → Value → Type 0 where
  absent :
      (t : TypeId) (l : ℕ) (vt : ValueType)
      → value_type t ≡ ok vt
      → IsSized t l
      → Stored t l (null vt)
  int64 : (l n : ℕ) → n < 2 ^ 64 → Stored TypeId.int64 l (of_int64 n)
  uint64 : (l n : ℕ) → n < 2 ^ 64 → Stored TypeId.uint64 l (of_uint64 n)
  int32 : (l n : ℕ) → n < 2 ^ 32 → Stored TypeId.int32 l (of_int32 n)
  uint32 : (l n : ℕ) → n < 2 ^ 32 → Stored TypeId.uint32 l (of_uint32 n)
  double : (l n : ℕ) → n < 2 ^ 64 → Stored TypeId.double l (of_double n)
  float : (l n : ℕ) → n < 2 ^ 32 → Stored TypeId.float l (of_float n)
  bool : (l : ℕ) (b : Bool) → Stored TypeId.bool l (of_bool b)
  char :
      (l : ℕ) (s : List ℕ)
      → IsSized TypeId.char l
      → length s ≤ l
      → strip_nuls s ≡ s
      → Stored TypeId.char l (of_string s)
  bounded :
      (l : ℕ) (s : List ℕ)
      → 0 < l
      → length s ≤ l
      → length s < 2 ^ 16
      → Stored TypeId.varchar l (of_string s)
  unbounded : (s : List ℕ) → length s < 2 ^ 16 → Stored TypeId.varchar 0 (of_string s)
  varbinary : (l : ℕ) (b : List ℕ) → length b < 2 ^ 16 → Stored TypeId.varbinary l (of_vector b)

strip_nuls-replicate : (n : ℕ) → strip_nuls (replicate n 0) ≡ []
unfolding strip_nuls
strip_nuls-replicate zero = refl
strip_nuls-replicate (suc n) = rw (strip_nuls-replicate n)

strip_nuls-append : (s : List ℕ) (n : ℕ) → strip_nuls (s ++ replicate n 0) ≡ strip_nuls s
unfolding strip_nuls
strip_nuls-append [] n = strip_nuls-replicate n
strip_nuls-append (b ∷ s) n = rw (strip_nuls-append s n)

abbrev col : List ℕ → TypeId → ℕ → Column
col name t l = record { name = name; type = t; length = l }

word_Layout :
    (name : List ℕ) (t : TypeId) (l w n : ℕ) (v : Value)
    → v.is_null ≡ false
    → is_fixed_size (col name t l) ≡ true
    → fixed_size (col name t l) ≡ ok (suc w)
    → check_size (col name t l) v ≡ ok tt
    → ((out : List ℕ) → serialize_to v out ≡ ok (out ++ to_bytes (suc w) n))
    → decode t (to_bytes (suc w) n) ≡ ok v
    → (bytes : List ℕ) × Layout (col name t l) v bytes
word_Layout name t l w n v some_v fix size checked ser dec = (
  to_bytes (suc w) n,
  present_fixed (col name t l) v w (to_bytes (suc w) n) some_v fix size checked
      (length-to_bytes (suc w) n) ser dec,
)

whole_word : (w n : ℕ) → subspan (to_bytes w n) 0 w ≡ ok (to_bytes w n)
whole_word w n = subspan_all (to_bytes w n) w (sym (length-to_bytes w n))

unknown_type : (n : ℕ) (vt : ValueType) → ¬ (value_type (TypeId.unknown n) ≡ ok vt)
unfolding value_type
unknown_type n vt e = cc

absent_Layout :
    (name : List ℕ) (t : TypeId) (l : ℕ) (vt : ValueType)
    → value_type t ≡ ok vt
    → IsSized t l
    → (bytes : List ℕ) × Layout (col name t l) (null vt) bytes
unfolding is_fixed_size fixed_size
absent_Layout name TypeId.int64 l vt e h =
    (_, absent_fixed (col name TypeId.int64 l) vt 7 e refl refl)
absent_Layout name TypeId.uint64 l vt e h =
    (_, absent_fixed (col name TypeId.uint64 l) vt 7 e refl refl)
absent_Layout name TypeId.double l vt e h =
    (_, absent_fixed (col name TypeId.double l) vt 7 e refl refl)
absent_Layout name TypeId.int32 l vt e h =
    (_, absent_fixed (col name TypeId.int32 l) vt 3 e refl refl)
absent_Layout name TypeId.uint32 l vt e h =
    (_, absent_fixed (col name TypeId.uint32 l) vt 3 e refl refl)
absent_Layout name TypeId.float l vt e h =
    (_, absent_fixed (col name TypeId.float l) vt 3 e refl refl)
absent_Layout name TypeId.bool l vt e h =
    (_, absent_fixed (col name TypeId.bool l) vt 0 e refl refl)
absent_Layout name TypeId.char zero vt e h = absurd (omega arith)
absent_Layout name TypeId.char (suc n) vt e h =
    (_, absent_fixed (col name TypeId.char (suc n)) vt n e refl refl)
absent_Layout name TypeId.varchar l vt e h =
    (_, absent_variable (col name TypeId.varchar l) vt e refl refl)
absent_Layout name TypeId.varbinary l vt e h =
    (_, absent_variable (col name TypeId.varbinary l) vt e refl refl)
absent_Layout name (TypeId.unknown n) l vt e h = absurd (unknown_type n vt e)

pub Stored-Layout :
    (name : List ℕ) {t : TypeId} {l : ℕ} {v : Value}
    → Stored t l v
    → (bytes : List ℕ) × Layout (col name t l) v bytes
unfolding is_fixed_size fixed_size check_size serialize_to decode of_int64 of_uint64 of_int32
    of_uint32 of_double of_float of_bool of_string of_vector serialized_size write_column
Stored-Layout name (absent t l vt e h) = absent_Layout name t l vt e h
Stored-Layout name (int64 l n h) =
    word_Layout name TypeId.int64 l 7 n (of_int64 n) refl refl refl refl (λ out. refl)
      (rw (whole_word 8 n, of_bytes-to_bytes 8 n h))
Stored-Layout name (uint64 l n h) =
    word_Layout name TypeId.uint64 l 7 n (of_uint64 n) refl refl refl refl (λ out. refl)
      (rw (whole_word 8 n, of_bytes-to_bytes 8 n h))
Stored-Layout name (double l n h) =
    word_Layout name TypeId.double l 7 n (of_double n) refl refl refl refl (λ out. refl)
      (rw (whole_word 8 n, of_bytes-to_bytes 8 n h))
Stored-Layout name (int32 l n h) =
    word_Layout name TypeId.int32 l 3 n (of_int32 n) refl refl refl refl (λ out. refl)
      (rw (whole_word 4 n, of_bytes-to_bytes 4 n h))
Stored-Layout name (uint32 l n h) =
    word_Layout name TypeId.uint32 l 3 n (of_uint32 n) refl refl refl refl (λ out. refl)
      (rw (whole_word 4 n, of_bytes-to_bytes 4 n h))
Stored-Layout name (float l n h) =
    word_Layout name TypeId.float l 3 n (of_float n) refl refl refl refl (λ out. refl)
      (rw (whole_word 4 n, of_bytes-to_bytes 4 n h))
Stored-Layout name (bool l b) = (
  bool_byte b ∷ [],
  present_fixed (col name TypeId.bool l) (of_bool b) 0 (bool_byte b ∷ []) refl refl refl refl refl
      (λ out. refl) (ground arith),
)
Stored-Layout name (char zero s h fits stripped) = absurd (omega arith)
Stored-Layout name (char (suc n) s h fits stripped) = (
  s ++ replicate (suc n - length s) 0,
  fixed_Layout (col name TypeId.char (suc n)) (of_string s) n (s ++ replicate (suc n - length s) 0)
      refl refl
      (omega (
        arith,
        length-append s (replicate (suc n - length s) 0),
        length-replicate {A = ℕ} (suc n - length s) 0,
      ))
      (λ out. rw (le→ltb (suc n) (length s) fits, pad_lem (suc n) out s fits))
      (λ e. rw (strip_nuls-append s (suc n - length s), stripped)) (λ e. cc),
)
Stored-Layout name (bounded l s pos fits h) = (
  to_bytes 2 (length s) ++ s,
  present_variable (col name TypeId.varchar l) (of_string s) s refl refl refl (ground arith) h refl
      (λ out. refl) refl,
)
Stored-Layout name (unbounded s h) = (
  to_bytes 2 (length s) ++ s,
  present_variable (col name TypeId.varchar 0) (of_string s) s refl refl refl (ground arith) h refl
      (λ out. refl) refl,
)
Stored-Layout name (varbinary l b h) = (
  to_bytes 2 (length b) ++ b,
  present_variable (col name TypeId.varbinary l) (of_vector b) b refl refl refl refl h refl
      (λ out. refl) refl,
)
