-- ===== src/Tuple/Fields.antt =====
-- One column of a row: the bytes that `serialize` appends for it, and how they are read back.
use mathlib.Core.List.{append_assoc, append-nil}
use simple_duck_dbms.Base.{
  ℕ, suc, ◌+◌, ◌-◌, ◌%◌, ◌^◌, ◌≤◌, ◌<◌, ◌≡◌, refl, sym, arith, true, false, List, [], ◌++◌, length,
  replicate, ok, ◌>>=◌, ltb, lt→ltb, tests, Bool-cases, inl, inr, length-append, length-replicate,
}
use simple_duck_dbms.Bytes.{to_bytes, subspan, length-to_bytes, of_bytes-to_bytes, subspan_part}
use simple_duck_dbms.Value.{ValueType, Value, value_type, null, serialized_size, serialize_to}
use simple_duck_dbms.Column.{Column, is_fixed_size}
use simple_duck_dbms.Schema.{fixed_size}
use simple_duck_dbms.Tuple.{
  check_size, pad, write_column, read_length, next_offset, decode, read_value,
}

-- `bytes` is what the column takes in the row, and the value is read back from it wherever it
-- stands below the offset 65536.
pub record Layout (c : Column) (v : Value) (bytes : List ℕ) : Type 0 where
  pub written : (out : List ℕ) → write_column c v out ≡ ok (out ++ bytes)
  pub stepped :
      (pre post : List ℕ)
      → length pre + length bytes < 2 ^ 16
      → next_offset (pre ++ (bytes ++ post)) (length pre) c ≡ ok (length pre + length bytes)
  pub read :
      v.is_null ≡ false
      → (pre post : List ℕ) → length pre + length bytes < 2 ^ 16
      → read_value (pre ++ (bytes ++ post)) (length pre) c ≡ ok v
  pub absent : v.is_null ≡ true → (value_type c.type >>= λ t. ok (null t)) ≡ ok v

pub fixed_Layout :
    (c : Column) (v : Value) (n : ℕ) (bytes : List ℕ)
    → is_fixed_size c ≡ true
    → fixed_size c ≡ ok (suc n)
    → length bytes ≡ suc n
    → ((out : List ℕ) → write_column c v out ≡ ok (out ++ bytes))
    → (v.is_null ≡ false → decode c.type bytes ≡ ok v)
    → (v.is_null ≡ true → (value_type c.type >>= λ t. ok (null t)) ≡ ok v)
    → Layout c v bytes
unfolding next_offset read_value
fixed_Layout c v n bytes fix size len wr dec nul = record {
  written = wr;
  stepped = λ pre post h. rw (size, lt→ltb 0 (suc n) (omega arith), len);
  read = λ e pre post h.
      rw (size, fix, subspan_part pre bytes post (length pre) (suc n) refl (sym len)) (dec e);
  absent = nul;
}

read_length_part :
    (pre bytes post : List ℕ)
    → length bytes < 2 ^ 16
    → read_length (pre ++ ((to_bytes 2 (length bytes) ++ bytes) ++ post)) (length pre)
      ≡ ok (length bytes)
unfolding read_length
read_length_part pre bytes post len = rw (
  append_assoc (to_bytes 2 (length bytes)) bytes post,
  subspan_part pre (to_bytes 2 (length bytes)) (bytes ++ post) (length pre) 2 refl
      (sym (length-to_bytes 2 (length bytes))),
  of_bytes-to_bytes 2 (length bytes) len,
)

subspan_body :
    (pre bytes post : List ℕ)
    → subspan
        (pre ++ ((to_bytes 2 (length bytes) ++ bytes) ++ post))
        (length pre + 2)
        (length bytes)
      ≡ ok bytes
subspan_body pre bytes post =
    let prefix = to_bytes 2 (length bytes) in
    rw (append_assoc prefix bytes post, ← append_assoc pre prefix (bytes ++ post))
      (subspan_part (pre ++ prefix) bytes post (length pre + 2) (length bytes)
        (omega (arith, length-append pre prefix, length-to_bytes 2 (length bytes))) refl)

length-prefixed : (bytes : List ℕ) → length (to_bytes 2 (length bytes) ++ bytes) ≡ length bytes + 2
length-prefixed bytes =
    omega (arith, length-append (to_bytes 2 (length bytes)) bytes, length-to_bytes 2 (length bytes))

variable_Layout :
    (c : Column) (v : Value) (bytes : List ℕ)
    → is_fixed_size c ≡ false
    → fixed_size c ≡ ok 0
    → length bytes < 2 ^ 16
    → ((out : List ℕ) → write_column c v out ≡ ok (out ++ (to_bytes 2 (length bytes) ++ bytes)))
    → (v.is_null ≡ false → decode c.type bytes ≡ ok v)
    → (v.is_null ≡ true → (value_type c.type >>= λ t. ok (null t)) ≡ ok v)
    → Layout c v (to_bytes 2 (length bytes) ++ bytes)
unfolding next_offset read_value
variable_Layout c v bytes var size len wr dec nul = record {
  written = wr;
  stepped = λ pre post h.
      let small : length pre % 2 ^ 16 ≡ length pre = omega arith in
      rw (size, small, read_length_part pre bytes post len, length-prefixed bytes);
  read = λ e pre post h.
      let small : (length pre + 2) % 2 ^ 16 ≡ length pre + 2 =
        omega (arith, length-prefixed bytes) in
      rw (size, var, read_length_part pre bytes post len, small, subspan_body pre bytes post)
        (dec e);
  absent = nul;
}

-- `resize` to the width of the column adds the NUL bytes that are missing.
pub pad_lem :
    (fixed : ℕ) (out s : List ℕ)
    → length s ≤ fixed
    → pad fixed (length out) (out ++ s) ≡ out ++ (s ++ replicate (fixed - length s) 0)
unfolding pad
pad_lem fixed out s h =
    let w : length (out ++ s) - length out ≡ length s = omega (arith, length-append out s) in
    rw w (elim (Bool-cases (ltb (length s) fixed)) [
      | inl short ↦ rw short (append_assoc out s _)
      | inr full ↦
          let none_missing : fixed - length s ≡ 0 = omega (tests, h) in
          rw (full, none_missing, append-nil s)
    ])

pad_exact :
    (fixed : ℕ) (out s : List ℕ) → length s ≡ fixed → pad fixed (length out) (out ++ s) ≡ out ++ s
pad_exact fixed out s h =
    let none_missing : fixed - length s ≡ 0 = omega arith in
    rw (pad_lem fixed out s (omega arith), none_missing, append-nil s)

pad_nothing : (n : ℕ) (out : List ℕ) → pad (suc n) (length out) out ≡ out ++ replicate (suc n) 0
unfolding pad
pad_nothing n out =
    let w : length out - length out ≡ 0 = omega arith in
    let all_missing : suc n - 0 ≡ suc n = omega arith in
    rw (w, lt→ltb 0 (suc n) (omega arith), all_missing)

-- A NULL value of a fixed-size column takes its width in zero bytes.
pub absent_fixed :
    (c : Column) (vt : ValueType) (n : ℕ)
    → value_type c.type ≡ ok vt
    → is_fixed_size c ≡ true
    → fixed_size c ≡ ok (suc n)
    → Layout c (null vt) (replicate (suc n) 0)
unfolding null write_column check_size
absent_fixed c vt n vt_ok fix size =
    fixed_Layout c (null vt) n (replicate (suc n) 0) fix size (length-replicate (suc n) 0)
      (λ out. rw (fix, size, pad_nothing n out)) (λ e. cc) (λ _. rw vt_ok)

-- A NULL value of another column takes a length of 0.
pub absent_variable :
    (c : Column) (vt : ValueType)
    → value_type c.type ≡ ok vt
    → is_fixed_size c ≡ false
    → fixed_size c ≡ ok 0
    → Layout c (null vt) (to_bytes 2 0 ++ [])
unfolding null write_column check_size
absent_variable c vt vt_ok var size =
    variable_Layout c (null vt) [] var size (omega arith)
      (λ out. rw (var, append-nil (to_bytes 2 0))) (λ e. cc) (λ _. rw vt_ok)

-- A value of a fixed-size column that is written as exactly its width.
pub present_fixed :
    (c : Column) (v : Value) (n : ℕ) (bytes : List ℕ)
    → v.is_null ≡ false
    → is_fixed_size c ≡ true
    → fixed_size c ≡ ok (suc n)
    → check_size c v ≡ ok tt
    → length bytes ≡ suc n
    → ((out : List ℕ) → serialize_to v out ≡ ok (out ++ bytes))
    → decode c.type bytes ≡ ok v
    → Layout c v bytes
unfolding write_column
present_fixed c v n bytes some_v fix size checked len ser dec =
    fixed_Layout c v n bytes fix size len
      (λ out. rw (checked, fix, size, ser, some_v, pad_exact (suc n) out bytes len)) (λ _. dec)
      (λ e. cc)

pub present_variable :
    (c : Column) (v : Value) (bytes : List ℕ)
    → v.is_null ≡ false
    → is_fixed_size c ≡ false
    → fixed_size c ≡ ok 0
    → check_size c v ≡ ok tt
    → length bytes < 2 ^ 16
    → serialized_size v ≡ ok (length bytes)
    → ((out : List ℕ) → serialize_to v out ≡ ok (out ++ bytes))
    → decode c.type bytes ≡ ok v
    → Layout c v (to_bytes 2 (length bytes) ++ bytes)
unfolding write_column
present_variable c v bytes some_v var size checked len vsize ser dec =
    let small : length bytes % 2 ^ 16 ≡ length bytes = omega arith in
    variable_Layout c v bytes var size len
      (λ out.
        simp (checked, var, some_v)
          (rw (vsize, small, ser, append_assoc out (to_bytes 2 (length bytes)) bytes)))
      (λ _. dec) (λ e. cc)
