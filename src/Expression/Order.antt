-- ===== src/Expression/Order.antt =====
-- What `compare` decides: the order of the integers that two integral values stand for, and the
-- same answer, mirrored, when the operands change places.
use simple_duck_dbms.Base.{
  ℕ, ◌^◌, ◌<◌, ◌≡◌, refl, ap, subst, arith, Bool, true, false, ◌||◌, List, [], ◌∷◌, ok, ◌>>=◌,
}
use simple_duck_dbms.Base.Int.{ℤ, pos, signed32, signed64}
use simple_duck_dbms.Value.{
  ValueType, Variant, Value, of_int64, of_uint64, of_int32, of_uint32, of_double, of_float, of_bool,
  of_string, of_vector, as_uint64, as_integral, as_double, as_float, as_bool, as_string, as_bytes,
  is_integral, is_floating, is_numeric,
}
use simple_duck_dbms.Expression.{
  Floats, CompareResult, to_uint64, compare_generic, compare_ℤ, compare_ℕ, lex_lt, compare_bytes,
  compare_bool, compare_integral, compare_double, compare,
}

-- A value of an integral type, within its word, stands for an integer.
pub data Integral : Value → ℤ → Type 0 where
  int32 : (n : ℕ) → n < 2 ^ 32 → Integral (of_int32 n) (signed32 n)
  int64 : (n : ℕ) → n < 2 ^ 64 → Integral (of_int64 n) (signed64 n)
  uint32 : (n : ℕ) → n < 2 ^ 32 → Integral (of_uint32 n) (pos n)
  uint64 : (n : ℕ) → n < 2 ^ 64 → Integral (of_uint64 n) (pos n)

-- Whatever the two widths and signs are, `compare` orders two integral values as the integers that
-- they stand for.
pub compare-Integral :
    (fl : Floats) (l r : Value) (a b : ℤ)
    → Integral l a
    → Integral r b
    → compare fl l r ≡ ok (compare_ℤ a b)
unfolding compare compare_integral compare_ℤ compare_ℕ of_int32 of_int64 of_uint32 of_uint64
    as_uint64 as_integral is_integral is_floating is_numeric
compare-Integral fl l r a b (int32 n h) (int32 m k) = refl
compare-Integral fl l r a b (int32 n h) (int64 m k) = refl
compare-Integral fl l r a b (int32 n h) (uint32 m k) = refl
compare-Integral fl l r a b (int32 n h) (uint64 m k) = ground arith
compare-Integral fl l r a b (int64 n h) (int32 m k) = refl
compare-Integral fl l r a b (int64 n h) (int64 m k) = refl
compare-Integral fl l r a b (int64 n h) (uint32 m k) = refl
compare-Integral fl l r a b (int64 n h) (uint64 m k) = ground arith
compare-Integral fl l r a b (uint32 n h) (int32 m k) = refl
compare-Integral fl l r a b (uint32 n h) (int64 m k) = refl
compare-Integral fl l r a b (uint32 n h) (uint32 m k) = refl
compare-Integral fl l r a b (uint32 n h) (uint64 m k) = ground arith
compare-Integral fl l r a b (uint64 n h) (int32 m k) = ground arith
compare-Integral fl l r a b (uint64 n h) (int64 m k) = ground arith
compare-Integral fl l r a b (uint64 n h) (uint32 m k) = ground arith
compare-Integral fl l r a b (uint64 n h) (uint64 m k) = ground arith

pub data Floating : Value → Type 0 where
  double : (n : ℕ) → Floating (of_double n)
  float : (n : ℕ) → Floating (of_float n)

-- The `double` that a number is converted to, and whether its type is floating.
pub data Numeric (fl : Floats) : Bool → Value → ℕ → Type 0 where
  double : (n : ℕ) → Numeric fl true (of_double n) n
  float : (n : ℕ) → Numeric fl true (of_float n) (fl.widen n)
  int32 : (n : ℕ) → Numeric fl false (of_int32 n) (fl.of_uint64 (to_uint64 (signed32 n)))
  int64 : (n : ℕ) → Numeric fl false (of_int64 n) (fl.of_uint64 (to_uint64 (signed64 n)))
  uint32 : (n : ℕ) → Numeric fl false (of_uint32 n) (fl.of_uint64 (to_uint64 (pos n)))
  uint64 : (n : ℕ) → Numeric fl false (of_uint64 n) (fl.of_uint64 n)

-- Two numbers of which one is floating are compared as `double`s, an integer z as that of
-- z mod 2 ^ 64.
pub compare-Numeric :
    (fl : Floats) (f g : Bool) (l r : Value) (a b : ℕ)
    → Numeric fl f l a
    → Numeric fl g r b
    → (f || g) ≡ true
    → compare fl l r ≡ ok (compare_double fl a b)
unfolding compare of_int32 of_int64 of_uint32 of_uint64 of_double of_float as_uint64 as_integral
    as_double as_float is_integral is_floating is_numeric
compare-Numeric fl f g l r a b (double n) (double m) h = refl
compare-Numeric fl f g l r a b (float n) (double m) h = refl
compare-Numeric fl f g l r a b (int32 n) (double m) h = refl
compare-Numeric fl f g l r a b (int64 n) (double m) h = refl
compare-Numeric fl f g l r a b (uint32 n) (double m) h = refl
compare-Numeric fl f g l r a b (uint64 n) (double m) h = refl
compare-Numeric fl f g l r a b x y h = ground arith

Integral-Numeric :
    (fl : Floats) {v : Value} {z : ℤ}
    → Integral v z
    → Numeric fl false v (fl.of_uint64 (to_uint64 z))
unfolding to_uint64
Integral-Numeric fl (Integral.int32 n h) = Numeric.int32 n
Integral-Numeric fl (Integral.int64 n h) = Numeric.int64 n
Integral-Numeric fl (Integral.uint32 n h) = Numeric.uint32 n
Integral-Numeric fl (Integral.uint64 n h) =
    subst (λ x. Numeric fl false (of_uint64 n) (fl.of_uint64 x)) (omega arith) (Numeric.uint64 n)

Floating-Numeric : (fl : Floats) {v : Value} → Floating v → (d : ℕ) × Numeric fl true v d
Floating-Numeric fl (Floating.double n) = (n, Numeric.double n)
Floating-Numeric fl (Floating.float n) = (fl.widen n, Numeric.float n)

-- A value whose payload is of its type, or NULL.
pub data Typed : Value → Type 0 where
  absent : (t : ValueType) (p : Variant) → Typed (record { type = t; is_null = true; payload = p })
  integral : (v : Value) (z : ℤ) → Integral v z → Typed v
  floating : (v : Value) → Floating v → Typed v
  bool : (b : Bool) → Typed (of_bool b)
  string : (s : List ℕ) → Typed (of_string s)
  bytes : (s : List ℕ) → Typed (of_vector s)

abbrev pub flip : CompareResult → CompareResult
flip CompareResult.less = CompareResult.greater
flip CompareResult.greater = CompareResult.less
flip CompareResult.eq = CompareResult.eq
flip CompareResult.unknown = CompareResult.unknown

lex_lt_asym : (l r : List ℕ) → lex_lt l r ≡ true → lex_lt r l ≡ false
unfolding lex_lt
lex_lt_asym l [] h = cc
lex_lt_asym [] (b ∷ r) h = refl
lex_lt_asym (a ∷ l) (b ∷ r) h = ground (arith, lex_lt_asym l r)

flip-compare_generic :
    (lt gt : Bool) → (lt ≡ true → gt ≡ false) → compare_generic gt lt ≡ flip (compare_generic lt gt)
unfolding compare_generic
flip-compare_generic lt gt h = ground arith

flip-compare_ℤ : (a b : ℤ) → compare_ℤ b a ≡ flip (compare_ℤ a b)
unfolding compare_ℤ
flip-compare_ℤ a b = ground arith

flip-compare_bytes : (l r : List ℕ) → compare_bytes r l ≡ flip (compare_bytes l r)
unfolding compare_bytes
flip-compare_bytes l r = flip-compare_generic (lex_lt l r) (lex_lt r l) (lex_lt_asym l r)

flip-compare_bool : (l r : Bool) → compare_bool r l ≡ flip (compare_bool l r)
unfolding compare_bool
flip-compare_bool l r = ground arith

flip-compare_double : (fl : Floats) (l r : ℕ) → compare_double fl r l ≡ flip (compare_double fl l r)
unfolding compare_double compare_generic
flip-compare_double fl l r = ground (arith, fl.lt_asym l r)

flip-compare-Numeric :
    (fl : Floats) (f g : Bool) (l r : Value) (a b : ℕ)
    → Numeric fl f l a
    → Numeric fl g r b
    → (f || g) ≡ true
    → compare fl r l ≡ (compare fl l r >>= λ c. ok (flip c))
flip-compare-Numeric fl f g l r a b x y h = rw (
  compare-Numeric fl f g l r a b x y h,
  compare-Numeric fl g f r l b a y x (ground arith),
  flip-compare_double fl a b,
)

-- Two values compare the other way round when they change places.
pub compare-flip :
    (fl : Floats) (l r : Value)
    → Typed l
    → Typed r
    → compare fl r l ≡ (compare fl l r >>= λ c. ok (flip c))
unfolding compare of_int32 of_int64 of_uint32 of_uint64 of_double of_float of_bool of_string
    of_vector as_bool as_string as_bytes is_integral is_floating is_numeric
compare-flip fl l r (integral v a h) (integral w b k) =
    rw (compare-Integral fl v w a b h k, compare-Integral fl w v b a k h, flip-compare_ℤ a b)
compare-flip fl l r (integral v a h) (floating w k) =
    let (d, x) = Floating-Numeric fl k in
    flip-compare-Numeric fl false true v w (fl.of_uint64 (to_uint64 a)) d (Integral-Numeric fl h) x
      refl
compare-flip fl l r (floating w k) (integral v a h) =
    let (d, x) = Floating-Numeric fl k in
    flip-compare-Numeric fl true false w v d (fl.of_uint64 (to_uint64 a)) x (Integral-Numeric fl h)
      refl
compare-flip fl l r (floating v h) (floating w k) =
    let (d, x) = Floating-Numeric fl h in
    let (e, y) = Floating-Numeric fl k in flip-compare-Numeric fl true true v w d e x y refl
compare-flip fl l r (bool n) (bool m) = ap ok (flip-compare_bool n m)
compare-flip fl l r (string n) (string m) = ap ok (flip-compare_bytes n m)
compare-flip fl l r (bytes n) (bytes m) = ap ok (flip-compare_bytes n m)
compare-flip fl l r (absent t p) k = ground arith
compare-flip fl l r h (absent t p) = ground arith
compare-flip fl l r (integral v a (Integral.int32 n h)) (bool b) = refl
compare-flip fl l r (bool b) (integral v a (Integral.int32 n h)) = refl
compare-flip fl l r (floating v (Floating.double h)) (bool b) = refl
compare-flip fl l r (bool b) (floating v (Floating.double h)) = refl
compare-flip fl l r (integral v a (Integral.int32 n h)) (string s) = refl
compare-flip fl l r (string s) (integral v a (Integral.int32 n h)) = refl
compare-flip fl l r (floating v (Floating.double h)) (string s) = refl
compare-flip fl l r (string s) (floating v (Floating.double h)) = refl
compare-flip fl l r (integral v a (Integral.int32 n h)) (bytes s) = refl
compare-flip fl l r (bytes s) (integral v a (Integral.int32 n h)) = refl
compare-flip fl l r (floating v (Floating.double h)) (bytes s) = refl
compare-flip fl l r (bytes s) (floating v (Floating.double h)) = refl
compare-flip fl l r h k = refl
