-- ===== src/NullBitmap/Laws.antt =====
-- What a bit of the bitmap is after a bit of it was set.
use simple_duck_dbms.Base.{
  ℕ, zero, suc, ◌*◌, ◌/◌, ◌%◌, ◌<◌, ◌≡◌, ◌≢◌, refl, ◌∙◌, arith, Bool, true, false, not, ◌&&◌, ◌||◌,
  List, [], ◌∷◌, ◌++◌, sym, some, inl, inr, length, get_elem?, set, replicate, All, ok, ltb,
  if◌then◌else◌, ◌==◌, ==_iff, Bool-cases, get_elem?-set_self, get_elem?-set_ne, get_elem?_of_lt,
  length-set,
}
use simple_duck_dbms.Bytes.{IsByte}
use simple_duck_dbms.NullBitmap.{test_bit, with_bit, byte_at, is_null, set_null}

-- A Boolean law is checked at each of the first values.
holds_up_to : (ℕ → Bool) → ℕ → Bool
holds_up_to law zero = true
holds_up_to law (suc limit) =
    let others = holds_up_to law limit in if law limit then others else false

value_of_holds_up_to :
    (law : ℕ → Bool) (limit v : ℕ) → v < limit → holds_up_to law limit ≡ true → law v ≡ true
unfolding holds_up_to
value_of_holds_up_to law zero v inside all = elim inside [ ]
value_of_holds_up_to law (suc limit) v inside all = ground (arith, value_of_holds_up_to law limit v)

-- Equality of Booleans as a Boolean.
same : Bool → Bool → Bool
same true b = b
same false b = not b

same→eq : (a b : Bool) → same a b ≡ true → a ≡ b
unfolding same
same→eq a b h = ground arith

bit_law : ℕ → ℕ → ℕ → Bool
unfolding same test_bit with_bit
bit_law b k j = same (test_bit (with_bit b k) j) (k == j || test_bit b j) && ltb (with_bit b k) 256

every_bit_law :
    holds_up_to (λ b. holds_up_to (λ k. holds_up_to (λ j. bit_law b k j) 8) 8) 256 ≡ true
unfolding holds_up_to bit_law
every_bit_law = refl

bit_law_holds : (b k j : ℕ) → b < 256 → k < 8 → j < 8 → bit_law b k j ≡ true
bit_law_holds b k j hb hk hj =
    let for_byte =
      value_of_holds_up_to (λ b. holds_up_to (λ k. holds_up_to (λ j. bit_law b k j) 8) 8) 256 b hb
        every_bit_law in
    let for_bit = value_of_holds_up_to (λ k. holds_up_to (λ j. bit_law b k j) 8) 8 k hk for_byte in
    value_of_holds_up_to (λ j. bit_law b k j) 8 j hj for_bit

test_bit-with_bit :
    (b k j : ℕ) → b < 256 → k < 8 → j < 8 → test_bit (with_bit b k) j ≡ (k == j || test_bit b j)
unfolding bit_law
test_bit-with_bit b k j hb hk hj =
    same→eq (test_bit (with_bit b k) j) (k == j || test_bit b j)
      (ground (arith, bit_law_holds b k j hb hk hj))

with_bit-IsByte : (b k : ℕ) → b < 256 → k < 8 → with_bit b k < 256
unfolding bit_law
with_bit-IsByte b k hb hk = ground (arith, bit_law_holds b k 0 hb hk (omega arith))

All-set : (bitmap : List ℕ) (i v : ℕ) → v < 256 → All IsByte bitmap → All IsByte (set bitmap i v)
All-set [] i v h a = tt
All-set (b ∷ bitmap) zero v h a = (h, a.1)
All-set (b ∷ bitmap) (suc i) v h a = (a.0, All-set bitmap i v h a.1)

byte_lt : (bitmap : List ℕ) (i b : ℕ) → All IsByte bitmap → get_elem? bitmap i ≡ some b → b < 256
byte_lt [] i b a e = cc
byte_lt (c ∷ bitmap) zero b a e = ground arith
byte_lt (c ∷ bitmap) (suc i) b a e = byte_lt bitmap i b a.1 e

pub All-replicate : (n : ℕ) → All IsByte (replicate n 0)
All-replicate zero = tt
All-replicate (suc n) = (omega arith, All-replicate n)

-- What `set_null` leaves: a bitmap of the same size in which the bit of `column` is set, and every
-- other bit is as it was.
pub record Marks (before : List ℕ) (column : ℕ) (after : List ℕ) : Type 0 where
  pub marked : set_null before column ≡ ok after
  pub same_size : length after ≡ length before
  pub bytes : All IsByte after
  pub reads :
      (j : ℕ)
      → j < 8 * length before
      → is_null after j ≡ (if column == j then ok true else is_null before j)

byte_at-some : (bitmap : List ℕ) (i b : ℕ) → get_elem? bitmap i ≡ some b → byte_at bitmap i ≡ ok b
unfolding byte_at
byte_at-some bitmap i b e = rw (e, byte_at)

is_null_some :
    (bitmap : List ℕ) (j b : ℕ)
    → get_elem? bitmap (j / 8) ≡ some b
    → is_null bitmap j ≡ ok (test_bit b (j % 8))
unfolding is_null
is_null_some bitmap j b e = rw (byte_at-some bitmap (j / 8) b e)

is_null-set :
    (bitmap : List ℕ) (c j b : ℕ)
    → All IsByte bitmap
    → get_elem? bitmap (c / 8) ≡ some b
    → j < 8 * length bitmap
    → c < 8 * length bitmap
    → is_null (set bitmap (c / 8) (with_bit b (c % 8))) j
      ≡ (if c == j then ok true else is_null bitmap j)
is_null-set bitmap c j b a e hj hc = elim (Bool-cases (c / 8 == j / 8)) [
  | inl here ↦
      let same_byte : c / 8 ≡ j / 8 = (==_iff _ _).0 here in
      let old : get_elem? bitmap (j / 8) ≡ some b = rw (← same_byte) e in
      let new : get_elem? (set bitmap (c / 8) (with_bit b (c % 8))) (j / 8)
          ≡ some (with_bit b (c % 8)) =
        rw (← same_byte) (get_elem?-set_self bitmap (c / 8) _ (omega arith)) in
      rw (is_null_some _ j _ new, is_null_some bitmap j b old)
        (ground (
          arith,
          test_bit-with_bit b (c % 8) (j % 8) (byte_lt bitmap _ b a e) (omega arith) (omega arith),
        ))
  | inr other ↦
      let (d, old) = get_elem?_of_lt bitmap (j / 8) (omega arith) in
      let apart : c / 8 ≢ j / 8 = ground arith in
      let new : get_elem? (set bitmap (c / 8) (with_bit b (c % 8))) (j / 8) ≡ some d =
        get_elem?-set_ne bitmap (c / 8) (j / 8) _ apart ∙ old in
      rw (is_null_some _ j _ new, is_null_some bitmap j d old) (ground arith)
]

-- Marking a column within a bitmap of bytes succeeds, keeps the size of the bitmap and its bytes
-- bytes, and changes what is read of that column and of no other.
pub set_null-Marks :
    (bitmap : List ℕ) (column : ℕ)
    → All IsByte bitmap
    → column < 8 * length bitmap
    → (after : List ℕ) × Marks bitmap column after
unfolding set_null
set_null-Marks bitmap column a h =
    let (b, e) = get_elem?_of_lt bitmap (column / 8) (omega arith) in
    let after : List ℕ = set bitmap (column / 8) (with_bit b (column % 8)) in
    (
      after,
      record {
        marked = rw (byte_at-some bitmap (column / 8) b e);
        same_size = length-set bitmap (column / 8) _;
        bytes =
            All-set bitmap (column / 8) _
              (with_bit-IsByte b (column % 8) (byte_lt bitmap _ b a e) (omega arith)) a;
        reads = λ j hj. is_null-set bitmap column j b a e hj h;
      },
    )

get_elem?-replicate : (n i : ℕ) → i < n → get_elem? {A = ℕ} (replicate n 0) i ≡ some 0
get_elem?-replicate zero i h = elim h [ ]
get_elem?-replicate (suc n) zero h = refl
get_elem?-replicate (suc n) (suc i) h = get_elem?-replicate n i (omega arith)

test_bit-zero : (k : ℕ) → test_bit 0 k ≡ false
unfolding test_bit
test_bit-zero k = ground arith

-- A fresh bitmap marks nothing.
pub is_null-replicate : (n j : ℕ) → j < 8 * n → is_null (replicate n 0) j ≡ ok false
is_null-replicate n j h =
    rw (
      is_null_some (replicate n 0) j 0 (get_elem?-replicate n (j / 8) (omega arith)),
      test_bit-zero,
    )

get_elem?-append :
    (xs ys : List ℕ) (i : ℕ) → i < length xs → get_elem? (xs ++ ys) i ≡ get_elem? xs i
get_elem?-append [] ys i h = elim h [ ]
get_elem?-append (x ∷ xs) ys zero h = refl
get_elem?-append (x ∷ xs) ys (suc i) h = get_elem?-append xs ys i (omega arith)

-- What stands behind the bitmap does not matter.
pub is_null-append :
    (bitmap post : List ℕ) (j : ℕ)
    → j < 8 * length bitmap
    → is_null (bitmap ++ post) j ≡ is_null bitmap j
is_null-append bitmap post j h =
    let (b, e) = get_elem?_of_lt bitmap (j / 8) (omega arith) in
    is_null_some (bitmap ++ post) j b (get_elem?-append bitmap post (j / 8) (omega arith) ∙ e)
    ∙ sym (is_null_some bitmap j b e)
