-- ===== src/Bytes.antt =====
-- Bytes as native numbers, and the `std::bit_cast` and `memcpy` between a word and its bytes that
-- tuple/column.cpp, tuple/schema.cpp, tuple/tuple.cpp and tuple/value.cpp use. The byte order is
-- that of a little-endian machine.
use mathlib.Core.List.{append-nil}
use native.Mathlib.Nat.{pow-suc}
use simple_duck_dbms.Base.{
  ℕ, zero, suc, ◌+◌, ◌*◌, ◌/◌, ◌%◌, ◌^◌, ◌<◌, ◌≡◌, refl, ap, arith, List, [], ◌∷◌, ◌++◌, length,
  take, drop, Result, ok, throw, Error, ltb, ◌==◌, ◌&&◌, Bool, true, false, if◌then◌else◌, All,
  length-append, drop-append, take-append,
}

abbrev pub IsByte : ℕ → Type 0
IsByte b = b < 256

-- `bit_cast<array<byte, w>>(v)`, lowest byte first.
unfoldable pub to_bytes : ℕ → ℕ → List ℕ
to_bytes zero v = []
to_bytes (suc w) v = (v % 256) ∷ to_bytes w (v / 256)

-- `bit_cast` of an array of bytes to a word.
unfoldable pub of_bytes : List ℕ → ℕ
of_bytes [] = 0
of_bytes (b ∷ bs) = b + 256 * of_bytes bs

-- `span.subspan(offset, size)`: outside the span the behaviour is undefined.
unfoldable pub subspan : List ℕ → ℕ → ℕ → Result (List ℕ)
subspan raw offset size =
    if ltb (length raw) (offset + size)
    then throw Error.undefined
    else ok (take size (drop offset raw))

pub length-to_bytes : (w v : ℕ) → length (to_bytes w v) ≡ w
unfolding to_bytes
length-to_bytes zero v = refl
length-to_bytes (suc w) v = ap suc (length-to_bytes w (v / 256))

pub to_bytes-IsByte : (w v : ℕ) → All IsByte (to_bytes w v)
unfolding to_bytes
to_bytes-IsByte zero v = tt
to_bytes-IsByte (suc w) v = (omega arith, to_bytes-IsByte w (v / 256))

-- A word comes back from its bytes.
pub of_bytes-to_bytes : (w v : ℕ) → v < 256 ^ w → of_bytes (to_bytes w v) ≡ v
unfolding to_bytes of_bytes
of_bytes-to_bytes zero v h = omega arith
of_bytes-to_bytes (suc w) v h =
    omega (arith, of_bytes-to_bytes w (v / 256) (omega (arith, pow-suc 256 w)))

-- A part that stands between two others is what `subspan` returns.
pub subspan_part :
    (pre part post : List ℕ) (offset size : ℕ)
    → offset ≡ length pre
    → size ≡ length part
    → subspan (pre ++ (part ++ post)) offset size ≡ ok part
unfolding subspan
subspan_part pre part post offset size e f =
    rw (e, f, drop-append, take-append)
      (ground (arith, length-append pre (part ++ post), length-append part post))

-- `==` of two strings.
unfoldable pub bytes_eq : List ℕ → List ℕ → Bool
bytes_eq [] [] = true
bytes_eq (a ∷ as') (b ∷ bs) = a == b && bytes_eq as' bs
bytes_eq _ _ = false

pub bytes_eq→eq : (s t : List ℕ) → bytes_eq s t ≡ true → s ≡ t
unfolding bytes_eq
bytes_eq→eq [] [] h = refl
bytes_eq→eq [] (b ∷ t) h = cc
bytes_eq→eq (a ∷ s) [] h = cc
bytes_eq→eq (a ∷ s) (b ∷ t) h = ground (arith, bytes_eq→eq s t)

pub bytes_eq_refl : (s : List ℕ) → bytes_eq s s ≡ true
unfolding bytes_eq
bytes_eq_refl [] = refl
bytes_eq_refl (a ∷ s) = ground (arith, bytes_eq_refl s)

pub subspan_all :
    (bytes : List ℕ) (size : ℕ) → size ≡ length bytes → subspan bytes 0 size ≡ ok bytes
subspan_all bytes size e = rw (append-nil bytes) at (subspan_part [] bytes [] 0 size refl e)
