-- ===== src/Memory/Frames.antt =====
-- What a write leaves of the reads elsewhere.
use simple_duck_dbms.Base.{
  ℕ, zero, suc, ◌+◌, ◌^◌, ◌≤◌, ◌<◌, ◌≡◌, ◌⊎◌, refl, sym, ap, ◌∙◌, arith, List, [], ◌∷◌, length, All,
  ◌++◌, ◌==◌, if◌then◌else◌,
}
use simple_duck_dbms.Bytes.{IsByte}
use simple_duck_dbms.Memory.{Memory, read16, write16, read_bytes, write_bytes}

-- Every cell holds a byte.
abbrev pub AllBytes : Memory → Type 0
AllBytes m = (x : ℕ) → m x < 256

-- The blocks [a, a + n) and [b, b + k) do not meet.
abbrev pub Apart : ℕ → ℕ → ℕ → ℕ → Type 0
Apart a n b k = (a + n ≤ b) ⊎ (b + k ≤ a)

pub read16-lt : (m : Memory) (a : ℕ) → AllBytes m → read16 m a < 2 ^ 16
unfolding read16
read16-lt m a h = omega (arith, h a, h (a + 1))

pub write16_outside : (m : Memory) (a v x : ℕ) → Apart a 2 x 1 → write16 m a v x ≡ m x
unfolding write16
write16_outside m a v x h = ground arith

pub write16-AllBytes : (m : Memory) (a v : ℕ) → AllBytes m → AllBytes (write16 m a v)
unfolding write16
write16-AllBytes m a v h x = ground (arith, h x)

pub read16-write16_self : (m : Memory) (a v : ℕ) → v < 2 ^ 16 → read16 (write16 m a v) a ≡ v
unfolding read16 write16
read16-write16_self m a v h = ground arith

pub read16-write16-Apart :
    (m : Memory) (a v b : ℕ) → Apart a 2 b 2 → read16 (write16 m a v) b ≡ read16 m b
unfolding read16 write16
read16-write16-Apart m a v b h = ground arith

pub write_bytes_outside :
    (m : Memory) (a : ℕ) (bs : List ℕ) (x : ℕ)
    → Apart a (length bs) x 1
    → write_bytes m a bs x ≡ m x
unfolding write_bytes
write_bytes_outside m a [] x h = refl
write_bytes_outside m a (b ∷ bs) x h =
    write_bytes_outside (λ y. if y == a then b else m y) (a + 1) bs x (omega arith) ∙ ground arith

pub write_bytes-AllBytes :
    (m : Memory) (a : ℕ) (bs : List ℕ) → AllBytes m → All IsByte bs → AllBytes (write_bytes m a bs)
unfolding write_bytes
write_bytes-AllBytes m a [] h k = h
write_bytes-AllBytes m a (b ∷ bs) h k =
    write_bytes-AllBytes (λ x. if x == a then b else m x) (a + 1) bs (λ x. ground (arith, h x, k.0))
      k.1

pub read16-write_bytes-Apart :
    (m : Memory) (a : ℕ) (bs : List ℕ) (b : ℕ)
    → Apart a (length bs) b 2
    → read16 (write_bytes m a bs) b ≡ read16 m b
unfolding read16
read16-write_bytes-Apart m a bs b h = omega (
  arith,
  write_bytes_outside m a bs b (omega arith),
  write_bytes_outside m a bs (b + 1) (omega arith),
)

-- Reads of a block depend on the block alone.
pub read_bytes_agree :
    (m m' : Memory) (a n : ℕ)
    → ((x : ℕ) → a ≤ x → x < a + n → m x ≡ m' x)
    → read_bytes m a n ≡ read_bytes m' a n
unfolding read_bytes
read_bytes_agree m m' a zero h = refl
read_bytes_agree m m' a (suc n) h = rw (
  h a (omega arith) (omega arith),
  read_bytes_agree m m' (a + 1) n (λ x lo hi. h x (omega arith) (omega arith)),
)

pub read_bytes-write_bytes :
    (m : Memory) (a : ℕ) (bs : List ℕ) → read_bytes (write_bytes m a bs) a (length bs) ≡ bs
unfolding read_bytes write_bytes
read_bytes-write_bytes m a [] = refl
read_bytes-write_bytes m a (b ∷ bs) =
    rw
      (
        write_bytes_outside (λ x. if x == a then b else m x) (a + 1) bs a (omega arith),
        read_bytes-write_bytes (λ x. if x == a then b else m x) (a + 1) bs,
      )
      (ground arith)

pub length-read_bytes : (m : Memory) (a n : ℕ) → length (read_bytes m a n) ≡ n
unfolding read_bytes
length-read_bytes m a zero = refl
length-read_bytes m a (suc n) = ap suc (length-read_bytes m (a + 1) n)

pub read_bytes-IsByte : (m : Memory) (a n : ℕ) → AllBytes m → All IsByte (read_bytes m a n)
unfolding read_bytes
read_bytes-IsByte m a zero h = tt
read_bytes-IsByte m a (suc n) h = (h a, read_bytes-IsByte m (a + 1) n h)

-- Reads of equal blocks at two places.
pub read_bytes_shift :
    (m m' : Memory) (a b n : ℕ)
    → ((x : ℕ) → x < n → m (a + x) ≡ m' (b + x))
    → read_bytes m a n ≡ read_bytes m' b n
unfolding read_bytes
read_bytes_shift m m' a b zero h = refl
read_bytes_shift m m' a b (suc n) h =
    let (p, q) : (a + 0 ≡ a) × (b + 0 ≡ b) = (omega arith, omega arith) in
    let first : m a ≡ m' b = ap m (sym p) ∙ h 0 (omega arith) ∙ ap m' q in
    rw (
      first,
      read_bytes_shift m m' (a + 1) (b + 1) n (λ x lt.
          let (s, t) : (a + 1 + x ≡ a + suc x) × (b + 1 + x ≡ b + suc x) =
            (omega arith, omega arith) in
          ap m s ∙ h (suc x) (omega arith) ∙ ap m' (sym t)),
    )

pub read_bytes-+ :
    (m : Memory) (a n k : ℕ) → read_bytes m a (n + k) ≡ read_bytes m a n ++ read_bytes m (a + n) k
unfolding read_bytes
read_bytes-+ m a zero k =
    let (p, q) : (0 + k ≡ k) × (a + 0 ≡ a) = (omega arith, omega arith) in rw (p, q) refl
read_bytes-+ m a (suc n) k =
    let (p, q) : (suc n + k ≡ suc (n + k)) × (a + suc n ≡ a + 1 + n) = (omega arith, omega arith) in
    rw (p, q, read_bytes-+ m (a + 1) n k) refl
