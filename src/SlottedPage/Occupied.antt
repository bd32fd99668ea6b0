-- ===== src/SlottedPage/Occupied.antt =====
-- `next_occupied_slot`: the next slot that holds a tuple.
use simple_duck_dbms.Base.{
  ℕ, zero, suc, ◌+◌, ◌-◌, ◌%◌, ◌^◌, ◌≤◌, ◌<◌, ◌≡◌, ◌≢◌, ◌⊎◌, inl, inr, sym, subst, arith, false,
  Option, none, some, ltb, ltb→le, ◌==◌, eq_or_ne, Bool-cases,
}
use simple_duck_dbms.Memory.{Memory}
use simple_duck_dbms.SlottedPage.{
  slot_count, slot_offset, invalid_slot_offset, occupied_from, next_occupied_slot,
}
use simple_duck_dbms.SlottedPage.Invariant.{tuple_at, tuple_at_free, tuple_at_beyond}
use simple_duck_dbms.SlottedPage.Remove.{live_ne_none}

-- From slot `i` on, `k` is the first that holds a tuple, or none does.
pub data FirstHeld (m : Memory) (i : ℕ) : Option ℕ → Type 0 where
  first :
      (k : ℕ)
      → i ≤ k
      → k < slot_count m
      → tuple_at m k ≢ none
      → ((x : ℕ) → i ≤ x → x < k → tuple_at m x ≡ none)
      → FirstHeld m i (some k)
  none_held : ((x : ℕ) → i ≤ x → tuple_at m x ≡ none) → FirstHeld m i none

-- A slot that holds nothing in front.
skip_one :
    (m : Memory) (i : ℕ) (r : Option ℕ)
    → tuple_at m i ≡ none
    → FirstHeld m (i + 1) r
    → FirstHeld m i r
skip_one m i r gone (first k le lt held before) = first k (omega arith) lt held (λ x lo hi.
    elim (eq_or_ne x i) [
      | inl e ↦ subst (λ y. tuple_at m y ≡ none) (sym e) gone
      | inr ne ↦ before x (omega arith) hi
    ])
skip_one m i r gone (none_held all) = none_held (λ x lo. elim (eq_or_ne x i) [
  | inl e ↦ subst (λ y. tuple_at m y ≡ none) (sym e) gone
  | inr ne ↦ all x (omega arith)
])

occupied_from-FirstHeld :
    (m : Memory) (i n : ℕ)
    → slot_count m ≤ i + n
    → i + n ≤ slot_count m ⊎ (n ≡ 0)
    → FirstHeld m i (occupied_from m i n)
unfolding occupied_from
occupied_from-FirstHeld m i zero past short = none_held (λ x lo. tuple_at_beyond m x (omega arith))
occupied_from-FirstHeld m i (suc n) past short = elim short [
  | inr z ↦ absurd (omega arith)
  | inl within ↦ elim (eq_or_ne (slot_offset m i) 0) [
    | inl free ↦
        rw (free, occupied_from)
          (skip_one m i (occupied_from m (i + 1) n) (tuple_at_free m i free)
            (occupied_from-FirstHeld m (i + 1) n (omega arith) (inl (omega arith))))
    | inr live ↦
        let used : (slot_offset m i == invalid_slot_offset) ≡ false = ground (arith, live) in
        rw (used, occupied_from)
          (first i (omega arith) (omega arith) (live_ne_none m i (omega arith) live)
            (λ x lo hi. absurd (omega arith)))
  ]
]

pub next_occupied_slot-FirstHeld :
    (m : Memory) (i : ℕ) → i + 1 < 2 ^ 16 → FirstHeld m (i + 1) (next_occupied_slot m i)
unfolding next_occupied_slot
next_occupied_slot-FirstHeld m i small =
    let start : (i + 1) % 2 ^ 16 ≡ i + 1 = omega arith in
    rw start (
      occupied_from-FirstHeld m (i + 1) (slot_count m - (i + 1)) (omega arith)
        (elim (Bool-cases (ltb (i + 1) (slot_count m))) [
          | inl h ↦ inl (ground arith)
          | inr h ↦ inr (let le = ltb→le (i + 1) (slot_count m) h in omega arith)
        ]))
