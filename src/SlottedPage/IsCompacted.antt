-- ===== src/SlottedPage/IsCompacted.antt =====
-- `is_compacted` on a page that `compact` has made.
use simple_duck_dbms.Base.{
  ℕ, suc, ◌+◌, ◌-◌, ◌%◌, ◌^◌, ◌≤◌, ◌<◌, ◌≡◌, ◌≢◌, refl, arith, true, false, none, ◌==◌,
}
use simple_duck_dbms.Memory.{Memory}
use simple_duck_dbms.SlottedPage.{
  slot_count, slot_offset, slot_length, compacted_from, is_compacted, compact,
}
use simple_duck_dbms.SlottedPage.Invariant.{IsPage}
use simple_duck_dbms.SlottedPage.CompactLoop.{live_below-zero}
use simple_duck_dbms.SlottedPage.Packed.{
  packed, compact_eq, built, below, packed_count, packed_live,
}

-- The loop returns at slot 1, when its tuple does not start where that of slot 0 ends.
stops_at_one :
    (m : Memory) (k : ℕ)
    → slot_offset m 0 ≢ 0
    → slot_offset m 1 ≢ 0
    → (slot_offset m 0 + slot_length m 0) % 2 ^ 16 ≢ slot_offset m 1
    → compacted_from m 0 (suc (suc k)) (slot_offset m 0) ≡ none
unfolding compacted_from
stops_at_one m k live₀ live₁ gap =
    let t₀ : (slot_offset m 0 == 0) ≡ false = ground arith in
    let t₁ : (slot_offset m 1 == 0) ≡ false = ground arith in
    let s : (slot_offset m 0 == slot_offset m 0) ≡ true = ground arith in
    let g : ((slot_offset m 0 + slot_length m 0) % 2 ^ 16 == slot_offset m 1) ≡ false =
      ground arith in
    rw (t₀, s, t₁, g) refl

-- After `compact`, `is_compacted` answers false on a well-formed page whose slots 0 and 1 hold
-- tuples that are not both empty: the tuples lie in the reverse order of the one it looks for.
pub is_compacted-compact :
    (m : Memory)
    → IsPage m
    → 2 ≤ slot_count m
    → slot_offset m 0 ≢ 0
    → slot_offset m 1 ≢ 0
    → 0 < slot_length m 0 + slot_length m 1
    → is_compacted (compact m) ≡ false
unfolding is_compacted
is_compacted-compact m p two live₀ live₁ bytes =
    let (a, len₀, end₀, step₀, mono₀) = packed_live m p 0 (omega arith) live₀ in
    let (b, len₁, end₁, step₁, mono₁) = packed_live m p 1 (omega arith) live₁ in
    let m' = packed m p in
    let k = slot_count m - 2 in
    let count : slot_count m' ≡ suc (suc k) = omega (arith, packed_count m p) in
    let low = below m p in
    let top = (built m p).offset in
    let from = live_below-zero m in
    let stop : compacted_from m' 0 (suc (suc k)) (slot_offset m' 0) ≡ none =
      stops_at_one m' k (λ e. omega arith) (λ e. omega arith) (λ e. omega arith) in
    rw (compact_eq m p, count, stop) (ground arith)
