-- ===== src/SlottedPage/CompactLoop.antt =====
-- The loop of `compact`: the tuples packed from the end of the page down, in the order of their
-- slots.
use simple_duck_dbms.Base.{
  ℕ, zero, suc, ◌+◌, ◌-◌, ◌*◌, ◌%◌, ◌^◌, ◌≤◌, ◌<◌, ◌≡◌, ◌≢◌, ◌⊎◌, inl, inr, refl, sym, ap, subst,
  ◌∙◌, arith, false, List, ◌∷◌, length, get_elem?, some, ◌==◌, Bool-cases, eq_or_ne, if◌then◌else◌,
}
use simple_duck_dbms.Base.Sums.{sum, sum-suc, sum-zero, sum_mono}
use simple_duck_dbms.Memory.{Memory, read_bytes, write_bytes}
use simple_duck_dbms.Memory.Frames.{
  AllBytes, read16-lt, write_bytes_outside, write_bytes-AllBytes, length-read_bytes,
  read_bytes-IsByte,
}
use simple_duck_dbms.SlottedPage.{slot_offset, slot_length, Compacted, compact_from, page_size}
use simple_duck_dbms.SlottedPage.Invariant.{live_length}

-- A copied block holds the bytes of its source.
copied :
    (buffer m : Memory) (a b n x : ℕ)
    → x < n
    → write_bytes buffer a (read_bytes m b n) (a + x) ≡ m (b + x)
unfolding write_bytes read_bytes
copied buffer m a b zero x h = absurd (omega arith)
copied buffer m a b (suc n) x h = elim (eq_or_ne x 0) [
  | inl e ↦
      let (p, q) : (a + x ≡ a) × (b + x ≡ b) = (omega arith, omega arith) in
      rw (p, q)
        (write_bytes_outside (λ y. if y == a then m b else buffer y) (a + 1)
            (read_bytes m (b + 1) n) a (omega arith)
          ∙ ground arith)
  | inr ne ↦
      let (p, q) : (a + x ≡ a + 1 + (x - 1)) × (b + x ≡ b + 1 + (x - 1)) =
        (omega arith, omega arith) in
      rw (p, q)
        (copied (λ y. if y == a then m b else buffer y) m (a + 1) (b + 1) n (x - 1) (omega arith))
]

-- The bytes of the live tuples below slot `i`.
unfoldable pub live_below : Memory → ℕ → ℕ
live_below m i = sum (live_length m) i

pub live_below-zero : (m : Memory) → live_below m 0 ≡ 0
unfolding live_below
live_below-zero m = sum-zero (live_length m)

pub live_below-suc : (m : Memory) (i : ℕ) → live_below m (i + 1) ≡ live_below m i + live_length m i
unfolding live_below
live_below-suc m i = let e : i + 1 ≡ suc i = omega arith in rw e (sum-suc (live_length m) i)

pub live_below_mono : (m : Memory) (i j : ℕ) → i ≤ j → live_below m i ≤ live_below m j
unfolding live_below
live_below_mono m i j h = sum_mono (live_length m) i j h

-- The entry of slot `j` after the compaction.
unfoldable pub new_slot : Memory → ℕ → ℕ × ℕ
new_slot m j =
    if slot_offset m j == 0 then (0, 0) else (page_size - live_below m (j + 1), slot_length m j)

pub live_length_live :
    (m : Memory) (i : ℕ) → slot_offset m i ≢ 0 → live_length m i ≡ slot_length m i
unfolding live_length
live_length_live m i live = ground arith

pub live_length_free : (m : Memory) (i : ℕ) → slot_offset m i ≡ 0 → live_length m i ≡ 0
unfolding live_length
live_length_free m i free = ground arith

-- What the loop, at slot `i`, has built when it ends at slot `e`.
pub record Moved (m : Memory) (i e : ℕ) (buffer : Memory) (c : Compacted) : Type 0 where
  pub offset : c.offset + live_below m e ≡ page_size
  pub size : i + length c.slots ≡ e
  pub slots : (j : ℕ) → i ≤ j → j < e → get_elem? c.slots (j - i) ≡ some (new_slot m j)
  pub outside :
      (x : ℕ)
      → (x + live_below m e < page_size) ⊎ (page_size ≤ x + live_below m i)
      → c.buffer x ≡ buffer x
  pub inside :
      (j x : ℕ)
      → i ≤ j
      → j < e
      → x < live_length m j
      → c.buffer (page_size - live_below m (j + 1) + x) ≡ m (slot_offset m j + x)
  pub bytes : AllBytes c.buffer

-- The vector of slots with one more in front.
more_slots :
    (m : Memory) (i e : ℕ) (slot : ℕ × ℕ) (slots : List (ℕ × ℕ))
    → slot ≡ new_slot m i
    → ((j : ℕ) → i + 1 ≤ j → j < e → get_elem? slots (j - (i + 1)) ≡ some (new_slot m j))
    → (j : ℕ) → i ≤ j
    → j < e
    → get_elem? (slot ∷ slots) (j - i) ≡ some (new_slot m j)
more_slots m i e slot slots new rest j lo hi = elim (eq_or_ne i j) [
  | inl same ↦ let q : j - i ≡ 0 = omega arith in rw q (ap some (new ∙ ap (new_slot m) same))
  | inr ne ↦ let q : j - i ≡ suc (j - (i + 1)) = omega arith in rw q (rest j (omega arith) hi)
]

-- A slot in front of what the loop built behind it.
module _ (m : Memory) (i e : ℕ) (buffer buffer' : Memory) (c : Compacted)
    (r : Moved m (i + 1) e buffer' c) (before : i < e) (fits : live_below m e ≤ page_size) where
  pub Moved-free :
      slot_offset m i ≡ 0
      → buffer' ≡ buffer
      → Moved m i e buffer (record c { slots = (0, 0) ∷ c.slots })
  unfolding new_slot
  Moved-free free same =
      let none : live_below m (i + 1) ≡ live_below m i = omega (arith, live_below-suc m i, empty) in
      record {
        offset = r.offset;
        size = omega (arith, r.size);
        slots = more_slots m i e (0, 0) c.slots (rw free refl) r.slots;
        outside = λ x h. r.outside x (omega (arith, none)) ∙ ap (λ b. b x) same;
        inside = λ j x lo hi within. elim (eq_or_ne i j) [
          | inl q ↦ absurd (omega (arith, subst (λ k. live_length m k ≡ 0) q empty))
          | inr ne ↦ r.inside j x (omega arith) hi within
        ];
        bytes = r.bytes;
      }
    where
      empty : live_length m i ≡ 0
      empty = live_length_free m i free

  pub Moved-live :
      (down : ℕ)
      → slot_offset m i ≢ 0
      → down + live_below m (i + 1) ≡ page_size
      → buffer' ≡ write_bytes buffer down (read_bytes m (slot_offset m i) (slot_length m i))
      → Moved m i e buffer (record c { slots = (down, slot_length m i) ∷ c.slots })
  unfolding new_slot
  Moved-live down live at_end copy =
      let len = live_length_live m i live in
      let step = live_below-suc m i in
      let mono = live_below_mono m (i + 1) e (omega arith) in
      let down_eq : page_size - live_below m (i + 1) ≡ down = omega arith in
      let test : (slot_offset m i == 0) ≡ false = ground arith in
      let block = length-read_bytes m (slot_offset m i) (slot_length m i) in
      record {
        offset = r.offset;
        size = omega (arith, r.size);
        slots = more_slots m i e (down, slot_length m i) c.slots (rw (test, down_eq) refl) r.slots;
        outside = λ x h.
            r.outside x (omega arith)
            ∙ ap (λ b. b x) copy
            ∙ write_bytes_outside buffer down (read_bytes m (slot_offset m i) (slot_length m i)) x
                (omega arith);
        inside = λ j x lo hi within. elim (eq_or_ne i j) [
          | inl q ↦
              subst (λ k. c.buffer (page_size - live_below m (k + 1) + x) ≡ m (slot_offset m k + x))
                q
                (self down at_end copy x
                  (omega (arith, subst (λ k. x < live_length m k) (sym q) within)))
          | inr ne ↦ r.inside j x (omega arith) hi within
        ];
        bytes = r.bytes;
      }
    where
      self :
          (down : ℕ)
          → down + live_below m (i + 1) ≡ page_size
          → buffer' ≡ write_bytes buffer down (read_bytes m (slot_offset m i) (slot_length m i))
          → (x : ℕ) → x < slot_length m i
          → c.buffer (page_size - live_below m (i + 1) + x) ≡ m (slot_offset m i + x)
      self down at_end copy x h =
          let down_eq : page_size - live_below m (i + 1) ≡ down = omega arith in
          rw down_eq (
            r.outside (down + x) (inr (omega arith))
            ∙ ap (λ b. b (down + x)) copy
            ∙ copied buffer m down (slot_offset m i) (slot_length m i) x h)

pub compact_from-Moved :
    (m : Memory) (i n e o : ℕ) (buffer : Memory)
    → AllBytes m
    → AllBytes buffer
    → i + n ≡ e
    → o + live_below m i ≡ page_size
    → live_below m e ≤ page_size
    → Moved m i e buffer (compact_from m i n o buffer)
unfolding compact_from
compact_from-Moved m i zero e o buffer bytes bytes' last start fits =
    let q : i ≡ e = omega arith in
    subst (λ k. Moved m i k buffer (compact_from m i 0 o buffer)) q
      (record {
        offset = start;
        size = omega arith;
        slots = λ j lo hi. absurd (omega arith);
        outside = λ x h. refl;
        inside = λ j x lo hi within. absurd (omega arith);
        bytes = bytes';
      })
compact_from-Moved m i (suc n) e o buffer bytes bytes' last start fits =
    let step = live_below-suc m i in
    elim (Bool-cases (slot_offset m i == 0)) [
      | inl t ↦
          let free : slot_offset m i ≡ 0 = ground arith in
          let empty = live_length_free m i free in
          rw t (
            Moved-free m i e buffer buffer (compact_from m (i + 1) n o buffer)
              (compact_from-Moved m (i + 1) n e o buffer bytes bytes' (omega arith) (omega arith)
                fits)
              (omega arith) fits free refl)
      | inr t ↦
          let live : slot_offset m i ≢ 0 = ground arith in
          let len = live_length_live m i live in
          let mono = live_below_mono m (i + 1) e (omega arith) in
          let short = read16-lt m (8 + 4 * i + 2) bytes in
          let down = (o + 2 ^ 16 - slot_length m i) % 2 ^ 16 in
          let block = read_bytes m (slot_offset m i) (slot_length m i) in
          let at_end : down + live_below m (i + 1) ≡ page_size = omega arith in
          rw t (
            Moved-live m i e buffer (write_bytes buffer down block)
              (compact_from m (i + 1) n down (write_bytes buffer down block))
              (compact_from-Moved m (i + 1) n e down (write_bytes buffer down block) bytes
                (write_bytes-AllBytes buffer down block bytes'
                  (read_bytes-IsByte m (slot_offset m i) (slot_length m i) bytes))
                (omega arith) at_end fits)
              (omega arith) fits down live at_end refl)
    ]
