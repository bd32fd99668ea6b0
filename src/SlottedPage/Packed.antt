-- ===== src/SlottedPage/Packed.antt =====
-- The bytes that `compact` writes: the header, the slots and the tuples.
use simple_duck_dbms.Base.{
  ℕ, ◌+◌, ◌-◌, ◌*◌, ◌/◌, ◌%◌, ◌^◌, ◌≤◌, ◌<◌, ◌≡◌, ◌≢◌, inl, inr, refl, ap, ◌∙◌, arith, true, false,
  not, ◌&&◌, ltb, ◌==◌, Bool-cases, eq_or_ne, if◌then◌else◌,
}
use simple_duck_dbms.Memory.{Memory, read16, write16, read32, write32, read_bytes}
use simple_duck_dbms.Memory.Frames.{
  AllBytes, read_bytes_shift, read16-lt, write16-AllBytes, read16-write16_self,
  read16-write16-Apart,
}
use simple_duck_dbms.SlottedPage.{
  next_page, slot_count, free_space_offset, slot_at, slot_offset, slot_length, Compacted,
  compact_from, write_slots, compact, page_size,
}
use simple_duck_dbms.SlottedPage.Fields.{slots_end}
use simple_duck_dbms.SlottedPage.Invariant.{IsPage}
use simple_duck_dbms.SlottedPage.CompactLoop.{
  live_below, live_below-zero, live_below-suc, live_below_mono, new_slot, Moved, compact_from-Moved,
  live_length_live,
}
use simple_duck_dbms.SlottedPage.CompactSlots.{
  read16-write_slots-Apart, write_slots-AllBytes, read16-write_slots,
}

new_slot_free : (m : Memory) (j : ℕ) → slot_offset m j ≡ 0 → new_slot m j ≡ (0, 0)
unfolding new_slot
new_slot_free m j free = rw free refl

new_slot_live :
    (m : Memory) (j : ℕ)
    → slot_offset m j ≢ 0
    → new_slot m j ≡ (page_size - live_below m (j + 1), slot_length m j)
unfolding new_slot
new_slot_live m j live = let t : (slot_offset m j == 0) ≡ false = ground arith in rw t refl

new_slot_lt :
    (m : Memory) (j : ℕ) → AllBytes m → ((new_slot m j).0 < 2 ^ 16) × ((new_slot m j).1 < 2 ^ 16)
unfolding slot_length
new_slot_lt m j bytes = elim (eq_or_ne (slot_offset m j) 0) [
  | inl free ↦ rw (new_slot_free m j free) (omega arith, omega arith)
  | inr live ↦ rw (new_slot_live m j live) (omega arith, length_lt m j bytes)
]
  where
    length_lt : (m : Memory) (j : ℕ) → AllBytes m → slot_length m j < 2 ^ 16
    length_lt m j bytes = read16-lt m (slot_at j + 2) bytes

module _ (m : Memory) (p : IsPage m) where
  n : ℕ
  n = slot_count m

  pub c : Compacted
  c = compact_from m 0 (slot_count m) 8192 (λ _. 0)

  pub built : Moved m 0 (slot_count m) (λ _. 0) c
  unfolding c live_below
  built =
      compact_from-Moved m 0 (slot_count m) (slot_count m) 8192 (λ _. 0) p.bytes (λ x. omega arith)
        (omega arith) (omega (arith, live_below-zero m)) (omega (arith, p.total))

  -- The new slots and the header lie below the tuples.
  pub below : slots_end m ≤ c.offset
  unfolding live_below
  below = omega (arith, p.total, p.room, built.offset)

  header : Memory
  header = write16 (write16 (write32 (λ _. 0) 0 (next_page m)) 4 (slot_count m)) 6 c.offset

  filled : Memory
  filled = write_slots header 0 c.slots

  pub packed : Memory
  packed x = if not (ltb x c.offset) && ltb x page_size then c.buffer x else filled x

  pub compact_eq : compact m ≡ packed
  unfolding compact packed filled header c
  compact_eq = refl

  word : (a : ℕ) → a + 2 ≤ slots_end m → read16 packed a ≡ read16 filled a
  unfolding packed read16
  word a h = ground (arith, below)

  header_word : (a : ℕ) → a + 2 ≤ 8 → read16 packed a ≡ read16 header a
  unfolding filled
  header_word a h = word a (omega arith) ∙ read16-write_slots-Apart header 0 c.slots a (omega arith)

  pub packed_count : slot_count packed ≡ slot_count m
  unfolding slot_count header
  packed_count =
      header_word 4 (omega arith)
      ∙ read16-write16-Apart _ 6 c.offset 4 (omega arith)
      ∙ read16-write16_self _ 4 (slot_count m) (omega (arith, read16-lt m 4 p.bytes))

  pub packed_space : free_space_offset packed + live_below m (slot_count m) ≡ page_size
  unfolding free_space_offset header
  packed_space = omega (
    arith,
    built.offset,
    header_word 6 (omega arith),
    read16-write16_self (write16 (write32 (λ _. 0) 0 (next_page m)) 4 (slot_count m)) 6 c.offset
        (omega (arith, built.offset)),
  )

  pub packed_link : next_page packed ≡ next_page m
  unfolding next_page read32 header write32
  packed_link =
      let v = read16 m 0 + 2 ^ 16 * read16 m 2 in
      let w₁ = write16 (λ _. 0) 0 (v % 2 ^ 16) in
      let w₂ = write16 w₁ 2 (v / 2 ^ 16 % 2 ^ 16) in
      let w₃ = write16 w₂ 4 (slot_count m) in
      omega (
        arith,
        read16-lt m 0 p.bytes,
        read16-lt m 2 p.bytes,
        header_word 0 (omega arith),
        header_word 2 (omega arith),
        read16-write16-Apart w₃ 6 c.offset 0 (omega arith),
        read16-write16-Apart w₃ 6 c.offset 2 (omega arith),
        read16-write16-Apart w₂ 4 (slot_count m) 0 (omega arith),
        read16-write16-Apart w₂ 4 (slot_count m) 2 (omega arith),
        read16-write16-Apart w₁ 2 (v / 2 ^ 16 % 2 ^ 16) 0 (omega arith),
        read16-write16_self (λ _. 0) 0 (v % 2 ^ 16) (omega arith),
        read16-write16_self w₁ 2 (v / 2 ^ 16 % 2 ^ 16) (omega arith),
      )

  entry :
      (j : ℕ)
      → j < slot_count m
      → (slot_offset packed j ≡ (new_slot m j).0) × (slot_length packed j ≡ (new_slot m j).1)
  unfolding slot_offset slot_length filled
  entry j h =
      let (small, short) = new_slot_lt m j p.bytes in
      let (a, b) =
        read16-write_slots header 0 j c.slots (new_slot m j).0 (new_slot m j).1 (omega arith)
          (built.slots j (omega arith) h) small short in
      (word (slot_at j) (omega arith) ∙ a, word (slot_at j + 2) (omega arith) ∙ b)

  pub packed_free : (j : ℕ) → j < slot_count m → slot_offset m j ≡ 0 → slot_offset packed j ≡ 0
  packed_free j h free = (entry j h).0 ∙ ap (λ e. e.0) (new_slot_free m j free)

  -- A live slot: its offset, its length, and the place of its tuple in the page.
  pub packed_live :
      (j : ℕ)
      → j < slot_count m
      → slot_offset m j ≢ 0
      → (slot_offset packed j ≡ page_size - live_below m (j + 1))
        × (slot_length packed j ≡ slot_length m j)
        × (slot_offset packed j + live_below m (j + 1) ≡ page_size)
        × (live_below m (j + 1) ≡ live_below m j + slot_length m j)
        × (live_below m (j + 1) ≤ live_below m (slot_count m))
  packed_live j h live =
      let e = entry j h in
      let off : slot_offset packed j ≡ page_size - live_below m (j + 1) =
        e.0 ∙ ap (λ e. e.0) (new_slot_live m j live) in
      let mono = live_below_mono m (j + 1) (slot_count m) (omega arith) in
      (
        off,
        e.1 ∙ ap (λ e. e.1) (new_slot_live m j live),
        omega (arith, off, mono, built.offset),
        omega (arith, live_below-suc m j, live_length_live m j live),
        mono,
      )

  pub was_live :
      (j : ℕ)
      → j < slot_count packed
      → slot_offset packed j ≢ 0
      → (j < slot_count m) × (slot_offset m j ≢ 0)
  was_live j h live =
      let lt : j < slot_count m = omega (arith, packed_count) in
      (lt, λ e. live (packed_free j lt e))

  -- Of two live slots the first lies above the second.
  pub above :
      (i j : ℕ)
      → i < j
      → j < slot_count m
      → slot_offset m i ≢ 0
      → slot_offset m j ≢ 0
      → slot_offset packed j + slot_length packed j ≤ slot_offset packed i
  above i j lt h li lj =
      let (a, b, at_i, step_i, mono_i) = packed_live i (omega arith) li in
      let (c, d, at_j, step_j, mono_j) = packed_live j h lj in
      omega (arith, live_below_mono m (i + 1) j (omega arith))

  pub packed_bytes : AllBytes packed
  unfolding packed filled header write32
  packed_bytes x = elim (Bool-cases (not (ltb x c.offset) && ltb x page_size)) [
    | inl e ↦ rw e (built.bytes x)
    | inr e ↦ rw e (
        write_slots-AllBytes header 0 c.slots
          (write16-AllBytes _ 6 c.offset (
            write16-AllBytes _ 4 (slot_count m)
              (write16-AllBytes _ 2 _ (write16-AllBytes (λ _. 0) 0 _ (λ y. omega arith)))))
          x)
  ]

  -- The bytes of a live tuple.
  pub moved_bytes :
      (j : ℕ)
      → j < slot_count m
      → slot_offset m j ≢ 0
      → read_bytes packed (slot_offset packed j) (slot_length m j)
        ≡ read_bytes m (slot_offset m j) (slot_length m j)
  unfolding packed
  moved_bytes j h live =
      let (off, len, at_end, step, mono) = packed_live j h live in
      read_bytes_shift packed m (slot_offset packed j) (slot_offset m j) (slot_length m j) (λ x lt.
        let within : (not (ltb (slot_offset packed j + x) c.offset)
              && ltb (slot_offset packed j + x) page_size)
            ≡ true =
          ground (arith, built.offset) in
        rw (within) (
          ap (λ a. c.buffer (a + x)) off
          ∙ built.inside j x (omega arith) h (omega (arith, live_length_live m j live))))
