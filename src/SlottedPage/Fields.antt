-- ===== src/SlottedPage/Fields.antt =====
-- What the writes of `insert_tuple` leave in the header, in the slots and in the tuples.
use simple_duck_dbms.Base.{
  ℕ, ◌+◌, ◌-◌, ◌*◌, ◌%◌, ◌^◌, ◌≤◌, ◌<◌, ◌≡◌, ◌≢◌, sym, ◌∙◌, arith, List, length, All,
}
use simple_duck_dbms.Bytes.{IsByte}
use simple_duck_dbms.Memory.{Memory, read16, write16, read32, read_bytes, write_bytes}
use simple_duck_dbms.Memory.Frames.{
  AllBytes, Apart, read16-lt, write16_outside, write16-AllBytes, read16-write16_self,
  read16-write16-Apart, write_bytes_outside, write_bytes-AllBytes, read16-write_bytes-Apart,
  read_bytes-write_bytes,
}
use simple_duck_dbms.SlottedPage.{
  next_page, slot_count, free_space_offset, slot_at, slot_offset, slot_length, place, header_size,
  slot_size,
}

-- The slot array ends here.
abbrev pub slots_end : Memory → ℕ
slots_end m = header_size + slot_size * slot_count m

-- What `place` leaves of a page whose slot `s` takes the tuple `t`.
pub record Placed (m : Memory) (s : ℕ) (t : List ℕ) (m' : Memory) : Type 0 where
  pub count : slot_count m' ≡ slot_count m
  pub space : free_space_offset m' + length t ≡ free_space_offset m
  pub link : next_page m' ≡ next_page m
  pub offset_self : slot_offset m' s ≡ free_space_offset m'
  pub length_self : slot_length m' s ≡ length t
  pub offset_ne : (j : ℕ) → j ≢ s → j < slot_count m → slot_offset m' j ≡ slot_offset m j
  pub length_ne : (j : ℕ) → j ≢ s → j < slot_count m → slot_length m' j ≡ slot_length m j
  pub tuple_self : read_bytes m' (free_space_offset m') (length t) ≡ t
  pub tuples : (x : ℕ) → free_space_offset m ≤ x → m' x ≡ m x
  pub all_bytes : AllBytes m'

module _ (m : Memory) (s : ℕ) (t : List ℕ) (bytes : AllBytes m) (tuple : All IsByte t)
    (in_array : s < slot_count m) (room : slots_end m + length t ≤ free_space_offset m) where
  off : ℕ
  off = free_space_offset m - length t

  w₁ : Memory
  w₁ = write16 m (slot_at s + 2) (length t)

  w₂ : Memory
  w₂ = write16 w₁ (slot_at s) off

  w₃ : Memory
  w₃ = write16 w₂ 6 off

  space_lt : free_space_offset m < 2 ^ 16
  unfolding free_space_offset
  space_lt = read16-lt m 6 bytes

  place_eq : place m s t ≡ write_bytes w₃ off t
  unfolding place free_space_offset off w₁ w₂ w₃
  place_eq =
      let size : length t % 2 ^ 16 ≡ length t = omega (arith, space_lt) in
      let kept : read16 (write16 m (slot_at s + 2) (length t)) 6 ≡ read16 m 6 =
        read16-write16-Apart m (slot_at s + 2) (length t) 6 (omega arith) in
      let down : (read16 m 6 + 2 ^ 16 - length t) % 2 ^ 16 ≡ read16 m 6 - length t =
        omega (arith, space_lt) in
      rw (size, kept, down)

  -- A 16-bit word below the slots' end is that of the three writes.
  word : (a : ℕ) → a + 2 ≤ slots_end m → read16 (place m s t) a ≡ read16 w₃ a
  unfolding off
  word a h = rw place_eq (read16-write_bytes-Apart w₃ off t a (omega arith))

  word-Apart :
      (a : ℕ)
      → a + 2 ≤ slots_end m
      → Apart (slot_at s) 4 a 2
      → Apart 6 2 a 2
      → read16 (place m s t) a ≡ read16 m a
  unfolding w₁ w₂ w₃
  word-Apart a h p q =
      word a h
      ∙ read16-write16-Apart w₂ 6 off a q
      ∙ read16-write16-Apart w₁ (slot_at s) off a (omega arith)
      ∙ read16-write16-Apart m (slot_at s + 2) (length t) a (omega arith)

  new_space : free_space_offset (place m s t) ≡ off
  unfolding free_space_offset w₃ off
  new_space = word 6 (omega arith) ∙ read16-write16_self w₂ 6 off (omega (arith, space_lt))

  new_offset : slot_offset (place m s t) s ≡ off
  unfolding slot_offset w₂ w₃ off
  new_offset =
      word (slot_at s) (omega arith)
      ∙ read16-write16-Apart w₂ 6 off (slot_at s) (omega arith)
      ∙ read16-write16_self w₁ (slot_at s) off (omega (arith, space_lt))

  new_length : slot_length (place m s t) s ≡ length t
  unfolding slot_length w₁ w₂ w₃ off
  new_length =
      word (slot_at s + 2) (omega arith)
      ∙ read16-write16-Apart w₂ 6 off (slot_at s + 2) (omega arith)
      ∙ read16-write16-Apart w₁ (slot_at s) off (slot_at s + 2) (omega arith)
      ∙ read16-write16_self m (slot_at s + 2) (length t) (omega (arith, space_lt))

  link_kept : next_page (place m s t) ≡ next_page m
  unfolding next_page read32
  link_kept = omega (
    arith,
    word-Apart 0 (omega arith) (omega arith) (omega arith),
    word-Apart 2 (omega arith) (omega arith) (omega arith),
  )

  tuples_kept : (x : ℕ) → free_space_offset m ≤ x → place m s t x ≡ m x
  unfolding off w₁ w₂ w₃
  tuples_kept x h = rw place_eq (
      write_bytes_outside w₃ off t x (omega arith)
      ∙ write16_outside w₂ 6 off x (omega arith)
      ∙ write16_outside w₁ (slot_at s) off x (omega arith)
      ∙ write16_outside m (slot_at s + 2) (length t) x (omega arith))

  place-AllBytes : AllBytes (place m s t)
  unfolding w₁ w₂ w₃
  place-AllBytes = rw place_eq (
      write_bytes-AllBytes w₃ off t
        (write16-AllBytes w₂ 6 off (
          write16-AllBytes w₁ (slot_at s) off
            (write16-AllBytes m (slot_at s + 2) (length t) bytes)))
        tuple)

  pub place-Placed : Placed m s t (place m s t)
  unfolding slot_count slot_offset slot_length off
  place-Placed = record {
    count = word-Apart 4 (omega arith) (omega arith) (omega arith);
    space = omega (arith, new_space);
    link = link_kept;
    offset_self = new_offset ∙ sym new_space;
    length_self = new_length;
    offset_ne = λ j ne h. word-Apart (slot_at j) (omega arith) (omega arith) (omega arith);
    length_ne = λ j ne h. word-Apart (slot_at j + 2) (omega arith) (omega arith) (omega arith);
    tuple_self = rw (new_space, place_eq) (read_bytes-write_bytes w₃ off t);
    tuples = tuples_kept;
    all_bytes = place-AllBytes;
  }
