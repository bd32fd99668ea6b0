-- ===== src/SlottedPage/Allocate.antt =====
-- A new slot at the end of the slot array.
use simple_duck_dbms.Base.{
  ℕ, ◌+◌, ◌%◌, ◌^◌, ◌≤◌, ◌<◌, ◌≡◌, ◌≢◌, inl, inr, sym, ◌∙◌, arith, ltb, ltb→lt, ltb→le, Bool-cases,
  eq_or_ne, suc,
}
use simple_duck_dbms.Base.Sums.{sum, sum_agree, sum-suc}
use simple_duck_dbms.Memory.{Memory, read16, write16, read32}
use simple_duck_dbms.Memory.Frames.{
  AllBytes, Apart, write16_outside, write16-AllBytes, read16-write16_self, read16-write16-Apart,
}
use simple_duck_dbms.SlottedPage.{
  next_page, slot_count, free_space_offset, slot_at, slot_offset, slot_length, allocate_slot,
}
use simple_duck_dbms.SlottedPage.Fields.{slots_end}
use simple_duck_dbms.SlottedPage.Invariant.{
  live_length, IsPage, tuple_at, tuple_at_free, tuple_at_beyond, tuple_at_same,
}

-- What `allocate_slot` leaves.
pub record Allocated (m m' : Memory) : Type 0 where
  pub page : IsPage m'
  pub count : slot_count m' ≡ slot_count m + 1
  pub space : free_space_offset m' ≡ free_space_offset m
  pub link : next_page m' ≡ next_page m
  pub free : slot_offset m' (slot_count m) ≡ 0
  pub tuples : (j : ℕ) → tuple_at m' j ≡ tuple_at m j

module _ (m : Memory) (p : IsPage m) (room : slots_end m + 4 ≤ free_space_offset m) where
  n : ℕ
  n = slot_count m

  w : Memory
  w = write16 m 4 (n + 1)

  pub grown : Memory
  grown = write16 w (slot_at n) 0

  pub allocate_eq : allocate_slot m ≡ (slot_count m, grown)
  unfolding allocate_slot grown w n
  allocate_eq =
      let small : (slot_count m + 1) % 2 ^ 16 ≡ slot_count m + 1 = omega (arith, p.top) in rw small

  word-Apart : (a : ℕ) → Apart 4 2 a 2 → Apart (slot_at n) 2 a 2 → read16 grown a ≡ read16 m a
  unfolding grown w
  word-Apart a h k = read16-write16-Apart w (slot_at n) 0 a k ∙ read16-write16-Apart m 4 (n + 1) a h

  grown_count : slot_count grown ≡ slot_count m + 1
  unfolding slot_count grown w n
  grown_count =
      read16-write16-Apart w (slot_at n) 0 4 (omega arith)
      ∙ read16-write16_self m 4 (read16 m 4 + 1) (omega (arith, p.room, p.top))

  grown_space : free_space_offset grown ≡ free_space_offset m
  unfolding free_space_offset
  grown_space = word-Apart 6 (omega arith) (omega arith)

  grown_offset : (j : ℕ) → j ≢ n → slot_offset grown j ≡ slot_offset m j
  unfolding slot_offset
  grown_offset j ne = word-Apart (slot_at j) (omega arith) (omega arith)

  grown_length : (j : ℕ) → slot_length grown j ≡ slot_length m j
  unfolding slot_length
  grown_length j = word-Apart (slot_at j + 2) (omega arith) (omega arith)

  grown_free : slot_offset grown n ≡ 0
  unfolding slot_offset grown
  grown_free = read16-write16_self w (slot_at n) 0 (omega arith)

  grown_link : next_page grown ≡ next_page m
  unfolding next_page read32
  grown_link =
      omega
        (arith, word-Apart 0 (omega arith) (omega arith), word-Apart 2 (omega arith) (omega arith))

  grown_above : (x : ℕ) → free_space_offset m ≤ x → grown x ≡ m x
  unfolding grown w n
  grown_above x h =
      write16_outside w (slot_at n) 0 x (omega arith)
      ∙ write16_outside m 4 (slot_count m + 1) x (omega arith)

  grown_bytes : AllBytes grown
  unfolding grown w
  grown_bytes = write16-AllBytes w (slot_at n) 0 (write16-AllBytes m 4 (n + 1) p.bytes)

  grown_total : sum (live_length grown) (suc n) ≡ sum (live_length m) n
  unfolding live_length
  grown_total =
      let kept : (j : ℕ) → j < n → live_length grown j ≡ live_length m j =
        λ j h. rw (grown_offset j (omega arith), grown_length j) in
      let last : live_length grown n ≡ 0 = rw grown_free in
      omega (
        arith,
        sum-suc (live_length grown) n,
        last,
        sum_agree (live_length grown) (live_length m) n kept,
      )

  -- A live slot of the new page is one of the old.
  old : (j : ℕ) → j < slot_count grown → slot_offset grown j ≢ 0 → (j < slot_count m) × (j ≢ n)
  unfolding n
  old j h live = elim (eq_or_ne j (slot_count m)) [
    | inl e ↦ absurd (live (rw e grown_free))
    | inr ne ↦ (omega (arith, grown_count), ne)
  ]

  grown-IsPage : IsPage grown
  unfolding n
  grown-IsPage = record {
    bytes = grown_bytes;
    room = omega (arith, grown_count, grown_space);
    top = omega (arith, grown_space, p.top);
    inside = λ i h live.
        let (lt, ne) = old i h live in
        rw (grown_offset i ne, grown_length i, grown_space)
          (p.inside i lt (λ e. live (grown_offset i ne ∙ e)));
    apart = λ i j hi hj ne li lj.
        let (lti, nei) = old i hi li in
        let (ltj, nej) = old j hj lj in
        rw (grown_offset i nei, grown_length i, grown_offset j nej, grown_length j)
          (p.apart i j lti ltj ne (λ e. li (grown_offset i nei ∙ e))
            (λ e. lj (grown_offset j nej ∙ e)));
    total =
        let size : slot_count grown ≡ suc (slot_count m) = omega (arith, grown_count) in
        rw size (omega (arith, grown_total, grown_space, p.total));
  }

  grown_tuple : (j : ℕ) → tuple_at grown j ≡ tuple_at m j
  unfolding n
  grown_tuple j = elim (Bool-cases (ltb j (slot_count m))) [
    | inl h ↦
        let within : j < slot_count m = ltb→lt j (slot_count m) h in
        tuple_at_same m grown j p within (omega (arith, grown_count)) (grown_offset j (omega arith))
          (grown_length j) grown_above
    | inr h ↦
        let beyond : slot_count m ≤ j = ltb→le j (slot_count m) h in
        elim (eq_or_ne j (slot_count m)) [
          | inl e ↦ tuple_at_free grown j (rw e grown_free) ∙ sym (tuple_at_beyond m j beyond)
          | inr ne ↦
              tuple_at_beyond grown j (omega (arith, grown_count))
              ∙ sym (tuple_at_beyond m j beyond)
        ]
  ]

  pub grown-Allocated : Allocated m grown
  unfolding n
  grown-Allocated = record {
    page = grown-IsPage;
    count = grown_count;
    space = grown_space;
    link = grown_link;
    free = grown_free;
    tuples = grown_tuple;
  }
