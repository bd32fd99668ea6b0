-- ===== src/SlottedPage/Invariant.antt =====
-- A well-formed page: the slot array ends below the tuples, which lie apart, inside the page, and
-- take no more room than there is above `free_space_offset`.
use simple_duck_dbms.Base.{
  ℕ, ◌+◌, ◌≤◌, ◌<◌, ◌≡◌, ◌≢◌, inl, inr, sym, ap, ◌∙◌, arith, not, ◌&&◌, List, length, Option, none,
  some, ltb, ◌==◌, if◌then◌else◌, ltb→lt, ltb→le, Bool-cases, eq_or_ne,
}
use simple_duck_dbms.Base.Sums.{sum, sum_update}
use simple_duck_dbms.Memory.{Memory, read_bytes}
use simple_duck_dbms.Memory.Frames.{AllBytes, Apart, read_bytes_agree}
use simple_duck_dbms.SlottedPage.{
  page_size, slot_count, free_space_offset, slot_offset, slot_length,
}
use simple_duck_dbms.SlottedPage.Fields.{slots_end, Placed}

-- The bytes that a slot takes, none if it is free.
unfoldable pub live_length : Memory → ℕ → ℕ
live_length m i = if slot_offset m i == 0 then 0 else slot_length m i

pub record IsPage (m : Memory) : Type 0 where
  pub bytes : AllBytes m
  pub room : slots_end m ≤ free_space_offset m
  pub top : free_space_offset m ≤ page_size
  pub inside :
      (i : ℕ)
      → i < slot_count m
      → slot_offset m i ≢ 0
      → (free_space_offset m ≤ slot_offset m i) × (slot_offset m i + slot_length m i ≤ page_size)
  pub apart :
      (i j : ℕ)
      → i < slot_count m
      → j < slot_count m
      → i ≢ j
      → slot_offset m i ≢ 0
      → slot_offset m j ≢ 0
      → Apart (slot_offset m i) (slot_length m i) (slot_offset m j) (slot_length m j)
  pub total : sum (live_length m) (slot_count m) + free_space_offset m ≤ page_size

-- The abstract page: the tuple in each slot.
unfoldable pub tuple_at : Memory → ℕ → Option (List ℕ)
tuple_at m i =
    if ltb i (slot_count m) && not (slot_offset m i == 0)
    then some (read_bytes m (slot_offset m i) (slot_length m i))
    else none

pub tuple_at_live :
    (m : Memory) (i : ℕ)
    → i < slot_count m
    → slot_offset m i ≢ 0
    → tuple_at m i ≡ some (read_bytes m (slot_offset m i) (slot_length m i))
unfolding tuple_at
tuple_at_live m i h ne = ground arith

pub tuple_at_free : (m : Memory) (i : ℕ) → slot_offset m i ≡ 0 → tuple_at m i ≡ none
unfolding tuple_at
tuple_at_free m i e = ground arith

pub tuple_at_beyond : (m : Memory) (i : ℕ) → slot_count m ≤ i → tuple_at m i ≡ none
unfolding tuple_at
tuple_at_beyond m i h = ground arith

-- A slot whose words and bytes are as before holds the tuple that it held.
pub tuple_at_same :
    (m m' : Memory) (j : ℕ)
    → IsPage m
    → j < slot_count m
    → j < slot_count m'
    → slot_offset m' j ≡ slot_offset m j
    → slot_length m' j ≡ slot_length m j
    → ((x : ℕ) → free_space_offset m ≤ x → m' x ≡ m x)
    → tuple_at m' j ≡ tuple_at m j
tuple_at_same m m' j p h h' off len same = elim (eq_or_ne (slot_offset m j) 0) [
  | inl free ↦ tuple_at_free m' j (off ∙ free) ∙ sym (tuple_at_free m j free)
  | inr live ↦
      tuple_at_live m' j h' (λ e. live (sym off ∙ e))
      ∙ rw (off, len)
          (ap some (
            read_bytes_agree m' m (slot_offset m j) (slot_length m j)
              (λ x lo hi. same x (omega (arith, (p.inside j h live).0)))))
      ∙ sym (tuple_at_live m j h live)
]

module _ (m : Memory) (s : ℕ) (t : List ℕ) (m' : Memory) (p : IsPage m)
    (in_array : s < slot_count m) (free : slot_offset m s ≡ 0)
    (room : slots_end m + length t ≤ free_space_offset m) (r : Placed m s t m') where
  placed_inside :
      (i : ℕ)
      → i < slot_count m
      → slot_offset m' i ≢ 0
      → (free_space_offset m' ≤ slot_offset m' i)
        × (slot_offset m' i + slot_length m' i ≤ page_size)
  placed_inside i h live = elim (eq_or_ne i s) [
    | inl e ↦ rw e (omega (arith, r.offset_self, r.length_self, r.space, p.top))
    | inr ne ↦
        let off = r.offset_ne i ne h in
        let old = p.inside i h (λ e. live (off ∙ e)) in
        (omega (arith, off, old.0, r.space), omega (arith, off, r.length_ne i ne h, old.1))
  ]

  -- Another tuple starts at or above the old free space.
  above :
      (j : ℕ)
      → j < slot_count m
      → j ≢ s
      → slot_offset m' j ≢ 0
      → free_space_offset m ≤ slot_offset m' j
  above j h ne live =
      let off = r.offset_ne j ne h in omega (arith, off, (p.inside j h (λ e. live (off ∙ e))).0)

  placed_live : slot_offset m' s ≢ 0
  placed_live e = omega (arith, r.offset_self, r.space, room)

  placed-Apart :
      (i j : ℕ)
      → i < slot_count m
      → j < slot_count m
      → i ≢ j
      → slot_offset m' i ≢ 0
      → slot_offset m' j ≢ 0
      → Apart (slot_offset m' i) (slot_length m' i) (slot_offset m' j) (slot_length m' j)
  placed-Apart i j hi hj ne li lj = elim (eq_or_ne i s) [
    | inl e ↦
        rw e (
          omega (arith, r.offset_self, r.length_self, r.space, above j hj (λ q. ne (e ∙ sym q)) lj))
    | inr i_ne ↦ elim (eq_or_ne j s) [
      | inl e ↦ rw e (omega (arith, r.offset_self, r.length_self, r.space, above i hi i_ne li))
      | inr j_ne ↦
          rw
            (
              r.offset_ne i i_ne hi,
              r.length_ne i i_ne hi,
              r.offset_ne j j_ne hj,
              r.length_ne j j_ne hj,
            )
            (p.apart i j hi hj ne (λ q. li (r.offset_ne i i_ne hi ∙ q))
              (λ q. lj (r.offset_ne j j_ne hj ∙ q)))
    ]
  ]

  live_update : sum (live_length m') (slot_count m) ≡ sum (live_length m) (slot_count m) + length t
  unfolding live_length
  live_update =
      let kept : (j : ℕ) → j < slot_count m → j ≢ s → live_length m' j ≡ live_length m j =
        λ j h ne. rw (r.offset_ne j ne h, r.length_ne j ne h) in
      let before : live_length m s ≡ 0 = rw free in
      let after : live_length m' s ≡ length t = ground (arith, placed_live, r.length_self) in
      omega (
        arith,
        sum_update (live_length m) (live_length m') (slot_count m) s in_array kept,
        before,
        after,
      )

  pub Placed-IsPage : IsPage m'
  Placed-IsPage = record {
    bytes = r.all_bytes;
    room = omega (arith, r.count, r.space, room);
    top = omega (arith, r.space, p.top);
    inside = λ i h live. placed_inside i (omega (arith, r.count)) live;
    apart = λ i j hi hj ne li lj.
        placed-Apart i j (omega (arith, r.count)) (omega (arith, r.count)) ne li lj;
    total = rw r.count (omega (arith, live_update, r.space, p.total));
  }

  pub Placed-self : tuple_at m' s ≡ some t
  Placed-self =
      tuple_at_live m' s (omega (arith, r.count)) placed_live
      ∙ rw (r.offset_self, r.length_self, r.tuple_self)

  pub Placed-ne : (j : ℕ) → j ≢ s → tuple_at m' j ≡ tuple_at m j
  Placed-ne j ne = elim (Bool-cases (ltb j (slot_count m))) [
    | inl h ↦
        let within : j < slot_count m = ltb→lt j (slot_count m) h in
        tuple_at_same m m' j p within (omega (arith, r.count)) (r.offset_ne j ne within)
          (r.length_ne j ne within) r.tuples
    | inr h ↦
        let beyond : slot_count m ≤ j = ltb→le j (slot_count m) h in
        tuple_at_beyond m' j (omega (arith, r.count)) ∙ sym (tuple_at_beyond m j beyond)
  ]
