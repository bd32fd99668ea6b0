-- ===== src/SlottedPage/Shrink.antt =====
-- What `delete_tuple` and `try_update_in_place` have in common: one slot is cleared, or keeps its
-- offset and gets no longer.
use simple_duck_dbms.Base.{
  ℕ, ◌≤◌, ◌<◌, ◌≡◌, ◌≢◌, ◌⊎◌, inl, inr, sym, ap, ◌∙◌, arith, some, ltb, ltb→lt, ltb→le, Bool-cases,
  eq_or_ne,
}
use simple_duck_dbms.Base.Sums.{sum_le}
use simple_duck_dbms.Memory.{Memory}
use simple_duck_dbms.Memory.Frames.{AllBytes, Apart, read_bytes_agree}
use simple_duck_dbms.SlottedPage.{
  next_page, slot_count, free_space_offset, slot_offset, slot_length,
}
use simple_duck_dbms.SlottedPage.Invariant.{
  live_length, IsPage, tuple_at, tuple_at_live, tuple_at_free, tuple_at_beyond,
}

pub record Shrunk (m : Memory) (s : ℕ) (m' : Memory) : Type 0 where
  pub count : slot_count m' ≡ slot_count m
  pub space : free_space_offset m' ≡ free_space_offset m
  pub link : next_page m' ≡ next_page m
  pub self :
      (slot_offset m' s ≡ 0)
      ⊎ (slot_offset m' s ≡ slot_offset m s) × (slot_length m' s ≤ slot_length m s)
  pub offset_ne : (j : ℕ) → j ≢ s → j < slot_count m → slot_offset m' j ≡ slot_offset m j
  pub length_ne : (j : ℕ) → j ≢ s → j < slot_count m → slot_length m' j ≡ slot_length m j
  pub tuples :
      (x : ℕ) → free_space_offset m ≤ x → Apart (slot_offset m s) (slot_length m s) x 1 → m' x ≡ m x
  pub all_bytes : AllBytes m'

module _ (m : Memory) (s : ℕ) (m' : Memory) (p : IsPage m) (in_array : s < slot_count m)
    (live : slot_offset m s ≢ 0) (r : Shrunk m s m') where
  -- A live slot was live, at the same place, and no shorter.
  within :
      (j : ℕ)
      → j < slot_count m
      → slot_offset m' j ≢ 0
      → (slot_offset m' j ≡ slot_offset m j) × (slot_length m' j ≤ slot_length m j)
  within j hj h = elim (eq_or_ne j s) [
    | inl e ↦ elim r.self [ inl gone ↦ absurd (h (rw e gone)) | inr (off, len) ↦ rw e (off, len) ]
    | inr ne ↦ (r.offset_ne j ne hj, omega (arith, r.length_ne j ne hj))
  ]

  live_length_le : (j : ℕ) → j < slot_count m → live_length m' j ≤ live_length m j
  unfolding live_length
  live_length_le j hj = elim (eq_or_ne (slot_offset m' j) 0) [
    | inl e ↦ ground arith
    | inr h ↦ let (off, len) = within j hj h in ground arith
  ]

  pub Shrunk-IsPage : IsPage m'
  Shrunk-IsPage = record {
    bytes = r.all_bytes;
    room = omega (arith, r.count, r.space, p.room);
    top = omega (arith, r.space, p.top);
    inside = λ i h l.
        let (off, len) = within i (omega (arith, r.count)) l in
        let (lo, hi) = p.inside i (omega (arith, r.count)) (λ e. l (off ∙ e)) in
        (omega (arith, r.space), omega arith);
    apart = λ i j hi hj ne li lj.
        let (off_i, len_i) = within i (omega (arith, r.count)) li in
        let (off_j, len_j) = within j (omega (arith, r.count)) lj in
        omega (
          arith,
          p.apart i j (omega (arith, r.count)) (omega (arith, r.count)) ne (λ e. li (off_i ∙ e))
              (λ e. lj (off_j ∙ e)),
        );
    total = rw r.count (
        omega (
          arith,
          sum_le (live_length m') (live_length m) (slot_count m) live_length_le,
          r.space,
          p.total,
        ));
  }

  live_ne : (j : ℕ) → j ≢ s → j < slot_count m → slot_offset m j ≢ 0 → tuple_at m' j ≡ tuple_at m j
  live_ne j ne h l =
      tuple_at_live m' j (omega (arith, r.count)) (λ e. l (sym (r.offset_ne j ne h) ∙ e))
      ∙ rw (r.offset_ne j ne h, r.length_ne j ne h)
          (ap some (
            read_bytes_agree m' m (slot_offset m j) (slot_length m j) (λ x lo hi.
              r.tuples x (omega (arith, (p.inside j h l).0))
                (omega (arith, p.apart s j in_array h (λ e. ne (sym e)) live l)))))
      ∙ sym (tuple_at_live m j h l)

  pub Shrunk-ne : (j : ℕ) → j ≢ s → tuple_at m' j ≡ tuple_at m j
  Shrunk-ne j ne = elim (Bool-cases (ltb j (slot_count m))) [
    | inl h ↦ elim (eq_or_ne (slot_offset m j) 0) [
      | inl free ↦
          tuple_at_free m' j (r.offset_ne j ne (ltb→lt j (slot_count m) h) ∙ free)
          ∙ sym (tuple_at_free m j free)
      | inr l ↦ live_ne j ne (ltb→lt j (slot_count m) h) l
    ]
    | inr h ↦
        let beyond : slot_count m ≤ j = ltb→le j (slot_count m) h in
        tuple_at_beyond m' j (omega (arith, r.count)) ∙ sym (tuple_at_beyond m j beyond)
  ]
