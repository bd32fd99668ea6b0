-- ===== src/SlottedPage/Compaction.antt =====
-- `compact` keeps every tuple in its slot, and leaves all the bytes that no tuple takes in one piece.
use simple_duck_dbms.Base.{
  ℕ, ◌+◌, ◌≤◌, ◌<◌, ◌≡◌, inl, inr, sym, ap, ◌∙◌, arith, some, ltb, ltb→lt, ltb→le, Bool-cases,
  eq_or_ne,
}
use simple_duck_dbms.Base.Sums.{sum, sum_agree}
use simple_duck_dbms.Memory.{Memory}
use simple_duck_dbms.SlottedPage.{
  next_page, slot_count, free_space_offset, slot_offset, compact, page_size,
}
use simple_duck_dbms.SlottedPage.Invariant.{
  live_length, IsPage, tuple_at, tuple_at_live, tuple_at_free, tuple_at_beyond,
}
use simple_duck_dbms.SlottedPage.CompactLoop.{live_below, live_length_live, live_length_free}
use simple_duck_dbms.SlottedPage.Packed.{
  packed, compact_eq, built, below, packed_count, packed_space, packed_link, packed_free,
  packed_live, was_live, above, packed_bytes, moved_bytes,
}

module _ (m : Memory) (p : IsPage m) where
  same_live : (j : ℕ) → j < slot_count m → live_length (packed m p) j ≡ live_length m j
  same_live j h = elim (eq_or_ne (slot_offset m j) 0) [
    | inl free ↦
        live_length_free (packed m p) j (packed_free m p j h free) ∙ sym (live_length_free m j free)
    | inr live ↦
        let (a, len, at_end, step, mono) = packed_live m p j h live in
        live_length_live (packed m p) j (λ e. omega (arith, below m p, (built m p).offset))
        ∙ len
        ∙ sym (live_length_live m j live)
  ]

  packed-IsPage : IsPage (packed m p)
  unfolding live_below
  packed-IsPage = record {
    bytes = packed_bytes m p;
    room = omega (arith, packed_count m p, packed_space m p, below m p, (built m p).offset);
    top = omega (arith, packed_space m p);
    inside = λ i h l.
        let (lt, live) = was_live m p i h l in
        let (a, b, at_end, step, mono) = packed_live m p i lt live in
        (omega (arith, packed_space m p), omega arith);
    apart = λ i j hi hj ne li lj.
        let (lt_i, live_i) = was_live m p i hi li in
        let (lt_j, live_j) = was_live m p j hj lj in
        elim (Bool-cases (ltb i j)) [
          | inl t ↦ inr (above m p i j (ltb→lt i j t) lt_j live_i live_j)
          | inr t ↦ inl (above m p j i (omega (arith, ltb→le i j t)) lt_i live_j live_i)
        ];
    total = rw (packed_count m p) (
        omega (
          arith,
          sum_agree (live_length (packed m p)) (live_length m) (slot_count m) same_live,
          packed_space m p,
        ));
  }

  packed_tuple : (j : ℕ) → tuple_at (packed m p) j ≡ tuple_at m j
  packed_tuple j = elim (Bool-cases (ltb j (slot_count m))) [
    | inr h ↦
        let beyond : slot_count m ≤ j = ltb→le j (slot_count m) h in
        tuple_at_beyond (packed m p) j (omega (arith, packed_count m p))
        ∙ sym (tuple_at_beyond m j beyond)
    | inl t ↦
        let h : j < slot_count m = ltb→lt j (slot_count m) t in
        elim (eq_or_ne (slot_offset m j) 0) [
          | inl free ↦
              tuple_at_free (packed m p) j (packed_free m p j h free) ∙ sym (tuple_at_free m j free)
          | inr live ↦
              let (off, len, at_end, step, mono) = packed_live m p j h live in
              tuple_at_live (packed m p) j (omega (arith, packed_count m p))
                (λ e. omega (arith, below m p, (built m p).offset))
              ∙ rw len (ap some (moved_bytes m p j h live))
              ∙ sym (tuple_at_live m j h live)
        ]
  ]

-- What `compact` leaves: a well-formed page with the tuple of each slot, the link and the number of
-- slots as before, where the free space is all that the tuples and the slots do not take.
pub record Compact (m m' : Memory) : Type 0 where
  pub page : IsPage m'
  pub tuples : (j : ℕ) → tuple_at m' j ≡ tuple_at m j
  pub link : next_page m' ≡ next_page m
  pub count : slot_count m' ≡ slot_count m
  pub space : free_space_offset m' + sum (live_length m) (slot_count m) ≡ page_size

-- `compact`, on a well-formed page, keeps the tuple of every slot, the link and the number of slots,
-- and the page well-formed; the free space then ends where the live tuples begin to fill the page.
pub compact-Compact : (m : Memory) → IsPage m → Compact m (compact m)
unfolding live_below
compact-Compact m p = rw (compact_eq m p) (record {
  page = packed-IsPage m p;
  tuples = packed_tuple m p;
  link = packed_link m p;
  count = packed_count m p;
  space = packed_space m p;
})
