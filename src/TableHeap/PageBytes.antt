-- ===== src/TableHeap/PageBytes.antt =====
-- What a page shows depends on its bytes: a page that was written out and read back, one that got
-- another link, and a new one.
use simple_duck_dbms.Base.{
  ℕ, zero, suc, ◌+◌, ◌*◌, ◌/◌, ◌%◌, ◌^◌, ◌≤◌, ◌<◌, ◌≡◌, inl, inr, refl, sym, ap, ◌∙◌, arith, true,
  none, some, ltb, ◌==◌, if◌then◌else◌, Bool-cases, eq_or_ne, ltb→lt, ltb→le,
}
use simple_duck_dbms.Memory.{Memory, read16, read32, write16, write32, read_bytes, write_bytes}
use simple_duck_dbms.Memory.Frames.{
  AllBytes, write16-AllBytes, write16_outside, write_bytes_outside, read_bytes_agree,
  read_bytes-IsByte, write_bytes-AllBytes, read16-write16_self, read16-write16-Apart,
}
use simple_duck_dbms.Base.Sums.{sum_agree}
use simple_duck_dbms.SlottedPage.{
  slot_count, free_space_offset, slot_offset, slot_length, next_page, set_next_page, init,
  invalid_page_id, slot_at,
}
use simple_duck_dbms.SlottedPage.Invariant.{
  IsPage, tuple_at, tuple_at_live, tuple_at_free, tuple_at_beyond, live_length,
}
use simple_duck_dbms.SlottedPage.Init.{init_count, init_space, init_link, init-IsPage}
use simple_duck_dbms.BufferPool.Invariant.{clip}
use simple_duck_dbms.TableHeap.PageView.{PageView, Shows}

module _ (m m' : Memory) (p : IsPage m) (bytes : AllBytes m')
    (same : (x : ℕ) → 4 ≤ x → x < 8192 → m' x ≡ m x) where
  same_word : (a : ℕ) → 4 ≤ a → a + 1 < 8192 → read16 m' a ≡ read16 m a
  unfolding read16
  same_word a lo hi = omega (arith, same a lo (omega arith), same (a + 1) (omega arith) hi)

  pub same_count : slot_count m' ≡ slot_count m
  unfolding slot_count
  same_count = same_word 4 (omega arith) (omega arith)

  pub same_space : free_space_offset m' ≡ free_space_offset m
  unfolding free_space_offset
  same_space = same_word 6 (omega arith) (omega arith)

  same_offset : (i : ℕ) → i < slot_count m → slot_offset m' i ≡ slot_offset m i
  unfolding slot_offset
  same_offset i lt = same_word (slot_at i) (omega arith) (omega (arith, p.room, p.top))

  same_length : (i : ℕ) → i < slot_count m → slot_length m' i ≡ slot_length m i
  unfolding slot_length
  same_length i lt = same_word (slot_at i + 2) (omega arith) (omega (arith, p.room, p.top))

  same_live : (i : ℕ) → i < slot_count m → live_length m' i ≡ live_length m i
  unfolding live_length
  same_live i lt = rw (same_offset i lt, same_length i lt) refl

  pub same-IsPage : IsPage m'
  same-IsPage = record {
    bytes = bytes;
    room = omega (arith, same_count, same_space, p.room);
    top = omega (arith, same_space, p.top);
    inside = λ i h live.
        let lt : i < slot_count m = omega (arith, same_count) in
        let o = same_offset i lt in
        rw (o, same_length i lt, same_space) (p.inside i lt (λ e. live (o ∙ e)));
    apart = λ i j hi hj ne li lj.
        let (lt_i, lt_j) : (i < slot_count m) × (j < slot_count m) =
          (omega (arith, same_count), omega (arith, same_count)) in
        let oi = same_offset i lt_i in
        let oj = same_offset j lt_j in
        rw (oi, oj, same_length i lt_i, same_length j lt_j)
          (p.apart i j lt_i lt_j ne (λ e. li (oi ∙ e)) (λ e. lj (oj ∙ e)));
    total =
        rw (same_count, same_space)
          (omega
            (arith, p.total, sum_agree (live_length m') (live_length m) (slot_count m) same_live));
  }

  in_array : (j : ℕ) → j < slot_count m → tuple_at m' j ≡ tuple_at m j
  in_array j lt =
      let lt' : j < slot_count m' = omega (arith, same_count) in
      let off = same_offset j lt in
      elim (eq_or_ne (slot_offset m j) 0) [
        | inl free ↦ tuple_at_free m' j (off ∙ free) ∙ sym (tuple_at_free m j free)
        | inr live ↦
            tuple_at_live m' j lt' (λ e. live (sym off ∙ e))
            ∙ rw (off, same_length j lt)
                (ap some (
                  read_bytes_agree m' m (slot_offset m j) (slot_length m j) (λ x lo hi.
                    let (at_least, at_most) = p.inside j lt live in
                    same x (omega (arith, p.room)) (omega arith))))
            ∙ sym (tuple_at_live m j lt live)
      ]

  pub same_tuples : (j : ℕ) → tuple_at m' j ≡ tuple_at m j
  same_tuples j = elim (Bool-cases (ltb j (slot_count m))) [
    | inl inside ↦ in_array j (ltb→lt j (slot_count m) inside)
    | inr out ↦
        let le = ltb→le j (slot_count m) out in
        tuple_at_beyond m' j (omega (arith, same_count)) ∙ sym (tuple_at_beyond m j le)
  ]

  -- The page shows the same, with the link that it has now.
  pub same-Shows :
      (v : PageView) (q : ℕ) → Shows m v → next_page m' ≡ q → Shows m' (record v { link = q })
  same-Shows v q h link = record {
    page = same-IsPage;
    tuples = λ j. same_tuples j ∙ h.tuples j;
    link = link;
    empty = λ e. let (count, space) = h.empty e in (same_count ∙ count, same_space ∙ space);
  }

write_bytes-read_bytes :
    (z m : Memory) (a n x : ℕ) → a ≤ x → x < a + n → write_bytes z a (read_bytes m a n) x ≡ m x
unfolding write_bytes read_bytes
write_bytes-read_bytes z m a zero x lo hi = absurd (omega arith)
write_bytes-read_bytes z m a (suc n) x lo hi =
    let z' : Memory = λ y. if y == a then m a else z y in
    elim (eq_or_ne x a) [
      | inl e ↦
          let self : z' a ≡ m a = ground arith in
          rw e (write_bytes_outside z' (a + 1) (read_bytes m (a + 1) n) a (omega arith) ∙ self)
      | inr ne ↦ write_bytes-read_bytes z' m (a + 1) n x (omega arith) (omega arith)
    ]

clip_agrees : (m : Memory) (x : ℕ) → x < 8192 → clip m x ≡ m x
unfolding clip
clip_agrees m x lt = write_bytes-read_bytes (λ _. 0) m 0 8192 x (omega arith) (omega arith)

clip_bytes : (m : Memory) → AllBytes m → AllBytes (clip m)
unfolding clip
clip_bytes m h =
    write_bytes-AllBytes (λ _. 0) 0 (read_bytes m 0 8192) (λ x. omega arith)
      (read_bytes-IsByte m 0 8192 h)

-- A page that goes to the disk and comes back shows the same.
pub clip-Shows : (m : Memory) (v : PageView) → Shows m v → Shows (clip m) v
unfolding next_page read32 read16
clip-Shows m v h =
    let link : next_page (clip m) ≡ v.link = omega (
      arith,
      h.link,
      clip_agrees m 0 (omega arith),
      clip_agrees m 1 (omega arith),
      clip_agrees m 2 (omega arith),
      clip_agrees m 3 (omega arith),
    ) in
    same-Shows m (clip m) h.page (clip_bytes m h.page.bytes) (λ x lo hi. clip_agrees m x hi) v
      v.link h link

-- A page with another link.
pub set_next_page-Shows :
    (m : Memory) (v : PageView) (q : ℕ)
    → Shows m v
    → q < 2 ^ 32
    → Shows (set_next_page m q) (record v { link = q })
unfolding set_next_page write32 next_page read32
set_next_page-Shows m v q h small =
    let w₁ = write16 m 0 (q % 2 ^ 16) in
    let high = q / 2 ^ 16 % 2 ^ 16 in
    let link : read16 (write16 w₁ 2 high) 0 + 2 ^ 16 * read16 (write16 w₁ 2 high) 2 ≡ q = omega (
      arith,
      read16-write16-Apart w₁ 2 high 0 (omega arith),
      read16-write16_self m 0 (q % 2 ^ 16) (omega arith),
      read16-write16_self w₁ 2 high (omega arith),
    ) in
    same-Shows m (write16 w₁ 2 high) h.page
      (write16-AllBytes w₁ 2 high (write16-AllBytes m 0 (q % 2 ^ 16) h.page.bytes))
      (λ x lo hi.
        write16_outside w₁ 2 high x (omega arith)
        ∙ write16_outside m 0 (q % 2 ^ 16) x (omega arith))
      v q h link

-- A page that was just created.
abbrev pub new_view : PageView
new_view = record { tuples = λ _. none; link = invalid_page_id; empty = true }

pub init-Shows : (m : Memory) → AllBytes m → Shows (init m) new_view
init-Shows m bytes = record {
  page = init-IsPage m bytes;
  tuples = λ j. tuple_at_beyond (init m) j (omega (arith, init_count m));
  link = init_link m;
  empty = λ e. (init_count m, init_space m);
}
