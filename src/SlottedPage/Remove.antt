-- ===== src/SlottedPage/Remove.antt =====
-- `delete_tuple` on every branch.
use simple_duck_dbms.Base.{
  ℕ, ◌+◌, ◌<◌, ◌≡◌, ◌≢◌, ◌⊎◌, inl, inr, arith, Bool, true, false, none, ltb, ltb→lt, ltb→le, ◌==◌,
  Bool-cases,
}
use simple_duck_dbms.Memory.{Memory, write16, read32}
use simple_duck_dbms.Memory.Frames.{
  write16_outside, write16-AllBytes, read16-write16_self, read16-write16-Apart,
}
use simple_duck_dbms.SlottedPage.{
  next_page, slot_count, free_space_offset, slot_at, slot_offset, slot_length, delete_tuple,
}
use simple_duck_dbms.SlottedPage.Invariant.{
  IsPage, tuple_at, tuple_at_live, tuple_at_free, tuple_at_beyond,
}
use simple_duck_dbms.SlottedPage.Shrink.{Shrunk, Shrunk-IsPage, Shrunk-ne}

-- What `delete_tuple` returns: false and the same page, exactly when the slot holds nothing; or
-- true and a well-formed page where the slot holds nothing and the others hold what they held.
pub data Deleted (m : Memory) (i : ℕ) : Bool × Memory → Type 0 where
  absent : tuple_at m i ≡ none → Deleted m i (false, m)
  deleted :
      (m' : Memory)
      → IsPage m'
      → tuple_at m i ≢ none
      → tuple_at m' i ≡ none
      → ((j : ℕ) → j ≢ i → tuple_at m' j ≡ tuple_at m j)
      → next_page m' ≡ next_page m
      → slot_count m' ≡ slot_count m
      → free_space_offset m' ≡ free_space_offset m
      → Deleted m i (true, m')

pub live_ne_none :
    (m : Memory) (i : ℕ) → i < slot_count m → slot_offset m i ≢ 0 → tuple_at m i ≢ none
live_ne_none m i h live e = let q = tuple_at_live m i h live in cc

-- A slot is behind the array, free or live.
pub slot_cases :
    (m : Memory) (i : ℕ)
    → (ltb i (slot_count m) ≡ false) × (tuple_at m i ≡ none)
      ⊎ ((ltb i (slot_count m) ≡ true) × (slot_offset m i == 0 ≡ true) × (tuple_at m i ≡ none)
          ⊎ (ltb i (slot_count m) ≡ true)
            × (slot_offset m i == 0 ≡ false)
            × (i < slot_count m)
            × (slot_offset m i ≢ 0))
slot_cases m i = elim (Bool-cases (ltb i (slot_count m))) [
  | inr h ↦ inl (h, tuple_at_beyond m i (ltb→le i (slot_count m) h))
  | inl h ↦ inr (elim (Bool-cases (slot_offset m i == 0)) [
    | inl e ↦ inl (h, e, tuple_at_free m i (ground arith))
    | inr e ↦ inr (h, e, ltb→lt i (slot_count m) h, ground arith)
  ])
]

pub cleared-Shrunk :
    (m : Memory) (i : ℕ) → IsPage m → i < slot_count m → Shrunk m i (write16 m (slot_at i) 0)
unfolding slot_count free_space_offset next_page read32 slot_offset slot_length
cleared-Shrunk m i p h = record {
  count = read16-write16-Apart m (slot_at i) 0 4 (omega arith);
  space = read16-write16-Apart m (slot_at i) 0 6 (omega arith);
  link = omega (
    arith,
    read16-write16-Apart m (slot_at i) 0 0 (omega arith),
    read16-write16-Apart m (slot_at i) 0 2 (omega arith),
  );
  self = inl (read16-write16_self m (slot_at i) 0 (omega arith));
  offset_ne = λ j ne lt. read16-write16-Apart m (slot_at i) 0 (slot_at j) (omega arith);
  length_ne = λ j ne lt. read16-write16-Apart m (slot_at i) 0 (slot_at j + 2) (omega arith);
  tuples = λ x lo a. write16_outside m (slot_at i) 0 x (omega (arith, p.room));
  all_bytes = write16-AllBytes m (slot_at i) 0 p.bytes;
}

pub slot_cleared : (m : Memory) (i : ℕ) → slot_offset (write16 m (slot_at i) 0) i ≡ 0
unfolding slot_offset
slot_cleared m i = read16-write16_self m (slot_at i) 0 (omega arith)

-- `delete_tuple`, on a well-formed page, answers false on a slot that holds nothing and leaves the
-- page; else the slot holds nothing afterwards, and the others what they held.
pub delete_tuple-Deleted : (m : Memory) (i : ℕ) → IsPage m → Deleted m i (delete_tuple m i)
unfolding delete_tuple
delete_tuple-Deleted m i p = elim (slot_cases m i) [
  | inl (h, gone) ↦ rw h (absent gone)
  | inr (inl (h, e, gone)) ↦ rw (h, e) (absent gone)
  | inr (inr (h, e, lt, live)) ↦
      let m' = write16 m (slot_at i) 0 in
      let r = cleared-Shrunk m i p lt in
      rw (h, e)
        (deleted m' (Shrunk-IsPage m i m' p lt live r) (live_ne_none m i lt live)
          (tuple_at_free m' i (slot_cleared m i)) (Shrunk-ne m i m' p lt live r) r.link r.count
          r.space)
]
