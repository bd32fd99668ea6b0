-- ===== src/SlottedPage/Update.antt =====
-- `try_update_in_place` on every branch.
use simple_duck_dbms.Base.{
  ℕ, ◌+◌, ◌*◌, ◌%◌, ◌^◌, ◌≤◌, ◌<◌, ◌≡◌, ◌≢◌, inl, inr, sym, ap, ◌∙◌, arith, Bool, true, false, List,
  length, All, none, some, ltb, ltb→lt, ltb→le, Bool-cases,
}
use simple_duck_dbms.Bytes.{IsByte}
use simple_duck_dbms.Memory.{Memory, read16, write16, read32, write_bytes, read_bytes}
use simple_duck_dbms.Memory.Frames.{
  Apart, write16_outside, write16-AllBytes, read16-write16_self, read16-write16-Apart,
  write_bytes_outside, write_bytes-AllBytes, read16-write_bytes-Apart, read_bytes-write_bytes,
  read_bytes_agree, length-read_bytes,
}
use simple_duck_dbms.SlottedPage.{
  next_page, slot_count, free_space_offset, slot_at, slot_offset, slot_length, try_update_in_place,
}
use simple_duck_dbms.SlottedPage.Invariant.{IsPage, tuple_at, tuple_at_live}
use simple_duck_dbms.SlottedPage.Shrink.{Shrunk, Shrunk-IsPage, Shrunk-ne}
use simple_duck_dbms.SlottedPage.Remove.{slot_cases}

-- What `try_update_in_place` returns: false and the same page, exactly when the slot holds nothing
-- or a shorter tuple; or true and a well-formed page where the slot holds the new tuple.
pub data Updated (m : Memory) (i : ℕ) (t : List ℕ) : Bool × Memory → Type 0 where
  absent : tuple_at m i ≡ none → Updated m i t (false, m)
  too_long :
      (old : List ℕ) → tuple_at m i ≡ some old → length old < length t → Updated m i t (false, m)
  updated :
      (old : List ℕ) (m' : Memory)
      → IsPage m'
      → tuple_at m i ≡ some old
      → length t ≤ length old
      → tuple_at m' i ≡ some t
      → ((j : ℕ) → j ≢ i → tuple_at m' j ≡ tuple_at m j)
      → next_page m' ≡ next_page m
      → slot_count m' ≡ slot_count m
      → free_space_offset m' ≡ free_space_offset m
      → Updated m i t (true, m')

module _ (m : Memory) (i : ℕ) (t : List ℕ) (p : IsPage m) (bytes : All IsByte t)
    (h : i < slot_count m) (live : slot_offset m i ≢ 0) (short : length t < 2 ^ 16)
    (fits : length t ≤ slot_length m i) where
  w : Memory
  w = write_bytes m (slot_offset m i) t

  rewritten : Memory
  rewritten = write16 w (slot_at i + 2) (length t)

  -- A word below the tuples is as before, save the length.
  word :
      (a : ℕ)
      → a + 2 ≤ 8 + 4 * slot_count m
      → Apart (slot_at i + 2) 2 a 2
      → read16 rewritten a ≡ read16 m a
  unfolding rewritten w
  word a lo far =
      read16-write16-Apart w (slot_at i + 2) (length t) a far
      ∙ read16-write_bytes-Apart m (slot_offset m i) t a
          (omega (arith, (p.inside i h live).0, p.room))

  -- A slot behind the array may stand in the tuples: only the slots of the array are kept.
  new_length : slot_length rewritten i ≡ length t
  unfolding slot_length rewritten
  new_length = read16-write16_self w (slot_at i + 2) (length t) short

  new_offset : slot_offset rewritten i ≡ slot_offset m i
  unfolding slot_offset
  new_offset = word (slot_at i) (omega arith) (omega arith)

  rewritten-Shrunk : Shrunk m i rewritten
  unfolding slot_count free_space_offset next_page read32 slot_offset slot_length rewritten w
  rewritten-Shrunk = record {
    count = word 4 (omega arith) (omega arith);
    space = word 6 (omega arith) (omega arith);
    link = omega (arith, word 0 (omega arith) (omega arith), word 2 (omega arith) (omega arith));
    self = inr (new_offset, omega (arith, new_length));
    offset_ne = λ j ne lt. word (slot_at j) (omega arith) (omega arith);
    length_ne = λ j ne lt. word (slot_at j + 2) (omega arith) (omega arith);
    tuples = λ x lo a.
        write16_outside w (slot_at i + 2) (length t) x (omega (arith, p.room))
        ∙ write_bytes_outside m (slot_offset m i) t x (omega arith);
    all_bytes =
        write16-AllBytes w (slot_at i + 2) (length t)
          (write_bytes-AllBytes m (slot_offset m i) t p.bytes bytes);
  }

  rewritten_tuple : tuple_at rewritten i ≡ some t
  unfolding rewritten w
  rewritten_tuple =
      tuple_at_live rewritten i (omega (arith, rewritten-Shrunk.count))
        (λ e. live (sym new_offset ∙ e))
      ∙ rw (new_offset, new_length)
          (ap some (
            read_bytes_agree rewritten w (slot_offset m i) (length t) (λ x lo hi.
              write16_outside w (slot_at i + 2) (length t) x
                (omega (arith, (p.inside i h live).0, p.room)))
            ∙ read_bytes-write_bytes m (slot_offset m i) t))

  old : List ℕ
  old = read_bytes m (slot_offset m i) (slot_length m i)

  rewritten-Updated : Updated m i t (true, rewritten)
  unfolding old
  rewritten-Updated =
      let r = rewritten-Shrunk in
      updated old rewritten (Shrunk-IsPage m i rewritten p h live r) (tuple_at_live m i h live)
        (omega (arith, length-read_bytes m (slot_offset m i) (slot_length m i))) rewritten_tuple
        (Shrunk-ne m i rewritten p h live r) r.link r.count r.space

-- `try_update_in_place`, on a well-formed page and a tuple of less than 2 ^ 16 bytes, answers false
-- on a slot that holds nothing or a shorter tuple, and leaves the page; else the slot holds the new
-- tuple afterwards, and the others what they held.
pub try_update_in_place-Updated :
    (m : Memory) (i : ℕ) (t : List ℕ)
    → IsPage m
    → All IsByte t
    → length t < 2 ^ 16
    → Updated m i t (try_update_in_place m i t)
unfolding try_update_in_place rewritten w
try_update_in_place-Updated m i t p bytes short =
    let size : length t % 2 ^ 16 ≡ length t = omega arith in
    elim (slot_cases m i) [
      | inl (h, gone) ↦ rw h (absent gone)
      | inr (inl (h, e, gone)) ↦ rw (h, e) (absent gone)
      | inr (inr (h, e, lt, live)) ↦
          rw (h, e, size)
            (elim (Bool-cases (ltb (slot_length m i) (length t))) [
              | inl l ↦ rw l (
                  too_long (read_bytes m (slot_offset m i) (slot_length m i))
                    (tuple_at_live m i lt live)
                    (omega (
                      arith,
                      length-read_bytes m (slot_offset m i) (slot_length m i),
                      ltb→lt _ _ l,
                    )))
              | inr l ↦ rw l (rewritten-Updated m i t p bytes lt live short (ltb→le _ _ l))
            ])
    ]
