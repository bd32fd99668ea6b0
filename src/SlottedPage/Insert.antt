-- ===== src/SlottedPage/Insert.antt =====
-- `insert_tuple` on every branch.
use simple_duck_dbms.Base.{
  ℕ, zero, suc, ◌+◌, ◌%◌, ◌^◌, ◌≤◌, ◌<◌, ◌≡◌, ◌≢◌, inl, inr, refl, sym, ◌∙◌, arith, true, List,
  length, All, Option, none, some, ltb, ltb→lt, ltb→le, le→ltb, ◌==◌, Bool-cases, Option-cases,
  eq_or_ne, if◌then◌else◌, ◌&&◌,
}
use simple_duck_dbms.Base.Int.{pos, ltb_ℤ, ◌-ℤ◌}
use simple_duck_dbms.Bytes.{IsByte}
use simple_duck_dbms.Memory.{Memory}
use simple_duck_dbms.SlottedPage.{
  next_page, slot_count, free_space_offset, slot_offset, free_space_bytes, empty_from,
  find_empty_slot, free_slot, allocate_slot, place, insert_tuple,
}
use simple_duck_dbms.SlottedPage.Fields.{slots_end, place-Placed}
use simple_duck_dbms.SlottedPage.Invariant.{
  IsPage, tuple_at, tuple_at_free, Placed-IsPage, Placed-self, Placed-ne,
}
use simple_duck_dbms.SlottedPage.Allocate.{grown, allocate_eq, grown-Allocated}

-- `slot` is free, or there is no free slot.
pub data Slot (m : Memory) : Option ℕ → Type 0 where
  free : (i : ℕ) → i < slot_count m → slot_offset m i ≡ 0 → Slot m (some i)
  full : ((i : ℕ) → i < slot_count m → slot_offset m i ≢ 0) → Slot m none

empty_from-some :
    (m : Memory) (i n k : ℕ)
    → empty_from m i n ≡ some k
    → (i ≤ k) × (k < i + n) × (slot_offset m k ≡ 0)
unfolding empty_from
empty_from-some m i zero k h = cc
empty_from-some m i (suc n) k h = ground (arith, empty_from-some m (i + 1) n k)

empty_from-none :
    (m : Memory) (i n k : ℕ) → empty_from m i n ≡ none → i ≤ k → k < i + n → slot_offset m k ≢ 0
unfolding empty_from
empty_from-none m i zero k h lo hi = absurd (omega arith)
empty_from-none m i (suc n) k h lo hi = elim (eq_or_ne i k) [
  | inl e ↦ λ q. ground arith
  | inr ne ↦ empty_from-none m (i + 1) n k (ground arith) (omega arith) (omega arith)
]

find_empty_slot-Slot : (m : Memory) → Slot m (find_empty_slot m)
unfolding find_empty_slot
find_empty_slot-Slot m = elim (Option-cases (empty_from m 0 (slot_count m))) [
  | inl e ↦ rw e (full (λ i h. empty_from-none m 0 (slot_count m) i e (omega arith) (omega arith)))
  | inr (k, e) ↦
      let (lo, hi, dead) = empty_from-some m 0 (slot_count m) k e in
      rw e (free k (omega arith) dead)
]

pub free_slot-Slot : (m : Memory) (prefered : Option ℕ) → Slot m (free_slot m prefered)
unfolding free_slot
free_slot-Slot m none = find_empty_slot-Slot m
free_slot-Slot m (some i) = elim (Bool-cases (ltb i (slot_count m) && slot_offset m i == 0)) [
  | inl h ↦ rw (h, free_slot) (free i (ground arith) (ground arith))
  | inr h ↦ rw (h, free_slot) (find_empty_slot-Slot m)
]

-- The two tests of the space, in ℕ.
pub fits_test :
    (m : Memory) (k : ℕ)
    → ltb_ℤ (free_space_bytes m) (pos k) ≡ ltb (free_space_offset m) (slots_end m + k)
unfolding free_space_bytes
fits_test m k = ground arith

slot_test :
    (m : Memory) (k : ℕ)
    → ltb_ℤ (free_space_bytes m -ℤ pos k) (pos 4) ≡ ltb (free_space_offset m) (slots_end m + k + 4)
unfolding free_space_bytes
slot_test m k = ground arith

-- `insert_tuple` behind its first test.
unfoldable stored_in : Memory → List ℕ → Option ℕ → Option (ℕ × Memory)
stored_in m t (some i) = some (i, place m i t)
stored_in m t none =
    if ltb_ℤ (free_space_bytes m -ℤ pos (length t)) (pos 4)
    then none
    else (let (i, m₁) = allocate_slot m in some (i, place m₁ i t))

insert_eq :
    (m : Memory) (t : List ℕ) (prefered : Option ℕ)
    → length t < 2 ^ 16
    → insert_tuple m t prefered ≡ (
        if ltb (free_space_offset m) (slots_end m + length t)
        then none
        else stored_in m t (free_slot m prefered))
unfolding insert_tuple stored_in
insert_eq m t prefered short =
    let size : length t % 2 ^ 16 ≡ length t = omega arith in
    elim (Option-cases (free_slot m prefered)) [
      | inl e ↦ rw (e, size, fits_test m (length t)) refl
      | inr (i, e) ↦ rw (e, size, fits_test m (length t)) refl
    ]

-- What `insert_tuple` returns: nothing, exactly when the free space is less than the tuple, or than
-- the tuple and a slot where no slot is free; or a slot that held nothing and holds the tuple now,
-- on a well-formed page where every other slot holds what it held.
pub data Inserted (m : Memory) (t : List ℕ) : Option (ℕ × Memory) → Type 0 where
  no_space : free_space_offset m < slots_end m + length t → Inserted m t none
  no_slot :
      ((i : ℕ) → i < slot_count m → slot_offset m i ≢ 0)
      → free_space_offset m < slots_end m + length t + 4
      → Inserted m t none
  stored :
      (i : ℕ) (m' : Memory)
      → IsPage m'
      → slots_end m + length t ≤ free_space_offset m
      → tuple_at m i ≡ none
      → tuple_at m' i ≡ some t
      → ((j : ℕ) → j ≢ i → tuple_at m' j ≡ tuple_at m j)
      → next_page m' ≡ next_page m
      → free_space_offset m' + length t ≡ free_space_offset m
      → Inserted m t (some (i, m'))

place-Inserted :
    (m m₁ : Memory) (t : List ℕ) (i : ℕ)
    → IsPage m₁
    → All IsByte t
    → i < slot_count m₁
    → slot_offset m₁ i ≡ 0
    → slots_end m₁ + length t ≤ free_space_offset m₁
    → slots_end m + length t ≤ free_space_offset m
    → ((j : ℕ) → tuple_at m₁ j ≡ tuple_at m j)
    → next_page m₁ ≡ next_page m
    → free_space_offset m₁ ≡ free_space_offset m
    → Inserted m t (some (i, place m₁ i t))
place-Inserted m m₁ t i p bytes h dead room room₀ same link space =
    let r = place-Placed m₁ i t p.bytes bytes h room in
    stored i (place m₁ i t) (Placed-IsPage m₁ i t (place m₁ i t) p h dead room r) room₀
      (sym (same i) ∙ tuple_at_free m₁ i dead) (Placed-self m₁ i t (place m₁ i t) p h dead room r)
      (λ j ne. Placed-ne m₁ i t (place m₁ i t) p h dead room r j ne ∙ same j) (r.link ∙ link)
      (r.space ∙ space)

-- The branches behind the first test, on what `free_slot` finds.
insert_found :
    (m : Memory) (t : List ℕ) (o : Option ℕ)
    → IsPage m
    → All IsByte t
    → length t < 2 ^ 16
    → slots_end m + length t ≤ free_space_offset m
    → Slot m o
    → Inserted m t (stored_in m t o)
unfolding stored_in
insert_found m t (some i) p bytes short fits (free _ h dead) =
    place-Inserted m m t i p bytes h dead fits fits (λ j. refl) refl refl
insert_found m t none p bytes short fits (full taken) =
    rw (slot_test m (length t))
      (elim (Bool-cases (ltb (free_space_offset m) (slots_end m + length t + 4))) [
        | inl h ↦ rw h (no_slot taken (ltb→lt _ _ h))
        | inr h ↦
            let room : slots_end m + 4 ≤ free_space_offset m = omega (arith, ltb→le _ _ h) in
            let a = grown-Allocated m p room in
            rw (h, allocate_eq m p room)
              (place-Inserted m (grown m p room) t (slot_count m) a.page bytes
                (omega (arith, a.count)) a.free (omega (arith, a.count, a.space, ltb→le _ _ h)) fits
                a.tuples a.link a.space)
      ])

-- `insert_tuple`, on a well-formed page and a tuple of less than 2 ^ 16 bytes, refuses exactly for
-- want of space, and else stores the tuple in a slot that held nothing, on a well-formed page where
-- every other slot holds what it held.
pub insert_tuple-Inserted :
    (m : Memory) (t : List ℕ) (prefered : Option ℕ)
    → IsPage m
    → All IsByte t
    → length t < 2 ^ 16
    → Inserted m t (insert_tuple m t prefered)
insert_tuple-Inserted m t prefered p bytes short =
    rw (insert_eq m t prefered short)
      (elim (Bool-cases (ltb (free_space_offset m) (slots_end m + length t))) [
        | inl h ↦ rw h (no_space (ltb→lt _ _ h))
        | inr h ↦ rw h (
            insert_found m t (free_slot m prefered) p bytes short (ltb→le _ _ h)
              (free_slot-Slot m prefered))
      ])

-- A free slot that is asked for is the slot taken.
pub insert_prefered :
    (m : Memory) (t : List ℕ) (i : ℕ)
    → IsPage m
    → All IsByte t
    → length t < 2 ^ 16
    → i < slot_count m
    → slot_offset m i ≡ 0
    → slots_end m + length t ≤ free_space_offset m
    → (insert_tuple m t (some i) ≡ some (i, place m i t)) × Inserted m t (some (i, place m i t))
unfolding stored_in free_slot
insert_prefered m t i p bytes short h dead fits =
    let no_less = le→ltb (free_space_offset m) (slots_end m + length t) fits in
    let test : (ltb i (slot_count m) && slot_offset m i == 0) ≡ true = ground arith in
    (
      insert_eq m t (some i) short ∙ rw no_less (rw (test, free_slot) refl),
      place-Inserted m m t i p bytes h dead fits fits (λ j. refl) refl refl,
    )
