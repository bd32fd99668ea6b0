-- ===== src/SlottedPage/Restore.antt =====
-- `restore_tuple` puts a tuple back into its slot, and so takes back a `delete_tuple`.
use simple_duck_dbms.Base.{
  ℕ, ◌+◌, ◌%◌, ◌^◌, ◌≤◌, ◌<◌, ◌≡◌, ◌≢◌, inl, inr, refl, sym, subst, ◌∙◌, arith, false, not, List,
  length, All, none, some, ltb, ltb→le, le→ltb, ◌==◌, Bool-cases, eq_or_ne, if◌then◌else◌, Result,
  ok,
}
use simple_duck_dbms.Base.Int.{pos, ltb_ℤ}
use simple_duck_dbms.Base.Sums.{sum, sum_update}
use simple_duck_dbms.Bytes.{IsByte}
use simple_duck_dbms.Memory.{Memory, write16, read_bytes}
use simple_duck_dbms.Memory.Frames.{read16-lt, length-read_bytes, read_bytes-IsByte}
use simple_duck_dbms.SlottedPage.{
  slot_count, free_space_offset, slot_at, slot_offset, slot_length, free_space_bytes, place,
  compact, restore_tuple, delete_tuple, page_size,
}
use simple_duck_dbms.SlottedPage.Fields.{slots_end}
use simple_duck_dbms.SlottedPage.Invariant.{
  live_length, IsPage, tuple_at, tuple_at_live, tuple_at_free,
}
use simple_duck_dbms.SlottedPage.Insert.{fits_test, Inserted, insert_prefered}
use simple_duck_dbms.SlottedPage.Remove.{live_ne_none, slot_cases, cleared-Shrunk, slot_cleared}
use simple_duck_dbms.SlottedPage.Shrink.{Shrunk-IsPage, Shrunk-ne}
use simple_duck_dbms.SlottedPage.CompactLoop.{live_length_live, live_length_free}
use simple_duck_dbms.SlottedPage.Compaction.{Compact, compact-Compact}

-- The outcome of `restore_tuple`: a well-formed page with the tuple in the slot, and the tuples of
-- the other slots.
pub data Restored (m : Memory) (i : ℕ) (t : List ℕ) : Result Memory → Type 0 where
  restored :
      (m' : Memory)
      → IsPage m'
      → tuple_at m' i ≡ some t
      → ((j : ℕ) → j ≢ i → tuple_at m' j ≡ tuple_at m j)
      → Restored m i t (ok m')

-- The page that takes the tuple: the given one, or the compacted one.
room_page : Memory → List ℕ → Memory
room_page m t = if ltb_ℤ (free_space_bytes m) (pos (length t)) then compact m else m

room_made :
    (m : Memory) (i : ℕ) (t : List ℕ)
    → IsPage m
    → i < slot_count m
    → slot_offset m i ≡ 0
    → slots_end m + length t + sum (live_length m) (slot_count m) ≤ page_size
    → IsPage (room_page m t)
      × (i < slot_count (room_page m t))
      × (slot_offset (room_page m t) i ≡ 0)
      × (slots_end (room_page m t) + length t ≤ free_space_offset (room_page m t))
      × ((j : ℕ) → tuple_at (room_page m t) j ≡ tuple_at m j)
unfolding room_page
room_made m i t p h free room =
    rw (fits_test m (length t))
      (elim (Bool-cases (ltb (free_space_offset m) (slots_end m + length t))) [
        | inr e ↦ rw e (p, h, free, ltb→le _ _ e, (λ j. refl))
        | inl e ↦
            let r = compact-Compact m p in
            let lt : i < slot_count (compact m) = omega (arith, r.count) in
            rw e (
              r.page,
              lt,
              still_free m (compact m) i r lt free,
              omega (arith, r.count, r.space),
              r.tuples,
            )
      ])
  where
    still_free :
        (m m' : Memory) (i : ℕ)
        → Compact m m'
        → i < slot_count m'
        → slot_offset m i ≡ 0
        → slot_offset m' i ≡ 0
    still_free m m' i r lt free = elim (eq_or_ne (slot_offset m' i) 0) [
      | inl e ↦ e
      | inr live ↦ absurd (live_ne_none m' i lt live (r.tuples i ∙ tuple_at_free m i free))
    ]

outcome :
    (m₁ m m' : Memory) (i : ℕ) (t : List ℕ)
    → ((j : ℕ) → tuple_at m₁ j ≡ tuple_at m j)
    → Inserted m₁ t (some (i, m'))
    → Restored m i t (ok m')
outcome m₁ m _ _ t same (Inserted.stored i m' page room before after others link space) =
    restored m' page after (λ j ne. others j ne ∙ same j)

-- `restore_tuple` passes its assertions and restores the tuple, of less than 2 ^ 16 bytes, into a
-- free slot of the array of a well-formed page, if the slots, the live tuples and it fit the page.
pub restore_tuple-Restored :
    (m : Memory) (i : ℕ) (t : List ℕ)
    → IsPage m
    → All IsByte t
    → length t < 2 ^ 16
    → i < slot_count m
    → slot_offset m i ≡ 0
    → slots_end m + length t + sum (live_length m) (slot_count m) ≤ page_size
    → Restored m i t (restore_tuple m i t)
unfolding restore_tuple room_page
restore_tuple-Restored m i t p bytes short h free room =
    let size : length t % 2 ^ 16 ≡ length t = omega arith in
    let (p₁, h₁, free₁, fits, same) = room_made m i t p h free room in
    let (ins, kept) = insert_prefered (room_page m t) t i p₁ bytes short h₁ free₁ fits in
    let in_array : not (ltb i (slot_count m)) ≡ false = ground arith in
    let is_free : not (slot_offset m i == 0) ≡ false = ground arith in
    let fits₁ : ltb_ℤ (free_space_bytes (room_page m t)) (pos (length t)) ≡ false =
      fits_test (room_page m t) (length t)
      ∙ le→ltb (free_space_offset (room_page m t)) (slots_end (room_page m t) + length t) fits in
    rw (in_array, is_free, size, fits₁, ins)
      (outcome (room_page m t) m (place (room_page m t) i t) i t same kept)

live_length_agree :
    (m m' : Memory) (j : ℕ)
    → slot_offset m' j ≡ slot_offset m j
    → slot_length m' j ≡ slot_length m j
    → live_length m' j ≡ live_length m j
unfolding live_length
live_length_agree m m' j off len = rw (off, len) refl

module _ (m : Memory) (i : ℕ) (p : IsPage m) (h : i < slot_count m)
    (live : slot_offset m i ≢ 0) where
  pub deleted : Memory
  deleted = write16 m (slot_at i) 0

  pub deleted_eq : (delete_tuple m i).1 ≡ deleted
  unfolding delete_tuple deleted
  deleted_eq =
      let in_array : not (ltb i (slot_count m)) ≡ false = ground arith in
      let is_live : (slot_offset m i == 0) ≡ false = ground arith in rw (in_array, is_live) refl

  pub tuple : List ℕ
  tuple = read_bytes m (slot_offset m i) (slot_length m i)

  held : tuple_at m i ≡ some tuple
  unfolding tuple
  held = tuple_at_live m i h live

  deleted_ne : (j : ℕ) → j ≢ i → tuple_at deleted j ≡ tuple_at m j
  unfolding deleted
  deleted_ne j ne = Shrunk-ne m i deleted p h live (cleared-Shrunk m i p h) j ne

  deleted_total :
      sum (live_length deleted) (slot_count m) + slot_length m i
      ≡ sum (live_length m) (slot_count m)
  unfolding deleted
  deleted_total =
      let r = cleared-Shrunk m i p h in
      let kept : (j : ℕ) → j < slot_count m → j ≢ i → live_length deleted j ≡ live_length m j =
        λ j lt ne. live_length_agree m deleted j (r.offset_ne j ne lt) (r.length_ne j ne lt) in
      omega (
        arith,
        sum_update (live_length m) (live_length deleted) (slot_count m) i h kept,
        live_length_live m i live,
        live_length_free deleted i (slot_cleared m i),
      )

  pub Restored-delete :
      Restored (delete_tuple m i).1 i tuple (restore_tuple (delete_tuple m i).1 i tuple)
  unfolding deleted tuple slot_length
  Restored-delete =
      let r = cleared-Shrunk m i p h in
      let len = length-read_bytes m (slot_offset m i) (slot_length m i) in
      rw deleted_eq (
        restore_tuple-Restored deleted i tuple (Shrunk-IsPage m i deleted p h live r)
          (read_bytes-IsByte m (slot_offset m i) (slot_length m i) p.bytes)
          (omega (arith, len, read16-lt m (slot_at i + 2) p.bytes)) (omega (arith, r.count))
          (slot_cleared m i)
          (rw r.count (omega (arith, r.count, len, deleted_total, p.room, p.total))))

Restored-value :
    {m : Memory} {i : ℕ} {t : List ℕ} {r : Result Memory}
    → Restored m i t r
    → (m' : Memory) × (r ≡ ok m')
      × IsPage m'
      × (tuple_at m' i ≡ some t)
      × ((j : ℕ) → j ≢ i → tuple_at m' j ≡ tuple_at m j)
Restored-value (restored m' page self others) = (m', refl, page, self, others)

none_ne_some : {t : List ℕ} → none ≢ some t
none_ne_some e = cc

some-injective : {a b : List ℕ} → some a ≡ some b → a ≡ b
some-injective e = cc

-- `restore_tuple` of the tuple that a slot holds takes back its `delete_tuple`: the assertions pass,
-- and every slot holds what it held.
pub restore_tuple-delete_tuple :
    (m : Memory) (i : ℕ) (t : List ℕ)
    → IsPage m
    → tuple_at m i ≡ some t
    → (m' : Memory) × (restore_tuple (delete_tuple m i).1 i t ≡ ok m')
      × IsPage m'
      × ((j : ℕ) → tuple_at m' j ≡ tuple_at m j)
restore_tuple-delete_tuple m i t p e = elim (slot_cases m i) [
  | inl (h, gone) ↦ absurd (none_ne_some (sym gone ∙ e))
  | inr (inl (h, q, gone)) ↦ absurd (none_ne_some (sym gone ∙ e))
  | inr (inr (h, q, lt, live)) ↦
      let (m', result, page, self, others) = Restored-value (Restored-delete m i p lt live) in
      let same : tuple m i p lt live ≡ t = some-injective (sym (held m i p lt live) ∙ e) in
      (
        m',
        subst (λ x. restore_tuple (delete_tuple m i).1 i x ≡ ok m') same result,
        page,
        λ j. elim (eq_or_ne j i) [
          | inl r ↦
              subst (λ k. tuple_at m' k ≡ tuple_at m k) (sym r) (self ∙ sym (held m i p lt live))
          | inr ne ↦
              others j ne
              ∙ subst (λ x. tuple_at x j ≡ tuple_at m j) (sym (deleted_eq m i p lt live))
                  (deleted_ne m i p lt live j ne)
        ],
      )
]
