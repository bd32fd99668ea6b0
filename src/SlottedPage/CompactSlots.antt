-- ===== src/SlottedPage/CompactSlots.antt =====
-- The slot array that `compact` writes.
use simple_duck_dbms.Base.{
  ℕ, suc, ◌+◌, ◌-◌, ◌*◌, ◌^◌, ◌≤◌, ◌<◌, ◌≡◌, inl, inr, refl, ap, subst, ◌∙◌, arith, List, [], ◌∷◌,
  length, get_elem?, Option, some, none, eq_or_ne,
}
use simple_duck_dbms.Memory.{Memory, read16, write16}
use simple_duck_dbms.Memory.Frames.{
  AllBytes, Apart, write16-AllBytes, read16-write16_self, read16-write16-Apart,
}
use simple_duck_dbms.SlottedPage.{slot_at, write_slots}

-- A word apart from the entries that are written.
pub read16-write_slots-Apart :
    (m : Memory) (i : ℕ) (slots : List (ℕ × ℕ)) (a : ℕ)
    → Apart (slot_at i) (4 * length slots) a 2
    → read16 (write_slots m i slots) a ≡ read16 m a
unfolding write_slots
read16-write_slots-Apart m i [] a h = refl
read16-write_slots-Apart m i ((offset, len) ∷ slots) a h =
    let w = write16 m (slot_at i) offset in
    read16-write_slots-Apart (write16 w (slot_at i + 2) len) (i + 1) slots a (omega arith)
    ∙ read16-write16-Apart w (slot_at i + 2) len a (omega arith)
    ∙ read16-write16-Apart m (slot_at i) offset a (omega arith)

pub write_slots-AllBytes :
    (m : Memory) (i : ℕ) (slots : List (ℕ × ℕ)) → AllBytes m → AllBytes (write_slots m i slots)
unfolding write_slots
write_slots-AllBytes m i [] h = h
write_slots-AllBytes m i ((offset, len) ∷ slots) h =
    write_slots-AllBytes (write16 (write16 m (slot_at i) offset) (slot_at i + 2) len) (i + 1) slots
      (write16-AllBytes _ (slot_at i + 2) len (write16-AllBytes m (slot_at i) offset h))

entry_eq :
    (o l offset len : ℕ)
    → ◌≡◌ {A = Option (ℕ × ℕ)} (some (o, l)) (some (offset, len))
    → (o ≡ offset) × (l ≡ len)
entry_eq o l offset len e = (ap (first_or 0) e, ap (second_or 0) e)
  where
    first_or : ℕ → Option (ℕ × ℕ) → ℕ
    first_or d none = d
    first_or d (some (a, b)) = a

    second_or : ℕ → Option (ℕ × ℕ) → ℕ
    second_or d none = d
    second_or d (some (a, b)) = b

-- The words of an entry that is written.
pub read16-write_slots :
    (m : Memory) (i j : ℕ) (slots : List (ℕ × ℕ)) (offset len : ℕ)
    → i ≤ j
    → get_elem? slots (j - i) ≡ some (offset, len)
    → offset < 2 ^ 16
    → len < 2 ^ 16
    → (read16 (write_slots m i slots) (slot_at j) ≡ offset)
      × (read16 (write_slots m i slots) (slot_at j + 2) ≡ len)
unfolding write_slots
read16-write_slots m i j [] offset len lo h ho hl = cc
read16-write_slots m i j ((o, l) ∷ slots) offset len lo h ho hl =
    let w = write16 m (slot_at i) o in
    let w' = write16 w (slot_at i + 2) l in
    elim (eq_or_ne i j) [
      | inl q ↦
          let e : j - i ≡ 0 = omega arith in
          let (eo, el) = entry_eq o l offset len (rw e at h) in
          subst
            (λ k.
              (read16 (write_slots w' (i + 1) slots) (slot_at k) ≡ offset)
              × (read16 (write_slots w' (i + 1) slots) (slot_at k + 2) ≡ len))
            q
            (
              read16-write_slots-Apart w' (i + 1) slots (slot_at i) (omega arith)
                  ∙ read16-write16-Apart w (slot_at i + 2) l (slot_at i) (omega arith)
                  ∙ read16-write16_self m (slot_at i) o (omega arith)
                  ∙ eo,
              read16-write_slots-Apart w' (i + 1) slots (slot_at i + 2) (omega arith)
                  ∙ read16-write16_self w (slot_at i + 2) l (omega arith)
                  ∙ el,
            )
      | inr ne ↦
          let e : j - i ≡ suc (j - (i + 1)) = omega arith in
          read16-write_slots w' (i + 1) j slots offset len (omega arith) (rw e at h) ho hl
    ]
