-- ===== src/TableHeap/PageView.antt =====
-- A page of the heap as the client sees it: the tuple in each slot, and the link.
use simple_duck_dbms.Base.{
  ℕ, ◌≤◌, ◌≡◌, ◌≢◌, inl, inr, refl, sym, ap, ◌∙◌, arith, Bool, true, false, List, length, All,
  Option, none, some, ◌==◌, if◌then◌else◌, Bool-cases, eq_or_ne,
}
use simple_duck_dbms.Bytes.{IsByte}
use simple_duck_dbms.Memory.{Memory}
use simple_duck_dbms.SlottedPage.{
  slot_count, free_space_offset, slot_offset, slot_length, next_page, set_next_page, init,
  invalid_page_id, compact, is_compacted,
}
use simple_duck_dbms.SlottedPage
use simple_duck_dbms.SlottedPage.Invariant.{IsPage, tuple_at}
use simple_duck_dbms.SlottedPage.Insert.{Inserted, no_space, no_slot, stored, insert_tuple-Inserted}
use simple_duck_dbms.SlottedPage.Compaction.{compact-Compact}
use simple_duck_dbms.TableHeap.{attempt}

-- `empty` is known of a page that was just created.
pub record PageView : Type 0 where
  pub tuples : ℕ → Option (List ℕ)
  pub link : ℕ
  pub empty : Bool

pub record Shows (m : Memory) (v : PageView) : Type 0 where
  pub page : IsPage m
  pub tuples : (j : ℕ) → tuple_at m j ≡ v.tuples j
  pub link : next_page m ≡ v.link
  pub empty : v.empty ≡ true → (slot_count m ≡ 0) × (free_space_offset m ≡ 8192)

-- The page with another tuple in a slot, or none.
unfoldable pub put : PageView → ℕ → Option (List ℕ) → PageView
put v i t = record { tuples = λ j. if j == i then t else v.tuples j; link = v.link; empty = false }

pub put-Shows :
    (m m' : Memory) (v : PageView) (i : ℕ) (t : Option (List ℕ))
    → Shows m v
    → IsPage m'
    → tuple_at m' i ≡ t
    → ((j : ℕ) → j ≢ i → tuple_at m' j ≡ tuple_at m j)
    → next_page m' ≡ next_page m
    → Shows m' (put v i t)
unfolding put
put-Shows m m' v i t h p self others link = record {
  page = p;
  tuples = λ j. elim (eq_or_ne j i) [
    | inl e ↦ let same : (j == i) ≡ true = ground arith in rw same (ap (tuple_at m') e ∙ self)
    | inr ne ↦ let other : (j == i) ≡ false = ground arith in rw other (others j ne ∙ h.tuples j)
  ];
  link = link ∙ h.link;
  empty = λ e. cc;
}

-- The two attempts: the tuple is in a slot that held nothing, or it does not fit, and the page
-- shows what it showed; on an empty page a tuple of up to 8180 bytes fits.
pub data Attempted (v : PageView) (t : List ℕ) : Option ℕ × Memory → Type 0 where
  refused : (m' : Memory) → Shows m' v → v.empty ≡ false → Attempted v t (none, m')
  placed :
      (i : ℕ) (m' : Memory)
      → v.tuples i ≡ none
      → Shows m' (put v i (some t))
      → Attempted v t (some i, m')

module _ (v : PageView) (t : List ℕ) (bytes : All IsByte t) (fits : length t ≤ 8180) where
  compacted-Shows : (m : Memory) → Shows m v → v.empty ≡ false → Shows (compact m) v
  compacted-Shows m h full =
      let c = compact-Compact m h.page in
      record {
        page = c.page;
        tuples = λ j. c.tuples j ∙ h.tuples j;
        link = c.link ∙ h.link;
        empty = λ e. cc;
      }

  stored-Attempted :
      (m m' : Memory) (i : ℕ)
      → Shows m v
      → IsPage m'
      → tuple_at m i ≡ none
      → tuple_at m' i ≡ some t
      → ((j : ℕ) → j ≢ i → tuple_at m' j ≡ tuple_at m j)
      → next_page m' ≡ next_page m
      → Attempted v t (some i, m')
  stored-Attempted m m' i h p old new others link =
      placed i m' (sym (h.tuples i) ∙ old) (put-Shows m m' v i (some t) h p new others link)

  -- A refusal shows that the page was not empty.
  not_empty :
      (m : Memory) (r : Option (ℕ × Memory))
      → Shows m v
      → Inserted m t r
      → r ≡ none
      → v.empty ≡ false
  not_empty m r h (no_space less) e = elim (Bool-cases v.empty) [
    | inr no_e ↦ no_e
    | inl yes_e ↦ let (count, space) = h.empty yes_e in absurd (omega arith)
  ]
  not_empty m r h (no_slot taken less) e = elim (Bool-cases v.empty) [
    | inr no_e ↦ no_e
    | inl yes_e ↦ let (count, space) = h.empty yes_e in absurd (omega arith)
  ]
  not_empty m r h (stored i m' p _ _ _ _ _ _) e = cc

  second :
      (m : Memory) (r : Option (ℕ × Memory))
      → Shows (compact m) v
      → Inserted (compact m) t r
      → v.empty ≡ false
      → Attempted v t (elim r [ some (slot, m') ↦ (some slot, m') | none ↦ (none, compact m) ])
  second m r h (no_space less) full = refused (compact m) h full
  second m r h (no_slot taken less) full = refused (compact m) h full
  second m r h (stored i m' p room old new others link space) full =
      stored-Attempted (compact m) m' i h p old new others link

  -- Behind a refusal of the page as it is.
  retried : Memory → Option ℕ × Memory
  retried m =
      if is_compacted m then (none, m) else elim (SlottedPage.insert_tuple (compact m) t none) [
        | some (slot, m') ↦ (some slot, m')
        | none ↦ (none, compact m)
      ]

  retried-Attempted : (m : Memory) → Shows m v → v.empty ≡ false → Attempted v t (retried m)
  unfolding retried
  retried-Attempted m h full = elim (Bool-cases (is_compacted m)) [
    | inl e ↦ rw e (refused m h full)
    | inr e ↦
        let h' = compacted-Shows m h full in
        rw e (
          second m (SlottedPage.insert_tuple (compact m) t none) h'
            (insert_tuple-Inserted (compact m) t none h'.page bytes (omega arith)) full)
  ]

  first :
      (m : Memory) (r : Option (ℕ × Memory))
      → Shows m v
      → Inserted m t r
      → Attempted v t (elim r [ some (slot, m') ↦ (some slot, m') | none ↦ retried m ])
  first m r h (stored i m' p room old new others link space) =
      stored-Attempted m m' i h p old new others link
  first m r h (no_space less) = retried-Attempted m h (not_empty m none h (no_space less) refl)
  first m r h (no_slot taken less) =
      retried-Attempted m h (not_empty m none h (no_slot taken less) refl)

  pub attempt-Attempted : (m : Memory) → Shows m v → Attempted v t (attempt m t)
  unfolding attempt retried
  attempt-Attempted m h =
      first m (SlottedPage.insert_tuple m t none) h
        (insert_tuple-Inserted m t none h.page bytes (omega arith))
