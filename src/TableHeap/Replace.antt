-- ===== src/TableHeap/Replace.antt =====
-- The page of `update_tuple` behind the deletion of the old tuple.
use simple_duck_dbms.Base.{
  ℕ, ◌^◌, ◌<◌, ◌≡◌, ◌≢◌, ◌+◌, inl, inr, refl, sym, ap, subst, ◌∙◌, arith, Option, none, some,
  some-injective, List, length, All, if◌then◌else◌, Bool-cases, eq_or_ne,
}
use simple_duck_dbms.Bytes.{IsByte}
use simple_duck_dbms.Memory.{Memory}
use simple_duck_dbms.SlottedPage.{
  slot_count, slot_offset, free_space_offset, next_page, is_compacted, compact, insert_tuple, place,
}
use simple_duck_dbms.SlottedPage.Invariant.{IsPage, tuple_at}
use simple_duck_dbms.SlottedPage.Fields.{slots_end}
use simple_duck_dbms.SlottedPage.Remove.{live_ne_none}
use simple_duck_dbms.SlottedPage.Insert.{
  Inserted, no_space, no_slot, stored, insert_tuple-Inserted, insert_prefered,
}
use simple_duck_dbms.SlottedPage.Compaction.{compact-Compact}
use simple_duck_dbms.TableHeap.{replace}
use simple_duck_dbms.TableHeap.PageView.{PageView, Shows, put, put-Shows}

-- The page with its free space in one piece.
abbrev pub packed : Memory → Memory
packed m = if is_compacted m then m else compact m

-- The new tuple is in the slot of the old one, or the packed page `m` has less space than its bytes,
-- and the slot holds nothing.
pub data Replaced (v : PageView) (i : ℕ) (t : List ℕ) (m : Memory)
    : Option ℕ × Memory → Type 0 where
  no_room :
      Shows m (put v i none)
      → free_space_offset m < slots_end m + length t
      → Replaced v i t m (none, m)
  back : (m' : Memory) → Shows m' (put v i (some t)) → Replaced v i t m (some i, m')

module _ (m : Memory) (v : PageView) (h : Shows m v) (i : ℕ) (t : List ℕ) (bytes : All IsByte t)
    (short : length t < 2 ^ 16) where
  -- A page on which the tuple in slot `i` was deleted.
  record Emptied (m₁ : Memory) : Type 0 where
    pub page : IsPage m₁
    pub gone : tuple_at m₁ i ≡ none
    pub others : (j : ℕ) → j ≢ i → tuple_at m₁ j ≡ tuple_at m j
    pub link : next_page m₁ ≡ next_page m
    pub in_array : i < slot_count m₁

  compact-Emptied : (m₁ : Memory) → Emptied m₁ → Emptied (compact m₁)
  compact-Emptied m₁ e =
      let c = compact-Compact m₁ e.page in
      record {
        page = c.page;
        gone = c.tuples i ∙ e.gone;
        others = λ j ne. c.tuples j ∙ e.others j ne;
        link = c.link ∙ e.link;
        in_array = omega (arith, c.count, e.in_array);
      }

  free_slot : (m₁ : Memory) → Emptied m₁ → slot_offset m₁ i ≡ 0
  free_slot m₁ e = elim (eq_or_ne (slot_offset m₁ i) 0) [
    | inl free ↦ free
    | inr live ↦ absurd (live_ne_none m₁ i e.in_array live e.gone)
  ]

  Inserted-Replaced :
      (m₁ : Memory) (r : Option (ℕ × Memory))
      → Emptied m₁
      → insert_tuple m₁ t (some i) ≡ r
      → Inserted m₁ t r
      → Replaced v i t m₁ (elim r [ some (i, m₂) ↦ (some i, m₂) | none ↦ (none, m₁) ])
  Inserted-Replaced m₁ r e same (no_space less) =
      no_room (put-Shows m m₁ v i none h e.page e.gone e.others e.link) less
  Inserted-Replaced m₁ r e same (no_slot taken less) = absurd (taken i e.in_array (free_slot m₁ e))
  Inserted-Replaced m₁ r e same (stored k m₂ p room old new others link space) =
      let (ins, _) = insert_prefered m₁ t i e.page bytes short e.in_array (free_slot m₁ e) room in
      let here : k ≡ i =
        ap (λ x. x.0) (some-injective (k, m₂) (i, place m₁ i t) (sym same ∙ ins)) in
      subst (λ n. Replaced v i t m₁ (some n, m₂)) (sym here)
        (back m₂ (
          put-Shows m m₂ v i (some t) h p (subst (λ n. tuple_at m₂ n ≡ some t) here new)
            (λ j ne. others j (λ z. ne (z ∙ here)) ∙ e.others j ne) (link ∙ e.link)))

  stored_on : Memory → Option ℕ × Memory
  stored_on m₁ = elim (insert_tuple m₁ t (some i)) [
    | some (i, m₂) ↦ (some i, m₂)
    | none ↦ (none, m₁)
  ]

  pub replace-Replaced :
      (m₁ : Memory)
      → IsPage m₁
      → tuple_at m₁ i ≡ none
      → ((j : ℕ) → j ≢ i → tuple_at m₁ j ≡ tuple_at m j)
      → next_page m₁ ≡ next_page m
      → i < slot_count m₁
      → Replaced v i t (packed m₁) (replace m₁ i t)
  unfolding replace stored_on
  replace-Replaced m₁ p gone others link in_array =
      let e : Emptied m₁ = record {
        page = p;
        gone = gone;
        others = others;
        link = link;
        in_array = in_array;
      } in
      elim (Bool-cases (is_compacted m₁)) [
        | inl c ↦
            let same : packed m₁ ≡ m₁ = rw c refl in
            subst (λ x. Replaced v i t x (stored_on x)) (sym same)
              (Inserted-Replaced m₁ (insert_tuple m₁ t (some i)) e refl
                (insert_tuple-Inserted m₁ t (some i) p bytes short))
        | inr c ↦
            let same : packed m₁ ≡ compact m₁ = rw c refl in
            let e' = compact-Emptied m₁ e in
            subst (λ x. Replaced v i t x (stored_on x)) (sym same)
              (Inserted-Replaced (compact m₁) (insert_tuple (compact m₁) t (some i)) e' refl
                (insert_tuple-Inserted (compact m₁) t (some i) e'.page bytes short))
      ]
