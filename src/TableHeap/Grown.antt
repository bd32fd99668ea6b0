-- ===== src/TableHeap/Grown.antt =====
-- The chain with a new page.
use simple_duck_dbms.Base.{
  ℕ, ◌≡◌, ◌≢◌, inl, inr, refl, sym, ap, subst, ◌∙◌, arith, none, some, eq_or_ne, some-injective,
}
use simple_duck_dbms.SlottedPage.{invalid_page_id}
use simple_duck_dbms.BufferPool.Invariant.{Ghost, updated}
use simple_duck_dbms.TableHeap.PageView.{PageView}
use simple_duck_dbms.TableHeap.PageBytes.{new_view}
use simple_duck_dbms.TableHeap.Chain.{tuple_of_known, tuple_of_absent, tuple_of_same, Kept}

-- The page `n` is new, and linked to page `p`.
unfoldable pub grown : Ghost PageView → ℕ → PageView → ℕ → Ghost PageView
grown ghost p v n =
    updated (updated (updated ghost n none) n (some new_view)) p (some (record v { link = n }))

module _ (ghost : Ghost PageView) (p n : ℕ) (v : PageView) (known : ghost p ≡ some v)
    (fresh : ghost n ≡ none) where
  pub apart : p ≢ n
  apart e = let z = ap ghost e in cc

  pub grown_self : grown ghost p v n p ≡ some (record v { link = n })
  unfolding grown updated
  grown_self = ground arith

  pub grown_new : grown ghost p v n n ≡ some new_view
  unfolding grown updated
  grown_new = ground (arith, apart)

  grown_other : (q : ℕ) → q ≢ p → q ≢ n → grown ghost p v n q ≡ ghost q
  unfolding grown updated
  grown_other q ne ne' = ground arith

  pub grown-Kept : v.link ≡ invalid_page_id → Kept ghost (grown ghost p v n)
  grown-Kept last = record {
    tuples = λ q j. elim (eq_or_ne q p) [
      | inl e ↦ rw e (
          tuple_of_known (grown ghost p v n) p j (record v { link = n }) grown_self
          ∙ sym (tuple_of_known ghost p j v known))
      | inr ne ↦ elim (eq_or_ne q n) [
        | inl e ↦ rw e (
            tuple_of_known (grown ghost p v n) n j new_view grown_new
            ∙ sym (tuple_of_absent ghost n j fresh))
        | inr ne' ↦ tuple_of_same ghost (grown ghost p v n) q j (grown_other q ne ne')
      ]
    ];
    links = λ q w known'. elim (eq_or_ne q p) [
      | inl e ↦ (
        record v { link = n },
        ap (grown ghost p v n) e ∙ grown_self,
        inr (
            subst (λ x. x.link ≡ invalid_page_id)
              (some-injective v w (sym known ∙ ap ghost (sym e) ∙ known')) last),
      )
      | inr ne ↦ elim (eq_or_ne q n) [
        | inl e ↦ absurd (let z : ghost q ≡ none = ap ghost e ∙ fresh in cc)
        | inr ne' ↦ (w, grown_other q ne ne' ∙ known', inl refl)
      ]
    ];
  }
