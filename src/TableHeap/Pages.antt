-- ===== src/TableHeap/Pages.antt =====
-- `all_pages`: the ids of the pages of the chain, in its order.
use simple_duck_dbms.Base.{
  ℕ, zero, suc, ◌≤◌, ◌≡◌, ◌≢◌, inl, inr, refl, sym, ap, subst, arith, true, false, none, List, [],
  ◌∷◌, ◌++◌, length, Result, ok, ◌==◌, eq_or_ne,
}
use simple_duck_dbms.SlottedPage.{next_page, invalid_page_id}
use simple_duck_dbms.BufferPool.Invariant.{Ghost}
use simple_duck_dbms.BufferPool.Interface.{Pool, View, Settled, PoolLaws}
use simple_duck_dbms.TableHeap.{TableHeapFetchStatus, pages_from, all_pages}
use simple_duck_dbms.TableHeap.PageView.{PageView, Shows}
use simple_duck_dbms.TableHeap.Leave.{Few}
use simple_duck_dbms.TableHeap.Visit.{Settled-trans, fetch_cases, shown, visit_only}
use simple_duck_dbms.TableHeap.Chain.{Chain, ends, page, ended}

append_step : (xs ys : List ℕ) (x : ℕ) → (xs ++ (x ∷ [])) ++ ys ≡ xs ++ (x ∷ ys)
append_step [] ys x = refl
append_step (z ∷ xs) ys x = ap (λ l. z ∷ l) (append_step xs ys x)

module _ {S : Type 0} (pool : Pool S) (view : View S PageView) where
  -- What `all_pages` returns, behind the pages `found`: every page of the chain; or those in front
  -- of a page that could not be fetched.
  pub data Listed (s : S) (ghost : Ghost PageView) (found : List ℕ) (pages : List ℕ)
      : Result (List ℕ × TableHeapFetchStatus × S) → Type 0 where
    listed :
        (s' : S)
        → Settled pool view s ghost s'
        → Listed s ghost found pages (ok (found ++ pages, TableHeapFetchStatus.success, s'))
    cut_off :
        (s₁ s' : S) (p : ℕ) (front back : List ℕ)
        → pages ≡ front ++ (p ∷ back)
        → pool.fetch_page s₁ p ≡ ok (none, s')
        → Settled pool view s ghost s'
        → Listed s ghost found pages (ok (found ++ front, TableHeapFetchStatus.failed, s'))

  behind_page :
      (s s₁ : S) (ghost : Ghost PageView) (found pages : List ℕ) (p : ℕ)
      (r : Result (List ℕ × TableHeapFetchStatus × S))
      → Settled pool view s ghost s₁
      → Listed s₁ ghost (found ++ (p ∷ [])) pages r
      → Listed s ghost found (p ∷ pages) r
  behind_page s s₁ ghost found pages p r a (listed s' b) =
      subst (λ l. Listed s ghost found (p ∷ pages) (ok (l, TableHeapFetchStatus.success, s')))
        (sym (append_step found pages p))
        (listed s' (Settled-trans pool view s s₁ s' ghost ghost a b))
  behind_page s s₁ ghost found pages p r a (cut_off s₂ s' q front back split e b) =
      subst (λ l. Listed s ghost found (p ∷ pages) (ok (l, TableHeapFetchStatus.failed, s')))
        (sym (append_step found front p))
        (cut_off s₂ s' q (p ∷ front) back (ap (λ l. p ∷ l) split) e
          (Settled-trans pool view s s₁ s' ghost ghost a b))

append_nil : (xs : List ℕ) → xs ++ [] ≡ xs
append_nil [] = refl
append_nil (x ∷ xs) = ap (λ l. x ∷ l) (append_nil xs)

module _ {S : Type 0} (pool : Pool S) (view : View S PageView)
    (laws : PoolLaws pool view Shows) where
  pages_from-Listed :
      (fuel : ℕ) (s : S) (ghost : Ghost PageView) (p : ℕ) (found pages : List ℕ)
      → view.Holds s ghost none
      → Few view s
      → Chain ghost p pages
      → p ≢ invalid_page_id
      → length pages ≤ fuel
      → Listed pool view s ghost found pages (pages_from pool fuel s p found)
  unfolding pages_from
  pages_from-Listed zero s ghost p found pages holds few ends real enough = absurd (real refl)
  pages_from-Listed (suc fuel) s ghost p found pages holds few ends real enough = absurd (real refl)
  pages_from-Listed zero s ghost p found pages holds few (page q v rest _ known chain) real enough =
      absurd (omega arith)
  pages_from-Listed (suc fuel) s ghost p found pages holds few (page q v rest _ known chain) real
        enough =
      elim (fetch_cases pool view laws s q ghost v holds few known) [
        | inl (s', e, settled) ↦
            rw (e, pages_from)
              (subst
                (λ l.
                  Listed pool view s ghost found (q ∷ rest)
                    (ok (l, TableHeapFetchStatus.failed, s')))
                (append_nil found) (cut_off s s' q [] rest refl e settled))
        | inr (f, s₁, a) ↦
            let s₂ = pool.unpin_page s₁ (pool.page_id s₁ f) false in
            let settled = (visit_only pool view laws s s₁ q f ghost few a).0 in
            let link : next_page (pool.bytes s₁ f) ≡ v.link =
              (shown pool view laws s s₁ q f ghost few a v known).link in
            elim (eq_or_ne v.link invalid_page_id) [
              | inl last ↦
                  let stops : (next_page (pool.bytes s₁ f) == invalid_page_id) ≡ true =
                    ground (arith, link, last) in
                  rw (a.answer, stops, pages_from)
                    (subst
                      (λ l.
                        Listed pool view s ghost found (q ∷ l)
                          (ok (found ++ (q ∷ []), TableHeapFetchStatus.success, s₂)))
                      (sym (ended ghost v.link rest chain last)) (listed s₂ settled))
              | inr on ↦
                  let goes_on : (next_page (pool.bytes s₁ f) == invalid_page_id) ≡ false =
                    ground (arith, link, on) in
                  rw (a.answer, goes_on, pages_from)
                    (behind_page pool view s s₂ ghost found rest q
                      (pages_from pool fuel s₂ (next_page (pool.bytes s₁ f)) (found ++ (q ∷ [])))
                      settled
                      (subst
                        (λ n.
                          Listed pool view s₂ ghost (found ++ (q ∷ [])) rest
                            (pages_from pool fuel s₂ n (found ++ (q ∷ []))))
                        (sym link)
                        (pages_from-Listed fuel s₂ ghost v.link (found ++ (q ∷ [])) rest
                          settled.holds (λ x. omega (arith, settled.pins_same x, few x)) chain on
                          (omega arith))))
            ]
      ]

  -- `all_pages`, from the first page of a chain, with fuel for each page, where the pool keeps its laws
  -- and each page is pinned less than 2 ^ 32 - 1 times: SUCCESS with the pages of the chain in its
  -- order, or FAILED with those in front of a page that could not be fetched; the pages are pinned
  -- as before and hold what they held.
  pub all_pages-Listed :
      (fuel : ℕ) (s : S) (ghost : Ghost PageView) (first : ℕ) (pages : List ℕ)
      → view.Holds s ghost none
      → Few view s
      → Chain ghost first pages
      → first ≢ invalid_page_id
      → length pages ≤ fuel
      → Listed pool view s ghost [] pages (all_pages pool fuel s first)
  unfolding all_pages
  all_pages-Listed fuel s ghost first pages holds few chain real enough =
      pages_from-Listed fuel s ghost first [] pages holds few chain real enough
