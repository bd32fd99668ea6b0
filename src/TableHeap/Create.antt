-- ===== src/TableHeap/Create.antt =====
-- `create`: a heap of one page.
use simple_duck_dbms.Base.{
  ℕ, ◌+◌, ◌^◌, ◌<◌, ◌≡◌, ◌≢◌, inl, inr, refl, sym, ap, subst, ◌∙◌, arith, true, Option, none, some,
  [], ◌∷◌, Result, ok, throw, Error, ◌>>=◌, eq_or_ne,
}
use simple_duck_dbms.SlottedPage.{init, invalid_page_id}
use simple_duck_dbms.BufferPool.Invariant.{Ghost, updated}
use simple_duck_dbms.BufferPool.Interface.{
  Pool, View, Settled, Creates, missed_new, created, PoolLaws,
}
use simple_duck_dbms.TableHeap.{leave, init_page, create}
use simple_duck_dbms.TableHeap.PageView.{PageView, Shows}
use simple_duck_dbms.TableHeap.PageBytes.{new_view, init-Shows}
use simple_duck_dbms.TableHeap.Leave.{leave_changed}
use simple_duck_dbms.TableHeap.Chain.{
  Chain, ends, page, tuple_of, tuple_of_known, tuple_of_absent, tuple_of_same, Kept,
}

-- A page of which nothing was promised is a new one.
unfoldable pub with_page : Ghost PageView → ℕ → Ghost PageView
with_page ghost n = updated (updated ghost n none) n (some new_view)

module _ (ghost : Ghost PageView) (n : ℕ) (fresh : ghost n ≡ none) where
  with_page_self : with_page ghost n n ≡ some new_view
  unfolding with_page updated
  with_page_self = ground arith

  with_page_ne : (q : ℕ) → q ≢ n → with_page ghost n q ≡ ghost q
  unfolding with_page updated
  with_page_ne q ne = ground arith

  with_page-Kept : Kept ghost (with_page ghost n)
  with_page-Kept = record {
    tuples = λ q j. elim (eq_or_ne q n) [
      | inl e ↦
          subst (λ x. tuple_of (with_page ghost n) x j ≡ tuple_of ghost x j) (sym e)
            (tuple_of_known (with_page ghost n) n j new_view with_page_self
              ∙ sym (tuple_of_absent ghost n j fresh))
      | inr ne ↦ tuple_of_same ghost (with_page ghost n) q j (with_page_ne q ne)
    ];
    links = λ q w known. elim (eq_or_ne q n) [
      | inl e ↦ absurd (let z = sym known ∙ ap ghost e ∙ fresh in cc)
      | inr ne ↦ (w, with_page_ne q ne ∙ known, inl refl)
    ];
  }

module _ {S : Type 0} (pool : Pool S) (view : View S PageView) where
  -- What `create` returns: the page of a new chain, or an exception where no page can be created.
  pub data HeapCreated (s : S) (ghost : Ghost PageView) : Result (ℕ × S) → Type 0 where
    no_page :
        (s' : S) → pool.new_page s ≡ ok (none, s') → HeapCreated s ghost (throw Error.runtime_error)
    new_heap :
        (n : ℕ) (s' : S)
        → ghost n ≡ none
        → n ≢ invalid_page_id
        → Settled pool view s (with_page ghost n) s'
        → Chain (with_page ghost n) n (n ∷ [])
        → Kept ghost (with_page ghost n)
        → HeapCreated s ghost (ok (n, s'))

module _ {S : Type 0} (pool : Pool S) (view : View S PageView) (laws : PoolLaws pool view Shows)
    (s : S) (ghost : Ghost PageView) where
  by_cases :
      (r : Result (Option ℕ × S))
      → pool.new_page s ≡ r
      → Creates pool view s ghost r
      → HeapCreated pool view s ghost (do
        (created_page, s₁) ← r
        elim created_page [
          | none ↦ throw Error.runtime_error
          | some frame ↦ ok (pool.page_id s₁ frame, init_page pool s₁ frame)
        ])
  unfolding init_page leave with_page
  by_cases r e (missed_new s' settled) = no_page s' e
  by_cases r e (created n f s₁ small fresh unpinned a zero) =
      let s₂ = leave pool s₁ f (init (pool.bytes s₁ f)) true in
      let c =
        leave_changed pool view Shows laws s₁ n f (updated ghost n none) a.holds a.here
          (λ z. omega (arith, a.pins_self)) (omega (arith, a.pins_self)) (init (pool.bytes s₁ f))
          new_view (init-Shows (pool.bytes s₁ f) (λ x. rw zero (omega arith))) in
      let real : n ≢ invalid_page_id = λ z. omega arith in
      subst (λ q. HeapCreated pool view s ghost (ok (q, s₂)))
        (sym (laws.named s₁ n f (updated ghost n none) none a.holds a.here))
        (new_heap n s₂ fresh real
          (record {
            holds = c.holds;
            pins_same = λ q. elim (eq_or_ne q n) [
              | inl same ↦ rw same (omega (arith, c.pins_self, a.pins_self))
              | inr ne ↦ c.pins_ne q ne ∙ a.pins_ne q ne
            ];
          })
          (page n new_view [] real (with_page_self ghost n fresh) ends)
          (with_page-Kept ghost n fresh))

  -- `create`, where the pool keeps its laws and another page can be numbered: it throws where no page
  -- can be created; else it returns a page of which nothing was promised, which is a chain by
  -- itself; no tuple of another page has changed, and each page is pinned as often as before.
  pub create-HeapCreated :
      view.Holds s ghost none
      → view.size s + 1 < 2 ^ 32
      → HeapCreated pool view s ghost (create pool s)
  unfolding create
  create-HeapCreated holds room = by_cases (pool.new_page s) refl (laws.creates s ghost holds room)
