-- ===== src/TableHeap/InsertLoop.antt =====
-- `insert_tuple`: the tuple goes to the first page of the chain that has room, or to a new one at
-- its end.
use simple_duck_dbms.Base.{
  ℕ, suc, ◌+◌, ◌^◌, ◌≤◌, ◌<◌, ◌≡◌, ◌≢◌, inl, inr, sym, ap, subst, ◌∙◌, arith, Bool, true, false,
  Option, none, some, List, [], ◌∷◌, length, All, Result, ok, ◌>>=◌, some-injective, Bool-cases,
}
use mathlib.Core.List.{mem-cons_self}
use simple_duck_dbms.Bytes.{IsByte}
use simple_duck_dbms.Memory.{Memory}
use simple_duck_dbms.Transaction.{Rid}
use simple_duck_dbms.SlottedPage.{invalid_page_id}
use simple_duck_dbms.BufferPool.Invariant.{Ghost}
use simple_duck_dbms.BufferPool.Interface.{Pool, View, Settled, PoolLaws}
use simple_duck_dbms.TableHeap.{attempt, leave, advance, Following, insert_loop}
use simple_duck_dbms.TableHeap.PageView.{PageView, Shows, put, attempt-Attempted}
use simple_duck_dbms.TableHeap.PageBytes.{new_view}
use simple_duck_dbms.TableHeap.Leave.{Few}
use simple_duck_dbms.TableHeap.Visit.{GotFrame, fetch_cases, shown, named_changed, visit_changed}
use simple_duck_dbms.TableHeap.Chain.{
  Chain, ends, page, Kept-refl, relinked, changed, changed_links,
}
use simple_duck_dbms.TableHeap.Grown.{grown, grown_self, grown_new, grown-Kept}
use simple_duck_dbms.TableHeap.Grow.{Onward, follows, grew, no_page, advance-Onward}
use simple_duck_dbms.TableHeap.Inserted.{
  HeapInserted, attempt_cases, behind, changed-Stored, inserted, not_created, unread,
}

-- The pages that the loop may still make.
unfoldable pub to_create : Bool → ℕ
to_create true = 0
to_create false = 1

module _ {S : Type 0} (pool : Pool S) (view : View S PageView) (laws : PoolLaws pool view Shows)
    (t : List ℕ) (bytes : All IsByte t) (fits : length t ≤ 8180) where
  -- Fuel for each page of the chain, and for the one that is created, is enough.
  abbrev pub Loops : ℕ → Type 0
  Loops fuel =
      (s : S) (ghost : Ghost PageView) (p : ℕ) (pages : List ℕ) (created_new_page : Bool)
      → view.Holds s ghost none
      → Few view s
      → Chain ghost p pages
      → p ≢ invalid_page_id
      → (created_new_page ≡ false → view.size s + 1 < 2 ^ 32)
      → (created_new_page ≡ true → (v : PageView) → ghost p ≡ some v → v.empty ≡ true)
      → length pages + to_create created_new_page ≤ fuel
      → HeapInserted pool view s ghost p t (insert_loop pool fuel s p created_new_page t)

  module _ (fuel : ℕ) (ih : Loops fuel) (s s₁ : S) (p f : ℕ) (ghost : Ghost PageView)
      (few : Few view s) (a : GotFrame pool view s p f ghost s₁) (v : PageView)
      (known : ghost p ≡ some v) (m : Memory) (shows : Shows m v) (rest : List ℕ)
      (real : p ≢ invalid_page_id) (chain : Chain ghost v.link rest)
      (room : view.size s + 1 < 2 ^ 32) (bound : length rest + 1 ≤ fuel) where
    still_few : (g : Ghost PageView) (s' : S) → Settled pool view s g s' → Few view s'
    still_few g s' settled q = omega (arith, settled.pins_same q, few q)

    onward :
        (r : Result (Following pool))
        → Onward pool view laws s s₁ p f ghost few a v known m shows r
        → HeapInserted pool view s ghost p t (do
          next ← r
          insert_loop pool fuel
              (pool.unpin_page next.state (pool.page_id next.state f) next.dirty)
              next.page_id
              next.created_new_page
              t)
    unfolding to_create
    onward r (follows s' on settled size next id created unpinned) =
        rw (unpinned, id, created)
          (behind pool view s s' ghost ghost p v t (insert_loop pool fuel s' v.link false t) settled
            (Kept-refl ghost) real known on
            (ih s' ghost v.link rest false settled.holds (still_few ghost s' settled) chain on
              (λ e. omega (arith, size)) (λ e. cc) bound))
    onward r (grew n s' last fresh real_n settled next id created unpinned) =
        let g = grown ghost p v n in
        let new : g n ≡ some new_view = grown_new ghost p n v known fresh in
        rw (unpinned, id, created)
          (behind pool view s s' ghost g p (record v { link = n }) t
            (insert_loop pool fuel s' n true t) settled (grown-Kept ghost p n v known fresh last)
            real (grown_self ghost p n v known fresh) real_n
            (ih s' g n (n ∷ []) true settled.holds (still_few g s' settled)
              (page n new_view [] real_n new ends) real_n (λ e. cc)
              (λ e w known'. ap (λ x. x.empty) (some-injective w new_view (sym known' ∙ new)))
              (omega arith)))
    onward r (no_page s₂ s' e) = not_created s₂ s' e

  -- Behind the two attempts.
  tried : ℕ → S → ℕ → Bool → Option ℕ × Memory → Result (Option Rid × S)
  tried fuel s₁ f c r =
      let s₂ = pool.set_bytes s₁ f r.1 in
      elim r.0 [
        | some i ↦ ok (
          some (record { page_id = pool.page_id s₂ f; slot_num = i }),
          pool.unpin_page s₂ (pool.page_id s₂ f) true,
        )
        | none ↦ do
          next ← advance pool s₂ f c
          insert_loop pool fuel (pool.unpin_page next.state (pool.page_id next.state f) next.dirty)
              next.page_id next.created_new_page t
      ]

  pub step :
      (fuel : ℕ) (ih : Loops fuel) (s : S) (ghost : Ghost PageView) (p : ℕ) (v : PageView)
      (rest : List ℕ) (created_new_page : Bool)
      → view.Holds s ghost none
      → Few view s
      → p ≢ invalid_page_id
      → ghost p ≡ some v
      → Chain ghost v.link rest
      → (created_new_page ≡ false → view.size s + 1 < 2 ^ 32)
      → (created_new_page ≡ true → v.empty ≡ true)
      → length rest + to_create created_new_page ≤ fuel
      → HeapInserted pool view s ghost p t (insert_loop pool (suc fuel) s p created_new_page t)
  unfolding insert_loop tried to_create leave changed
  step fuel ih s ghost p v rest c holds few real known chain room new bound =
      elim (fetch_cases pool view laws s p ghost v holds few known) [
        | inl (s', e, settled) ↦
            rw (e, insert_loop)
              (unread s p s' ghost (p ∷ rest) e settled (Kept-refl ghost)
                (page p v rest real known chain))
        | inr (f, s₁, a) ↦
            elim (attempt_cases v t (attempt (pool.bytes s₁ f) t) (
              attempt-Attempted v t bytes fits (pool.bytes s₁ f)
                (shown pool view laws s s₁ p f ghost few a v known))) [
                  | inr (i, m, e, vacant, shows) ↦
                      let rid : Rid = record { page_id = p; slot_num = i } in
                      let g = changed ghost p i v (some t) in
                      let id =
                        named_changed pool view laws s s₁ p f ghost few a m (put v i (some t))
                          shows in
                      rw (a.answer, insert_loop)
                        (subst (λ r. HeapInserted pool view s ghost p t (tried fuel s₁ f c r))
                          (sym e)
                          (subst
                            (λ q. HeapInserted pool view s ghost p t (
                              ok (
                                some (record { page_id = q; slot_num = i }),
                                leave pool s₁ f m true,
                              )))
                            (sym id)
                            (inserted rid (leave pool s₁ f m true) g (p ∷ rest)
                              (visit_changed pool view laws s s₁ p f ghost few a m
                                (put v i (some t)) shows)
                              (changed-Stored ghost p i v t known vacant)
                              (relinked ghost g p (p ∷ rest)
                                (changed_links ghost p i v (some t) known)
                                (page p v rest real known chain))
                              mem-cons_self)))
                  | inl (m, e, shows, full) ↦ elim (Bool-cases c) [
                    | inl created ↦ absurd (let z = new created in cc)
                    | inr first ↦
                        subst
                          (λ b.
                            HeapInserted pool view s ghost p t
                              (insert_loop pool (suc fuel) s p b t))
                          (sym first)
                          (rw (a.answer, insert_loop)
                            (subst
                              (λ r. HeapInserted pool view s ghost p t (tried fuel s₁ f false r))
                              (sym e)
                              (onward fuel ih s s₁ p f ghost few a v known m shows rest real chain
                                (room first) (omega (arith, bound, ap to_create first))
                                (advance pool (pool.set_bytes s₁ f m) f false)
                                (advance-Onward pool view laws s s₁ p f ghost few a v known m shows
                                  (room first)))))
                  ]
                ]
      ]
