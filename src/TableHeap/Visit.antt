-- ===== src/TableHeap/Visit.antt =====
-- A visit of a page: it is fetched, looked at or changed, and unpinned.
use simple_duck_dbms.Base.{
  ℕ, ◌-◌, ◌^◌, ◌<◌, ◌≡◌, ◌≢◌, ◌⊎◌, inl, inr, refl, sym, subst, ◌∙◌, arith, Bool, true, false,
  Option, none, some, Result, ok, eq_or_ne,
}
use simple_duck_dbms.Memory.{Memory}
use simple_duck_dbms.BufferPool.Invariant.{Ghost, updated}
use simple_duck_dbms.BufferPool.Interface.{
  Pool, View, Got, Settled, Fetches, missed, got, Changes, PoolLaws,
}
use simple_duck_dbms.TableHeap.{leave}
use simple_duck_dbms.TableHeap.PageView.{PageView, Shows}
use simple_duck_dbms.TableHeap.Leave.{Few, leave_changed, leave_same}

module _ {S A : Type 0} (pool : Pool S) (view : View S A) where
  pub record GotFrame (s : S) (p f : ℕ) (ghost : Ghost A) (s' : S) : Type 0 where
    pub answer : pool.fetch_page s p ≡ ok (some f, s')
    pub frame : Got pool view s p f ghost s'
    pub size : view.size s' ≡ view.size s

  cases :
      (s : S) (p : ℕ) (ghost : Ghost A) (r : Result (Option ℕ × S))
      → pool.fetch_page s p ≡ r
      → Fetches pool view s p ghost r
      → ((s' : S) × (r ≡ ok (none, s')) × Settled pool view s ghost s')
        ⊎ ((f : ℕ) × (s' : S) × GotFrame s p f ghost s')
  cases s p ghost r e (missed s' settled) = inl (s', refl, settled)
  cases s p ghost r e (got f s' frame size) =
      inr (f, s', record { answer = e; frame = frame; size = size })

  settle :
      (s s₁ s₂ : S) (p f : ℕ) (ghost g : Ghost A)
      → Got pool view s p f ghost s₁
      → Changes pool view s₁ p g none (view.pins s₁ p - 1) s₂
      → Settled pool view s g s₂
  settle s s₁ s₂ p f ghost g a c = record {
    holds = c.holds;
    pins_same = λ q. elim (eq_or_ne q p) [
      | inl e ↦ rw e (omega (arith, c.pins_self, a.pins_self))
      | inr ne ↦ c.pins_ne q ne ∙ a.pins_ne q ne
    ];
  }

  pub Settled-trans :
      (s s' s'' : S) (g g' : Ghost A)
      → Settled pool view s g s'
      → Settled pool view s' g' s''
      → Settled pool view s g' s''
  Settled-trans s s' s'' g g' a b = record {
    holds = b.holds;
    pins_same = λ q. b.pins_same q ∙ a.pins_same q;
  }

module _ {S : Type 0} (pool : Pool S) (view : View S PageView)
    (laws : PoolLaws pool view Shows) where
  pub fetch_cases :
      (s : S) (p : ℕ) (ghost : Ghost PageView) (v : PageView)
      → view.Holds s ghost none
      → Few view s
      → ghost p ≡ some v
      → ((s' : S) × (pool.fetch_page s p ≡ ok (none, s')) × Settled pool view s ghost s')
        ⊎ ((f : ℕ) × (s' : S) × GotFrame pool view s p f ghost s')
  fetch_cases s p ghost v holds few known =
      cases pool view s p ghost (pool.fetch_page s p) refl
        (laws.fetches s p ghost v holds known (few p))

  module _ (s s₁ : S) (p f : ℕ) (ghost : Ghost PageView) (few : Few view s)
      (a : GotFrame pool view s p f ghost s₁) where
    pub shown : (v : PageView) → ghost p ≡ some v → Shows (pool.bytes s₁ f) v
    shown v known = laws.shows s₁ p f ghost none v a.frame.holds a.frame.here known

    pub named_page : pool.page_id s₁ f ≡ p
    named_page = laws.named s₁ p f ghost none a.frame.holds a.frame.here

    pinned : view.pins s₁ p ≢ 0
    pinned z = omega (arith, a.frame.pins_self)

    small : view.pins s₁ p < 2 ^ 32
    small = omega (arith, a.frame.pins_self, few p)

    pub visit_same :
        (m : Memory) (v : PageView) (dirty : Bool)
        → ghost p ≡ some v
        → Shows m v
        → Settled pool view s ghost (leave pool s₁ f m dirty)
          × (view.size (leave pool s₁ f m dirty) ≡ view.size s)
    visit_same m v dirty known shows =
        let c =
          leave_same pool view Shows laws s₁ p f ghost a.frame.holds a.frame.here pinned small m v
            dirty known shows in
        (settle pool view s s₁ (leave pool s₁ f m dirty) p f ghost ghost a.frame c, c.size ∙ a.size)

    pub visit_changed :
        (m : Memory) (v : PageView)
        → Shows m v
        → Settled pool view s (updated ghost p (some v)) (leave pool s₁ f m true)
    visit_changed m v shows =
        settle pool view s s₁ (leave pool s₁ f m true) p f ghost (updated ghost p (some v)) a.frame
          (leave_changed pool view Shows laws s₁ p f ghost a.frame.holds a.frame.here pinned small m
            v shows)

    pub named_changed :
        (m : Memory) (v : PageView) → Shows m v → pool.page_id (pool.set_bytes s₁ f m) f ≡ p
    named_changed m v shows =
        let c = laws.writes s₁ p f ghost none m v a.frame.holds a.frame.here (λ q ne e. cc) shows in
        laws.named (pool.set_bytes s₁ f m) p f (updated ghost p (some v)) (some p) c.holds
          (c.place f a.frame.here)

    -- The page is left as it was fetched.
    pub visit_only :
        Settled pool view s ghost (pool.unpin_page s₁ (pool.page_id s₁ f) false)
        × (view.size (pool.unpin_page s₁ (pool.page_id s₁ f) false) ≡ view.size s)
    visit_only =
        let c = laws.unpins_clean s₁ p f ghost a.frame.holds a.frame.here pinned small in
        subst
          (λ q.
            Settled pool view s ghost (pool.unpin_page s₁ q false)
            × (view.size (pool.unpin_page s₁ q false) ≡ view.size s))
          (sym named_page)
          (
            settle pool view s s₁ (pool.unpin_page s₁ p false) p f ghost ghost a.frame c,
            c.size ∙ a.size,
          )

    pub visit_changed_size :
        (m : Memory) (v : PageView) → Shows m v → view.size (leave pool s₁ f m true) ≡ view.size s
    visit_changed_size m v shows =
        (leave_changed pool view Shows laws s₁ p f ghost a.frame.holds a.frame.here pinned small m v
          shows).size
        ∙ a.size
