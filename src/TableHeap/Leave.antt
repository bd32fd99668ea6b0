-- ===== src/TableHeap/Leave.antt =====
-- The steps on a page between its fetch and its unpin.
use simple_duck_dbms.Base.{
  ℕ, ◌+◌, ◌-◌, ◌^◌, ◌<◌, ◌≡◌, ◌≢◌, sym, subst, some-injective, ◌∙◌, arith, Bool, true, false,
  Option, none, some,
}
use simple_duck_dbms.Memory.{Memory}
use simple_duck_dbms.BufferPool.Invariant.{Ghost, updated}
use simple_duck_dbms.BufferPool.Interface.{Pool, View, Stays, Changes, PoolLaws}
use simple_duck_dbms.TableHeap.{leave}

-- Each page is pinned less than 2 ^ 32 - 1 times.
abbrev pub Few : {S A : Type 0} → View S A → S → Type 0
Few view s = (q : ℕ) → view.pins s q + 1 < 2 ^ 32

module _ {S A : Type 0} (pool : Pool S) (view : View S A) where
  pub Stays-trans :
      (p : ℕ) (s s' s'' : S)
      → ((q : ℕ) → q ≢ p → view.pins s' q ≡ view.pins s q)
      → Stays pool view p s s'
      → Stays pool view p s' s''
      → Stays pool view p s s''
  Stays-trans p s s' s'' pins a b = record {
    place = λ q f ne here pinned.
        b.place q f ne (a.place q f ne here pinned) (λ z. pinned (sym (pins q ne) ∙ z));
    same = λ q f ne here pinned.
        b.same q f ne (a.place q f ne here pinned) (λ z. pinned (sym (pins q ne) ∙ z))
        ∙ a.same q f ne here pinned;
  }

  pub Changes-trans :
      (s s' s'' : S) (p : ℕ) (g g' : Ghost A) (hot hot' : Option ℕ) (n n' : ℕ)
      → Changes pool view s p g hot n s'
      → Changes pool view s' p g' hot' n' s''
      → Changes pool view s p g' hot' n' s''
  Changes-trans s s' s'' p g g' hot hot' n n' a b = record {
    holds = b.holds;
    place = λ f here. b.place f (a.place f here);
    pins_self = b.pins_self;
    pins_ne = λ q ne. b.pins_ne q ne ∙ a.pins_ne q ne;
    stays = Stays-trans p s s' s'' a.pins_ne a.stays b.stays;
    size = b.size ∙ a.size;
  }

module _ {S A : Type 0} (pool : Pool S) (view : View S A) (Rep : Memory → A → Type 0)
    (laws : PoolLaws pool view Rep) (s : S) (p f : ℕ) (ghost : Ghost A)
    (holds : view.Holds s ghost none) (here : view.InFrame s p f) (pinned : view.pins s p ≢ 0)
    (few : view.pins s p < 2 ^ 32) where
  only_p : (q : ℕ) → q ≢ p → some p ≢ some q
  only_p q ne e = absurd (ne (sym (some-injective p q e)))

  none_ne_some : (q : ℕ) → q ≢ p → none ≢ some q
  none_ne_some q ne e = cc

  unpin_changed :
      (m : Memory) (g : Ghost A) (hot : Option ℕ)
      → Changes pool view s p g hot (view.pins s p) (pool.set_bytes s f m)
      → ((q : ℕ) → q ≢ p → hot ≢ some q)
      → Changes pool view s p g none (view.pins s p - 1) (leave pool s f m true)
  unfolding leave
  unpin_changed m g hot c only =
      let s₁ = pool.set_bytes s f m in
      let here₁ = c.place f here in
      let id : pool.page_id s₁ f ≡ p = laws.named s₁ p f g hot c.holds here₁ in
      let u =
        laws.unpins_dirty s₁ p f g hot c.holds here₁ only (λ z. pinned (sym c.pins_self ∙ z))
          (omega (arith, c.pins_self)) in
      subst (λ q. Changes pool view s p g none (view.pins s p - 1) (pool.unpin_page s₁ q true))
        (sym id)
        (subst (λ k. Changes pool view s p g none (k - 1) (pool.unpin_page s₁ p true)) c.pins_self
          (Changes-trans pool view s s₁ (pool.unpin_page s₁ p true) p g g hot none (view.pins s p)
            (view.pins s₁ p - 1) c u))

  -- The page that was changed is marked dirty.
  pub leave_changed :
      (m : Memory) (v : A)
      → Rep m v
      → Changes pool view s p
          (updated ghost p (some v))
          none
          (view.pins s p - 1)
          (leave pool s f m true)
  leave_changed m v rep =
      unpin_changed m (updated ghost p (some v)) (some p)
        (laws.writes s p f ghost none m v holds here none_ne_some rep) only_p

  -- Bytes that stand for the same need no mark.
  pub leave_same :
      (m : Memory) (v : A) (dirty : Bool)
      → ghost p ≡ some v
      → Rep m v
      → Changes pool view s p ghost none (view.pins s p - 1) (leave pool s f m dirty)
  unfolding leave
  leave_same m v true known rep =
      unpin_changed m ghost none (laws.rewrites s p f ghost none m v holds here known rep)
        none_ne_some
  leave_same m v false known rep =
      let s₁ = pool.set_bytes s f m in
      let c = laws.rewrites s p f ghost none m v holds here known rep in
      let here₁ = c.place f here in
      let id : pool.page_id s₁ f ≡ p = laws.named s₁ p f ghost none c.holds here₁ in
      let u =
        laws.unpins_clean s₁ p f ghost c.holds here₁ (λ z. pinned (sym c.pins_self ∙ z))
          (omega (arith, c.pins_self)) in
      subst (λ q. Changes pool view s p ghost none (view.pins s p - 1) (pool.unpin_page s₁ q false))
        (sym id)
        (subst (λ k. Changes pool view s p ghost none (k - 1) (pool.unpin_page s₁ p false))
          c.pins_self
          (Changes-trans pool view s s₁ (pool.unpin_page s₁ p false) p ghost ghost none none
            (view.pins s p) (view.pins s₁ p - 1) c u))
