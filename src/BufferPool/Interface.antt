-- ===== src/BufferPool/Interface.antt =====
-- What the table heap calls of the buffer pool, and what it relies on: the operations and laws that
-- `BufferPool.Laws` gives for `BufferPoolManager`.
use simple_duck_dbms.Base.{
  ℕ, ◌+◌, ◌-◌, ◌^◌, ◌≤◌, ◌<◌, ◌≡◌, ◌≢◌, Bool, true, false, Option, none, some, Result, ok,
}
use simple_duck_dbms.Memory.{Memory}
use simple_duck_dbms.BufferPool.Invariant.{Ghost, updated}

-- A `Page*` is the number of its frame.
pub record Pool (S : Type 0) : Type 0 where
  pub fetch_page : S → ℕ → Result (Option ℕ × S)
  pub new_page : S → Result (Option ℕ × S)
  pub delete_page : S → ℕ → Result (Bool × S)
  pub unpin_page : S → ℕ → Bool → S
  pub page_id : S → ℕ → ℕ
  pub bytes : S → ℕ → Memory
  pub set_bytes : S → ℕ → Memory → S

-- What a client may know of a state: that each page holds what it is to hold, but for one that was
-- changed and is not marked yet; how often a page is pinned; in which frame it is; and how many
-- pages there are.
pub record View (S A : Type 0) : Type 1 where
  pub Holds : S → Ghost A → Option ℕ → Type 0
  pub InFrame : S → ℕ → ℕ → Type 0
  pub pins : S → ℕ → ℕ
  pub size : S → ℕ

module _ {S A : Type 0} (pool : Pool S) (view : View S A) where
  -- The pinned pages but `p` stay in their frames as they are.
  pub record Stays (p : ℕ) (s s' : S) : Type 0 where
    pub place : (q f : ℕ) → q ≢ p → view.InFrame s q f → view.pins s q ≢ 0 → view.InFrame s' q f
    pub same :
        (q f : ℕ)
        → q ≢ p
        → view.InFrame s q f
        → view.pins s q ≢ 0
        → pool.bytes s' f ≡ pool.bytes s f

  pub record Got (s : S) (p f : ℕ) (ghost : Ghost A) (s' : S) : Type 0 where
    pub holds : view.Holds s' ghost none
    pub here : view.InFrame s' p f
    pub pins_self : view.pins s' p ≡ view.pins s p + 1
    pub pins_ne : (q : ℕ) → q ≢ p → view.pins s' q ≡ view.pins s q
    pub stays : Stays p s s'
    pub size : view.size s' ≤ view.size s + 1

  pub record Settled (s : S) (ghost : Ghost A) (s' : S) : Type 0 where
    pub holds : view.Holds s' ghost none
    pub pins_same : (q : ℕ) → view.pins s' q ≡ view.pins s q

  pub data Fetches (s : S) (p : ℕ) (ghost : Ghost A) : Result (Option ℕ × S) → Type 0 where
    missed : (s' : S) → Settled s ghost s' → Fetches s p ghost (ok (none, s'))
    got :
        (f : ℕ) (s' : S)
        → Got s p f ghost s'
        → view.size s' ≡ view.size s
        → Fetches s p ghost (ok (some f, s'))

  pub data Creates (s : S) (ghost : Ghost A) : Result (Option ℕ × S) → Type 0 where
    missed_new : (s' : S) → Settled s ghost s' → Creates s ghost (ok (none, s'))
    created :
        (p f : ℕ) (s' : S)
        → p + 1 < 2 ^ 32
        → ghost p ≡ none
        → view.pins s p ≡ 0
        → Got s p f (updated ghost p none) s'
        → pool.bytes s' f ≡ (λ _. 0)
        → Creates s ghost (ok (some f, s'))

  -- A step that changes the page in its frame.
  pub record Changes (s : S) (p : ℕ) (ghost : Ghost A) (hot : Option ℕ) (n : ℕ) (s' : S)
      : Type 0 where
    pub holds : view.Holds s' ghost hot
    pub place : (f : ℕ) → view.InFrame s p f → view.InFrame s' p f
    pub pins_self : view.pins s' p ≡ n
    pub pins_ne : (q : ℕ) → q ≢ p → view.pins s' q ≡ view.pins s q
    pub stays : Stays p s s'
    pub size : view.size s' ≡ view.size s

  pub data Deletes (s : S) (p : ℕ) (ghost : Ghost A) : Result (Bool × S) → Type 0 where
    kept : view.pins s p ≢ 0 → Deletes s p ghost (ok (false, s))
    gone :
        (s' : S)
        → view.pins s p ≡ 0
        → view.Holds s' (updated ghost p none) none
        → ((q : ℕ) → q ≢ p → view.pins s' q ≡ view.pins s q)
        → Stays p s s'
        → view.size s' ≡ view.size s
        → Deletes s p ghost (ok (true, s'))

  -- The laws, where `Rep` says which bytes stand for which value.
  pub record PoolLaws (Rep : Memory → A → Type 0) : Type 0 where
    pub named :
        (s : S) (p f : ℕ) (ghost : Ghost A) (hot : Option ℕ)
        → view.Holds s ghost hot
        → view.InFrame s p f
        → pool.page_id s f ≡ p
    pub shows :
        (s : S) (p f : ℕ) (ghost : Ghost A) (hot : Option ℕ) (v : A)
        → view.Holds s ghost hot
        → view.InFrame s p f
        → ghost p ≡ some v
        → Rep (pool.bytes s f) v
    pub fetches :
        (s : S) (p : ℕ) (ghost : Ghost A) (v : A)
        → view.Holds s ghost none
        → ghost p ≡ some v
        → view.pins s p + 1 < 2 ^ 32
        → Fetches s p ghost (pool.fetch_page s p)
    pub creates :
        (s : S) (ghost : Ghost A)
        → view.Holds s ghost none
        → view.size s + 1 < 2 ^ 32
        → Creates s ghost (pool.new_page s)
    -- A write of other bytes, and of bytes that stand for the same.
    pub writes :
        (s : S) (p f : ℕ) (ghost : Ghost A) (hot : Option ℕ) (m : Memory) (v : A)
        → view.Holds s ghost hot
        → view.InFrame s p f
        → ((q : ℕ) → q ≢ p → hot ≢ some q)
        → Rep m v
        → Changes s p (updated ghost p (some v)) (some p) (view.pins s p) (pool.set_bytes s f m)
    pub rewrites :
        (s : S) (p f : ℕ) (ghost : Ghost A) (hot : Option ℕ) (m : Memory) (v : A)
        → view.Holds s ghost hot
        → view.InFrame s p f
        → ghost p ≡ some v
        → Rep m v
        → Changes s p ghost hot (view.pins s p) (pool.set_bytes s f m)
    pub reads_back :
        (s : S) (p f : ℕ) (m : Memory)
        → view.InFrame s p f
        → pool.bytes (pool.set_bytes s f m) f ≡ m
    pub unpins_dirty :
        (s : S) (p f : ℕ) (ghost : Ghost A) (hot : Option ℕ)
        → view.Holds s ghost hot
        → view.InFrame s p f
        → ((q : ℕ) → q ≢ p → hot ≢ some q)
        → view.pins s p ≢ 0
        → view.pins s p < 2 ^ 32
        → Changes s p ghost none (view.pins s p - 1) (pool.unpin_page s p true)
    pub unpins_clean :
        (s : S) (p f : ℕ) (ghost : Ghost A)
        → view.Holds s ghost none
        → view.InFrame s p f
        → view.pins s p ≢ 0
        → view.pins s p < 2 ^ 32
        → Changes s p ghost none (view.pins s p - 1) (pool.unpin_page s p false)
    pub deletes :
        (s : S) (p : ℕ) (ghost : Ghost A) (v : A)
        → view.Holds s ghost none
        → ghost p ≡ some v
        → p ≢ 0
        → Deletes s p ghost (pool.delete_page s p)
