-- ===== src/TableHeap/ScanRow.antt =====
-- What `Scan::next` returns, and how the scan goes on to the next page.
use simple_duck_dbms.Base.{
  ℕ, ◌+◌, ◌^◌, ◌≤◌, ◌<◌, ◌≡◌, ◌⊎◌, inl, inr, refl, sym, subst, ◌∙◌, arith, false, Option, none,
  some, List, [], ◌∷◌, Result, ok, ◌==◌, if◌then◌else◌, eq_or_ne,
}
use simple_duck_dbms.Transaction.{Rid}
use simple_duck_dbms.SlottedPage.Invariant.{tuple_at}
use simple_duck_dbms.BufferPool.Invariant.{Ghost}
use simple_duck_dbms.BufferPool.Interface.{Pool, View, Fetches, missed, got, PoolLaws}
use simple_duck_dbms.TableHeap
use simple_duck_dbms.TableHeap.{scan_page, scan_slot, scan_next}
use simple_duck_dbms.TableHeap.PageView.{PageView, Shows}
use simple_duck_dbms.TableHeap.Chain.{tuple_of, tuple_of_known}

-- From slot `j` of page `p` on, where the pages `rest` follow, there is no tuple in front of slot
-- `k` of page `q`.
pub data FirstTuple (ghost : Ghost PageView) (q k : ℕ) : ℕ → ℕ → List ℕ → Type 0 where
  same_page :
      (j : ℕ) (rest : List ℕ)
      → j ≤ k
      → ((x : ℕ) → j ≤ x → x < k → tuple_of ghost q x ≡ none)
      → FirstTuple ghost q k q j rest
  later_page :
      (p j n : ℕ) (rest : List ℕ)
      → ((x : ℕ) → j ≤ x → tuple_of ghost p x ≡ none)
      → FirstTuple ghost q k n 0 rest
      → FirstTuple ghost q k p j (n ∷ rest)

-- There is no tuple at all.
pub data NoTuple (ghost : Ghost PageView) : ℕ → ℕ → List ℕ → Type 0 where
  last_page : (p j : ℕ) → ((x : ℕ) → j ≤ x → tuple_of ghost p x ≡ none) → NoTuple ghost p j []
  more_pages :
      (p j n : ℕ) (rest : List ℕ)
      → ((x : ℕ) → j ≤ x → tuple_of ghost p x ≡ none)
      → NoTuple ghost n 0 rest
      → NoTuple ghost p j (n ∷ rest)

module _ {S : Type 0} (pool : Pool S) (view : View S PageView) where
  -- Page `p` is pinned in frame `f`, once more than `others` pins it.
  pub record Open (s : S) (ghost : Ghost PageView) (others : ℕ → ℕ) (p f : ℕ) : Type 0 where
    pub holds : view.Holds s ghost none
    pub here : view.InFrame s p f
    pub pins : (q : ℕ) → view.pins s q ≡ others q + (if q == p then 1 else 0)

  -- What `next` returns: the first tuple from slot `j` of page `p` on, and the scan stands behind
  -- it; or none, where there is no tuple any more; or none, where a page could not be fetched, and
  -- the scan has no pin.
  pub data NextRow (ghost : Ghost PageView) (others : ℕ → ℕ) (p j : ℕ) (rest : List ℕ)
      : Result (Option (Rid × List ℕ) × TableHeap.Scan pool × S) → Type 0 where
    row :
        (q k f : ℕ) (t : List ℕ) (s' : S)
        → tuple_of ghost q k ≡ some t
        → FirstTuple ghost q k p j rest
        → Open s' ghost others q f
        → NextRow ghost others p j rest (
            ok (
              some (record { page_id = q; slot_num = k }, t),
              record {
                current_rid = record { page_id = q; slot_num = k + 1 };
                current_page = some f;
              },
              s',
            ))
    finished :
        (q k f : ℕ) (s' : S)
        → NoTuple ghost p j rest
        → Open s' ghost others q f
        → NextRow ghost others p j rest (
            ok (
              none,
              record { current_rid = record { page_id = q; slot_num = k }; current_page = some f },
              s',
            ))
    not_fetched :
        (c : TableHeap.Scan pool) (s₁ : S) (q : ℕ) (s' : S)
        → pool.fetch_page s₁ q ≡ ok (none, s')
        → view.Holds s' ghost none
        → ((x : ℕ) → view.pins s' x ≡ others x)
        → NextRow ghost others p j rest (ok (none, c, s'))

  -- A page without a tuple from slot `j` on, in front of the others.
  pub onto_next :
      (ghost : Ghost PageView) (others : ℕ → ℕ) (p j n : ℕ) (rest : List ℕ)
      (r : Result (Option (Rid × List ℕ) × TableHeap.Scan pool × S))
      → ((x : ℕ) → j ≤ x → tuple_of ghost p x ≡ none)
      → NextRow ghost others n 0 rest r
      → NextRow ghost others p j (n ∷ rest) r
  onto_next ghost others p j n rest r gone (row q k f t s' here before o) =
      row q k f t s' here (later_page p j n rest gone before) o
  onto_next ghost others p j n rest r gone (finished q k f s' none_left o) =
      finished q k f s' (more_pages p j n rest gone none_left) o
  onto_next ghost others p j n rest r gone (not_fetched c s₁ q s' e holds pins) =
      not_fetched c s₁ q s' e holds pins

module _ {S : Type 0} (pool : Pool S) (view : View S PageView) (laws : PoolLaws pool view Shows)
    (ghost : Ghost PageView) (others : ℕ → ℕ) (few : (q : ℕ) → others q + 1 < 2 ^ 32) where
  module _ (s : S) (p f : ℕ) (v : PageView) (known : ghost p ≡ some v)
      (o : Open pool view s ghost others p f) where
    pub shows : Shows (pool.bytes s f) v
    shows = laws.shows s p f ghost none v o.holds o.here known

    pub slots_gone :
        (j : ℕ)
        → ((x : ℕ) → j ≤ x → tuple_at (pool.bytes s f) x ≡ none)
        → (x : ℕ) → j ≤ x
        → tuple_of ghost p x ≡ none
    slots_gone j gone x lo = tuple_of_known ghost p x v known ∙ sym (shows.tuples x) ∙ gone x lo

    unfoldable pub left : S
    left = pool.unpin_page s (pool.page_id s f) false

    pin_here : view.pins s p ≡ others p + 1
    pin_here = ground (arith, o.pins p)

    left_state : view.Holds left ghost none × ((q : ℕ) → view.pins left q ≡ others q)
    unfolding left
    left_state =
        let id : pool.page_id s f ≡ p = laws.named s p f ghost none o.holds o.here in
        let c =
          laws.unpins_clean s p f ghost o.holds o.here (λ z. omega (arith, pin_here))
            (omega (arith, pin_here, few p)) in
        subst
          (λ q.
            view.Holds (pool.unpin_page s q false) ghost none
            × ((x : ℕ) → view.pins (pool.unpin_page s q false) x ≡ others x))
          (sym id)
          (
            c.holds,
            λ x. elim (eq_or_ne x p) [
              | inl e ↦ rw e (omega (arith, c.pins_self, pin_here))
              | inr ne ↦ c.pins_ne x ne ∙ ground (arith, o.pins x, ne)
            ],
          )

    -- The page that follows.
    pub next_fetch :
        (n : ℕ) (w : PageView)
        → ghost n ≡ some w
        → ((s' : S) × (pool.fetch_page left n ≡ ok (none, s'))
            × view.Holds s' ghost none
            × ((x : ℕ) → view.pins s' x ≡ others x))
          ⊎ ((g : ℕ) × (s' : S) × (pool.fetch_page left n ≡ ok (some g, s'))
              × Open pool view s' ghost others n g)
    next_fetch n w known' =
        let (holds, pins) = left_state in
        by_cases (pool.fetch_page left n) refl
          (laws.fetches left n ghost w holds known' (omega (arith, pins n, few n)))
      where
        by_cases :
            (r : Result (Option ℕ × S))
            → pool.fetch_page left n ≡ r
            → Fetches pool view left n ghost r
            → ((s' : S) × (pool.fetch_page left n ≡ ok (none, s'))
                × view.Holds s' ghost none
                × ((x : ℕ) → view.pins s' x ≡ others x))
              ⊎ ((g : ℕ) × (s' : S) × (pool.fetch_page left n ≡ ok (some g, s'))
                  × Open pool view s' ghost others n g)
        by_cases r e (missed s' m) = inl (s', e, m.holds, λ x. m.pins_same x ∙ left_state.1 x)
        by_cases r e (got g s' a size) = inr (
          g,
          s',
          e,
          record {
            holds = a.holds;
            here = a.here;
            pins = λ x. elim (eq_or_ne x n) [
              | inl same ↦ rw same (ground (arith, a.pins_self, left_state.1 n))
              | inr ne ↦ ground (arith, ne, a.pins_ne x ne, left_state.1 x)
            ];
          },
        )
