-- ===== src/TableHeap/ScanNext.antt =====
-- `Scan::next`: the next tuple of the chain, in the order of the pages and of their slots.
use simple_duck_dbms.Base.{
  ℕ, zero, suc, ◌+◌, ◌%◌, ◌^◌, ◌≤◌, ◌<◌, ◌≡◌, ◌≢◌, inl, inr, refl, sym, ap, subst, ◌∙◌, arith, true,
  false, Option, none, some, List, ◌∷◌, length, Result, ok, ◌>>=◌, eq_or_ne, Option-cases,
}
use simple_duck_dbms.Transaction.{Rid}
use simple_duck_dbms.SlottedPage
use simple_duck_dbms.SlottedPage.{
  slot_count, has_slot, has_next_page, next_page, next_occupied_slot, invalid_page_id,
}
use simple_duck_dbms.SlottedPage.Invariant.{tuple_at}
use simple_duck_dbms.BufferPool.Invariant.{Ghost}
use simple_duck_dbms.BufferPool.Interface.{Pool, View, PoolLaws}
use simple_duck_dbms.TableHeap
use simple_duck_dbms.TableHeap.{scan_page, scan_slot, scan_next}
use simple_duck_dbms.TableHeap.PageView.{PageView, Shows}
use simple_duck_dbms.TableHeap.Chain.{Chain, ends, page, ended, tuple_of, tuple_of_known}
use simple_duck_dbms.TableHeap.Access.{content, get_tuple-tuple_at}
use simple_duck_dbms.TableHeap.ScanSlot.{
  Looked, at_end, at_tuple, no_next_page, scan_slot-Looked, some_next_page,
}
use simple_duck_dbms.TableHeap.ScanRow.{
  NextRow, Open, finished, last_page, left, next_fetch, not_fetched, onto_next, row, same_page,
  shows, slots_gone,
}

module _ {S : Type 0} (pool : Pool S) (view : View S PageView) (laws : PoolLaws pool view Shows)
    (ghost : Ghost PageView) (others : ℕ → ℕ) (few : (q : ℕ) → others q + 1 < 2 ^ 32) where
  -- The scan at a slot.
  standing : ℕ → ℕ → ℕ → TableHeap.Scan pool
  standing p j f = record {
    current_rid = record { page_id = p; slot_num = j };
    current_page = some f;
  }

  -- Behind the fetch of the page that follows.
  behind_fetch :
      ℕ
      → TableHeap.Scan pool
      → Result (Option ℕ × S)
      → Result (Option (Rid × List ℕ) × TableHeap.Scan pool × S)
  behind_fetch fuel c r = do
    (moved, c', s') ← do
      (fetched, s₁) ← r
      elim fetched [
        | none ↦ ok (false, c, s₁)
        | some next ↦ ok (true, standing (pool.page_id s₁ next) 0 next, s₁)
      ]
    elim moved [ true ↦ scan_next pool fuel c' s' | false ↦ ok (none, c', s') ]

  -- What `next` does at the slot that it found.
  at_slot : ℕ → S → ℕ → ℕ → ℕ → Result (Option (Rid × List ℕ) × TableHeap.Scan pool × S)
  at_slot fuel s p f k =
      let m = pool.bytes s f in
      let rid : Rid = record { page_id = p; slot_num = k } in
      elim (has_slot m k) [
        | true ↦ ok (some (rid, SlottedPage.get_tuple m k), standing p ((k + 1) % 2 ^ 16) f, s)
        | false ↦ do
          (moved, c', s') ← scan_page pool (standing p k f) f s
          elim moved [ true ↦ scan_next pool fuel c' s' | false ↦ ok (none, c', s') ]
      ]

  abbrev Scans : ℕ → Type 0
  Scans fuel =
      (s : S) (p f j : ℕ) (v : PageView) (rest : List ℕ)
      → Open pool view s ghost others p f
      → ghost p ≡ some v
      → Chain ghost v.link rest
      → j + 1 < 2 ^ 16
      → length rest < fuel
      → NextRow pool view ghost others p j rest (scan_next pool fuel (standing p j f) s)

  module _ (fuel : ℕ) (ih : Scans fuel) (s : S) (p f j : ℕ) (v : PageView)
      (o : Open pool view s ghost others p f) (known : ghost p ≡ some v) where
    follow :
        (k n : ℕ) (rest : List ℕ)
        → ((x : ℕ) → j ≤ x → tuple_of ghost p x ≡ none)
        → v.link ≡ n
        → n ≢ invalid_page_id
        → Chain ghost n rest
        → length rest < suc fuel
        → NextRow pool view ghost others p j rest (
            behind_fetch fuel
              (standing p k f)
              (pool.fetch_page (left pool view laws ghost others few s p f v known o) n))
    unfolding behind_fetch standing
    follow k n rest gone link real ends enough = absurd (real refl)
    follow k n rest gone link real (page n' w rest' real' known' chain) enough =
        elim (next_fetch pool view laws ghost others few s p f v known o n w known') [
          | inl (s', e, holds, pins) ↦
              subst
                (λ r.
                  NextRow pool view ghost others p j (n ∷ rest')
                    (behind_fetch fuel (standing p k f) r))
                (sym e)
                (not_fetched (standing p k f) (left pool view laws ghost others few s p f v known o)
                  n s' e holds pins)
          | inr (g, s', e, o') ↦
              subst
                (λ r.
                  NextRow pool view ghost others p j (n ∷ rest')
                    (behind_fetch fuel (standing p k f) r))
                (sym e)
                (subst
                  (λ q.
                    NextRow pool view ghost others p j (n ∷ rest')
                      (scan_next pool fuel (standing q 0 g) s'))
                  (sym (laws.named s' n g ghost none o'.holds o'.here))
                  (onto_next pool view ghost others p j n rest'
                    (scan_next pool fuel (standing n 0 g) s') gone
                    (ih s' n g 0 w rest' o' known' chain (omega arith) (omega arith))))
        ]

    slot_case :
        (k : ℕ) (rest : List ℕ)
        → Looked (pool.bytes s f) j k
        → Chain ghost v.link rest
        → length rest < suc fuel
        → NextRow pool view ghost others p j rest (at_slot fuel s p f k)
    unfolding at_slot standing content behind_fetch left scan_page
    slot_case k rest (at_tuple k' le small has held before) chain enough =
        let h = shows pool view laws ghost others few s p f v known o in
        let same : v.tuples k ≡ tuple_at (pool.bytes s f) k = sym (h.tuples k) in
        elim (Option-cases (v.tuples k)) [
          | inl out ↦ absurd (held (h.tuples k ∙ out))
          | inr (t, here) ↦
              let bytes : SlottedPage.get_tuple (pool.bytes s f) k ≡ t =
                get_tuple-tuple_at (pool.bytes s f) k ∙ ap content (h.tuples k ∙ here) in
              let next_slot : (k + 1) % 2 ^ 16 ≡ k + 1 = omega (arith, small) in
              rw (has, bytes, next_slot, at_slot)
                (row p k f t s (tuple_of_known ghost p k v known ∙ here)
                  (same_page j rest le (λ x lo hi.
                    tuple_of_known ghost p x v known ∙ sym (h.tuples x) ∙ before x lo hi))
                  o)
        ]
    slot_case k rest (at_end k' lacks gone) chain enough =
        let h = shows pool view laws ghost others few s p f v known o in
        let none_here = slots_gone pool view laws ghost others few s p f v known o j gone in
        elim (eq_or_ne v.link invalid_page_id) [
          | inl last ↦
              let ends_here : has_next_page (pool.bytes s f) ≡ false =
                no_next_page (pool.bytes s f) v h last in
              rw (lacks, ends_here, at_slot, scan_page)
                (subst (λ l. NextRow pool view ghost others p j l (ok (none, standing p k f, s)))
                  (sym (ended ghost v.link rest chain last))
                  (finished p k f s (last_page p j none_here) o))
          | inr on ↦
              let goes_on : has_next_page (pool.bytes s f) ≡ true =
                some_next_page (pool.bytes s f) v h on in
              rw (lacks, goes_on, at_slot, scan_page)
                (subst
                  (λ n. NextRow pool view ghost others p j rest (
                    behind_fetch fuel (standing p k f)
                      (pool.fetch_page (left pool view laws ghost others few s p f v known o) n)))
                  (sym h.link) (follow k v.link rest none_here refl on chain enough))
        ]

  -- `next` of a scan at slot `j`, below 65535, of page `p`, whose page is pinned once more than
  -- `others` pins it, where the pages `rest` follow, the pool keeps its laws, `others` pins each page
  -- less than 2 ^ 32 - 1 times, and the fuel is more than the pages that follow: it returns the first tuple from there on, in the order of the pages and of their slots,
  -- with its RID, and the scan stands behind it; or none where no slot from there on holds a tuple;
  -- in both cases the page that the scan stands on is the one pinned. Or it returns none where a
  -- page could not be fetched, and no page is pinned for the scan. What the pages hold is as before.
  pub scan_next-NextRow :
      (fuel : ℕ) (s : S) (p f j : ℕ) (v : PageView) (rest : List ℕ)
      → Open pool view s ghost others p f
      → ghost p ≡ some v
      → Chain ghost v.link rest
      → j + 1 < 2 ^ 16
      → length rest < fuel
      → NextRow pool view ghost others p j rest (
          scan_next pool fuel
            (record { current_rid = record { page_id = p; slot_num = j }; current_page = some f })
            s)
  unfolding scan_next at_slot standing
  scan_next-NextRow zero s p f j v rest o known chain small enough = absurd (omega arith)
  scan_next-NextRow (suc fuel) s p f j v rest o known chain small enough =
      slot_case fuel (scan_next-NextRow fuel) s p f j v o known (scan_slot (pool.bytes s f) j) rest
        (scan_slot-Looked (pool.bytes s f) j
          (shows pool view laws ghost others few s p f v known o).page small)
        chain enough
