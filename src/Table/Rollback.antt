-- ===== src/Table/Rollback.antt =====
-- The record of an insert takes it back.
use simple_duck_dbms.Base.{
  ℕ, ◌≡◌, ◌≢◌, inl, inr, sym, subst, ◌∙◌, arith, Bool, true, false, none, some, List, Result, ok,
  Option-cases, eq_or_ne,
}
use simple_duck_dbms.Transaction.{Rid}
use simple_duck_dbms.BufferPool.Invariant.{Ghost}
use simple_duck_dbms.BufferPool.Interface.{Pool, View, Settled, PoolLaws}
use simple_duck_dbms.TableHeap
use simple_duck_dbms.TableHeap.PageView.{PageView, Shows}
use simple_duck_dbms.TableHeap.Leave.{Few}
use simple_duck_dbms.TableHeap.Visit.{Settled-trans}
use simple_duck_dbms.TableHeap.Chain.{
  tuple_of, tuple_of_known, tuple_of_absent, Linked-trans, Kept, Stored, changed, changed_links,
  changed_here, changed_slots, changed_pages,
}
use simple_duck_dbms.TableHeap.Access.{HeapDeleted, vacant, erased, delete_tuple-HeapDeleted}

Stored-erased :
    (ghost ghost' : Ghost PageView) (rid : Rid) (t : List ℕ) (v : PageView)
    → Stored ghost ghost' rid t
    → ghost' rid.page_id ≡ some v
    → Kept ghost (changed ghost' rid.page_id rid.slot_num v none)
Stored-erased ghost ghost' rid t v st known = record {
  tuples = λ q j. elim (eq_or_ne q rid.page_id) [
    | inr ne ↦
        changed_pages ghost' rid.page_id rid.slot_num v none known q j ne ∙ st.other_pages q j ne
    | inl e ↦
        subst
          (λ x. tuple_of (changed ghost' rid.page_id rid.slot_num v none) x j ≡ tuple_of ghost x j)
          (sym e)
          (elim (eq_or_ne j rid.slot_num) [
            | inr ne ↦
                changed_slots ghost' rid.page_id rid.slot_num v none known j ne
                ∙ st.other_slots j ne
            | inl same ↦
                subst
                  (λ x.
                    tuple_of (changed ghost' rid.page_id rid.slot_num v none) rid.page_id x
                    ≡ tuple_of ghost rid.page_id x)
                  (sym same)
                  (changed_here ghost' rid.page_id rid.slot_num v none known ∙ sym st.vacant)
          ])
  ];
  links =
      Linked-trans ghost ghost' (changed ghost' rid.page_id rid.slot_num v none) st.links
        (λ q w known'.
          let (w', known'', link) =
            changed_links ghost' rid.page_id rid.slot_num v none known q w known' in
          (w', known'', inl link));
}

pub stored_page :
    (ghost ghost' : Ghost PageView) (rid : Rid) (t : List ℕ)
    → Stored ghost ghost' rid t
    → (v : PageView) × (ghost' rid.page_id ≡ some v) × (v.tuples rid.slot_num ≢ none)
stored_page ghost ghost' rid t st = elim (Option-cases (ghost' rid.page_id)) [
  | inl out ↦
      absurd (let z = sym st.here ∙ tuple_of_absent ghost' rid.page_id rid.slot_num out in cc)
  | inr (v, known) ↦ (
    v,
    known,
    λ gone.
        let z = sym st.here ∙ tuple_of_known ghost' rid.page_id rid.slot_num v known ∙ gone in cc,
  )
]

module _ {S : Type 0} (pool : Pool S) (view : View S PageView) where
  -- After a deletion that takes an insert back: every tuple is as before the insert; or the page
  -- could not be fetched, and the tuple is still there.
  pub data TakenBack (s : S) (ghost ghost' : Ghost PageView) (s' : S) (rid : Rid)
      : Result (Bool × S) → Type 0 where
    taken_back :
        (s'' : S) (ghost'' : Ghost PageView)
        → Settled pool view s ghost'' s''
        → Kept ghost ghost''
        → TakenBack s ghost ghost' s' rid (ok (true, s''))
    still_there :
        (s'' : S)
        → pool.fetch_page s' rid.page_id ≡ ok (none, s'')
        → Settled pool view s ghost' s''
        → TakenBack s ghost ghost' s' rid (ok (false, s''))

module _ {S : Type 0} (pool : Pool S) (view : View S PageView) (laws : PoolLaws pool view Shows)
    (s : S) (ghost : Ghost PageView) (few : Few view s) where
  outcome :
      (s' : S) (ghost' : Ghost PageView) (rid : Rid) (t : List ℕ) (v : PageView)
      (r : Result (Bool × S))
      → Settled pool view s ghost' s'
      → Stored ghost ghost' rid t
      → ghost' rid.page_id ≡ some v
      → v.tuples rid.slot_num ≢ none
      → HeapDeleted pool view s' ghost' rid v r
      → TakenBack pool view s ghost ghost' s' rid r
  outcome s' g rid t v r a st known live (HeapDeleted.unread s'' e b) =
      still_there s'' e (Settled-trans pool view s s' s'' g g a b)
  outcome s' g rid t v r a st known live (vacant s'' gone b) = absurd (live gone)
  outcome s' g rid t v r a st known live (erased s'' was b) =
      taken_back s'' (changed g rid.page_id rid.slot_num v none)
        (Settled-trans pool view s s' s'' g (changed g rid.page_id rid.slot_num v none) a b)
        (Stored-erased ghost g rid t v st known)

  pub delete_tuple-TakenBack :
      (s' : S) (ghost' : Ghost PageView) (rid : Rid) (t : List ℕ)
      → Settled pool view s ghost' s'
      → Stored ghost ghost' rid t
      → TakenBack pool view s ghost ghost' s' rid (TableHeap.delete_tuple pool s' rid)
  delete_tuple-TakenBack s' g rid t a st =
      let (v, known, live) = stored_page ghost g rid t st in
      outcome s' g rid t v (TableHeap.delete_tuple pool s' rid) a st known live (
        delete_tuple-HeapDeleted pool view laws s' g rid v a.holds
          (λ q. omega (arith, a.pins_same q, few q)) known)
