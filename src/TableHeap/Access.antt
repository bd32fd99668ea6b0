-- ===== src/TableHeap/Access.antt =====
-- `get_tuple` and `delete_tuple`: one page is visited.
use simple_duck_dbms.Base.{
  ℕ, ◌≡◌, ◌≢◌, inl, inr, refl, sym, ap, subst, ◌∙◌, Bool, true, false, Option, none, some, List, [],
  Result, ok,
}
use simple_duck_dbms.Memory.{Memory}
use simple_duck_dbms.Transaction.{Rid}
use simple_duck_dbms.SlottedPage
use simple_duck_dbms.SlottedPage.{slot_count, slot_offset}
use simple_duck_dbms.SlottedPage.Invariant.{tuple_at, tuple_at_live}
use simple_duck_dbms.SlottedPage.Remove.{Deleted, absent, deleted, delete_tuple-Deleted, slot_cases}
use simple_duck_dbms.BufferPool.Invariant.{Ghost}
use simple_duck_dbms.BufferPool.Interface.{Pool, View, Settled, PoolLaws}
use simple_duck_dbms.TableHeap.{non_empty, get_tuple, leave, delete_tuple}
use simple_duck_dbms.TableHeap.PageView.{PageView, Shows, put, put-Shows}
use simple_duck_dbms.TableHeap.Leave.{Few}
use simple_duck_dbms.TableHeap.Visit.{
  GotFrame, fetch_cases, shown, visit_same, visit_only, visit_changed,
}
use simple_duck_dbms.TableHeap.Chain.{changed}

unfoldable pub content : Option (List ℕ) → List ℕ
content none = []
content (some t) = t

pub get_tuple-tuple_at : (m : Memory) (i : ℕ) → SlottedPage.get_tuple m i ≡ content (tuple_at m i)
unfolding SlottedPage.get_tuple content
get_tuple-tuple_at m i = elim (slot_cases m i) [
  | inl (h, gone) ↦ rw (h, gone) refl
  | inr (inl (h, e, gone)) ↦ rw (h, e, gone) refl
  | inr (inr (h, e, lt, live)) ↦ rw (h, e, tuple_at_live m i lt live) refl
]

module _ {S : Type 0} (pool : Pool S) (view : View S PageView) where
  -- What a read returns: none where the page could not be fetched, or the slot holds no tuple, or
  -- one without bytes; else the tuple in the slot.
  pub data HeapRead (s : S) (ghost : Ghost PageView) (rid : Rid) (v : PageView)
      : Result (Option (List ℕ) × S) → Type 0 where
    unread :
        (s' : S)
        → pool.fetch_page s rid.page_id ≡ ok (none, s')
        → Settled pool view s ghost s'
        → HeapRead s ghost rid v (ok (none, s'))
    read :
        (s' : S)
        → Settled pool view s ghost s'
        → HeapRead s ghost rid v (ok (non_empty (content (v.tuples rid.slot_num)), s'))

  -- What a deletion returns, and what the page holds afterwards.
  pub data HeapDeleted (s : S) (ghost : Ghost PageView) (rid : Rid) (v : PageView)
      : Result (Bool × S) → Type 0 where
    unread :
        (s' : S)
        → pool.fetch_page s rid.page_id ≡ ok (none, s')
        → Settled pool view s ghost s'
        → HeapDeleted s ghost rid v (ok (false, s'))
    vacant :
        (s' : S)
        → v.tuples rid.slot_num ≡ none
        → Settled pool view s ghost s'
        → HeapDeleted s ghost rid v (ok (false, s'))
    erased :
        (s' : S)
        → v.tuples rid.slot_num ≢ none
        → Settled pool view s (changed ghost rid.page_id rid.slot_num v none) s'
        → HeapDeleted s ghost rid v (ok (true, s'))

module _ {S : Type 0} (pool : Pool S) (view : View S PageView) (laws : PoolLaws pool view Shows)
    (s : S) (ghost : Ghost PageView) (rid : Rid) (v : PageView) (holds : view.Holds s ghost none)
    (few : Few view s) (known : ghost rid.page_id ≡ some v) where
  -- `get_tuple` of a slot of a page of which it is known what it holds, where the pool keeps its
  -- laws and each page is pinned less than 2 ^ 32 - 1 times: it returns the tuple in the slot, none
  -- where there is none or it has no bytes, or none where the page could not be fetched; the pages
  -- are pinned as before and hold what they held.
  pub get_tuple-HeapRead : HeapRead pool view s ghost rid v (get_tuple pool s rid)
  unfolding get_tuple
  get_tuple-HeapRead = elim (fetch_cases pool view laws s rid.page_id ghost v holds few known) [
    | inl (s', e, settled) ↦ rw (e, get_tuple) (unread s' e settled)
    | inr (f, s₁, a) ↦
        let m = pool.bytes s₁ f in
        let shows = shown pool view laws s s₁ rid.page_id f ghost few a v known in
        rw (a.answer, get_tuple)
          (subst
            (λ x.
              HeapRead pool view s ghost rid v
                (ok (non_empty x, pool.unpin_page s₁ (pool.page_id s₁ f) false)))
            (sym (get_tuple-tuple_at m rid.slot_num ∙ ap content (shows.tuples rid.slot_num)))
            (read (pool.unpin_page s₁ (pool.page_id s₁ f) false)
              (visit_only pool view laws s s₁ rid.page_id f ghost few a).0))
  ]

  delete_cases :
      (s₁ : S) (f : ℕ) (a : GotFrame pool view s rid.page_id f ghost s₁) (m : Memory)
      (r : Bool × Memory)
      → Shows m v
      → Deleted m rid.slot_num r
      → HeapDeleted pool view s ghost rid v (ok (r.0, leave pool s₁ f r.1 r.0))
  unfolding changed
  delete_cases s₁ f a m r shows (absent gone) =
      vacant (leave pool s₁ f m false) (sym (shows.tuples rid.slot_num) ∙ gone)
        (visit_same pool view laws s s₁ rid.page_id f ghost few a m v false known shows).0
  delete_cases s₁ f a m r shows (deleted m' p live gone others link count space) =
      erased (leave pool s₁ f m' true) (λ z. live (shows.tuples rid.slot_num ∙ z))
        (visit_changed pool view laws s s₁ rid.page_id f ghost few a m' (put v rid.slot_num none)
          (put-Shows m m' v rid.slot_num none shows p gone others link))

  -- `delete_tuple` of a slot of a page of which it is known what it holds, where the pool keeps its
  -- laws and each page is pinned less than 2 ^ 32 - 1 times: it returns false where the page could
  -- not be fetched or the slot held nothing, and nothing changes; else true, and the slot holds nothing, and every
  -- other slot what it held.
  pub delete_tuple-HeapDeleted : HeapDeleted pool view s ghost rid v (delete_tuple pool s rid)
  unfolding delete_tuple
  delete_tuple-HeapDeleted =
      elim (fetch_cases pool view laws s rid.page_id ghost v holds few known) [
        | inl (s', e, settled) ↦ rw (e, delete_tuple) (unread s' e settled)
        | inr (f, s₁, a) ↦
            let m = pool.bytes s₁ f in
            let shows = shown pool view laws s s₁ rid.page_id f ghost few a v known in
            rw (a.answer, delete_tuple)
              (delete_cases s₁ f a m (SlottedPage.delete_tuple m rid.slot_num) shows
                (delete_tuple-Deleted m rid.slot_num shows.page))
      ]
