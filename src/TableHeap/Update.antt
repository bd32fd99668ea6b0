-- ===== src/TableHeap/Update.antt =====
-- `update_tuple`: in place, in the same slot of the page, or moved.
use simple_duck_dbms.Base.{
  ℕ, ◌+◌, ◌^◌, ◌≤◌, ◌<◌, ◌≡◌, ◌≢◌, ◌⊎◌, inl, inr, refl, sym, ap, subst, ◌∙◌, arith, Bool, true,
  false, not, Option, none, some, List, length, All, Result, ok, throw, Error, if◌then◌else◌,
}
use simple_duck_dbms.Bytes.{IsByte}
use simple_duck_dbms.Memory.{Memory}
use simple_duck_dbms.Transaction.{Rid}
use simple_duck_dbms.SlottedPage
use simple_duck_dbms.SlottedPage.{
  slot_count, slot_offset, free_space_offset, has_slot, invalid_page_id, invalid_slot_offset,
}
use simple_duck_dbms.SlottedPage.Invariant.{tuple_at}
use simple_duck_dbms.SlottedPage.Fields.{slots_end}
use simple_duck_dbms.SlottedPage.Remove.{
  Deleted, absent, deleted, delete_tuple-Deleted, slot_cases, live_ne_none,
}
use simple_duck_dbms.SlottedPage.Update as PageUpdate
use simple_duck_dbms.SlottedPage.Update.{Updated, too_long, updated, try_update_in_place-Updated}
use simple_duck_dbms.BufferPool.Invariant.{Ghost}
use simple_duck_dbms.BufferPool.Interface.{Pool, View, Settled, PoolLaws}
use simple_duck_dbms.TableHeap.{leave, replace, update_in, update_tuple, insert_tuple}
use simple_duck_dbms.TableHeap.PageView.{PageView, Shows, put, put-Shows}
use simple_duck_dbms.TableHeap.Leave.{Few}
use simple_duck_dbms.TableHeap.Visit.{
  GotFrame, fetch_cases, shown, named_page, visit_same, visit_changed, visit_changed_size,
}
use simple_duck_dbms.TableHeap.Chain.{Chain, changed, changed_links, relinked}
use simple_duck_dbms.TableHeap.Inserted.{HeapInserted}
use simple_duck_dbms.TableHeap.Insert.{insert_tuple-HeapInserted}
use simple_duck_dbms.TableHeap.Replace.{packed, Replaced, no_room, back, replace-Replaced}

-- A slot holds no tuple, or it is in the array.
pub slot_holds :
    (m : Memory) (i : ℕ)
    → ((has_slot m i ≡ false) × (tuple_at m i ≡ none))
      ⊎ ((has_slot m i ≡ true) × (i < slot_count m) × (tuple_at m i ≢ none))
unfolding has_slot
slot_holds m i = elim (slot_cases m i) [
  | inl (h, gone) ↦ inl (rw h refl, gone)
  | inr (inl (h, e, gone)) ↦ inl (rw (h, e) refl, gone)
  | inr (inr (h, e, lt, live)) ↦ inr (rw (h, e) refl, lt, live_ne_none m i lt live)
]

-- The page has no room for the tuple: the one in the slot is shorter, and without it the packed page
-- has less space than the bytes of the new one.
pub record NoRoom (m : Memory) (i : ℕ) (t : List ℕ) : Type 0 where
  pub old : List ℕ
  pub here : tuple_at m i ≡ some old
  pub longer : length old < length t
  pub space :
      free_space_offset (packed (SlottedPage.delete_tuple m i).1)
      < slots_end (packed (SlottedPage.delete_tuple m i).1) + length t

module _ {S : Type 0} (pool : Pool S) (view : View S PageView) where
  -- What an update returns: the new tuple is in the slot of the old one; or the page that was fetched
  -- has no room for it, the old one is gone, and the new one was inserted, as `HeapInserted` says; or
  -- there was none.
  pub data HeapUpdated (s : S) (ghost : Ghost PageView) (first : ℕ) (rid : Rid) (v : PageView)
      (t : List ℕ) : Result (Option Rid × S) → Type 0 where
    unread :
        (s' : S)
        → pool.fetch_page s rid.page_id ≡ ok (none, s')
        → Settled pool view s ghost s'
        → HeapUpdated s ghost first rid v t (ok (none, s'))
    vacant :
        (s' : S)
        → v.tuples rid.slot_num ≡ none
        → Settled pool view s ghost s'
        → HeapUpdated s ghost first rid v t (ok (none, s'))
    in_slot :
        (s' : S)
        → v.tuples rid.slot_num ≢ none
        → Settled pool view s (changed ghost rid.page_id rid.slot_num v (some t)) s'
        → HeapUpdated s ghost first rid v t (ok (some rid, s'))
    moved :
        (s₁ s' : S) (f : ℕ) (r : Result (Option Rid × S))
        → pool.fetch_page s rid.page_id ≡ ok (some f, s₁)
        → NoRoom (pool.bytes s₁ f) rid.slot_num t
        → v.tuples rid.slot_num ≢ none
        → Settled pool view s (changed ghost rid.page_id rid.slot_num v none) s'
        → (8180 < length t) × (r ≡ throw Error.runtime_error)
          ⊎ (length t ≤ 8180)
            × HeapInserted pool view s' (changed ghost rid.page_id rid.slot_num v none) first t r
        → HeapUpdated s ghost first rid v t r

module _ {S : Type 0} (pool : Pool S) (view : View S PageView) (laws : PoolLaws pool view Shows)
    (t : List ℕ) (bytes : All IsByte t) (short : length t < 2 ^ 16) (fuel : ℕ) (s : S)
    (ghost : Ghost PageView) (first : ℕ) (pages : List ℕ) (rid : Rid) (v : PageView)
    (holds : view.Holds s ghost none) (few : Few view s) (known : ghost rid.page_id ≡ some v)
    (chain : Chain ghost first pages) (real : first ≢ invalid_page_id)
    (room : view.size s + 1 < 2 ^ 32) (enough : length pages < fuel) where
  module _ (s₁ : S) (f : ℕ) (a : GotFrame pool view s rid.page_id f ghost s₁) (m : Memory)
      (h : Shows m v) (same : pool.bytes s₁ f ≡ m) where
    replaced_on : Option ℕ × Memory → Result (Option Rid × S)
    replaced_on r = elim r.0 [
      | some i ↦
          ok (some (record { page_id = pool.page_id s₁ f; slot_num = i }), leave pool s₁ f r.1 true)
      | none ↦ insert_tuple pool fuel (leave pool s₁ f r.1 true) first t
    ]

    deleted_on : Bool × Memory → Result (Option Rid × S)
    deleted_on r =
        if not r.0
        then ok (none, leave pool s₁ f r.1 false)
        else replaced_on (replace r.1 rid.slot_num t)

    tried_on : Bool × Memory → Result (Option Rid × S)
    tried_on r =
        if r.0
        then ok (some rid, leave pool s₁ f r.1 true)
        else deleted_on (SlottedPage.delete_tuple m rid.slot_num)

    replaced_case :
        (m₀ : Memory) (r : Option ℕ × Memory)
        → (free_space_offset m₀ < slots_end m₀ + length t → NoRoom m rid.slot_num t)
        → v.tuples rid.slot_num ≢ none
        → Replaced v rid.slot_num t m₀ r
        → HeapUpdated pool view s ghost first rid v t (replaced_on r)
    unfolding replaced_on changed
    replaced_case m₀ r full live (back m' shows) =
        subst
          (λ q.
            HeapUpdated pool view s ghost first rid v t (
              ok (some (record { page_id = q; slot_num = rid.slot_num }), leave pool s₁ f m' true)))
          (sym (named_page pool view laws s s₁ rid.page_id f ghost few a))
          (in_slot (leave pool s₁ f m' true) live (
            visit_changed pool view laws s s₁ rid.page_id f ghost few a m'
              (put v rid.slot_num (some t)) shows))
    replaced_case m₀ r full live (no_room shows less) =
        let w = put v rid.slot_num none in
        let g = changed ghost rid.page_id rid.slot_num v none in
        let s' = leave pool s₁ f m₀ true in
        let settled = visit_changed pool view laws s s₁ rid.page_id f ghost few a m₀ w shows in
        let size = visit_changed_size pool view laws s s₁ rid.page_id f ghost few a m₀ w shows in
        let full' = subst (λ x. NoRoom x rid.slot_num t) (sym same) (full less) in
        moved s₁ s' f (insert_tuple pool fuel s' first t) a.answer full' live settled (
          insert_tuple-HeapInserted pool view laws t bytes fuel s' g first pages settled.holds
            (λ q. omega (arith, settled.pins_same q, few q))
            (relinked ghost g first pages
              (changed_links ghost rid.page_id rid.slot_num v none known) chain)
            real (omega (arith, size)) enough)

    unfit :
        (m' : Memory) (old : List ℕ)
        → (SlottedPage.delete_tuple m rid.slot_num).1 ≡ m'
        → tuple_at m rid.slot_num ≡ some old
        → length old < length t
        → free_space_offset (packed m') < slots_end (packed m') + length t
        → NoRoom m rid.slot_num t
    unfit m' old made here less space = record {
      old = old;
      here = here;
      longer = less;
      space =
          subst (λ x. free_space_offset (packed x) < slots_end (packed x) + length t) (sym made)
            space;
    }

    deleted_case :
        (r : Bool × Memory) (old : List ℕ)
        → SlottedPage.delete_tuple m rid.slot_num ≡ r
        → tuple_at m rid.slot_num ≡ some old
        → length old < length t
        → tuple_at m rid.slot_num ≢ none
        → rid.slot_num < slot_count m
        → Deleted m rid.slot_num r
        → HeapUpdated pool view s ghost first rid v t (deleted_on r)
    unfolding deleted_on
    deleted_case r old made here less live in_array (absent gone) = absurd (live gone)
    deleted_case r old made here less live in_array
          (deleted m' p was gone others link count space) =
        replaced_case (packed m') (replace m' rid.slot_num t)
          (unfit m' old (ap (λ x. x.1) made) here less) (λ z. live (h.tuples rid.slot_num ∙ z))
          (replace-Replaced m v h rid.slot_num t bytes short m' p gone others link
            (omega (arith, count, in_array)))

    tried_case :
        (r : Bool × Memory)
        → tuple_at m rid.slot_num ≢ none
        → rid.slot_num < slot_count m
        → Updated m rid.slot_num t r
        → HeapUpdated pool view s ghost first rid v t (tried_on r)
    unfolding tried_on changed
    tried_case r live in_array (PageUpdate.absent gone) = absurd (live gone)
    tried_case r live in_array (too_long old here less) =
        deleted_case (SlottedPage.delete_tuple m rid.slot_num) old refl here less live in_array
          (delete_tuple-Deleted m rid.slot_num h.page)
    tried_case r live in_array (updated old m' p here fits new others link count space) =
        in_slot (leave pool s₁ f m' true) (λ z. live (h.tuples rid.slot_num ∙ z))
          (visit_changed pool view laws s s₁ rid.page_id f ghost few a m'
            (put v rid.slot_num (some t))
            (put-Shows m m' v rid.slot_num (some t) h p new others link))

  -- `update_tuple` of a slot of a page of which it is known what it holds, by a tuple of less than
  -- 65536 bytes, in a chain of pages, where the pool keeps its laws, each page is pinned less than
  -- 2 ^ 32 - 1 times, another page can be numbered, and the fuel is more than the pages of the chain:
  -- it returns none where the page could not be fetched or the slot holds nothing, and nothing
  -- changes; else the new tuple takes the slot of the old one, and no other slot changes; or, where
  -- the old tuple is shorter and the page, without it and packed, has less space than the bytes of
  -- the new one, the old tuple is gone and the new one goes to a slot that held nothing, on
  -- a page of the chain, if it is of at most 8180 bytes and the pages can be fetched or created.
  pub update_tuple-HeapUpdated :
      HeapUpdated pool view s ghost first rid v t (update_tuple pool fuel s first rid t)
  unfolding update_tuple update_in tried_on deleted_on replaced_on
  update_tuple-HeapUpdated =
      elim (fetch_cases pool view laws s rid.page_id ghost v holds few known) [
        | inl (s', e, settled) ↦ rw (e, update_tuple) (unread s' e settled)
        | inr (f, s₁, a) ↦
            let m = pool.bytes s₁ f in
            let h = shown pool view laws s s₁ rid.page_id f ghost few a v known in
            elim (slot_holds m rid.slot_num) [
              | inl (none_there, gone) ↦
                  rw (a.answer, none_there, update_tuple)
                    (vacant (leave pool s₁ f m false) (sym (h.tuples rid.slot_num) ∙ gone)
                      (visit_same pool view laws s s₁ rid.page_id f ghost few a m v false known
                        h).0)
              | inr (there, in_array, live) ↦
                  rw (a.answer, there, update_tuple)
                    (tried_case s₁ f a m h refl (SlottedPage.try_update_in_place m rid.slot_num t)
                      live in_array
                      (try_update_in_place-Updated m rid.slot_num t h.page bytes short))
            ]
      ]
