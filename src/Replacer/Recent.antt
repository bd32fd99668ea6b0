-- ===== src/Replacer/Recent.antt =====
-- `record` and `remove` keep the order of the last uses, and `find_lru` takes the first page that
-- can be evicted.
use simple_duck_dbms.Base.{
  ℕ, ◌≡◌, ◌≢◌, refl, sym, ap, ◌∙◌, arith, Bool, true, false, not, ◌&&◌, List, [], ◌∷◌, ◌++◌, Option,
  none, some, ◌==◌, if◌then◌else◌, eq_or_ne, Bool-cases, inl, inr, subst, Option-cases,
}
use simple_duck_dbms.Replacer.{
  Node, BufferReplacer, invalid_page_id, no_pages, erase, remove, record_page, find_from, find_lru,
}
use simple_duck_dbms.Replacer.Order.{
  pages, without, node_of, has_id, has_page, unique, IsReplacer, absent_node_of, without_absent,
  pages-erase, node_of-erase, has_id-erase, unique-erase, pages-append, node_of-append,
  has_id-append, unique-append,
}

pub no_pages-IsReplacer : IsReplacer no_pages
unfolding no_pages node_of unique has_id
no_pages-IsReplacer = record { found = λ p. refl; once = refl; used = λ n h. cc }

record Removed (r : BufferReplacer) (page_id : ℕ) (after : BufferReplacer) : Type 0 where
  kept : IsReplacer after
  gone : has_page after.mru_pages page_id ≡ false
  order : pages after.mru_pages ≡ without page_id (pages r.mru_pages)

remove_erase :
    (nodes : List Node) (positions : ℕ → Option ℕ) (next page_id it : ℕ)
    → IsReplacer (record { mru_pages = nodes; positions = positions; next_id = next })
    → positions page_id ≡ some it
    → Removed
        (record { mru_pages = nodes; positions = positions; next_id = next })
        page_id
        (record {
          mru_pages = erase it nodes;
          positions = λ p. if p == page_id then none else positions p;
          next_id = next;
        })
remove_erase nodes positions next page_id it i e =
    let here : node_of nodes page_id ≡ some it = sym (i.found page_id) ∙ e in
    record {
      kept = record {
        found = λ p. rw (node_of-erase nodes page_id it p i.once here, i.found p) refl;
        once = unique-erase nodes it i.once;
        used = λ n h. ground (arith, has_id-erase nodes it n, i.used n);
      };
      gone =
          absent_node_of (erase it nodes) page_id
            (node_of-erase nodes page_id it page_id i.once here ∙ ground arith);
      order = pages-erase nodes page_id it i.once here;
    }

remove-Removed :
    (r : BufferReplacer) (page_id : ℕ) → IsReplacer r → Removed r page_id (remove r page_id)
unfolding remove
remove-Removed r page_id i = elim (Option-cases (r.positions page_id)) [
  | inl e ↦
      let absent = absent_node_of r.mru_pages page_id (sym (i.found page_id) ∙ e) in
      rw (e, remove)
        (record {
          kept = i;
          gone = absent;
          order = sym (without_absent r.mru_pages page_id absent);
        })
  | inr (it, e) ↦ rw (e, remove) (remove_erase r.mru_pages r.positions r.next_id page_id it i e)
]

unused_id : (r : BufferReplacer) → IsReplacer r → has_id r.mru_pages r.next_id ≡ false
unused_id r i = elim (Bool-cases (has_id r.mru_pages r.next_id)) [
  | inl t ↦ let lt = i.used r.next_id t in absurd (omega arith)
  | inr f ↦ f
]

pub recorded-IsReplacer :
    (r : BufferReplacer) (page_id : ℕ) → IsReplacer r → IsReplacer (record_page r page_id)
unfolding record_page
recorded-IsReplacer r page_id i =
    let removed = remove r page_id in
    let done = remove-Removed r page_id i in
    let node : Node = record { id = removed.next_id; page_id = page_id } in
    record {
      found = λ p. rw (node_of-append removed.mru_pages node p done.gone, done.kept.found p) refl;
      once =
          unique-append removed.mru_pages node done.kept.once (unused_id removed done.kept)
            done.gone;
      used = λ n h. ground (arith, has_id-append removed.mru_pages node n, done.kept.used n);
    }

pub removed-IsReplacer :
    (r : BufferReplacer) (page_id : ℕ) → IsReplacer r → IsReplacer (remove r page_id)
removed-IsReplacer r page_id i = (remove-Removed r page_id i).kept

-- The map after each call.
pub positions-remove :
    (r : BufferReplacer) (page_id p : ℕ)
    → (remove r page_id).positions p ≡ (if p == page_id then none else r.positions p)
unfolding remove
positions-remove r page_id p = ground arith

pub positions-record_page :
    (r : BufferReplacer) (page_id p : ℕ)
    → p ≢ page_id
    → (record_page r page_id).positions p ≡ r.positions p
unfolding record_page
positions-record_page r page_id p ne = ground (arith, positions-remove r page_id p)

pub positions-record_page_self :
    (r : BufferReplacer) (page_id : ℕ) → (record_page r page_id).positions page_id ≢ none
unfolding record_page
positions-record_page_self r page_id e = ground arith

recorded_order :
    (r : BufferReplacer) (page_id : ℕ)
    → IsReplacer r
    → pages (record_page r page_id).mru_pages
      ≡ without page_id (pages r.mru_pages) ++ (page_id ∷ [])
unfolding record_page pages
recorded_order r page_id i =
    let removed = remove r page_id in
    let done = remove-Removed r page_id i in
    pages-append removed.mru_pages (record { id = removed.next_id; page_id = page_id } ∷ [])
    ∙ ap (λ ps. ps ++ (page_id ∷ [])) done.order

-- The calls that the buffer pool makes, the last one first.
pub data Call : Type 0 where
  recorded : ℕ → Call
  removed : ℕ → Call

unfoldable pub run : List Call → BufferReplacer
run [] = no_pages
run (recorded page_id ∷ calls) = record_page (run calls) page_id
run (removed page_id ∷ calls) = remove (run calls) page_id

-- The pages that are recorded and not removed, the least recently recorded first.
unfoldable pub by_use : List Call → List ℕ
by_use [] = []
by_use (recorded page_id ∷ calls) = without page_id (by_use calls) ++ (page_id ∷ [])
by_use (removed page_id ∷ calls) = without page_id (by_use calls)

run-IsReplacer : (calls : List Call) → IsReplacer (run calls)
unfolding run
run-IsReplacer [] = no_pages-IsReplacer
run-IsReplacer (recorded p ∷ calls) = recorded-IsReplacer (run calls) p (run-IsReplacer calls)
run-IsReplacer (removed p ∷ calls) = (remove-Removed (run calls) p (run-IsReplacer calls)).kept

-- After any calls of `record` and `remove`, the list holds the pages of `by_use`: those that were
-- recorded and not removed since, in the order in which they were last recorded.
pub pages-run : (calls : List Call) → pages (run calls).mru_pages ≡ by_use calls
unfolding run by_use no_pages pages
pages-run [] = refl
pages-run (recorded p ∷ calls) =
    recorded_order (run calls) p (run-IsReplacer calls)
    ∙ ap (λ ps. without p ps ++ (p ∷ [])) (pages-run calls)
pages-run (removed p ∷ calls) =
    (remove-Removed (run calls) p (run-IsReplacer calls)).order ∙ ap (without p) (pages-run calls)

module _ (page_table : ℕ → Option ℕ) (pin_count : ℕ → ℕ) where
  -- The page is in a frame, and nobody uses it.
  unfoldable pub evictable : ℕ → Bool
  evictable page_id = elim (page_table page_id) [
    | none ↦ false
    | some frame_id ↦ pin_count frame_id == 0
  ]

  unfoldable pub none_evictable : List ℕ → Bool
  none_evictable [] = true
  none_evictable (p ∷ ps) = not (evictable p) && none_evictable ps

  -- The least recently used page that can be evicted, or no page.
  pub data Victim (ps : List ℕ) (victim : ℕ) : Type 0 where
    least :
        (before after : List ℕ)
        → ps ≡ before ++ (victim ∷ after)
        → none_evictable before ≡ true
        → evictable victim ≡ true
        → Victim ps victim
    no_victim : none_evictable ps ≡ true → victim ≡ invalid_page_id → Victim ps victim

  later : (p v : ℕ) (ps : List ℕ) → evictable p ≡ false → Victim ps v → Victim (p ∷ ps) v
  unfolding none_evictable
  later p v ps unfit_p (least before after e unfit fit) =
      least (p ∷ before) after (ap (◌∷◌ p) e) (rw (unfit_p, unfit) refl) fit
  later p v ps unfit_p (no_victim unfit e) = no_victim (rw (unfit_p, unfit) refl) e

  pub find_from-Victim :
      (nodes : List Node) → Victim (pages nodes) (find_from page_table pin_count nodes)
  unfolding pages find_from none_evictable evictable
  find_from-Victim [] = no_victim refl refl
  find_from-Victim (x ∷ xs) = elim (Option-cases (page_table x.page_id)) [
    | inl e ↦
        rw (e, find_from)
          (later x.page_id (find_from page_table pin_count xs) (pages xs) (rw (e, evictable) refl)
            (find_from-Victim xs))
    | inr (frame_id, e) ↦ elim (Bool-cases (pin_count frame_id == 0)) [
      | inl z ↦ rw (e, z, find_from) (least [] (pages xs) refl refl (rw (e, z, evictable) refl))
      | inr z ↦
          rw (e, z, find_from)
            (later x.page_id (find_from page_table pin_count xs) (pages xs)
              (rw (e, z, evictable) refl) (find_from-Victim xs))
    ]
  ]

nodes_unfit :
    (page_table : ℕ → Option ℕ) (pin_count : ℕ → ℕ) (nodes : List Node) (p : ℕ)
    → none_evictable page_table pin_count (pages nodes) ≡ true
    → node_of nodes p ≢ none
    → evictable page_table pin_count p ≡ false
unfolding none_evictable pages node_of
nodes_unfit page_table pin_count [] p unfit known = absurd (known refl)
nodes_unfit page_table pin_count (x ∷ xs) p unfit known = elim (eq_or_ne x.page_id p) [
  | inl e ↦ subst (λ q. evictable page_table pin_count q ≡ false) e (ground arith)
  | inr ne ↦ nodes_unfit page_table pin_count xs p (ground arith) (λ e. known (ground arith))
]

-- Where no page of the list can be evicted, none that the map holds can be.
pub none_evictable-positions :
    (page_table : ℕ → Option ℕ) (pin_count : ℕ → ℕ) (r : BufferReplacer) (p : ℕ)
    → IsReplacer r
    → none_evictable page_table pin_count (pages r.mru_pages) ≡ true
    → r.positions p ≢ none
    → evictable page_table pin_count p ≡ false
none_evictable-positions page_table pin_count r p i unfit known =
    nodes_unfit page_table pin_count r.mru_pages p unfit (λ e. known (i.found p ∙ e))

-- After any calls of `record` and `remove`, `find_lru` returns the least recently recorded of the
-- pages that were not removed, are in a frame and are not pinned, or the invalid page id where there
-- is none.
pub find_lru-Victim :
    (page_table : ℕ → Option ℕ) (pin_count : ℕ → ℕ) (calls : List Call)
    → Victim page_table pin_count (by_use calls) (find_lru page_table pin_count (run calls))
unfolding find_lru
find_lru-Victim page_table pin_count calls =
    subst
      (λ ps. Victim page_table pin_count ps (find_from page_table pin_count (run calls).mru_pages))
      (pages-run calls) (find_from-Victim page_table pin_count (run calls).mru_pages)
