-- ===== src/TableHeap/Chain.antt =====
-- The pages of a heap, linked one to the next, and the tuples that they hold.
use simple_duck_dbms.Base.{
  ℕ, ◌≡◌, ◌≢◌, ◌⊎◌, inl, inr, refl, sym, subst, ap, ◌∙◌, arith, List, [], ◌∷◌, Option, none, some,
  some-injective, eq_or_ne,
}
use simple_duck_dbms.Transaction.{Rid}
use simple_duck_dbms.SlottedPage.{invalid_page_id}
use simple_duck_dbms.BufferPool.Invariant.{Ghost, updated}
use simple_duck_dbms.TableHeap.PageView.{PageView, put}

-- From page `p` the links lead over these pages, and end.
pub data Chain (ghost : Ghost PageView) : ℕ → List ℕ → Type 0 where
  ends : Chain ghost invalid_page_id []
  page :
      (p : ℕ) (v : PageView) (pages : List ℕ)
      → p ≢ invalid_page_id
      → ghost p ≡ some v
      → Chain ghost v.link pages
      → Chain ghost p (p ∷ pages)

pub ended :
    (ghost : Ghost PageView) (p : ℕ) (pages : List ℕ)
    → Chain ghost p pages
    → p ≡ invalid_page_id
    → pages ≡ []
ended ghost p pages ends e = refl
ended ghost p pages (page q v rest real known chain) e = absurd (real e)

-- The tuple in slot `j` of page `p`.
unfoldable pub tuple_of : Ghost PageView → ℕ → ℕ → Option (List ℕ)
tuple_of ghost p j = elim (ghost p) [ none ↦ none | some v ↦ v.tuples j ]

pub tuple_of_known :
    (ghost : Ghost PageView) (p j : ℕ) (v : PageView)
    → ghost p ≡ some v
    → tuple_of ghost p j ≡ v.tuples j
unfolding tuple_of
tuple_of_known ghost p j v known = rw (known, tuple_of) refl

pub tuple_of_absent :
    (ghost : Ghost PageView) (p j : ℕ) → ghost p ≡ none → tuple_of ghost p j ≡ none
unfolding tuple_of
tuple_of_absent ghost p j absent = rw (absent, tuple_of) refl

pub tuple_of_same :
    (ghost ghost' : Ghost PageView) (p j : ℕ)
    → ghost' p ≡ ghost p
    → tuple_of ghost' p j ≡ tuple_of ghost p j
unfolding tuple_of
tuple_of_same ghost ghost' p j same = rw (same, tuple_of) refl

-- Each page is still there, and its link is the same, unless it was the last.
abbrev pub Linked : Ghost PageView → Ghost PageView → Type 0
Linked ghost ghost' =
    (p : ℕ) (v : PageView)
    → ghost p ≡ some v
    → ((v' : PageView) × (ghost' p ≡ some v') × ((v'.link ≡ v.link) ⊎ (v.link ≡ invalid_page_id)))

-- No tuple has changed.
pub record Kept (ghost ghost' : Ghost PageView) : Type 0 where
  pub tuples : (p j : ℕ) → tuple_of ghost' p j ≡ tuple_of ghost p j
  pub links : Linked ghost ghost'

-- A tuple was stored where there was none, and no other has changed.
pub record Stored (ghost ghost' : Ghost PageView) (rid : Rid) (tuple : List ℕ) : Type 0 where
  pub vacant : tuple_of ghost rid.page_id rid.slot_num ≡ none
  pub here : tuple_of ghost' rid.page_id rid.slot_num ≡ some tuple
  pub other_pages : (p j : ℕ) → p ≢ rid.page_id → tuple_of ghost' p j ≡ tuple_of ghost p j
  pub other_slots :
      (j : ℕ) → j ≢ rid.slot_num → tuple_of ghost' rid.page_id j ≡ tuple_of ghost rid.page_id j
  pub links : Linked ghost ghost'

pub Linked-refl : (ghost : Ghost PageView) → Linked ghost ghost
Linked-refl ghost p v known = (v, known, inl refl)

pub Kept-refl : (ghost : Ghost PageView) → Kept ghost ghost
Kept-refl ghost = record { tuples = λ p j. refl; links = Linked-refl ghost }

pub Linked-trans : (g g' g'' : Ghost PageView) → Linked g g' → Linked g' g'' → Linked g g''
Linked-trans g g' g'' a b p v known =
    let (v', known', same) = a p v known in
    let (v'', known'', same') = b p v' known' in
    (
      v'',
      known'',
      elim same [
        | inr last ↦ inr last
        | inl e ↦ elim same' [ inl e' ↦ inl (e' ∙ e) | inr last ↦ inr (sym e ∙ last) ]
      ],
    )

pub Kept-trans : (g g' g'' : Ghost PageView) → Kept g g' → Kept g' g'' → Kept g g''
Kept-trans g g' g'' a b = record {
  tuples = λ p j. b.tuples p j ∙ a.tuples p j;
  links = Linked-trans g g' g'' a.links b.links;
}

pub Kept-Stored :
    (g g' g'' : Ghost PageView) (rid : Rid) (t : List ℕ)
    → Kept g g'
    → Stored g' g'' rid t
    → Stored g g'' rid t
Kept-Stored g g' g'' rid t a b = record {
  vacant = sym (a.tuples rid.page_id rid.slot_num) ∙ b.vacant;
  here = b.here;
  other_pages = λ p j ne. b.other_pages p j ne ∙ a.tuples p j;
  other_slots = λ j ne. b.other_slots j ne ∙ a.tuples rid.page_id j;
  links = Linked-trans g g' g'' a.links b.links;
}

-- A page whose link is not the last in front of the chain that follows.
pub in_front :
    (g g' : Ghost PageView) (p : ℕ) (v : PageView) (pages : List ℕ)
    → p ≢ invalid_page_id
    → g p ≡ some v
    → v.link ≢ invalid_page_id
    → Linked g g'
    → Chain g' v.link pages
    → Chain g' p (p ∷ pages)
in_front g g' p v pages real known linked links rest =
    let (v', known', same) = links p v known in
    elim same [
      | inl e ↦ page p v' pages real known' (subst (λ q. Chain g' q pages) (sym e) rest)
      | inr last ↦ absurd (linked last)
    ]

-- Pages that all keep their links.
pub relinked :
    (g g' : Ghost PageView) (p : ℕ) (pages : List ℕ)
    → ((q : ℕ) (v : PageView)
        → g q ≡ some v
        → (v' : PageView) × (g' q ≡ some v') × (v'.link ≡ v.link))
    → Chain g p pages
    → Chain g' p pages
relinked g g' p pages same ends = ends
relinked g g' p pages same (page q v rest real known chain) =
    let (v', known', link) = same q v known in
    page q v' rest real known'
      (subst (λ n. Chain g' n rest) (sym link) (relinked g g' v.link rest same chain))

module _ (ghost : Ghost PageView) (p : ℕ) (w : PageView) where
  pub updated_self : updated ghost p (some w) p ≡ some w
  unfolding updated
  updated_self = ground arith

  pub updated_ne : (q : ℕ) → q ≢ p → updated ghost p (some w) q ≡ ghost q
  unfolding updated
  updated_ne q ne = ground arith

-- A page with another tuple in a slot.
unfoldable pub changed : Ghost PageView → ℕ → ℕ → PageView → Option (List ℕ) → Ghost PageView
changed ghost p i v t = updated ghost p (some (put v i t))

module _ (ghost : Ghost PageView) (p i : ℕ) (v : PageView) (t : Option (List ℕ))
    (known : ghost p ≡ some v) where
  abbrev after : Ghost PageView
  after = changed ghost p i v t

  pub changed_links :
      (q : ℕ) (w : PageView)
      → ghost q ≡ some w
      → (w' : PageView) × (after q ≡ some w') × (w'.link ≡ w.link)
  unfolding put changed
  changed_links q w known' = elim (eq_or_ne q p) [
    | inl e ↦ (
      put v i t,
      ap after e ∙ updated_self ghost p (put v i t),
      ap (λ x. x.link) (some-injective v w (sym known ∙ ap ghost (sym e) ∙ known')),
    )
    | inr ne ↦ (w, updated_ne ghost p (put v i t) q ne ∙ known', refl)
  ]

  pub changed_here : tuple_of after p i ≡ t
  unfolding put changed
  changed_here =
      tuple_of_known after p i (put v i t) (updated_self ghost p (put v i t)) ∙ ground arith

  pub changed_slots : (j : ℕ) → j ≢ i → tuple_of after p j ≡ tuple_of ghost p j
  unfolding put changed
  changed_slots j ne =
      tuple_of_known after p j (put v i t) (updated_self ghost p (put v i t))
      ∙ ground (arith, ne)
      ∙ sym (tuple_of_known ghost p j v known)

  pub changed_pages : (q j : ℕ) → q ≢ p → tuple_of after q j ≡ tuple_of ghost q j
  unfolding changed
  changed_pages q j ne = tuple_of_same ghost after q j (updated_ne ghost p (put v i t) q ne)
