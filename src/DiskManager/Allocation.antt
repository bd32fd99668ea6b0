-- ===== src/DiskManager/Allocation.antt =====
-- Which pages are in use.
use simple_duck_dbms.Base.{
  ℕ, ◌+◌, ◌%◌, ◌^◌, ◌≤◌, ◌<◌, ◌≡◌, ◌≢◌, inl, inr, refl, sym, subst, ◌∙◌, arith, Bool, true, false,
  not, ◌&&◌, ◌||◌, List, [], ◌∷◌, length, Result, ok, throw, Error, ltb, ◌==◌, Bool-cases, eq_or_ne,
  lt→ltb, ltb→lt, ltb→le,
}
use simple_duck_dbms.DiskManager.{DiskHeader, DiskManager, allocate_page, deallocate_page}

unfoldable pub is_free : List ℕ → ℕ → Bool
is_free [] page_id = false
is_free (p ∷ free_list) page_id = p == page_id || is_free free_list page_id

-- The page was allocated, and was not given back since.
unfoldable pub in_use : DiskManager → ℕ → Bool
in_use d page_id = ltb page_id d.capacity && not (is_free d.free_list page_id)

-- The free list holds pages below the capacity, each of them once, and not page 0.
unfoldable pub distinct : List ℕ → Bool
distinct [] = true
distinct (p ∷ free_list) = not (is_free free_list p) && distinct free_list

pub record IsDisk (d : DiskManager) : Type 0 where
  pub below : (page_id : ℕ) → is_free d.free_list page_id ≡ true → page_id < d.capacity
  pub once : distinct d.free_list ≡ true
  pub not_meta : is_free d.free_list 0 ≡ false
  pub started : 0 < d.capacity
  pub short : length d.free_list ≤ 1025

-- What `allocate_page` does: the page was not in use and is in use, the others are as before.
pub record AllocatedPage (before : DiskManager) (page_id : ℕ) (after : DiskManager) : Type 0 where
  pub unused : in_use before page_id ≡ false
  pub used : in_use after page_id ≡ true
  pub others : (p : ℕ) → p ≢ page_id → in_use after p ≡ in_use before p
  pub not_zero : page_id ≢ 0
  pub disk : IsDisk after

pub is_free_head : (p : ℕ) (ps : List ℕ) → is_free (p ∷ ps) p ≡ true
unfolding is_free
is_free_head p ps = ground arith

pub is_free_ne : (p q : ℕ) (ps : List ℕ) → p ≢ q → is_free (p ∷ ps) q ≡ is_free ps q
unfolding is_free
is_free_ne p q ps ne = ground arith

true_ne_false : true ≢ false
true_ne_false e = cc

shorter : (p q : ℕ) (ps : List ℕ) → is_free (p ∷ ps) q ≡ false → is_free ps q ≡ false
unfolding is_free
shorter p q ps f = ground arith

pub longer : (p q : ℕ) (ps : List ℕ) → is_free ps q ≡ true → is_free (p ∷ ps) q ≡ true
unfolding is_free
longer p q ps f = ground arith

-- The last page of the free list.
taken :
    (h : DiskHeader) (c p : ℕ) (ps : List ℕ)
    → IsDisk (record { disk_header = h; capacity = c; free_list = p ∷ ps })
    → AllocatedPage
        (record { disk_header = h; capacity = c; free_list = p ∷ ps })
        p
        (record { disk_header = h; capacity = c; free_list = ps })
unfolding in_use distinct
taken h c p ps i =
    let lt : p < c = i.below p (is_free_head p ps) in
    let (gone, rest) : (is_free ps p ≡ false) × (distinct ps ≡ true) =
      (ground (arith, i.once), ground (arith, i.once)) in
    record {
      unused = rw (lt→ltb p c lt, is_free_head p ps) refl;
      used = rw (lt→ltb p c lt, gone) refl;
      others = λ q ne. rw (is_free_ne p q ps (λ e. ne (sym e))) refl;
      not_zero = λ e.
          true_ne_false
            (sym (subst (λ q. is_free (p ∷ ps) q ≡ true) e (is_free_head p ps)) ∙ i.not_meta);
      disk = record {
        below = λ q f. i.below q (longer p q ps f);
        once = rest;
        not_meta = shorter p 0 ps i.not_meta;
        started = i.started;
        short = omega (arith, i.short);
      };
    }

-- A new page behind the last.
added :
    (h : DiskHeader) (c : ℕ)
    → IsDisk (record { disk_header = h; capacity = c; free_list = [] })
    → c + 1 < 2 ^ 32
    → AllocatedPage
        (record { disk_header = h; capacity = c; free_list = [] })
        c
        (record { disk_header = h; capacity = (c + 1) % 2 ^ 32; free_list = [] })
unfolding in_use is_free
added h c i room =
    let next : (c + 1) % 2 ^ 32 ≡ c + 1 = omega arith in
    rw next (record {
      unused = ground arith;
      used = ground arith;
      others = λ q ne. ground arith;
      not_zero = λ e. omega (arith, i.started);
      disk = record {
        below = λ q f. cc;
        once = i.once;
        not_meta = refl;
        started = omega arith;
        short = omega arith;
      };
    })

by_list :
    (h : DiskHeader) (c : ℕ) (free_list : List ℕ)
    → IsDisk (record { disk_header = h; capacity = c; free_list = free_list })
    → c + 1 < 2 ^ 32
    → AllocatedPage
        (record { disk_header = h; capacity = c; free_list = free_list })
        (allocate_page (record { disk_header = h; capacity = c; free_list = free_list })).0
        (allocate_page (record { disk_header = h; capacity = c; free_list = free_list })).1
unfolding allocate_page
by_list h c [] i room = added h c i room
by_list h c (p ∷ ps) i room = taken h c p ps i

-- `allocate_page`, below 2 ^ 32 pages, returns a page that was not in use, and not page 0; it is in
-- use afterwards, the others are as before, and the free list stays well-formed.
pub allocate_page-AllocatedPage :
    (d : DiskManager)
    → IsDisk d
    → d.capacity + 1 < 2 ^ 32
    → AllocatedPage d (allocate_page d).0 (allocate_page d).1
allocate_page-AllocatedPage d i room = by_list d.disk_header d.capacity d.free_list i room

pub used_facts :
    (d : DiskManager) (page_id : ℕ)
    → in_use d page_id ≡ true
    → (page_id < d.capacity) × (is_free d.free_list page_id ≡ false)
unfolding in_use
used_facts d page_id used = (ground arith, ground arith)

freed :
    (d : DiskManager) (page_id : ℕ)
    → in_use (record d { free_list = page_id ∷ d.free_list }) page_id ≡ false
unfolding in_use
freed d page_id = rw (is_free_head page_id d.free_list) (ground arith)

freed_ne :
    (d : DiskManager) (page_id p : ℕ)
    → p ≢ page_id
    → in_use (record d { free_list = page_id ∷ d.free_list }) p ≡ in_use d p
unfolding in_use
freed_ne d page_id p ne = rw (is_free_ne page_id p d.free_list (λ e. ne (sym e))) refl

freed-IsDisk :
    (d : DiskManager) (page_id : ℕ)
    → IsDisk d
    → in_use d page_id ≡ true
    → page_id ≢ 0
    → length d.free_list ≤ 1024
    → IsDisk (record d { free_list = page_id ∷ d.free_list })
unfolding distinct
freed-IsDisk d page_id i used ne few =
    let (lt, unfree) = used_facts d page_id used in
    record {
      below = λ p f. elim (eq_or_ne page_id p) [
        | inl e ↦ omega arith
        | inr other ↦ i.below p (sym (is_free_ne page_id p d.free_list other) ∙ f)
      ];
      once = rw (unfree, i.once) refl;
      not_meta = is_free_ne page_id 0 d.free_list ne ∙ i.not_meta;
      started = i.started;
      short = omega arith;
    }

-- What `deallocate_page` does, with a page in use: it throws on page 0; past 1024 free pages the
-- page stays in use for good; else the page is not in use, and the others are as before.
pub data Deallocated (d : DiskManager) (page_id : ℕ) : Result DiskManager → Type 0 where
  refused : page_id ≡ 0 → Deallocated d page_id (throw Error.runtime_error)
  dropped : 1024 < length d.free_list → Deallocated d page_id (ok d)
  given_back :
      (after : DiskManager)
      → page_id ≢ 0
      → length d.free_list ≤ 1024
      → in_use after page_id ≡ false
      → ((p : ℕ) → p ≢ page_id → in_use after p ≡ in_use d p)
      → IsDisk after
      → Deallocated d page_id (ok after)

-- `deallocate_page` of a page in use, on every branch: page 0 is refused; past 1024 free pages
-- nothing changes and the page stays in use; else the page is not in use, the others are as
-- before, and the free list stays well-formed.
pub deallocate_page-Deallocated :
    (d : DiskManager) (page_id : ℕ)
    → IsDisk d
    → in_use d page_id ≡ true
    → Deallocated d page_id (deallocate_page d page_id)
unfolding deallocate_page
deallocate_page-Deallocated d page_id i used = elim (eq_or_ne page_id 0) [
  | inl e ↦ let t : (page_id == 0) ≡ true = ground arith in rw t (refused e)
  | inr ne ↦
      let t : (page_id == 0) ≡ false = ground arith in
      elim (Bool-cases (ltb 1024 (length d.free_list))) [
        | inl l ↦ rw (t, l) (dropped (ltb→lt 1024 (length d.free_list) l))
        | inr l ↦
            let few = ltb→le 1024 (length d.free_list) l in
            rw (t, l)
              (given_back (record d { free_list = page_id ∷ d.free_list }) ne few (freed d page_id)
                (λ p q. freed_ne d page_id p q) (freed-IsDisk d page_id i used ne few))
      ]
]
