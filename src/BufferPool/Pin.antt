-- ===== src/BufferPool/Pin.antt =====
-- `fetch_page` and `new_page`, on every branch.
use simple_duck_dbms.Base.{
  ℕ, ◌+◌, ◌^◌, ◌≤◌, ◌<◌, ◌≡◌, ◌≢◌, inl, inr, refl, sym, ap, ◌∙◌, arith, Bool, true, false, Option,
  none, some, Result, ok, Option-cases, eq_or_ne,
}
use simple_duck_dbms.Memory.{Memory}
use simple_duck_dbms.Replacer.Recent.{
  recorded-IsReplacer, positions-record_page, positions-record_page_self,
}
use simple_duck_dbms.DiskManager.{Files, DiskManager, allocate_page}
use simple_duck_dbms.DiskManager.Allocation.{in_use, AllocatedPage, allocate_page-AllocatedPage}
use simple_duck_dbms.DiskManager.File.{Lawful}
use simple_duck_dbms.BufferPool.{
  BufferPoolManager, inc_pin_count, set_frame, record_use, find_cached_page, fetch_page, new_page,
  swap_page,
}
use simple_duck_dbms.BufferPool.Invariant.{
  IsTables, IsContents, Ghost, updated, pins, pins-some, clip,
}
use simple_duck_dbms.BufferPool.Evict.{true_ne_false}
use simple_duck_dbms.BufferPool.Change.{
  Changed, changed-IsTables, changed_pins_self, changed_pins_ne, changed-Keeps, changed-IsContents,
  still_here, clean_frame,
}
use simple_duck_dbms.BufferPool.Fetch.{Fetched, no_frame, fetched, swap_page-Fetched, swap_page-new}

-- The pool after a cached page was fetched.
touched : {F : Type 0} → BufferPoolManager F → ℕ → ℕ → BufferPoolManager F
touched s p f = record_use (set_frame s f (inc_pin_count (s.frames f))) p

module _ {F : Type 0} (s : BufferPoolManager F) (t : IsTables s) (p f : ℕ)
    (here : s.page_table p ≡ some f) where
  touched-Changed : Changed s f (inc_pin_count (s.frames f)) (touched s p f)
  unfolding touched record_use set_frame
  touched-Changed = record {
    table = refl;
    frames = λ g. refl;
    disk_manager = refl;
    file = refl;
    pool_size = refl;
    free_frames = refl;
    order = recorded-IsReplacer s.replacer p t.order;
    recorded = λ q g h. elim (eq_or_ne q p) [
      | inl same ↦ rw same (positions-record_page_self s.replacer p)
      | inr ne ↦ λ z. t.recorded q g h (sym (positions-record_page s.replacer p q ne) ∙ z)
    ];
  }

  touched_id : (inc_pin_count (s.frames f)).page_id ≡ p
  unfolding inc_pin_count
  touched_id = t.named p f here

  touched_pins : pins s p + 1 < 2 ^ 32 → (inc_pin_count (s.frames f)).pin_count ≡ pins s p + 1
  unfolding inc_pin_count
  touched_pins few = omega (arith, pins-some s p f here)

  fetch_cached : (files : Files F) → fetch_page files s p ≡ ok (some f, touched s p f)
  unfolding fetch_page find_cached_page touched
  fetch_cached files = ground arith

fetch_absent :
    {F : Type 0} (files : Files F) (s : BufferPoolManager F) (p : ℕ)
    → s.page_table p ≡ none
    → fetch_page files s p ≡ swap_page files s p true
unfolding fetch_page find_cached_page
fetch_absent files s p out = ground arith

module _ {F A : Type 0} (files : Files F) (w : Lawful files) (Rep : Memory → A → Type 0)
    (clips : (m : Memory) (v : A) → Rep m v → Rep (clip m) v) where
  cached-Fetched :
      (s : BufferPoolManager F) (p f : ℕ) (ghost : Ghost A)
      → IsTables s
      → IsContents w Rep s ghost none
      → pins s p + 1 < 2 ^ 32
      → s.page_table p ≡ some f
      → Fetched w Rep s p ghost ghost none s.disk_manager false (ok (some f, touched s p f))
  unfolding inc_pin_count
  cached-Fetched s p f ghost t c few here =
      let page = inc_pin_count (s.frames f) in
      let s' = touched s p f in
      let e = touched-Changed s t p f here in
      let id = touched_id s t p f here in
      fetched f s' (changed-IsTables s t p f here page id s' e)
        (changed-IsContents s t p f here page id s' e w Rep ghost ghost none none c (λ q ne. refl)
          (λ q ne cold. cold) (λ v known. c.cached p f v here known)
          (λ v known cold clean. c.stored p v known cold (clean_frame s p f here clean)))
        (still_here s t p f here page id s' e)
        (changed_pins_self s t p f here page id s' e ∙ touched_pins s t p f here few)
        (λ q ne. changed_pins_ne s t p f here page id s' e q ne)
        (changed-Keeps s t p f here page id s' e) e.disk_manager (λ is_new. cc)

  -- `fetch_page` of a page in use, in a well-formed pool whose file does not fail: it returns no frame
  -- only where each frame is taken by a pinned page, and changes nothing then; else the page is in
  -- the frame returned, and holds what it is to hold, as all others still do; it is pinned once more,
  -- and the other pages are pinned as before and stay as they are where they are pinned.
  pub fetch_page-Fetched :
      (s : BufferPoolManager F) (p : ℕ) (ghost : Ghost A)
      → IsTables s
      → IsContents w Rep s ghost none
      → in_use s.disk_manager p ≡ true
      → pins s p + 1 < 2 ^ 32
      → Fetched w Rep s p ghost ghost none s.disk_manager false (fetch_page files s p)
  fetch_page-Fetched s p ghost t c use_p few = elim (Option-cases (s.page_table p)) [
    | inl out ↦
        rw (fetch_absent files s p out)
          (swap_page-Fetched files w Rep clips s p ghost c out use_p t)
    | inr (f, here) ↦ rw (fetch_cached s t p f here files) (cached-Fetched s p f ghost t c few here)
  ]

pub allocated_capacity : (d : DiskManager) → (allocate_page d).1.capacity ≤ d.capacity + 1
unfolding allocate_page
allocated_capacity d = ground arith

-- The tables after a page was allocated.
module _ {F : Type 0} (s : BufferPoolManager F) (t : IsTables s)
    (room : s.disk_manager.capacity + 1 < 2 ^ 32) where
  a : AllocatedPage s.disk_manager (allocate_page s.disk_manager).0 (allocate_page s.disk_manager).1
  a = allocate_page-AllocatedPage s.disk_manager t.disk room

  still_used :
      (q : ℕ) → in_use s.disk_manager q ≡ true → in_use (allocate_page s.disk_manager).1 q ≡ true
  still_used q use_q =
      let other : q ≢ (allocate_page s.disk_manager).0 =
        λ z. true_ne_false (sym use_q ∙ ap (in_use s.disk_manager) z ∙ a.unused) in
      a.others q other ∙ use_q

  allocated : BufferPoolManager F
  allocated = record s { disk_manager = (allocate_page s.disk_manager).1 }

  allocated-IsTables : IsTables allocated
  unfolding allocated
  allocated-IsTables = record {
    disk = a.disk;
    small = omega (arith, allocated_capacity s.disk_manager);
    framed = t.framed;
    named = t.named;
    used = λ q g h. still_used q (t.used q g h);
    listed = t.listed;
    clean_free = t.clean_free;
    free_below = t.free_below;
    free_empty = t.free_empty;
    free_once = t.free_once;
    order = t.order;
    recorded = t.recorded;
  }

  not_cached : s.page_table (allocate_page s.disk_manager).0 ≡ none
  not_cached = elim (Option-cases (s.page_table (allocate_page s.disk_manager).0)) [
    | inl h ↦ h
    | inr (g, h) ↦ absurd (true_ne_false (sym (t.used _ g h) ∙ a.unused))
  ]

  module _ {A : Type 0} {files : Files F} (w : Lawful files) (Rep : Memory → A → Type 0)
      (ghost : Ghost A) (c : IsContents w Rep s ghost none) where
    allocated-IsContents : IsContents w Rep allocated ghost none
    unfolding allocated
    allocated-IsContents = record {
      blank = c.blank;
      tracked = λ q v known. still_used q (c.tracked q v known);
      cached = c.cached;
      stored = c.stored;
    }

    before_allocated :
        (p : ℕ) (ghost' : Ghost A) (hot : Option ℕ) (d : DiskManager) (fresh : Bool)
        (r : Result (Option ℕ × BufferPoolManager F))
        → Fetched w Rep allocated p ghost ghost' hot d fresh r
        → Fetched w Rep s p ghost ghost' hot d fresh r
    unfolding allocated pins
    before_allocated p ghost' hot d fresh r (no_frame s' all t' c' frames table disk) =
        no_frame s' (record { none_free = all.none_free; full = all.full; pinned = all.pinned }) t'
          c' frames table disk
    before_allocated p ghost' hot d fresh r
          (fetched f s' t' c' here pinned others keeps disk zeros) =
        fetched f s' t' c' here pinned others (record { place = keeps.place; same = keeps.same })
          disk zeros

module _ {F A : Type 0} (files : Files F) (w : Lawful files) (Rep : Memory → A → Type 0)
    (clips : (m : Memory) (v : A) → Rep m v → Rep (clip m) v) where
  -- `new_page`, in a well-formed pool whose file does not fail and has less than 2 ^ 32 - 1 pages: it
  -- returns no frame only where each frame is taken by a pinned page; else a page that was not in
  -- use is in the frame returned, pinned once, and the other pages are pinned as before, stay as
  -- they are where they are pinned, and still hold what they are to hold.
  pub new_page-Fetched :
      (s : BufferPoolManager F) (ghost : Ghost A)
      → IsTables s
      → IsContents w Rep s ghost none
      → s.disk_manager.capacity + 1 < 2 ^ 32
      → let (p, d) = allocate_page s.disk_manager in
        (in_use s.disk_manager p ≡ false)
        × Fetched w Rep s p ghost (updated ghost p none) none d true (new_page files s)
  unfolding new_page allocated
  new_page-Fetched s ghost t c room =
      let (p, d) = allocate_page s.disk_manager in
      let now = a s t room in
      (
        now.unused,
        before_allocated s t room w Rep ghost c p (updated ghost p none) none d true
            (new_page files s)
            (swap_page-new files w Rep clips (allocated s t room) p ghost
              (allocated-IsContents s t room w Rep ghost c) (not_cached s t room) now.used
              (allocated-IsTables s t room)),
      )
