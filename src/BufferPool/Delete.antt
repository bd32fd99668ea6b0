-- ===== src/BufferPool/Delete.antt =====
-- `delete_page`.
use simple_duck_dbms.Base.{
  ℕ, ◌≡◌, ◌≢◌, inl, inr, refl, sym, ap, ◌∙◌, arith, Bool, true, false, none, some, Result, ok,
  throw, Error, ◌>>=◌, Bool-cases, Option-cases, eq_or_ne, ltb, ltb→lt, ltb→le,
}
use simple_duck_dbms.Memory.{Memory}
use simple_duck_dbms.DiskManager.{Files, DiskManager, deallocate_page}
use simple_duck_dbms.DiskManager.Allocation.{
  in_use, IsDisk, Deallocated, refused, dropped, given_back, deallocate_page-Deallocated,
}
use simple_duck_dbms.DiskManager.File.{Lawful}
use simple_duck_dbms.BufferPool.{BufferPoolManager, release, deallocate, delete_page}
use simple_duck_dbms.BufferPool.Invariant.{
  IsTables, IsContents, Ghost, updated, updated_known, pins, pins-some, pins-none, Keeps,
}
use simple_duck_dbms.BufferPool.Seat.{none_ne_some}
use simple_duck_dbms.BufferPool.Release.{deallocated_capacity, Released, release-Released}

-- What `delete_page` has done: it throws for page 0; it leaves a page that is pinned; else the page
-- is in no frame, nothing is promised of it, and the other pages are as they were.
pub data DeletedPage {F A : Type 0} {files : Files F} (w : Lawful files) (Rep : Memory → A → Type 0)
    (s : BufferPoolManager F) (p : ℕ) (ghost : Ghost A)
    : Result (Bool × BufferPoolManager F) → Type 0 where
  refused_zero : p ≡ 0 → DeletedPage w Rep s p ghost (throw Error.runtime_error)
  still_pinned : pins s p ≢ 0 → DeletedPage w Rep s p ghost (ok (false, s))
  deleted :
      (s' : BufferPoolManager F)
      → pins s p ≡ 0
      → IsTables s'
      → IsContents w Rep s' (updated ghost p none) none
      → s'.page_table p ≡ none
      → ((q : ℕ) → q ≢ p → pins s' q ≡ pins s q)
      → Keeps p s s'
      → s'.disk_manager.capacity ≡ s.disk_manager.capacity
      → DeletedPage w Rep s p ghost (ok (true, s'))

module _ {F A : Type 0} {files : Files F} (w : Lawful files) (Rep : Memory → A → Type 0)
    (s : BufferPoolManager F) (t : IsTables s) (p : ℕ) (ghost : Ghost A)
    (c : IsContents w Rep s ghost none) (s₁ : BufferPoolManager F) (r : Released s p s₁)
    (unpinned : pins s p ≡ 0) where
  only_others : (q g : ℕ) → s₁.page_table q ≡ some g → (q ≢ p) × (s.page_table q ≡ some g)
  only_others q g h = elim (eq_or_ne q p) [
    | inl z ↦ absurd (none_ne_some g (sym r.gone ∙ ap s₁.page_table (sym z) ∙ h))
    | inr ne ↦ (ne, sym (r.table q ne) ∙ h)
  ]

  redisked : DiskManager → BufferPoolManager F
  redisked d = record s₁ { disk_manager = d }

  module _ (d : DiskManager) (disk : IsDisk d) (capacity : d.capacity ≡ s.disk_manager.capacity)
      (others : (q : ℕ) → q ≢ p → in_use s.disk_manager q ≡ true → in_use d q ≡ true) where
    redisked-IsTables : IsTables (redisked d)
    unfolding redisked
    redisked-IsTables =
        let t₁ = r.tables in
        record {
          disk = disk;
          small = omega (arith, t.small, capacity);
          framed = t₁.framed;
          named = t₁.named;
          used = λ q g h. let (ne, old) = only_others q g h in others q ne (t.used q g old);
          listed = t₁.listed;
          clean_free = t₁.clean_free;
          free_below = t₁.free_below;
          free_empty = t₁.free_empty;
          free_once = t₁.free_once;
          order = t₁.order;
          recorded = t₁.recorded;
        }

    redisked-IsContents : IsContents w Rep (redisked d) (updated ghost p none) none
    unfolding redisked
    redisked-IsContents = record {
      blank = rw r.file c.blank;
      tracked = λ q v h.
          let (ne, known) = updated_known ghost p q v h in others q ne (c.tracked q v known);
      cached = λ q g v h k.
          let (ne, known) = updated_known ghost p q v k in
          let old = (only_others q g h).1 in rw (r.frames q g ne old) (c.cached q g v old known);
      stored = λ q v k cold clean.
          let (ne, known) = updated_known ghost p q v k in
          rw r.file (
            c.stored q v known cold
              (λ g h. sym (ap (λ x. x.is_dirty) (r.frames q g ne h)) ∙ clean g (r.table q ne ∙ h)));
    }

    redisked_pins : (q : ℕ) → q ≢ p → pins (redisked d) q ≡ pins s q
    unfolding redisked
    redisked_pins q ne = elim (Option-cases (s.page_table q)) [
      | inl out ↦ pins-none (redisked d) q (r.table q ne ∙ out) ∙ sym (pins-none s q out)
      | inr (g, h) ↦
          pins-some (redisked d) q g (r.table q ne ∙ h)
          ∙ ap (λ x. x.pin_count) (r.frames q g ne h)
          ∙ sym (pins-some s q g h)
    ]

    redisked-DeletedPage : DeletedPage w Rep s p ghost (ok (true, redisked d))
    unfolding redisked
    redisked-DeletedPage =
        deleted (redisked d) unpinned redisked-IsTables redisked-IsContents r.gone redisked_pins
          (record {
            place = λ q g ne h pinned. r.table q ne ∙ h;
            same = λ q g ne h pinned. r.frames q g ne h;
          })
          capacity

  by_outcome :
      (o : Result DiskManager)
      → deallocate_page s.disk_manager p ≡ o
      → Deallocated s.disk_manager p o
      → DeletedPage w Rep s p ghost (o >>= λ d. ok (true, record s₁ { disk_manager = d }))
  unfolding redisked
  by_outcome o e (refused meta) = refused_zero meta
  by_outcome o e (dropped full) = redisked-DeletedPage s.disk_manager t.disk refl (λ q ne h. h)
  by_outcome o e (given_back after ne few out others disk) =
      redisked-DeletedPage after disk (deallocated_capacity s.disk_manager after p e)
        (λ q ne h. others q ne ∙ h)

  deallocate-DeletedPage :
      in_use s.disk_manager p ≡ true → DeletedPage w Rep s p ghost (deallocate files s₁ p)
  unfolding deallocate
  deallocate-DeletedPage use_p = rw r.disk_manager (
      by_outcome (deallocate_page s.disk_manager p) refl
        (deallocate_page-Deallocated s.disk_manager p t.disk use_p))

module _ {F A : Type 0} {files : Files F} (w : Lawful files) (Rep : Memory → A → Type 0)
    (s : BufferPoolManager F) (p : ℕ) (ghost : Ghost A) where
  absent-Released : s.page_table p ≡ none → IsTables s → Released s p s
  absent-Released out t = record {
    tables = t;
    gone = out;
    table = λ q ne. refl;
    frames = λ q g ne h. refl;
    disk_manager = refl;
    file = refl;
  }

  -- `delete_page` of a page in use, in a well-formed pool: page 0 is refused; a page that is pinned
  -- stays as it is, with answer false; else the page is in no frame, and the other pages hold what
  -- they are to hold, are pinned as before, and stay where they are.
  pub delete_page-DeletedPage :
      IsTables s
      → IsContents w Rep s ghost none
      → in_use s.disk_manager p ≡ true
      → DeletedPage w Rep s p ghost (delete_page files s p)
  unfolding delete_page
  delete_page-DeletedPage t c use_p = elim (Option-cases (s.page_table p)) [
    | inl out ↦
        rw (out, delete_page)
          (deallocate-DeletedPage w Rep s t p ghost c s (absent-Released out t) (pins-none s p out)
            use_p)
    | inr (f, here) ↦ elim (Bool-cases (ltb 0 (s.frames f).pin_count)) [
      | inl pinned ↦
          rw (here, pinned, delete_page)
            (still_pinned (λ z.
              absurd (omega (arith, pins-some s p f here, ltb→lt 0 (s.frames f).pin_count pinned))))
      | inr free ↦
          rw (here, free, delete_page)
            (deallocate-DeletedPage w Rep s t p ghost c (release files s p f)
              (release-Released files s t p f here)
              (omega (arith, pins-some s p f here, ltb→le 0 (s.frames f).pin_count free)) use_p)
    ]
  ]
