-- ===== src/BufferPool/Unpin.antt =====
-- The writes of a caller to a page that it has pinned, and `unpin_page`.
use simple_duck_dbms.Base.{
  ℕ, ◌-◌, ◌^◌, ◌<◌, ◌≡◌, ◌≢◌, refl, sym, subst, ◌∙◌, arith, Bool, true, false, Option, none, some,
  if◌then◌else◌, some-injective,
}
use simple_duck_dbms.Memory.{Memory}
use simple_duck_dbms.DiskManager.{Files}
use simple_duck_dbms.DiskManager.File.{Lawful}
use simple_duck_dbms.BufferPool.{
  Page, BufferPoolManager, set_dirty, dec_pin_count, set_frame, set_bytes, unpin_page,
}
use simple_duck_dbms.BufferPool.Invariant.{
  IsTables, IsContents, Ghost, updated, pins, pins-some, Keeps,
}
use simple_duck_dbms.BufferPool.Evict.{true_ne_false}
use simple_duck_dbms.BufferPool.Change.{
  Changed, changed-IsTables, changed_pins_self, changed_pins_ne, changed-Keeps, changed-IsContents,
  still_here, clean_frame,
}

module _ {F : Type 0} (s : BufferPoolManager F) (t : IsTables s) (f : ℕ) where
  set_frame-Changed : (page : Page) → Changed s f page (set_frame s f page)
  unfolding set_frame
  set_frame-Changed page = record {
    table = refl;
    frames = λ g. refl;
    disk_manager = refl;
    file = refl;
    pool_size = refl;
    free_frames = refl;
    order = t.order;
    recorded = t.recorded;
  }

-- What a step has done that changes a page in its frame.
pub record InPlace {F A : Type 0} {files : Files F} (w : Lawful files) (Rep : Memory → A → Type 0)
    (s : BufferPoolManager F) (p : ℕ) (ghost : Ghost A) (hot : Option ℕ) (n : ℕ)
    (s' : BufferPoolManager F) : Type 0 where
  pub tables : IsTables s'
  pub contents : IsContents w Rep s' ghost hot
  pub place : s'.page_table p ≡ s.page_table p
  pub pins_self : pins s' p ≡ n
  pub pins_ne : (q : ℕ) → q ≢ p → pins s' q ≡ pins s q
  pub keeps : Keeps p s s'
  pub disk : s'.disk_manager ≡ s.disk_manager

module _ {F A : Type 0} {files : Files F} (w : Lawful files) (Rep : Memory → A → Type 0)
    (s : BufferPoolManager F) (t : IsTables s) (p f : ℕ) (here : s.page_table p ≡ some f)
    (ghost : Ghost A) (hot : Option ℕ) (c : IsContents w Rep s ghost hot) where
  module _ (page : Page) (id : page.page_id ≡ p) (s' : BufferPoolManager F)
      (e : Changed s f page s') where
    changed-InPlace :
        (ghost' : Ghost A) (hot' : Option ℕ)
        → IsContents w Rep s' ghost' hot'
        → InPlace w Rep s p ghost' hot' page.pin_count s'
    changed-InPlace ghost' hot' c' = record {
      tables = changed-IsTables s t p f here page id s' e;
      contents = c';
      place = still_here s t p f here page id s' e ∙ sym here;
      pins_self = changed_pins_self s t p f here page id s' e;
      pins_ne = changed_pins_ne s t p f here page id s' e;
      keeps = changed-Keeps s t p f here page id s' e;
      disk = e.disk_manager;
    }

  -- The caller writes other bytes to the page, which stand for `v`.
  pub set_bytes-InPlace :
      (m : Memory) (v : A)
      → Rep m v
      → ((q : ℕ) → q ≢ p → hot ≢ some q)
      → InPlace w Rep s p (updated ghost p (some v)) (some p) (pins s p) (set_bytes s f m)
  unfolding set_bytes updated
  set_bytes-InPlace m v rep only =
      let page = record (s.frames f) { bytes = m } in
      let e = set_frame-Changed s t f page in
      let s' = set_frame s f page in
      let ghost' = updated ghost p (some v) in
      let same : page.pin_count ≡ pins s p = sym (pins-some s p f here) in
      rw (← same) (
        changed-InPlace page (t.named p f here) s' e ghost' (some p) (
          changed-IsContents s t p f here page (t.named p f here) s' e w Rep ghost ghost' hot
            (some p) c (λ q ne. ground arith) (λ q ne cold. only q ne)
            (λ v' known. subst (Rep m) (some-injective v v' (ground arith)) rep)
            (λ v' known cold clean. absurd (cold refl))))

  -- The caller writes bytes that stand for what the page holds already.
  pub set_bytes_same :
      (m : Memory)
      → ((v : A) → ghost p ≡ some v → Rep m v)
      → InPlace w Rep s p ghost hot (pins s p) (set_bytes s f m)
  unfolding set_bytes
  set_bytes_same m rep =
      let page = record (s.frames f) { bytes = m } in
      let e = set_frame-Changed s t f page in
      let s' = set_frame s f page in
      let same : page.pin_count ≡ pins s p = sym (pins-some s p f here) in
      rw (← same) (
        changed-InPlace page (t.named p f here) s' e ghost hot (
          changed-IsContents s t p f here page (t.named p f here) s' e w Rep ghost ghost hot hot c
            (λ q ne. refl) (λ q ne cold. cold) rep
            (λ v known cold clean. c.stored p v known cold (clean_frame s p f here clean))))

-- The page as `unpin_page` leaves it.
unpinned : Page → Bool → Page
unpinned page dirty = dec_pin_count (if dirty then set_dirty page true else page)

unpinned_fields :
    (page : Page) (dirty : Bool)
    → 0 < page.pin_count
    → page.pin_count < 2 ^ 32
    → ((unpinned page dirty).page_id ≡ page.page_id)
      × ((unpinned page dirty).bytes ≡ page.bytes)
      × ((unpinned page dirty).pin_count ≡ page.pin_count - 1)
unfolding unpinned dec_pin_count set_dirty
unpinned_fields page true lo hi = (refl, refl, omega arith)
unpinned_fields page false lo hi = (refl, refl, omega arith)

unpin_eq :
    {F : Type 0} (s : BufferPoolManager F) (p f : ℕ) (dirty : Bool)
    → s.page_table p ≡ some f
    → unpin_page s p dirty ≡ set_frame s f (unpinned (s.frames f) dirty)
unfolding unpin_page unpinned
unpin_eq s p f dirty here = ground arith

module _ {F A : Type 0} {files : Files F} (w : Lawful files) (Rep : Memory → A → Type 0)
    (s : BufferPoolManager F) (t : IsTables s) (p f : ℕ) (here : s.page_table p ≡ some f)
    (ghost : Ghost A) (lo : 0 < pins s p) (hi : pins s p < 2 ^ 32) where
  page' : Bool → Page
  page' dirty = unpinned (s.frames f) dirty

  fields :
      (dirty : Bool)
      → ((page' dirty).page_id ≡ p)
        × ((page' dirty).bytes ≡ (s.frames f).bytes)
        × ((page' dirty).pin_count ≡ pins s p - 1)
  unfolding page'
  fields dirty =
      let n = pins-some s p f here in
      let (id, bytes, count) =
        unpinned_fields (s.frames f) dirty (omega (arith, n)) (omega (arith, n)) in
      (id ∙ t.named p f here, bytes, omega (arith, n, count))

  unpinned-InPlace :
      (dirty : Bool) (hot : Option ℕ)
      → IsContents w Rep s ghost hot
      → IsContents w Rep (set_frame s f (page' dirty)) ghost none
      → InPlace w Rep s p ghost none (pins s p - 1) (unpin_page s p dirty)
  unfolding page'
  unpinned-InPlace dirty hot c c' =
      let (id, bytes, count) = fields dirty in
      rw (unpin_eq s p f dirty here, ← count)
        (changed-InPlace w Rep s t p f here ghost hot c (page' dirty) id
          (set_frame s f (page' dirty)) (set_frame-Changed s t f (page' dirty)) ghost none c')

  -- `unpin_page` of a page that the caller changed, marked dirty.
  pub unpin_dirty :
      (hot : Option ℕ)
      → IsContents w Rep s ghost hot
      → ((q : ℕ) → q ≢ p → hot ≢ some q)
      → InPlace w Rep s p ghost none (pins s p - 1) (unpin_page s p true)
  unfolding page' unpinned dec_pin_count set_dirty
  unpin_dirty hot c only =
      let (id, bytes, count) = fields true in
      unpinned-InPlace true hot c (
        changed-IsContents s t p f here (page' true) id (set_frame s f (page' true))
          (set_frame-Changed s t f (page' true)) w Rep ghost ghost hot none c (λ q ne. refl)
          (λ q ne cold. only q ne) (λ v known. rw bytes (c.cached p f v here known))
          (λ v known cold clean. absurd (true_ne_false clean)))

  -- `unpin_page` of a page that is not marked.
  pub unpin_clean :
      IsContents w Rep s ghost none
      → InPlace w Rep s p ghost none (pins s p - 1) (unpin_page s p false)
  unfolding page' unpinned dec_pin_count set_dirty
  unpin_clean c =
      let (id, bytes, count) = fields false in
      unpinned-InPlace false none c (
        changed-IsContents s t p f here (page' false) id (set_frame s f (page' false))
          (set_frame-Changed s t f (page' false)) w Rep ghost ghost none none c (λ q ne. refl)
          (λ q ne cold. cold) (λ v known. rw bytes (c.cached p f v here known))
          (λ v known cold clean. c.stored p v known cold (clean_frame s p f here clean)))
