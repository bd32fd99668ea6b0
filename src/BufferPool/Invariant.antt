-- ===== src/BufferPool/Invariant.antt =====
-- What holds between the calls: the tables agree with the frames, and the copies of a page with what
-- the page is to hold.
use simple_duck_dbms.Base.{
  ℕ, ◌*◌, ◌^◌, ◌<◌, ◌≡◌, ◌≢◌, true, false, Option, none, some, arith, ◌==◌, if◌then◌else◌,
}
use simple_duck_dbms.Memory.{Memory, read_bytes, write_bytes}
use simple_duck_dbms.Replacer.{invalid_page_id}
use simple_duck_dbms.Replacer.Order.{IsReplacer}
use simple_duck_dbms.DiskManager.{Files, page_size}
use simple_duck_dbms.DiskManager.Allocation.{is_free, in_use, distinct, IsDisk}
use simple_duck_dbms.DiskManager.File.{Lawful}
use simple_duck_dbms.DiskManager.Pages.{Blank}
use simple_duck_dbms.BufferPool.{BufferPoolManager}

-- The tables: a frame that the page table names holds that page, which is in use; a frame that holds
-- a page is in the page table; the free frames are below `pool_size`, and hold none; the replacer
-- knows each cached page.
pub record IsTables {F : Type 0} (s : BufferPoolManager F) : Type 0 where
  pub disk : IsDisk s.disk_manager
  pub small : s.disk_manager.capacity < 2 ^ 32
  pub framed : (p f : ℕ) → s.page_table p ≡ some f → f < s.pool_size
  pub named : (p f : ℕ) → s.page_table p ≡ some f → (s.frames f).page_id ≡ p
  pub used : (p f : ℕ) → s.page_table p ≡ some f → in_use s.disk_manager p ≡ true
  pub listed :
      (f : ℕ) → (s.frames f).page_id ≢ invalid_page_id → s.page_table (s.frames f).page_id ≡ some f
  pub clean_free : (f : ℕ) → (s.frames f).page_id ≡ invalid_page_id → (s.frames f).is_dirty ≡ false
  pub free_below : (f : ℕ) → is_free s.free_frames f ≡ true → f < s.pool_size
  pub free_empty : (f : ℕ) → is_free s.free_frames f ≡ true → (s.frames f).page_id ≡ invalid_page_id
  pub free_once : distinct s.free_frames ≡ true
  pub order : IsReplacer s.replacer
  pub recorded : (p f : ℕ) → s.page_table p ≡ some f → s.replacer.positions p ≢ none

-- How often a page is pinned.
unfoldable pub pins : {F : Type 0} → BufferPoolManager F → ℕ → ℕ
pins s p = elim (s.page_table p) [ none ↦ 0 | some f ↦ (s.frames f).pin_count ]

module _ {F : Type 0} (s : BufferPoolManager F) (p : ℕ) where
  pub pins-some : (f : ℕ) → s.page_table p ≡ some f → pins s p ≡ (s.frames f).pin_count
  unfolding pins
  pins-some f e = rw (e, pins)

  pub pins-none : s.page_table p ≡ none → pins s p ≡ 0
  unfolding pins
  pins-none e = rw (e, pins)

-- The memory of a frame that a page of the file was read into.
unfoldable pub clip : Memory → Memory
clip m = write_bytes (λ _. 0) 0 (read_bytes m 0 page_size)

unfoldable pub disk_page : {F : Type 0} {files : Files F} → Lawful files → F → ℕ → Memory
disk_page w f p = write_bytes (λ _. 0) 0 (read_bytes (w.cell f) (p * page_size) page_size)

-- What pages are to hold, `none` for a page of which nothing is promised.
abbrev pub Ghost : Type 0 → Type 0
Ghost A = ℕ → Option A

unfoldable pub updated : {A : Type 0} → Ghost A → ℕ → Option A → Ghost A
updated ghost p v q = if q == p then v else ghost q

pub updated_known :
    {A : Type 0} (ghost : Ghost A) (p q : ℕ) (v : A)
    → updated ghost p none q ≡ some v
    → (q ≢ p) × (ghost q ≡ some v)
unfolding updated
updated_known ghost p q v known = ground arith

-- Each copy of a page represents what the page is to hold, by `Rep`: the cached one, and the one
-- on the disk where the cached one is not dirty. The page `hot` was changed, and is not marked yet.
pub record IsContents {F A : Type 0} {files : Files F} (w : Lawful files)
    (Rep : Memory → A → Type 0) (s : BufferPoolManager F) (ghost : Ghost A) (hot : Option ℕ)
    : Type 0 where
  pub blank : Blank files w s.file
  pub tracked : (p : ℕ) (v : A) → ghost p ≡ some v → in_use s.disk_manager p ≡ true
  pub cached :
      (p f : ℕ) (v : A) → s.page_table p ≡ some f → ghost p ≡ some v → Rep (s.frames f).bytes v
  pub stored :
      (p : ℕ) (v : A)
      → ghost p ≡ some v
      → hot ≢ some p
      → ((f : ℕ) → s.page_table p ≡ some f → (s.frames f).is_dirty ≡ false)
      → Rep (disk_page w s.file p) v

-- The pages that are pinned stay where they are, as they are, but for `p`.
pub record Keeps {F : Type 0} (p : ℕ) (s s' : BufferPoolManager F) : Type 0 where
  pub place : (q g : ℕ) → q ≢ p → s.page_table q ≡ some g → pins s q ≢ 0 → s'.page_table q ≡ some g
  pub same : (q g : ℕ) → q ≢ p → s.page_table q ≡ some g → pins s q ≢ 0 → s'.frames g ≡ s.frames g
