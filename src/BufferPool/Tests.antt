-- ===== src/BufferPool/Tests.antt =====
-- An empty pool of two frames, over a file in which page 3 is an empty slotted page.
use simple_duck_dbms.Base.{
  ◌≢◌, ℕ, zero, suc, ◌+◌, ◌-◌, ◌^◌, ◌<◌, ◌≡◌, refl, sym, subst, arith, true, false, none, some,
  if◌then◌else◌, ltb, ◌==◌, ok, eq_or_ne, inl, inr, some-injective,
}
use simple_duck_dbms.Memory.{Memory, read_bytes, write_bytes}
use simple_duck_dbms.Replacer.{no_pages, record_page, invalid_page_id}
use simple_duck_dbms.Replacer.Recent.{
  no_pages-IsReplacer, recorded-IsReplacer, positions-record_page_self,
}
use simple_duck_dbms.DiskManager.{allocate_page}
use simple_duck_dbms.DiskManager.Allocation.{in_use, is_free, distinct}
use simple_duck_dbms.DiskManager.Tests.{
  four_pages, four_pages-IsDisk, page_three-in_use, plain_files, plain_laws,
}
use simple_duck_dbms.SlottedPage.{init}
use simple_duck_dbms.TableHeap.PageView.{PageView, Shows}
use simple_duck_dbms.TableHeap.PageBytes.{clip-Shows, new_view, init-Shows}
use simple_duck_dbms.BufferPool.{
  BufferPoolManager, make, reset_memory, fetch_page, new_page, flush_all,
}
use simple_duck_dbms.BufferPool.Invariant.{
  IsTables, IsContents, Ghost, updated, clip, disk_page, pins, pins-none,
}
use simple_duck_dbms.BufferPool.Interface.{PoolLaws}
use simple_duck_dbms.BufferPool.Laws.{pool, IsPool, view, pool-PoolLaws}
use simple_duck_dbms.BufferPool.Fetch.{Fetched}
use simple_duck_dbms.BufferPool.Pin.{fetch_page-Fetched, new_page-Fetched}
use simple_duck_dbms.BufferPool.Flush.{flush_all-Flushed}

abbrev pub empty_page : Memory
empty_page = init (λ _. 0)

-- Page 3 of the file.
abbrev pub paged_file : Memory × ℕ
paged_file =
    (λ x. if ltb x 24576 then 0 else if ltb x 32768 then empty_page (x - 24576) else 0, 32768)

abbrev pub two_frames : BufferPoolManager (Memory × ℕ)
two_frames = make four_pages paged_file 2

abbrev pub page_three : Ghost PageView
page_three p = if p == 3 then some new_view else none

read_bytes_shift :
    (m m' : Memory) (a b n : ℕ)
    → ((i x y : ℕ) → i < n → x ≡ a + i → y ≡ b + i → m x ≡ m' y)
    → read_bytes m a n ≡ read_bytes m' b n
unfolding read_bytes
read_bytes_shift m m' a b zero h = refl
read_bytes_shift m m' a b (suc n) h =
    rw
      (
        h 0 a b (omega arith) (omega arith) (omega arith),
        read_bytes_shift m m' (a + 1) (b + 1) n
            (λ i x y lt ex ey. h (suc i) x y (omega arith) (omega arith) (omega arith)),
      )
      refl

page_three-Shows : Shows (disk_page plain_laws paged_file 3) new_view
unfolding disk_page clip
page_three-Shows =
    subst (λ bs. Shows (write_bytes (λ _. 0) 0 bs) new_view)
      (sym (
        read_bytes_shift paged_file.0 empty_page 24576 0 8192 (λ i x y lt ex ey.
          let at : x - 24576 ≡ y = omega arith in
          subst (λ z. paged_file.0 x ≡ empty_page z) at (ground arith))))
      (clip-Shows empty_page new_view (init-Shows (λ _. 0) (λ x. omega arith)))

page_three_known : (p : ℕ) (v : PageView) → page_three p ≡ some v → (p ≡ 3) × (new_view ≡ v)
page_three_known p v known = elim (eq_or_ne p 3) [
  | inl e ↦ (e, some-injective new_view v (ground (arith, known)))
  | inr ne ↦ absurd (ground (arith, known))
]

two_frames-IsTables : IsTables two_frames
unfolding make is_free distinct reset_memory
two_frames-IsTables = record {
  disk = four_pages-IsDisk;
  small = omega arith;
  framed = λ p f h. cc;
  named = λ p f h. cc;
  used = λ p f h. cc;
  listed = λ f ne. absurd (ne refl);
  clean_free = λ f h. refl;
  free_below = λ f h. cc;
  free_empty = λ f h. cc;
  free_once = refl;
  order = no_pages-IsReplacer;
  recorded = λ p f h. cc;
}

two_frames-IsContents : IsContents plain_laws Shows two_frames page_three none
unfolding make
two_frames-IsContents = record {
  blank = λ x past. ground arith;
  tracked = λ p v known.
      subst (λ q. in_use four_pages q ≡ true) (sym (page_three_known p v known).0)
        page_three-in_use;
  cached = λ p f v h. cc;
  stored = λ p v known cold clean.
      let (here, shown) = page_three_known p v known in
      subst (λ q. Shows (disk_page plain_laws paged_file q) v) (sym here)
        (subst (Shows (disk_page plain_laws paged_file 3)) shown page_three-Shows);
}

pub two_frames-IsPool : IsPool plain_files plain_laws Shows two_frames page_three none
two_frames-IsPool = record { tables = two_frames-IsTables; contents = two_frames-IsContents }

pub none_pinned : (p : ℕ) → pins two_frames p ≡ 0
unfolding make
none_pinned p = pins-none two_frames p refl

fetch_page-Fetched_example :
    Fetched plain_laws Shows two_frames 3 page_three page_three none two_frames.disk_manager false
      (fetch_page plain_files two_frames 3)
unfolding make
fetch_page-Fetched_example =
    fetch_page-Fetched plain_files plain_laws Shows clip-Shows two_frames 3 page_three
      two_frames-IsTables two_frames-IsContents page_three-in_use
      (subst (λ n. n + 1 < 2 ^ 32) (sym (none_pinned 3)) (omega arith))

new_page-Fetched_example :
    let (p, d) = allocate_page four_pages in
    (in_use four_pages p ≡ false)
    × Fetched plain_laws Shows two_frames p page_three
        (updated page_three p none)
        none
        d
        true
        (new_page plain_files two_frames)
unfolding make
new_page-Fetched_example =
    new_page-Fetched plain_files plain_laws Shows clip-Shows two_frames page_three
      two_frames-IsTables two_frames-IsContents (omega arith)

flush_all-Flushed_example :
    (file : Memory × ℕ) × (flush_all plain_files two_frames
      ≡ ok (record two_frames { file = file }))
    × ((p : ℕ) (v : PageView) → page_three p ≡ some v → Shows (disk_page plain_laws file p) v)
    × IsContents plain_laws Shows (record two_frames { file = file }) page_three none
flush_all-Flushed_example =
    flush_all-Flushed plain_files plain_laws Shows clip-Shows two_frames two_frames-IsTables
      page_three two_frames-IsContents

pool-PoolLaws_example : PoolLaws (pool plain_files) (view plain_files plain_laws Shows) Shows
pool-PoolLaws_example = pool-PoolLaws plain_files plain_laws Shows clip-Shows

-- The pool with page 3 in frame 0, pinned once.
abbrev pub page_three_fetched : BufferPoolManager (Memory × ℕ)
page_three_fetched = record two_frames {
  pool_size = 1;
  frames = λ f.
      if f == 0
      then record { page_id = 3; bytes = empty_page; pin_count = 1; is_dirty = false }
      else reset_memory invalid_page_id;
  page_table = λ p. if p == 3 then some 0 else none;
  replacer = record_page no_pages 3;
}

page_three_fetched-IsTables : IsTables page_three_fetched
unfolding make is_free distinct reset_memory
page_three_fetched-IsTables = record {
  disk = four_pages-IsDisk;
  small = omega arith;
  framed = λ p f h. ground (arith, h);
  named = λ p f h. ground (arith, h);
  used = λ p f h. subst (λ q. in_use four_pages q ≡ true) (ground (arith, h)) page_three-in_use;
  listed = λ f ne. ground (arith, ne);
  clean_free = λ f h. ground (arith, h);
  free_below = λ f h. cc;
  free_empty = λ f h. cc;
  free_once = refl;
  order = recorded-IsReplacer no_pages 3 no_pages-IsReplacer;
  recorded = λ p f h.
      subst (λ q. (record_page no_pages 3).positions q ≢ none) (ground (arith, h))
        (positions-record_page_self no_pages 3);
}

page_three_fetched-IsContents : IsContents plain_laws Shows page_three_fetched page_three none
unfolding make
page_three_fetched-IsContents = record {
  blank = two_frames-IsContents.blank;
  tracked = two_frames-IsContents.tracked;
  cached = λ p f v h known.
      let at : 0 ≡ f = ground (arith, h) in
      subst (λ g. Shows (page_three_fetched.frames g).bytes v) at
        (subst (Shows empty_page) (page_three_known p v known).1
          (init-Shows (λ _. 0) (λ x. omega arith)));
  stored = λ p v known cold clean.
      let (here, shown) = page_three_known p v known in
      subst (λ q. Shows (disk_page plain_laws paged_file q) v) (sym here)
        (subst (Shows (disk_page plain_laws paged_file 3)) shown page_three-Shows);
}

pub page_three_fetched-IsPool :
    IsPool plain_files plain_laws Shows page_three_fetched page_three none
page_three_fetched-IsPool = record {
  tables = page_three_fetched-IsTables;
  contents = page_three_fetched-IsContents;
}

pub page_three_fetched-pins : (p : ℕ) → pins page_three_fetched p ≡ 0 + (if p == 3 then 1 else 0)
unfolding make pins
page_three_fetched-pins p = elim (eq_or_ne p 3) [ inl e ↦ rw e refl | inr ne ↦ ground (arith, ne) ]
