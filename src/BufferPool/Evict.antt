-- ===== src/BufferPool/Evict.antt =====
-- The page that leaves a frame: out of the tables, and to the disk if it is dirty.
use simple_duck_dbms.Base.{
  ℕ, ◌*◌, ◌≡◌, ◌≢◌, inl, inr, refl, sym, ap, subst, ◌∙◌, arith, true, false, Option, none, some,
  Result, ok, ◌==◌, if◌then◌else◌, Bool-cases, eq_or_ne,
}
use simple_duck_dbms.Memory.{Memory, read_bytes, write_bytes}
use simple_duck_dbms.Memory.Frames.{length-read_bytes}
use simple_duck_dbms.Replacer.{invalid_page_id}
use simple_duck_dbms.Replacer.Order.{IsReplacer}
use simple_duck_dbms.Replacer.Recent.{removed-IsReplacer, positions-remove}
use simple_duck_dbms.DiskManager.{Files, page_size, write_page}
use simple_duck_dbms.DiskManager.Allocation.{used_facts}
use simple_duck_dbms.DiskManager.File.{Lawful}
use simple_duck_dbms.DiskManager.Pages.{PageWritten, write_page-PageWritten}
use simple_duck_dbms.BufferPool.{
  Page, BufferPoolManager, erase_table, remove_use, unlink, flush_page, evict,
}
use simple_duck_dbms.BufferPool.Invariant.{IsTables, IsContents, Ghost, clip, disk_page}
use simple_duck_dbms.BufferPool.Frames.{unnamed}

-- The tables no longer name the frame `f`; all else is as before.
pub record Unlinked {F : Type 0} (s : BufferPoolManager F) (f : ℕ) (s' : BufferPoolManager F)
    : Type 0 where
  pub frames : s'.frames ≡ s.frames
  pub disk_manager : s'.disk_manager ≡ s.disk_manager
  pub pool_size : s'.pool_size ≡ s.pool_size
  pub free_frames : s'.free_frames ≡ s.free_frames
  pub kept : (q g : ℕ) → s'.page_table q ≡ some g → (s.page_table q ≡ some g) × (g ≢ f)
  pub left : (q g : ℕ) → s.page_table q ≡ some g → g ≢ f → s'.page_table q ≡ some g
  pub order : IsReplacer s'.replacer
  pub recorded : (q g : ℕ) → s'.page_table q ≡ some g → s'.replacer.positions q ≢ none

pub true_ne_false : true ≢ false
true_ne_false e = cc

pub erased :
    (table : ℕ → Option ℕ) (page q g : ℕ)
    → (if q == page then none else table q) ≡ some g
    → (q ≢ page) × (table q ≡ some g)
erased table page q g h = ground arith

module _ {F : Type 0} (s : BufferPoolManager F) (t : IsTables s) (f : ℕ) where
  unlinked :
      (page : ℕ)
      → page ≡ (s.frames f).page_id
      → page ≢ invalid_page_id
      → Unlinked s f (remove_use (erase_table s page) page)
  unfolding remove_use erase_table
  unlinked page e valid =
      let here : s.page_table page ≡ some f = rw e (t.listed f (λ q. valid (e ∙ q))) in
      record {
        frames = refl;
        disk_manager = refl;
        pool_size = refl;
        free_frames = refl;
        kept = λ q g h.
            let (ne, old) = erased s.page_table page q g h in
            (old, λ z. ne (sym (t.named q f (old ∙ ap some z)) ∙ sym e));
        left = λ q g h ne. ground arith;
        order = removed-IsReplacer s.replacer page t.order;
        recorded = λ q g h z.
            let (ne, old) = erased s.page_table page q g h in
            t.recorded q g old (ground (arith, positions-remove s.replacer page q));
      }

  pub unlink-Unlinked : Unlinked s f (unlink s (s.frames f))
  unfolding unlink
  unlink-Unlinked = elim (Bool-cases ((s.frames f).page_id == invalid_page_id)) [
    | inr h ↦ rw (h, unlink) (unlinked (s.frames f).page_id refl (ground arith))
    | inl h ↦
        let empty : (s.frames f).page_id ≡ invalid_page_id = ground arith in
        rw (h, unlink)
          (record {
            frames = refl;
            disk_manager = refl;
            pool_size = refl;
            free_frames = refl;
            kept = λ q g e. (e, λ z. unnamed s t f q empty (e ∙ ap some z));
            left = λ q g e ne. e;
            order = t.order;
            recorded = t.recorded;
          })
  ]

module _ {F A : Type 0} {files : Files F} (w : Lawful files) (Rep : Memory → A → Type 0)
    (clips : (m : Memory) (v : A) → Rep m v → Rep (clip m) v) (s : BufferPoolManager F)
    (t : IsTables s) (f : ℕ) (ghost : Ghost A) (c : IsContents w Rep s ghost none)
    (s' : BufferPoolManager F) (u : Unlinked s f s') (file : s'.file ≡ s.file) where
  -- The page of the frame was clean.
  clean-IsContents : (s.frames f).is_dirty ≡ false → IsContents w Rep s' ghost none
  clean-IsContents clean = record {
    blank = rw file c.blank;
    tracked = λ p v e. rw u.disk_manager (c.tracked p v e);
    cached = λ p g v h e. rw u.frames (c.cached p g v (u.kept p g h).0 e);
    stored = λ p v e cold not_dirty. rw file (
        c.stored p v e cold (λ g h. elim (eq_or_ne g f) [
          | inl q ↦ rw q clean
          | inr ne ↦ sym (ap (λ fr. (fr g).is_dirty) u.frames) ∙ not_dirty g (u.left p g h ne)
        ]));
  }

  -- The page of the frame was dirty and is written.
  dirty-IsContents :
      (f' : F)
      → s.page_table (s.frames f).page_id ≡ some f
      → PageWritten files w s.file
          (s.frames f).page_id
          (read_bytes (s.frames f).bytes 0 page_size)
          f'
      → IsContents w Rep (record s' { file = f' }) ghost none
  unfolding disk_page clip
  dirty-IsContents f' here wrote = record {
    blank = wrote.still_blank;
    tracked = λ p v e. rw u.disk_manager (c.tracked p v e);
    cached = λ p g v h e. rw u.frames (c.cached p g v (u.kept p g h).0 e);
    stored = λ p v e cold not_dirty. elim (eq_or_ne p (s.frames f).page_id) [
      | inl q ↦
          subst (λ bs. Rep (write_bytes (λ _. 0) 0 bs) v)
            (sym (ap (λ r. read_bytes (w.cell f') (r * 8192) 8192) q ∙ wrote.self))
            (clips (s.frames f).bytes v (c.cached p f v (rw q here) e))
      | inr ne ↦
          subst (λ bs. Rep (write_bytes (λ _. 0) 0 bs) v) (sym (wrote.others p ne))
            (c.stored p v e cold (λ g h.
              sym (ap (λ fr. (fr g).is_dirty) u.frames)
              ∙ not_dirty g (
                  u.left p g h (λ z. ne (sym (t.named p g h) ∙ ap (λ k. (s.frames k).page_id) z)))))
    ];
  }

-- The tables do not depend on the file.
refiled :
    {F : Type 0} (s : BufferPoolManager F) (f : ℕ) (s' : BufferPoolManager F)
    → Unlinked s f s'
    → (file : F) → Unlinked s f (record s' { file = file })
refiled s f s' u file = record {
  frames = u.frames;
  disk_manager = u.disk_manager;
  pool_size = u.pool_size;
  free_frames = u.free_frames;
  kept = u.kept;
  left = u.left;
  order = u.order;
  recorded = u.recorded;
}

evict_clean :
    {F : Type 0} (files : Files F) (s : BufferPoolManager F) (page : Page)
    → page.is_dirty ≡ false
    → evict files s page ≡ ok (unlink s page)
unfolding evict
evict_clean files s page clean = ground arith

evict_dirty :
    {F : Type 0} (files : Files F) (s : BufferPoolManager F) (page : Page) (file : F)
    → page.is_dirty ≡ true
    → write_page files
        (unlink s page).disk_manager
        (unlink s page).file
        page.page_id
        (read_bytes page.bytes 0 8192)
      ≡ ok file
    → evict files s page ≡ ok (record (unlink s page) { file = file })
unfolding evict flush_page
evict_dirty files s page file dirty wrote = ground arith

-- `evict`, on a file on which no call fails, succeeds: the frame is in no table, and what the other
-- pages and this one are to hold is in a frame or on the disk.
pub record Evicted {F A : Type 0} {files : Files F} (w : Lawful files) (Rep : Memory → A → Type 0)
    (ghost : Ghost A) (s : BufferPoolManager F) (f : ℕ) (r : Result (BufferPoolManager F))
    : Type 0 where
  pub s' : BufferPoolManager F
  pub returned : r ≡ ok s'
  pub unlinked : Unlinked s f s'
  pub contents : IsContents w Rep s' ghost none

module _ {F A : Type 0} (files : Files F) (w : Lawful files) (Rep : Memory → A → Type 0)
    (clips : (m : Memory) (v : A) → Rep m v → Rep (clip m) v) (s : BufferPoolManager F)
    (t : IsTables s) (f : ℕ) (ghost : Ghost A) (c : IsContents w Rep s ghost none) where
  unlinked_file : (page : Page) → (unlink s page).file ≡ s.file
  unfolding unlink remove_use erase_table
  unlinked_file page = ground arith

  unlinked_disk : (page : Page) → (unlink s page).disk_manager ≡ s.disk_manager
  unfolding unlink remove_use erase_table
  unlinked_disk page = ground arith

  dirty_page : (s.frames f).is_dirty ≡ true → s.page_table (s.frames f).page_id ≡ some f
  dirty_page dirty = t.listed f (λ e. true_ne_false (sym dirty ∙ t.clean_free f e))

  written_page : (s.frames f).is_dirty ≡ true → Evicted w Rep ghost s f (evict files s (s.frames f))
  written_page dirty =
      let here = dirty_page dirty in
      let u = unlink-Unlinked s t f in
      let below =
        (used_facts s.disk_manager (s.frames f).page_id (t.used (s.frames f).page_id f here)).0 in
      let (f', wrote, written) =
        write_page-PageWritten files w s.disk_manager s.file (s.frames f).page_id
          (read_bytes (s.frames f).bytes 0 8192) (length-read_bytes (s.frames f).bytes 0 8192)
          c.blank below in
      record {
        s' = record (unlink s (s.frames f)) { file = f' };
        returned =
            evict_dirty files s (s.frames f) f' dirty
              (rw (unlinked_file (s.frames f), unlinked_disk (s.frames f)) wrote);
        unlinked = refiled s f (unlink s (s.frames f)) u f';
        contents =
            dirty-IsContents w Rep clips s t f ghost c (unlink s (s.frames f)) u
              (unlinked_file (s.frames f)) f' here written;
      }

  pub evict-Evicted : Evicted w Rep ghost s f (evict files s (s.frames f))
  evict-Evicted = elim (Bool-cases (s.frames f).is_dirty) [
    | inl dirty ↦ written_page dirty
    | inr clean ↦ record {
      s' = unlink s (s.frames f);
      returned = evict_clean files s (s.frames f) clean;
      unlinked = unlink-Unlinked s t f;
      contents =
          clean-IsContents w Rep clips s t f ghost c (unlink s (s.frames f)) (unlink-Unlinked s t f)
            (unlinked_file (s.frames f)) clean;
    }
  ]
