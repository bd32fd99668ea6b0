-- ===== src/BufferPool/Flush.antt =====
-- `flush_all`: what the pages are to hold is on the disk afterwards.
use simple_duck_dbms.Base.{
  ℕ, zero, suc, ◌+◌, ◌*◌, ◌<◌, ◌≡◌, inl, inr, refl, sym, ap, subst, ◌∙◌, arith, true, false, none,
  some, Result, ok, Bool-cases, eq_or_ne,
}
use simple_duck_dbms.Memory.{Memory, read_bytes, write_bytes}
use simple_duck_dbms.Memory.Frames.{length-read_bytes}
use simple_duck_dbms.DiskManager.{Files, write_page}
use simple_duck_dbms.DiskManager.Allocation.{used_facts}
use simple_duck_dbms.DiskManager.File.{Lawful}
use simple_duck_dbms.DiskManager.Pages.{Blank, PageWritten, write_page-PageWritten}
use simple_duck_dbms.BufferPool.{BufferPoolManager, flush_page, flush_from, flush_all}
use simple_duck_dbms.BufferPool.Invariant.{IsTables, IsContents, Ghost, clip, disk_page}
use simple_duck_dbms.BufferPool.Evict.{true_ne_false}

module _ {F A : Type 0} {files : Files F} (w : Lawful files) (Rep : Memory → A → Type 0)
    (s : BufferPoolManager F) (ghost : Ghost A) where
  -- The file after the frames below `k` were written: what a page is to hold is on the disk where
  -- its frame is one of those, or clean, or there is none.
  pub record Saved (k : ℕ) (file : F) : Type 0 where
    pub blank : Blank files w file
    pub saved :
        (p : ℕ) (v : A)
        → ghost p ≡ some v
        → ((g : ℕ) → s.page_table p ≡ some g → (s.frames g).is_dirty ≡ true → g < k)
        → Rep (disk_page w file p) v

module _ {F A : Type 0} (files : Files F) (w : Lawful files) (Rep : Memory → A → Type 0)
    (clips : (m : Memory) (v : A) → Rep m v → Rep (clip m) v) (s : BufferPoolManager F)
    (t : IsTables s) (ghost : Ghost A) (c : IsContents w Rep s ghost none) where
  none-Saved : Saved w Rep s ghost 0 s.file
  none-Saved = record {
    blank = c.blank;
    saved = λ p v known all.
        c.stored p v known (λ z. cc)
          (λ g h. elim (Bool-cases (s.frames g).is_dirty) [
            | inl dirty ↦ absurd (omega (arith, all g h dirty))
            | inr clean ↦ clean
          ]);
  }

  clean-Saved :
      (k : ℕ) (file : F)
      → (s.frames k).is_dirty ≡ false
      → Saved w Rep s ghost k file
      → Saved w Rep s ghost (k + 1) file
  clean-Saved k file clean sv = record {
    blank = sv.blank;
    saved = λ p v known all. sv.saved p v known (λ g h dirty. elim (eq_or_ne g k) [
      | inl z ↦ absurd (true_ne_false (sym dirty ∙ ap (λ j. (s.frames j).is_dirty) z ∙ clean))
      | inr ne ↦ omega (arith, all g h dirty)
    ]);
  }

  written-Saved :
      (k : ℕ) (file file' : F)
      → s.page_table (s.frames k).page_id ≡ some k
      → PageWritten files w file (s.frames k).page_id (read_bytes (s.frames k).bytes 0 8192) file'
      → Saved w Rep s ghost k file
      → Saved w Rep s ghost (k + 1) file'
  unfolding disk_page clip
  written-Saved k file file' here wrote sv = record {
    blank = wrote.still_blank;
    saved = λ p v known all. elim (eq_or_ne p (s.frames k).page_id) [
      | inl z ↦
          subst (λ bs. Rep (write_bytes (λ _. 0) 0 bs) v)
            (sym (ap (λ r. read_bytes (w.cell file') (r * 8192) 8192) z ∙ wrote.self))
            (clips (s.frames k).bytes v (c.cached p k v (ap s.page_table z ∙ here) known))
      | inr ne ↦
          subst (λ bs. Rep (write_bytes (λ _. 0) 0 bs) v) (sym (wrote.others p ne))
            (sv.saved p v known (λ g h dirty. elim (eq_or_ne g k) [
              | inl z ↦ absurd (ne (sym (t.named p g h) ∙ ap (λ j. (s.frames j).page_id) z))
              | inr other ↦ omega (arith, all g h dirty)
            ]))
    ];
  }

  -- The loop from frame `k` on.
  pub record Flushed (r : Result (BufferPoolManager F)) (k : ℕ) : Type 0 where
    pub file : F
    pub returned : r ≡ ok (record s { file = file })
    pub saved : Saved w Rep s ghost k file

  step_clean :
      (k n : ℕ) (file : F)
      → (s.frames k).is_dirty ≡ false
      → flush_from files (record s { file = file }) k (suc n)
        ≡ flush_from files (record s { file = file }) (k + 1) n
  unfolding flush_from
  step_clean k n file clean = rw clean refl

  step_dirty :
      (k n : ℕ) (file file' : F)
      → (s.frames k).is_dirty ≡ true
      → write_page files s.disk_manager file
          (s.frames k).page_id
          (read_bytes (s.frames k).bytes 0 8192)
        ≡ ok file'
      → flush_from files (record s { file = file }) k (suc n)
        ≡ flush_from files (record s { file = file' }) (k + 1) n
  unfolding flush_from flush_page
  step_dirty k n file file' dirty wrote = rw (dirty, wrote) refl

  flush_from-Flushed :
      (k n m : ℕ) (file : F)
      → k + n ≡ m
      → Saved w Rep s ghost k file
      → Flushed (flush_from files (record s { file = file }) k n) m
  unfolding flush_from
  flush_from-Flushed k zero m file e sv =
      let e' : k ≡ m = omega arith in record { file = file; returned = refl; saved = rw (← e') sv }
  flush_from-Flushed k (suc n) m file e sv = elim (Bool-cases (s.frames k).is_dirty) [
    | inr clean ↦
        rw (step_clean k n file clean)
          (flush_from-Flushed (k + 1) n m file (omega arith) (clean-Saved k file clean sv))
    | inl dirty ↦
        let here = t.listed k (λ z. true_ne_false (sym dirty ∙ t.clean_free k z)) in
        let below =
          (used_facts s.disk_manager (s.frames k).page_id (t.used (s.frames k).page_id k here)).0 in
        let (file', wrote, written) =
          write_page-PageWritten files w s.disk_manager file (s.frames k).page_id
            (read_bytes (s.frames k).bytes 0 8192) (length-read_bytes (s.frames k).bytes 0 8192)
            sv.blank below in
        rw (step_dirty k n file file' dirty wrote) (
          flush_from-Flushed (k + 1) n m file' (omega arith)
            (written-Saved k file file' here written sv))
  ]

  -- After `flush_all`, in a well-formed pool whose file does not fail, the disk has of every page what
  -- it is to hold: it could be read back with no pool at all. Nothing but the file changes.
  pub flush_all-Flushed :
      (file : F) × (flush_all files s ≡ ok (record s { file = file }))
      × ((p : ℕ) (v : A) → ghost p ≡ some v → Rep (disk_page w file p) v)
      × IsContents w Rep (record s { file = file }) ghost none
  unfolding flush_all
  flush_all-Flushed =
      let r = flush_from-Flushed 0 s.pool_size s.pool_size s.file (omega arith) none-Saved in
      let all : (p : ℕ) (v : A) → ghost p ≡ some v → Rep (disk_page w r.file p) v =
        λ p v known. r.saved.saved p v known (λ g h dirty. t.framed p g h) in
      (
        r.file,
        r.returned,
        all,
        record {
          blank = r.saved.blank;
          tracked = c.tracked;
          cached = c.cached;
          stored = λ p v known cold clean. all p v known;
        },
      )
