-- ===== src/BufferPool/Fetch.antt =====
-- `fetch_page` and `new_page`.
use simple_duck_dbms.Base.{
  ℕ, ◌+◌, ◌≤◌, ◌<◌, ◌≡◌, ◌≢◌, refl, ap, ◌∙◌, arith, Bool, true, false, List, [], Option, none, some,
  Result, ok, ◌==◌,
}
use simple_duck_dbms.Memory.{Memory}
use simple_duck_dbms.DiskManager.{Files, DiskManager}
use simple_duck_dbms.DiskManager.Allocation.{is_free, in_use, used_facts}
use simple_duck_dbms.DiskManager.File.{Lawful}
use simple_duck_dbms.DiskManager.Pages.{Blank, read_page_cells}
use simple_duck_dbms.BufferPool.{
  BufferPoolManager, reset_memory, inc_pin_count, set_frame, set_table, record_use, find_next_frame,
  evict, install, load, swap_into, swap_page,
}
use simple_duck_dbms.BufferPool.Invariant.{
  IsTables, IsContents, Ghost, updated, pins, pins-none, clip, disk_page, Keeps,
}
use simple_duck_dbms.BufferPool.Frames.{
  NextFrame, all_pinned, next, grown, find_next_frame-NextFrame,
}
use simple_duck_dbms.BufferPool.Evict.{Evicted, evict-Evicted}
use simple_duck_dbms.BufferPool.Seat.{
  Seated, seated-IsTables, table_self, frame_self, pins_self, pins_ne, seated-Keeps,
  read-IsContents, new-IsContents,
}

-- Each frame is taken, by a page that is pinned.
pub record AllPinned {F : Type 0} (s : BufferPoolManager F) : Type 0 where
  pub none_free : s.free_frames ≡ []
  pub full : s.pool_capacity ≤ s.pool_size
  pub pinned : (p f : ℕ) → s.page_table p ≡ some f → (s.frames f).pin_count ≢ 0

-- What a call that asks for page `p` has done: nothing, where there is no frame to be had; or the
-- page is in a frame, pinned once more, the other pages are pinned as before, those that are
-- pinned stay as they are, and every page holds what it is to hold.
pub data Fetched {F A : Type 0} {files : Files F} (w : Lawful files) (Rep : Memory → A → Type 0)
    (s : BufferPoolManager F) (p : ℕ) (ghost ghost' : Ghost A) (hot : Option ℕ) (d : DiskManager)
    (fresh : Bool) : Result (Option ℕ × BufferPoolManager F) → Type 0 where
  no_frame :
      (s' : BufferPoolManager F)
      → AllPinned s
      → IsTables s'
      → IsContents w Rep s' ghost none
      → s'.frames ≡ s.frames
      → s'.page_table ≡ s.page_table
      → s'.disk_manager ≡ d
      → Fetched w Rep s p ghost ghost' hot d fresh (ok (none, s'))
  fetched :
      (f : ℕ) (s' : BufferPoolManager F)
      → IsTables s'
      → IsContents w Rep s' ghost' hot
      → s'.page_table p ≡ some f
      → pins s' p ≡ pins s p + 1
      → ((q : ℕ) → q ≢ p → pins s' q ≡ pins s q)
      → Keeps p s s'
      → s'.disk_manager ≡ d
      → (fresh ≡ true → (s'.frames f).bytes ≡ (λ _. 0))
      → Fetched w Rep s p ghost ghost' hot d fresh (ok (some f, s'))

module _ {F : Type 0} (files : Files F) (s : BufferPoolManager F) (p f : ℕ) where
  install-Seated : Seated s p f (λ _. 0) (install files s p f)
  unfolding install set_table set_frame record_use inc_pin_count reset_memory
  install-Seated = record {
    table = λ q. refl;
    frames = λ g. refl;
    disk_manager = refl;
    file = refl;
    pool_size = refl;
    free_frames = refl;
    replacer = refl;
  }

  -- The state after `load`.
  loaded : Memory → BufferPoolManager F
  loaded bytes =
      set_frame (install files s p f) f (record ((install files s p f).frames f) { bytes = bytes })

  loaded-Seated : (bytes : Memory) → Seated s p f bytes (loaded bytes)
  unfolding loaded install set_table set_frame record_use inc_pin_count reset_memory
  loaded-Seated bytes = record {
    table = λ q. refl;
    frames = λ g. ground arith;
    disk_manager = refl;
    file = refl;
    pool_size = refl;
    free_frames = refl;
    replacer = refl;
  }

  load_eq :
      (w : Lawful files)
      → Blank files w s.file
      → p < s.disk_manager.capacity
      → load files (install files s p f) p f ≡ ok (loaded (disk_page w s.file p))
  unfolding loaded load install set_table set_frame record_use inc_pin_count reset_memory disk_page
  load_eq w blank below =
      let read = read_page_cells files w s.disk_manager s.file p blank below in
      let self : (f == f) ≡ true = ground arith in rw (read, self) refl

module _ {F : Type 0} (s : BufferPoolManager F) (l : List ℕ) (n : ℕ) where
  grown-pins : (q : ℕ) → pins (grown s l n) q ≡ pins s q
  unfolding pins
  grown-pins q = refl

  grown-Keeps : (p : ℕ) (s' : BufferPoolManager F) → Keeps p (grown s l n) s' → Keeps p s s'
  unfolding pins
  grown-Keeps p s' k = record { place = k.place; same = k.same }

module _ {F A : Type 0} (files : Files F) (w : Lawful files) (Rep : Memory → A → Type 0)
    (clips : (m : Memory) (v : A) → Rep m v → Rep (clip m) v) where
  module _ (s : BufferPoolManager F) (p : ℕ) (ghost : Ghost A) (c : IsContents w Rep s ghost none)
      (absent : s.page_table p ≡ none) (use_p : in_use s.disk_manager p ≡ true) where
    module _ (f : ℕ) (l : List ℕ) (n : ℕ) (t : IsTables (grown s l n)) (room : f < n)
        (not_free : is_free l f ≡ false)
        (unpinned : (q : ℕ) → s.page_table q ≡ some f → (s.frames f).pin_count ≡ 0) where
      grown-IsContents : IsContents w Rep (grown s l n) ghost none
      grown-IsContents = record {
        blank = c.blank;
        tracked = c.tracked;
        cached = c.cached;
        stored = c.stored;
      }

      out : Evicted w Rep ghost (grown s l n) f (evict files (grown s l n) (s.frames f))
      out = evict-Evicted files w Rep clips (grown s l n) t f ghost grown-IsContents

      -- The page that was put into the frame.
      Seated-Fetched :
          (bytes : Memory) (s' : BufferPoolManager F) (ghost' : Ghost A) (hot : Option ℕ)
          → Seated out.s' p f bytes s'
          → IsContents w Rep s' ghost' hot
          → (fresh : Bool) → (fresh ≡ true → bytes ≡ (λ _. 0))
          → Fetched w Rep s p ghost ghost' hot s.disk_manager fresh (ok (some f, s'))
      Seated-Fetched bytes s' ghost' hot e c' fresh zeros =
          let g = grown s l n in
          let u = out.unlinked in
          fetched f s'
            (seated-IsTables g t f out.s' u p absent unpinned bytes s' e use_p room not_free) c'
            (table_self g t f out.s' u p absent unpinned bytes s' e)
            (omega
              (arith, pins_self g t f out.s' u p absent unpinned bytes s' e, pins-none s p absent))
            (λ q ne. pins_ne g t f out.s' u p absent unpinned bytes s' e q ne ∙ grown-pins s l n q)
            (grown-Keeps s l n p s' (seated-Keeps g t f out.s' u p absent unpinned bytes s' e))
            (e.disk_manager ∙ u.disk_manager)
            (λ is_new.
              ap (λ page. page.bytes) (frame_self g t f out.s' u p absent unpinned bytes s' e)
              ∙ zeros is_new)

      read_into :
          Fetched w Rep s p ghost ghost none s.disk_manager false
            (swap_into files (grown s l n) p f true)
      unfolding swap_into
      read_into =
          let g = grown s l n in
          let u = out.unlinked in
          let bytes = disk_page w out.s'.file p in
          let s' = loaded files out.s' p f bytes in
          let e = loaded-Seated files out.s' p f bytes in
          let below = (used_facts s.disk_manager p use_p).0 in
          rw (out.returned, load_eq files out.s' p f w out.contents.blank (rw u.disk_manager below))
            (Seated-Fetched bytes s' ghost none e
              (read-IsContents g t f out.s' u p absent unpinned bytes s' e w Rep ghost out.contents
                refl)
              false (λ e. cc))

      new_into :
          Fetched w Rep s p ghost
            (updated ghost p none)
            none
            s.disk_manager
            true
            (swap_into files (grown s l n) p f false)
      unfolding swap_into
      new_into =
          let g = grown s l n in
          let u = out.unlinked in
          let s' = install files out.s' p f in
          let e = install-Seated files out.s' p f in
          rw out.returned (
            Seated-Fetched (λ _. 0) s' (updated ghost p none) none e
              (new-IsContents g t f out.s' u p absent unpinned (λ _. 0) s' e w Rep ghost
                out.contents)
              true (λ e. refl))

    swap_frame :
        (found : Option ℕ × BufferPoolManager F)
        → IsTables s
        → NextFrame s found
        → Fetched w Rep s p ghost ghost none s.disk_manager false (elim found.0 [
          | none ↦ ok (none, found.1)
          | some frame_id ↦ swap_into files found.1 p frame_id true
        ])
    swap_frame found t (all_pinned none_free full pinned) =
        no_frame s (record { none_free = none_free; full = full; pinned = pinned }) t c refl refl
          refl
    swap_frame found t (next f l n g room not_free unpinned) =
        read_into f l n g room not_free unpinned

    swap_new :
        (found : Option ℕ × BufferPoolManager F)
        → IsTables s
        → NextFrame s found
        → Fetched w Rep s p ghost (updated ghost p none) none s.disk_manager true (elim found.0 [
          | none ↦ ok (none, found.1)
          | some frame_id ↦ swap_into files found.1 p frame_id false
        ])
    swap_new found t (all_pinned none_free full pinned) =
        no_frame s (record { none_free = none_free; full = full; pinned = pinned }) t c refl refl
          refl
    swap_new found t (next f l n g room not_free unpinned) = new_into f l n g room not_free unpinned

    pub swap_page-Fetched :
        IsTables s
        → Fetched w Rep s p ghost ghost none s.disk_manager false (swap_page files s p true)
    unfolding swap_page
    swap_page-Fetched t = swap_frame (find_next_frame s) t (find_next_frame-NextFrame s t)

    pub swap_page-new :
        IsTables s
        → Fetched w Rep s p ghost
            (updated ghost p none)
            none
            s.disk_manager
            true
            (swap_page files s p false)
    unfolding swap_page
    swap_page-new t = swap_new (find_next_frame s) t (find_next_frame-NextFrame s t)
