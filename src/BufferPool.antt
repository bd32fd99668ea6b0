-- ===== src/BufferPool.antt =====
-- buffer/pool_manager.hpp, buffer/pool_manager.cpp, buffer/page.hpp and buffer/page.cpp: the frames
-- that cache pages of the file. The calls run one after the other, and what an exception leaves
-- behind is not modelled.
pub mod Invariant
pub mod Frames
pub mod Evict
pub mod Seat
pub mod Change
pub mod Fetch
pub mod Pin
pub mod Unpin
pub mod Flush
pub mod Release
pub mod Delete
pub mod Interface
pub mod Laws
pub mod Tests
use simple_duck_dbms.Base.{
  ℕ, zero, suc, ◌+◌, ◌-◌, ◌%◌, ◌^◌, Bool, true, false, not, List, [], ◌∷◌, Option, none, some,
  Result, ok, throw, ◌>>=◌, ltb, ◌==◌, if◌then◌else◌,
}
use simple_duck_dbms.Memory.{Memory, read_bytes, write_bytes}
use simple_duck_dbms.Replacer
use simple_duck_dbms.Replacer.{BufferReplacer, invalid_page_id}
use simple_duck_dbms.DiskManager
use simple_duck_dbms.DiskManager.{DiskManager, Files, page_size}

-- The bytes of `data_` are the memory below `page_size`.
pub record Page : Type 0 where
  pub page_id : ℕ
  pub bytes : Memory
  pub pin_count : ℕ
  pub is_dirty : Bool

unfoldable pub reset_memory : ℕ → Page
reset_memory page_id = record { page_id = page_id; bytes = λ _. 0; pin_count = 0; is_dirty = false }

unfoldable pub set_dirty : Page → Bool → Page
set_dirty page dirty = record page { is_dirty = dirty }

unfoldable pub inc_pin_count : Page → Page
inc_pin_count page = record page { pin_count = (page.pin_count + 1) % 2 ^ 32 }

unfoldable pub dec_pin_count : Page → Page
dec_pin_count page = record page { pin_count = (page.pin_count + 2 ^ 32 - 1) % 2 ^ 32 }

-- The disk manager and its file; `frames` is the array, and `page_table` the map from pages to
-- frames. The first of `free_frames` is the last of the vector.
pub record BufferPoolManager (F : Type 0) : Type 0 where
  pub disk_manager : DiskManager
  pub file : F
  pub pool_capacity : ℕ
  pub pool_size : ℕ
  pub frames : ℕ → Page
  pub page_table : ℕ → Option ℕ
  pub free_frames : List ℕ
  pub replacer : BufferReplacer

unfoldable pub make : {F : Type 0} → DiskManager → F → ℕ → BufferPoolManager F
make disk_manager file pool_capacity = record {
  disk_manager = disk_manager;
  file = file;
  pool_capacity = pool_capacity;
  pool_size = 0;
  frames = λ _. reset_memory invalid_page_id;
  page_table = λ _. none;
  free_frames = [];
  replacer = Replacer.no_pages;
}

module _ {F : Type 0} where
  unfoldable pub set_frame : BufferPoolManager F → ℕ → Page → BufferPoolManager F
  set_frame s frame_id page = record s { frames = λ f. if f == frame_id then page else s.frames f }

  -- `page_table_[page_id] = frame_id`
  unfoldable pub set_table : BufferPoolManager F → ℕ → ℕ → BufferPoolManager F
  set_table s page_id frame_id = record s {
    page_table = λ p. if p == page_id then some frame_id else s.page_table p;
  }

  unfoldable pub erase_table : BufferPoolManager F → ℕ → BufferPoolManager F
  erase_table s page_id = record s {
    page_table = λ p. if p == page_id then none else s.page_table p;
  }

  unfoldable pub record_use : BufferPoolManager F → ℕ → BufferPoolManager F
  record_use s page_id = record s { replacer = Replacer.record_page s.replacer page_id }

  unfoldable pub remove_use : BufferPoolManager F → ℕ → BufferPoolManager F
  remove_use s page_id = record s { replacer = Replacer.remove s.replacer page_id }

  unfoldable pub unlink : BufferPoolManager F → Page → BufferPoolManager F
  unlink s page =
      if page.page_id == invalid_page_id
      then s
      else remove_use (erase_table s page.page_id) page.page_id

  unfoldable pub find_cached_page : BufferPoolManager F → ℕ → Option ℕ × BufferPoolManager F
  find_cached_page s page_id = elim (s.page_table page_id) [
    | none ↦ (none, s)
    | some frame_id ↦
        let pinned = set_frame s frame_id (inc_pin_count (s.frames frame_id)) in
        (some frame_id, record_use pinned page_id)
  ]

  -- `INVALID_FRAME_ID` is `none`. The subscript of `page_table_` makes an entry where there is none.
  unfoldable pub find_next_frame : BufferPoolManager F → Option ℕ × BufferPoolManager F
  find_next_frame s = elim s.free_frames [
    | frame_id ∷ free_frames ↦ (some frame_id, record s { free_frames = free_frames })
    | [] ↦
        if ltb s.pool_size s.pool_capacity
        then (some s.pool_size, record s { pool_size = s.pool_size + 1 })
        else let page_id =
            Replacer.find_lru s.page_table (λ f. (s.frames f).pin_count) s.replacer in
          if page_id == invalid_page_id then (none, s) else elim (s.page_table page_id) [
            | some frame_id ↦ (some frame_id, s)
            | none ↦ (some 0, set_table s page_id 0)
          ]
  ]

  -- A write through the span that `data` of a page returns.
  unfoldable pub set_bytes : BufferPoolManager F → ℕ → Memory → BufferPoolManager F
  set_bytes s frame_id bytes = set_frame s frame_id (record (s.frames frame_id) { bytes = bytes })

  unfoldable pub unpin_page : BufferPoolManager F → ℕ → Bool → BufferPoolManager F
  unpin_page s page_id dirty = elim (s.page_table page_id) [
    | none ↦ s
    | some frame_id ↦
        let page = s.frames frame_id in
        let marked = if dirty then set_dirty page true else page in
        set_frame s frame_id (dec_pin_count marked)
  ]

module _ {F : Type 0} (files : Files F) where
  unfoldable pub flush_page : BufferPoolManager F → Page → Result (BufferPoolManager F)
  flush_page s page = do
    file ←
        DiskManager.write_page files s.disk_manager s.file page.page_id
          (read_bytes page.bytes 0 page_size)
    ok (record s { file = file })

  -- What stood in the frame goes out of the tables, and to the disk if it is dirty.
  unfoldable pub evict : BufferPoolManager F → Page → Result (BufferPoolManager F)
  evict s page = let s₁ = unlink s page in if page.is_dirty then flush_page s₁ page else ok s₁

  -- The new page in its frame, pinned.
  unfoldable pub install : BufferPoolManager F → ℕ → ℕ → BufferPoolManager F
  install s page_id frame_id =
      let s₁ = set_table s page_id frame_id in
      let s₂ = set_frame s₁ frame_id (inc_pin_count (reset_memory page_id)) in record_use s₂ page_id

  unfoldable pub load : BufferPoolManager F → ℕ → ℕ → Result (BufferPoolManager F)
  load s page_id frame_id = do
    bytes ← DiskManager.read_page files s.disk_manager s.file page_id page_size
    let page = s.frames frame_id
    ok (set_frame s frame_id (record page { bytes = write_bytes page.bytes 0 bytes }))

  -- `swap_page` with the frame that was found.
  unfoldable pub swap_into :
      BufferPoolManager F → ℕ → ℕ → Bool → Result (Option ℕ × BufferPoolManager F)
  swap_into s page_id frame_id read_from_disk = do
    s₁ ← evict s (s.frames frame_id)
    let s₂ = install s₁ page_id frame_id
    s₃ ← elim read_from_disk [ true ↦ load s₂ page_id frame_id | false ↦ ok s₂ ]
    ok (some frame_id, s₃)

  unfoldable pub swap_page :
      BufferPoolManager F → ℕ → Bool → Result (Option ℕ × BufferPoolManager F)
  swap_page s page_id read_from_disk =
      let (found, s₁) = find_next_frame s in
      elim found [
        | none ↦ ok (none, s₁)
        | some frame_id ↦ swap_into s₁ page_id frame_id read_from_disk
      ]

  unfoldable pub new_page : BufferPoolManager F → Result (Option ℕ × BufferPoolManager F)
  new_page s =
      let (page_id, disk_manager) = DiskManager.allocate_page s.disk_manager in
      swap_page (record s { disk_manager = disk_manager }) page_id false

  unfoldable pub fetch_page : BufferPoolManager F → ℕ → Result (Option ℕ × BufferPoolManager F)
  fetch_page s page_id =
      let (cached, s₁) = find_cached_page s page_id in
      elim cached [ some frame_id ↦ ok (some frame_id, s₁) | none ↦ swap_page s₁ page_id true ]

  -- A page that leaves its frame.
  unfoldable pub release : BufferPoolManager F → ℕ → ℕ → BufferPoolManager F
  release s page_id frame_id =
      let s₁ = remove_use (erase_table s page_id) page_id in
      let s₂ = set_frame s₁ frame_id (reset_memory invalid_page_id) in
      record s₂ { free_frames = frame_id ∷ s₂.free_frames }

  unfoldable pub deallocate : BufferPoolManager F → ℕ → Result (Bool × BufferPoolManager F)
  deallocate s page_id = do
    disk_manager ← DiskManager.deallocate_page s.disk_manager page_id
    ok (true, record s { disk_manager = disk_manager })

  unfoldable pub delete_page : BufferPoolManager F → ℕ → Result (Bool × BufferPoolManager F)
  delete_page s page_id = elim (s.page_table page_id) [
    | none ↦ deallocate s page_id
    | some frame_id ↦
        if ltb 0 (s.frames frame_id).pin_count
        then ok (false, s)
        else deallocate (release s page_id frame_id) page_id
  ]

  -- The loop over the frames from `id` on, with `n` left.
  unfoldable pub flush_from : BufferPoolManager F → ℕ → ℕ → Result (BufferPoolManager F)
  flush_from s id zero = ok s
  flush_from s id (suc n) = do
    let page = s.frames id
    s₁ ← if page.is_dirty then flush_page s page else ok s
    flush_from s₁ (id + 1) n

  unfoldable pub flush_all : BufferPoolManager F → Result (BufferPoolManager F)
  flush_all s = flush_from s 0 s.pool_size
