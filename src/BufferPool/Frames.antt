-- ===== src/BufferPool/Frames.antt =====
-- `find_next_frame`: a free frame, a new one, or the frame of a page that nobody has pinned.
use simple_duck_dbms.Base.{
  ℕ, ◌+◌, ◌≤◌, ◌<◌, ◌≡◌, ◌≢◌, ◌⊎◌, inl, inr, refl, sym, subst, ◌∙◌, arith, true, false, List, [],
  ◌∷◌, Option, none, some, ltb, ◌==◌, if◌then◌else◌, Bool-cases, Option-cases, ltb→le,
}
use simple_duck_dbms.Replacer
use simple_duck_dbms.Replacer.{invalid_page_id, BufferReplacer}
use simple_duck_dbms.Replacer.Order.{pages}
use simple_duck_dbms.Replacer.Recent.{
  Victim, least, no_victim, evictable, find_from-Victim, none_evictable-positions,
}
use simple_duck_dbms.DiskManager.Allocation.{is_free, distinct, is_free_head, longer, used_facts}
use simple_duck_dbms.BufferPool.{BufferPoolManager, find_next_frame, set_table}
use simple_duck_dbms.BufferPool.Invariant.{IsTables}

module _ {F : Type 0} where
  -- The state with the given list of free frames and size.
  abbrev pub grown : BufferPoolManager F → List ℕ → ℕ → BufferPoolManager F
  grown s free_frames pool_size = record s { free_frames = free_frames; pool_size = pool_size }

  -- What `find_next_frame` returns: no frame, where each is taken by a pinned page; or a frame that
  -- is in no list, and whose page, if it holds one, is not pinned.
  pub data NextFrame (s : BufferPoolManager F) : Option ℕ × BufferPoolManager F → Type 0 where
    all_pinned :
        s.free_frames ≡ []
        → s.pool_capacity ≤ s.pool_size
        → ((p f : ℕ) → s.page_table p ≡ some f → (s.frames f).pin_count ≢ 0)
        → NextFrame s (none, s)
    next :
        (f : ℕ) (l : List ℕ) (n : ℕ)
        → IsTables (grown s l n)
        → f < n
        → is_free l f ≡ false
        → ((p : ℕ) → s.page_table p ≡ some f → (s.frames f).pin_count ≡ 0)
        → NextFrame s (some f, grown s l n)

list_cases : (xs : List ℕ) → (xs ≡ []) ⊎ ((x : ℕ) × (l : List ℕ) × (xs ≡ x ∷ l))
list_cases [] = inl refl
list_cases (x ∷ l) = inr (x, l, refl)

module _ {F : Type 0} (s : BufferPoolManager F) (t : IsTables s) where
  pub not_invalid : (f : ℕ) → s.page_table invalid_page_id ≢ some f
  not_invalid f e =
      let below = (used_facts s.disk_manager invalid_page_id (t.used invalid_page_id f e)).0 in
      absurd (omega (arith, t.small))

  grown-IsTables :
      (l : List ℕ) (n : ℕ)
      → s.pool_size ≤ n
      → ((f : ℕ) → is_free l f ≡ true → is_free s.free_frames f ≡ true)
      → distinct l ≡ true
      → IsTables (grown s l n)
  grown-IsTables l n le sub once = record {
    disk = t.disk;
    small = t.small;
    framed = λ p f e. omega (arith, t.framed p f e);
    named = t.named;
    used = t.used;
    listed = t.listed;
    clean_free = t.clean_free;
    free_below = λ f e. omega (arith, t.free_below f (sub f e));
    free_empty = λ f e. t.free_empty f (sub f e);
    free_once = once;
    order = t.order;
    recorded = t.recorded;
  }

  -- A frame that holds no page is in no table.
  pub unnamed : (f p : ℕ) → (s.frames f).page_id ≡ invalid_page_id → s.page_table p ≢ some f
  unnamed f p e q = not_invalid f (subst (λ r. s.page_table r ≡ some f) (sym (t.named p f q) ∙ e) q)

  popped :
      (f : ℕ) (l : List ℕ) → s.free_frames ≡ f ∷ l → NextFrame s (some f, grown s l s.pool_size)
  unfolding distinct
  popped f l e =
      let once : distinct (f ∷ l) ≡ true = subst (λ xs. distinct xs ≡ true) e t.free_once in
      let head : is_free s.free_frames f ≡ true = rw e (is_free_head f l) in
      next f l s.pool_size
        (grown-IsTables l s.pool_size (omega arith) (λ g h. rw e (longer f g l h)) (ground arith))
        (t.free_below f head) (ground arith) (λ p q. absurd (unnamed f p (t.free_empty f head) q))

  extended :
      s.free_frames ≡ [] → NextFrame s (some s.pool_size, grown s s.free_frames (s.pool_size + 1))
  unfolding is_free
  extended e =
      next s.pool_size s.free_frames (s.pool_size + 1)
        (grown-IsTables s.free_frames (s.pool_size + 1) (omega arith) (λ f h. h) t.free_once)
        (omega arith) (rw e refl) (λ p q. absurd (omega (arith, t.framed p s.pool_size q)))

  evictable_frame :
      (p : ℕ)
      → evictable s.page_table (λ f. (s.frames f).pin_count) p ≡ true
      → (f : ℕ) × (s.page_table p ≡ some f) × ((s.frames f).pin_count ≡ 0)
  unfolding evictable
  evictable_frame p h = elim (Option-cases (s.page_table p)) [
    | inl e ↦ absurd (ground arith)
    | inr (f, e) ↦ (f, e, ground arith)
  ]

  pinned_frame :
      (p f : ℕ)
      → s.page_table p ≡ some f
      → evictable s.page_table (λ f. (s.frames f).pin_count) p ≡ false
      → (s.frames f).pin_count ≢ 0
  unfolding evictable
  pinned_frame p f e h z = ground arith

  -- The frame of the victim, which only that page has.
  victim_frame :
      (p f : ℕ)
      → s.free_frames ≡ []
      → s.page_table p ≡ some f
      → (s.frames f).pin_count ≡ 0
      → NextFrame s (some f, s)
  unfolding is_free
  victim_frame p f none_free e z =
      next f s.free_frames s.pool_size t (t.framed p f e) (rw none_free refl) (λ q h. z)

  find_victim :
      (victim : ℕ)
      → s.free_frames ≡ []
      → s.pool_capacity ≤ s.pool_size
      → Victim s.page_table (λ f. (s.frames f).pin_count) (pages s.replacer.mru_pages) victim
      → NextFrame s (
          if victim == invalid_page_id then (none, s) else elim (s.page_table victim) [
            | some frame_id ↦ (some frame_id, s)
            | none ↦ (some 0, set_table s victim 0)
          ])
  find_victim victim none_free full (least before after e unfit fit) =
      let (f, named, z) = evictable_frame victim fit in
      elim (Bool-cases (victim == invalid_page_id)) [
        | inl q ↦ absurd (not_invalid f (subst (λ p. s.page_table p ≡ some f) (ground arith) named))
        | inr q ↦ rw (q, named) (victim_frame victim f none_free named z)
      ]
  find_victim victim none_free full (no_victim unfit e) =
      let invalid : (victim == invalid_page_id) ≡ true = ground arith in
      rw invalid (
        all_pinned none_free full (λ p f named. pinned_frame p f named (
          none_evictable-positions s.page_table (λ f. (s.frames f).pin_count) s.replacer p t.order
            unfit (t.recorded p f named))))

  lru : ℕ
  lru = Replacer.find_lru s.page_table (λ f. (s.frames f).pin_count) s.replacer

  taken : Option ℕ × BufferPoolManager F
  taken = if lru == invalid_page_id then (none, s) else elim (s.page_table lru) [
    | some frame_id ↦ (some frame_id, s)
    | none ↦ (some 0, set_table s lru 0)
  ]

  by_pop :
      (f : ℕ) (l : List ℕ)
      → s.free_frames ≡ f ∷ l
      → find_next_frame s ≡ (some f, grown s l s.pool_size)
  unfolding find_next_frame
  by_pop f l e = ground arith

  by_growth :
      s.free_frames ≡ []
      → ltb s.pool_size s.pool_capacity ≡ true
      → find_next_frame s ≡ (some s.pool_size, grown s s.free_frames (s.pool_size + 1))
  unfolding find_next_frame
  by_growth e h = ground arith

  by_victim :
      s.free_frames ≡ [] → ltb s.pool_size s.pool_capacity ≡ false → find_next_frame s ≡ taken
  unfolding find_next_frame taken lru
  by_victim e h = ground arith

  pub find_next_frame-NextFrame : NextFrame s (find_next_frame s)
  unfolding lru taken Replacer.find_lru
  find_next_frame-NextFrame = elim (list_cases s.free_frames) [
    | inr (f, l, e) ↦ subst (NextFrame s) (sym (by_pop f l e)) (popped f l e)
    | inl e ↦ elim (Bool-cases (ltb s.pool_size s.pool_capacity)) [
      | inl h ↦ subst (NextFrame s) (sym (by_growth e h)) (extended e)
      | inr h ↦ subst (NextFrame s) (sym (by_victim e h)) (
          find_victim lru e (ltb→le s.pool_size s.pool_capacity h)
            (find_from-Victim s.page_table (λ f. (s.frames f).pin_count) s.replacer.mru_pages))
    ]
  ]
