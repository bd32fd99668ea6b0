-- ===== src/BufferPool/Seat.antt =====
-- The page that comes into a frame which no table names.
use simple_duck_dbms.Base.{
  ℕ, ◌<◌, ◌≡◌, ◌≢◌, ◌⊎◌, inl, inr, refl, sym, ap, subst, ◌∙◌, arith, true, false, none, some, ◌==◌,
  if◌then◌else◌, Option-cases, eq_or_ne, some-injective,
}
use simple_duck_dbms.Memory.{Memory}
use simple_duck_dbms.Replacer
use simple_duck_dbms.Replacer.{invalid_page_id}
use simple_duck_dbms.Replacer.Recent.{
  recorded-IsReplacer, positions-record_page, positions-record_page_self,
}
use simple_duck_dbms.DiskManager.{Files}
use simple_duck_dbms.DiskManager.Allocation.{is_free, in_use}
use simple_duck_dbms.DiskManager.File.{Lawful}
use simple_duck_dbms.BufferPool.{Page, BufferPoolManager}
use simple_duck_dbms.BufferPool.Invariant.{
  IsTables, IsContents, Ghost, updated, updated_known, pins, pins-some, pins-none, disk_page, Keeps,
}
use simple_duck_dbms.BufferPool.Evict.{Unlinked, true_ne_false}

-- A page that nobody has changed, pinned once.
abbrev pub seated_page : ℕ → Memory → Page
seated_page p bytes = record { page_id = p; bytes = bytes; pin_count = 1; is_dirty = false }

-- The page `p` with these bytes is in the frame `f`, and was used last.
pub record Seated {F : Type 0} (s : BufferPoolManager F) (p f : ℕ) (bytes : Memory)
    (s' : BufferPoolManager F) : Type 0 where
  pub table : (q : ℕ) → s'.page_table q ≡ (if q == p then some f else s.page_table q)
  pub frames : (g : ℕ) → s'.frames g ≡ (if g == f then seated_page p bytes else s.frames g)
  pub disk_manager : s'.disk_manager ≡ s.disk_manager
  pub file : s'.file ≡ s.file
  pub pool_size : s'.pool_size ≡ s.pool_size
  pub free_frames : s'.free_frames ≡ s.free_frames
  pub replacer : s'.replacer ≡ Replacer.record_page s.replacer p

pub none_ne_some : (g : ℕ) → none ≢ some g
none_ne_some g e = cc

module _ {F : Type 0} (s₀ : BufferPoolManager F) (t : IsTables s₀) (f : ℕ) (s : BufferPoolManager F)
    (u : Unlinked s₀ f s) (p : ℕ) (absent : s₀.page_table p ≡ none)
    (unpinned : (q : ℕ) → s₀.page_table q ≡ some f → (s₀.frames f).pin_count ≡ 0) (bytes : Memory)
    (s' : BufferPoolManager F) (e : Seated s p f bytes s') where
  pub table_self : s'.page_table p ≡ some f
  table_self = ground (arith, e.table p)

  table_ne : (q : ℕ) → q ≢ p → s'.page_table q ≡ s.page_table q
  table_ne q ne = ground (arith, e.table q)

  pub frame_self : s'.frames f ≡ seated_page p bytes
  frame_self = ground (arith, e.frames f)

  frame_ne : (g : ℕ) → g ≢ f → s'.frames g ≡ s₀.frames g
  frame_ne g ne =
      let other : s'.frames g ≡ s.frames g = ground (arith, e.frames g) in
      other ∙ ap (λ fr. fr g) u.frames

  -- A page in the new table is the new one, or was in the old table, in another frame.
  in_table :
      (q g : ℕ)
      → s'.page_table q ≡ some g
      → (q ≡ p) × (g ≡ f)
        ⊎ (q ≢ p) × (s.page_table q ≡ some g) × (s₀.page_table q ≡ some g) × (g ≢ f)
  in_table q g h = elim (eq_or_ne q p) [
    | inl same ↦ inl (same, ground (arith, e.table q))
    | inr ne ↦
        let old : s.page_table q ≡ some g = sym (table_ne q ne) ∙ h in
        let (older, other) = u.kept q g old in inr (ne, old, older, other)
  ]

  vacated : (q : ℕ) → q ≢ p → s₀.page_table q ≡ some f → s'.page_table q ≡ none
  vacated q ne h = elim (Option-cases (s'.page_table q)) [
    | inl gone ↦ gone
    | inr (g, now) ↦ elim (in_table q g now) [
      | inl (same, here) ↦ absurd (ne same)
      | inr (_, old, older, other) ↦ absurd (other (some-injective g f (sym older ∙ h)))
    ]
  ]

  not_p : (q g : ℕ) → s₀.page_table q ≡ some g → q ≢ p
  not_p q g h same = let gone : s₀.page_table q ≡ none = rw same absent in cc

  pub seated-IsTables :
      in_use s₀.disk_manager p ≡ true
      → f < s₀.pool_size
      → is_free s₀.free_frames f ≡ false
      → IsTables s'
  seated-IsTables use_p room not_free = record {
    disk = rw (e.disk_manager, u.disk_manager) t.disk;
    small = rw (e.disk_manager, u.disk_manager) t.small;
    framed = λ q g h.
        rw (e.pool_size, u.pool_size)
          (elim (in_table q g h) [
            | inl (same, here) ↦ rw here room
            | inr (ne, old, older, other) ↦ t.framed q g older
          ]);
    named = λ q g h. elim (in_table q g h) [
      | inl (same, here) ↦ rw (here, frame_self) (sym same)
      | inr (ne, old, older, other) ↦ rw (frame_ne g other) (t.named q g older)
    ];
    used = λ q g h.
        rw (e.disk_manager, u.disk_manager)
          (elim (in_table q g h) [
            | inl (same, here) ↦ rw same use_p
            | inr (ne, old, older, other) ↦ t.used q g older
          ]);
    listed = λ g valid. elim (eq_or_ne g f) [
      | inl same ↦ rw (same, frame_self) table_self
      | inr other ↦
          let pid = (s₀.frames g).page_id in
          let old = t.listed g (λ z. valid (ap (λ page. page.page_id) (frame_ne g other) ∙ z)) in
          rw (frame_ne g other) (table_ne pid (not_p pid g old) ∙ u.left pid g old other)
    ];
    clean_free = λ g empty. elim (eq_or_ne g f) [
      | inl same ↦ rw (same, frame_self) refl
      | inr other ↦
          rw (frame_ne g other)
            (t.clean_free g (sym (ap (λ page. page.page_id) (frame_ne g other)) ∙ empty))
    ];
    free_below = λ g h. rw (e.pool_size, u.pool_size) (t.free_below g (still_free g h));
    free_empty = λ g h.
        let old = still_free g h in
        let other : g ≢ f =
          λ z. true_ne_false (sym old ∙ ap (is_free s₀.free_frames) z ∙ not_free) in
        rw (frame_ne g other) (t.free_empty g old);
    free_once = rw (e.free_frames, u.free_frames) t.free_once;
    order = rw e.replacer (recorded-IsReplacer s.replacer p u.order);
    recorded = λ q g h. rw e.replacer (elim (in_table q g h) [
      | inl (same, here) ↦ rw same (positions-record_page_self s.replacer p)
      | inr (ne, old, older, other) ↦
          λ z. u.recorded q g old (sym (positions-record_page s.replacer p q ne) ∙ z)
    ]);
  }
    where
      still_free : (g : ℕ) → is_free s'.free_frames g ≡ true → is_free s₀.free_frames g ≡ true
      still_free g h = subst (λ l. is_free l g ≡ true) (e.free_frames ∙ u.free_frames) h

  pub pins_self : pins s' p ≡ 1
  pins_self = pins-some s' p f table_self ∙ ap (λ page. page.pin_count) frame_self

  pub pins_ne : (q : ℕ) → q ≢ p → pins s' q ≡ pins s₀ q
  pins_ne q ne = elim (Option-cases (s₀.page_table q)) [
    | inl out ↦
        let still : s'.page_table q ≡ none = elim (Option-cases (s'.page_table q)) [
          | inl h ↦ h
          | inr (g, h) ↦ elim (in_table q g h) [
            | inl (same, here) ↦ absurd (ne same)
            | inr (_, old, older, other) ↦ absurd (none_ne_some g (sym out ∙ older))
          ]
        ] in
        pins-none s' q still ∙ sym (pins-none s₀ q out)
    | inr (g, h) ↦ elim (eq_or_ne g f) [
      | inl here ↦
          let was : s₀.page_table q ≡ some f = h ∙ ap some here in
          pins-none s' q (vacated q ne was) ∙ sym (pins-some s₀ q f was ∙ unpinned q was)
      | inr other ↦
          let now : s'.page_table q ≡ some g = table_ne q ne ∙ u.left q g h other in
          pins-some s' q g now
          ∙ ap (λ page. page.pin_count) (frame_ne g other)
          ∙ sym (pins-some s₀ q g h)
    ]
  ]

  pinned_other : (q g : ℕ) → s₀.page_table q ≡ some g → pins s₀ q ≢ 0 → g ≢ f
  pinned_other q g h pinned here =
      let was : s₀.page_table q ≡ some f = h ∙ ap some here in
      pinned (pins-some s₀ q f was ∙ unpinned q was)

  pub seated-Keeps : Keeps p s₀ s'
  seated-Keeps = record {
    place = λ q g ne h pinned. table_ne q ne ∙ u.left q g h (pinned_other q g h pinned);
    same = λ q g ne h pinned. frame_ne g (pinned_other q g h pinned);
  }

  module _ {A : Type 0} {files : Files F} (w : Lawful files) (Rep : Memory → A → Type 0)
      (ghost : Ghost A) (c : IsContents w Rep s ghost none) where
    absent_now : (g : ℕ) → s.page_table p ≢ some g
    absent_now g h = none_ne_some g (sym absent ∙ (u.kept p g h).0)

    other_stored :
        (q : ℕ) (v : A)
        → q ≢ p
        → ghost q ≡ some v
        → ((g : ℕ) → s'.page_table q ≡ some g → (s'.frames g).is_dirty ≡ false)
        → Rep (disk_page w s'.file q) v
    other_stored q v ne known clean = rw e.file (
        c.stored q v known (λ z. none_ne_some q z)
          (λ g h.
            let (older, other) = u.kept q g h in
            ap (λ fr. (fr g).is_dirty) u.frames
            ∙ sym (ap (λ page. page.is_dirty) (frame_ne g other))
            ∙ clean g (table_ne q ne ∙ h)))

    old_cached :
        (q g : ℕ) (v : A)
        → s₀.page_table q ≡ some g
        → s.page_table q ≡ some g
        → g ≢ f
        → ghost q ≡ some v
        → Rep (s'.frames g).bytes v
    old_cached q g v older old other known =
        rw (frame_ne g other) (subst (λ fr. Rep (fr g).bytes v) u.frames (c.cached q g v old known))

    -- The page was read from the disk.
    pub read-IsContents : bytes ≡ disk_page w s.file p → IsContents w Rep s' ghost none
    read-IsContents read = record {
      blank = rw e.file c.blank;
      tracked = λ q v known. rw e.disk_manager (c.tracked q v known);
      cached = λ q g v h known. elim (in_table q g h) [
        | inl (same, here) ↦ rw (here, frame_self, read) (from_disk v (rw (← same) known))
        | inr (ne, old, older, other) ↦ old_cached q g v older old other known
      ];
      stored = λ q v known cold clean. elim (eq_or_ne q p) [
        | inl same ↦ rw (same, e.file) (from_disk v (rw (← same) known))
        | inr ne ↦ other_stored q v ne known clean
      ];
    }
      where
        from_disk : (v : A) → ghost p ≡ some v → Rep (disk_page w s.file p) v
        from_disk v known =
            c.stored p v known (λ z. none_ne_some p z) (λ g h. absurd (absent_now g h))

    -- The page is new: nothing is promised of it.
    pub new-IsContents : IsContents w Rep s' (updated ghost p none) none
    new-IsContents = record {
      blank = rw e.file c.blank;
      tracked = λ q v known. rw e.disk_manager (c.tracked q v (known_other q v known).1);
      cached = λ q g v h known. elim (in_table q g h) [
        | inl (same, here) ↦ absurd ((known_other q v known).0 same)
        | inr (ne, old, older, other) ↦ old_cached q g v older old other (known_other q v known).1
      ];
      stored = λ q v known cold clean.
          let (ne, before) = known_other q v known in other_stored q v ne before clean;
    }
      where
        known_other :
            (q : ℕ) (v : A) → updated ghost p none q ≡ some v → (q ≢ p) × (ghost q ≡ some v)
        known_other q v known = updated_known ghost p q v known
