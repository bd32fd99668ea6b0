-- ===== src/BufferPool/Change.antt =====
-- A change of the page in one frame, which stays in it.
use simple_duck_dbms.Base.{
  ℕ, ◌≡◌, ◌≢◌, inl, inr, sym, ap, subst, ◌∙◌, arith, true, false, Option, none, some, ◌==◌,
  if◌then◌else◌, Option-cases, eq_or_ne, some-injective,
}
use simple_duck_dbms.Memory.{Memory}
use simple_duck_dbms.Replacer.Order.{IsReplacer}
use simple_duck_dbms.DiskManager.{Files}
use simple_duck_dbms.DiskManager.Allocation.{is_free}
use simple_duck_dbms.DiskManager.File.{Lawful}
use simple_duck_dbms.BufferPool.{Page, BufferPoolManager}
use simple_duck_dbms.BufferPool.Invariant.{
  IsTables, IsContents, Ghost, pins, pins-some, pins-none, disk_page, Keeps,
}
use simple_duck_dbms.BufferPool.Frames.{unnamed}

-- The frame `f` holds `page` now; the tables are as they were, but for the order of the uses.
pub record Changed {F : Type 0} (s : BufferPoolManager F) (f : ℕ) (page : Page)
    (s' : BufferPoolManager F) : Type 0 where
  pub table : s'.page_table ≡ s.page_table
  pub frames : (g : ℕ) → s'.frames g ≡ (if g == f then page else s.frames g)
  pub disk_manager : s'.disk_manager ≡ s.disk_manager
  pub file : s'.file ≡ s.file
  pub pool_size : s'.pool_size ≡ s.pool_size
  pub free_frames : s'.free_frames ≡ s.free_frames
  pub order : IsReplacer s'.replacer
  pub recorded : (q g : ℕ) → s.page_table q ≡ some g → s'.replacer.positions q ≢ none

-- A page is in one frame.
pub clean_frame :
    {F : Type 0} (s : BufferPoolManager F) (p f : ℕ)
    → s.page_table p ≡ some f
    → (s.frames f).is_dirty ≡ false
    → (g : ℕ) → s.page_table p ≡ some g
    → (s.frames g).is_dirty ≡ false
clean_frame s p f here clean g h =
    ap (λ k. (s.frames k).is_dirty) (some-injective g f (sym h ∙ here)) ∙ clean

module _ {F : Type 0} (s : BufferPoolManager F) (t : IsTables s) (p f : ℕ)
    (here : s.page_table p ≡ some f) (page : Page) (same_id : page.page_id ≡ p)
    (s' : BufferPoolManager F) (e : Changed s f page s') where
  still : (q g : ℕ) → s'.page_table q ≡ some g → s.page_table q ≡ some g
  still q g h = sym (ap (λ table. table q) e.table) ∙ h

  pub still_here : s'.page_table p ≡ some f
  still_here = ap (λ table. table p) e.table ∙ here

  pub changed_self : s'.frames f ≡ page
  changed_self = ground (arith, e.frames f)

  pub changed_ne : (g : ℕ) → g ≢ f → s'.frames g ≡ s.frames g
  changed_ne g ne = ground (arith, e.frames g)

  -- Another page is in another frame.
  other_frame : (q g : ℕ) → q ≢ p → s.page_table q ≡ some g → g ≢ f
  other_frame q g ne h z = ne (sym (t.named q f (h ∙ ap some z)) ∙ t.named p f here)

  id_kept : (g : ℕ) → (s'.frames g).page_id ≡ (s.frames g).page_id
  id_kept g = elim (eq_or_ne g f) [
    | inl z ↦ rw (z, changed_self) (same_id ∙ sym (t.named p f here))
    | inr ne ↦ ap (λ x. x.page_id) (changed_ne g ne)
  ]

  pub changed-IsTables : IsTables s'
  changed-IsTables = record {
    disk = rw e.disk_manager t.disk;
    small = rw e.disk_manager t.small;
    framed = λ q g h. rw e.pool_size (t.framed q g (still q g h));
    named = λ q g h. id_kept g ∙ t.named q g (still q g h);
    used = λ q g h. rw e.disk_manager (t.used q g (still q g h));
    listed = λ g valid. rw (id_kept g, e.table) (t.listed g (λ z. valid (id_kept g ∙ z)));
    clean_free = λ g empty. elim (eq_or_ne g f) [
      | inl z ↦
          let gone = sym (id_kept g) ∙ empty in
          absurd (unnamed s t f p (sym (ap (λ k. (s.frames k).page_id) z) ∙ gone) here)
      | inr ne ↦ ap (λ x. x.is_dirty) (changed_ne g ne) ∙ t.clean_free g (sym (id_kept g) ∙ empty)
    ];
    free_below =
        λ g h. rw e.pool_size (t.free_below g (subst (λ l. is_free l g ≡ true) e.free_frames h));
    free_empty =
        λ g h. id_kept g ∙ t.free_empty g (subst (λ l. is_free l g ≡ true) e.free_frames h);
    free_once = rw e.free_frames t.free_once;
    order = e.order;
    recorded = λ q g h. e.recorded q g (still q g h);
  }

  pub changed_pins_self : pins s' p ≡ page.pin_count
  changed_pins_self = pins-some s' p f still_here ∙ ap (λ x. x.pin_count) changed_self

  pub changed_pins_ne : (q : ℕ) → q ≢ p → pins s' q ≡ pins s q
  changed_pins_ne q ne = elim (Option-cases (s.page_table q)) [
    | inl out ↦ pins-none s' q (ap (λ table. table q) e.table ∙ out) ∙ sym (pins-none s q out)
    | inr (g, h) ↦
        pins-some s' q g (ap (λ table. table q) e.table ∙ h)
        ∙ ap (λ x. x.pin_count) (changed_ne g (other_frame q g ne h))
        ∙ sym (pins-some s q g h)
  ]

  pub changed-Keeps : Keeps p s s'
  changed-Keeps = record {
    place = λ q g ne h pinned. ap (λ table. table q) e.table ∙ h;
    same = λ q g ne h pinned. changed_ne g (other_frame q g ne h);
  }

  -- What the page is to hold may change, and whether it is marked.
  pub changed-IsContents :
      {A : Type 0} {files : Files F} (w : Lawful files) (Rep : Memory → A → Type 0)
      (ghost ghost' : Ghost A) (hot hot' : Option ℕ)
      → IsContents w Rep s ghost hot
      → ((q : ℕ) → q ≢ p → ghost' q ≡ ghost q)
      → ((q : ℕ) → q ≢ p → hot' ≢ some q → hot ≢ some q)
      → ((v : A) → ghost' p ≡ some v → Rep page.bytes v)
      → ((v : A)
          → ghost' p ≡ some v
          → hot' ≢ some p
          → page.is_dirty ≡ false
          → Rep (disk_page w s.file p) v)
      → IsContents w Rep s' ghost' hot'
  changed-IsContents w Rep ghost ghost' hot hot' c others cold_others cached_p stored_p = record {
    blank = rw e.file c.blank;
    tracked = λ q v known. rw e.disk_manager (elim (eq_or_ne q p) [
      | inl z ↦ rw z (t.used p f here)
      | inr ne ↦ c.tracked q v (sym (others q ne) ∙ known)
    ]);
    cached = λ q g v h known. elim (eq_or_ne q p) [
      | inl z ↦
          let g_f : g ≡ f = some-injective g f (sym (still q g h) ∙ ap s.page_table z ∙ here) in
          rw (g_f, changed_self) (cached_p v (rw (← z) known))
      | inr ne ↦
          rw (changed_ne g (other_frame q g ne (still q g h)))
            (c.cached q g v (still q g h) (sym (others q ne) ∙ known))
    ];
    stored = λ q v known cold clean. rw e.file (elim (eq_or_ne q p) [
      | inl z ↦ rw z (
          stored_p v (rw (← z) known) (rw (← z) cold)
            (sym (ap (λ x. x.is_dirty) changed_self) ∙ clean f (rw z still_here)))
      | inr ne ↦ c.stored q v (sym (others q ne) ∙ known) (cold_others q ne cold) (λ g h.
          sym (ap (λ x. x.is_dirty) (changed_ne g (other_frame q g ne h)))
          ∙ clean g (ap (λ table. table q) e.table ∙ h))
    ]);
  }
