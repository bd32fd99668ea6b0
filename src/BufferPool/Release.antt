-- ===== src/BufferPool/Release.antt =====
-- A page that is deleted leaves its frame.
use simple_duck_dbms.Base.{
  ℕ, ◌≡◌, ◌≢◌, ◌⊎◌, inl, inr, refl, sym, ap, subst, ◌∙◌, arith, true, false, ◌∷◌, none, some, ok,
  ◌==◌, if◌then◌else◌, Bool-cases, eq_or_ne, some-injective,
}
use simple_duck_dbms.Replacer
use simple_duck_dbms.Replacer.{invalid_page_id}
use simple_duck_dbms.Replacer.Recent.{removed-IsReplacer, positions-remove}
use simple_duck_dbms.DiskManager.{Files, DiskManager, deallocate_page}
use simple_duck_dbms.DiskManager.Allocation.{is_free, distinct}
use simple_duck_dbms.BufferPool.{
  BufferPoolManager, reset_memory, set_frame, erase_table, remove_use, release,
}
use simple_duck_dbms.BufferPool.Invariant.{IsTables}
use simple_duck_dbms.BufferPool.Frames.{unnamed}
use simple_duck_dbms.BufferPool.Evict.{erased}

-- The page is in no frame any more, and the other pages are as they were.
pub record Released {F : Type 0} (s : BufferPoolManager F) (p : ℕ) (s' : BufferPoolManager F)
    : Type 0 where
  pub tables : IsTables s'
  pub gone : s'.page_table p ≡ none
  pub table : (q : ℕ) → q ≢ p → s'.page_table q ≡ s.page_table q
  pub frames : (q g : ℕ) → q ≢ p → s.page_table q ≡ some g → s'.frames g ≡ s.frames g
  pub disk_manager : s'.disk_manager ≡ s.disk_manager
  pub file : s'.file ≡ s.file

module _ {F : Type 0} (files : Files F) (s : BufferPoolManager F) (t : IsTables s) (p f : ℕ)
    (here : s.page_table p ≡ some f) where
  s' : BufferPoolManager F
  s' = release files s p f

  s'_table : (q : ℕ) → s'.page_table q ≡ (if q == p then none else s.page_table q)
  unfolding s' release remove_use erase_table set_frame
  s'_table q = refl

  s'_frames : (g : ℕ) → s'.frames g ≡ (if g == f then reset_memory invalid_page_id else s.frames g)
  unfolding s' release remove_use erase_table set_frame
  s'_frames g = refl

  s'_free : s'.free_frames ≡ f ∷ s.free_frames
  unfolding s' release remove_use erase_table set_frame
  s'_free = refl

  frame_ne : (g : ℕ) → g ≢ f → s'.frames g ≡ s.frames g
  frame_ne g ne = ground (arith, s'_frames g)

  frame_self : s'.frames f ≡ reset_memory invalid_page_id
  frame_self = ground (arith, s'_frames f)

  old_table : (q g : ℕ) → s'.page_table q ≡ some g → (q ≢ p) × (s.page_table q ≡ some g) × (g ≢ f)
  old_table q g h =
      let (ne, old) = erased s.page_table p q g (sym (s'_table q) ∙ h) in
      (ne, old, λ z. ne (sym (t.named q f (old ∙ ap some z)) ∙ t.named p f here))

  is_free_tail :
      (g : ℕ) → g ≢ f → is_free (f ∷ s.free_frames) g ≡ true → is_free s.free_frames g ≡ true
  unfolding is_free
  is_free_tail g ne h = ground arith

  same_state :
      (s'.disk_manager ≡ s.disk_manager)
      × (s'.file ≡ s.file)
      × (s'.pool_size ≡ s.pool_size)
      × (s'.replacer ≡ Replacer.remove s.replacer p)
  unfolding s' release remove_use erase_table set_frame
  same_state = (refl, refl, refl, refl)

  not_free : is_free s.free_frames f ≡ false
  not_free = elim (Bool-cases (is_free s.free_frames f)) [
    | inl h ↦ absurd (unnamed s t f p (t.free_empty f h) here)
    | inr h ↦ h
  ]

  free_cases :
      (g : ℕ)
      → is_free s'.free_frames g ≡ true
      → (g ≡ f) ⊎ (g ≢ f) × (is_free s.free_frames g ≡ true)
  free_cases g h = elim (eq_or_ne g f) [
    | inl z ↦ inl z
    | inr ne ↦ inr (ne, is_free_tail g ne (subst (λ l. is_free l g ≡ true) s'_free h))
  ]

  released-IsTables : IsTables s'
  unfolding distinct reset_memory
  released-IsTables =
      let (disk, file, size, order) = same_state in
      record {
        disk = rw disk t.disk;
        small = rw disk t.small;
        framed = λ q g h. rw size (t.framed q g (old_table q g h).1);
        named = λ q g h.
            let (ne, old, other) = old_table q g h in rw (frame_ne g other) (t.named q g old);
        used = λ q g h. rw disk (t.used q g (old_table q g h).1);
        listed = λ g valid. elim (eq_or_ne g f) [
          | inl z ↦
              absurd (valid (ap (λ k. (s'.frames k).page_id) z ∙ ap (λ x. x.page_id) frame_self))
          | inr other ↦
              let pid = (s.frames g).page_id in
              let old = t.listed g (λ z. valid (ap (λ x. x.page_id) (frame_ne g other) ∙ z)) in
              let ne : pid ≢ p =
                λ z. other (some-injective g f (sym old ∙ ap s.page_table z ∙ here)) in
              rw (frame_ne g other) (ground (arith, s'_table pid))
        ];
        clean_free = λ g empty. elim (eq_or_ne g f) [
          | inl z ↦ rw (z, frame_self) refl
          | inr other ↦
              rw (frame_ne g other)
                (t.clean_free g (sym (ap (λ x. x.page_id) (frame_ne g other)) ∙ empty))
        ];
        free_below = λ g h. rw size (elim (free_cases g h) [
          | inl z ↦ rw z (t.framed p f here)
          | inr (ne, old) ↦ t.free_below g old
        ]);
        free_empty = λ g h. elim (free_cases g h) [
          | inl z ↦ rw (z, frame_self) refl
          | inr (ne, old) ↦ rw (frame_ne g ne) (t.free_empty g old)
        ];
        free_once = rw s'_free (ground (arith, not_free, t.free_once));
        order = rw order (removed-IsReplacer s.replacer p t.order);
        recorded = λ q g h.
            let (ne, old, other) = old_table q g h in
            rw order (λ z. t.recorded q g old (ground (arith, positions-remove s.replacer p q)));
      }

  pub release-Released : Released s p (release files s p f)
  unfolding s'
  release-Released =
      let (disk, file, size, order) = same_state in
      record {
        tables = released-IsTables;
        gone = ground (arith, s'_table p);
        table = λ q ne. ground (arith, s'_table q);
        frames =
            λ q g ne h. frame_ne g (λ z. ne (sym (t.named q f (h ∙ ap some z)) ∙ t.named p f here));
        disk_manager = disk;
        file = file;
      }

pub deallocated_capacity :
    (d d' : DiskManager) (p : ℕ) → deallocate_page d p ≡ ok d' → d'.capacity ≡ d.capacity
unfolding deallocate_page
deallocated_capacity d d' p e = ground arith
