-- ===== src/TableHeap/Grow.antt =====
-- Behind a page that has no room: the page that follows, or a new one that is linked to it.
use simple_duck_dbms.Base.{
  ℕ, ◌+◌, ◌-◌, ◌^◌, ◌<◌, ◌≡◌, ◌≢◌, inl, inr, refl, sym, ap, subst, ◌∙◌, arith, true, false, Option,
  none, some, Result, ok, throw, ◌>>=◌, Error, eq_or_ne, ◌==◌,
}
use simple_duck_dbms.Memory.{Memory}
use simple_duck_dbms.SlottedPage.{init, next_page, set_next_page, invalid_page_id}
use simple_duck_dbms.BufferPool.Invariant.{Ghost, updated}
use simple_duck_dbms.BufferPool.Interface.{
  Pool, View, Got, Settled, Creates, missed_new, created, Changes, PoolLaws,
}
use simple_duck_dbms.TableHeap.{leave, init_page, Following, link, advance}
use simple_duck_dbms.TableHeap.PageView.{PageView, Shows}
use simple_duck_dbms.TableHeap.PageBytes.{set_next_page-Shows, new_view, init-Shows}
use simple_duck_dbms.TableHeap.Leave.{Few, leave_changed}
use simple_duck_dbms.TableHeap.Visit.{GotFrame, visit_same}
use simple_duck_dbms.TableHeap.Grown.{apart, grown}

module _ {S : Type 0} (pool : Pool S) (view : View S PageView) (laws : PoolLaws pool view Shows)
    (s s₁ : S) (p f : ℕ) (ghost : Ghost PageView) (few : Few view s)
    (a : GotFrame pool view s p f ghost s₁) (v : PageView) (known : ghost p ≡ some v) (m : Memory)
    (shows : Shows m v) where
  kept : S
  kept = pool.set_bytes s₁ f m

  kept-Changes : Changes pool view s₁ p ghost none (view.pins s₁ p) kept
  unfolding kept
  kept-Changes = laws.rewrites s₁ p f ghost none m v a.frame.holds a.frame.here known shows

  kept_bytes : pool.bytes kept f ≡ m
  unfolding kept
  kept_bytes = laws.reads_back s₁ p f m a.frame.here

  kept_pinned : view.pins kept p ≡ view.pins s p + 1
  kept_pinned = kept-Changes.pins_self ∙ a.frame.pins_self

  -- A page that was created in frame `g`.
  module _ (n g : ℕ) (s₃ : S) (fresh : ghost n ≡ none) (unpinned : view.pins kept n ≡ 0)
      (new : Got pool view kept n g (updated ghost n none) s₃) (zero : pool.bytes s₃ g ≡ (λ _. 0))
      (small : n + 1 < 2 ^ 32) where
    ready : S
    ready = init_page pool s₃ g

    ready-Changes :
        Changes pool view s₃ n
          (updated (updated ghost n none) n (some new_view))
          none
          (view.pins s₃ n - 1)
          ready
    unfolding ready init_page leave
    ready-Changes =
        leave_changed pool view Shows laws s₃ n g (updated ghost n none) new.holds new.here
          (λ z. omega (arith, new.pins_self)) (omega (arith, new.pins_self))
          (init (pool.bytes s₃ g)) new_view
          (init-Shows (pool.bytes s₃ g) (λ x. rw zero (omega arith)))

    old : p ≢ n
    old = apart ghost p n v known fresh

    new_pinned : view.pins s₃ p ≡ view.pins s p + 1
    new_pinned = new.pins_ne p old ∙ kept_pinned

    here₃ : view.InFrame s₃ p f
    here₃ =
        new.stays.place p f old (kept-Changes.place f a.frame.here)
          (λ z. omega (arith, kept_pinned))

    here₄ : view.InFrame ready p f
    here₄ = ready-Changes.stays.place p f old here₃ (λ z. omega (arith, new_pinned))

    ready_bytes : pool.bytes ready f ≡ m
    ready_bytes =
        ready-Changes.stays.same p f old here₃ (λ z. omega (arith, new_pinned))
        ∙ new.stays.same p f old (kept-Changes.place f a.frame.here)
            (λ z. omega (arith, kept_pinned))
        ∙ kept_bytes

    ready_pins : view.pins ready p ≡ view.pins s p + 1
    ready_pins = ready-Changes.pins_ne p old ∙ new_pinned

    ready_id : pool.page_id ready g ≡ n
    ready_id =
        laws.named ready n g (updated (updated ghost n none) n (some new_view)) none
          ready-Changes.holds (ready-Changes.place g new.here)

    done : S
    done = leave pool ready f (set_next_page m n) true

    done-Changes : Changes pool view ready p (grown ghost p v n) none (view.pins ready p - 1) done
    unfolding done grown
    done-Changes =
        leave_changed pool view Shows laws ready p f
          (updated (updated ghost n none) n (some new_view)) ready-Changes.holds here₄
          (λ z. omega (arith, ready_pins)) (omega (arith, ready_pins, few p)) (set_next_page m n)
          (record v { link = n }) (set_next_page-Shows m v n shows (omega arith))

    done-Settled : Settled pool view s (grown ghost p v n) done
    done-Settled = record {
      holds = done-Changes.holds;
      pins_same = λ q. elim (eq_or_ne q p) [
        | inl e ↦ rw e (omega (arith, done-Changes.pins_self, ready_pins))
        | inr ne ↦ elim (eq_or_ne q n) [
          | inl e ↦ rw e (
              omega (
                arith,
                done-Changes.pins_ne n (λ z. old (sym z)),
                ready-Changes.pins_self,
                new.pins_self,
                kept-Changes.pins_ne n (λ z. old (sym z)),
                a.frame.pins_ne n (λ z. old (sym z)),
              ))
          | inr ne' ↦
              done-Changes.pins_ne q ne
              ∙ ready-Changes.pins_ne q ne'
              ∙ new.pins_ne q ne'
              ∙ kept-Changes.pins_ne q ne
              ∙ a.frame.pins_ne q ne
        ]
      ];
    }

    -- `link` and the unpin of the page behind it.
    linked :
        v.link ≡ invalid_page_id
        → link pool ready f g
          ≡ ok (record {
            page_id = n;
            dirty = true;
            created_new_page = true;
            state = pool.set_bytes ready f (set_next_page m n);
          })
    unfolding link
    linked last =
        let none_follows : next_page (pool.bytes ready f) ≡ invalid_page_id =
          ap next_page ready_bytes ∙ shows.link ∙ last in
        rw (none_follows, ready_bytes, ready_id, link) refl

  -- The page that follows, in the states behind the unpin of page `p`.
  pub data Onward : Result (Following pool) → Type 0 where
    follows :
        (s' : S)
        → v.link ≢ invalid_page_id
        → Settled pool view s ghost s'
        → view.size s' ≡ view.size s
        → (next : Following pool) → next.page_id ≡ v.link
        → next.created_new_page ≡ false
        → pool.unpin_page next.state (pool.page_id next.state f) next.dirty ≡ s'
        → Onward (ok next)
    grew :
        (n : ℕ) (s' : S)
        → v.link ≡ invalid_page_id
        → ghost n ≡ none
        → n ≢ invalid_page_id
        → Settled pool view s (grown ghost p v n) s'
        → (next : Following pool) → next.page_id ≡ n
        → next.created_new_page ≡ true
        → pool.unpin_page next.state (pool.page_id next.state f) next.dirty ≡ s'
        → Onward (ok next)
    no_page : (s₂ s' : S) → pool.new_page s₂ ≡ ok (none, s') → Onward (throw Error.runtime_error)

  created_cases :
      (r : Result (Option ℕ × S))
      → pool.new_page kept ≡ r
      → Creates pool view kept ghost r
      → v.link ≡ invalid_page_id
      → Onward (do
        (page, s₃) ← r
        elim page [
          | none ↦ throw Error.runtime_error
          | some g ↦ link pool (init_page pool s₃ g) f g
        ])
  unfolding done leave ready
  created_cases r e (missed_new s' settled) last = no_page kept s' e
  created_cases r e (created n g s₃ small fresh unpinned new zero) last =
      rw (linked n g s₃ fresh unpinned new zero small last) (
        grew n (done n g s₃ fresh unpinned new zero small) last fresh (λ z. omega arith)
          (done-Settled n g s₃ fresh unpinned new zero small)
          (record {
            page_id = n;
            dirty = true;
            created_new_page = true;
            state = pool.set_bytes (init_page pool s₃ g) f (set_next_page m n);
          })
          refl refl refl)

  -- `advance` from a page with no room, where no page was created yet: to the page that follows, or
  -- to a new one, or no page can be created.
  pub advance-Onward :
      view.size s + 1 < 2 ^ 32 → Onward (advance pool (pool.set_bytes s₁ f m) f false)
  unfolding advance kept leave
  advance-Onward room = elim (eq_or_ne v.link invalid_page_id) [
    | inl last ↦
        let none_follows : (next_page (pool.bytes kept f) == invalid_page_id) ≡ true =
          subst (λ x. (x == invalid_page_id) ≡ true)
            (sym (ap next_page kept_bytes ∙ shows.link ∙ last)) refl in
        rw (none_follows, advance)
          (created_cases (pool.new_page kept) refl
            (laws.creates kept ghost kept-Changes.holds (omega (arith, kept-Changes.size, a.size)))
            last)
    | inr linked_on ↦
        let id : next_page (pool.bytes kept f) ≡ v.link = ap next_page kept_bytes ∙ shows.link in
        let some_follows : (next_page (pool.bytes kept f) == invalid_page_id) ≡ false =
          ground (arith, id, linked_on) in
        let (settled, size) =
          visit_same pool view laws s s₁ p f ghost few a m v false known shows in
        rw (some_follows, advance)
          (follows (leave pool s₁ f m false) linked_on settled size
            (record {
              page_id = next_page (pool.bytes kept f);
              dirty = false;
              created_new_page = false;
              state = kept;
            })
            id refl refl)
  ]
