-- ===== src/BufferPool/Laws.antt =====
-- The buffer pool keeps the laws of its interface, on a file on which no call fails.
use simple_duck_dbms.Base.{
  ℕ, ◌+◌, ◌-◌, ◌^◌, ◌<◌, ◌≡◌, ◌≢◌, inl, inr, refl, subst, some-injective, sym, ap, ◌∙◌, arith, Bool,
  true, false, Option, none, some, Option-cases, Result,
}
use simple_duck_dbms.Memory.{Memory}
use simple_duck_dbms.DiskManager.{Files, allocate_page}
use simple_duck_dbms.DiskManager.Allocation.{in_use, used_facts}
use simple_duck_dbms.DiskManager.File.{Lawful}
use simple_duck_dbms.BufferPool.{
  BufferPoolManager, fetch_page, new_page, delete_page, unpin_page, set_bytes, set_frame,
}
use simple_duck_dbms.BufferPool.Invariant.{
  IsTables, IsContents, Ghost, updated, pins, pins-some, pins-none, clip, Keeps,
}
use simple_duck_dbms.BufferPool.Evict.{true_ne_false}
use simple_duck_dbms.BufferPool.Fetch.{Fetched, no_frame, fetched}
use simple_duck_dbms.BufferPool.Pin.{fetch_page-Fetched, new_page-Fetched, allocated_capacity}
use simple_duck_dbms.BufferPool.Unpin.{
  InPlace, set_bytes-InPlace, set_bytes_same, unpin_dirty, unpin_clean,
}
use simple_duck_dbms.BufferPool.Delete.{
  DeletedPage, refused_zero, still_pinned, deleted, delete_page-DeletedPage,
}
use simple_duck_dbms.BufferPool.Interface.{
  Pool, View, Stays, Fetches, missed, got, Creates, missed_new, created, Changes, Deletes, kept,
  gone, PoolLaws,
}

-- The calls of the interface.
abbrev pub pool : {F : Type 0} → Files F → Pool (BufferPoolManager F)
pool files = record {
  fetch_page = fetch_page files;
  new_page = new_page files;
  delete_page = delete_page files;
  unpin_page = unpin_page;
  page_id = λ s f. (s.frames f).page_id;
  bytes = λ s f. (s.frames f).bytes;
  set_bytes = set_bytes;
}

module _ {F A : Type 0} (files : Files F) (w : Lawful files) (Rep : Memory → A → Type 0) where
  pub record IsPool (s : BufferPoolManager F) (ghost : Ghost A) (hot : Option ℕ) : Type 0 where
    pub tables : IsTables s
    pub contents : IsContents w Rep s ghost hot

  abbrev pub view : View (BufferPoolManager F) A
  view = record {
    Holds = IsPool;
    InFrame = λ s p f. s.page_table p ≡ some f;
    pins = pins;
    size = λ s. s.disk_manager.capacity;
  }

  keeps-Stays : (p : ℕ) (s s' : BufferPoolManager F) → Keeps p s s' → Stays (pool files) view p s s'
  keeps-Stays p s s' k = record {
    place = k.place;
    same = λ q f ne here pinned. ap (λ page. page.bytes) (k.same q f ne here pinned);
  }

  same_pins :
      (s s' : BufferPoolManager F)
      → s'.frames ≡ s.frames
      → s'.page_table ≡ s.page_table
      → (q : ℕ) → pins s' q ≡ pins s q
  same_pins s s' frames table q = elim (Option-cases (s.page_table q)) [
    | inl out ↦ pins-none s' q (ap (λ t. t q) table ∙ out) ∙ sym (pins-none s q out)
    | inr (g, h) ↦
        pins-some s' q g (ap (λ t. t q) table ∙ h)
        ∙ ap (λ fr. (fr g).pin_count) frames
        ∙ sym (pins-some s q g h)
  ]

  Fetched-Fetches :
      (s : BufferPoolManager F) (p : ℕ) (ghost : Ghost A)
      (r : Result (Option ℕ × BufferPoolManager F))
      → Fetched w Rep s p ghost ghost none s.disk_manager false r
      → Fetches (pool files) view s p ghost r
  Fetched-Fetches s p ghost r (no_frame s' all t c frames table disk) = missed s' (record {
    holds = record { tables = t; contents = c };
    pins_same = same_pins s s' frames table;
  })
  Fetched-Fetches s p ghost r (fetched f s' t c here self others keeps disk zeros) =
      got f s'
        (record {
          holds = record { tables = t; contents = c };
          here = here;
          pins_self = self;
          pins_ne = others;
          stays = keeps-Stays p s s' keeps;
          size = rw disk (omega arith);
        })
        (ap (λ d. d.capacity) disk)

  Fetched-Creates :
      (s : BufferPoolManager F) (ghost : Ghost A) (r : Result (Option ℕ × BufferPoolManager F))
      → IsPool s ghost none
      → in_use s.disk_manager (allocate_page s.disk_manager).0 ≡ false
      → Fetched w Rep s
          (allocate_page s.disk_manager).0
          ghost
          (updated ghost (allocate_page s.disk_manager).0 none)
          none
          (allocate_page s.disk_manager).1
          true
          r
      → Creates (pool files) view s ghost r
  Fetched-Creates s ghost r i unused (no_frame s' all t c frames table disk) =
      missed_new s' (record {
        holds = record { tables = t; contents = c };
        pins_same = same_pins s s' frames table;
      })
  Fetched-Creates s ghost r i unused (fetched f s' t c here self others keeps disk zeros) =
      let p = (allocate_page s.disk_manager).0 in
      created p f s' (small f s' t here) (untracked p unused) (unpinned p unused)
        (record {
          holds = record { tables = t; contents = c };
          here = here;
          pins_self = self;
          pins_ne = others;
          stays = keeps-Stays p s s' keeps;
          size = rw disk (allocated_capacity s.disk_manager);
        })
        (zeros refl)
    where
      small :
          (f : ℕ) (s' : BufferPoolManager F)
          → IsTables s'
          → s'.page_table (allocate_page s.disk_manager).0 ≡ some f
          → (allocate_page s.disk_manager).0 + 1 < 2 ^ 32
      small f s' t here = omega (
        arith,
        t.small,
        (used_facts s'.disk_manager (allocate_page s.disk_manager).0
            (t.used (allocate_page s.disk_manager).0 f here)).0,
      )

      untracked : (p : ℕ) → in_use s.disk_manager p ≡ false → ghost p ≡ none
      untracked p unused = elim (Option-cases (ghost p)) [
        | inl h ↦ h
        | inr (v, h) ↦ absurd (true_ne_false (sym (i.contents.tracked p v h) ∙ unused))
      ]

      unpinned : (p : ℕ) → in_use s.disk_manager p ≡ false → pins s p ≡ 0
      unpinned p unused = elim (Option-cases (s.page_table p)) [
        | inl h ↦ pins-none s p h
        | inr (f, h) ↦ absurd (true_ne_false (sym (i.tables.used p f h) ∙ unused))
      ]

  InPlace-Changes :
      (s : BufferPoolManager F) (p : ℕ) (ghost : Ghost A) (hot : Option ℕ) (n : ℕ)
      (s' : BufferPoolManager F)
      → InPlace w Rep s p ghost hot n s'
      → Changes (pool files) view s p ghost hot n s'
  InPlace-Changes s p ghost hot n s' c = record {
    holds = record { tables = c.tables; contents = c.contents };
    place = λ f here. c.place ∙ here;
    pins_self = c.pins_self;
    pins_ne = c.pins_ne;
    stays = keeps-Stays p s s' c.keeps;
    size = ap (λ d. d.capacity) c.disk;
  }

  DeletedPage-Deletes :
      (s : BufferPoolManager F) (p : ℕ) (ghost : Ghost A) (r : Result (Bool × BufferPoolManager F))
      → p ≢ 0
      → DeletedPage w Rep s p ghost r
      → Deletes (pool files) view s p ghost r
  DeletedPage-Deletes s p ghost r ne (refused_zero z) = absurd (ne z)
  DeletedPage-Deletes s p ghost r ne (still_pinned pinned) = kept pinned
  DeletedPage-Deletes s p ghost r ne (deleted s' none_pinned t c out others keeps capacity) =
      gone s' none_pinned (record { tables = t; contents = c }) others (keeps-Stays p s s' keeps)
        capacity

  bytes-set_bytes :
      (s : BufferPoolManager F) (f : ℕ) (m : Memory) → ((set_bytes s f m).frames f).bytes ≡ m
  unfolding set_bytes set_frame
  bytes-set_bytes s f m = ground arith

  -- The buffer pool over a file on which no call fails keeps the laws of its interface, for every
  -- relation `Rep` between bytes and values that depends on the bytes of the page alone.
  pub pool-PoolLaws :
      ((m : Memory) (v : A) → Rep m v → Rep (clip m) v) → PoolLaws (pool files) view Rep
  pool-PoolLaws clips = record {
    named = λ s p f ghost hot i here. i.tables.named p f here;
    shows = λ s p f ghost hot v i here known. i.contents.cached p f v here known;
    fetches = λ s p ghost v i known few. Fetched-Fetches s p ghost (fetch_page files s p) (
        fetch_page-Fetched files w Rep clips s p ghost i.tables i.contents
          (i.contents.tracked p v known) few);
    creates = λ s ghost i room.
        let (unused, r) = new_page-Fetched files w Rep clips s ghost i.tables i.contents room in
        Fetched-Creates s ghost (new_page files s) i unused r;
    writes = λ s p f ghost hot m v i here only rep.
        InPlace-Changes s p (updated ghost p (some v)) (some p) (pins s p) (set_bytes s f m)
          (set_bytes-InPlace w Rep s i.tables p f here ghost hot i.contents m v rep only);
    rewrites = λ s p f ghost hot m v i here known rep.
        InPlace-Changes s p ghost hot (pins s p) (set_bytes s f m) (
          set_bytes_same w Rep s i.tables p f here ghost hot i.contents m
            (λ v' known'. subst (Rep m) (some-injective v v' (sym known ∙ known')) rep));
    reads_back = λ s p f m here. bytes-set_bytes s f m;
    unpins_dirty = λ s p f ghost hot i here only pinned few.
        InPlace-Changes s p ghost none (pins s p - 1) (unpin_page s p true)
          (unpin_dirty w Rep s i.tables p f here ghost (omega arith) few hot i.contents only);
    unpins_clean = λ s p f ghost i here pinned few.
        InPlace-Changes s p ghost none (pins s p - 1) (unpin_page s p false)
          (unpin_clean w Rep s i.tables p f here ghost (omega arith) few i.contents);
    deletes = λ s p ghost v i known ne. DeletedPage-Deletes s p ghost (delete_page files s p) ne (
        delete_page-DeletedPage w Rep s p ghost i.tables i.contents (i.contents.tracked p v known));
  }
