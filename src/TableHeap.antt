-- ===== src/TableHeap.antt =====
-- table/table_heap.hpp and table/table_heap.cpp: a chain of slotted pages in the buffer pool. The
-- calls run one after the other; a page is unpinned where the scope of its `PinnedPage` ends.
pub mod PageView
pub mod PageBytes
pub mod Leave
pub mod Visit
pub mod Chain
pub mod Grown
pub mod Grow
pub mod Inserted
pub mod InsertLoop
pub mod Insert
pub mod Access
pub mod Pages
pub mod Replace
pub mod Update
pub mod ScanSlot
pub mod ScanRow
pub mod ScanNext
pub mod Create
pub mod Tests
use simple_duck_dbms.Base.{
  ℕ, zero, suc, ◌+◌, ◌-◌, ◌%◌, ◌^◌, Bool, true, false, not, List, [], ◌∷◌, ◌++◌, Option, none, some,
  Result, ok, throw, Error, ◌>>=◌, ◌>>◌, throw_if, length, ltb, ◌==◌, if◌then◌else◌,
}
use simple_duck_dbms.Memory.{Memory}
use simple_duck_dbms.Transaction.{Rid}
use simple_duck_dbms.SlottedPage
use simple_duck_dbms.SlottedPage.{
  page_size, header_size, slot_size, invalid_page_id, next_page, set_next_page, init, is_compacted,
  compact, has_slot, has_next_page, next_occupied_slot,
}
use simple_duck_dbms.BufferPool.Interface.{Pool}

pub data TableHeapFetchStatus : Type 0 where
  failed success : TableHeapFetchStatus

-- The two attempts of `insert_tuple` on a page: as it is, and compacted.
unfoldable pub attempt : Memory → List ℕ → Option ℕ × Memory
attempt m tuple = elim (SlottedPage.insert_tuple m tuple none) [
  | some (slot, m') ↦ (some slot, m')
  | none ↦
      if is_compacted m then (none, m) else elim (SlottedPage.insert_tuple (compact m) tuple none) [
        | some (slot, m') ↦ (some slot, m')
        | none ↦ (none, compact m)
      ]
]

-- `view.empty()`
unfoldable pub non_empty : List ℕ → Option (List ℕ)
non_empty [] = none
non_empty (b ∷ bytes) = some (b ∷ bytes)

-- What is left of `update_tuple` on the page, behind `try_update_in_place`.
unfoldable pub replace : Memory → ℕ → List ℕ → Option ℕ × Memory
replace m slot tuple =
    let m₁ = if is_compacted m then m else compact m in
    elim (SlottedPage.insert_tuple m₁ tuple (some slot)) [
      | some (i, m₂) ↦ (some i, m₂)
      | none ↦ (none, m₁)
    ]

-- The slot that `next` looks at.
unfoldable pub scan_slot : Memory → ℕ → ℕ
scan_slot m slot =
    if has_slot m slot
    then slot
    else elim (next_occupied_slot m slot) [ some next ↦ next | none ↦ slot ]

module _ {S : Type 0} (pool : Pool S) where
  -- `next_page` of `insert_tuple`: the new page, initialised and unpinned.
  unfoldable pub init_page : S → ℕ → S
  init_page s frame =
      let s₁ = pool.set_bytes s frame (init (pool.bytes s frame)) in
      pool.unpin_page s₁ (pool.page_id s₁ frame) true

  -- `create`: the id of the first page.
  unfoldable pub create : S → Result (ℕ × S)
  create s = do
    (page, s₁) ← pool.new_page s
    elim page [
      | none ↦ throw Error.runtime_error
      | some frame ↦ ok (pool.page_id s₁ frame, init_page s₁ frame)
    ]

  -- The page that follows in the chain, where the tuple did not fit: its id, whether the page at
  -- hand was marked dirty, and whether a page was created.
  pub record Following : Type 0 where
    pub page_id : ℕ
    pub dirty : Bool
    pub created_new_page : Bool
    pub state : S

  -- The new page `next` is linked, unless a page was linked meanwhile.
  unfoldable pub link : S → ℕ → ℕ → Result Following
  link s frame next =
      if next_page (pool.bytes s frame) == invalid_page_id
      then ok (record {
        page_id = pool.page_id s next;
        dirty = true;
        created_new_page = true;
        state = pool.set_bytes s frame (set_next_page (pool.bytes s frame) (pool.page_id s next));
      })
      else (do
        (deleted, s₁) ← pool.delete_page s (pool.page_id s next)
        ok (record {
          page_id = next_page (pool.bytes s frame);
          dirty = false;
          created_new_page = true;
          state = s₁;
        }))

  unfoldable pub advance : S → ℕ → Bool → Result Following
  advance s frame created_new_page =
      if next_page (pool.bytes s frame) == invalid_page_id
      then (do
        throw_if created_new_page Error.runtime_error
        (page, s₁) ← pool.new_page s
        elim page [
          | none ↦ throw Error.runtime_error
          | some next ↦ link (init_page s₁ next) frame next
        ])
      else ok (record {
        page_id = next_page (pool.bytes s frame);
        dirty = false;
        created_new_page = created_new_page;
        state = s;
      })

  -- The loop of `insert_tuple`, on fuel.
  unfoldable pub insert_loop : ℕ → S → ℕ → Bool → List ℕ → Result (Option Rid × S)
  insert_loop zero s page_id created_new_page tuple = throw Error.out_of_fuel
  insert_loop (suc fuel) s page_id created_new_page tuple = do
    (page, s₁) ← pool.fetch_page s page_id
    elim page [
      | none ↦ ok (none, s₁)
      | some frame ↦
          let (slot, m) = attempt (pool.bytes s₁ frame) tuple in
          let s₂ = pool.set_bytes s₁ frame m in
          elim slot [
            | some i ↦ ok (
              some (record { page_id = pool.page_id s₂ frame; slot_num = i }),
              pool.unpin_page s₂ (pool.page_id s₂ frame) true,
            )
            | none ↦ do
              next ← advance s₂ frame created_new_page
              insert_loop fuel
                  (pool.unpin_page next.state (pool.page_id next.state frame) next.dirty)
                  next.page_id next.created_new_page tuple
          ]
    ]

  unfoldable pub insert_tuple : ℕ → S → ℕ → List ℕ → Result (Option Rid × S)
  insert_tuple fuel s first_page_id tuple = do
    throw_if (ltb (page_size - header_size - slot_size) (length tuple)) Error.runtime_error
    insert_loop fuel s first_page_id false tuple

  unfoldable pub get_tuple : S → Rid → Result (Option (List ℕ) × S)
  get_tuple s rid = do
    (page, s₁) ← pool.fetch_page s rid.page_id
    elim page [
      | none ↦ ok (none, s₁)
      | some frame ↦
          let view = SlottedPage.get_tuple (pool.bytes s₁ frame) rid.slot_num in
          ok (non_empty view, pool.unpin_page s₁ (pool.page_id s₁ frame) false)
    ]

  -- A page that is left, with the bytes that it has now.
  unfoldable pub leave : S → ℕ → Memory → Bool → S
  leave s frame m dirty =
      let s₁ = pool.set_bytes s frame m in pool.unpin_page s₁ (pool.page_id s₁ frame) dirty

  -- `update_tuple` on the page in the frame.
  unfoldable pub update_in : ℕ → S → ℕ → ℕ → Rid → List ℕ → Result (Option Rid × S)
  update_in fuel s first_page_id frame rid tuple =
      let m = pool.bytes s frame in
      if not (has_slot m rid.slot_num)
      then ok (none, leave s frame m false)
      else let (updated, m₁) = SlottedPage.try_update_in_place m rid.slot_num tuple in
        if updated
        then ok (some rid, leave s frame m₁ true)
        else let (deleted, m₂) = SlottedPage.delete_tuple m rid.slot_num in
          if not deleted
          then ok (none, leave s frame m₂ false)
          else let (slot, m₃) = replace m₂ rid.slot_num tuple in
            elim slot [
              | some i ↦ ok (
                some (record { page_id = pool.page_id s frame; slot_num = i }),
                leave s frame m₃ true,
              )
              | none ↦ insert_tuple fuel (leave s frame m₃ true) first_page_id tuple
            ]

  unfoldable pub update_tuple : ℕ → S → ℕ → Rid → List ℕ → Result (Option Rid × S)
  update_tuple fuel s first_page_id rid tuple = do
    (page, s₁) ← pool.fetch_page s rid.page_id
    elim page [
      | none ↦ ok (none, s₁)
      | some frame ↦ update_in fuel s₁ first_page_id frame rid tuple
    ]

  unfoldable pub delete_tuple : S → Rid → Result (Bool × S)
  delete_tuple s rid = do
    (page, s₁) ← pool.fetch_page s rid.page_id
    elim page [
      | none ↦ ok (false, s₁)
      | some frame ↦
          let (deleted, m) = SlottedPage.delete_tuple (pool.bytes s₁ frame) rid.slot_num in
          ok (deleted, leave s₁ frame m deleted)
    ]

  -- The page is not marked dirty.
  unfoldable pub restore_tuple : S → Rid → List ℕ → Result S
  restore_tuple s rid tuple = do
    (page, s₁) ← pool.fetch_page s rid.page_id
    elim page [
      | none ↦ ok s₁
      | some frame ↦ do
        m ← SlottedPage.restore_tuple (pool.bytes s₁ frame) rid.slot_num tuple
        ok (leave s₁ frame m false)
    ]

  -- The loop of `all_pages`, on fuel.
  unfoldable pub pages_from : ℕ → S → ℕ → List ℕ → Result (List ℕ × TableHeapFetchStatus × S)
  pages_from zero s page_id result = throw Error.out_of_fuel
  pages_from (suc fuel) s page_id result = do
    (page, s₁) ← pool.fetch_page s page_id
    elim page [
      | none ↦ ok (result, TableHeapFetchStatus.failed, s₁)
      | some frame ↦
          let next = next_page (pool.bytes s₁ frame) in
          let s₂ = pool.unpin_page s₁ (pool.page_id s₁ frame) false in
          let rest = pages_from fuel s₂ next (result ++ (page_id ∷ [])) in
          if next == invalid_page_id
          then ok (result ++ (page_id ∷ []), TableHeapFetchStatus.success, s₂)
          else rest
    ]

  unfoldable pub all_pages : ℕ → S → ℕ → Result (List ℕ × TableHeapFetchStatus × S)
  all_pages fuel s first_page_id = pages_from fuel s first_page_id []

  unfoldable pub drop_page : S → ℕ → Result (Bool × S)
  drop_page s page_id = pool.delete_page s page_id

  pub record Scan : Type 0 where
    pub current_rid : Rid
    pub current_page : Option ℕ

  unfoldable pub scan : S → ℕ → Result (Scan × S)
  scan s first_page_id = do
    (page, s₁) ← pool.fetch_page s first_page_id
    ok (
      record {
        current_rid = record { page_id = first_page_id; slot_num = 0 };
        current_page = page;
      },
      s₁,
    )

  -- The destructor.
  unfoldable pub close : Scan → S → S
  close c s = elim c.current_page [
    | none ↦ s
    | some frame ↦ pool.unpin_page s (pool.page_id s frame) false
  ]

  -- `Scan::operator=` from another scan, which is left without a page.
  unfoldable pub assign : Scan → Scan → S → Scan × Scan × S
  assign this other s = (other, record other { current_page = none }, close this s)

  unfoldable pub next_rid : Scan → Rid
  next_rid c = c.current_rid

  -- `Scan::next_page`, with a page at hand.
  unfoldable pub scan_page : Scan → ℕ → S → Result (Bool × Scan × S)
  scan_page c frame s = if not (has_next_page (pool.bytes s frame)) then ok (false, c, s) else (do
    let next_page_id = next_page (pool.bytes s frame)
    (page, s₁) ← pool.fetch_page (pool.unpin_page s (pool.page_id s frame) false) next_page_id
    elim page [
      | none ↦ ok (false, c, s₁)
      | some next ↦ ok (
        true,
        record {
          current_rid = record { page_id = pool.page_id s₁ next; slot_num = 0 };
          current_page = some next;
        },
        s₁,
      )
    ])

  -- `Scan::next`, on fuel.
  unfoldable pub scan_next : ℕ → Scan → S → Result (Option (Rid × List ℕ) × Scan × S)
  scan_next zero c s = throw Error.out_of_fuel
  scan_next (suc fuel) c s = elim c.current_page [
    | none ↦ ok (none, c, s)
    | some frame ↦
        let m = pool.bytes s frame in
        let slot = scan_slot m c.current_rid.slot_num in
        let rid : Rid = record c.current_rid { slot_num = slot } in
        elim (has_slot m slot) [
          | true ↦ ok (
            some (rid, SlottedPage.get_tuple m slot),
            record c { current_rid = record rid { slot_num = (slot + 1) % 2 ^ 16 } },
            s,
          )
          | false ↦ do
            (moved, c', s') ← scan_page (record c { current_rid = rid }) frame s
            elim moved [ true ↦ scan_next fuel c' s' | false ↦ ok (none, c', s') ]
        ]
  ]
