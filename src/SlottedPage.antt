-- ===== src/SlottedPage.antt =====
-- table/slotted_page.hpp and table/slotted_page.cpp: the layout of a page of tuples, on its bytes.
-- The header is { next_page_id : 4 bytes, slot_count : 2, free_space_offset : 2 }, and slot `i`
-- stands at 8 + 4 i as { offset : 2, length : 2 }. An operation returns the new bytes of the page.
pub mod Fields
pub mod Invariant
pub mod Allocate
pub mod Insert
pub mod Shrink
pub mod Remove
pub mod Update
pub mod CompactLoop
pub mod CompactSlots
pub mod Packed
pub mod Compaction
pub mod Restore
pub mod Init
pub mod IsCompacted
pub mod Occupied
mod Tests
use simple_duck_dbms.Base.{
  ℕ, zero, suc, ◌+◌, ◌-◌, ◌*◌, ◌%◌, ◌^◌, Bool, true, false, not, ◌&&◌, ◌||◌, List, [], ◌∷◌, ◌++◌,
  Option, none, some, length, Result, ok, throw, Error, ◌>>=◌, ◌>>◌, throw_if, ltb, ◌==◌,
  if◌then◌else◌,
}
use simple_duck_dbms.Base.Int.{ℤ, pos, sub_ℕ, ltb_ℤ, ◌-ℤ◌}
use simple_duck_dbms.Memory.{Memory, read16, write16, read32, write32, read_bytes, write_bytes}

abbrev pub page_size : ℕ
page_size = 8192

abbrev pub invalid_page_id : ℕ
invalid_page_id = 2 ^ 32 - 1

abbrev pub invalid_slot_offset : ℕ
invalid_slot_offset = 0

abbrev pub header_size : ℕ
header_size = 8

abbrev pub slot_size : ℕ
slot_size = 4

unfoldable pub next_page : Memory → ℕ
next_page m = read32 m 0

unfoldable pub set_next_page : Memory → ℕ → Memory
set_next_page m page_id = write32 m 0 page_id

unfoldable pub slot_count : Memory → ℕ
slot_count m = read16 m 4

unfoldable pub free_space_offset : Memory → ℕ
free_space_offset m = read16 m 6

abbrev pub slot_at : ℕ → ℕ
slot_at i = header_size + slot_size * i

unfoldable pub slot_offset : Memory → ℕ → ℕ
slot_offset m i = read16 m (slot_at i)

unfoldable pub slot_length : Memory → ℕ → ℕ
slot_length m i = read16 m (slot_at i + 2)

unfoldable pub init : Memory → Memory
unfolding set_next_page
init m = write16 (write16 (set_next_page m invalid_page_id) 6 (page_size % 2 ^ 16)) 4 0

unfoldable pub free_space_bytes : Memory → ℤ
free_space_bytes m =
    let slots_used = header_size + slot_count m * slot_size in
    sub_ℕ (free_space_offset m) slots_used

-- The loop of `find_empty_slot` from slot `i` on, with `n` slots left.
unfoldable pub empty_from : Memory → ℕ → ℕ → Option ℕ
empty_from m i zero = none
empty_from m i (suc n) =
    let rest = empty_from m (i + 1) n in
    if slot_offset m i == invalid_slot_offset then some i else rest

unfoldable pub find_empty_slot : Memory → Option ℕ
find_empty_slot m = empty_from m 0 (slot_count m)

-- The new slot is the one behind the last.
unfoldable pub allocate_slot : Memory → ℕ × Memory
allocate_slot m =
    let slot_idx = slot_count m in
    (
      slot_idx,
      write16 (write16 m 4 ((slot_idx + 1) % 2 ^ 16)) (slot_at slot_idx) invalid_slot_offset,
    )

-- The end of `insert_tuple`: the slot takes the tuple, at the low end of the tuples.
unfoldable pub place : Memory → ℕ → List ℕ → Memory
place m slot_idx tuple =
    let tuple_size = length tuple % 2 ^ 16 in
    let m₁ = write16 m (slot_at slot_idx + 2) tuple_size in
    let offset = (free_space_offset m₁ + 2 ^ 16 - tuple_size) % 2 ^ 16 in
    let m₂ = write16 m₁ (slot_at slot_idx) offset in write_bytes (write16 m₂ 6 offset) offset tuple

-- `prefered_slot` is free.
prefers : Memory → Option ℕ → Option ℕ
prefers m none = none
prefers m (some i) =
    if ltb i (slot_count m) && slot_offset m i == invalid_slot_offset then some i else none

-- The slot that `insert_tuple` reuses, if there is one.
unfoldable pub free_slot : Memory → Option ℕ → Option ℕ
unfolding prefers
free_slot m prefered = elim (prefers m prefered) [ some i ↦ some i | none ↦ find_empty_slot m ]

-- `insert_tuple`: the number of the slot of the RID, and the new bytes. Its page id is filled in by
-- the caller.
unfoldable pub insert_tuple : Memory → List ℕ → Option ℕ → Option (ℕ × Memory)
insert_tuple m tuple prefered =
    let available_space = free_space_bytes m in
    let tuple_size = length tuple % 2 ^ 16 in
    if ltb_ℤ available_space (pos tuple_size) then none else elim (free_slot m prefered) [
      | some slot_idx ↦ some (slot_idx, place m slot_idx tuple)
      | none ↦
          if ltb_ℤ (available_space -ℤ pos tuple_size) (pos slot_size)
          then none
          else (let (slot_idx, m₁) = allocate_slot m in some (slot_idx, place m₁ slot_idx tuple))
    ]

unfoldable pub has_slot : Memory → ℕ → Bool
has_slot m i = ltb i (slot_count m) && not (slot_offset m i == invalid_slot_offset)

-- The empty span stands for no tuple.
unfoldable pub get_tuple : Memory → ℕ → List ℕ
get_tuple m i =
    if not (ltb i (slot_count m))
    then []
    else if slot_offset m i == invalid_slot_offset
    then []
    else read_bytes m (slot_offset m i) (slot_length m i)

unfoldable pub try_update_in_place : Memory → ℕ → List ℕ → Bool × Memory
try_update_in_place m i tuple =
    if not (ltb i (slot_count m))
    then (false, m)
    else if slot_offset m i == invalid_slot_offset
    then (false, m)
    else let tuple_size = length tuple % 2 ^ 16 in
      if ltb (slot_length m i) tuple_size
      then (false, m)
      else (true, write16 (write_bytes m (slot_offset m i) tuple) (slot_at i + 2) tuple_size)

unfoldable pub delete_tuple : Memory → ℕ → Bool × Memory
delete_tuple m i =
    if not (ltb i (slot_count m))
    then (false, m)
    else if slot_offset m i == invalid_slot_offset
    then (false, m)
    else (true, write16 m (slot_at i) invalid_slot_offset)

-- The loop of `is_compacted`, from slot `i` on: the final `next_offset`, or that it returned.
unfoldable pub compacted_from : Memory → ℕ → ℕ → ℕ → Option ℕ
compacted_from m i zero next_offset = some next_offset
compacted_from m i (suc n) next_offset =
    let skipped = compacted_from m (i + 1) n next_offset in
    let further = compacted_from m (i + 1) n ((next_offset + slot_length m i) % 2 ^ 16) in
    if slot_offset m i == invalid_slot_offset
    then skipped
    else if not (next_offset == slot_offset m i)
    then none
    else further

unfoldable pub is_compacted : Memory → Bool
is_compacted m =
    if slot_count m == 0 then true else elim (compacted_from m 0 (slot_count m) (slot_offset m 0)) [
      | none ↦ false
      | some next_offset ↦ next_offset == page_size
    ]

-- What the loop of `compact` builds: the new slots, `offset`, and the buffer `compacted`.
pub record Compacted : Type 0 where
  pub slots : List (ℕ × ℕ)
  pub offset : ℕ
  pub buffer : Memory

-- The loop from slot `i` on. The vector of slots grows at its end.
unfoldable pub compact_from : Memory → ℕ → ℕ → ℕ → Memory → Compacted
compact_from m i zero offset buffer = record { slots = []; offset = offset; buffer = buffer }
compact_from m i (suc n) offset buffer =
    let down = (offset + 2 ^ 16 - slot_length m i) % 2 ^ 16 in
    let skipped = compact_from m (i + 1) n offset buffer in
    let moved =
      compact_from m (i + 1) n down
        (write_bytes buffer down (read_bytes m (slot_offset m i) (slot_length m i))) in
    if slot_offset m i == invalid_slot_offset
    then record skipped { slots = (invalid_slot_offset, 0) ∷ skipped.slots }
    else record moved { slots = (down, slot_length m i) ∷ moved.slots }

-- `memcpy` of the slots to the slot array, from slot `i` on.
unfoldable pub write_slots : Memory → ℕ → List (ℕ × ℕ) → Memory
write_slots m i [] = m
write_slots m i ((offset, len) ∷ slots) =
    write_slots (write16 (write16 m (slot_at i) offset) (slot_at i + 2) len) (i + 1) slots

unfoldable pub compact : Memory → Memory
compact m =
    let c = compact_from m 0 (slot_count m) (page_size % 2 ^ 16) (λ _. 0) in
    let header = write16 (write16 (write32 (λ _. 0) 0 (next_page m)) 4 (slot_count m)) 6 c.offset in
    let filled = write_slots header 0 c.slots in
    λ x. if not (ltb x c.offset) && ltb x page_size then c.buffer x else filled x

-- `restore_tuple`: the three assertions, and the insertion into the given slot.
unfoldable pub restore_tuple : Memory → ℕ → List ℕ → Result Memory
restore_tuple m i tuple = do
  throw_if (not (ltb i (slot_count m))) Error.assertion
  throw_if (not (slot_offset m i == invalid_slot_offset)) Error.assertion
  let tuple_size = length tuple % 2 ^ 16
  let m₁ = if ltb_ℤ (free_space_bytes m) (pos tuple_size) then compact m else m
  throw_if (ltb_ℤ (free_space_bytes m₁) (pos tuple_size)) Error.assertion
  elim (insert_tuple m₁ tuple (some i)) [
    | none ↦ throw Error.assertion
    | some (slot_idx, m₂) ↦ ok m₂
  ]

-- The loop of `next_occupied_slot`, at slot `i` with `n` slots left.
unfoldable pub occupied_from : Memory → ℕ → ℕ → Option ℕ
occupied_from m i zero = none
occupied_from m i (suc n) =
    let rest = occupied_from m (i + 1) n in
    if slot_offset m i == invalid_slot_offset then rest else some i

-- `++slot_num` is on 16 bits.
unfoldable pub next_occupied_slot : Memory → ℕ → Option ℕ
next_occupied_slot m i =
    let start = (i + 1) % 2 ^ 16 in occupied_from m start (slot_count m - start)

unfoldable pub has_next_page : Memory → Bool
has_next_page m = not (next_page m == invalid_page_id)
