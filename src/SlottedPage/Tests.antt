-- ===== src/SlottedPage/Tests.antt =====
-- A page with a tuple of two bytes.
use simple_duck_dbms.Base.{ℕ, ◌≡◌, refl, arith, Bool, false, List, [], ◌∷◌, Option, none, some, ok}
use simple_duck_dbms.Base.Sums.{sum}
use simple_duck_dbms.Memory.{Memory}
use simple_duck_dbms.SlottedPage.{
  init, slot_count, slot_offset, slot_length, free_space_offset, insert_tuple, delete_tuple,
  try_update_in_place, compact, restore_tuple, is_compacted, has_next_page, page_size,
}
use simple_duck_dbms.SlottedPage.Invariant.{live_length, IsPage, tuple_at}
use simple_duck_dbms.SlottedPage.Init.{init-IsPage}
use simple_duck_dbms.SlottedPage.Insert.{Inserted, insert_tuple-Inserted}
use simple_duck_dbms.SlottedPage.Remove.{Deleted, delete_tuple-Deleted}
use simple_duck_dbms.SlottedPage.Update.{Updated, try_update_in_place-Updated}
use simple_duck_dbms.SlottedPage.Compaction.{Compact, compact-Compact}
use simple_duck_dbms.SlottedPage.Restore.{
  Restored, restore_tuple-Restored, restore_tuple-delete_tuple,
}
use simple_duck_dbms.SlottedPage.IsCompacted.{is_compacted-compact}

abbrev blank : Memory
blank = init (λ _. 0)

abbrev two_bytes : List ℕ
two_bytes = 1 ∷ 2 ∷ []

-- The page behind an insertion, or the page before.
abbrev page_after : Option (ℕ × Memory) → Memory → Memory
page_after none m = m
page_after (some (i, m')) m = m'

page_after-IsPage :
    {m : Memory} {t : List ℕ} {o : Option (ℕ × Memory)}
    → Inserted m t o
    → IsPage m
    → IsPage (page_after o m)
page_after-IsPage (Inserted.no_space h) p = p
page_after-IsPage (Inserted.no_slot h h') p = p
page_after-IsPage (Inserted.stored i m' page room before after others link space) p = page

abbrev one_tuple : Memory
one_tuple = page_after (insert_tuple blank two_bytes none) blank

abbrev two_tuples : Memory
two_tuples = page_after (insert_tuple one_tuple two_bytes none) one_tuple

blank-IsPage : IsPage blank
blank-IsPage = init-IsPage (λ _. 0) (λ x. omega arith)

insert_tuple-Inserted_example : Inserted blank two_bytes (insert_tuple blank two_bytes none)
insert_tuple-Inserted_example =
    insert_tuple-Inserted blank two_bytes none blank-IsPage (omega arith, (omega arith, tt))
      (omega arith)

one_tuple-IsPage : IsPage one_tuple
one_tuple-IsPage =
    page_after-IsPage
      (insert_tuple-Inserted blank two_bytes none blank-IsPage (omega arith, (omega arith, tt))
        (omega arith))
      blank-IsPage

two_tuples-IsPage : IsPage two_tuples
two_tuples-IsPage =
    page_after-IsPage
      (insert_tuple-Inserted one_tuple two_bytes none one_tuple-IsPage
        (omega arith, (omega arith, tt)) (omega arith))
      one_tuple-IsPage

delete_tuple-Deleted_example : Deleted one_tuple 0 (delete_tuple one_tuple 0)
delete_tuple-Deleted_example = delete_tuple-Deleted one_tuple 0 one_tuple-IsPage

try_update_in_place-Updated_example :
    Updated one_tuple 0 (9 ∷ []) (try_update_in_place one_tuple 0 (9 ∷ []))
try_update_in_place-Updated_example =
    try_update_in_place-Updated one_tuple 0 (9 ∷ []) one_tuple-IsPage (omega arith, tt)
      (omega arith)

compact-Compact_example : Compact two_tuples (compact two_tuples)
compact-Compact_example = compact-Compact two_tuples two_tuples-IsPage

one_tuple_holds : tuple_at one_tuple 0 ≡ some two_bytes
unfolding tuple_at live_length sum delete_tuple slot_count slot_length slot_offset insert_tuple
    free_space_offset init simple_duck_dbms.SlottedPage.free_space_bytes
    simple_duck_dbms.SlottedPage.free_slot simple_duck_dbms.SlottedPage.find_empty_slot
    simple_duck_dbms.SlottedPage.empty_from simple_duck_dbms.SlottedPage.place
    simple_duck_dbms.SlottedPage.allocate_slot simple_duck_dbms.SlottedPage.set_next_page
    simple_duck_dbms.Memory.read16 simple_duck_dbms.Memory.write16 simple_duck_dbms.Memory.write32
    simple_duck_dbms.Memory.write_bytes simple_duck_dbms.Memory.read_bytes
one_tuple_holds = refl

restore_tuple-delete_tuple_example :
    (m' : Memory) × (restore_tuple (delete_tuple one_tuple 0).1 0 two_bytes ≡ ok m')
    × IsPage m'
    × ((j : ℕ) → tuple_at m' j ≡ tuple_at one_tuple j)
restore_tuple-delete_tuple_example =
    restore_tuple-delete_tuple one_tuple 0 two_bytes one_tuple-IsPage one_tuple_holds

-- A page whose slot is free.
abbrev emptied : Memory
emptied = (delete_tuple one_tuple 0).1

deleted-IsPage : {m : Memory} {i : ℕ} {r : Bool × Memory} → Deleted m i r → IsPage m → IsPage r.1
deleted-IsPage (Deleted.absent e) p = p
deleted-IsPage (Deleted.deleted m' page before after others link count space) p = page

emptied_count : slot_count emptied ≡ 1
unfolding tuple_at live_length sum delete_tuple slot_count slot_length slot_offset insert_tuple
    free_space_offset init simple_duck_dbms.SlottedPage.free_space_bytes
    simple_duck_dbms.SlottedPage.free_slot simple_duck_dbms.SlottedPage.find_empty_slot
    simple_duck_dbms.SlottedPage.empty_from simple_duck_dbms.SlottedPage.place
    simple_duck_dbms.SlottedPage.allocate_slot simple_duck_dbms.SlottedPage.set_next_page
    simple_duck_dbms.Memory.read16 simple_duck_dbms.Memory.write16 simple_duck_dbms.Memory.write32
    simple_duck_dbms.Memory.write_bytes simple_duck_dbms.Memory.read_bytes
emptied_count = refl

emptied_free : slot_offset emptied 0 ≡ 0
unfolding tuple_at live_length sum delete_tuple slot_count slot_length slot_offset insert_tuple
    free_space_offset init simple_duck_dbms.SlottedPage.free_space_bytes
    simple_duck_dbms.SlottedPage.free_slot simple_duck_dbms.SlottedPage.find_empty_slot
    simple_duck_dbms.SlottedPage.empty_from simple_duck_dbms.SlottedPage.place
    simple_duck_dbms.SlottedPage.allocate_slot simple_duck_dbms.SlottedPage.set_next_page
    simple_duck_dbms.Memory.read16 simple_duck_dbms.Memory.write16 simple_duck_dbms.Memory.write32
    simple_duck_dbms.Memory.write_bytes simple_duck_dbms.Memory.read_bytes
emptied_free = refl

emptied_total : sum (live_length emptied) 1 ≡ 0
unfolding tuple_at live_length sum delete_tuple slot_count slot_length slot_offset insert_tuple
    free_space_offset init simple_duck_dbms.SlottedPage.free_space_bytes
    simple_duck_dbms.SlottedPage.free_slot simple_duck_dbms.SlottedPage.find_empty_slot
    simple_duck_dbms.SlottedPage.empty_from simple_duck_dbms.SlottedPage.place
    simple_duck_dbms.SlottedPage.allocate_slot simple_duck_dbms.SlottedPage.set_next_page
    simple_duck_dbms.Memory.read16 simple_duck_dbms.Memory.write16 simple_duck_dbms.Memory.write32
    simple_duck_dbms.Memory.write_bytes simple_duck_dbms.Memory.read_bytes
emptied_total = refl

restore_tuple-Restored_example : Restored emptied 0 two_bytes (restore_tuple emptied 0 two_bytes)
restore_tuple-Restored_example =
    restore_tuple-Restored emptied 0 two_bytes
      (deleted-IsPage (delete_tuple-Deleted one_tuple 0 one_tuple-IsPage) one_tuple-IsPage)
      (omega arith, (omega arith, tt)) (omega arith) (omega (arith, emptied_count)) emptied_free
      (rw emptied_count (omega (arith, emptied_total)))

two_tuples_count : slot_count two_tuples ≡ 2
unfolding tuple_at live_length sum delete_tuple slot_count slot_length slot_offset insert_tuple
    free_space_offset init simple_duck_dbms.SlottedPage.free_space_bytes
    simple_duck_dbms.SlottedPage.free_slot simple_duck_dbms.SlottedPage.find_empty_slot
    simple_duck_dbms.SlottedPage.empty_from simple_duck_dbms.SlottedPage.place
    simple_duck_dbms.SlottedPage.allocate_slot simple_duck_dbms.SlottedPage.set_next_page
    simple_duck_dbms.Memory.read16 simple_duck_dbms.Memory.write16 simple_duck_dbms.Memory.write32
    simple_duck_dbms.Memory.write_bytes simple_duck_dbms.Memory.read_bytes
two_tuples_count = refl

two_tuples_first : slot_offset two_tuples 0 ≡ 8190
unfolding tuple_at live_length sum delete_tuple slot_count slot_length slot_offset insert_tuple
    free_space_offset init simple_duck_dbms.SlottedPage.free_space_bytes
    simple_duck_dbms.SlottedPage.free_slot simple_duck_dbms.SlottedPage.find_empty_slot
    simple_duck_dbms.SlottedPage.empty_from simple_duck_dbms.SlottedPage.place
    simple_duck_dbms.SlottedPage.allocate_slot simple_duck_dbms.SlottedPage.set_next_page
    simple_duck_dbms.Memory.read16 simple_duck_dbms.Memory.write16 simple_duck_dbms.Memory.write32
    simple_duck_dbms.Memory.write_bytes simple_duck_dbms.Memory.read_bytes
two_tuples_first = refl

two_tuples_second : slot_offset two_tuples 1 ≡ 8188
unfolding tuple_at live_length sum delete_tuple slot_count slot_length slot_offset insert_tuple
    free_space_offset init simple_duck_dbms.SlottedPage.free_space_bytes
    simple_duck_dbms.SlottedPage.free_slot simple_duck_dbms.SlottedPage.find_empty_slot
    simple_duck_dbms.SlottedPage.empty_from simple_duck_dbms.SlottedPage.place
    simple_duck_dbms.SlottedPage.allocate_slot simple_duck_dbms.SlottedPage.set_next_page
    simple_duck_dbms.Memory.read16 simple_duck_dbms.Memory.write16 simple_duck_dbms.Memory.write32
    simple_duck_dbms.Memory.write_bytes simple_duck_dbms.Memory.read_bytes
two_tuples_second = refl

two_tuples_length : slot_length two_tuples 0 ≡ 2
unfolding tuple_at live_length sum delete_tuple slot_count slot_length slot_offset insert_tuple
    free_space_offset init simple_duck_dbms.SlottedPage.free_space_bytes
    simple_duck_dbms.SlottedPage.free_slot simple_duck_dbms.SlottedPage.find_empty_slot
    simple_duck_dbms.SlottedPage.empty_from simple_duck_dbms.SlottedPage.place
    simple_duck_dbms.SlottedPage.allocate_slot simple_duck_dbms.SlottedPage.set_next_page
    simple_duck_dbms.Memory.read16 simple_duck_dbms.Memory.write16 simple_duck_dbms.Memory.write32
    simple_duck_dbms.Memory.write_bytes simple_duck_dbms.Memory.read_bytes
two_tuples_length = refl

is_compacted-compact_example : is_compacted (compact two_tuples) ≡ false
is_compacted-compact_example =
    is_compacted-compact two_tuples two_tuples-IsPage (omega (arith, two_tuples_count))
      (λ e. omega (arith, two_tuples_first)) (λ e. omega (arith, two_tuples_second))
      (omega (arith, two_tuples_length))
