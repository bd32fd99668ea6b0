-- ===== src/TableHeap/ScanSlot.antt =====
-- The slot that `Scan::next` looks at, and whether another page follows.
use simple_duck_dbms.Base.{
  ℕ, ◌+◌, ◌^◌, ◌≤◌, ◌<◌, ◌≡◌, ◌≢◌, inl, inr, sym, subst, arith, true, false, Option, none, some,
  eq_or_ne,
}
use simple_duck_dbms.Memory.{Memory}
use simple_duck_dbms.SlottedPage.{has_slot, has_next_page, next_occupied_slot, invalid_page_id}
use simple_duck_dbms.SlottedPage.Invariant.{IsPage, tuple_at}
use simple_duck_dbms.SlottedPage.Occupied.{
  FirstHeld, first, none_held, next_occupied_slot-FirstHeld,
}
use simple_duck_dbms.TableHeap.{scan_slot}
use simple_duck_dbms.TableHeap.PageView.{PageView, Shows}
use simple_duck_dbms.TableHeap.Update.{slot_holds}

-- The slot that `next` looks at: the first from `j` on that holds a tuple, or none does.
pub data Looked (m : Memory) (j : ℕ) : ℕ → Type 0 where
  at_tuple :
      (k : ℕ)
      → j ≤ k
      → k + 1 < 2 ^ 16
      → has_slot m k ≡ true
      → tuple_at m k ≢ none
      → ((x : ℕ) → j ≤ x → x < k → tuple_at m x ≡ none)
      → Looked m j k
  at_end : (k : ℕ) → has_slot m k ≡ false → ((x : ℕ) → j ≤ x → tuple_at m x ≡ none) → Looked m j k

passed_over :
    (m : Memory) (j : ℕ) (r : Option ℕ)
    → IsPage m
    → has_slot m j ≡ false
    → tuple_at m j ≡ none
    → FirstHeld m (j + 1) r
    → Looked m j (elim r [ some next ↦ next | none ↦ j ])
passed_over m j r p lacks gone (none_held all) = at_end j lacks (λ x lo. elim (eq_or_ne x j) [
  | inl e ↦ subst (λ y. tuple_at m y ≡ none) (sym e) gone
  | inr ne ↦ all x (omega arith)
])
passed_over m j r p lacks gone (first k le lt held before) = elim (slot_holds m k) [
  | inl (_, out) ↦ absurd (held out)
  | inr (has, _, _) ↦
      at_tuple k (omega arith) (omega (arith, lt, p.room, p.top)) has held (λ x lo hi.
        elim (eq_or_ne x j) [
          | inl e ↦ subst (λ y. tuple_at m y ≡ none) (sym e) gone
          | inr ne ↦ before x (omega arith) hi
        ])
]

pub scan_slot-Looked : (m : Memory) (j : ℕ) → IsPage m → j + 1 < 2 ^ 16 → Looked m j (scan_slot m j)
unfolding scan_slot
scan_slot-Looked m j p small = elim (slot_holds m j) [
  | inr (has, lt, held) ↦
      rw (has, scan_slot)
        (at_tuple j (omega arith) small has held (λ x lo hi. absurd (omega arith)))
  | inl (lacks, gone) ↦
      rw (lacks, scan_slot)
        (passed_over m j (next_occupied_slot m j) p lacks gone
          (next_occupied_slot-FirstHeld m j small))
]

pub no_next_page :
    (m : Memory) (v : PageView) → Shows m v → v.link ≡ invalid_page_id → has_next_page m ≡ false
unfolding has_next_page
no_next_page m v h last = ground (arith, h.link, last)

pub some_next_page :
    (m : Memory) (v : PageView) → Shows m v → v.link ≢ invalid_page_id → has_next_page m ≡ true
unfolding has_next_page
some_next_page m v h on = ground (arith, h.link, on)
