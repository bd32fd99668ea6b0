-- ===== src/SlottedPage/Init.antt =====
-- A fresh page.
use simple_duck_dbms.Base.{ℕ, ◌≡◌, refl, ◌∙◌, arith, false, none}
use simple_duck_dbms.Base.Sums.{sum}
use simple_duck_dbms.Memory.{Memory, write16, read32, write32}
use simple_duck_dbms.Memory.Frames.{
  AllBytes, write16-AllBytes, read16-write16_self, read16-write16-Apart,
}
use simple_duck_dbms.SlottedPage.{
  init, set_next_page, next_page, slot_count, free_space_offset, has_next_page, page_size,
  invalid_page_id,
}
use simple_duck_dbms.SlottedPage.Invariant.{IsPage, tuple_at, tuple_at_beyond}

pub init_count : (m : Memory) → slot_count (init m) ≡ 0
unfolding init set_next_page slot_count
init_count m = read16-write16_self _ 4 0 (omega arith)

pub init_space : (m : Memory) → free_space_offset (init m) ≡ page_size
unfolding init set_next_page free_space_offset
init_space m =
    read16-write16-Apart _ 4 0 6 (omega arith) ∙ read16-write16_self _ 6 8192 (omega arith)

pub init_link : (m : Memory) → next_page (init m) ≡ invalid_page_id
unfolding init set_next_page next_page read32 write32
init_link m =
    let w₁ = write16 m 0 65535 in
    let w₂ = write16 w₁ 2 65535 in
    let w₃ = write16 w₂ 6 8192 in
    omega (
      arith,
      read16-write16-Apart w₃ 4 0 0 (omega arith),
      read16-write16-Apart w₃ 4 0 2 (omega arith),
      read16-write16-Apart w₂ 6 8192 0 (omega arith),
      read16-write16-Apart w₂ 6 8192 2 (omega arith),
      read16-write16-Apart w₁ 2 65535 0 (omega arith),
      read16-write16_self m 0 65535 (omega arith),
      read16-write16_self w₁ 2 65535 (omega arith),
    )

init_bytes : (m : Memory) → AllBytes m → AllBytes (init m)
unfolding init set_next_page write32
init_bytes m bytes =
    write16-AllBytes _ 4 0
      (write16-AllBytes _ 6 8192 (write16-AllBytes _ 2 65535 (write16-AllBytes m 0 65535 bytes)))

pub init-IsPage : (m : Memory) → AllBytes m → IsPage (init m)
unfolding sum
init-IsPage m bytes = record {
  bytes = init_bytes m bytes;
  room = omega (arith, init_count m, init_space m);
  top = omega (arith, init_space m);
  inside = λ i h live. absurd (omega (arith, init_count m));
  apart = λ i j hi hj ne li lj. absurd (omega (arith, init_count m));
  total = rw (init_count m) (omega (arith, init_space m));
}

-- `init` makes a well-formed page without a tuple and without a next page, whose free space ends at
-- the end of the page.
pub init_empty :
    (m : Memory) (j : ℕ)
    → AllBytes m
    → IsPage (init m)
      × (tuple_at (init m) j ≡ none)
      × (free_space_offset (init m) ≡ page_size)
      × (has_next_page (init m) ≡ false)
unfolding has_next_page
init_empty m j bytes = (
  init-IsPage m bytes,
  tuple_at_beyond (init m) j (omega (arith, init_count m)),
  init_space m,
  rw (init_link m) refl,
)
