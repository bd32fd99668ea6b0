-- ===== src/DiskManager/Pages.antt =====
-- Pages that are written and read back.
use simple_duck_dbms.Base.{
  ℕ, zero, suc, ◌+◌, ◌-◌, ◌*◌, ◌≤◌, ◌<◌, ◌≡◌, ◌≢◌, inl, inr, refl, sym, ap, ◌∙◌, arith, min, true,
  false, Bool-cases, List, [], ◌∷◌, ◌++◌, length, take, replicate, Result, ok, throw, Error, ltb,
  lt→ltb, le→ltb, ltb→lt, ltb→le,
}
use simple_duck_dbms.Bytes.{subspan}
use simple_duck_dbms.Memory.{Memory, read_bytes, write_bytes}
use simple_duck_dbms.Memory.Frames.{
  write_bytes_outside, read_bytes_agree, read_bytes-write_bytes, length-read_bytes, read_bytes-+,
}
use simple_duck_dbms.DiskManager.{DiskManager, Files, read_page, write_page}
use simple_duck_dbms.DiskManager.File.{Lawful}

-- Past its end a file reads as zeros.
abbrev pub Blank : {F : Type 0} → (files : Files F) → Lawful files → F → Type 0
Blank files w f = (x : ℕ) → w.extent f ≤ x → w.cell f x ≡ 0

length-take_full : (n : ℕ) (xs : List ℕ) → n ≤ length xs → length (take n xs) ≡ n
length-take_full zero xs h = refl
length-take_full (suc n) [] h = omega arith
length-take_full (suc n) (x ∷ xs) h = ap suc (length-take_full n xs (omega arith))

read_bytes_zeros :
    (m : Memory) (a n : ℕ)
    → ((x : ℕ) → a ≤ x → x < a + n → m x ≡ 0)
    → read_bytes m a n ≡ replicate n 0
unfolding read_bytes
read_bytes_zeros m a zero h = refl
read_bytes_zeros m a (suc n) h = rw (
  h a (omega arith) (omega arith),
  read_bytes_zeros m (a + 1) n (λ x lo hi. h x (omega arith) (omega arith)),
)

-- A short read and the zeros behind it.
padded :
    (m : Memory) (size a : ℕ)
    → ((x : ℕ) → size ≤ x → m x ≡ 0)
    → read_bytes m a (min 8192 (size - a)) ++ replicate (8192 - min 8192 (size - a)) 0
      ≡ read_bytes m a 8192
padded m size a blank =
    let n = min 8192 (size - a) in
    let whole : n + (8192 - n) ≡ 8192 = omega arith in
    let rest : read_bytes m (a + n) (8192 - n) ≡ replicate (8192 - n) 0 =
      read_bytes_zeros m (a + n) (8192 - n) (λ x lo hi. blank x (omega arith)) in
    ap (◌++◌ (read_bytes m a n)) (sym rest)
    ∙ sym (read_bytes-+ m a n (8192 - n))
    ∙ ap (read_bytes m a) whole

-- `read_page` returns the page's cells, however long the file is.
pub read_page_cells :
    {F : Type 0} (files : Files F) (w : Lawful files) (d : DiskManager) (f : F) (page_id : ℕ)
    → Blank files w f
    → page_id < d.capacity
    → read_page files d f page_id 8192 ≡ ok (read_bytes (w.cell f) (page_id * 8192) 8192)
unfolding read_page
read_page_cells files w d f page_id blank below =
    rw
      (
        lt→ltb page_id d.capacity below,
        w.reads f 8192 (page_id * 8192),
        length-read_bytes (w.cell f) (page_id * 8192) (min 8192 (w.extent f - page_id * 8192)),
      )
      (ap ok (padded (w.cell f) (w.extent f) (page_id * 8192) blank))

-- What `write_page` does: it throws on a page that is not allocated and on a short buffer; else
-- reads of the page give the first 8192 bytes of the buffer, and reads of the others what they gave.
pub data Written {F : Type 0} (files : Files F) (d : DiskManager) (f : F) (page_id : ℕ)
    (buffer : List ℕ) : Result F → Type 0 where
  not_allocated :
      d.capacity ≤ page_id → Written files d f page_id buffer (throw Error.runtime_error)
  short_buffer : length buffer < 8192 → Written files d f page_id buffer (throw Error.runtime_error)
  written :
      (f' : F)
      → read_page files d f' page_id 8192 ≡ ok (take 8192 buffer)
      → ((q : ℕ) → q ≢ page_id → read_page files d f' q 8192 ≡ read_page files d f q 8192)
      → Written files d f page_id buffer (ok f')

module _ {F : Type 0} (files : Files F) (w : Lawful files) (d : DiskManager) (f : F) (page_id : ℕ)
    (page : List ℕ) (full : length page ≡ 8192) (blank : Blank files w f) where
  after : F
  after = (files.pwrite f page (page_id * 8192)).1

  after-Blank : Blank files w after
  unfolding after
  after-Blank x past =
      ap (λ m. m x) (w.writes f page (page_id * 8192))
      ∙ write_bytes_outside (w.cell f) (page_id * 8192) page x
          (omega (arith, w.covers f page (page_id * 8192)))
      ∙ blank x (omega (arith, w.grows f page (page_id * 8192)))

  page_cells : read_bytes (w.cell after) (page_id * 8192) 8192 ≡ page
  unfolding after
  page_cells =
      ap (λ m. read_bytes m (page_id * 8192) 8192) (w.writes f page (page_id * 8192))
      ∙ ap (read_bytes (write_bytes (w.cell f) (page_id * 8192) page) (page_id * 8192)) (sym full)
      ∙ read_bytes-write_bytes (w.cell f) (page_id * 8192) page

  other_cells :
      (q : ℕ)
      → q ≢ page_id
      → read_bytes (w.cell after) (q * 8192) 8192 ≡ read_bytes (w.cell f) (q * 8192) 8192
  unfolding after
  other_cells q ne =
      ap (λ m. read_bytes m (q * 8192) 8192) (w.writes f page (page_id * 8192))
      ∙ read_bytes_agree (write_bytes (w.cell f) (page_id * 8192) page) (w.cell f) (q * 8192) 8192
          (λ x lo hi. write_bytes_outside (w.cell f) (page_id * 8192) page x (omega arith))

  page_back : page_id < d.capacity → read_page files d after page_id 8192 ≡ ok page
  page_back below = read_page_cells files w d after page_id after-Blank below ∙ ap ok page_cells

  other_kept :
      (q : ℕ)
      → q ≢ page_id
      → q < d.capacity
      → read_page files d after q 8192 ≡ read_page files d f q 8192
  other_kept q ne below =
      read_page_cells files w d after q after-Blank below
      ∙ ap ok (other_cells q ne)
      ∙ sym (read_page_cells files w d f q blank below)

  other_same : (q : ℕ) → q ≢ page_id → read_page files d after q 8192 ≡ read_page files d f q 8192
  unfolding read_page
  other_same q ne = elim (Bool-cases (ltb q d.capacity)) [
    | inl t ↦ other_kept q ne (ltb→lt q d.capacity t)
    | inr t ↦ rw t refl
  ]

  wrote :
      (buffer : List ℕ)
      → page ≡ take 8192 buffer
      → page_id < d.capacity
      → 8192 ≤ length buffer
      → write_page files d f page_id buffer ≡ ok after
  unfolding write_page subspan after
  wrote buffer e below long =
      rw
        (
          lt→ltb page_id d.capacity below,
          le→ltb (length buffer) 8192 long,
          sym e,
          w.whole f page (page_id * 8192),
          full,
        )
        refl

take_full : (xs : List ℕ) → take (length xs) xs ≡ xs
take_full [] = refl
take_full (x ∷ xs) = ap (◌∷◌ x) (take_full xs)

-- A whole page is written to a file where its cells, and no others, change.
pub record PageWritten {F : Type 0} (files : Files F) (w : Lawful files) (f : F) (page_id : ℕ)
    (page : List ℕ) (f' : F) : Type 0 where
  pub still_blank : Blank files w f'
  pub self : read_bytes (w.cell f') (page_id * 8192) 8192 ≡ page
  pub others :
      (q : ℕ)
      → q ≢ page_id
      → read_bytes (w.cell f') (q * 8192) 8192 ≡ read_bytes (w.cell f) (q * 8192) 8192

pub write_page-PageWritten :
    {F : Type 0} (files : Files F) (w : Lawful files) (d : DiskManager) (f : F) (page_id : ℕ)
    (page : List ℕ)
    → length page ≡ 8192
    → Blank files w f
    → page_id < d.capacity
    → (f' : F) × (write_page files d f page_id page ≡ ok f') × PageWritten files w f page_id page f'
write_page-PageWritten files w d f page_id page full blank below =
    let whole : page ≡ take 8192 page = sym (take_full page) ∙ ap (λ n. take n page) full in
    (
      after files w d f page_id page full blank,
      wrote files w d f page_id page full blank page whole below (omega (arith, full)),
      record {
        still_blank = after-Blank files w d f page_id page full blank;
        self = page_cells files w d f page_id page full blank;
        others = other_cells files w d f page_id page full blank;
      },
    )

refused :
    {F : Type 0} (files : Files F) (d : DiskManager) (f : F) (page_id : ℕ) (buffer : List ℕ)
    → ltb page_id d.capacity ≡ false
    → write_page files d f page_id buffer ≡ throw Error.runtime_error
unfolding write_page
refused files d f page_id buffer out = rw out refl

refused_short :
    {F : Type 0} (files : Files F) (d : DiskManager) (f : F) (page_id : ℕ) (buffer : List ℕ)
    → ltb page_id d.capacity ≡ true
    → ltb (length buffer) 8192 ≡ true
    → write_page files d f page_id buffer ≡ throw Error.runtime_error
unfolding write_page
refused_short files d f page_id buffer below short = rw (below, short) refl

-- `write_page`, on every branch, on a file on which no call fails and which reads as zeros past its
-- end: a page that is not allocated and a buffer shorter than a page are refused; else `read_page`
-- of the page gives the first 8192 bytes of the buffer, and `read_page` of another page what it
-- gave.
pub write_page-Written :
    {F : Type 0} (files : Files F) (w : Lawful files) (d : DiskManager) (f : F) (page_id : ℕ)
    (buffer : List ℕ)
    → Blank files w f
    → Written files d f page_id buffer (write_page files d f page_id buffer)
write_page-Written files w d f page_id buffer blank = elim (Bool-cases (ltb page_id d.capacity)) [
  | inr out ↦
      rw (refused files d f page_id buffer out) (not_allocated (ltb→le page_id d.capacity out))
  | inl below ↦ elim (Bool-cases (ltb (length buffer) 8192)) [
    | inl short ↦
        rw (refused_short files d f page_id buffer below short)
          (short_buffer (ltb→lt (length buffer) 8192 short))
    | inr long ↦
        let page = take 8192 buffer in
        let enough = ltb→le (length buffer) 8192 long in
        let full = length-take_full 8192 buffer enough in
        let lt = ltb→lt page_id d.capacity below in
        rw (wrote files w d f page_id page full blank buffer refl lt enough) (
          written (after files w d f page_id page full blank)
            (page_back files w d f page_id page full blank lt)
            (other_same files w d f page_id page full blank))
  ]
]
