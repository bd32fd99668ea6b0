-- ===== src/DiskManager/Layout.antt =====
-- The header and the free list in page 0, read back from the bytes that `flush_all` writes.
use simple_duck_dbms.Base.{
  ℕ, suc, ◌+◌, ◌-◌, ◌*◌, ◌^◌, ◌≤◌, ◌<◌, ◌≡◌, refl, sym, ap, ◌∙◌, arith, true, List, [], ◌∷◌, ◌++◌,
  length, take, drop, ok, length-append, drop-append, take-append,
}
use simple_duck_dbms.Bytes.{to_bytes, subspan, length-to_bytes, of_bytes-to_bytes, subspan_part}
use simple_duck_dbms.Memory.{Memory, read_bytes}
use simple_duck_dbms.Memory.Frames.{length-read_bytes, read_bytes-+}
use simple_duck_dbms.DiskManager.{DiskHeader, header_bytes, list_bytes, header_of, list_of}
use simple_duck_dbms.DiskManager.Allocation.{is_free}

-- Blocks that are read in a row are the parts of what is read.
read_parts :
    (m : Memory) (a : ℕ) (xs ys : List ℕ)
    → read_bytes m a (length xs + length ys) ≡ xs ++ ys
    → (read_bytes m a (length xs) ≡ xs) × (read_bytes m (a + length xs) (length ys) ≡ ys)
read_parts m a xs ys e =
    let len = length-read_bytes m a (length xs) in
    let whole = sym (read_bytes-+ m a (length xs) (length ys)) ∙ e in
    (
      sym (take-append (read_bytes m a (length xs)) (read_bytes m (a + length xs) (length ys)))
          ∙ ap (take (length (read_bytes m a (length xs)))) whole
          ∙ rw len (take-append xs ys),
      sym (drop-append (read_bytes m a (length xs)) (read_bytes m (a + length xs) (length ys)))
          ∙ ap (drop (length (read_bytes m a (length xs)))) whole
          ∙ rw len (drop-append xs ys),
    )

subspan-read_bytes :
    (m : Memory) (size a n : ℕ)
    → a + n ≤ size
    → subspan (read_bytes m 0 size) a n ≡ ok (read_bytes m a n)
subspan-read_bytes m size a n h =
    let k = size - (a + n) in
    let split : size ≡ a + (n + k) = omega arith in
    let zero_first : 0 + a ≡ a = omega arith in
    let parts : read_bytes m 0 size
        ≡ read_bytes m 0 a ++ (read_bytes m a n ++ read_bytes m (a + n) k) =
      ap (read_bytes m 0) split
      ∙ read_bytes-+ m 0 a (n + k)
      ∙ rw (zero_first, read_bytes-+ m a n k) refl in
    rw parts (
      subspan_part (read_bytes m 0 a) (read_bytes m a n) (read_bytes m (a + n) k) a n
        (sym (length-read_bytes m 0 a)) (sym (length-read_bytes m a n)))

at_place :
    (m : Memory) (a a' n n' : ℕ) (bs : List ℕ)
    → a ≡ a'
    → n ≡ n'
    → read_bytes m a' n' ≡ bs
    → read_bytes m a n ≡ bs
at_place m a a' n n' bs p q e = rw (p, q) e

-- The four fields are 64-bit words.
pub record Words (h : DiskHeader) : Type 0 where
  pub magic_fits : h.magic < 2 ^ 64
  pub version_fits : h.version < 2 ^ 64
  pub capacity_fits : h.capacity < 2 ^ 64
  pub size_fits : h.free_list_size < 2 ^ 64

pub header_of-header_bytes :
    (m : Memory) (h : DiskHeader)
    → Words h
    → read_bytes m 0 32 ≡ header_bytes h
    → header_of (read_bytes m 0 8192) ≡ ok h
unfolding header_of header_bytes
header_of-header_bytes m h w e =
    let a = to_bytes 8 h.magic in
    let b = to_bytes 8 h.version in
    let c = to_bytes 8 h.capacity in
    let d = to_bytes 8 h.free_list_size in
    let (la, lb, lc, ld) : (length a ≡ 8) × (length b ≡ 8) × (length c ≡ 8) × (length d ≡ 8) = (
      length-to_bytes 8 h.magic,
      length-to_bytes 8 h.version,
      length-to_bytes 8 h.capacity,
      length-to_bytes 8 h.free_list_size,
    ) in
    let lcd = length-append c d in
    let lbcd = length-append b (c ++ d) in
    let n₁ : 32 ≡ length a + length (b ++ (c ++ d)) = omega arith in
    let n₂ : length (b ++ (c ++ d)) ≡ length b + length (c ++ d) = omega arith in
    let n₃ : length (c ++ d) ≡ length c + length d = omega arith in
    let (pa, r₁) = read_parts m 0 a (b ++ (c ++ d)) (ap (read_bytes m 0) (sym n₁) ∙ e) in
    let (pb, r₂) =
      read_parts m (0 + length a) b (c ++ d) (ap (read_bytes m (0 + length a)) (sym n₂) ∙ r₁) in
    let (pc, pd) =
      read_parts m (0 + length a + length b) c d
        (ap (read_bytes m (0 + length a + length b)) (sym n₃) ∙ r₂) in
    let qa : read_bytes m 0 8 ≡ a = ap (read_bytes m 0) (sym la) ∙ pa in
    let qb : read_bytes m 8 8 ≡ b =
      at_place m 8 (0 + length a) 8 (length b) b (omega arith) (sym lb) pb in
    let qc : read_bytes m 16 8 ≡ c =
      at_place m 16 (0 + length a + length b) 8 (length c) c (omega arith) (sym lc) pc in
    let qd : read_bytes m 24 8 ≡ d =
      at_place m 24 (0 + length a + length b + length c) 8 (length d) d (omega arith) (sym ld) pd in
    rw
      (
        subspan-read_bytes m 8192 0 8 (omega arith),
        subspan-read_bytes m 8192 8 8 (omega arith),
        subspan-read_bytes m 8192 16 8 (omega arith),
        subspan-read_bytes m 8192 24 8 (omega arith),
        qa,
        qb,
        qc,
        qd,
        of_bytes-to_bytes 8 h.magic w.magic_fits,
        of_bytes-to_bytes 8 h.version w.version_fits,
        of_bytes-to_bytes 8 h.capacity w.capacity_fits,
        of_bytes-to_bytes 8 h.free_list_size w.size_fits,
      )
      refl

length-list_bytes : (ps : List ℕ) → length (list_bytes ps) ≡ 4 * length ps
unfolding list_bytes
length-list_bytes [] = omega arith
length-list_bytes (p ∷ ps) =
    omega (
      arith,
      length-append (list_bytes ps) (to_bytes 4 p),
      length-to_bytes 4 p,
      length-list_bytes ps,
    )

list_step :
    (m : Memory) (p : ℕ) (ps : List ℕ) (k : ℕ)
    → 32 + 4 * length ps + 4 ≤ 8192
    → read_bytes m (32 + 4 * length ps) 4 ≡ to_bytes 4 p
    → p < 2 ^ 32
    → list_of (read_bytes m 0 8192) (suc k) (32 + 4 * length ps) ps
      ≡ list_of (read_bytes m 0 8192) k (32 + 4 * length ps + 4) (p ∷ ps)
unfolding list_of
list_step m p ps k room page bound =
    rw (subspan-read_bytes m 8192 (32 + 4 * length ps) 4 room, page, of_bytes-to_bytes 4 p bound)
      refl

-- The loop over the pages of `ps` and `k` more.
pub list_of-list_bytes :
    (m : Memory) (ps : List ℕ) (k : ℕ)
    → ((q : ℕ) → is_free ps q ≡ true → q < 2 ^ 32)
    → 32 + 4 * length ps ≤ 8192
    → read_bytes m 32 (length (list_bytes ps)) ≡ list_bytes ps
    → list_of (read_bytes m 0 8192) (length ps + k) 32 []
      ≡ list_of (read_bytes m 0 8192) k (32 + 4 * length ps) ps
unfolding list_bytes is_free
list_of-list_bytes m [] k small room e =
    let (p, q) : (0 + k ≡ k) × (32 + 4 * 0 ≡ 32) = (omega arith, omega arith) in rw (p, q) refl
list_of-list_bytes m (p ∷ ps) k small room e =
    let len = length-append (list_bytes ps) (to_bytes 4 p) in
    let (front, last) =
      read_parts m 32 (list_bytes ps) (to_bytes 4 p) (ap (read_bytes m 32) (sym len) ∙ e) in
    let page : read_bytes m (32 + 4 * length ps) 4 ≡ to_bytes 4 p =
      at_place m (32 + 4 * length ps) (32 + length (list_bytes ps)) 4 (length (to_bytes 4 p))
        (to_bytes 4 p) (omega (arith, length-list_bytes ps)) (sym (length-to_bytes 4 p)) last in
    let bound : p < 2 ^ 32 = small p (ground arith) in
    let more : suc (length ps) + k ≡ length ps + suc k = omega arith in
    let next : 32 + 4 * suc (length ps) ≡ 32 + 4 * length ps + 4 = omega arith in
    ap (λ n. list_of (read_bytes m 0 8192) n 32 []) more
    ∙ list_of-list_bytes m ps (suc k) (λ q f. small q (ground arith)) (omega arith) front
    ∙ list_step m p ps k (omega arith) page bound
    ∙ ap (λ n. list_of (read_bytes m 0 8192) k n (p ∷ ps)) (sym next)
