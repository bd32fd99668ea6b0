-- ===== src/Tuple/RoundTrip.antt =====
-- Writing a row and reading it back.
use mathlib.Core.List.{append_assoc, append-nil}
use simple_duck_dbms.Base.{
  ℕ, suc, ◌+◌, ◌*◌, ◌%◌, ◌^◌, ◌≤◌, ◌<◌, ◌≡◌, refl, sym, ap, subst, ◌∙◌, arith, List, [], ◌∷◌, ◌++◌,
  length, replicate, ok, Bool-cases, inl, inr, length-append, length-replicate, ok-injective,
}
use simple_duck_dbms.Value.{Value}
use simple_duck_dbms.Column.{Column}
use simple_duck_dbms.Schema.{column_count}
use simple_duck_dbms.NullBitmap
use simple_duck_dbms.NullBitmap.Laws.{All-replicate, is_null-replicate}
use simple_duck_dbms.Tuple.{
  Tuple, write_columns, serialize, offsets_from, compute_offsets, deserialize_value, next_offset,
  values_from, deserialize, of_raw,
}
use simple_duck_dbms.Tuple.Fields.{Layout}
use simple_duck_dbms.Tuple.Stored.{Stored, Stored-Layout}
use simple_duck_dbms.Tuple.Bitmap.{NullsAt, mark_nulls-Marked, NullsAt-append}

-- Each value can be held by its column.
abbrev pub Fits : List Column → List Value → Type 0
Fits [] [] = Unit
Fits [] (v ∷ vs) = ⊥
Fits (c ∷ cs) [] = ⊥
Fits (c ∷ cs) (v ∷ vs) = Stored c.type c.length v × Fits cs vs

record Row (cs : List Column) (vs : List Value) (bytes : List ℕ) : Type 0 where
  written : (out : List ℕ) → write_columns cs vs out ≡ ok (out ++ bytes)
  read :
      (raw pre post : List ℕ) (i : ℕ)
      → raw ≡ pre ++ (bytes ++ post)
      → length pre + length bytes < 2 ^ 16
      → NullsAt raw i vs
      → (os : List ℕ) × (offsets_from raw cs (length pre) ≡ ok os)
        × (values_from raw i cs os ≡ ok vs)

-- A value is read back, NULL or not.
value_read :
    (c : Column) (v : Value) (bytes pre post : List ℕ) (i : ℕ)
    → Layout c v bytes
    → length pre + length bytes < 2 ^ 16
    → NullBitmap.is_null (pre ++ (bytes ++ post)) i ≡ ok v.is_null
    → deserialize_value (pre ++ (bytes ++ post)) (length pre) i c ≡ ok v
unfolding deserialize_value
value_read c v bytes pre post i l h bit = elim (Bool-cases v.is_null) [
  | inl absent ↦ rw (bit ∙ ap ok absent) (l.absent absent)
  | inr present ↦ rw (bit ∙ ap ok present) (l.read present pre post h)
]

-- One column in front of others.
row_cons :
    (c : Column) (v : Value) (cs : List Column) (vs : List Value) (here others : List ℕ)
    → Layout c v here
    → Row cs vs others
    → Row (c ∷ cs) (v ∷ vs) (here ++ others)
unfolding write_columns offsets_from values_from
row_cons c v cs vs here others l r = record {
  written = λ out. rw (l.written out, r.written (out ++ here), append_assoc out here others);
  read = λ raw pre post i e h nulls.
      let e₁ : raw ≡ pre ++ (here ++ (others ++ post)) = rw (append_assoc here others post) at e in
      let e₂ : raw ≡ (pre ++ here) ++ (others ++ post) =
        rw (append_assoc pre here (others ++ post)) e₁ in
      let room : length pre + length here + length others < 2 ^ 16 =
        omega (arith, length-append here others) in
      let small : length pre % 2 ^ 16 ≡ length pre = omega arith in
      let next : next_offset raw (length pre) c ≡ ok (length (pre ++ here)) =
        rw (e₁, length-append pre here) (l.stepped pre (others ++ post) (omega arith)) in
      let value : deserialize_value raw (length pre) i c ≡ ok v =
        rw e₁ (value_read c v here pre (others ++ post) i l (omega arith) (rw e₁ at nulls.0)) in
      let (os, offsets, values) =
        r.read raw (pre ++ here) post (suc i) e₂ (omega (arith, length-append pre here)) nulls.1 in
      (length pre ∷ os, rw (next, offsets, small), rw (value, values));
}

rows : (cs : List Column) (vs : List Value) → Fits cs vs → (bytes : List ℕ) × Row cs vs bytes
unfolding write_columns offsets_from values_from
rows [] [] h = (
  [],
  record {
    written = λ out. ap ok (sym (append-nil out));
    read = λ raw pre post i e h nulls. ([], refl, refl);
  },
)
rows [] (v ∷ vs) h = absurd h
rows (c ∷ cs) [] h = absurd h
rows (c ∷ cs) (v ∷ vs) (s, h) =
    let (here, l) = Stored-Layout c.name s in
    let (others, r) = rows cs vs h in (here ++ others, row_cons c v cs vs here others l r)

same_length : (cs : List Column) (vs : List Value) → Fits cs vs → length cs ≡ length vs
same_length [] [] h = refl
same_length [] (v ∷ vs) h = absurd h
same_length (c ∷ cs) [] h = absurd h
same_length (c ∷ cs) (v ∷ vs) h = ap suc (same_length cs vs h.1)

-- The row that `serialize` writes: the bitmap, and the columns behind it.
record Written (t : Tuple) (raw : List ℕ) : Type 0 where
  bitmap : List ℕ
  bytes : List ℕ
  size : length bitmap ≡ NullBitmap.size (column_count t.schema)
  nulls : NullsAt bitmap 0 t.values
  enough : length t.values ≤ 8 * length bitmap
  row : Row t.schema.columns t.values bytes
  whole : raw ≡ bitmap ++ bytes

written :
    (t : Tuple)
    → Fits t.schema.columns t.values
    → (raw : List ℕ) × (serialize t ≡ ok raw) × Written t raw
unfolding serialize NullBitmap.size
written t h =
    let n = NullBitmap.size (column_count t.schema) in
    let count = same_length t.schema.columns t.values h in
    let blank = length-replicate {A = ℕ} n 0 in
    let (bitmap, marked, m) =
      mark_nulls-Marked 0 t.schema.columns t.values (replicate n 0) count (All-replicate n)
        (omega arith) (λ j lo hi. is_null-replicate n j (omega arith)) in
    let (bytes, row) = rows t.schema.columns t.values h in
    (
      bitmap ++ bytes,
      rw (marked, row.written bitmap),
      record {
        bitmap = bitmap;
        bytes = bytes;
        size = m.same_size ∙ blank;
        nulls = m.nulls;
        enough = omega (arith, m.same_size);
        row = row;
        whole = refl;
      },
    )

Written-deserialize :
    (t : Tuple) (raw : List ℕ)
    → Written t raw
    → length raw < 2 ^ 16
    → deserialize raw t.schema ≡ ok t.values
unfolding deserialize compute_offsets
Written-deserialize t raw w h =
    let behind : raw ≡ w.bitmap ++ (w.bytes ++ []) = rw (append-nil w.bytes) w.whole in
    let nulls : NullsAt raw 0 t.values =
      rw w.whole (NullsAt-append w.bitmap w.bytes 0 t.values (omega (arith, w.enough)) w.nulls) in
    let (os, offsets, values) =
      w.row.read raw w.bitmap [] 0 behind
        (omega (arith, ap length w.whole, length-append w.bitmap w.bytes)) nulls in
    rw (← w.size, offsets, values)

-- `serialize` succeeds on a row whose values fit its columns.
pub serialize_total :
    (t : Tuple) → Fits t.schema.columns t.values → (raw : List ℕ) × (serialize t ≡ ok raw)
serialize_total t h = let (raw, e, w) = written t h in (raw, e)

-- A row whose values fit its columns, and whose bytes number less than 65536, is read back from
-- the bytes that `serialize` returns for it.
pub of_raw-serialize :
    (t : Tuple) (raw : List ℕ)
    → Fits t.schema.columns t.values
    → serialize t ≡ ok raw
    → length raw < 2 ^ 16
    → of_raw raw t.schema ≡ ok t
unfolding of_raw
of_raw-serialize t raw h e small =
    let (raw', e', w) = written t h in
    let same : raw' ≡ raw = ok-injective (sym e' ∙ e) in
    rw (Written-deserialize t raw (subst (Written t) same w) small)
