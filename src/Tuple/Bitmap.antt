-- ===== src/Tuple/Bitmap.antt =====
-- The NULL bitmap at the front of a row.
use simple_duck_dbms.Base.{
  ℕ, suc, ◌+◌, ◌*◌, ◌≤◌, ◌<◌, ◌≡◌, ◌≢◌, refl, ◌∙◌, arith, false, List, [], ◌∷◌, ◌++◌, inl, inr,
  length, All, ok, if◌then◌else◌, Bool-cases,
}
use simple_duck_dbms.Bytes.{IsByte}
use simple_duck_dbms.Value.{Value}
use simple_duck_dbms.Column.{Column}
use simple_duck_dbms.NullBitmap.{is_null, set_null}
use simple_duck_dbms.NullBitmap.Laws.{set_null-Marks, is_null-append}
use simple_duck_dbms.Tuple.{mark_nulls}

-- From bit `i` on, the bits say which of the values are NULL.
abbrev pub NullsAt : List ℕ → ℕ → List Value → Type 0
NullsAt raw i [] = Unit
NullsAt raw i (v ∷ vs) = (is_null raw i ≡ ok v.is_null) × NullsAt raw (suc i) vs

pub record Marked (i : ℕ) (vs : List Value) (before after : List ℕ) : Type 0 where
  pub same_size : length after ≡ length before
  pub nulls : NullsAt after i vs
  pub others : (j : ℕ) → j < i → is_null after j ≡ is_null before j

-- What one round leaves of the bitmap.
mark_one :
    (i : ℕ) (v : Value) (out : List ℕ)
    → All IsByte out
    → i < 8 * length out
    → ((j : ℕ) → i ≤ j → j < 8 * length out → is_null out j ≡ ok false)
    → (out' : List ℕ) × ((if v.is_null then set_null out i else ok out) ≡ ok out')
      × (length out' ≡ length out)
      × All IsByte out'
      × (is_null out' i ≡ ok v.is_null)
      × ((j : ℕ) → j ≢ i → j < 8 * length out → is_null out' j ≡ is_null out j)
mark_one i v out a h fresh = elim (Bool-cases v.is_null) [
  | inl absent ↦
      let (out', m) = set_null-Marks out i a h in
      (
        out',
        rw absent m.marked,
        m.same_size,
        m.bytes,
        rw absent (m.reads i h ∙ ground arith),
        λ j ne hj. m.reads j hj ∙ ground arith,
      )
  | inr present ↦ (out, rw present, refl, a, rw present (fresh i (omega arith) h), λ j ne hj. refl)
]

pub mark_nulls-Marked :
    (i : ℕ) (cs : List Column) (vs : List Value) (out : List ℕ)
    → length cs ≡ length vs
    → All IsByte out
    → i + length vs ≤ 8 * length out
    → ((j : ℕ) → i ≤ j → j < 8 * length out → is_null out j ≡ ok false)
    → (after : List ℕ) × (mark_nulls i cs vs out ≡ ok after) × Marked i vs out after
unfolding mark_nulls
mark_nulls-Marked i [] [] out e a h fresh =
    (out, refl, record { same_size = refl; nulls = tt; others = λ j hj. refl })
mark_nulls-Marked i [] (v ∷ vs) out e a h fresh = absurd (omega arith)
mark_nulls-Marked i (c ∷ cs) [] out e a h fresh = absurd (omega arith)
mark_nulls-Marked i (c ∷ cs) (v ∷ vs) out e a h fresh =
    let (out', one, size, bytes, here, rest) = mark_one i v out a (omega arith) fresh in
    let (after, run, m) =
      mark_nulls-Marked (suc i) cs vs out' (omega arith) bytes (omega arith)
        (λ j lo hi. rest j (omega arith) (omega arith) ∙ fresh j (omega arith) (omega arith)) in
    (
      after,
      rw one run,
      record {
        same_size = m.same_size ∙ size;
        nulls = (m.others i (omega arith) ∙ here, m.nulls);
        others = λ j hj. m.others j (omega arith) ∙ rest j (omega arith) (omega arith);
      },
    )

-- The bits stay when bytes are appended.
pub NullsAt-append :
    (bitmap post : List ℕ) (i : ℕ) (vs : List Value)
    → i + length vs ≤ 8 * length bitmap
    → NullsAt bitmap i vs
    → NullsAt (bitmap ++ post) i vs
NullsAt-append bitmap post i [] h n = tt
NullsAt-append bitmap post i (v ∷ vs) h n = (
  is_null-append bitmap post i (omega arith) ∙ n.0,
  NullsAt-append bitmap post (suc i) vs (omega arith) n.1,
)
