-- ===== src/Operator/Pipeline.antt =====
-- A plan delivers, row by row and in order, what its filters and projections make of each row.
use mathlib.Core.Path.{fun_ext}
use simple_duck_dbms.Base.{
  ℕ, zero, suc, ◌<◌, ◌≡◌, refl, arith, true, false, List, [], ◌∷◌, Option, none, some, length,
  Result, ok, ◌>>=◌,
}
use simple_duck_dbms.Expression.{Floats, Expression, Record}
use simple_duck_dbms.Operator.{Plan, scan_next, keeps, filter_next, project, next, drain}

-- What a plan makes of one row of the table: nothing, or one record.
unfoldable pub row_out : Floats → Plan → Record → Result (Option Record)
row_out fl Plan.scan r = ok (some r)
row_out fl (Plan.filter child comparator) r = do
  o ← row_out fl child r
  elim o [
    | none ↦ ok none
    | some x ↦ (do kept ← keeps fl comparator x; elim kept [ true ↦ ok (some x) | false ↦ ok none ])
  ]
row_out fl (Plan.projection child columns) r = do
  o ← row_out fl child r
  elim o [ none ↦ ok none | some x ↦ (do values ← project x columns; ok (some values)) ]

-- The records of all rows, up to the first row that throws.
unfoldable pub rows_out : Floats → Plan → List Record → Result (List Record)
rows_out fl plan [] = ok []
rows_out fl plan (r ∷ rows) = do
  o ← row_out fl plan r
  others ← rows_out fl plan rows
  elim o [ none ↦ ok others | some x ↦ ok (x ∷ others) ]

-- The first record that the rows yield, and the rows behind it.
first_out : Floats → Plan → List Record → Result (Option Record × List Record)
first_out fl plan [] = ok (none, [])
first_out fl plan (r ∷ rows) = do
  o ← row_out fl plan r
  elim o [ none ↦ first_out fl plan rows | some x ↦ ok (some x, rows) ]

-- The loop of a filter ends, and finds the first record that passes.
filter_first :
    (fl : Floats) (child : Plan) (e : Expression) (fuel : ℕ) (rows : List Record)
    → length rows < fuel
    → filter_next fl (first_out fl child) e fuel rows ≡ first_out fl (Plan.filter child e) rows
unfolding filter_next first_out row_out
filter_first fl child e zero rows h = elim h [ ]
filter_first fl child e (suc fuel) [] h = refl
filter_first fl child e (suc fuel) (r ∷ rows) h =
    ground (arith, filter_first fl child e (suc fuel) rows, filter_first fl child e fuel rows)

projection_first :
    (fl : Floats) (child : Plan) (columns : List ℕ) (rows : List Record)
    → (do
      (o, rest) ← first_out fl child rows
      elim o [
        | none ↦ ok (none, rest)
        | some r ↦ (do values ← project r columns; ok (some values, rest))
      ])
      ≡ first_out fl (Plan.projection child columns) rows
unfolding first_out row_out
projection_first fl child columns [] = refl
projection_first fl child columns (r ∷ rows) =
    ground (arith, projection_first fl child columns rows)

next-first :
    (fl : Floats) (plan : Plan) (rows : List Record) → next fl plan rows ≡ first_out fl plan rows
unfolding next first_out row_out scan_next
next-first fl Plan.scan [] = refl
next-first fl Plan.scan (r ∷ rows) = refl
next-first fl (Plan.filter child e) rows =
    rw (fun_ext (next-first fl child))
      (filter_first fl child e (suc (length rows)) rows (omega arith))
next-first fl (Plan.projection child columns) rows =
    rw (next-first fl child rows) (projection_first fl child columns rows)

drain_step :
    (fl : Floats) (plan : Plan) (fuel : ℕ) (r : Record) (rows : List Record)
    → drain fl plan (suc fuel) rows ≡ rows_out fl plan rows
    → drain fl plan fuel rows ≡ rows_out fl plan rows
    → drain fl plan (suc fuel) (r ∷ rows) ≡ rows_out fl plan (r ∷ rows)
unfolding drain rows_out first_out
drain_step fl plan fuel r rows same less =
    ground (arith, same, less, next-first fl plan (r ∷ rows), next-first fl plan rows)

drain_nil : (fl : Floats) (plan : Plan) (fuel : ℕ) → drain fl plan (suc fuel) [] ≡ ok []
unfolding drain first_out
drain_nil fl plan fuel = rw (next-first fl plan [])

-- Reading a query to its end takes at most one call of `next` more than there are rows, and
-- delivers what the plan makes of each row, in the order of the rows; an exception at a row ends
-- it.
pub drain-rows_out :
    (fl : Floats) (plan : Plan) (fuel : ℕ) (rows : List Record)
    → length rows < fuel
    → drain fl plan fuel rows ≡ rows_out fl plan rows
unfolding rows_out
drain-rows_out fl plan zero rows h = elim h [ ]
drain-rows_out fl plan (suc fuel) [] h = drain_nil fl plan fuel
drain-rows_out fl plan (suc fuel) (r ∷ rows) h =
    drain_step fl plan fuel r rows (drain-rows_out fl plan (suc fuel) rows (omega arith))
      (drain-rows_out fl plan fuel rows (omega arith))
