-- ===== src/Operator.antt =====
-- execution/operator, execution/query_result.cpp and execution/executor.cpp: a plan is a scan
-- under filters and projections, which keep no state of their own. The state of a query is the
-- rows that the scan has still to deliver.
pub mod Pipeline
pub mod Select
mod Tests
use simple_duck_dbms.Base.{
  ℕ, zero, suc, Bool, true, false, not, List, [], ◌∷◌, Option, none, some, length, Result, ok,
  throw, Error, ◌>>=◌, ◌>>◌, throw_if,
}
use simple_duck_dbms.Value.{ValueType, Value, as_bool}
use simple_duck_dbms.Schema.{Schema, projected}
use simple_duck_dbms.Expression.{Floats, Expression, Record, get, evaluate}

pub data Plan : Type 0 where
  scan : Plan
  filter : Plan → Expression → Plan
  projection : Plan → List ℕ → Plan

-- `SequentialScanOperator::next`
unfoldable pub scan_next : List Record → Result (Option Record × List Record)
scan_next [] = ok (none, [])
scan_next (r ∷ rows) = ok (some r, rows)

is_bool : ValueType → Bool
is_bool ValueType.bool = true
is_bool _ = false

-- The body of the loop of `FilterOperator::next`: whether it returns the record.
unfoldable pub keeps : Floats → Expression → Record → Result Bool
unfolding is_bool
keeps fl comparator r = do
  comp ← evaluate fl comparator r
  throw_if (not (is_bool comp.type)) Error.assertion
  elim comp.is_null [ true ↦ ok false | false ↦ as_bool comp ]

-- `FilterOperator::next` over the `next` of the child.
unfoldable pub filter_next :
    Floats
    → (List Record → Result (Option Record × List Record))
    → Expression
    → ℕ
    → List Record
    → Result (Option Record × List Record)
filter_next fl child comparator zero rows = throw Error.out_of_fuel
filter_next fl child comparator (suc fuel) rows = do
  (o, rest) ← child rows
  elim o [
    | none ↦ ok (none, rest)
    | some r ↦ do
      kept ← keeps fl comparator r
      elim kept [ true ↦ ok (some r, rest) | false ↦ filter_next fl child comparator fuel rest ]
  ]

-- The values at the given indices, in that order.
unfoldable pub project : Record → List ℕ → Result Record
project r [] = ok []
project r (i ∷ is) = do v ← get r i; vs ← project r is; ok (v ∷ vs)

-- `next` of the operator at the root of the plan. A filter looks at no more rows than are left.
unfoldable pub next : Floats → Plan → List Record → Result (Option Record × List Record)
next fl Plan.scan rows = scan_next rows
next fl (Plan.filter child comparator) rows =
    filter_next fl (next fl child) comparator (suc (length rows)) rows
next fl (Plan.projection child columns) rows = do
  (o, rest) ← next fl child rows
  elim o [
    | none ↦ ok (none, rest)
    | some r ↦ (do values ← project r columns; ok (some values, rest))
  ]

-- `output_schema`
unfoldable pub output_schema : Schema → Plan → Result Schema
output_schema table Plan.scan = ok table
output_schema table (Plan.filter child comparator) = output_schema table child
output_schema table (Plan.projection child columns) = do
  s ← output_schema table child
  projected s columns

-- `while (auto record{result.next()})`: what a caller of `Executor::execute` reads.
unfoldable pub drain : Floats → Plan → ℕ → List Record → Result (List Record)
drain fl plan zero rows = throw Error.out_of_fuel
drain fl plan (suc fuel) rows = do
  (o, rest) ← next fl plan rows
  elim o [ none ↦ ok [] | some r ↦ (do others ← drain fl plan fuel rest; ok (r ∷ others)) ]
