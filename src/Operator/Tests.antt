-- ===== src/Operator/Tests.antt =====
-- A filter on the first column of three rows.
use simple_duck_dbms.Base.{◌≡◌, ◌≢◌, refl, ap, arith, Bool, true, false, [], ◌∷◌, ok, ltb}
use simple_duck_dbms.Value.{ValueType, Value, Variant, null, of_int64, of_bool}
use simple_duck_dbms.Expression.{Floats, ComparisonOperator, Expression, Record, evaluate}
use simple_duck_dbms.Operator.{Plan, drain}
use simple_duck_dbms.Operator.Pipeline.{rows_out, drain-rows_out}
use simple_duck_dbms.Operator.Select.{Selected, drain-Selected}

abbrev integers : Floats
integers = record {
  widen = λ n. n;
  of_uint64 = λ n. n;
  is_nan = λ n. false;
  lt = λ a b. ltb a b;
  lt_asym = λ a b h. ground arith;
}

-- The first column equals 4.
abbrev is_four : Expression
is_four =
    Expression.comparison (Expression.column 0) ComparisonOperator.equal
      (Expression.constant (of_int64 4))

abbrev four : Record
four = of_int64 4 ∷ []

abbrev five : Record
five = of_int64 5 ∷ []

abbrev absent : Record
absent = null ValueType.int64 ∷ []

drain-rows_out_example :
    drain integers
      (Plan.projection (Plan.filter Plan.scan is_four) (0 ∷ 0 ∷ []))
      4
      (four ∷ five ∷ absent ∷ [])
    ≡ rows_out integers
        (Plan.projection (Plan.filter Plan.scan is_four) (0 ∷ 0 ∷ []))
        (four ∷ five ∷ absent ∷ [])
drain-rows_out_example =
    drain-rows_out integers (Plan.projection (Plan.filter Plan.scan is_four) (0 ∷ 0 ∷ [])) 4
      (four ∷ five ∷ absent ∷ []) (omega arith)

abbrev holds_payload : Value → Bool
holds_payload v = elim v.payload [ Variant.bool b ↦ b | _ ↦ false ]

false_ne_true : of_bool false ≢ of_bool true
unfolding of_bool
false_ne_true e = let q : false ≡ true = ap holds_payload e in cc

null_ne_true : null ValueType.bool ≢ of_bool true
unfolding of_bool null
null_ne_true e = let q : false ≡ true = ap holds_payload e in cc

four-true : evaluate integers is_four four ≡ ok (of_bool true)
unfolding evaluate simple_duck_dbms.Expression.get simple_duck_dbms.Expression.compare of_int64
    simple_duck_dbms.Value.is_floating simple_duck_dbms.Value.is_numeric
    simple_duck_dbms.Expression.compare_integral simple_duck_dbms.Value.as_integral of_bool
    simple_duck_dbms.Expression.comparison_value simple_duck_dbms.Expression.compare_ℤ
four-true = refl

five-false : evaluate integers is_four five ≡ ok (of_bool false)
unfolding evaluate simple_duck_dbms.Expression.get simple_duck_dbms.Expression.compare of_int64
    simple_duck_dbms.Value.is_floating simple_duck_dbms.Value.is_numeric
    simple_duck_dbms.Expression.compare_integral simple_duck_dbms.Value.as_integral of_bool
    simple_duck_dbms.Expression.comparison_value simple_duck_dbms.Expression.compare_ℤ
five-false = refl

absent_null : evaluate integers is_four absent ≡ ok (null ValueType.bool)
unfolding evaluate simple_duck_dbms.Expression.get simple_duck_dbms.Expression.compare null
    simple_duck_dbms.Expression.comparison_value
absent_null = refl

drain-Selected_example :
    drain integers (Plan.filter Plan.scan is_four) 4 (four ∷ five ∷ absent ∷ []) ≡ ok (four ∷ [])
drain-Selected_example =
    drain-Selected integers is_four 4 tt
      (Selected.take_row four four-true (
        Selected.skip_row five (of_bool false) five-false false_ne_true
          (Selected.skip_row absent (null ValueType.bool) absent_null null_ne_true Selected.nil)))
      (omega arith)
