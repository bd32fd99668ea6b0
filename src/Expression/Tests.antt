-- ===== src/Expression/Tests.antt =====
-- Values and predicates on a record of an INT64 and a NULL BOOL. The bit patterns of floating-point
-- numbers are ordered here as numbers.
use Prim.Native.Nat.{max}
use simple_duck_dbms.Base.{ℕ, ◌-◌, ◌≡◌, refl, arith, min, true, false, [], ◌∷◌, ok, ltb}
use simple_duck_dbms.Base.Int.{pos, signed32}
use simple_duck_dbms.Value.{
  ValueType, Value, null, of_int64, of_uint64, of_int32, of_double, of_bool,
}
use simple_duck_dbms.Expression.{
  Floats, CompareResult, ComparisonOperator, BinaryOperator, UnaryOperator, Expression, Record,
  compare_ℤ, compare_double, compare, evaluate,
}
use simple_duck_dbms.Expression.Order.{Integral, compare-Integral}
use simple_duck_dbms.Expression.Logic.{
  Truth, holds_true, unknown, connectives_Kleene, evaluate-Truth,
}

abbrev bits : Floats
bits = record {
  widen = λ n. n;
  of_uint64 = λ n. n;
  is_nan = λ n. false;
  lt = λ a b. ltb a b;
  lt_asym = λ a b h. ground arith;
}

compare-Integral_example :
    compare bits (of_int32 4294967295) (of_uint64 5) ≡ ok (compare_ℤ (signed32 4294967295) (pos 5))
compare-Integral_example =
    compare-Integral bits (of_int32 4294967295) (of_uint64 5) (signed32 4294967295) (pos 5)
      (Integral.int32 4294967295 (omega arith)) (Integral.uint64 5 (omega arith))

abbrev a_record : Record
a_record = of_int64 4 ∷ null ValueType.bool ∷ []

-- The first column is less than 9.
abbrev below_nine : Expression
below_nine =
    Expression.comparison (Expression.column 0) ComparisonOperator.less
      (Expression.constant (of_int64 9))

-- A comparison with NULL.
abbrev with_null : Expression
with_null =
    Expression.comparison (Expression.column 1) ComparisonOperator.equal
      (Expression.constant (of_int64 9))

below_nine-true : evaluate bits below_nine a_record ≡ ok (of_bool true)
unfolding evaluate simple_duck_dbms.Expression.get compare of_int64
    simple_duck_dbms.Value.is_floating simple_duck_dbms.Value.is_numeric
    simple_duck_dbms.Expression.compare_integral simple_duck_dbms.Value.as_integral of_bool
    simple_duck_dbms.Expression.comparison_value compare_ℤ
below_nine-true = refl

with_null_unknown : evaluate bits with_null a_record ≡ ok (null ValueType.bool)
unfolding evaluate simple_duck_dbms.Expression.get compare null
    simple_duck_dbms.Expression.comparison_value
with_null_unknown = refl

connectives_Kleene_example :
    ((v : Value) × (evaluate bits
          (Expression.binary below_nine BinaryOperator.and with_null)
          a_record
        ≡ ok v)
      × Truth v (min 2 1))
    × ((v : Value) × (evaluate bits
            (Expression.binary below_nine BinaryOperator.or with_null)
            a_record
          ≡ ok v)
        × Truth v (max 2 1))
    × ((v : Value) × (evaluate bits (Expression.unary UnaryOperator.negate below_nine) a_record
          ≡ ok v)
        × Truth v (2 - 2))
connectives_Kleene_example =
    connectives_Kleene bits below_nine with_null a_record (of_bool true) (null ValueType.bool) 2 1
      below_nine-true with_null_unknown holds_true unknown

evaluate-Truth_example : (n : ℕ) × Truth (of_bool true) n
evaluate-Truth_example = evaluate-Truth bits below_nine a_record (of_bool true) tt below_nine-true
