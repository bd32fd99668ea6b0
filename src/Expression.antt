-- ===== src/Expression.antt =====
-- execution/expression: the expression tree and its evaluation on a record, with SQL's
-- three-valued logic. Floating-point arithmetic is a parameter: C++ leaves it to the platform.
pub mod Order
pub mod Logic
mod Tests
use simple_duck_dbms.Base.{
  ℕ, ◌+◌, ◌-◌, ◌%◌, ◌^◌, ◌≡◌, refl, arith, Bool, true, false, not, ◌&&◌, ◌||◌, List, [], ◌∷◌,
  get_elem?, Result, ok, throw, Error, ◌>>=◌, at, ltb, ◌==◌, if◌then◌else◌,
}
use simple_duck_dbms.Base.Int.{ℤ, pos, negsuc, ltb_ℤ, signed64}
use simple_duck_dbms.Value.{
  ValueType, Value, null, of_bool, as_uint64, as_integral, as_double, as_float, as_bool, as_string,
  as_bytes, is_integral, is_floating, is_numeric,
}

-- What `compare` uses of `float` and `double`, on bit patterns: the conversion of a `float`, that
-- of a `uint64_t`, `std::isnan` and `<`, which is asymmetric.
pub record Floats : Type 0 where
  pub widen : ℕ → ℕ
  pub of_uint64 : ℕ → ℕ
  pub is_nan : ℕ → Bool
  pub lt : ℕ → ℕ → Bool
  pub lt_asym : (a b : ℕ) → lt a b ≡ true → lt b a ≡ false

pub data CompareResult : Type 0 where
  less eq greater unknown : CompareResult

pub data ComparisonOperator : Type 0 where
  greater less greater_eq less_eq equal not_eq : ComparisonOperator

pub data BinaryOperator : Type 0 where
  and or : BinaryOperator

pub data UnaryOperator : Type 0 where
  negate : UnaryOperator

pub data Expression : Type 0 where
  constant : Value → Expression
  column : ℕ → Expression
  comparison : Expression → ComparisonOperator → Expression → Expression
  binary : Expression → BinaryOperator → Expression → Expression
  unary : UnaryOperator → Expression → Expression

abbrev pub Record : Type 0
Record = List Value

-- `values_.at(index)`
unfoldable pub get : Record → ℕ → Result Value
get record_values index = at (get_elem? record_values index)

-- `compare_generic`, from the tests `left < right` and `left > right`.
unfoldable pub compare_generic : Bool → Bool → CompareResult
compare_generic lt gt =
    if lt then CompareResult.less else if gt then CompareResult.greater else CompareResult.eq

unfoldable pub compare_ℤ : ℤ → ℤ → CompareResult
unfolding compare_generic
compare_ℤ l r = compare_generic (ltb_ℤ l r) (ltb_ℤ r l)

unfoldable pub compare_ℕ : ℕ → ℕ → CompareResult
unfolding compare_generic
compare_ℕ l r = compare_generic (ltb l r) (ltb r l)

-- `<` of two strings or byte vectors, which goes by unsigned bytes.
unfoldable pub lex_lt : List ℕ → List ℕ → Bool
lex_lt l [] = false
lex_lt [] (b ∷ r) = true
lex_lt (a ∷ l) (b ∷ r) = ltb a b || (a == b && lex_lt l r)

unfoldable pub compare_bytes : List ℕ → List ℕ → CompareResult
unfolding compare_generic
compare_bytes l r = compare_generic (lex_lt l r) (lex_lt r l)

unfoldable pub compare_bool : Bool → Bool → CompareResult
unfolding compare_generic
compare_bool l r = compare_generic (not l && r) (l && not r)

is_type : ValueType → ValueType → Bool
is_type ValueType.uint64 ValueType.uint64 = true
is_type ValueType.float ValueType.float = true
is_type ValueType.bool ValueType.bool = true
is_type ValueType.string ValueType.string = true
is_type ValueType.bytes ValueType.bytes = true
is_type _ _ = false

-- The integral branch of `compare`.
unfoldable pub compare_integral : Value → Value → Result CompareResult
unfolding is_type
compare_integral l r =
    if is_type l.type ValueType.uint64 && is_type r.type ValueType.uint64
    then (do l_val ← as_uint64 l; r_val ← as_uint64 r; ok (compare_ℕ l_val r_val))
    else if is_type l.type ValueType.uint64
    then (do
      l_val ← as_uint64 l
      if ltb (2 ^ 63 - 1) l_val
          then ok CompareResult.greater
          else (do r_val ← as_integral r; ok (compare_ℤ (signed64 l_val) r_val)))
    else if is_type r.type ValueType.uint64
    then (do
      r_val ← as_uint64 r
      if ltb (2 ^ 63 - 1) r_val
          then ok CompareResult.less
          else (do l_val ← as_integral l; ok (compare_ℤ l_val (signed64 r_val))))
    else (do l_val ← as_integral l; r_val ← as_integral r; ok (compare_ℤ l_val r_val))

-- The switch of `ComparisonExpression::evaluate`, on a result other than UNKNOWN.
unfoldable pub holds : ComparisonOperator → CompareResult → Bool
holds ComparisonOperator.equal CompareResult.eq = true
holds ComparisonOperator.equal _ = false
holds ComparisonOperator.not_eq CompareResult.eq = false
holds ComparisonOperator.not_eq _ = true
holds ComparisonOperator.greater CompareResult.greater = true
holds ComparisonOperator.greater _ = false
holds ComparisonOperator.less CompareResult.less = true
holds ComparisonOperator.less _ = false
holds ComparisonOperator.greater_eq CompareResult.greater = true
holds ComparisonOperator.greater_eq CompareResult.eq = true
holds ComparisonOperator.greater_eq _ = false
holds ComparisonOperator.less_eq CompareResult.less = true
holds ComparisonOperator.less_eq CompareResult.eq = true
holds ComparisonOperator.less_eq _ = false

-- The rest of it.
unfoldable pub comparison_value : ComparisonOperator → CompareResult → Value
unfolding holds null of_bool
comparison_value op CompareResult.unknown = null ValueType.bool
comparison_value op cmp = of_bool (holds op cmp)

-- `BinaryExpression::evaluate`, on the values of its operands: the switch.
connect : BinaryOperator → Value → Value → Result Value
connect BinaryOperator.and l r = do
  l_false ← (if l.is_null then ok false else (do b ← as_bool l; ok (not b)))
  if l_false then ok (of_bool false) else (do
    r_false ← (if r.is_null then ok false else (do b ← as_bool r; ok (not b)))
    if r_false
        then ok (of_bool false)
        else if l.is_null || r.is_null
        then ok (null ValueType.bool)
        else ok (of_bool true))
connect BinaryOperator.or l r = do
  l_true ← (if l.is_null then ok false else as_bool l)
  if l_true then ok (of_bool true) else (do
    r_true ← (if r.is_null then ok false else as_bool r)
    if r_true
        then ok (of_bool true)
        else if l.is_null || r.is_null
        then ok (null ValueType.bool)
        else ok (of_bool false))

unfoldable pub binary_value : BinaryOperator → Value → Value → Result Value
unfolding connect is_type
binary_value op l r =
    if l.is_null && r.is_null
    then ok (null ValueType.bool)
    else if not (is_type l.type ValueType.bool) || not (is_type r.type ValueType.bool)
    then throw Error.runtime_error
    else connect op l r

unfoldable pub unary_value : UnaryOperator → Value → Result Value
unfolding is_type
unary_value UnaryOperator.negate v =
    if v.is_null
    then ok (null ValueType.bool)
    else if not (is_type v.type ValueType.bool)
    then throw Error.runtime_error
    else (do b ← as_bool v; ok (of_bool (not b)))

-- An `int64_t` as a `uint64_t`, the common type of the two operands of
-- `type() == ValueType::UINT64 ? as_uint64() : as_integral()`.
unfoldable pub to_uint64 : ℤ → ℕ
to_uint64 (pos n) = n % 2 ^ 64
to_uint64 (negsuc n) = 2 ^ 64 - 1 - n % 2 ^ 64

module _ (fl : Floats) where
  -- The `double` of a floating value.
  floating_double : Value → Result ℕ
  floating_double v =
      if is_type v.type ValueType.float then (do f ← as_float v; ok (fl.widen f)) else as_double v

  -- The `double` of an integral value, which is made an unsigned number first.
  integral_double : Value → Result ℕ
  unfolding to_uint64
  integral_double v =
      if is_type v.type ValueType.uint64
      then (do n ← as_uint64 v; ok (fl.of_uint64 n))
      else (do n ← as_integral v; ok (fl.of_uint64 (to_uint64 n)))

  unfoldable pub compare_double : ℕ → ℕ → CompareResult
  compare_double l r =
      if fl.is_nan l || fl.is_nan r
      then CompareResult.unknown
      else compare_generic (fl.lt l r) (fl.lt r l)

  unfoldable pub compare : Value → Value → Result CompareResult
  unfolding floating_double integral_double is_type
  compare l r =
      if l.is_null || r.is_null
      then ok CompareResult.unknown
      else if is_floating l && is_floating r
      then (do a ← floating_double l; b ← floating_double r; ok (compare_double a b))
      else if is_floating l && is_numeric r
      then (do a ← floating_double l; b ← integral_double r; ok (compare_double a b))
      else if is_numeric l && is_floating r
      then (do a ← integral_double l; b ← floating_double r; ok (compare_double a b))
      else if is_integral l && is_integral r
      then compare_integral l r
      else if is_type l.type ValueType.bool && is_type r.type ValueType.bool
      then (do a ← as_bool l; b ← as_bool r; ok (compare_bool a b))
      else if is_type l.type ValueType.string && is_type r.type ValueType.string
      then (do a ← as_string l; b ← as_string r; ok (compare_bytes a b))
      else if is_type l.type ValueType.bytes && is_type r.type ValueType.bytes
      then (do a ← as_bytes l; b ← as_bytes r; ok (compare_bytes a b))
      else ok CompareResult.unknown

  unfoldable pub evaluate : Expression → Record → Result Value
  evaluate (Expression.constant v) r = ok v
  evaluate (Expression.column index) r = get r index
  evaluate (Expression.comparison left op right) r = do
    l ← evaluate left r
    rv ← evaluate right r
    cmp ← compare l rv
    ok (comparison_value op cmp)
  evaluate (Expression.binary left op right) r = do
    l ← evaluate left r
    rv ← evaluate right r
    binary_value op l rv
  evaluate (Expression.unary op e) r = do v ← evaluate e r; unary_value op v
