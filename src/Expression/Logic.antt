-- ===== src/Expression/Logic.antt =====
-- The connectives are those of Kleene's three-valued logic, and the comparison operators are
-- complements of one another in it.
use Prim.Native.Nat.{max}
use simple_duck_dbms.Base.{
  ℕ, ◌-◌, ◌≡◌, refl, sym, ap, subst, ◌∙◌, arith, min, Bool, true, false, ok, ok-injective,
  >>=-eq-ok,
}
use simple_duck_dbms.Value.{ValueType, Value, null, of_bool, as_bool}
use simple_duck_dbms.Expression.{
  Floats, CompareResult, ComparisonOperator, BinaryOperator, UnaryOperator, Expression, Record,
  compare, holds, comparison_value, binary_value, unary_value, evaluate,
}

-- The values of a predicate, by the rank of what they stand for: FALSE below NULL below TRUE.
pub data Truth : Value → ℕ → Type 0 where
  holds_true : Truth (of_bool true) 2
  unknown : Truth (null ValueType.bool) 1
  holds_false : Truth (of_bool false) 0

pub and_value :
    (l r : Value) (a b : ℕ)
    → Truth l a
    → Truth r b
    → (v : Value) × (binary_value BinaryOperator.and l r ≡ ok v) × Truth v (min a b)
unfolding binary_value of_bool null as_bool
and_value l r a b holds_true holds_true = (_, refl, holds_true)
and_value l r a b holds_true unknown = (_, refl, unknown)
and_value l r a b holds_true holds_false = (_, refl, holds_false)
and_value l r a b unknown holds_true = (_, refl, unknown)
and_value l r a b unknown unknown = (_, refl, unknown)
and_value l r a b unknown holds_false = (_, refl, holds_false)
and_value l r a b holds_false holds_true = (_, refl, holds_false)
and_value l r a b holds_false unknown = (_, refl, holds_false)
and_value l r a b holds_false holds_false = (_, refl, holds_false)

pub or_value :
    (l r : Value) (a b : ℕ)
    → Truth l a
    → Truth r b
    → (v : Value) × (binary_value BinaryOperator.or l r ≡ ok v) × Truth v (max a b)
unfolding binary_value of_bool null as_bool
or_value l r a b holds_true holds_true = (_, refl, holds_true)
or_value l r a b holds_true unknown = (_, refl, holds_true)
or_value l r a b holds_true holds_false = (_, refl, holds_true)
or_value l r a b unknown holds_true = (_, refl, holds_true)
or_value l r a b unknown unknown = (_, refl, unknown)
or_value l r a b unknown holds_false = (_, refl, unknown)
or_value l r a b holds_false holds_true = (_, refl, holds_true)
or_value l r a b holds_false unknown = (_, refl, unknown)
or_value l r a b holds_false holds_false = (_, refl, holds_false)

pub negate_value :
    (l : Value) (a : ℕ)
    → Truth l a
    → (v : Value) × (unary_value UnaryOperator.negate l ≡ ok v) × Truth v (2 - a)
unfolding unary_value of_bool null as_bool
negate_value l a holds_true = (_, refl, holds_false)
negate_value l a unknown = (_, refl, unknown)
negate_value l a holds_false = (_, refl, holds_true)

-- On operands that are TRUE, FALSE or NULL the three connectives evaluate to the minimum, the
-- maximum and the reversal of the ranks.
pub connectives_Kleene :
    (fl : Floats) (e f : Expression) (record_values : Record) (l r : Value) (a b : ℕ)
    → evaluate fl e record_values ≡ ok l
    → evaluate fl f record_values ≡ ok r
    → Truth l a
    → Truth r b
    → ((v : Value) × (evaluate fl (Expression.binary e BinaryOperator.and f) record_values ≡ ok v)
        × Truth v (min a b))
      × ((v : Value) × (evaluate fl (Expression.binary e BinaryOperator.or f) record_values ≡ ok v)
          × Truth v (max a b))
      × ((v : Value) × (evaluate fl (Expression.unary UnaryOperator.negate e) record_values ≡ ok v)
          × Truth v (2 - a))
unfolding evaluate
connectives_Kleene fl e f rec l r a b p q s t =
    let (v, v_ok, v_truth) = and_value l r a b s t in
    let (w, w_ok, w_truth) = or_value l r a b s t in
    let (n, n_ok, n_truth) = negate_value l a s in
    ((v, rw (p, q) v_ok, v_truth), (w, rw (p, q) w_ok, w_truth), (n, rw p n_ok, n_truth))

-- Comparisons, and connectives of predicates.
abbrev pub IsPredicate : Expression → Type 0
IsPredicate (Expression.constant v) = ⊥
IsPredicate (Expression.column i) = ⊥
IsPredicate (Expression.comparison l op r) = Unit
IsPredicate (Expression.binary l op r) = IsPredicate l × IsPredicate r
IsPredicate (Expression.unary op e) = IsPredicate e

bool-Truth : (b : Bool) → (n : ℕ) × Truth (of_bool b) n
bool-Truth true = (2, holds_true)
bool-Truth false = (0, holds_false)

comparison_value-Truth :
    (op : ComparisonOperator) (c : CompareResult) → (n : ℕ) × Truth (comparison_value op c) n
unfolding comparison_value
comparison_value-Truth op CompareResult.unknown = (1, unknown)
comparison_value-Truth op CompareResult.less = bool-Truth (holds op CompareResult.less)
comparison_value-Truth op CompareResult.eq = bool-Truth (holds op CompareResult.eq)
comparison_value-Truth op CompareResult.greater = bool-Truth (holds op CompareResult.greater)

abbrev HasTruth : Value → Type 0
HasTruth v = (n : ℕ) × Truth v n

binary_value-Truth :
    (op : BinaryOperator) (l r v : Value) (a b : ℕ)
    → Truth l a
    → Truth r b
    → binary_value op l r ≡ ok v
    → HasTruth v
binary_value-Truth BinaryOperator.and l r v a b s t e =
    let (w, e_w, u) = and_value l r a b s t in
    subst HasTruth (ok-injective (sym e_w ∙ e)) (min a b, u)
binary_value-Truth BinaryOperator.or l r v a b s t e =
    let (w, e_w, u) = or_value l r a b s t in
    subst HasTruth (ok-injective (sym e_w ∙ e)) (max a b, u)

rank_unique : (v w : Value) (m n : ℕ) → Truth v m → Truth w n → m ≡ n → v ≡ w
rank_unique v w m n holds_true holds_true e = refl
rank_unique v w m n unknown unknown e = refl
rank_unique v w m n holds_false holds_false e = refl
rank_unique v w m n s t e = absurd (omega arith)

-- A predicate that evaluates at all evaluates to TRUE, FALSE or a NULL of type BOOL.
pub evaluate-Truth :
    (fl : Floats) (e : Expression) (record_values : Record) (v : Value)
    → IsPredicate e
    → evaluate fl e record_values ≡ ok v
    → (n : ℕ) × Truth v n
unfolding evaluate
evaluate-Truth fl (Expression.constant w) rec v h e = absurd h
evaluate-Truth fl (Expression.column i) rec v h e = absurd h
evaluate-Truth fl (Expression.comparison l op r) rec v h e =
    let (a, _, e₁) = >>=-eq-ok (evaluate fl l rec) _ e in
    let (b, _, e₂) = >>=-eq-ok (evaluate fl r rec) _ e₁ in
    let (c, _, e₃) = >>=-eq-ok (compare fl a b) _ e₂ in
    subst HasTruth (ok-injective e₃) (comparison_value-Truth op c)
evaluate-Truth fl (Expression.binary l op r) rec v h e =
    let (a, e_a, e₁) = >>=-eq-ok (evaluate fl l rec) _ e in
    let (b, e_b, e₂) = >>=-eq-ok (evaluate fl r rec) _ e₁ in
    let (m, s) = evaluate-Truth fl l rec a h.0 e_a in
    let (n, t) = evaluate-Truth fl r rec b h.1 e_b in binary_value-Truth op a b v m n s t e₂
evaluate-Truth fl (Expression.unary UnaryOperator.negate l) rec v h e =
    let (a, e_a, e₁) = >>=-eq-ok (evaluate fl l rec) _ e in
    let (m, s) = evaluate-Truth fl l rec a h e_a in
    let (w, e_w, t) = negate_value a m s in subst HasTruth (ok-injective (sym e_w ∙ e₁)) (2 - m, t)

-- De Morgan: NOT over AND is OR over NOT, for predicates that evaluate.
pub evaluate_de_morgan :
    (fl : Floats) (e f : Expression) (record_values : Record) (l r : Value)
    → IsPredicate e
    → IsPredicate f
    → evaluate fl e record_values ≡ ok l
    → evaluate fl f record_values ≡ ok r
    → evaluate fl
        (Expression.unary UnaryOperator.negate (Expression.binary e BinaryOperator.and f))
        record_values
      ≡ evaluate fl
          (Expression.binary
            (Expression.unary UnaryOperator.negate e)
            BinaryOperator.or
            (Expression.unary UnaryOperator.negate f))
          record_values
unfolding evaluate
evaluate_de_morgan fl e f rec l r he hf p q =
    let (a, s) = evaluate-Truth fl e rec l he p in
    let (b, t) = evaluate-Truth fl f rec r hf q in
    let (v, v_ok, v_truth) = and_value l r a b s t in
    let (v', v'_ok, v'_truth) = negate_value v (min a b) v_truth in
    let (nl, nl_ok, nl_truth) = negate_value l a s in
    let (nr, nr_ok, nr_truth) = negate_value r b t in
    let (w, w_ok, w_truth) = or_value nl nr (2 - a) (2 - b) nl_truth nr_truth in
    let ranks : 2 - min a b ≡ max (2 - a) (2 - b) = omega arith in
    rw (p, q, v_ok, v'_ok, nl_ok, nr_ok, w_ok)
      (ap ok (rank_unique v' w (2 - min a b) (max (2 - a) (2 - b)) v'_truth w_truth ranks))

-- The operator that holds of a known order exactly when the given one does not.
abbrev pub complement : ComparisonOperator → ComparisonOperator
complement ComparisonOperator.equal = ComparisonOperator.not_eq
complement ComparisonOperator.not_eq = ComparisonOperator.equal
complement ComparisonOperator.less = ComparisonOperator.greater_eq
complement ComparisonOperator.greater_eq = ComparisonOperator.less
complement ComparisonOperator.greater = ComparisonOperator.less_eq
complement ComparisonOperator.less_eq = ComparisonOperator.greater

complement_value :
    (op : ComparisonOperator) (c : CompareResult)
    → ok (comparison_value (complement op) c)
      ≡ unary_value UnaryOperator.negate (comparison_value op c)
unfolding comparison_value unary_value null of_bool as_bool holds
complement_value ComparisonOperator.equal CompareResult.eq = refl
complement_value ComparisonOperator.not_eq CompareResult.eq = refl
complement_value ComparisonOperator.less CompareResult.eq = refl
complement_value ComparisonOperator.greater_eq CompareResult.eq = refl
complement_value ComparisonOperator.greater CompareResult.eq = refl
complement_value ComparisonOperator.less_eq CompareResult.eq = refl
complement_value op c = refl

-- A comparison by the complementary operator is the negation, whatever the operands: NULL stays
-- NULL, and an operand that throws makes both throw.
pub evaluate-complement :
    (fl : Floats) (l r : Expression) (op : ComparisonOperator) (record_values : Record)
    → evaluate fl (Expression.comparison l (complement op) r) record_values
      ≡ evaluate fl
          (Expression.unary UnaryOperator.negate (Expression.comparison l op r))
          record_values
unfolding evaluate
evaluate-complement fl l r op rec = grind (arith, complement_value)
