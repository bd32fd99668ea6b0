-- ===== src/Operator/Select.antt =====
-- `SELECT … WHERE predicate`: a filter over a scan.
use simple_duck_dbms.Base.{ℕ, ◌<◌, ◌≡◌, ◌≢◌, refl, ◌∙◌, true, false, List, [], ◌∷◌, length, ok}
use simple_duck_dbms.Value.{Value, null, of_bool, as_bool}
use simple_duck_dbms.Expression.{Floats, Expression, Record, evaluate}
use simple_duck_dbms.Expression.Logic.{
  IsPredicate, Truth, holds_true, holds_false, unknown, evaluate-Truth,
}
use simple_duck_dbms.Operator.{Plan, keeps, drain}
use simple_duck_dbms.Operator.Pipeline.{row_out, rows_out, drain-rows_out}

-- The records on which the predicate is TRUE, in order.
pub data Selected (fl : Floats) (e : Expression) : List Record → List Record → Type 0 where
  nil : Selected fl e [] []
  take_row :
      (r : Record) {rows out : List Record}
      → evaluate fl e r ≡ ok (of_bool true)
      → Selected fl e rows out
      → Selected fl e (r ∷ rows) (r ∷ out)
  skip_row :
      (r : Record) (v : Value) {rows out : List Record}
      → evaluate fl e r ≡ ok v
      → v ≢ of_bool true
      → Selected fl e rows out
      → Selected fl e (r ∷ rows) out

Truth-kept :
    (fl : Floats) (e : Expression) (r : Record) (v : Value) (n : ℕ)
    → Truth v n
    → evaluate fl e r ≡ ok v
    → v ≢ of_bool true
    → keeps fl e r ≡ ok false
unfolding keeps of_bool null as_bool
Truth-kept fl e r v n holds_true ev ne = absurd (ne refl)
Truth-kept fl e r v n unknown ev ne = rw ev
Truth-kept fl e r v n holds_false ev ne = rw ev

true_kept :
    (fl : Floats) (e : Expression) (r : Record)
    → evaluate fl e r ≡ ok (of_bool true)
    → keeps fl e r ≡ ok true
unfolding keeps of_bool as_bool
true_kept fl e r ev = rw ev

Selected-rows_out :
    (fl : Floats) (e : Expression) {rows out : List Record}
    → IsPredicate e
    → Selected fl e rows out
    → rows_out fl (Plan.filter Plan.scan e) rows ≡ ok out
unfolding rows_out row_out
Selected-rows_out fl e p nil = refl
Selected-rows_out fl e p (take_row r ev s) = rw (true_kept fl e r ev, Selected-rows_out fl e p s)
Selected-rows_out fl e p (skip_row r v ev ne s) =
    let (n, t) = evaluate-Truth fl e r v p ev in
    rw (Truth-kept fl e r v n t ev ne, Selected-rows_out fl e p s)

-- A filter over a scan delivers, in order, the rows on which its predicate is TRUE: a row on which
-- it is FALSE or NULL is left out, and the assertion on the type of the predicate holds.
pub drain-Selected :
    (fl : Floats) (e : Expression) (fuel : ℕ) {rows out : List Record}
    → IsPredicate e
    → Selected fl e rows out
    → length rows < fuel
    → drain fl (Plan.filter Plan.scan e) fuel rows ≡ ok out
drain-Selected fl e fuel {rows} p s h =
    drain-rows_out fl (Plan.filter Plan.scan e) fuel rows h ∙ Selected-rows_out fl e p s
