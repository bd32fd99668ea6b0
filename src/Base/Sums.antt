-- ===== src/Base/Sums.antt =====
-- Sums of the first values of a function.
use Prim.Native.Nat.{ℕ, zero, suc, ◌+◌, ◌≤◌, ◌<◌}
use mathlib.Core.Path.{◌≡◌, refl}
use mathlib.Core.Logic.{◌≢◌, inl, inr}
use native.Mathlib.Omega.{arith}
use simple_duck_dbms.Base.Tests.{eq_or_ne}

unfoldable pub sum : (ℕ → ℕ) → ℕ → ℕ
sum f zero = 0
sum f (suc n) = sum f n + f n

pub sum_agree : (f g : ℕ → ℕ) (n : ℕ) → ((j : ℕ) → j < n → f j ≡ g j) → sum f n ≡ sum g n
unfolding sum
sum_agree f g zero h = refl
sum_agree f g (suc n) h =
    omega (arith, sum_agree f g n (λ j hj. h j (omega arith)), h n (omega arith))

-- A change at one place changes the sum by as much.
pub sum_update :
    (f g : ℕ → ℕ) (n s : ℕ)
    → s < n
    → ((j : ℕ) → j < n → j ≢ s → g j ≡ f j)
    → sum g n + f s ≡ sum f n + g s
unfolding sum
sum_update f g zero s lt h = elim lt [ ]
sum_update f g (suc n) s lt h = elim (eq_or_ne n s) [
  | inl e ↦ rw e (omega (arith, sum_agree g f s (λ j hj. h j (omega arith) (omega arith))))
  | inr ne ↦ omega (
    arith,
    sum_update f g n s (omega arith) (λ j hj q. h j (omega arith) q),
    h n (omega arith) ne,
  )
]

pub le_sum : (f : ℕ → ℕ) (n s : ℕ) → s < n → f s ≤ sum f n
unfolding sum
le_sum f zero s h = elim h [ ]
le_sum f (suc n) s h = elim (eq_or_ne n s) [
  | inl e ↦ rw e (omega arith)
  | inr ne ↦ omega (arith, le_sum f n s (omega arith))
]

pub sum-suc : (f : ℕ → ℕ) (n : ℕ) → sum f (suc n) ≡ sum f n + f n
unfolding sum
sum-suc f n = refl

pub sum_mono : (f : ℕ → ℕ) (m n : ℕ) → m ≤ n → sum f m ≤ sum f n
unfolding sum
sum_mono f m zero h = let e : m ≡ 0 = omega arith in rw e (omega arith)
sum_mono f m (suc n) h = elim (eq_or_ne m (suc n)) [
  | inl e ↦ rw e (omega arith)
  | inr ne ↦ omega (arith, sum_mono f m n (omega arith))
]

pub sum_le : (f g : ℕ → ℕ) (n : ℕ) → ((j : ℕ) → j < n → f j ≤ g j) → sum f n ≤ sum g n
unfolding sum
sum_le f g zero h = omega arith
sum_le f g (suc n) h = omega (arith, sum_le f g n (λ j hj. h j (omega arith)), h n (omega arith))

pub sum-zero : (f : ℕ → ℕ) → sum f 0 ≡ 0
unfolding sum
sum-zero f = refl
