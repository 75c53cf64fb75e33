-- ===== src/Prelude/Gcd.antt =====
-- `new(big.Int).GCD(nil, nil, a, b)` on numbers: division with remainder until nothing is left.
use Prim.Native.Nat.{ℕ, zero, suc, ◌*◌, ◌%◌, ◌≤◌, ◌<◌, ◌∣◌}
use mathlib.Core.Path.{◌≡◌, subst}
use native.Mathlib.Omega.{arith}
use native.Mathlib.Nat.{dvd_refl, dvd-zero, dvd-mod_iff, dvd-mul_right_of_dvd, eq-one_of_dvd-one}

-- The second number falls with each round, so it is enough as a count of them.
divide_rounds : ℕ → ℕ → ℕ → ℕ
divide_rounds rounds a zero = a
divide_rounds zero a (suc b) = a
divide_rounds (suc rounds) a (suc b) = divide_rounds rounds (suc b) (a % suc b)

unfoldable pub gcd : ℕ → ℕ → ℕ
unfolding divide_rounds
gcd a b = divide_rounds b a b

divide_rounds-dvd :
    (rounds a b : ℕ) → b ≤ rounds → (divide_rounds rounds a b ∣ a) × (divide_rounds rounds a b ∣ b)
unfolding divide_rounds
divide_rounds-dvd rounds a zero h = (dvd_refl a, dvd-zero a)
divide_rounds-dvd zero a (suc b) h = absurd (omega arith)
divide_rounds-dvd (suc rounds) a (suc b) h =
    let (left, right) = divide_rounds-dvd rounds (suc b) (a % suc b) (omega arith) in
    ((dvd-mod_iff _ left).0 right, left)

-- A number with an inverse modulo n has no factor in common with n.
pub gcd-unit : (a b n : ℕ) → 1 < n → a * b % n ≡ 1 → gcd a n ≡ 1
unfolding gcd
gcd-unit a b n h e =
    let (left, right) = divide_rounds-dvd n a n (omega arith) in
    let product = dvd-mul_right_of_dvd (gcd a n) left b in
    eq-one_of_dvd-one (subst (λ (t : ℕ). gcd a n ∣ t) e ((dvd-mod_iff (gcd a n) right).1 product))
