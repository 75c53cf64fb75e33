-- ===== src/Tests/Toy.antt =====
-- What the tests stand on: a digest that is always the same, and a group of order 5 in which the
-- multiple k of the base point has the coordinates (k % 5, 1).
use mpc_lib.Prelude.{
  ℕ, zero, suc, HasBytes, ◌+◌, ◌*◌, ◌%◌, pos, nat_abs, Bool, true, false, some, List, length,
  replicate, set_bytes, arith, ◌≡◌, refl, ap, ◌==◌, if◌then◌else◌, mod-mul-add,
}
use mpc_lib.Crypto.Curve.{Coords, Curve, IsGroup}

abbrev pub sum : List ℕ → List ℕ
sum m = replicate 32 7

sevens : (n : ℕ) → HasBytes (replicate n 7)
sevens zero = tt
sevens (suc n) = (omega arith, sevens n)

pub sum_bytes : (m : List ℕ) → (length (sum m) ≡ 32) × HasBytes (sum m)
sum_bytes m = (refl, sevens 32)

abbrev pub point : ℕ → Coords
point k = (pos (k % 5), pos 1)

abbrev pub curve : Curve
curve = record {
  name = some "toy";
  p = 7;
  n = 5;
  g = (pos 1, pos 1);
  is_on_curve = λ c. true;
  add = λ c d. point (nat_abs c.0 + nat_abs d.0);
  scalar_mult = λ c k. point (nat_abs c.0 * set_bytes k);
  scalar_base_mult = λ k. point (set_bytes k);
}

pub same_point : (j k : ℕ) → j % 5 ≡ k % 5 → point j ≡ point k
same_point j k e = ap (λ r. (pos r, pos 1)) e

pub on_curve_all : (b : Bool) → true ≡ (if b then true else true)
on_curve_all true = refl
on_curve_all false = refl

pub same_multiple : (j k : ℕ) → j % 5 * k % 5 ≡ j * k % 5
same_multiple j k = grind (arith, mod-mul-add k j 0 5)

abbrev pub group : IsGroup curve
group = record {
  point = point;
  identity_on = true;
  order = omega arith;
  base = refl;
  base_mult = λ k. refl;
  mult = λ j k. same_point (j % 5 * set_bytes k) (j * set_bytes k) (same_multiple j (set_bytes k));
  add_points = λ j k. same_point (j % 5 + k % 5) (j + k) (omega arith);
  point-mod = λ j. same_point (j % 5) j (omega arith);
  point-injective = λ j k e. ap (λ (c : Coords). nat_abs c.0) e;
  on_curve = λ j. on_curve_all (j % 5 == 0);
}
