-- ===== src/Crypto/Point.antt =====
-- crypto/ecpoint.go: points with a test that they are on their curve. The coordinates of a point are
-- numbers here, never nil; a nil point is `none` where the code tests for it.
pub mod Group
use mpc_lib.Prelude.{
  ℕ, suc, ℤ, pos, nat_abs, Bool, true, false, ◌&&◌, Option, none, some, List, [], ◌∷◌, bytes, ◌==ℤ◌,
  if◌then◌else◌,
}
use mpc_lib.Prelude.Result.{Result, ok, err, panic, ◌>>=◌}
use mpc_lib.Crypto.Curve.{Curve, Coords}

pub record EcPoint : Type 0 where
  pub curve : Curve
  pub coords : Coords

unfoldable pub new_ec_point : Curve → Coords → Result EcPoint
new_ec_point c xy =
    if c.is_on_curve xy
    then ok (record { curve = c; coords = xy })
    else err "NewECPoint: the given point is not on the elliptic curve"

abbrev pub new_ec_point_no_curve_check : Curve → Coords → EcPoint
new_ec_point_no_curve_check c xy = record { curve = c; coords = xy }

unfoldable pub add : EcPoint → EcPoint → Result EcPoint
unfolding new_ec_point
add p p1 = new_ec_point p.curve (p.curve.add p.coords p1.coords)

-- An error of `NewECPoint` becomes a panic.
unfoldable pub or_panic : Result EcPoint → Result EcPoint
or_panic (ok p) = ok p
or_panic (err e) = panic
or_panic panic = panic

unfoldable pub scalar_mult : EcPoint → ℤ → Result EcPoint
unfolding new_ec_point or_panic
scalar_mult p k = or_panic (new_ec_point p.curve (p.curve.scalar_mult p.coords (bytes (nat_abs k))))

unfoldable pub scalar_base_mult : Curve → ℤ → Result EcPoint
unfolding new_ec_point or_panic
scalar_base_mult c k = or_panic (new_ec_point c (c.scalar_base_mult (bytes (nat_abs k))))

unfoldable pub is_on_curve : EcPoint → Bool
is_on_curve p = p.curve.is_on_curve p.coords

unfoldable pub equals : EcPoint → EcPoint → Bool
equals p p2 = (p.coords.0 ==ℤ p2.coords.0) && (p.coords.1 ==ℤ p2.coords.1)

abbrev pub set_curve : Curve → EcPoint → EcPoint
set_curve c p = record p { curve = c }

-- `eight_inv` is the inverse of 8 modulo the order of Ed25519.
unfoldable pub eight_inv_eight : ℤ → EcPoint → Result EcPoint
unfolding scalar_mult
eight_inv_eight eight_inv p = do q ← scalar_mult p (pos 8); scalar_mult q eight_inv

unfoldable pub flatten_ec_points : List (Option EcPoint) → Result (List ℤ)
flatten_ec_points [] = ok []
flatten_ec_points (none ∷ points) = err "FlattenECPoints found nil point/coordinate"
flatten_ec_points (some p ∷ points) = do
  flat ← flatten_ec_points points
  ok (p.coords.0 ∷ p.coords.1 ∷ flat)

-- Pairs of coordinates; an odd count is refused before any point is made.
unflatten_pairs : Curve → Bool → List ℤ → Result (List EcPoint)
unfolding new_ec_point
unflatten_pairs c no_check [] = ok []
unflatten_pairs c no_check (x ∷ []) = panic
unflatten_pairs c no_check (x ∷ y ∷ rest) = do
  p ← if no_check then ok (new_ec_point_no_curve_check c (x, y)) else new_ec_point c (x, y)
  points ← unflatten_pairs c no_check rest
  ok (p ∷ points)

is_even_length : List ℤ → Bool
is_even_length [] = true
is_even_length (x ∷ []) = false
is_even_length (x ∷ y ∷ rest) = is_even_length rest

unfoldable pub unflatten_ec_points : Curve → List ℤ → Bool → Result (List EcPoint)
unfolding is_even_length unflatten_pairs
unflatten_ec_points c flat no_check =
    if is_even_length flat
    then unflatten_pairs c no_check flat
    else err "UnFlattenECPoints expected an in len divisible by 2"
