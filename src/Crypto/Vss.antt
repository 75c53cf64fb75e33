-- ===== src/Crypto/Vss.antt =====
-- crypto/vss/feldman_vss.go: Shamir shares with Feldman's commitments to the polynomial.
pub mod Polynomial
pub mod Sums
pub mod Shares
pub mod Indexes
pub mod Create
use mpc_lib.Prelude.{
  ℕ, zero, suc, ◌+◌, ℤ, pos, Bool, true, false, not, ◌||◌, ◌&&◌, Option, none, some, List, [], ◌∷◌,
  map, length, ltb, ◌==◌, if◌then◌else◌, ◌+ℤ◌, ◌*ℤ◌, emod,
}
use mpc_lib.Prelude.Result.{Result, ok, err, panic, ◌>>=◌, ◌>>◌, guard, traverse}
use mpc_lib.Common.ModInt.{add, sub, mul, mod_inverse}
use mpc_lib.Crypto.Curve.{Curve}
use mpc_lib.Crypto.Point
use mpc_lib.Crypto.Point.{EcPoint, scalar_mult, scalar_base_mult, equals, set_curve}

pub record Share : Type 0 where
  pub threshold : ℕ
  pub id : ℤ
  pub share : ℤ

-- Membership in the map `visited`, whose keys are residues.
pub is_visited : ℕ → List ℕ → Bool
is_visited v [] = false
is_visited v (w ∷ visited) = (v == w) || is_visited v visited

pub check_from : ℕ → List ℕ → List ℤ → Result (Unit {0})
unfolding is_visited
check_from n visited [] = ok tt
check_from n visited (v ∷ indexes) = do
  guard (not (emod v n == 0)) "party index should not be 0"
  guard (not (is_visited (emod v n) visited)) "duplicate indexes"
  check_from n (emod v n ∷ visited) indexes

unfoldable pub check_indexes : Curve → List ℤ → Result (List ℤ)
unfolding check_from
check_indexes ec indexes = do check_from ec.n [] indexes; ok indexes

-- The loop of `evaluatePolynomial` over the coefficients behind the first; X is the power of id.
pub evaluate_from : ℕ → ℕ → ℤ → ℤ → ℤ → List ℤ → Result ℤ
unfolding add mul
evaluate_from q zero id x result v = ok result
evaluate_from q (suc rounds) id x result [] = panic
evaluate_from q (suc rounds) id x result (a ∷ v) =
    let x' = mul q x id in evaluate_from q rounds id x' (add q result (a *ℤ x')) v

unfoldable pub evaluate_polynomial : Curve → ℕ → List ℤ → ℤ → Result ℤ
unfolding evaluate_from
evaluate_polynomial ec threshold [] id = panic
evaluate_polynomial ec threshold (a ∷ v) id = evaluate_from ec.n threshold id (pos 1) a v

pub share_of : Curve → ℕ → List ℤ → ℤ → Result Share
share_of ec threshold poly id = do
  share ← evaluate_polynomial ec threshold poly id
  ok (record { threshold = threshold; id = id; share = share })

-- `sampled` holds the random coefficients, `threshold` of them, that `samplePolynomial` draws.
unfoldable pub create : Curve → ℕ → ℤ → List ℤ → List ℤ → Result (List EcPoint × List Share)
create ec threshold secret sampled indexes = do
  guard (not (ltb threshold 1)) "vss threshold < 1"
  ids ← check_indexes ec indexes
  guard (not (ltb (length indexes) threshold)) "not enough shares to satisfy the threshold"
  v ← traverse (scalar_base_mult ec) (secret ∷ sampled)
  shares ← traverse (share_of ec threshold (secret ∷ sampled)) ids
  ok (v, shares)

-- One round of `Verify` multiplies the power t by the id and adds v_j^t; `none` is the early return
-- where the sum is not on the curve. `SetCurve` writes the curve into the points, which hold it.
pub verify_from : Curve → ℕ → ℤ → ℤ → EcPoint → List EcPoint → Result (Option EcPoint)
unfolding mul scalar_mult Point.add
verify_from ec zero id t v vs = ok (some v)
verify_from ec (suc rounds) id t v [] = panic
verify_from ec (suc rounds) id t v (vj ∷ vs) = do
  let t' = mul ec.n t id
  vjt ← scalar_mult (set_curve ec vj) t'
  elim (Point.add (set_curve ec v) vjt) [
    | ok v' ↦ verify_from ec rounds id t' v' vs
    | err e ↦ ok none
    | panic ↦ panic
  ]

pub compare_commitment : Curve → ℤ → Option EcPoint → Result Bool
unfolding scalar_base_mult equals
compare_commitment ec share none = ok false
compare_commitment ec share (some v) = do
  sigma_gi ← scalar_base_mult ec share
  ok (equals sigma_gi v)

pub verify_against : Curve → ℕ → Share → List EcPoint → Result Bool
unfolding verify_from compare_commitment
verify_against ec threshold share [] = panic
verify_against ec threshold share (v ∷ vs) = do
  sum ← verify_from ec threshold share.id (pos 1) v vs
  compare_commitment ec share.share sum

-- `none` is a nil list of commitments.
unfoldable pub verify : Curve → ℕ → Option (List EcPoint) → Share → Result Bool
unfolding verify_against
verify ec threshold none share = ok false
verify ec threshold (some vs) share =
    if share.threshold == threshold then verify_against ec threshold share vs else ok false

-- The quotient x_j / (x_j - x_i); the product with a nil inverse panics.
unfoldable pub lagrange_factor : ℕ → ℤ → ℤ → Result ℤ
unfolding sub mul mod_inverse
lagrange_factor n xj xi = elim (mod_inverse n (sub n xj xi)) [
  | none ↦ panic
  | some inv ↦ ok (mul n xj inv)
]

-- The inner loop of `ReConstruct`: the product over the other indexes than i.
unfoldable pub lagrange_from : ℕ → ℕ → ℤ → ℕ → ℤ → List ℤ → Result ℤ
unfolding lagrange_factor
lagrange_from n i xi j times [] = ok times
lagrange_from n i xi j times (xj ∷ xs) = do
  times' ← if j == i then ok times else (do div ← lagrange_factor n xj xi; ok (mul n times div))
  lagrange_from n i xi (j + 1) times' xs

pub reconstruct_from : ℕ → List ℤ → ℕ → ℤ → List Share → Result ℤ
unfolding lagrange_from add
reconstruct_from n xs i secret [] = ok secret
reconstruct_from n xs i secret (share ∷ shares) = do
  times ← lagrange_from n i share.id 0 (pos 1) xs
  reconstruct_from n xs (i + 1) (add n secret (mul n share.share times)) shares

pub has_enough : List Share → Bool
has_enough [] = true
has_enough (share ∷ shares) = not (ltb (length (share ∷ shares)) share.threshold)

-- A nil list of shares is empty here, and has the secret 0.
unfoldable pub reconstruct : Curve → List Share → Result ℤ
unfolding has_enough reconstruct_from
reconstruct ec shares = do
  guard (has_enough shares) "not enough shares to satisfy the threshold"
  reconstruct_from ec.n (map (λ (s : Share). s.id) shares) 0 (pos 0) shares
