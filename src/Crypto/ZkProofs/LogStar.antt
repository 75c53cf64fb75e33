-- ===== src/Crypto/ZkProofs/LogStar.antt =====
-- crypto/zkproofs/logstar_proof.go: the proof that a ciphertext and a point hold one number.
use mpc_lib.Prelude.{
  ℕ, ◌*◌, ℤ, pos, Bool, not, ◌||◌, Option, none, some, List, [], ◌∷◌, if◌then◌else◌,
}
use mpc_lib.Prelude.Result.{Result, ok, err, ◌>>=◌}
use mpc_lib.Common.Hash.{sha512_256i}
use mpc_lib.Common.Slice.{non_empty_multi_bytes}
use mpc_lib.Crypto.Curve.{Curve}
use mpc_lib.Crypto.Point.{EcPoint, new_ec_point, scalar_mult}
use mpc_lib.Crypto.Paillier.{encrypt_with_randomness}
use mpc_lib.Crypto.ZkProofs.{
  new_ell, in_range, is_zero, RingPedersenParams, commit, a_plus_bc, a_times_b_to_the_c_mod_n,
}
use mpc_lib.Crypto.ZkProofs.Equations.{
  unchecked, refused, and_then, digest_or_panic, power_equation, group_equation, number, part,
}

pub record LogStarProof : Type 0 where
  pub s : ℤ
  pub a : ℤ
  pub y : EcPoint
  pub d : ℤ
  pub z1 : ℤ
  pub z2 : ℤ
  pub z3 : ℤ

-- The base `g` may be nil, and then both functions write the base point of the curve there.
pub record LogStarStatement : Type 0 where
  pub ell : ℕ
  pub n0 : ℕ
  pub c : ℤ
  pub x : EcPoint
  pub g : Option EcPoint

pub record LogStarWitness : Type 0 where
  pub x : ℤ
  pub rho : ℤ

-- The numbers that the prover draws.
pub record LogStarRandomness : Type 0 where
  pub alpha : ℤ
  pub mu : ℤ
  pub r : ℤ
  pub gamma : ℤ

unfoldable pub base_of : LogStarStatement → EcPoint
base_of stmt = elim stmt.g [
  | none ↦ record { curve = stmt.x.curve; coords = stmt.x.curve.g }
  | some g ↦ g
]

-- The bit length of the curve is not among its parameters here.
module _ (sum : List ℕ → List ℕ) (bit_size : ℕ) where
  unfoldable pub log_star_challenge :
      LogStarStatement → RingPedersenParams → ℤ → ℤ → EcPoint → ℤ → Result ℕ
  unfolding digest_or_panic base_of
  log_star_challenge stmt rp s a y d =
      let ec = stmt.x.curve in
      let g = base_of stmt in
      digest_or_panic (
        sha512_256i sum (
          pos stmt.ell
          ∷ ec.g.0
          ∷ ec.g.1
          ∷ pos ec.n
          ∷ pos bit_size
          ∷ pos stmt.n0
          ∷ stmt.x.coords.0
          ∷ stmt.x.coords.1
          ∷ stmt.c
          ∷ g.coords.0
          ∷ g.coords.1
          ∷ pos rp.n
          ∷ rp.s
          ∷ rp.t
          ∷ s
          ∷ a
          ∷ y.coords.0
          ∷ y.coords.1
          ∷ d
          ∷ []))

  unfoldable pub new_log_star_proof :
      LogStarWitness
      → LogStarStatement
      → RingPedersenParams
      → LogStarRandomness
      → Result LogStarProof
  unfolding log_star_challenge base_of unchecked
  new_log_star_proof wit stmt rp rand = do
    s ← commit rp wit.x rand.mu
    a ← unchecked (encrypt_with_randomness (record { n = stmt.n0 }) rand.alpha rand.r)
    y ← scalar_mult (base_of stmt) rand.alpha
    d ← commit rp rand.alpha rand.gamma
    e ← log_star_challenge stmt rp s a y d
    z2 ← a_times_b_to_the_c_mod_n rand.r wit.rho (pos e) stmt.n0
    ok (record {
      s = s;
      a = a;
      y = y;
      d = d;
      z1 = a_plus_bc rand.alpha (pos e) wit.x;
      z2 = z2;
      z3 = a_plus_bc rand.gamma (pos e) rand.mu;
    })

  -- N0 is positive.
  unfoldable pub log_star_verify :
      LogStarProof → LogStarStatement → RingPedersenParams → Result Bool
  unfolding log_star_challenge base_of and_then refused power_equation group_equation is_zero
      in_range
  log_star_verify proof stmt rp = do
    e ← log_star_challenge stmt rp proof.s proof.a proof.y proof.d
    and_then (ok (not (is_zero proof.a || is_zero proof.z2))) (
        and_then
          (refused (encrypt_with_randomness (record { n = stmt.n0 }) proof.z1 proof.z2)
            (λ left. power_equation left proof.a stmt.c e (stmt.n0 * stmt.n0)))
          (and_then (group_equation (scalar_mult (base_of stmt) proof.z1) proof.y stmt.x e) (
            and_then (power_equation (commit rp proof.z1 proof.z3) proof.d proof.s e rp.n)
              (ok (in_range (new_ell stmt.ell) proof.z1)))))

unfoldable pub log_star_bytes : LogStarProof → List (List ℕ)
log_star_bytes proof =
    part proof.s
    ∷ part proof.a
    ∷ part (proof.y.coords.0)
    ∷ part (proof.y.coords.1)
    ∷ part proof.d
    ∷ part proof.z1
    ∷ part proof.z2
    ∷ part proof.z3
    ∷ []

log_star_from_parts : Curve → List (List ℕ) → Result LogStarProof
unfolding new_ec_point
log_star_from_parts ec (s ∷ a ∷ y_x ∷ y_y ∷ d ∷ z1 ∷ z2 ∷ z3 ∷ []) = do
  y ← new_ec_point ec (number y_x, number y_y)
  ok (record {
    s = number s;
    a = number a;
    y = y;
    d = number d;
    z1 = number z1;
    z2 = number z2;
    z3 = number z3;
  })
log_star_from_parts ec _ = err "expected 8 byte parts to construct LogStarProof"

unfoldable pub log_star_proof_from_bytes : Curve → List (List ℕ) → Result LogStarProof
unfolding log_star_from_parts non_empty_multi_bytes
log_star_proof_from_bytes ec bzs =
    if not (non_empty_multi_bytes bzs (some 8))
    then err "expected 8 byte parts to construct LogStarProof"
    else log_star_from_parts ec bzs
