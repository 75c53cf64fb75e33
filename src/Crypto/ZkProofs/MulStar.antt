-- ===== src/Crypto/ZkProofs/MulStar.antt =====
-- crypto/zkproofs/mulstar_proof.go: the proof that a ciphertext is a multiple of another one by the
-- number in a point.
use mpc_lib.Prelude.{ℕ, ◌*◌, ℤ, pos, Bool, not, ◌||◌, some, List, [], ◌∷◌, if◌then◌else◌}
use mpc_lib.Prelude.Result.{Result, ok, err, ◌>>=◌}
use mpc_lib.Common.Hash.{sha512_256i}
use mpc_lib.Common.Slice.{non_empty_multi_bytes}
use mpc_lib.Crypto.Curve.{Curve}
use mpc_lib.Crypto.Point.{EcPoint, new_ec_point, scalar_base_mult}
use mpc_lib.Crypto.ZkProofs.{
  new_ell, in_range, is_zero, pseudo_paillier_encrypt, RingPedersenParams, commit, a_plus_bc,
  a_times_b_to_the_c_mod_n,
}
use mpc_lib.Crypto.ZkProofs.Equations.{
  and_then, digest_or_panic, power_equation, group_equation, number, part,
}

pub record MulStarProof : Type 0 where
  pub a : ℤ
  pub bx : EcPoint
  pub s : ℤ
  pub e : ℤ
  pub z1 : ℤ
  pub z2 : ℤ
  pub w : ℤ

pub record MulStarStatement : Type 0 where
  pub ell : ℕ
  pub n0 : ℕ
  pub c : ℤ
  pub d : ℤ
  pub x : EcPoint

pub record MulStarWitness : Type 0 where
  pub x : ℤ
  pub rho : ℤ

-- The numbers that the prover draws.
pub record MulStarRandomness : Type 0 where
  pub alpha : ℤ
  pub r : ℤ
  pub gamma : ℤ
  pub m : ℤ

-- The bit length of the curve is not among its parameters here.
module _ (sum : List ℕ → List ℕ) (bit_size : ℕ) where
  unfoldable pub mul_star_challenge :
      MulStarStatement → RingPedersenParams → ℤ → EcPoint → ℤ → ℤ → Result ℕ
  unfolding digest_or_panic
  mul_star_challenge stmt rp a bx s e =
      let ec = stmt.x.curve in
      digest_or_panic (
        sha512_256i sum (
          pos stmt.ell
          ∷ ec.g.0
          ∷ ec.g.1
          ∷ pos ec.n
          ∷ pos bit_size
          ∷ pos stmt.n0
          ∷ stmt.c
          ∷ stmt.d
          ∷ stmt.x.coords.0
          ∷ stmt.x.coords.1
          ∷ pos rp.n
          ∷ rp.s
          ∷ rp.t
          ∷ a
          ∷ bx.coords.0
          ∷ bx.coords.1
          ∷ s
          ∷ e
          ∷ []))

  unfoldable pub new_mul_star_proof :
      MulStarWitness
      → MulStarStatement
      → RingPedersenParams
      → MulStarRandomness
      → Result MulStarProof
  unfolding mul_star_challenge
  new_mul_star_proof wit stmt rp rand = do
    a ← pseudo_paillier_encrypt stmt.c rand.alpha rand.r stmt.n0 (stmt.n0 * stmt.n0)
    bx ← scalar_base_mult stmt.x.curve rand.alpha
    big_e ← commit rp rand.alpha rand.gamma
    s ← commit rp wit.x rand.m
    e ← mul_star_challenge stmt rp a bx s big_e
    w ← a_times_b_to_the_c_mod_n rand.r wit.rho (pos e) stmt.n0
    ok (record {
      a = a;
      bx = bx;
      s = s;
      e = big_e;
      z1 = a_plus_bc rand.alpha (pos e) wit.x;
      z2 = a_plus_bc rand.gamma (pos e) rand.m;
      w = w;
    })

  -- N0 is positive.
  unfoldable pub mul_star_verify :
      MulStarProof → MulStarStatement → RingPedersenParams → Result Bool
  unfolding mul_star_challenge and_then power_equation group_equation is_zero in_range
  mul_star_verify proof stmt rp = do
    let n2 = stmt.n0 * stmt.n0
    e ← mul_star_challenge stmt rp proof.a proof.bx proof.s proof.e
    and_then (ok (not (is_zero proof.w || is_zero proof.a))) (
        and_then
          (power_equation (pseudo_paillier_encrypt stmt.c proof.z1 proof.w stmt.n0 n2) proof.a
            stmt.d e n2)
          (and_then (group_equation (scalar_base_mult stmt.x.curve proof.z1) proof.bx stmt.x e) (
            and_then (power_equation (commit rp proof.z1 proof.z2) proof.e proof.s e rp.n)
              (ok (in_range (new_ell stmt.ell) proof.z1)))))

unfoldable pub mul_star_bytes : MulStarProof → List (List ℕ)
mul_star_bytes proof =
    part proof.a
    ∷ part (proof.bx.coords.0)
    ∷ part (proof.bx.coords.1)
    ∷ part proof.s
    ∷ part proof.e
    ∷ part proof.z1
    ∷ part proof.z2
    ∷ part proof.w
    ∷ []

mul_star_from_parts : Curve → List (List ℕ) → Result MulStarProof
unfolding new_ec_point
mul_star_from_parts ec (a ∷ bx_x ∷ bx_y ∷ s ∷ e ∷ z1 ∷ z2 ∷ w ∷ []) = do
  bx ← new_ec_point ec (number bx_x, number bx_y)
  ok (record {
    a = number a;
    bx = bx;
    s = number s;
    e = number e;
    z1 = number z1;
    z2 = number z2;
    w = number w;
  })
mul_star_from_parts ec _ = err "expected 8 byte parts to construct MulStarProof"

unfoldable pub mul_star_proof_from_bytes : Curve → List (List ℕ) → Result MulStarProof
unfolding mul_star_from_parts non_empty_multi_bytes
mul_star_proof_from_bytes ec bzs =
    if not (non_empty_multi_bytes bzs (some 8))
    then err "expected 8 byte parts to construct MulStarProof"
    else mul_star_from_parts ec bzs
