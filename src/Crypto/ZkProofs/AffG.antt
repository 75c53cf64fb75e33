-- ===== src/Crypto/ZkProofs/AffG.antt =====
-- crypto/zkproofs/aff_g_proof.go: the proof of an affine operation on a ciphertext, with the factor in
-- a point.
use mpc_lib.Prelude.{ℕ, ◌*◌, ℤ, pos, Bool, not, ◌&&◌, ◌||◌, some, List, [], ◌∷◌, if◌then◌else◌}
use mpc_lib.Prelude.Result.{Result, ok, err, ◌>>=◌}
use mpc_lib.Common.Hash.{sha512_256i}
use mpc_lib.Common.Challenge.{rejection_sample}
use mpc_lib.Common.Slice.{non_empty_multi_bytes}
use mpc_lib.Crypto.Curve.{Curve}
use mpc_lib.Crypto.Point.{EcPoint, new_ec_point, scalar_base_mult}
use mpc_lib.Crypto.Paillier.{encrypt_with_randomness_no_err_chk}
use mpc_lib.Crypto.ZkProofs.{
  new_ell, in_range, is_zero, RingPedersenParams, commit, a_plus_bc, a_times_b_to_the_c_mod_n,
}
use mpc_lib.Crypto.ZkProofs.Equations.{and_then, power_equation, group_equation, number, part}

pub record AffGProof : Type 0 where
  pub a : ℤ
  pub bx : EcPoint
  pub by : ℤ
  pub e : ℤ
  pub s : ℤ
  pub f : ℤ
  pub t : ℤ
  pub z1 : ℤ
  pub z2 : ℤ
  pub z3 : ℤ
  pub z4 : ℤ
  pub w : ℤ
  pub wy : ℤ

pub record AffGStatement : Type 0 where
  pub ell : ℕ
  pub ell_prime : ℕ
  pub n0 : ℕ
  pub n1 : ℕ
  pub c : ℤ
  pub d : ℤ
  pub x : EcPoint
  pub y : ℤ

pub record AffGWitness : Type 0 where
  pub x : ℤ
  pub y : ℤ
  pub rho : ℤ
  pub rhoy : ℤ

-- The numbers that the prover draws.
pub record AffGRandomness : Type 0 where
  pub alpha : ℤ
  pub beta : ℤ
  pub r : ℤ
  pub ry : ℤ
  pub gamma : ℤ
  pub m : ℤ
  pub delta : ℤ
  pub mu : ℤ

-- The first messages of the prover.
pub record AffGCommitments : Type 0 where
  pub a : ℤ
  pub bx : EcPoint
  pub by : ℤ
  pub e : ℤ
  pub s : ℤ
  pub f : ℤ
  pub t : ℤ

module _ (sum : List ℕ → List ℕ) where
  unfoldable pub aff_g_challenge : AffGStatement → RingPedersenParams → AffGCommitments → Result ℕ
  aff_g_challenge stmt rp cm =
      let ec = stmt.x.curve in
      rejection_sample ec.n (
        sha512_256i sum (
          ec.g.0
          ∷ ec.g.1
          ∷ pos ec.n
          ∷ pos stmt.ell
          ∷ pos stmt.ell_prime
          ∷ pos stmt.n0
          ∷ pos stmt.n1
          ∷ stmt.x.coords.0
          ∷ stmt.x.coords.1
          ∷ stmt.y
          ∷ stmt.c
          ∷ stmt.d
          ∷ pos rp.n
          ∷ rp.s
          ∷ rp.t
          ∷ cm.a
          ∷ cm.bx.coords.0
          ∷ cm.bx.coords.1
          ∷ cm.by
          ∷ cm.e
          ∷ cm.s
          ∷ cm.f
          ∷ cm.t
          ∷ []))

  unfoldable pub aff_g_commitments :
      AffGWitness → AffGStatement → RingPedersenParams → AffGRandomness → Result AffGCommitments
  aff_g_commitments wit stmt rp rand = do
    a_prime ← encrypt_with_randomness_no_err_chk (record { n = stmt.n0 }) rand.beta rand.r
    a ← a_times_b_to_the_c_mod_n a_prime stmt.c rand.alpha (stmt.n0 * stmt.n0)
    bx ← scalar_base_mult stmt.x.curve rand.alpha
    by ← encrypt_with_randomness_no_err_chk (record { n = stmt.n1 }) rand.beta rand.ry
    e ← commit rp rand.alpha rand.gamma
    s ← commit rp wit.x rand.m
    f ← commit rp rand.beta rand.delta
    t ← commit rp wit.y rand.mu
    ok (record { a = a; bx = bx; by = by; e = e; s = s; f = f; t = t })

  unfoldable pub new_aff_g_proof :
      AffGWitness → AffGStatement → RingPedersenParams → AffGRandomness → Result AffGProof
  unfolding aff_g_challenge aff_g_commitments
  new_aff_g_proof wit stmt rp rand = do
    cm ← aff_g_commitments wit stmt rp rand
    e ← aff_g_challenge stmt rp cm
    w ← a_times_b_to_the_c_mod_n rand.r wit.rho (pos e) stmt.n0
    wy ← a_times_b_to_the_c_mod_n rand.ry wit.rhoy (pos e) stmt.n1
    ok (record {
      a = cm.a;
      bx = cm.bx;
      by = cm.by;
      e = cm.e;
      s = cm.s;
      f = cm.f;
      t = cm.t;
      z1 = a_plus_bc rand.alpha (pos e) wit.x;
      z2 = a_plus_bc rand.beta (pos e) wit.y;
      z3 = a_plus_bc rand.gamma (pos e) rand.m;
      z4 = a_plus_bc rand.delta (pos e) rand.mu;
      w = w;
      wy = wy;
    })

  -- `C^z1 (1 + N0)^z2 w^N0`.
  unfoldable pub affine_ciphertext : AffGProof → AffGStatement → Result ℤ
  affine_ciphertext proof stmt = do
    enc_z2 ← encrypt_with_randomness_no_err_chk (record { n = stmt.n0 }) proof.z2 proof.w
    a_times_b_to_the_c_mod_n enc_z2 stmt.c proof.z1 (stmt.n0 * stmt.n0)

  -- N0 and N1 are positive.
  unfoldable pub aff_g_verify : AffGProof → AffGStatement → RingPedersenParams → Result Bool
  unfolding aff_g_challenge affine_ciphertext and_then power_equation group_equation is_zero
      in_range
  aff_g_verify proof stmt rp = do
    e ← aff_g_challenge stmt rp (record {
      a = proof.a;
      bx = proof.bx;
      by = proof.by;
      e = proof.e;
      s = proof.s;
      f = proof.f;
      t = proof.t;
    })
    and_then (ok (not (is_zero proof.a || is_zero proof.w))) (
        and_then
          (power_equation (affine_ciphertext proof stmt) proof.a stmt.d e (stmt.n0 * stmt.n0))
          (and_then (group_equation (scalar_base_mult stmt.x.curve proof.z1) proof.bx stmt.x e) (
            and_then (ok (not (is_zero proof.wy || is_zero proof.by))) (
              and_then
                (power_equation
                  (encrypt_with_randomness_no_err_chk (record { n = stmt.n1 }) proof.z2 proof.wy)
                  proof.by stmt.y e (stmt.n1 * stmt.n1))
                (and_then (power_equation (commit rp proof.z1 proof.z3) proof.e proof.s e rp.n) (
                  and_then (power_equation (commit rp proof.z2 proof.z4) proof.f proof.t e rp.n) (
                    ok (
                      in_range (new_ell stmt.ell) proof.z1
                      && in_range (new_ell stmt.ell_prime) proof.z2))))))))

unfoldable pub aff_g_bytes : AffGProof → List (List ℕ)
aff_g_bytes proof =
    part proof.a
    ∷ part (proof.bx.coords.0)
    ∷ part (proof.bx.coords.1)
    ∷ part proof.by
    ∷ part proof.e
    ∷ part proof.s
    ∷ part proof.f
    ∷ part proof.t
    ∷ part proof.z1
    ∷ part proof.z2
    ∷ part proof.z3
    ∷ part proof.z4
    ∷ part proof.w
    ∷ part proof.wy
    ∷ []

aff_g_from_parts : Curve → List (List ℕ) → Result AffGProof
unfolding new_ec_point
aff_g_from_parts ec (a ∷ bx_x ∷ bx_y ∷ by ∷ e ∷ s ∷ f ∷ t ∷ z1 ∷ z2 ∷ z3 ∷ z4 ∷ w ∷ wy ∷ []) = do
  bx ← new_ec_point ec (number bx_x, number bx_y)
  ok (record {
    a = number a;
    bx = bx;
    by = number by;
    e = number e;
    s = number s;
    f = number f;
    t = number t;
    z1 = number z1;
    z2 = number z2;
    z3 = number z3;
    z4 = number z4;
    w = number w;
    wy = number wy;
  })
aff_g_from_parts ec _ = err "expected 14 byte parts to construct AffGProof"

unfoldable pub aff_g_proof_from_bytes : Curve → List (List ℕ) → Result AffGProof
unfolding aff_g_from_parts non_empty_multi_bytes
aff_g_proof_from_bytes ec bzs =
    if not (non_empty_multi_bytes bzs (some 14))
    then err "expected 14 byte parts to construct AffGProof"
    else aff_g_from_parts ec bzs
