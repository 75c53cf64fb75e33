-- ===== src/Crypto/ZkProofs/AffP.antt =====
-- crypto/zkproofs/aff_p_proof.go: the proof of an affine operation on a ciphertext, with the factor in
-- another one.
use Prim.Native.String.{String}
use mpc_lib.Prelude.{ℕ, ◌*◌, ℤ, pos, Bool, not, ◌&&◌, ◌||◌, some, List, [], ◌∷◌, if◌then◌else◌}
use mpc_lib.Prelude.Result.{Result, ok, err, panic, ◌>>=◌, ◌>>◌, guard}
use mpc_lib.Common.Hash.{sha512_256i}
use mpc_lib.Common.Challenge.{rejection_sample}
use mpc_lib.Common.Slice.{non_empty_multi_bytes}
use mpc_lib.Crypto.Paillier.{encrypt_with_randomness}
use mpc_lib.Crypto.ZkProofs.{
  new_ell, in_range, is_zero, RingPedersenParams, commit, a_plus_bc, a_times_b_to_the_c_mod_n,
}
use mpc_lib.Crypto.ZkProofs.Equations.{and_then, unchecked, refused, power_equation, number, part}

pub record AffPProof : Type 0 where
  pub a : ℤ
  pub bx : ℤ
  pub by : ℤ
  pub e : ℤ
  pub s : ℤ
  pub f : ℤ
  pub t : ℤ
  pub z1 : ℤ
  pub z2 : ℤ
  pub z3 : ℤ
  pub z4 : ℤ
  pub w : ℤ
  pub wx : ℤ
  pub wy : ℤ

pub record AffPWitness : Type 0 where
  pub x : ℤ
  pub y : ℤ
  pub rho : ℤ
  pub rhox : ℤ
  pub rhoy : ℤ

-- `q` is the order of the curve.
pub record AffPStatement : Type 0 where
  pub c : ℤ
  pub d : ℤ
  pub x : ℤ
  pub y : ℤ
  pub n0 : ℕ
  pub n1 : ℕ
  pub ell : ℕ
  pub ell_prime : ℕ
  pub q : ℕ

-- The numbers that the prover draws.
pub record AffPRandomness : Type 0 where
  pub alpha : ℤ
  pub beta : ℤ
  pub r : ℤ
  pub rx : ℤ
  pub ry : ℤ
  pub gamma : ℤ
  pub m : ℤ
  pub delta : ℤ
  pub mu : ℤ

-- The first messages of the prover.
pub record AffPCommitments : Type 0 where
  pub a : ℤ
  pub bx : ℤ
  pub by : ℤ
  pub e : ℤ
  pub s : ℤ
  pub f : ℤ
  pub t : ℤ

-- Another text for an error.
unfoldable pub renamed : String → Result ℤ → Result ℤ
renamed text (ok a) = ok a
renamed text (err e) = err text
renamed text panic = panic

module _ (sum : List ℕ → List ℕ) where
  unfoldable pub aff_p_challenge : AffPStatement → RingPedersenParams → AffPCommitments → Result ℕ
  aff_p_challenge stmt rp cm = rejection_sample stmt.q (
      sha512_256i sum (
        pos stmt.ell
        ∷ pos stmt.ell_prime
        ∷ stmt.c
        ∷ stmt.d
        ∷ stmt.x
        ∷ stmt.y
        ∷ pos stmt.n0
        ∷ pos stmt.n1
        ∷ pos rp.n
        ∷ rp.s
        ∷ rp.t
        ∷ cm.a
        ∷ cm.bx
        ∷ cm.by
        ∷ cm.e
        ∷ cm.s
        ∷ cm.f
        ∷ cm.t
        ∷ []))

  unfoldable pub aff_p_commitments :
      AffPWitness → AffPStatement → RingPedersenParams → AffPRandomness → Result AffPCommitments
  unfolding renamed
  aff_p_commitments wit stmt rp rand = do
    a_prime ←
        renamed "NewAffPProof: could not create A."
          (encrypt_with_randomness (record { n = stmt.n0 }) rand.beta rand.r)
    a ← a_times_b_to_the_c_mod_n a_prime stmt.c rand.alpha (stmt.n0 * stmt.n0)
    bx ←
        renamed "NewAffPProof: could not create Bx."
          (encrypt_with_randomness (record { n = stmt.n1 }) rand.alpha rand.rx)
    by ←
        renamed "NewAffPProof: could not create By."
          (encrypt_with_randomness (record { n = stmt.n1 }) rand.beta rand.ry)
    e ← commit rp rand.alpha rand.gamma
    s ← commit rp wit.x rand.m
    f ← commit rp rand.beta rand.delta
    t ← commit rp wit.y rand.mu
    ok (record { a = a; bx = bx; by = by; e = e; s = s; f = f; t = t })

  unfoldable pub new_aff_p_proof :
      AffPWitness → AffPStatement → RingPedersenParams → AffPRandomness → Result AffPProof
  unfolding aff_p_challenge aff_p_commitments in_range
  new_aff_p_proof wit stmt rp rand = do
    guard (in_range (new_ell stmt.ell) wit.x) "NewAffPProof: wit.X not in range."
    guard (in_range (new_ell stmt.ell_prime) wit.y) "NewAffPProof: wit.Y not in range."
    cm ← aff_p_commitments wit stmt rp rand
    e ← aff_p_challenge stmt rp cm
    let z1 = a_plus_bc rand.alpha (pos e) wit.x
    guard (in_range (new_ell stmt.ell) z1) "NewAffPProof: could not create Z1 in range."
    let z2 = a_plus_bc rand.beta (pos e) wit.y
    guard (in_range (new_ell stmt.ell_prime) z2) "NewAffPProof: could not create Z2 in range."
    w ← a_times_b_to_the_c_mod_n rand.r wit.rho (pos e) stmt.n0
    wx ← a_times_b_to_the_c_mod_n rand.rx wit.rhox (pos e) stmt.n1
    wy ← a_times_b_to_the_c_mod_n rand.ry wit.rhoy (pos e) stmt.n1
    ok (record {
      a = cm.a;
      bx = cm.bx;
      by = cm.by;
      e = cm.e;
      s = cm.s;
      f = cm.f;
      t = cm.t;
      z1 = z1;
      z2 = z2;
      z3 = a_plus_bc rand.gamma (pos e) rand.m;
      z4 = a_plus_bc rand.delta (pos e) rand.mu;
      w = w;
      wx = wx;
      wy = wy;
    })

  -- The left side of the first test. An error of the encryption is tested only after the use of nil.
  unfoldable pub aff_p_ciphertext : AffPProof → AffPStatement → Result ℤ
  unfolding unchecked
  aff_p_ciphertext proof stmt = do
    left1_prime ← unchecked (encrypt_with_randomness (record { n = stmt.n0 }) proof.z2 proof.w)
    a_times_b_to_the_c_mod_n left1_prime stmt.c proof.z1 (stmt.n0 * stmt.n0)

  -- The test of a ciphertext under N1.
  unfoldable pub aff_p_opening : AffPStatement → ℤ → ℤ → ℤ → ℤ → ℕ → Result Bool
  unfolding refused power_equation
  aff_p_opening stmt z w b cipher e =
      refused (encrypt_with_randomness (record { n = stmt.n1 }) z w)
        (λ left. power_equation left b cipher e (stmt.n1 * stmt.n1))

  -- The moduli are positive.
  unfoldable pub aff_p_verify : AffPProof → AffPStatement → RingPedersenParams → Result Bool
  unfolding aff_p_challenge aff_p_ciphertext aff_p_opening and_then power_equation is_zero in_range
  aff_p_verify proof stmt rp = do
    e ← aff_p_challenge stmt rp (record {
      a = proof.a;
      bx = proof.bx;
      by = proof.by;
      e = proof.e;
      s = proof.s;
      f = proof.f;
      t = proof.t;
    })
    and_then (ok (not (is_zero proof.w || is_zero proof.a))) (
        and_then (power_equation (aff_p_ciphertext proof stmt) proof.a stmt.d e (stmt.n0 * stmt.n0))
          (and_then (ok (not (is_zero proof.wx || is_zero proof.bx))) (
            and_then (aff_p_opening stmt proof.z1 proof.wx proof.bx stmt.x e) (
              and_then (ok (not (is_zero proof.wy || is_zero proof.by))) (
                and_then (aff_p_opening stmt proof.z2 proof.wy proof.by stmt.y e) (
                  and_then (power_equation (commit rp proof.z1 proof.z3) proof.e proof.s e rp.n) (
                    and_then (power_equation (commit rp proof.z2 proof.z4) proof.f proof.t e rp.n) (
                      ok (
                        in_range (new_ell stmt.ell) proof.z1
                        && in_range (new_ell stmt.ell_prime) proof.z2)))))))))

unfoldable pub aff_p_bytes : AffPProof → List (List ℕ)
aff_p_bytes proof =
    part proof.a
    ∷ part proof.bx
    ∷ part proof.by
    ∷ part proof.e
    ∷ part proof.s
    ∷ part proof.f
    ∷ part proof.t
    ∷ part proof.z1
    ∷ part proof.z2
    ∷ part proof.z3
    ∷ part proof.z4
    ∷ part proof.w
    ∷ part proof.wx
    ∷ part proof.wy
    ∷ []

aff_p_from_parts : List (List ℕ) → Result AffPProof
aff_p_from_parts (a ∷ bx ∷ by ∷ e ∷ s ∷ f ∷ t ∷ z1 ∷ z2 ∷ z3 ∷ z4 ∷ w ∷ wx ∷ wy ∷ []) = ok (record {
  a = number a;
  bx = number bx;
  by = number by;
  e = number e;
  s = number s;
  f = number f;
  t = number t;
  z1 = number z1;
  z2 = number z2;
  z3 = number z3;
  z4 = number z4;
  w = number w;
  wx = number wx;
  wy = number wy;
})
aff_p_from_parts _ = err "expected 14 byte parts to construct AffPProof"

unfoldable pub aff_p_proof_from_bytes : List (List ℕ) → Result AffPProof
unfolding aff_p_from_parts non_empty_multi_bytes
aff_p_proof_from_bytes bzs =
    if not (non_empty_multi_bytes bzs (some 14))
    then err "expected 14 byte parts to construct AffPProof"
    else aff_p_from_parts bzs
