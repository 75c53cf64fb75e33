-- ===== src/Crypto/ZkProofs/Dec.antt =====
-- crypto/zkproofs/dec_proof.go: the proof of the residue of the number in a ciphertext.
use mpc_lib.Prelude.{
  ℕ, ◌*◌, ℤ, pos, emod, Bool, not, ◌||◌, some, List, [], ◌∷◌, ◌==◌, if◌then◌else◌,
}
use mpc_lib.Prelude.Result.{Result, ok, err, ◌>>=◌}
use mpc_lib.Common.Hash.{sha512_256i}
use mpc_lib.Common.Slice.{non_empty_multi_bytes}
use mpc_lib.Crypto.Paillier.{encrypt_with_randomness_no_err_chk}
use mpc_lib.Crypto.ZkProofs.{
  is_zero, RingPedersenParams, commit, a_plus_bc, a_times_b_to_the_c_mod_n,
}
use mpc_lib.Crypto.ZkProofs.Equations.{and_then, digest_or_panic, power_equation, number, part}

pub record DecProof : Type 0 where
  pub s : ℤ
  pub t : ℤ
  pub a : ℤ
  pub gamma : ℤ
  pub z1 : ℤ
  pub z2 : ℤ
  pub w : ℤ

pub record DecStatement : Type 0 where
  pub q : ℕ
  pub ell : ℕ
  pub n0 : ℕ
  pub c : ℤ
  pub x : ℤ

pub record DecWitness : Type 0 where
  pub y : ℤ
  pub rho : ℤ

-- The numbers that the prover draws.
pub record DecRandomness : Type 0 where
  pub alpha : ℤ
  pub mu : ℤ
  pub nu : ℤ
  pub r : ℤ

module _ (sum : List ℕ → List ℕ) where
  unfoldable pub dec_challenge : DecStatement → RingPedersenParams → ℤ → ℤ → ℤ → ℤ → Result ℕ
  unfolding digest_or_panic
  dec_challenge stmt rp s t a gamma = digest_or_panic (
      sha512_256i sum (
        pos stmt.ell
        ∷ pos stmt.q
        ∷ pos stmt.n0
        ∷ stmt.c
        ∷ stmt.x
        ∷ pos rp.n
        ∷ rp.s
        ∷ rp.t
        ∷ s
        ∷ t
        ∷ a
        ∷ gamma
        ∷ []))

  unfoldable pub new_dec_proof :
      DecWitness → DecStatement → RingPedersenParams → DecRandomness → Result DecProof
  unfolding dec_challenge
  new_dec_proof wit stmt rp rand = do
    s ← commit rp wit.y rand.mu
    t ← commit rp rand.alpha rand.nu
    a ← encrypt_with_randomness_no_err_chk (record { n = stmt.n0 }) rand.alpha rand.r
    let gamma = pos (emod rand.alpha stmt.q)
    e ← dec_challenge stmt rp s t a gamma
    w ← a_times_b_to_the_c_mod_n rand.r wit.rho (pos e) stmt.n0
    ok (record {
      s = s;
      t = t;
      a = a;
      gamma = gamma;
      z1 = a_plus_bc rand.alpha (pos e) wit.y;
      z2 = a_plus_bc rand.nu (pos e) rand.mu;
      w = w;
    })

  -- `z1 = gamma + e x` modulo q.
  unfoldable pub dec_residues : DecProof → DecStatement → ℕ → Bool
  dec_residues proof stmt e =
      emod proof.z1 stmt.q == emod (a_plus_bc proof.gamma (pos e) stmt.x) stmt.q

  -- N0 is positive.
  unfoldable pub dec_verify : DecProof → DecStatement → RingPedersenParams → Result Bool
  unfolding dec_challenge and_then power_equation is_zero dec_residues
  dec_verify proof stmt rp = do
    e ← dec_challenge stmt rp proof.s proof.t proof.a proof.gamma
    and_then (ok (not (is_zero proof.w || is_zero proof.a))) (
        and_then
          (power_equation
            (encrypt_with_randomness_no_err_chk (record { n = stmt.n0 }) proof.z1 proof.w) proof.a
            stmt.c e (stmt.n0 * stmt.n0))
          (and_then (ok (dec_residues proof stmt e))
            (power_equation (commit rp proof.z1 proof.z2) proof.t proof.s e rp.n)))

unfoldable pub dec_bytes : DecProof → List (List ℕ)
dec_bytes proof =
    part proof.s
    ∷ part proof.t
    ∷ part proof.a
    ∷ part proof.gamma
    ∷ part proof.z1
    ∷ part proof.z2
    ∷ part proof.w
    ∷ []

dec_from_parts : List (List ℕ) → Result DecProof
dec_from_parts (s ∷ t ∷ a ∷ gamma ∷ z1 ∷ z2 ∷ w ∷ []) = ok (record {
  s = number s;
  t = number t;
  a = number a;
  gamma = number gamma;
  z1 = number z1;
  z2 = number z2;
  w = number w;
})
dec_from_parts _ = err "expected 7 byte parts to construct DecProof"

unfoldable pub dec_proof_from_bytes : List (List ℕ) → Result DecProof
unfolding dec_from_parts non_empty_multi_bytes
dec_proof_from_bytes bzs =
    if not (non_empty_multi_bytes bzs (some 7))
    then err "expected 7 byte parts to construct DecProof"
    else dec_from_parts bzs
