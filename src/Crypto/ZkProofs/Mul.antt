-- ===== src/Crypto/ZkProofs/Mul.antt =====
-- crypto/zkproofs/mul_proof.go: the proof that a ciphertext is a multiple of another one by the number
-- in a third.
use mpc_lib.Prelude.{ℕ, ◌+◌, ◌*◌, ℤ, pos, Bool, not, ◌||◌, some, List, [], ◌∷◌, if◌then◌else◌}
use mpc_lib.Prelude.Result.{Result, ok, err, ◌>>=◌}
use mpc_lib.Common.Hash.{sha512_256i}
use mpc_lib.Common.Slice.{non_empty_multi_bytes}
use mpc_lib.Crypto.ZkProofs.{is_zero, pseudo_paillier_encrypt, a_plus_bc, a_times_b_to_the_c_mod_n}
use mpc_lib.Crypto.ZkProofs.Equations.{and_then, digest_or_panic, power_equation, number, part}

pub record MulProof : Type 0 where
  pub a : ℤ
  pub b : ℤ
  pub z : ℤ
  pub u : ℤ
  pub v : ℤ

pub record MulWitness : Type 0 where
  pub x : ℤ
  pub rho : ℤ
  pub rhox : ℤ

pub record MulStatement : Type 0 where
  pub n : ℕ
  pub x : ℤ
  pub y : ℤ
  pub c : ℤ

-- The numbers that the prover draws.
pub record MulRandomness : Type 0 where
  pub alpha : ℤ
  pub r : ℤ
  pub s : ℤ

module _ (sum : List ℕ → List ℕ) where
  unfoldable pub mul_challenge : MulStatement → ℤ → ℤ → Result ℕ
  unfolding digest_or_panic
  mul_challenge stmt a b =
      digest_or_panic (sha512_256i sum (pos stmt.n ∷ stmt.x ∷ stmt.y ∷ stmt.c ∷ a ∷ b ∷ []))

  unfoldable pub new_mul_proof : MulWitness → MulStatement → MulRandomness → Result MulProof
  unfolding mul_challenge
  new_mul_proof wit stmt rand = do
    let n2 = stmt.n * stmt.n
    a ← pseudo_paillier_encrypt stmt.y rand.alpha rand.r stmt.n n2
    b ← pseudo_paillier_encrypt (pos (stmt.n + 1)) rand.alpha rand.s stmt.n n2
    e ← mul_challenge stmt a b
    u ← a_times_b_to_the_c_mod_n rand.r wit.rho (pos e) stmt.n
    v ← a_times_b_to_the_c_mod_n rand.s wit.rhox (pos e) stmt.n
    ok (record { a = a; b = b; z = a_plus_bc rand.alpha (pos e) wit.x; u = u; v = v })

  -- N is positive.
  unfoldable pub mul_verify : MulProof → MulStatement → Result Bool
  unfolding mul_challenge and_then power_equation is_zero
  mul_verify proof stmt = do
    let n2 = stmt.n * stmt.n
    e ← mul_challenge stmt proof.a proof.b
    and_then (ok (not (is_zero proof.u || is_zero proof.a))) (
        and_then
          (power_equation (pseudo_paillier_encrypt stmt.y proof.z proof.u stmt.n n2) proof.a stmt.c
            e n2)
          (and_then (ok (not (is_zero proof.v || is_zero proof.b))) (
            power_equation (pseudo_paillier_encrypt (pos (1 + stmt.n)) proof.z proof.v stmt.n n2)
              proof.b stmt.x e n2)))

unfoldable pub mul_bytes : MulProof → List (List ℕ)
mul_bytes proof = part proof.a ∷ part proof.b ∷ part proof.z ∷ part proof.u ∷ part proof.v ∷ []

mul_from_parts : List (List ℕ) → Result MulProof
mul_from_parts (a ∷ b ∷ z ∷ u ∷ v ∷ []) =
    ok (record { a = number a; b = number b; z = number z; u = number u; v = number v })
mul_from_parts _ = err "expected 5 byte parts to construct MulProof"

unfoldable pub mul_proof_from_bytes : List (List ℕ) → Result MulProof
unfolding mul_from_parts non_empty_multi_bytes
mul_proof_from_bytes bzs =
    if not (non_empty_multi_bytes bzs (some 5))
    then err "expected 5 byte parts to construct MulProof"
    else mul_from_parts bzs
