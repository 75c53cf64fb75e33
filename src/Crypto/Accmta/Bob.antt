-- ===== src/Crypto/Accmta/Bob.antt =====
-- crypto/accmta/share_protocol.go: how Bob answers. Bob's own parameters are never nil. What a function
-- gives back with an error is left out.
use mpc_lib.Prelude.{ℕ, ℤ, pos, Bool, Option, List}
use mpc_lib.Prelude.Result.{Result, ok, err, panic, ◌>>=◌, ◌>>◌, guard}
use mpc_lib.Common.ModInt.{sub}
use mpc_lib.Crypto.Curve.{Curve}
use mpc_lib.Crypto.Point.{EcPoint}
use mpc_lib.Crypto.Paillier.{
  PublicKey, PrivateKey, encrypt_and_return_randomness, homo_mult, homo_add_int, decrypt_full,
}
use mpc_lib.Crypto.ZkProofs.{RingPedersenParams}
use mpc_lib.Crypto.ZkProofs.Enc.{EncProof, enc_verify}
use mpc_lib.Crypto.ZkProofs.Dec.{DecProof, DecRandomness}
use mpc_lib.Crypto.ZkProofs.AffG.{AffGProof, AffGRandomness, new_aff_g_proof}
use mpc_lib.Crypto.ZkProofs.AffP.{AffPProof, AffPRandomness, new_aff_p_proof}
use mpc_lib.Crypto.ZkProofs.AffGInv.{new_aff_g_inv_witness, new_aff_g_inv_proof}
use mpc_lib.Crypto.Accmta.Proofs.{prove_for_each, verify_given, dec_proofs}
use mpc_lib.Crypto.Accmta.Alice.{enc_statement, g_statement, p_statement}

-- What Bob answers with.
pub record Answer (P : Type 0) : Type 0 where
  pub beta : ℤ
  pub c_alpha : ℤ
  pub c_beta : ℤ
  pub c_beta_prm : ℤ
  pub proofs : List (Option P)
  pub dec_proofs : List (Option DecProof)

-- The numbers that Bob draws: his share, and those of the ciphertexts of beta' and of beta.
pub record BobDraws : Type 0 where
  pub beta_prm : ℤ
  pub rhoy : ℤ
  pub r_beta : ℤ
  pub dec : ℕ → DecRandomness

-- What Bob answers in `BobRespondsG`, where beta' is not encrypted.
pub record InverseAnswer : Type 0 where
  pub beta : ℤ
  pub c_alpha : ℤ
  pub c_beta : ℤ
  pub proofs : List (Option AffGProof)

-- The fields of a nil statement are read after an error.
unfoldable pub made_or_panic {ℓ} : {A : Type ℓ} → Result A → Result A
made_or_panic (ok a) = ok a
made_or_panic (err text) = panic
made_or_panic panic = panic

module _ (sum : List ℕ → List ℕ) (ec : Curve) (bit_size : ℕ) where
  unfoldable pub bob_verify : PublicKey → Option EncProof → ℤ → RingPedersenParams → Result Bool
  unfolding verify_given
  bob_verify pk_a proof_alice c_a rp_v =
      verify_given (λ p. enc_verify sum p (enc_statement ec bit_size pk_a c_a) rp_v) proof_alice

  -- The affine operation on Alice's ciphertext.
  unfoldable pub affine_answer : PublicKey → ℤ → ℤ → ℤ → Result ℤ
  affine_answer pk_a b c_a beta_prm = do
    c_alpha ← homo_mult pk_a b c_a
    homo_add_int pk_a beta_prm c_alpha

  -- The share beta, its ciphertext and the proofs that beta + beta' is 0 modulo the order.
  unfoldable pub finish_answer :
      {P : Type 0}
      → PrivateKey
      → BobDraws
      → (c_alpha c_beta_prm : ℤ) → List (Option RingPedersenParams)
      → Result (List (Option P))
      → Result (Answer P)
  unfolding dec_proofs
  finish_answer sk_b drawn c_alpha c_beta_prm rp_v prove = do
    let beta = sub ec.n (pos 0) drawn.beta_prm
    (c_beta, _) ← encrypt_and_return_randomness sk_b.public_key beta drawn.r_beta
    decs ← dec_proofs sum ec bit_size sk_b c_beta c_beta_prm drawn.dec rp_v
    proofs ← prove
    ok (record {
      beta = beta;
      c_alpha = c_alpha;
      c_beta = c_beta;
      c_beta_prm = c_beta_prm;
      proofs = proofs;
      dec_proofs = decs;
    })

  unfoldable pub bob_responds_p :
      PublicKey
      → PrivateKey
      → Option EncProof
      → (c_b c_a : ℤ) → List (Option RingPedersenParams)
      → RingPedersenParams
      → BobDraws
      → (ℕ → AffPRandomness)
      → Result (Answer AffPProof)
  unfolding bob_verify affine_answer finish_answer prove_for_each
  bob_responds_p pk_a sk_b proof_alice c_b c_a rp_v rp_b drawn rand = do
    accepted ← bob_verify pk_a proof_alice c_a rp_b
    guard accepted "RangeProofAlice.Verify() returned false"
    (b, rhox) ← decrypt_full sk_b c_b
    (c_beta_prm, rhoy) ← encrypt_and_return_randomness sk_b.public_key drawn.beta_prm drawn.rhoy
    c_alpha ← affine_answer pk_a b c_a drawn.beta_prm
    finish_answer sk_b drawn c_alpha c_beta_prm rp_v (
        prove_for_each
          (λ i rp.
            new_aff_p_proof sum
              (record { x = b; y = drawn.beta_prm; rho = pos 1; rhox = rhox; rhoy = rhoy })
              (p_statement ec bit_size pk_a sk_b.public_key c_a c_alpha c_b c_beta_prm) rp (rand i))
          0 rp_v)

  unfoldable pub bob_responds_dl :
      PublicKey
      → PrivateKey
      → Option EncProof
      → (b c_a : ℤ) → List (Option RingPedersenParams)
      → RingPedersenParams
      → EcPoint
      → BobDraws
      → (ℕ → AffGRandomness)
      → Result (Answer AffGProof)
  unfolding bob_verify affine_answer finish_answer prove_for_each
  bob_responds_dl pk_a sk_b proof_alice b c_a rp_v rp_b big_b drawn rand = do
    accepted ← bob_verify pk_a proof_alice c_a rp_b
    guard accepted "RangeProofAlice.Verify() returned false"
    (c_beta_prm, rhoy) ← encrypt_and_return_randomness sk_b.public_key drawn.beta_prm drawn.rhoy
    c_alpha ← affine_answer pk_a b c_a drawn.beta_prm
    finish_answer sk_b drawn c_alpha c_beta_prm rp_v (
        prove_for_each
          (λ i rp.
            new_aff_g_proof sum (record { x = b; y = drawn.beta_prm; rho = pos 1; rhoy = rhoy })
              (g_statement bit_size pk_a sk_b.public_key c_a c_alpha big_b c_beta_prm) rp (rand i))
          0 rp_v)

  -- `drawn1` and `drawn0` are the random numbers of both ciphertexts.
  unfoldable pub bob_responds_g :
      PublicKey
      → PrivateKey
      → Option EncProof
      → (b c_a : ℤ) → List (Option RingPedersenParams)
      → RingPedersenParams
      → (beta drawn1 drawn0 : ℤ) → (ℕ → AffGRandomness)
      → Result InverseAnswer
  unfolding bob_verify made_or_panic prove_for_each
  bob_responds_g pk_a sk_b proof_alice b c_a rp_v rp_b beta drawn1 drawn0 rand = do
    accepted ← bob_verify pk_a proof_alice c_a rp_b
    guard accepted "RangeProofBob.Verify() returned false"
    (witness, statement) ←
        made_or_panic (new_aff_g_inv_witness ec bit_size sk_b pk_a b beta c_a drawn1 drawn0)
    proofs ← prove_for_each (λ i rp. new_aff_g_inv_proof sum witness statement rp (rand i)) 0 rp_v
    ok (record { beta = beta; c_alpha = statement.d; c_beta = statement.y; proofs = proofs })
