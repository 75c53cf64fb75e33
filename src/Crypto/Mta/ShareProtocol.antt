-- ===== src/Crypto/Mta/ShareProtocol.antt =====
-- crypto/mta/share_protocol.go: a product of two secrets becomes a sum of two. The numbers that are
-- drawn are arguments.
use mpc_lib.Prelude.{ℕ, ℤ, pos, emod, some, List, if◌then◌else◌}
use mpc_lib.Prelude.Result.{Result, ok, err, ◌>>=◌}
use mpc_lib.Common.ModInt.{sub}
use mpc_lib.Crypto.Curve.{Curve}
use mpc_lib.Crypto.Point.{EcPoint}
use mpc_lib.Crypto.Paillier.{
  PublicKey, PrivateKey, encrypt_and_return_randomness, homo_mult, homo_add, decrypt,
}
use mpc_lib.Crypto.ZkProofs.{RingPedersenParams}
use mpc_lib.Crypto.Mta.RangeProof.{
  RangeProofAlice, AliceRandomness, prove_range_alice, range_verify,
}
use mpc_lib.Crypto.Mta.ProofBob.{
  ProofBob, ProofBobWc, BobRandomness, prove_bob, prove_bob_wc, bob_verify, bob_wc_verify,
}

-- What Bob keeps and what he sends.
pub record BobResult (P : Type 0) : Type 0 where
  pub beta : ℤ
  pub c_b : ℤ
  pub beta_prm : ℤ
  pub pi_b : P

module _ (sum : List ℕ → List ℕ) (session : List ℕ) (ec : Curve) (pk_a : PublicKey)
    (rp_a rp_b : RingPedersenParams) where
  -- `r_a` is the random number of the ciphertext.
  unfoldable pub alice_init : ℤ → ℤ → AliceRandomness → Result (ℤ × RangeProofAlice)
  unfolding encrypt_and_return_randomness
  alice_init a r_a rand = do
    (c_a, r) ← encrypt_and_return_randomness pk_a a r_a
    pf ← prove_range_alice sum ec.n pk_a rp_b c_a a r rand
    ok (c_a, pf)

  -- The ciphertext that Bob makes of Alice's, and the random number of his own.
  unfoldable pub bob_ciphertext : ℤ → ℤ → ℤ → ℤ → Result (ℤ × ℤ)
  unfolding encrypt_and_return_randomness
  bob_ciphertext b c_a beta_prm drawn = do
    (c_beta_prm, c_rand) ← encrypt_and_return_randomness pk_a beta_prm drawn
    c_b ← homo_mult pk_a b c_a
    c_b ← homo_add pk_a c_b c_beta_prm
    ok (c_b, c_rand)

  -- Both of Bob's functions, which differ in the proof that they make of the ciphertext.
  unfoldable pub bob_with :
      {P : Type 0} → (ℤ → ℤ → Result P) → RangeProofAlice → ℤ → ℤ → ℤ → ℤ → Result (BobResult P)
  unfolding bob_ciphertext
  bob_with prove pf b c_a beta_prm drawn = do
    accepted ← range_verify sum ec.n pk_a rp_b pf c_a
    if accepted
        then (do
          (c_b, c_rand) ← bob_ciphertext b c_a beta_prm drawn
          pi_b ← prove c_b c_rand
          ok (record {
            beta = sub ec.n (pos 0) beta_prm;
            c_b = c_b;
            beta_prm = beta_prm;
            pi_b = pi_b;
          }))
        else err "RangeProofAlice.Verify() returned false"

  unfoldable pub bob_mid :
      RangeProofAlice → ℤ → ℤ → ℤ → ℤ → BobRandomness → Result (BobResult ProofBob)
  unfolding bob_with
  bob_mid pf b c_a beta_prm drawn rand =
      bob_with (λ c_b c_rand. prove_bob sum session ec pk_a rp_a c_a c_b b beta_prm c_rand rand) pf
        b c_a beta_prm drawn

  unfoldable pub bob_mid_wc :
      RangeProofAlice → ℤ → ℤ → ℤ → ℤ → EcPoint → BobRandomness → Result (BobResult ProofBobWc)
  unfolding bob_with
  bob_mid_wc pf b c_a beta_prm drawn big_b rand =
      bob_with
        (λ c_b c_rand.
          prove_bob_wc sum session ec pk_a rp_a c_a c_b b beta_prm c_rand (some big_b) rand)
        pf b c_a beta_prm drawn

  -- What Alice does once Bob's proof is accepted.
  unfoldable pub alice_decrypts : PrivateKey → ℤ → Result ℤ
  alice_decrypts sk c_b = do alpha_prm ← decrypt sk c_b; ok (pos (emod alpha_prm ec.n))

  unfoldable pub alice_end : ProofBob → ℤ → ℤ → PrivateKey → Result ℤ
  unfolding alice_decrypts
  alice_end pf c_a c_b sk = do
    accepted ← bob_verify sum session ec pk_a rp_a pf c_a c_b
    if accepted then alice_decrypts sk c_b else err "ProofBob.Verify() returned false"

  unfoldable pub alice_end_wc : ProofBobWc → EcPoint → ℤ → ℤ → PrivateKey → Result ℤ
  unfolding alice_decrypts
  alice_end_wc pf big_b c_a c_b sk = do
    accepted ← bob_wc_verify sum session ec pk_a rp_a pf c_a c_b (some big_b)
    if accepted then alice_decrypts sk c_b else err "ProofBobWC.Verify() returned false"
