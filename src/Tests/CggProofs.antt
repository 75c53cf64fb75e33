-- ===== src/Tests/CggProofs.antt =====
-- Proofs of honest provers over small moduli and the toy group, and a run of the multiplication with
-- them.
use mpc_lib.Prelude.{
  ℕ, ◌%◌, ◌*◌, ◌≡◌, refl, arith, ℤ, pos, emod, set_bytes, List, Option, true, ◌+ℤ◌,
}
use mpc_lib.Prelude.Result.{ok, ◌>>=◌, ◌>>◌, guard}
use mpc_lib.Common.Hash.{sha512_256, sha512_256i}
use mpc_lib.Common.Challenge.{rejection_sample}
use mpc_lib.Crypto.Point.Group.{at}
use mpc_lib.Crypto.Paillier.{PublicKey, PrivateKey, encrypt_and_return_randomness}
use mpc_lib.Crypto.ZkProofs.{RingPedersenParams, is_zero}
use mpc_lib.Crypto.ZkProofs.Enc.{EncProof, EncRandomness, new_enc_proof}
use mpc_lib.Crypto.ZkProofs.Dec.{DecProof}
use mpc_lib.Crypto.ZkProofs.LogStar.{
  log_star_challenge, base_of, new_log_star_proof, log_star_verify,
}
use mpc_lib.Crypto.ZkProofs.LogStarCompleteness
use mpc_lib.Crypto.ZkProofs.LogStarCompleteness.{new_log_star_proof-log_star_verify}
use mpc_lib.Crypto.ZkProofs.Equations.{digest_or_panic}
use mpc_lib.Crypto.ZkProofs.AffG.{
  AffGProof, AffGRandomness, aff_g_challenge, new_aff_g_proof, aff_g_verify,
}
use mpc_lib.Crypto.ZkProofs.AffGCompleteness
use mpc_lib.Crypto.ZkProofs.AffGCompleteness.{new_aff_g_proof-aff_g_verify}
use mpc_lib.Crypto.Accmta.Proofs.{prove_for_each, dec_proof_verify, dec_proofs}
use mpc_lib.Crypto.Accmta.Alice.{
  enc_statement, g_statement, alice_init, alice_verify_dl, alice_end_dl,
}
use mpc_lib.Crypto.Accmta.Bob.{BobDraws, bob_verify, bob_responds_dl}
use mpc_lib.Crypto.Accmta.Shares.{acc_mta_lem}
use mpc_lib.Tests.Toy.{curve, group}
use mpc_lib.Tests.Paillier.{key15, private15, is_key15}
use mpc_lib.Tests.Proofs.{ones, ring}

new_log_star_proof-log_star_verify_example :
    (new_log_star_proof ones 3
        (LogStarCompleteness.wit ones 3 curve group ring 2 15 1 2 7 1 3 2 4)
        (LogStarCompleteness.stmt ones 3 curve group ring 2 15 1 2 7 1 3 2 4)
        ring
        (LogStarCompleteness.rand ones 3 curve group ring 2 15 1 2 7 1 3 2 4)
      ≡ ok (LogStarCompleteness.honest_proof ones 3 curve group ring 2 15 1 2 7 1 3 2 4 1))
    × (log_star_verify ones 3
          (LogStarCompleteness.honest_proof ones 3 curve group ring 2 15 1 2 7 1 3 2 4 1)
          (LogStarCompleteness.stmt ones 3 curve group ring 2 15 1 2 7 1 3 2 4)
          ring
        ≡ ok true)
unfolding emod is_zero log_star_challenge base_of digest_or_panic sha512_256i sha512_256 set_bytes
new_log_star_proof-log_star_verify_example =
    new_log_star_proof-log_star_verify ones 3 curve group ring 2 15 1 2 7 1 3 2 4 1 refl refl refl
      refl (omega arith) (omega arith) refl

new_aff_g_proof-aff_g_verify_example :
    (new_aff_g_proof ones
        (AffGCompleteness.wit ones curve group ring 2 2 15 21 4 2 3 1 2 1 3 2 5 1 2 3 4)
        (AffGCompleteness.stmt ones curve group ring 2 2 15 21 4 2 3 1 2 1 3 2 5 1 2 3 4)
        ring
        (AffGCompleteness.rand ones curve group ring 2 2 15 21 4 2 3 1 2 1 3 2 5 1 2 3 4)
      ≡ ok (
          AffGCompleteness.honest_proof ones curve group ring 2 2 15 21 4 2 3 1 2 1 3 2 5 1 2 3 4
            1))
    × (aff_g_verify ones
          (AffGCompleteness.honest_proof ones curve group ring 2 2 15 21 4 2 3 1 2 1 3 2 5 1 2 3 4
            1)
          (AffGCompleteness.stmt ones curve group ring 2 2 15 21 4 2 3 1 2 1 3 2 5 1 2 3 4)
          ring
        ≡ ok true)
unfolding emod is_zero aff_g_challenge rejection_sample sha512_256i sha512_256 set_bytes
new_aff_g_proof-aff_g_verify_example =
    new_aff_g_proof-aff_g_verify ones curve group ring 2 2 15 21 4 2 3 1 2 1 3 2 5 1 2 3 4 1
      (omega arith) (omega arith) refl refl refl refl (omega arith) (omega arith) refl refl

acc_mta_lem_example :
    (c_a : ℤ) × (c_alpha : ℤ) × (alpha : ℤ) × (beta : ℤ) × ((drawn : ℕ → EncRandomness)
        (rp_v : List (Option RingPedersenParams))
      → alice_init ones curve 2 key15 (pos 2) (pos 2) drawn rp_v ≡ (do
        proofs ←
            prove_for_each
              (λ i rp.
                new_enc_proof ones
                  (record { k = pos 2; rho = pos 2 })
                  (enc_statement curve 2 key15 c_a)
                  rp
                  (drawn i))
              0
              rp_v
        ok (c_a, proofs)))
    × ((sk_b : PrivateKey) (proof : Option EncProof) (rp_v : List (Option RingPedersenParams))
          (rp_b : RingPedersenParams) (drawn : BobDraws) (rand : ℕ → AffGRandomness)
        → drawn.beta_prm ≡ pos 4
        → bob_responds_dl ones curve 2 key15 sk_b proof
            (pos 3)
            c_a
            rp_v
            rp_b
            (at curve group 3)
            drawn
            rand
          ≡ (do
            accepted ← bob_verify ones curve 2 key15 proof c_a rp_b
            guard accepted "RangeProofAlice.Verify() returned false"
            (c_beta_prm, rhoy) ←
                encrypt_and_return_randomness sk_b.public_key drawn.beta_prm drawn.rhoy
            (c_beta, _) ← encrypt_and_return_randomness sk_b.public_key beta drawn.r_beta
            decs ← dec_proofs ones curve 2 sk_b c_beta c_beta_prm drawn.dec rp_v
            proofs ←
                prove_for_each
                  (λ i rp.
                    new_aff_g_proof ones
                      (record { x = pos 3; y = drawn.beta_prm; rho = pos 1; rhoy = rhoy })
                      (g_statement 2 key15 sk_b.public_key c_a c_alpha
                        (at curve group 3)
                        c_beta_prm)
                      rp
                      (rand i))
                  0
                  rp_v
            ok (record {
              beta = beta;
              c_alpha = c_alpha;
              c_beta = c_beta;
              c_beta_prm = c_beta_prm;
              proofs = proofs;
              dec_proofs = decs;
            })))
    × ((pk_b : PublicKey) (proof : Option AffGProof) (decproof : Option DecProof)
          (c_beta c_beta_prm : ℤ) (rp_a : Option RingPedersenParams)
        → alice_end_dl ones curve 2 private15 pk_b proof decproof c_a c_alpha c_beta c_beta_prm
            (at curve group 3)
            rp_a
          ≡ (do
            accepted ←
                alice_verify_dl ones curve 2 key15 pk_b proof c_a c_alpha c_beta_prm
                  (at curve group 3)
                  rp_a
            guard accepted "AffGProof.Verify() returned false"
            answered ← dec_proof_verify ones curve 2 pk_b decproof c_beta c_beta_prm rp_a
            guard answered "DecProof.Verify() returned false"
            ok alpha))
    × (emod (alpha +ℤ beta) 5 ≡ 3 * 2 % 5)
unfolding emod
acc_mta_lem_example =
    acc_mta_lem ones curve 2 private15 is_key15 2 3 4 (pos 2) (at curve group 3) (omega arith)
      (omega arith) (omega arith) (omega arith) (omega arith) refl
