-- ===== src/Crypto/Accmta/Shares.antt =====
-- crypto/accmta/share_protocol.go: the run of the protocol with Bob's secret in a point.
use mpc_lib.Prelude.{
  ℕ, ◌+◌, ◌*◌, ◌%◌, ◌^◌, ◌<◌, ◌≡◌, refl, sym, ap, ◌∙◌, arith, ℤ, pos, ◌+ℤ◌, emod, Option, List,
}
use mpc_lib.Prelude.Result.{ok, ◌>>=◌, ◌>>◌, guard}
use native.Mathlib.Nat.{mod-eq_of_lt, mod-add-mod}
use mpc_lib.Common.ModInt.{sub}
use mpc_lib.Crypto.Curve.{Curve}
use mpc_lib.Crypto.Point.{EcPoint}
use mpc_lib.Crypto.Paillier.{
  PublicKey, PrivateKey, encrypt_and_return_randomness, homo_mult, homo_add_int, decrypt,
}
use mpc_lib.Crypto.Paillier.Ciphertext.{residue, encrypt_residue}
use mpc_lib.Crypto.Paillier.Decryption.{IsKey, IsUndone, decrypt_residue}
use mpc_lib.Crypto.Paillier.Circuits.{input, multiple, shifted, ciphertext_of-Encrypts}
use mpc_lib.Crypto.ZkProofs.{RingPedersenParams, in_range, new_ell}
use mpc_lib.Crypto.ZkProofs.Enc.{EncProof, EncRandomness, new_enc_proof}
use mpc_lib.Crypto.ZkProofs.Dec.{DecProof}
use mpc_lib.Crypto.ZkProofs.AffG.{AffGProof, AffGRandomness, new_aff_g_proof}
use mpc_lib.Crypto.ZkProofs.Answers.{within}
use mpc_lib.Crypto.Mta.Shares.{shares_add}
use mpc_lib.Crypto.Accmta.Proofs.{prove_for_each, dec_proof_verify, dec_proofs}
use mpc_lib.Crypto.Accmta.Alice.{
  enc_statement, g_statement, alice_init, alice_decrypts, alice_verify_dl, end_after, alice_end_dl,
}
use mpc_lib.Crypto.Accmta.Bob.{BobDraws, bob_verify, affine_answer, finish_answer, bob_responds_dl}

module _ (sum : List ℕ → List ℕ) (ec : Curve) (bit_size : ℕ) (key : PrivateKey)
    (is_key : IsKey key) where
  abbrev n : ℕ
  n = key.public_key.n

  n_pos : 0 < n
  n_pos = omega (arith, is_key.large)

  -- Bob's ciphertext, and what Alice finds in it.
  affine_answer_lem :
      (a b beta_prm : ℕ) (r_a : ℤ)
      → a < n
      → b < n
      → b * a + beta_prm < n
      → IsUndone key r_a
      → (c_alpha : ℤ) × (affine_answer sum ec bit_size key.public_key
            (pos b)
            (pos (residue n a r_a))
            (pos beta_prm)
          ≡ ok c_alpha)
        × (decrypt key c_alpha ≡ ok (pos (b * a + beta_prm)))
  unfolding affine_answer
  affine_answer_lem a b beta_prm r_a la lb small undone =
      let beta_small : beta_prm < n = omega arith in
      let s = shifted beta_prm (multiple b (input a r_a)) in
      let made = ciphertext_of-Encrypts key is_key s (beta_small, (lb, (la, undone))) in
      let value : (b * a % n + beta_prm) % n ≡ b * a + beta_prm =
        mod-add-mod (b * a) n beta_prm ∙ mod-eq_of_lt small in
      (
        pos (residue n ((b * a % n + beta_prm) % n) made.random),
        ap
              (λ z. do
                c ← (do c0 ← z; homo_mult key.public_key (pos b) c0)
                homo_add_int key.public_key (pos beta_prm) c)
              (sym (encrypt_residue n n_pos a r_a la))
            ∙ made.same,
        decrypt_residue key is_key ((b * a % n + beta_prm) % n) made.random made.small made.undone
            ∙ ap (λ (t : ℕ). ok (pos t)) value,
      )

  -- The whole protocol with Bob's secret in a point, for secrets a and b below N, a also in range, with
  -- a b plus the number that Bob draws below N, and a random number that Alice's key undoes. Alice
  -- encrypts and proves; Bob, if he accepts her proof, answers with a ciphertext of his own and with
  -- proofs, and where his proofs are made the answer holds a share and the ciphertext of that share under
  -- his own key; Alice, if she accepts both of his proofs, ends with a share. Her share and the one in
  -- Bob's answer add up to a b modulo the order of the curve.
  pub acc_mta_lem :
      (a b beta_prm : ℕ) (r_a : ℤ) (big_b : EcPoint)
      → 0 < ec.n
      → a < n
      → a < 2 ^ (bit_size + bit_size * 2)
      → b < n
      → b * a + beta_prm < n
      → IsUndone key r_a
      → (c_a : ℤ) × (c_alpha : ℤ) × (alpha : ℤ) × (beta : ℤ) × ((drawn : ℕ → EncRandomness)
            (rp_v : List (Option RingPedersenParams))
          → alice_init sum ec bit_size key.public_key (pos a) r_a drawn rp_v ≡ (do
            proofs ←
                prove_for_each
                  (λ i rp.
                    new_enc_proof sum
                      (record { k = pos a; rho = r_a })
                      (enc_statement ec bit_size key.public_key c_a)
                      rp
                      (drawn i))
                  0
                  rp_v
            ok (c_a, proofs)))
        × ((sk_b : PrivateKey) (proof : Option EncProof) (rp_v : List (Option RingPedersenParams))
              (rp_b : RingPedersenParams) (drawn : BobDraws) (rand : ℕ → AffGRandomness)
            → drawn.beta_prm ≡ pos beta_prm
            → bob_responds_dl sum ec bit_size key.public_key sk_b proof
                (pos b)
                c_a
                rp_v
                rp_b
                big_b
                drawn
                rand
              ≡ (do
                accepted ← bob_verify sum ec bit_size key.public_key proof c_a rp_b
                guard accepted "RangeProofAlice.Verify() returned false"
                (c_beta_prm, rhoy) ←
                    encrypt_and_return_randomness sk_b.public_key drawn.beta_prm drawn.rhoy
                (c_beta, _) ← encrypt_and_return_randomness sk_b.public_key beta drawn.r_beta
                decs ← dec_proofs sum ec bit_size sk_b c_beta c_beta_prm drawn.dec rp_v
                proofs ←
                    prove_for_each
                      (λ i rp.
                        new_aff_g_proof sum
                          (record { x = pos b; y = drawn.beta_prm; rho = pos 1; rhoy = rhoy })
                          (g_statement bit_size key.public_key sk_b.public_key c_a c_alpha big_b
                            c_beta_prm)
                          rp
                          (rand i))
                      0
                      rp_v
                ok (record {
                  beta = beta;
                  c_alpha = c_alpha;
                  c_beta = c_beta;
                  c_beta_prm = c_beta_prm;
                  proofs = proofs;
                  dec_proofs = decs;
                })))
        × ((pk_b : PublicKey) (proof : Option AffGProof) (decproof : Option DecProof)
              (c_beta c_beta_prm : ℤ) (rp_a : Option RingPedersenParams)
            → alice_end_dl sum ec bit_size key pk_b proof decproof c_a c_alpha c_beta c_beta_prm
                big_b rp_a
              ≡ (do
                accepted ←
                    alice_verify_dl sum ec bit_size key.public_key pk_b proof c_a c_alpha c_beta_prm
                      big_b rp_a
                guard accepted "AffGProof.Verify() returned false"
                answered ← dec_proof_verify sum ec bit_size pk_b decproof c_beta c_beta_prm rp_a
                guard answered "DecProof.Verify() returned false"
                ok alpha))
        × (emod (alpha +ℤ beta) ec.n ≡ b * a % ec.n)
  unfolding alice_init bob_responds_dl finish_answer alice_end_dl end_after alice_decrypts in_range
      new_ell emod
  acc_mta_lem a b beta_prm r_a big_b h la ranged lb small undone =
      let (c_alpha, made, opened) = affine_answer_lem a b beta_prm r_a la lb small undone in
      (
        pos (residue n a r_a),
        c_alpha,
        pos (emod (pos (b * a + beta_prm)) ec.n),
        sub ec.n (pos 0) (pos beta_prm),
        λ drawn rp_v.
            rw (within (2 ^ (bit_size + bit_size * 2)) a ranged, encrypt_residue n n_pos a r_a la)
              refl,
        λ sk_b proof rp_v rp_b drawn rand same. rw (same, made) refl,
        λ pk_b proof decproof c_beta c_beta_prm rp_a. rw opened refl,
        unfold emod in shares_add ec.n (b * a) beta_prm h,
      )
