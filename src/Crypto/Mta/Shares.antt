-- ===== src/Crypto/Mta/Shares.antt =====
-- The two parties of the protocol end with shares of the product of their secrets.
use mpc_lib.Prelude.{
  ℕ, ◌+◌, ◌-◌, ◌*◌, ◌%◌, ◌/◌, ◌^◌, ◌<◌, ◌≡◌, refl, ap, ◌∙◌, arith, ℤ, pos, ◌+ℤ◌, ◌-ℤ◌, ◌*ℤ◌, emod,
  emod-+ℤ, emod--ℤ, emod-lt, List, if◌then◌else◌,
}
use mpc_lib.Prelude.Result.{ok, err, ◌>>=◌}
use native.Mathlib.Nat.{
  mod-eq_of_lt, mod-lt, mod-mod, mod-add-mod, add-mod-mod, zero-mod, div-add-mod,
  add-mul-mod_self_left,
}
use mpc_lib.Common.ModInt.{sub}
use mpc_lib.Crypto.Curve.{Curve}
use mpc_lib.Crypto.Paillier.{PrivateKey, encrypt_and_return_randomness, decrypt}
use mpc_lib.Crypto.Paillier.Ciphertext.{residue, encrypt_residue}
use mpc_lib.Crypto.Paillier.Homomorphic.{homo_add_residue, homo_mult_residue}
use mpc_lib.Crypto.Paillier.Decryption.{IsKey, IsUndone, decrypt_residue}
use mpc_lib.Crypto.Paillier.Circuits.{IsUndone-*ℤ, IsUndone-pow}
use mpc_lib.Crypto.ZkProofs.{RingPedersenParams}
use mpc_lib.Crypto.Mta.RangeProof.{
  RangeProofAlice, AliceRandomness, prove_range_alice, range_verify,
}
use mpc_lib.Crypto.Mta.ProofBob.{ProofBob, BobRandomness, prove_bob, bob_verify}
use mpc_lib.Crypto.Mta.ShareProtocol.{
  alice_init, bob_ciphertext, bob_with, bob_mid, alice_decrypts, alice_end,
}

-- A residue of a sum, and the negated residue of one of the terms.
pub shares_add : (q x y : ℕ) → 0 < q → emod (pos ((x + y) % q) +ℤ sub q (pos 0) (pos y)) q ≡ x % q
unfolding sub emod
shares_add q x y h =
    emod-+ℤ (pos ((x + y) % q)) (pos (emod (pos 0 -ℤ pos y) q)) q h
    ∙ ap (λ (t : ℕ). ((x + y) % q % q + t) % q) (mod-eq_of_lt (emod-lt (pos 0 -ℤ pos y) q h))
    ∙ rw (emod--ℤ (pos 0) (pos y) q h, mod-mod (x + y) q)
        (mod-add-mod (x + y) q ((0 % q + (q - y % q)) % q)
          ∙ add-mod-mod (x + y) (0 % q + (q - y % q)) q
          ∙ ap (λ (t : ℕ). t % q) regroup
          ∙ add-mul-mod_self_left x q (y / q + 1))
  where
    regroup : x + y + (0 % q + (q - y % q)) ≡ x + q * (y / q + 1)
    regroup = omega (arith, zero-mod q, div-add-mod y q, mod-lt y h)

module _ (sum : List ℕ → List ℕ) (session : List ℕ) (ec : Curve) (key : PrivateKey)
    (is_key : IsKey key) (rp_a rp_b : RingPedersenParams) where
  abbrev n : ℕ
  n = key.public_key.n

  n_pos : 0 < n
  n_pos = omega (arith, is_key.large)

  -- Bob's ciphertext holds the product of the secrets plus the number that he drew.
  bob_ciphertext_lem :
      (a b beta_prm : ℕ) (r_a drawn : ℤ)
      → a < n
      → b < n
      → b * a + beta_prm < n
      → IsUndone key r_a
      → IsUndone key drawn
      → (c_b : ℤ) × (bob_ciphertext sum session ec key.public_key rp_a rp_b
            (pos b)
            (pos (residue n a r_a))
            (pos beta_prm)
            drawn
          ≡ ok (c_b, drawn))
        × (decrypt key c_b ≡ ok (pos (b * a + beta_prm)))
  unfolding bob_ciphertext encrypt_and_return_randomness
  bob_ciphertext_lem a b beta_prm r_a drawn la lb small ua ub =
      let x = pos (emod r_a (n * n) ^ b) in
      let m = (b * a % n + beta_prm) % n in
      let value : m ≡ b * a + beta_prm = mod-add-mod (b * a) n beta_prm ∙ mod-eq_of_lt small in
      let beta_small : beta_prm < n = omega arith in
      let undone = IsUndone-*ℤ key is_key x drawn (IsUndone-pow key is_key r_a b ua) ub in
      (
        pos (residue n m (x *ℤ drawn)),
        rw
            (
              encrypt_residue n n_pos beta_prm drawn beta_small,
              homo_mult_residue n n_pos b a r_a lb,
              homo_add_residue n n_pos (b * a % n) beta_prm x drawn,
            )
            refl,
        decrypt_residue key is_key m (x *ℤ drawn) (mod-lt _ n_pos) undone
            ∙ ap (λ (t : ℕ). ok (pos t)) value,
      )

  -- The whole protocol without the check of a point, for secrets a and b below N with a b plus the
  -- number that Bob draws below N, and random numbers that Alice's key undoes. Alice encrypts and
  -- proves; Bob, if he accepts her proof, answers with a ciphertext and a proof; Alice, if she accepts
  -- his, ends with a share. Her share and Bob's add up to a b modulo the order of the curve.
  pub mta_lem :
      (a b beta_prm : ℕ) (r_a drawn : ℤ) (rand_a : AliceRandomness) (rand_b : BobRandomness)
      → 0 < ec.n
      → a < n
      → b < n
      → b * a + beta_prm < n
      → IsUndone key r_a
      → IsUndone key drawn
      → (c_a : ℤ) × (c_b : ℤ) × (alpha : ℤ) × (alice_init sum session ec key.public_key rp_a rp_b
            (pos a)
            r_a
            rand_a
          ≡ (do
            pf ← prove_range_alice sum ec.n key.public_key rp_b c_a (pos a) r_a rand_a
            ok (c_a, pf)))
        × ((pf : RangeProofAlice)
            → bob_mid sum session ec key.public_key rp_a rp_b pf
                (pos b)
                c_a
                (pos beta_prm)
                drawn
                rand_b
              ≡ (do
                accepted ← range_verify sum ec.n key.public_key rp_b pf c_a
                if accepted
                    then (do
                      pi_b ←
                          prove_bob sum session ec key.public_key rp_a c_a c_b
                            (pos b)
                            (pos beta_prm)
                            drawn
                            rand_b
                      ok (record {
                        beta = sub ec.n (pos 0) (pos beta_prm);
                        c_b = c_b;
                        beta_prm = pos beta_prm;
                        pi_b = pi_b;
                      }))
                    else err "RangeProofAlice.Verify() returned false"))
        × ((pf : ProofBob)
            → alice_end sum session ec key.public_key rp_a rp_b pf c_a c_b key ≡ (do
              accepted ← bob_verify sum session ec key.public_key rp_a pf c_a c_b
              if accepted then ok alpha else err "ProofBob.Verify() returned false"))
        × (emod (alpha +ℤ sub ec.n (pos 0) (pos beta_prm)) ec.n ≡ b * a % ec.n)
  unfolding alice_init bob_mid bob_with alice_end alice_decrypts encrypt_and_return_randomness
  mta_lem a b beta_prm r_a drawn rand_a rand_b h la lb small ua ub =
      let (c_b, made, opened) = bob_ciphertext_lem a b beta_prm r_a drawn la lb small ua ub in
      let alpha = pos (emod (pos (b * a + beta_prm)) ec.n) in
      let decrypted : alice_decrypts sum session ec key.public_key rp_a rp_b key c_b ≡ ok alpha =
        rw opened refl in
      (
        pos (residue n a r_a),
        c_b,
        alpha,
        rw (encrypt_residue n n_pos a r_a la) refl,
        λ pf. rw made refl,
        λ pf. rw decrypted refl,
        unfold emod in shares_add ec.n (b * a) beta_prm h,
      )
