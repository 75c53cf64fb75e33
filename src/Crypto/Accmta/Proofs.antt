-- ===== src/Crypto/Accmta/Proofs.antt =====
-- crypto/accmta/share_protocol.go: one proof for each verifier, and the proofs of a residue 0. The
-- goroutines each write a place of their own and are read in order; of several errors the first counts.
use mpc_lib.Prelude.{ℕ, ◌+◌, ℤ, pos, Bool, true, false, Option, none, some, List, [], ◌∷◌}
use mpc_lib.Prelude.Result.{Result, ok, err, panic, ◌>>=◌}
use mpc_lib.Crypto.Curve.{Curve}
use mpc_lib.Crypto.Paillier.{PublicKey, PrivateKey, homo_add, decrypt_full}
use mpc_lib.Crypto.ZkProofs.{RingPedersenParams}
use mpc_lib.Crypto.ZkProofs.Dec.{DecProof, DecStatement, DecRandomness, new_dec_proof, dec_verify}

-- A verifier without parameters gets no proof. The numbers that are drawn depend on the place.
unfoldable pub prove_for_each :
    {P : Type 0}
    → (ℕ → RingPedersenParams → Result P)
    → ℕ
    → List (Option RingPedersenParams)
    → Result (List (Option P))
prove_for_each prove i [] = ok []
prove_for_each prove i (none ∷ rps) = do
  proofs ← prove_for_each prove (i + 1) rps
  ok (none ∷ proofs)
prove_for_each prove i (some rp ∷ rps) = do
  proof ← prove i rp
  proofs ← prove_for_each prove (i + 1) rps
  ok (some proof ∷ proofs)

-- A proof that is nil is refused.
unfoldable pub verify_given : {P : Type 0} → (P → Result Bool) → Option P → Result Bool
verify_given verify none = ok false
verify_given verify (some proof) = verify proof

-- Without parameters everything is accepted.
unfoldable pub verify_with :
    {P : Type 0}
    → (P → RingPedersenParams → Result Bool)
    → Option P
    → Option RingPedersenParams
    → Result Bool
unfolding verify_given
verify_with verify proof none = ok true
verify_with verify proof (some rp) = verify_given (λ p. verify p rp) proof

-- The statement that a ciphertext holds a multiple of the order.
abbrev pub zero_statement : Curve → ℕ → ℕ → ℤ → DecStatement
zero_statement ec bit_size n0 c_q = record { q = ec.n; ell = bit_size; n0 = n0; c = c_q; x = pos 0 }

module _ (sum : List ℕ → List ℕ) (ec : Curve) (bit_size : ℕ) where
  unfoldable pub dec_proofs :
      PrivateKey
      → ℤ
      → ℤ
      → (ℕ → DecRandomness)
      → List (Option RingPedersenParams)
      → Result (List (Option DecProof))
  unfolding prove_for_each
  dec_proofs sk c_beta c_beta_prm drawn rp_v = do
    c_q ← homo_add sk.public_key c_beta c_beta_prm
    (d_q, rho) ← decrypt_full sk c_q
    prove_for_each
        (λ i rp.
          new_dec_proof sum (record { y = d_q; rho = rho })
            (zero_statement ec bit_size sk.public_key.n c_q) rp (drawn i))
        0 rp_v

  -- A sum that is not made is a refusal.
  unfoldable pub verify_sum : PublicKey → DecProof → RingPedersenParams → Result ℤ → Result Bool
  verify_sum pk proof rp (ok c_q) = dec_verify sum proof (zero_statement ec bit_size pk.n c_q) rp
  verify_sum pk proof rp (err text) = ok false
  verify_sum pk proof rp panic = panic

  -- The sum is made before a nil proof is refused, so its failure does not matter then.
  unfoldable pub dec_proof_verify :
      PublicKey → Option DecProof → ℤ → ℤ → Option RingPedersenParams → Result Bool
  unfolding verify_sum verify_with
  dec_proof_verify pk proof c_beta c_beta_prm rp =
      verify_with (λ p rp. verify_sum pk p rp (homo_add pk c_beta c_beta_prm)) proof rp
