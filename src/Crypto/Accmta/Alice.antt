-- ===== src/Crypto/Accmta/Alice.antt =====
-- crypto/accmta/share_protocol.go: what Alice does. The bit length of the curve is not among its
-- parameters here.
use Prim.Native.String.{String}
use mpc_lib.Prelude.{ℕ, ℤ, pos, emod, Bool, Option, List}
use mpc_lib.Prelude.Result.{Result, ok, ◌>>=◌, ◌>>◌, guard}
use mpc_lib.Crypto.Curve.{Curve}
use mpc_lib.Crypto.Point.{EcPoint}
use mpc_lib.Crypto.Paillier.{PublicKey, PrivateKey, encrypt_with_randomness, decrypt}
use mpc_lib.Crypto.ZkProofs.{RingPedersenParams, new_ell, in_range}
use mpc_lib.Crypto.ZkProofs.Enc.{EncProof, EncStatement, EncRandomness, new_enc_proof}
use mpc_lib.Crypto.ZkProofs.Dec.{DecProof}
use mpc_lib.Crypto.ZkProofs.AffG.{AffGProof, AffGStatement, aff_g_verify}
use mpc_lib.Crypto.ZkProofs.AffP.{AffPProof, AffPStatement, aff_p_verify}
use mpc_lib.Crypto.ZkProofs.AffGInv.{aff_g_inv_verify}
use mpc_lib.Crypto.Accmta.Proofs.{prove_for_each, verify_with, dec_proof_verify}

-- The statement of the encryption proof.
abbrev pub enc_statement : Curve → ℕ → PublicKey → ℤ → EncStatement
enc_statement ec bit_size pk_a c_a = record { q = ec.n; bit_size = bit_size; n0 = pk_a.n; k = c_a }

-- The statements about Bob's answer, with his secret in a point or in a ciphertext.
abbrev pub g_statement : ℕ → PublicKey → PublicKey → ℤ → ℤ → EcPoint → ℤ → AffGStatement
g_statement bit_size pk_a pk_b c_a c_alpha big_b c_beta_prm = record {
  ell = bit_size;
  ell_prime = bit_size;
  n0 = pk_a.n;
  n1 = pk_b.n;
  c = c_a;
  d = c_alpha;
  x = big_b;
  y = c_beta_prm;
}

abbrev pub p_statement : Curve → ℕ → PublicKey → PublicKey → ℤ → ℤ → ℤ → ℤ → AffPStatement
p_statement ec bit_size pk_a pk_b c_a c_alpha c_b c_beta_prm = record {
  c = c_a;
  d = c_alpha;
  x = c_b;
  y = c_beta_prm;
  n0 = pk_a.n;
  n1 = pk_b.n;
  ell = bit_size;
  ell_prime = bit_size;
  q = ec.n;
}

module _ (sum : List ℕ → List ℕ) (ec : Curve) (bit_size : ℕ) where
  unfoldable pub alice_init :
      PublicKey
      → ℤ
      → ℤ
      → (ℕ → EncRandomness)
      → List (Option RingPedersenParams)
      → Result (ℤ × List (Option EncProof))
  unfolding in_range prove_for_each
  alice_init pk_a a r_a drawn rp_v = do
    guard (in_range (new_ell bit_size) a) "a out of range"
    c_a ← encrypt_with_randomness pk_a a r_a
    proofs ←
        prove_for_each
          (λ i rp.
            new_enc_proof sum (record { k = a; rho = r_a }) (enc_statement ec bit_size pk_a c_a) rp
              (drawn i))
          0 rp_v
    ok (c_a, proofs)

  -- The end of all three functions, once the proofs are accepted.
  unfoldable pub alice_decrypts : PrivateKey → ℤ → Result ℤ
  alice_decrypts sk_a c_alpha = do alpha_prm ← decrypt sk_a c_alpha; ok (pos (emod alpha_prm ec.n))

  unfoldable pub alice_verify_p :
      PublicKey
      → PublicKey
      → Option AffPProof
      → (c_a c_alpha c_beta_prm c_b : ℤ) → Option RingPedersenParams
      → Result Bool
  unfolding verify_with
  alice_verify_p pk_a pk_b proof c_a c_alpha c_beta_prm c_b rp_v =
      verify_with
        (λ p rp.
          aff_p_verify sum p (p_statement ec bit_size pk_a pk_b c_a c_alpha c_b c_beta_prm) rp)
        proof rp_v

  unfoldable pub alice_verify_dl :
      PublicKey
      → PublicKey
      → Option AffGProof
      → (c_a c_alpha c_beta_prm : ℤ) → EcPoint
      → Option RingPedersenParams
      → Result Bool
  unfolding verify_with
  alice_verify_dl pk_a pk_b proof c_a c_alpha c_beta_prm big_b rp_v =
      verify_with
        (λ p rp.
          aff_g_verify sum p (g_statement bit_size pk_a pk_b c_a c_alpha big_b c_beta_prm) rp)
        proof rp_v

  unfoldable pub alice_verify_g :
      PublicKey
      → PublicKey
      → Option AffGProof
      → (c_a c_alpha c_beta : ℤ) → EcPoint
      → Option RingPedersenParams
      → Result Bool
  unfolding verify_with
  alice_verify_g pk_a pk_b proof c_a c_alpha c_beta big_b rp_v =
      verify_with
        (λ p rp.
          aff_g_inv_verify sum p (g_statement bit_size pk_a pk_b c_a c_alpha big_b c_beta) rp)
        proof rp_v

  -- Two tests, each with the text of its error, and then the decryption.
  unfoldable pub end_after : Result Bool → String → Result Bool → PrivateKey → ℤ → Result ℤ
  unfolding alice_decrypts
  end_after first text second sk_a c_alpha = do
    accepted ← first
    guard accepted text
    answered ← second
    guard answered "DecProof.Verify() returned false"
    alice_decrypts sk_a c_alpha

  unfoldable pub alice_end_p :
      PrivateKey
      → PublicKey
      → Option AffPProof
      → Option DecProof
      → (c_a c_alpha c_beta c_beta_prm c_b : ℤ) → Option RingPedersenParams
      → Result ℤ
  unfolding alice_verify_p dec_proof_verify end_after
  alice_end_p sk_a pk_b proof decproof c_a c_alpha c_beta c_beta_prm c_b rp_a =
      end_after (alice_verify_p sk_a.public_key pk_b proof c_a c_alpha c_beta_prm c_b rp_a)
        "AffPProof.Verify() returned false"
        (dec_proof_verify sum ec bit_size pk_b decproof c_beta c_beta_prm rp_a) sk_a c_alpha

  unfoldable pub alice_end_dl :
      PrivateKey
      → PublicKey
      → Option AffGProof
      → Option DecProof
      → (c_a c_alpha c_beta c_beta_prm : ℤ) → EcPoint
      → Option RingPedersenParams
      → Result ℤ
  unfolding alice_verify_dl dec_proof_verify end_after
  alice_end_dl sk_a pk_b proof decproof c_a c_alpha c_beta c_beta_prm big_b rp_a =
      end_after (alice_verify_dl sk_a.public_key pk_b proof c_a c_alpha c_beta_prm big_b rp_a)
        "AffGProof.Verify() returned false"
        (dec_proof_verify sum ec bit_size pk_b decproof c_beta c_beta_prm rp_a) sk_a c_alpha

  unfoldable pub alice_end_g :
      PrivateKey
      → PublicKey
      → Option AffGProof
      → (c_a c_alpha c_beta : ℤ) → EcPoint
      → Option RingPedersenParams
      → Result ℤ
  unfolding alice_verify_g alice_decrypts
  alice_end_g sk_a pk_b proof c_a c_alpha c_beta big_b rp_a = do
    accepted ← alice_verify_g sk_a.public_key pk_b proof c_a c_alpha c_beta big_b rp_a
    guard accepted "AffGInvProof.Verify() returned false"
    alice_decrypts sk_a c_alpha
