-- ===== src/Crypto/ZkProofs/AffGInv.antt =====
-- crypto/zkproofs/aff_g_inv_proof.go: the affine proof with the second number taken from the order. A
-- witness, a statement and a proof are those of the affine proof.
use mpc_lib.Prelude.{ℕ, ◌*◌, ℤ, pos, ◌-ℤ◌, Bool, false, List}
use mpc_lib.Prelude.Result.{Result, ok, err, panic, ◌>>=◌}
use mpc_lib.Common.ModInt.{mul}
use mpc_lib.Crypto.Curve.{Curve}
use mpc_lib.Crypto.Point.{scalar_base_mult}
use mpc_lib.Crypto.Paillier.{
  PublicKey, PrivateKey, or_panic, encrypt_and_return_randomness,
  encrypt_with_randomness_no_err_chk, homo_mult_inv, decrypt_full, n_square,
}
use mpc_lib.Crypto.ZkProofs.{RingPedersenParams, a_times_b_to_the_c_mod_n}
use mpc_lib.Crypto.ZkProofs.AffG.{
  AffGProof, AffGStatement, AffGWitness, AffGRandomness, new_aff_g_proof, aff_g_verify,
}

-- Y^-1 (N + 1)^(q - N). Without an inverse of Y nil is multiplied.
unfoldable pub make_y : ℤ → ℕ → ℕ → Result ℤ
unfolding n_square
make_y y q n = do
  inverse ← homo_mult_inv (record { n = n }) y
  yp ← or_panic inverse
  cipher ← encrypt_with_randomness_no_err_chk (record { n = n }) (pos q -ℤ pos n) (pos 1)
  ok (mul (n * n) yp cipher)

-- `drawn1` and `drawn0` are the random numbers of both ciphertexts.
unfoldable pub new_aff_g_inv_witness :
    Curve → ℕ → PrivateKey → PublicKey → ℤ → ℤ → ℤ → ℤ → ℤ → Result (AffGWitness × AffGStatement)
unfolding make_y n_square
new_aff_g_inv_witness ec bit_size sk1 pk0 x y c drawn1 drawn0 = do
  (big_y, _) ← encrypt_and_return_randomness sk1.public_key y drawn1
  yp ← make_y big_y ec.n sk1.public_key.n
  (_, rhoy) ← decrypt_full sk1 yp
  (d_prime, rho) ← encrypt_and_return_randomness pk0 (pos ec.n -ℤ y) drawn0
  d ← a_times_b_to_the_c_mod_n d_prime c x (n_square pk0)
  big_x ← scalar_base_mult ec x
  ok (
    record { x = x; y = y; rho = rho; rhoy = rhoy },
    record {
      ell = bit_size;
      ell_prime = bit_size;
      n0 = pk0.n;
      n1 = sk1.public_key.n;
      c = c;
      d = d;
      x = big_x;
      y = big_y;
    },
  )

unfoldable pub to_aff_g_statement : AffGStatement → Result AffGStatement
unfolding make_y
to_aff_g_statement stmt = do yp ← make_y stmt.y stmt.x.curve.n stmt.n1; ok (record stmt { y = yp })

unfoldable pub to_aff_g_witness : AffGWitness → AffGStatement → AffGWitness
to_aff_g_witness wit stmt = record wit { y = pos stmt.x.curve.n -ℤ wit.y }

module _ (sum : List ℕ → List ℕ) where
  unfoldable pub new_aff_g_inv_proof :
      AffGWitness → AffGStatement → RingPedersenParams → AffGRandomness → Result AffGProof
  unfolding to_aff_g_statement to_aff_g_witness
  new_aff_g_inv_proof wit stmt rp rand = do
    gstmt ← to_aff_g_statement stmt
    new_aff_g_proof sum (to_aff_g_witness wit stmt) gstmt rp rand

  -- A statement that is not made is a refusal.
  unfoldable pub verify_made : AffGProof → RingPedersenParams → Result AffGStatement → Result Bool
  verify_made proof rp (ok gstmt) = aff_g_verify sum proof gstmt rp
  verify_made proof rp (err text) = ok false
  verify_made proof rp panic = panic

  unfoldable pub aff_g_inv_verify : AffGProof → AffGStatement → RingPedersenParams → Result Bool
  unfolding to_aff_g_statement verify_made
  aff_g_inv_verify proof stmt rp = verify_made proof rp (to_aff_g_statement stmt)
