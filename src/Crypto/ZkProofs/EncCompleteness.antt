-- ===== src/Crypto/ZkProofs/EncCompleteness.antt =====
-- The encryption proof of an honest prover is accepted.
use mpc_lib.Prelude.{
  ℕ, ◌+◌, ◌*◌, ◌%◌, ◌^◌, ◌<◌, ◌≡◌, refl, sym, ap, pos, emod, true, false, ◌||◌, List, ==ℤ_iff,
  ◌==ℤ◌,
}
use mpc_lib.Prelude.Result.{ok}
use mpc_lib.Crypto.Paillier.Ciphertext.{residue, encrypt_residue, encrypt_no_err_chk_lem}
use mpc_lib.Crypto.ZkProofs.{new_ell, in_range, in_range_ell, is_zero, RingPedersenParams}
use mpc_lib.Crypto.ZkProofs.Powers.{commit-pos, a_times_b-pos, raised_residues}
use mpc_lib.Crypto.ZkProofs.Answers.{plus_times, within, cipher_residues}
use mpc_lib.Crypto.ZkProofs.Enc.{
  EncProof, EncStatement, EncWitness, EncRandomness, get_challenge, new_enc_proof, equations_hold,
  enc_verify,
}

module _ (sum : List ℕ → List ℕ) (q bit_size n0 : ℕ) (rp : RingPedersenParams)
    (k rho alpha mu r gamma : ℕ) where
  abbrev pub stmt : EncStatement
  stmt = record { q = q; bit_size = bit_size; n0 = n0; k = pos (residue n0 k (pos rho)) }

  abbrev pub wit : EncWitness
  wit = record { k = pos k; rho = pos rho }

  abbrev pub rand : EncRandomness
  rand = record { alpha = pos alpha; mu = pos mu; r = pos r; gamma = pos gamma }

  abbrev opening : ℕ → ℕ → ℕ
  opening x y = emod rp.s rp.n ^ x * emod rp.t rp.n ^ y % rp.n

  -- The proof that the prover makes, for the challenge e.
  abbrev pub honest_proof : ℕ → EncProof
  honest_proof e = record {
    s = pos (opening k mu);
    a = pos (residue n0 alpha (pos r));
    c = pos (opening alpha gamma);
    z1 = pos (alpha + e * k);
    z2 = pos (r * (rho ^ e % n0) % n0);
    z3 = pos (gamma + e * mu);
  }

  equations_hold-honest :
      (h : 0 < n0) (e : ℕ) → equations_hold sum (honest_proof e) stmt rp e ≡ ok true
  unfolding equations_hold
  equations_hold-honest h e =
      let first : (pos (residue n0 (alpha + e * k) (pos (r * (rho ^ e % n0) % n0)))
            ==ℤ pos
                (residue n0 alpha (pos r) * (residue n0 k (pos rho) ^ e % (n0 * n0)) % (n0 * n0)))
          ≡ true =
        (==ℤ_iff _ _).1 (ap pos (sym (cipher_residues n0 h k alpha e rho r))) in
      let second : (pos (opening (alpha + e * k) (gamma + e * mu))
            ==ℤ pos (opening alpha gamma * (opening k mu ^ e % rp.n) % rp.n))
          ≡ true =
        (==ℤ_iff _ _).1 (
          ap pos
            (sym (raised_residues rp.n (emod rp.s rp.n) (emod rp.t rp.n) k mu e alpha gamma))) in
      rw
        (
          encrypt_no_err_chk_lem n0 h (alpha + e * k) (pos (r * (rho ^ e % n0) % n0)),
          a_times_b-pos (residue n0 alpha (pos r)) (residue n0 k (pos rho)) e (n0 * n0),
          first,
          commit-pos rp (alpha + e * k) (gamma + e * mu),
          a_times_b-pos (opening alpha gamma) (opening k mu) e rp.n,
          second,
        )
        refl

  -- The encryption proof of an honest prover, for natural numbers in range and the ciphertext of k
  -- with rho under a positive N0, is made, and it is accepted unless one of two numbers in it is 0.
  pub new_enc_proof-enc_verify :
      (h : 0 < n0) (e : ℕ)
      → get_challenge sum stmt rp
          (pos (opening k mu))
          (pos (residue n0 alpha (pos r)))
          (pos (opening alpha gamma))
        ≡ ok e
      → k < 2 ^ bit_size
      → alpha < n0
      → alpha + e * k < 2 ^ (bit_size + bit_size * 2)
      → is_zero (pos (r * (rho ^ e % n0) % n0)) || is_zero (pos (residue n0 alpha (pos r))) ≡ false
      → (new_enc_proof sum wit stmt rp rand ≡ ok (honest_proof e))
        × (enc_verify sum (honest_proof e) stmt rp ≡ ok true)
  unfolding new_enc_proof enc_verify in_range in_range_ell new_ell
  new_enc_proof-enc_verify h e challenged small inside bounded nonzero = (
    rw
        (
          within (2 ^ bit_size) k small,
          commit-pos rp k mu,
          encrypt_residue n0 h alpha (pos r) inside,
          commit-pos rp alpha gamma,
          challenged,
          plus_times alpha e k,
          within (2 ^ (bit_size + bit_size * 2)) (alpha + e * k) bounded,
          a_times_b-pos r rho e n0,
          plus_times gamma e mu,
        )
        refl,
    rw
        (
          challenged,
          nonzero,
          equations_hold-honest h e,
          within (2 ^ (bit_size + bit_size * 2)) (alpha + e * k) bounded,
        )
        refl,
  )
