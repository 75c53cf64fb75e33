-- ===== src/Crypto/ZkProofs/LogStarCompleteness.antt =====
-- crypto/zkproofs/logstar_proof.go: an honest prover and the verifier.
use mpc_lib.Prelude.{
  ℕ, ◌+◌, ◌*◌, ◌%◌, ◌^◌, ◌<◌, ◌≡◌, refl, arith, pos, emod, true, false, ◌||◌, some, List,
}
use mpc_lib.Prelude.Result.{ok}
use mpc_lib.Crypto.Curve.{Curve, IsGroup}
use mpc_lib.Crypto.Point.{scalar_mult}
use mpc_lib.Crypto.Point.Group.{at, is_accepted, scalar_mult-at}
use mpc_lib.Crypto.Paillier.Ciphertext.{residue, encrypt_residue}
use mpc_lib.Crypto.ZkProofs.{new_ell, in_range, is_zero, RingPedersenParams}
use mpc_lib.Crypto.ZkProofs.Powers.{commit-pos, a_times_b-pos}
use mpc_lib.Crypto.ZkProofs.Equations.{and_then, unchecked, refused, power_equation}
use mpc_lib.Crypto.ZkProofs.Answers.{
  plus_times, within, cipher_residues, power_equation-true, commit_equation, group_equation-true,
}
use mpc_lib.Crypto.ZkProofs.LogStar.{
  LogStarProof, LogStarStatement, LogStarWitness, LogStarRandomness, base_of, log_star_challenge,
  new_log_star_proof, log_star_verify,
}

module _ (sum : List ℕ → List ℕ) (bit_size : ℕ) (ec : Curve) (G : IsGroup ec)
    (rp : RingPedersenParams) (ell n0 base x rho alpha mu r gamma : ℕ) where
  abbrev opening : ℕ → ℕ → ℕ
  opening j k = emod rp.s rp.n ^ j * emod rp.t rp.n ^ k % rp.n

  -- The base is a multiple of the base point, and X the multiple of the base by x.
  abbrev pub stmt : LogStarStatement
  stmt = record {
    ell = ell;
    n0 = n0;
    c = pos (residue n0 x (pos rho));
    x = at ec G (base * x);
    g = some (at ec G base);
  }

  abbrev pub wit : LogStarWitness
  wit = record { x = pos x; rho = pos rho }

  abbrev pub rand : LogStarRandomness
  rand = record { alpha = pos alpha; mu = pos mu; r = pos r; gamma = pos gamma }

  -- The proof that the prover makes, for the challenge e.
  abbrev pub honest_proof : ℕ → LogStarProof
  honest_proof e = record {
    s = pos (opening x mu);
    a = pos (residue n0 alpha (pos r));
    y = at ec G (base * alpha);
    d = pos (opening alpha gamma);
    z1 = pos (alpha + e * x);
    z2 = pos (r * (rho ^ e % n0) % n0);
    z3 = pos (gamma + e * mu);
  }

  scalar_mult-accepted :
      (k z : ℕ)
      → base * k ≡ z
      → is_accepted ec G z ≡ true
      → scalar_mult (at ec G base) (pos k) ≡ ok (at ec G z)
  scalar_mult-accepted k z same accepted =
      rw (scalar_mult-at ec G base (pos k), same, accepted) refl

  log_star_cipher :
      (e : ℕ)
      → 0 < n0
      → power_equation
          (ok (pos (residue n0 (alpha + e * x) (pos (r * (rho ^ e % n0) % n0)))))
          (pos (residue n0 alpha (pos r)))
          (pos (residue n0 x (pos rho)))
          e
          (n0 * n0)
        ≡ ok true
  log_star_cipher e h =
      power_equation-true _ _ _ e (n0 * n0) _ refl (cipher_residues n0 h x alpha e rho r)

  -- The log* proof of an honest prover, for natural numbers, is made: of the ciphertext of x and the
  -- multiple by x of a base in the group. It is accepted where the points on the way are on the curve,
  -- the answer is below N0 and in range, and two numbers are not 0.
  pub new_log_star_proof-log_star_verify :
      (e : ℕ)
      → log_star_challenge sum bit_size stmt rp
          (pos (opening x mu))
          (pos (residue n0 alpha (pos r)))
          (at ec G (base * alpha))
          (pos (opening alpha gamma))
        ≡ ok e
      → is_accepted ec G (base * alpha) ≡ true
      → is_accepted ec G (base * x * e) ≡ true
      → is_accepted ec G (base * alpha + e * (base * x)) ≡ true
      → alpha + e * x < n0
      → alpha + e * x < 2 ^ (ell + ell * 2)
      → is_zero (pos (residue n0 alpha (pos r))) || is_zero (pos (r * (rho ^ e % n0) % n0)) ≡ false
      → (new_log_star_proof sum bit_size wit stmt rp rand ≡ ok (honest_proof e))
        × (log_star_verify sum bit_size (honest_proof e) stmt rp ≡ ok true)
  unfolding new_log_star_proof log_star_verify base_of unchecked refused and_then in_range new_ell
  new_log_star_proof-log_star_verify e challenged first inner outer inside small nonzero =
      let h : 0 < n0 = omega arith in
      let alpha_small : alpha < n0 = omega arith in
      let factored : base * (alpha + e * x) ≡ base * alpha + e * (base * x) = grind arith in
      (
        rw
            (
              commit-pos rp x mu,
              encrypt_residue n0 h alpha (pos r) alpha_small,
              scalar_mult-accepted alpha (base * alpha) refl first,
              commit-pos rp alpha gamma,
              challenged,
              a_times_b-pos r rho e n0,
              plus_times alpha e x,
              plus_times gamma e mu,
            )
            refl,
        rw
            (
              challenged,
              nonzero,
              encrypt_residue n0 h (alpha + e * x) (pos (r * (rho ^ e % n0) % n0)) inside,
              log_star_cipher e h,
              group_equation-true ec G _ (base * alpha) (base * x) e
                  (scalar_mult-accepted (alpha + e * x) _ factored outer) inner outer,
              commit_equation rp x mu e alpha gamma,
              within (2 ^ (ell + ell * 2)) (alpha + e * x) small,
            )
            refl,
      )
