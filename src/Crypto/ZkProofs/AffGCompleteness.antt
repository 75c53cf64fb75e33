-- ===== src/Crypto/ZkProofs/AffGCompleteness.antt =====
-- crypto/zkproofs/aff_g_proof.go: an honest prover and the verifier.
use mpc_lib.Prelude.{
  ℕ, ◌+◌, ◌*◌, ◌%◌, ◌^◌, ◌<◌, ◌≡◌, refl, sym, ap, ◌∙◌, arith, pos, emod, true, false, ◌||◌, List,
}
use mpc_lib.Prelude.Result.{ok}
use native.Mathlib.Nat.{mod-mod}
use mpc_lib.Common.ModInt.Powers.{mul-mod_congr, mul-pow, pow-add, pow-mul, pow-mod}
use mpc_lib.Crypto.Curve.{Curve, IsGroup}
use mpc_lib.Crypto.Point.{EcPoint}
use mpc_lib.Crypto.Point.Group.{at, is_accepted, scalar_base_mult-at}
use mpc_lib.Crypto.Paillier.Ciphertext.{residue, encrypt_no_err_chk_lem}
use mpc_lib.Crypto.ZkProofs.{new_ell, in_range, is_zero, RingPedersenParams}
use mpc_lib.Crypto.ZkProofs.Powers.{commit-pos, a_times_b-pos}
use mpc_lib.Crypto.ZkProofs.Equations.{and_then, power_equation}
use mpc_lib.Crypto.ZkProofs.Answers.{
  plus_times, within, cipher_residues, power_equation-true, commit_equation, cipher_equation,
  group_equation-true,
}
use mpc_lib.Crypto.ZkProofs.AffG.{
  AffGProof, AffGStatement, AffGWitness, AffGRandomness, AffGCommitments, aff_g_challenge,
  aff_g_commitments, new_aff_g_proof, affine_ciphertext, aff_g_verify,
}

-- A product of two factors, times the power by e of such a product.
affine_product :
    (m u s c a x e : ℕ)
    → u * (c ^ a % m) % m * ((s * (c ^ x % m) % m) ^ e % m) % m
      ≡ u * (s ^ e % m) % m * (c ^ (a + e * x) % m) % m
affine_product m u s c a x e =
    let first : u * (c ^ a % m) % m % m ≡ u * c ^ a % m =
      mod-mod _ m ∙ mul-mod_congr u u (c ^ a % m) (c ^ a) m refl (mod-mod _ m) in
    let second : (s * (c ^ x % m) % m) ^ e % m % m ≡ (s * c ^ x) ^ e % m =
      mod-mod _ m
      ∙ ap (λ (t : ℕ). t ^ e % m) (mul-mod_congr s s (c ^ x % m) (c ^ x) m refl (mod-mod _ m))
      ∙ pow-mod (s * c ^ x) e m in
    let right : u * (s ^ e % m) % m % m ≡ u * s ^ e % m =
      mod-mod _ m ∙ mul-mod_congr u u (s ^ e % m) (s ^ e) m refl (mod-mod _ m) in
    mul-mod_congr _ (u * c ^ a) _ ((s * c ^ x) ^ e) m first second
    ∙ ap (λ (t : ℕ). t % m) regroup
    ∙ sym (mul-mod_congr _ (u * s ^ e) _ (c ^ (a + e * x)) m right (mod-mod _ m))
  where
    swapped : x * e ≡ e * x
    swapped = omega arith

    regroup : u * c ^ a * (s * c ^ x) ^ e ≡ u * s ^ e * c ^ (a + e * x)
    regroup = rw (mul-pow s (c ^ x) e, ← pow-mul c x e, swapped, pow-add c a (e * x)) (omega arith)

module _ (sum : List ℕ → List ℕ) (ec : Curve) (G : IsGroup ec) (rp : RingPedersenParams)
    (ell ell_prime n0 n1 c x y rho rhoy alpha beta r ry gamma m delta mu : ℕ) where
  abbrev opening : ℕ → ℕ → ℕ
  opening j k = emod rp.s rp.n ^ j * emod rp.t rp.n ^ k % rp.n

  -- The affine operation of the prover on the ciphertext c: its power by x, times a ciphertext of y.
  abbrev affine : ℕ → ℕ → ℕ → ℕ
  affine k j s = residue n0 k (pos s) * (c ^ j % (n0 * n0)) % (n0 * n0)

  abbrev pub stmt : AffGStatement
  stmt = record {
    ell = ell;
    ell_prime = ell_prime;
    n0 = n0;
    n1 = n1;
    c = pos c;
    d = pos (affine y x rho);
    x = at ec G x;
    y = pos (residue n1 y (pos rhoy));
  }

  abbrev pub wit : AffGWitness
  wit = record { x = pos x; y = pos y; rho = pos rho; rhoy = pos rhoy }

  abbrev pub rand : AffGRandomness
  rand = record {
    alpha = pos alpha;
    beta = pos beta;
    r = pos r;
    ry = pos ry;
    gamma = pos gamma;
    m = pos m;
    delta = pos delta;
    mu = pos mu;
  }

  -- The first messages of the prover, and its proof for the challenge e.
  abbrev pub honest_commitments : AffGCommitments
  honest_commitments = record {
    a = pos (affine beta alpha r);
    bx = at ec G alpha;
    by = pos (residue n1 beta (pos ry));
    e = pos (opening alpha gamma);
    s = pos (opening x m);
    f = pos (opening beta delta);
    t = pos (opening y mu);
  }

  abbrev pub honest_proof : ℕ → AffGProof
  honest_proof e = record {
    a = pos (affine beta alpha r);
    bx = at ec G alpha;
    by = pos (residue n1 beta (pos ry));
    e = pos (opening alpha gamma);
    s = pos (opening x m);
    f = pos (opening beta delta);
    t = pos (opening y mu);
    z1 = pos (alpha + e * x);
    z2 = pos (beta + e * y);
    z3 = pos (gamma + e * m);
    z4 = pos (delta + e * mu);
    w = pos (r * (rho ^ e % n0) % n0);
    wy = pos (ry * (rhoy ^ e % n1) % n1);
  }

  affine_equation :
      (h : 0 < n0) (e : ℕ)
      → power_equation
          (affine_ciphertext sum (honest_proof e) stmt)
          (pos (affine beta alpha r))
          (pos (affine y x rho))
          e
          (n0 * n0)
        ≡ ok true
  unfolding affine_ciphertext
  affine_equation h e =
      let w = r * (rho ^ e % n0) % n0 in
      power_equation-true _ _ _ e (n0 * n0) _
        (rw
          (
            encrypt_no_err_chk_lem n0 h (beta + e * y) (pos w),
            a_times_b-pos (residue n0 (beta + e * y) (pos w)) c (alpha + e * x) (n0 * n0),
          )
          refl)
        (affine_product (n0 * n0) (residue n0 beta (pos r)) (residue n0 y (pos rho)) c alpha x e
          ∙ ap (λ (t : ℕ). t * (c ^ (alpha + e * x) % (n0 * n0)) % (n0 * n0))
              (cipher_residues n0 h y beta e rho r))

  scalar_base_mult-accepted :
      (k : ℕ)
      → is_accepted ec G k ≡ true
      → mpc_lib.Crypto.Point.scalar_base_mult ec (pos k) ≡ ok (at ec G k)
  scalar_base_mult-accepted k accepted = rw (scalar_base_mult-at ec G (pos k), accepted) refl

  aff_g_commitments-honest :
      0 < n0
      → 0 < n1
      → is_accepted ec G alpha ≡ true
      → aff_g_commitments sum wit stmt rp rand ≡ ok honest_commitments
  unfolding aff_g_commitments
  aff_g_commitments-honest h0 h1 accepted =
      rw
        (
          encrypt_no_err_chk_lem n0 h0 beta (pos r),
          a_times_b-pos (residue n0 beta (pos r)) c alpha (n0 * n0),
          scalar_base_mult-accepted alpha accepted,
          encrypt_no_err_chk_lem n1 h1 beta (pos ry),
          commit-pos rp alpha gamma,
          commit-pos rp x m,
          commit-pos rp beta delta,
          commit-pos rp y mu,
        )
        refl

  -- The affine proof of an honest prover, for natural numbers, is made: of the ciphertext that is c to
  -- the power x times a ciphertext of y, of the point x G and of another ciphertext of y. It is accepted
  -- where the points on the way are on the curve, both answers are in range and four numbers are not 0.
  pub new_aff_g_proof-aff_g_verify :
      (e : ℕ)
      → 0 < n0
      → 0 < n1
      → aff_g_challenge sum stmt rp honest_commitments ≡ ok e
      → is_accepted ec G alpha ≡ true
      → is_accepted ec G (x * e) ≡ true
      → is_accepted ec G (alpha + e * x) ≡ true
      → alpha + e * x < 2 ^ (ell + ell * 2)
      → beta + e * y < 2 ^ (ell_prime + ell_prime * 2)
      → is_zero (pos (affine beta alpha r)) || is_zero (pos (r * (rho ^ e % n0) % n0)) ≡ false
      → is_zero (pos (ry * (rhoy ^ e % n1) % n1)) || is_zero (pos (residue n1 beta (pos ry)))
        ≡ false
      → (new_aff_g_proof sum wit stmt rp rand ≡ ok (honest_proof e))
        × (aff_g_verify sum (honest_proof e) stmt rp ≡ ok true)
  unfolding new_aff_g_proof aff_g_verify and_then in_range new_ell
  new_aff_g_proof-aff_g_verify e h0 h1 challenged first inner outer small1 small2 nonzero1
        nonzero2 =
      (
        rw
            (
              aff_g_commitments-honest h0 h1 first,
              challenged,
              a_times_b-pos r rho e n0,
              a_times_b-pos ry rhoy e n1,
              plus_times alpha e x,
              plus_times beta e y,
              plus_times gamma e m,
              plus_times delta e mu,
            )
            refl,
        rw
            (
              challenged,
              nonzero1,
              affine_equation h0 e,
              group_equation-true ec G _ alpha x e (scalar_base_mult-accepted (alpha + e * x) outer)
                  inner outer,
              nonzero2,
              cipher_equation n1 h1 y beta e rhoy ry,
              commit_equation rp x m e alpha gamma,
              commit_equation rp y mu e beta delta,
              within (2 ^ (ell + ell * 2)) (alpha + e * x) small1,
              within (2 ^ (ell_prime + ell_prime * 2)) (beta + e * y) small2,
            )
            refl,
      )
