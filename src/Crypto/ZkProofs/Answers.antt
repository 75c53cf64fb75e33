-- ===== src/Crypto/ZkProofs/Answers.antt =====
-- crypto/zkproofs: the answers of an honest prover, for each of the tests.
use mpc_lib.Prelude.{
  ℕ, ◌+◌, ◌*◌, ◌%◌, ◌^◌, ◌<◌, ◌≡◌, refl, sym, ap, ◌∙◌, arith, ℤ, pos, ◌+ℤ◌, ◌*ℤ◌, pos-+ℤ, pos-*ℤ,
  emod, emod-*ℤ, true, ==ℤ_iff, zero, suc,
}
use mpc_lib.Prelude.Result.{Result, ok}
use native.Mathlib.Nat.{mod-mod, mod-mod_of_dvd, dvd-mul_right, add-mod-mod}
use mpc_lib.Common.ModInt.Powers.{mul-mod_congr, pow-mod_congr}
use mpc_lib.Crypto.Curve.{Curve, IsGroup}
use mpc_lib.Crypto.Point.{EcPoint}
use mpc_lib.Crypto.Point.Group.{at, is_accepted, add-at, scalar_mult-at, equals-at}
use mpc_lib.Crypto.Paillier.{encrypt_with_randomness_no_err_chk}
use mpc_lib.Crypto.Paillier.Ciphertext.{residue, residue-mul, encrypt_no_err_chk_lem}
use mpc_lib.Crypto.Paillier.Homomorphic.{residue-pow}
use mpc_lib.Crypto.Paillier.Randomness.{residue-random, residue-message}
use mpc_lib.Crypto.ZkProofs.{is_within, RingPedersenParams, commit, a_plus_bc}
use mpc_lib.Crypto.ZkProofs.Powers.{commit-pos, a_times_b-pos, raised_residues}
use mpc_lib.Crypto.ZkProofs.Equations.{power_equation, group_equation}

pub plus_times : (a b c : ℕ) → a_plus_bc (pos a) (pos b) (pos c) ≡ pos (a + b * c)
unfolding a_plus_bc
plus_times a b c = ap (λ z. pos a +ℤ z) (pos-*ℤ b c) ∙ pos-+ℤ a (b * c)

pub within : (bound k : ℕ) → k < bound → is_within bound (pos k) ≡ true
unfolding is_within
within zero k h = absurd (omega arith)
within (suc bound) k h = ground arith

module _ (n : ℕ) (h : 0 < n) where
  -- The power of the ciphertext by the challenge, times the prover's, is a ciphertext of the answers.
  pub cipher_residues :
      (k alpha e rho r : ℕ)
      → residue n alpha (pos r) * (residue n k (pos rho) ^ e % (n * n)) % (n * n)
        ≡ residue n (alpha + e * k) (pos (r * (rho ^ e % n) % n))
  unfolding emod
  cipher_residues k alpha e rho r =
      let x = pos ((rho % (n * n)) ^ e) in
      let same : emod (pos r *ℤ x) n ≡ emod (pos (r * (rho ^ e % n) % n)) n =
        emod-*ℤ (pos r) x n h ∙ randoms ∙ sym (mod-mod (r * (rho ^ e % n)) n) in
      ap (λ (t : ℕ). residue n alpha (pos r) * t % (n * n)) (residue-pow n k e (pos rho))
      ∙ residue-mul n h alpha (e * k % n) (pos r) x
      ∙ residue-message n (alpha + e * k % n) (pos r *ℤ x)
      ∙ sym (residue-message n (alpha + e * k % n) (pos r *ℤ x))
      ∙ ap (λ (t : ℕ). residue n t (pos r *ℤ x)) (add-mod-mod alpha (e * k) n)
      ∙ residue-message n (alpha + e * k) (pos r *ℤ x)
      ∙ residue-random n (alpha + e * k) (pos r *ℤ x) (pos (r * (rho ^ e % n) % n)) h same
    where
      inner : (rho % (n * n)) ^ e % n ≡ rho ^ e % n
      inner = pow-mod_congr (rho % (n * n)) rho e n (mod-mod_of_dvd n rho (dvd-mul_right n n))

      randoms : r % n * ((rho % (n * n)) ^ e % n) % n ≡ r * (rho ^ e % n) % n
      randoms =
          mul-mod_congr (r % n) r ((rho % (n * n)) ^ e % n) (rho ^ e % n) n (mod-mod r n)
            (ap (λ (t : ℕ). t % n) inner)

pub power_equation-true :
    (left : Result ℤ) (a b e n k : ℕ)
    → left ≡ ok (pos k)
    → a * (b ^ e % n) % n ≡ k
    → power_equation left (pos a) (pos b) e n ≡ ok true
unfolding power_equation
power_equation-true left a b e n k known same =
    rw (known, a_times_b-pos a b e n, same, (==ℤ_iff (pos k) (pos k)).1 refl) refl

-- The commitment to the answers.
pub commit_equation :
    (rp : RingPedersenParams) (x y e u v : ℕ)
    → let opening : ℕ → ℕ → ℕ = λ j k. emod rp.s rp.n ^ j * emod rp.t rp.n ^ k % rp.n in
      power_equation
        (commit rp (pos (u + e * x)) (pos (v + e * y)))
        (pos (opening u v))
        (pos (opening x y))
        e
        rp.n
      ≡ ok true
commit_equation rp x y e u v =
    power_equation-true _ _ _ e rp.n _ (commit-pos rp (u + e * x) (v + e * y))
      (raised_residues rp.n (emod rp.s rp.n) (emod rp.t rp.n) x y e u v)

-- The ciphertext of the answers.
pub cipher_equation :
    (n : ℕ) (h : 0 < n) (k alpha e rho r : ℕ)
    → power_equation
        (encrypt_with_randomness_no_err_chk
          (record { n = n })
          (pos (alpha + e * k))
          (pos (r * (rho ^ e % n) % n)))
        (pos (residue n alpha (pos r)))
        (pos (residue n k (pos rho)))
        e
        (n * n)
      ≡ ok true
cipher_equation n h k alpha e rho r =
    power_equation-true _ _ _ e (n * n) _
      (encrypt_no_err_chk_lem n h (alpha + e * k) (pos (r * (rho ^ e % n) % n)))
      (cipher_residues n h k alpha e rho r)

-- The point of the answer, where the points on the way are accepted.
pub group_equation-true :
    (ec : Curve) (G : IsGroup ec) (left : Result EcPoint) (alpha x e : ℕ)
    → left ≡ ok (at ec G (alpha + e * x))
    → is_accepted ec G (x * e) ≡ true
    → is_accepted ec G (alpha + e * x) ≡ true
    → group_equation left (at ec G alpha) (at ec G x) e ≡ ok true
unfolding group_equation mpc_lib.Crypto.Point.add
group_equation-true ec G left alpha x e known inner outer =
    let same : alpha + x * e ≡ alpha + e * x = omega arith in
    rw
      (
        known,
        scalar_mult-at ec G x (pos e),
        inner,
        add-at ec G alpha (x * e),
        same,
        outer,
        (equals-at ec G (alpha + e * x) (alpha + e * x)).1 refl,
      )
      refl
