-- ===== src/Crypto/Paillier/Randomness.antt =====
-- An encryption depends on the message and the random number only by their residues modulo N.
use mpc_lib.Prelude.{
  ℕ, zero, suc, ◌+◌, ◌*◌, ◌/◌, ◌%◌, ◌^◌, ◌<◌, ◌≡◌, refl, sym, ap, ◌∙◌, arith, ℤ, emod,
}
use native.Mathlib.Nat.{add-mul-mod_self_left, div-add-mod, pow-zero}
use mpc_lib.Common.ModInt.Powers.{mul-mod_congr, pow-suc_left}
use mpc_lib.Crypto.Paillier.Ciphertext.{residue, raised_residue}
use mpc_lib.Crypto.Paillier.Recovery.{emod-square}

module _ (n : ℕ) where
  -- The first two terms of the binomial expansion.
  two_terms :
      (r q e : ℕ)
      → (r + n * q) ^ suc e % (n * n) ≡ (r ^ suc e + suc e * (n * (q * r ^ e))) % (n * n)
  two_terms r q zero =
      ap (λ (t : ℕ). t % (n * n))
        (rw (pow-suc_left (r + n * q) 0, pow-suc_left r 0, pow-zero (r + n * q), pow-zero r)
          (omega arith))
  two_terms r q (suc e) =
      let p = r ^ suc e + suc e * (n * (q * r ^ e)) in
      let expanded : (r + n * q) * p
          ≡ r ^ suc (suc e)
            + suc (suc e) * (n * (q * r ^ suc e))
            + n * n * (q * (suc e * (q * r ^ e))) =
        omega (
          arith,
          pow-suc_left r (suc e),
          ap (λ (t : ℕ). n * q * t) (pow-suc_left r e),
          ap (λ (t : ℕ). e * (n * q) * t) (pow-suc_left r e),
        ) in
      ap (λ (t : ℕ). t % (n * n)) (pow-suc_left (r + n * q) (suc e))
      ∙ mul-mod_congr (r + n * q) (r + n * q) _ p (n * n) refl (two_terms r q e)
      ∙ ap (λ (t : ℕ). t % (n * n)) expanded
      ∙ add-mul-mod_self_left _ (n * n) (q * (suc e * (q * r ^ e)))

  -- The N-th power modulo N² of a number depends on its residue modulo N.
  power_lift : (a : ℕ) → 0 < n → a ^ n % (n * n) ≡ (a % n) ^ n % (n * n)
  power_lift a h =
      let split : a ≡ a % n + n * (a / n) = omega (arith, div-add-mod a n) in
      ap (λ (t : ℕ). t ^ n % (n * n)) split ∙ cases n refl
    where
      cases : (k : ℕ) → n ≡ k → (a % n + n * (a / n)) ^ n % (n * n) ≡ (a % n) ^ n % (n * n)
      cases zero q = absurd (omega arith)
      cases (suc e) q =
          let r = a % n in
          let regroup : n * (n * (a / n * r ^ e)) ≡ n * n * (a / n * r ^ e) = omega arith in
          let multiple : suc e * (n * (a / n * r ^ e)) ≡ n * n * (a / n * r ^ e) =
            ap (λ (t : ℕ). t * (n * (a / n * r ^ e))) (sym q) ∙ regroup in
          ap (λ (t : ℕ). (r + n * (a / n)) ^ t % (n * n)) q
          ∙ two_terms r (a / n) e
          ∙ ap (λ (t : ℕ). (r ^ suc e + t) % (n * n)) multiple
          ∙ add-mul-mod_self_left (r ^ suc e) (n * n) (a / n * r ^ e)
          ∙ ap (λ (t : ℕ). r ^ t % (n * n)) (sym q)

  pub residue-random :
      (m : ℕ) (x y : ℤ) → 0 < n → emod x n ≡ emod y n → residue n m x ≡ residue n m y
  residue-random m x y h e = mul-mod_congr (1 + m * n) (1 + m * n) _ _ (n * n) refl (
      power_lift (emod x (n * n)) h
      ∙ ap (λ (t : ℕ). t ^ n % (n * n)) (emod-square x n h ∙ e ∙ sym (emod-square y n h))
      ∙ sym (power_lift (emod y (n * n)) h))

  pub residue-message : (m : ℕ) (x : ℤ) → residue n (m % n) x ≡ residue n m x
  residue-message m x =
      mul-mod_congr (1 + m % n * n) (1 + m * n) _ _ (n * n) (raised_residue n m) refl
