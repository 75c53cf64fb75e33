-- ===== src/Crypto/Paillier/Ciphertext.antt =====
-- What encryption computes, modulo N²: (1 + m N) x^N, since the powers of N + 1 are the numbers 1 + k N.
use mpc_lib.Prelude.{
  ℕ, zero, suc, ◌+◌, ◌*◌, ◌/◌, ◌%◌, ◌^◌, ◌<◌, ◌≡◌, refl, sym, ap, ◌∙◌, arith, ℤ, pos, ◌*ℤ◌, emod,
  emod-*ℤ, false, some,
}
use mpc_lib.Prelude.Result.{ok}
use native.Mathlib.Nat.{mod-mod, mod-lt, add-mul-mod_self_left, div-add-mod, pow-zero}
use mpc_lib.Common.ModInt.{exp}
use mpc_lib.Common.ModInt.Powers.{
  mul-mod_congr, mul-mod_left_drop, mul-mod_right_drop, pow-suc_left, mul-pow, pow-mod, exp-pos,
  mul-pos,
}
use mpc_lib.Crypto.Paillier.{
  is_outside, encrypt_with_randomness, encrypt_with_randomness_no_err_chk, n_square, gamma,
}

module _ (n : ℕ) where
  pow-suc_n : (e : ℕ) → (n + 1) ^ e % (n * n) ≡ (1 + e * n) % (n * n)
  pow-suc_n zero = ap (λ (t : ℕ). t % (n * n)) (omega (arith, pow-zero (n + 1)))
  pow-suc_n (suc e) =
      ap (λ (t : ℕ). t % (n * n)) (pow-suc_left (n + 1) e)
      ∙ mul-mod_congr (n + 1) (n + 1) _ _ (n * n) refl (pow-suc_n e)
      ∙ ap (λ (t : ℕ). t % (n * n)) split
      ∙ add-mul-mod_self_left (1 + suc e * n) (n * n) e
    where
      split : (n + 1) * (1 + e * n) ≡ 1 + suc e * n + n * n * e
      split = omega arith

  -- Only the residue of the factor counts.
  pub raised_residue : (k : ℕ) → (1 + k % n * n) % (n * n) ≡ (1 + k * n) % (n * n)
  raised_residue k =
      sym (add-mul-mod_self_left (1 + k % n * n) (n * n) (k / n))
      ∙ ap (λ (t : ℕ). t % (n * n)) (omega (arith, ap (λ (t : ℕ). t * n) (div-add-mod k n)))

  pub raised_sum : (a b : ℕ) → (1 + a * n) * (1 + b * n) % (n * n) ≡ (1 + (a + b) * n) % (n * n)
  raised_sum a b =
      ap (λ (t : ℕ). t % (n * n)) split ∙ add-mul-mod_self_left (1 + (a + b) * n) (n * n) (a * b)
    where
      split : (1 + a * n) * (1 + b * n) ≡ 1 + (a + b) * n + n * n * (a * b)
      split = omega arith

  pub raised_power : (a e : ℕ) → (1 + a * n) ^ e % (n * n) ≡ (1 + a * e * n) % (n * n)
  raised_power a zero = ap (λ (t : ℕ). t % (n * n)) (omega (arith, pow-zero (1 + a * n)))
  raised_power a (suc e) =
      ap (λ (t : ℕ). t % (n * n)) (pow-suc_left (1 + a * n) e)
      ∙ mul-mod_congr (1 + a * n) (1 + a * n) _ _ (n * n) refl (raised_power a e)
      ∙ raised_sum a (a * e)
      ∙ ap (λ (t : ℕ). (1 + t) % (n * n)) (omega arith)

  -- The residue that encryption of m with the random number x gives.
  abbrev pub residue : ℕ → ℤ → ℕ
  residue m x = (1 + m * n) * emod x (n * n) ^ n % (n * n)

  module _ (h : 0 < n) where
    square_pos : 0 < n * n
    square_pos = grind arith

    pub gamma_power :
        (e : ℕ) → exp (n * n) (pos (n + 1)) (pos e) ≡ some (pos ((1 + e * n) % (n * n)))
    unfolding emod
    gamma_power e =
        exp-pos (n * n) (pos (n + 1)) e
        ∙ ap (λ k. some (pos k)) (pow-mod (n + 1) e (n * n) ∙ pow-suc_n e)

    pub inside : (k b : ℕ) → k < b → is_outside (pos k) b ≡ false
    unfolding is_outside
    inside k b lt = ground arith

    -- Without the test of the message, for a message that is not negative.
    pub encrypt_no_err_chk_lem :
        (m : ℕ) (x : ℤ)
        → encrypt_with_randomness_no_err_chk (record { n = n }) (pos m) x ≡ ok (pos (residue m x))
    unfolding encrypt_with_randomness_no_err_chk n_square gamma
    encrypt_no_err_chk_lem m x =
        let xn = emod x (n * n) ^ n in
        rw (gamma_power m, exp-pos (n * n) x n, mul-pos)
          (ap (λ k. ok (pos k))
            (mul-mod_left_drop (1 + m * n) (xn % (n * n)) (n * n)
              ∙ mul-mod_right_drop (1 + m * n) xn (n * n)))

    pub encrypt_residue :
        (m : ℕ) (x : ℤ)
        → m < n
        → encrypt_with_randomness (record { n = n }) (pos m) x ≡ ok (pos (residue m x))
    unfolding encrypt_with_randomness
    encrypt_residue m x lt = rw (inside m n lt) (encrypt_no_err_chk_lem m x)

    pub residue-lt : (m : ℕ) (x : ℤ) → residue m x < n * n
    residue-lt m x = mod-lt _ square_pos

    -- The product of two such residues.
    pub residue-mul :
        (a b : ℕ) (x y : ℤ) → residue a x * residue b y % (n * n) ≡ residue ((a + b) % n) (x *ℤ y)
    residue-mul a b x y =
        let u = emod x (n * n) in
        let v = emod y (n * n) in
        let regroup : (1 + a * n) * u ^ n * ((1 + b * n) * v ^ n)
            ≡ (1 + a * n) * (1 + b * n) * (u ^ n * v ^ n) =
          omega arith in
        let messages : (1 + a * n) * (1 + b * n) % (n * n) ≡ (1 + (a + b) % n * n) % (n * n) =
          raised_sum a b ∙ sym (raised_residue (a + b)) in
        let randoms : u ^ n * v ^ n % (n * n) ≡ emod (x *ℤ y) (n * n) ^ n % (n * n) =
          ap (λ (t : ℕ). t % (n * n)) (sym (mul-pow u v n))
          ∙ sym (pow-mod (u * v) n (n * n))
          ∙ ap (λ (t : ℕ). t ^ n % (n * n)) (sym (emod-*ℤ x y (n * n) square_pos)) in
        mul-mod_congr _ _ _ _ (n * n) (mod-mod _ (n * n)) (mod-mod _ (n * n))
        ∙ ap (λ (t : ℕ). t % (n * n)) regroup
        ∙ mul-mod_congr _ _ _ _ (n * n) messages randoms
