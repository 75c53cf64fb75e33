-- ===== src/Crypto/Paillier/Decryption.antt =====
-- Decryption undoes encryption.
use mpc_lib.Prelude.{
  ℕ, zero, suc, ◌+◌, ◌-◌, ◌*◌, ◌%◌, ◌^◌, ◌<◌, ◌≡◌, refl, sym, ap, ◌∙◌, arith, ℤ, pos, ◌-ℤ◌, emod,
  ediv, gcd, gcd-unit,
}
use mpc_lib.Prelude.Result.{ok, ◌>>=◌}
use native.Mathlib.Nat.{mod-mod, mod-lt, mod-eq_of_lt, add-mul-mod_self_left, mul-div_left}
use mpc_lib.Common.ModInt.Inverses.{mod_inverse-unit}
use mpc_lib.Common.ModInt.Powers.{
  mul-mod_congr, mul-mod_left_drop, mul-pow, pow-mul, pow-mod, pow-suc_left, exp-pos, mul-pos,
}
use mpc_lib.Crypto.Paillier.{PrivateKey, encrypt_with_randomness, n_square, gamma, l, decrypt}
use mpc_lib.Crypto.Paillier.Ciphertext.{
  residue, residue-lt, encrypt_residue, inside, raised_residue, raised_power, raised_sum,
  gamma_power,
}

-- What decryption needs of a key: N is more than 1, and lambda has an inverse modulo N.
pub record IsKey (key : PrivateKey) : Type 0 where
  pub large : 1 < key.public_key.n
  pub inverse : ℕ
  pub inverts : key.lambda_n * inverse % key.public_key.n ≡ 1

-- A random number is undone by the key when its power N lambda is 1 modulo N². By Carmichael's
-- theorem every number prime to N is, where N is the product of the key's two primes.
abbrev pub IsUndone : PrivateKey → ℤ → Type 0
IsUndone key x = let n = key.public_key.n in emod x (n * n) ^ (n * key.lambda_n) % (n * n) ≡ 1

module _ (n : ℕ) (big : 1 < n) where
  square_big : 1 < n * n
  square_big = grind arith

  -- The residue of a raised number, taken apart.
  raised_value : (k : ℕ) → (1 + k * n) % (n * n) ≡ 1 + k % n * n
  raised_value k =
      let lt : k % n < n = mod-lt k (omega arith) in
      let small : 1 + k % n * n < n * n = grind arith in
      sym (raised_residue n k) ∙ mod-eq_of_lt small

  minus_one : (k : ℕ) → pos (1 + k) -ℤ pos 1 ≡ pos k
  unfolding ◌-ℤ◌
  minus_one k = ground arith

  -- `L` of a raised number.
  l_raised : (k : ℕ) → l (pos ((1 + k * n) % (n * n))) n ≡ pos (k % n)
  unfolding l ediv
  l_raised k =
      rw (raised_value k, minus_one (k % n * n)) (ap pos (mul-div_left (k % n) (omega arith)))

  module _ (lambda m : ℕ) (x : ℤ) (undone : emod x (n * n) ^ (n * lambda) % (n * n) ≡ 1) where
    abbrev u : ℕ
    u = emod x (n * n)

    -- The power lambda of an encryption has no trace of the random number.
    residue_lambda : residue n m x ^ lambda % (n * n) ≡ (1 + m * lambda * n) % (n * n)
    residue_lambda =
        let gone : (u ^ n) ^ lambda % (n * n) ≡ 1 % (n * n) =
          ap (λ (t : ℕ). t % (n * n)) (sym (pow-mul u n lambda))
          ∙ undone
          ∙ sym (mod-eq_of_lt square_big) in
        pow-mod ((1 + m * n) * u ^ n) lambda (n * n)
        ∙ ap (λ (t : ℕ). t % (n * n)) (mul-pow (1 + m * n) (u ^ n) lambda)
        ∙ mul-mod_congr _ _ _ _ (n * n) (raised_power n m lambda) gone
        ∙ ap (λ (t : ℕ). t % (n * n)) (omega arith)

    random_inverse : 0 < lambda → u ^ n * (u ^ n) ^ (lambda - 1) % (n * n) ≡ 1
    random_inverse lt =
        ap (λ (t : ℕ). t % (n * n))
          (sym (pow-suc_left (u ^ n) (lambda - 1))
            ∙ ap (λ (t : ℕ). (u ^ n) ^ t) (omega arith)
            ∙ sym (pow-mul u n lambda))
        ∙ undone

    -- An encryption has no factor in common with N².
    residue-gcd : m < n → 0 < lambda → gcd (residue n m x) (n * n) ≡ 1
    residue-gcd lt lambda_pos =
        let whole : m + (n - m) ≡ n = omega arith in
        let square : 1 + n * n ≡ 1 + n * n * 1 = omega arith in
        let message : (1 + m * n) * (1 + (n - m) * n) % (n * n) ≡ 1 % (n * n) =
          raised_sum n m (n - m)
          ∙ ap (λ (t : ℕ). (1 + t * n) % (n * n)) whole
          ∙ ap (λ (t : ℕ). t % (n * n)) square
          ∙ add-mul-mod_self_left 1 (n * n) 1 in
        let random = random_inverse lambda_pos ∙ sym (mod-eq_of_lt square_big) in
        let b = (1 + (n - m) * n) * (u ^ n) ^ (lambda - 1) in
        let regroup : (1 + m * n) * u ^ n * b
            ≡ (1 + m * n) * (1 + (n - m) * n) * (u ^ n * (u ^ n) ^ (lambda - 1)) =
          omega arith in
        gcd-unit (residue n m x) b (n * n) square_big (
          mul-mod_left_drop ((1 + m * n) * u ^ n) b (n * n)
          ∙ ap (λ (t : ℕ). t % (n * n)) regroup
          ∙ mul-mod_congr _ _ _ _ (n * n) message random
          ∙ mod-eq_of_lt square_big)

module _ (key : PrivateKey) (is_key : IsKey key) where
  abbrev n : ℕ
  n = key.public_key.n

  abbrev lambda : ℕ
  lambda = key.lambda_n

  lambda_pos : 0 < lambda
  lambda_pos = lemma lambda is_key.inverts
    where
      lemma : (k : ℕ) → k * is_key.inverse % n ≡ 1 → 0 < k
      lemma zero e = absurd (ground arith)
      lemma (suc k) e = omega arith

  pub decrypt_residue :
      (m : ℕ) (x : ℤ) → m < n → IsUndone key x → decrypt key (pos (residue n m x)) ≡ ok (pos m)
  unfolding decrypt n_square gamma emod
  decrypt_residue m x lt undone =
      let h : 0 < n = omega (arith, is_key.large) in
      let (j, found, inverts) =
        mod_inverse-unit n is_key.large (lambda % n) is_key.inverse
          (mul-mod_left_drop lambda is_key.inverse n ∙ is_key.inverts) in
      let message : m * lambda % n * j % n ≡ m =
        mul-mod_left_drop (m * lambda) j n
        ∙ ap (λ (t : ℕ). t % n) (omega arith)
        ∙ mul-mod_congr m m (lambda * j) 1 n refl
            (sym (mul-mod_left_drop lambda j n) ∙ inverts ∙ sym (mod-eq_of_lt is_key.large))
        ∙ ap (λ (t : ℕ). t % n) (omega arith)
        ∙ mod-eq_of_lt lt in
      rw
        (
          inside n h (residue n m x) (n * n) (residue-lt n h m x),
          residue-gcd n is_key.large lambda m x undone lt lambda_pos,
          exp-pos (n * n) (pos (residue n m x)) lambda,
          mod-mod ((1 + m * n) * emod x (n * n) ^ n) (n * n),
          residue_lambda n is_key.large lambda m x undone,
          gamma_power n h lambda,
          l_raised n is_key.large (m * lambda),
          l_raised n is_key.large lambda,
          found,
          mul-pos,
          message,
        )
        refl

  -- Decryption gives back a message in [0, N) from each of its encryptions, where the key is one
  -- and undoes the random number.
  pub decrypt-encrypt :
      (m : ℕ) (x : ℤ)
      → m < n
      → IsUndone key x
      → (do c ← encrypt_with_randomness key.public_key (pos m) x; decrypt key c) ≡ ok (pos m)
  decrypt-encrypt m x lt undone =
      rw (encrypt_residue n (omega (arith, is_key.large)) m x lt) (decrypt_residue m x lt undone)
