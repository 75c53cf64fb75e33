-- ===== src/Crypto/Paillier/Recovery.antt =====
-- `DecryptFull`: the random number of an encryption, taken out by the inverse of N modulo lambda.
use mpc_lib.Prelude.{
  ℕ, zero, suc, ◌+◌, ◌*◌, ◌/◌, ◌%◌, ◌^◌, ◌<◌, ◌≡◌, refl, sym, ap, ◌∙◌, arith, ℤ, pos, neg_ℤ, *ℤ-one,
  emod, ediv, emod-lt, emod_unique, emod_parts, pos_part, neg_part, some,
}
use mpc_lib.Prelude.Result.{ok, ◌>>=◌}
use native.Mathlib.Nat.{
  mod-mod, mod-lt, add-mul-mod_self_left, div-add-mod, mod-mod_of_dvd, dvd-mul_right, add-mod_left,
  pow-zero,
}
use mpc_lib.Common.ModInt.{exp}
use mpc_lib.Common.ModInt.Inverses.{mod_inverse-unit, inverse_of_one, power-root, one-mod, one_more}
use mpc_lib.Common.ModInt.Powers.{mul-mod_congr, pow-mod, one-pow, exp-pos, power_lem}
use mpc_lib.Crypto.Paillier.{PrivateKey, encrypt_with_randomness, gamma, decrypt_full}
use mpc_lib.Crypto.Paillier.Ciphertext.{residue, encrypt_residue}
use mpc_lib.Crypto.Paillier.Decryption.{IsKey, IsUndone, decrypt_residue}

-- The residue modulo a factor.
pub emod-square : (x : ℤ) (n : ℕ) → 0 < n → emod x (n * n) % n ≡ emod x n
emod-square x n h =
    let square_pos : 0 < n * n = grind arith in
    let q = ediv x (n * n) in
    let u = emod x (n * n) in
    sym (
      emod_unique x n (u % n) (neg_part q * n) (pos_part q * n + u / n) (mod-lt u h)
        (omega (arith, emod_parts x (n * n) square_pos, div-add-mod u n)))

module _ (n : ℕ) (big : 1 < n) where
  n_pos : 0 < n
  n_pos = omega arith

  raised_one : (n + 1) % n ≡ 1
  raised_one = add-mod_left n 1 ∙ one-mod n big

  -- The powers of N + 1 are 1 modulo N, with negative exponents too.
  gamma_negative : (m : ℕ) → exp n (pos (n + 1)) (neg_ℤ (pos m)) ≡ some (pos 1)
  unfolding exp emod
  gamma_negative zero =
      exp-pos n (pos (n + 1)) 0
      ∙ ap (λ k. some (pos k)) (ap (λ (t : ℕ). t % n) (pow-zero _) ∙ one-mod n big)
  gamma_negative (suc m) =
      rw (exp, inverse_of_one n big (n + 1) raised_one)
        (ap (λ k. some (pos k))
          (power_lem n 1 (suc m) ∙ ap (λ (t : ℕ). t % n) (one-pow (suc m)) ∙ one-mod n big))

-- What the recovery needs beside: lambda is more than 1, and N has an inverse modulo lambda.
pub record IsRecovering (key : PrivateKey) : Type 0 where
  pub is_key : IsKey key
  pub lambda_large : 1 < key.lambda_n
  pub n_inverse : ℕ
  pub n_inverts : key.public_key.n * n_inverse % key.lambda_n ≡ 1

module _ (key : PrivateKey) (recovering : IsRecovering key) where
  abbrev modulus : ℕ
  modulus = key.public_key.n

  abbrev lambda : ℕ
  lambda = key.lambda_n

  module _ (m : ℕ) (x : ℤ) (is_unit : emod x modulus ^ lambda % modulus ≡ 1) where
    big : 1 < modulus
    big = recovering.is_key.large

    -- Modulo N an encryption is the N-th power of the random number.
    residue_mod : residue modulus m x % modulus ≡ emod x modulus ^ modulus % modulus
    residue_mod =
        let n = modulus in
        let u = emod x (n * n) in
        let message : (1 + m * n) % n ≡ 1 % n =
          ap (λ (t : ℕ). (1 + t) % n) (omega arith) ∙ add-mul-mod_self_left 1 n m in
        mod-mod_of_dvd n ((1 + m * n) * u ^ n) (dvd-mul_right n n)
        ∙ mul-mod_congr (1 + m * n) 1 (u ^ n) (u ^ n) n message refl
        ∙ ap (λ (t : ℕ). t % n) (omega arith)
        ∙ sym (pow-mod u n n)
        ∙ ap (λ (t : ℕ). t ^ n % n) (emod-square x n (n_pos n big))

    -- `DecryptFull` gives back a message in [0, N) and the residue modulo N of the random number
    -- that it was encrypted with, where the key undoes the number and recovers.
    pub decrypt_full-encrypt :
        m < modulus
        → IsUndone key x
        → (do c ← encrypt_with_randomness key.public_key (pos m) x; decrypt_full key c)
          ≡ ok (pos m, pos (emod x modulus))
    unfolding decrypt_full gamma
    decrypt_full-encrypt lt undone =
        let n = modulus in
        let (j, found, inverts) =
          mod_inverse-unit lambda recovering.lambda_large n recovering.n_inverse
            recovering.n_inverts in
        let v = emod x n in
        let value : emod (pos (v ^ n % n)) n ^ j % n ≡ v =
          unfold emod in
          ap (λ (t : ℕ). t ^ j % n) (mod-mod (v ^ n) n)
          ∙ power-root n big v lambda n j _ (emod-lt x n (n_pos n big)) is_unit
              (one_more (n * j) lambda inverts) in
        let reduced : emod (pos (residue n m x)) n ≡ v ^ n % n = unfold emod in residue_mod in
        rw
          (
            encrypt_residue n (n_pos n big) m x lt,
            decrypt_residue key recovering.is_key m x lt undone,
            gamma_negative n big m,
            found,
            *ℤ-one (pos (residue n m x)),
            reduced,
            exp-pos n (pos (v ^ n % n)) j,
            value,
          )
          refl
