-- ===== src/Crypto/Paillier/Homomorphic.antt =====
-- The operations on ciphertexts, against the operations on messages modulo N that they stand for.
use mpc_lib.Prelude.{
  ℕ, ◌+◌, ◌*◌, ◌%◌, ◌^◌, ◌<◌, ◌≡◌, refl, sym, ap, ◌∙◌, arith, ℤ, pos, ◌*ℤ◌, *ℤ-one, emod,
}
use mpc_lib.Prelude.Result.{ok, ◌>>=◌}
use native.Mathlib.Nat.{mod-mod, mod-lt}
use mpc_lib.Common.ModInt.Powers.{mul-mod_congr, mul-pow, pow-mul, pow-mod, exp-pos, mul-pos}
use mpc_lib.Crypto.Paillier.{
  PublicKey, encrypt_with_randomness, n_square, homo_add, homo_mult, homo_add_int,
}
use mpc_lib.Crypto.Paillier.Ciphertext.{
  residue, residue-mul, residue-lt, encrypt_residue, encrypt_no_err_chk_lem, inside, raised_residue,
  raised_power,
}

-- A power of a ciphertext.
pub residue-pow :
    (n a k : ℕ) (x : ℤ)
    → residue n a x ^ k % (n * n) ≡ residue n (k * a % n) (pos (emod x (n * n) ^ k))
unfolding emod
residue-pow n a k x =
    let u = emod x (n * n) in
    let messages : (1 + a * n) ^ k % (n * n) ≡ (1 + k * a % n * n) % (n * n) =
      raised_power n a k
      ∙ ap (λ (t : ℕ). (1 + t * n) % (n * n)) (omega arith)
      ∙ sym (raised_residue n (k * a)) in
    let swapped : (u ^ n) ^ k ≡ (u ^ k) ^ n =
      sym (pow-mul u n k) ∙ ap (λ (t : ℕ). u ^ t) (omega arith) ∙ pow-mul u k n in
    let randoms : (u ^ n) ^ k % (n * n) ≡ (u ^ k % (n * n)) ^ n % (n * n) =
      ap (λ (t : ℕ). t % (n * n)) swapped ∙ sym (pow-mod (u ^ k) n (n * n)) in
    pow-mod ((1 + a * n) * u ^ n) k (n * n)
    ∙ ap (λ (t : ℕ). t % (n * n)) (mul-pow (1 + a * n) (u ^ n) k)
    ∙ mul-mod_congr _ _ _ _ (n * n) messages randoms

module _ (n : ℕ) (h : 0 < n) where
  abbrev key : PublicKey
  key = record { n = n }

  -- Adding two residues of messages.
  pub homo_add_residue :
      (a b : ℕ) (x y : ℤ)
      → homo_add key (pos (residue n a x)) (pos (residue n b y))
        ≡ ok (pos (residue n ((a + b) % n) (x *ℤ y)))
  unfolding homo_add n_square
  homo_add_residue a b x y =
      rw
        (
          inside n h (residue n a x) (n * n) (residue-lt n h a x),
          inside n h (residue n b y) (n * n) (residue-lt n h b y),
          mul-pos,
          residue-mul n h a b x y,
        )
        refl

  pub homo_mult_residue :
      (k a : ℕ) (x : ℤ)
      → k < n
      → homo_mult key (pos k) (pos (residue n a x))
        ≡ ok (pos (residue n (k * a % n) (pos (emod x (n * n) ^ k))))
  unfolding homo_mult n_square emod
  homo_mult_residue k a x lt =
      rw
        (
          inside n h k n lt,
          inside n h (residue n a x) (n * n) (residue-lt n h a x),
          exp-pos (n * n) (pos (residue n a x)) k,
          mod-mod ((1 + a * n) * emod x (n * n) ^ n) (n * n),
          residue-pow n a k x,
        )
        refl

  -- `HomoAdd` of two encryptions encrypts the sum of the messages modulo N, with the product of the
  -- random numbers.
  homo_add-encrypt :
      (a b : ℕ) (x y : ℤ)
      → a < n
      → b < n
      → (do
        c1 ← encrypt_with_randomness key (pos a) x
        c2 ← encrypt_with_randomness key (pos b) y
        homo_add key c1 c2)
        ≡ encrypt_with_randomness key (pos ((a + b) % n)) (x *ℤ y)
  homo_add-encrypt a b x y la lb =
      rw
        (
          encrypt_residue n h a x la,
          encrypt_residue n h b y lb,
          encrypt_residue n h ((a + b) % n) (x *ℤ y) (mod-lt _ h),
        )
        (homo_add_residue a b x y)

  -- `HomoMult` of an encryption by k encrypts k times the message modulo N, with the random number
  -- to the power k.
  homo_mult-encrypt :
      (k a : ℕ) (x : ℤ)
      → k < n
      → a < n
      → (do c ← encrypt_with_randomness key (pos a) x; homo_mult key (pos k) c)
        ≡ encrypt_with_randomness key (pos (k * a % n)) (pos (emod x (n * n) ^ k))
  homo_mult-encrypt k a x lk la =
      rw
        (
          encrypt_residue n h a x la,
          encrypt_residue n h (k * a % n) (pos (emod x (n * n) ^ k)) (mod-lt _ h),
        )
        (homo_mult_residue k a x lk)

  -- `HomoAddInt` of an encryption encrypts the sum with the number modulo N, with the same random
  -- number.
  homo_add_int-encrypt :
      (m a : ℕ) (x : ℤ)
      → m < n
      → a < n
      → (do c ← encrypt_with_randomness key (pos a) x; homo_add_int key (pos m) c)
        ≡ encrypt_with_randomness key (pos ((a + m) % n)) x
  unfolding homo_add_int
  homo_add_int-encrypt m a x lm la =
      rw
        (
          encrypt_residue n h a x la,
          inside n h m n lm,
          encrypt_no_err_chk_lem n h m (pos 1),
          homo_add_residue a m x (pos 1),
          *ℤ-one x,
          encrypt_residue n h ((a + m) % n) x (mod-lt _ h),
        )
        refl
