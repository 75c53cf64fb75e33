-- ===== src/Crypto/Paillier/Circuits.antt =====
-- Computations on ciphertexts, against the same computations on messages modulo N.
use mpc_lib.Prelude.{
  ℕ, ◌+◌, ◌*◌, ◌%◌, ◌^◌, ◌<◌, ◌≡◌, sym, ap, ◌∙◌, arith, ℤ, pos, ◌*ℤ◌, emod, emod-*ℤ,
}
use mpc_lib.Prelude.Result.{Result, ok, ◌>>=◌}
use native.Mathlib.Nat.{mod-lt, mod-eq_of_lt}
use mpc_lib.Common.ModInt.Powers.{mul-mod_congr, mul-pow, pow-mul, pow-mod, one-pow, pow-mod_congr}
use mpc_lib.Crypto.Paillier.{
  PublicKey, PrivateKey, encrypt_with_randomness, homo_add, homo_mult, homo_add_int, decrypt,
}
use mpc_lib.Crypto.Paillier.Ciphertext.{residue, encrypt_residue, encrypt_no_err_chk_lem, inside}
use mpc_lib.Crypto.Paillier.Homomorphic.{homo_add_residue, homo_mult_residue}
use mpc_lib.Crypto.Paillier.Decryption.{IsKey, IsUndone, decrypt_residue}

-- A computation: messages with their random numbers, sums, multiples by a number, and sums with a
-- number.
pub data Circuit : Type 0 where
  input : ℕ → ℤ → Circuit
  sum : Circuit → Circuit → Circuit
  multiple : ℕ → Circuit → Circuit
  shifted : ℕ → Circuit → Circuit

-- The computation on messages.
abbrev pub message_of : ℕ → Circuit → ℕ
message_of n (input m x) = m
message_of n (sum s t) = (message_of n s + message_of n t) % n
message_of n (multiple k s) = k * message_of n s % n
message_of n (shifted k s) = (message_of n s + k) % n

-- The computation on ciphertexts.
abbrev pub ciphertext_of : PublicKey → Circuit → Result ℤ
ciphertext_of key (input m x) = encrypt_with_randomness key (pos m) x
ciphertext_of key (sum s t) = do
  c1 ← ciphertext_of key s
  c2 ← ciphertext_of key t
  homo_add key c1 c2
ciphertext_of key (multiple k s) = do c ← ciphertext_of key s; homo_mult key (pos k) c
ciphertext_of key (shifted k s) = do c ← ciphertext_of key s; homo_add_int key (pos k) c

-- The numbers are in [0, N), and the key undoes each random number.
abbrev pub IsInRange : PrivateKey → Circuit → Type 0
IsInRange key (input m x) = (m < key.public_key.n) × IsUndone key x
IsInRange key (sum s t) = IsInRange key s × IsInRange key t
IsInRange key (multiple k s) = (k < key.public_key.n) × IsInRange key s
IsInRange key (shifted k s) = (k < key.public_key.n) × IsInRange key s

module _ (key : PrivateKey) (is_key : IsKey key) where
  abbrev n : ℕ
  n = key.public_key.n

  h : 0 < n
  h = omega (arith, is_key.large)

  square_big : 1 < n * n
  square_big = grind (arith, is_key.large)

  -- A ciphertext of a message that decryption gives back.
  pub record Encrypts (c : Result ℤ) (m : ℕ) : Type 0 where
    pub random : ℤ
    pub undone : IsUndone key random
    pub small : m < n
    pub same : c ≡ ok (pos (residue n m random))

  one_square : 1 % (n * n) ≡ 1
  one_square = mod-eq_of_lt square_big

  -- Random numbers that are undone have a product that is undone.
  pub IsUndone-*ℤ : (x y : ℤ) → IsUndone key x → IsUndone key y → IsUndone key (x *ℤ y)
  IsUndone-*ℤ x y p q =
      let e = n * key.lambda_n in
      let u = emod x (n * n) in
      let v = emod y (n * n) in
      ap (λ (t : ℕ). t ^ e % (n * n)) (emod-*ℤ x y (n * n) (omega (arith, square_big)))
      ∙ pow-mod (u * v) e (n * n)
      ∙ ap (λ (t : ℕ). t % (n * n)) (mul-pow u v e)
      ∙ mul-mod_congr (u ^ e) 1 (v ^ e) 1 (n * n) (p ∙ sym one_square) (q ∙ sym one_square)
      ∙ one_square

  pub IsUndone-pow : (x : ℤ) (k : ℕ) → IsUndone key x → IsUndone key (pos (emod x (n * n) ^ k))
  unfolding emod
  IsUndone-pow x k p =
      let e = n * key.lambda_n in
      let u = emod x (n * n) in
      let swapped : (u ^ k) ^ e ≡ (u ^ e) ^ k =
        sym (pow-mul u k e) ∙ ap (λ (t : ℕ). u ^ t) (omega arith) ∙ pow-mul u e k in
      pow-mod (u ^ k) e (n * n)
      ∙ ap (λ (t : ℕ). t % (n * n)) swapped
      ∙ pow-mod_congr (u ^ e) 1 k (n * n) (p ∙ sym one_square)
      ∙ ap (λ (t : ℕ). t % (n * n)) (one-pow k)
      ∙ one_square

  IsUndone-one : IsUndone key (pos 1)
  unfolding emod
  IsUndone-one = rw (one_square, one-pow (n * key.lambda_n)) one_square

  pub ciphertext_of-Encrypts :
      (s : Circuit) → IsInRange key s → Encrypts (ciphertext_of key.public_key s) (message_of n s)
  unfolding homo_add_int
  ciphertext_of-Encrypts (input m x) (small, undone) = record {
    random = x;
    undone = undone;
    small = small;
    same = encrypt_residue n h m x small;
  }
  ciphertext_of-Encrypts (sum s t) (p, q) =
      let a = ciphertext_of-Encrypts s p in
      let b = ciphertext_of-Encrypts t q in
      record {
        random = a.random *ℤ b.random;
        undone = IsUndone-*ℤ a.random b.random a.undone b.undone;
        small = mod-lt _ h;
        same =
            rw (a.same, b.same)
              (homo_add_residue n h (message_of n s) (message_of n t) a.random b.random);
      }
  ciphertext_of-Encrypts (multiple k s) (small, p) =
      let a = ciphertext_of-Encrypts s p in
      record {
        random = pos (emod a.random (n * n) ^ k);
        undone = IsUndone-pow a.random k a.undone;
        small = mod-lt _ h;
        same = rw a.same (homo_mult_residue n h k (message_of n s) a.random small);
      }
  ciphertext_of-Encrypts (shifted k s) (small, p) =
      let a = ciphertext_of-Encrypts s p in
      record {
        random = a.random *ℤ pos 1;
        undone = IsUndone-*ℤ a.random (pos 1) a.undone IsUndone-one;
        small = mod-lt _ h;
        same =
            rw (a.same, inside n h k n small, encrypt_no_err_chk_lem n h k (pos 1))
              (homo_add_residue n h (message_of n s) k a.random (pos 1));
      }

  -- A computation on ciphertexts, by `EncryptWithRandomness`, `HomoAdd`, `HomoMult` and `HomoAddInt`,
  -- succeeds and decrypts to the result of the same computation on messages modulo N, where the
  -- numbers are in [0, N) and the key undoes each random number.
  pub decrypt-ciphertext_of :
      (s : Circuit)
      → IsInRange key s
      → (do c ← ciphertext_of key.public_key s; decrypt key c) ≡ ok (pos (message_of n s))
  decrypt-ciphertext_of s p =
      let a = ciphertext_of-Encrypts s p in
      rw a.same (decrypt_residue key is_key (message_of n s) a.random a.small a.undone)
