-- ===== src/Crypto/Paillier.antt =====
-- crypto/paillier/paillier.go: Paillier keys, encryption, and the operations on ciphertexts. N is a
-- positive number. The random numbers are arguments, and `panic` is the use of a nil number.
pub mod Ciphertext
pub mod Homomorphic
pub mod Decryption
pub mod Circuits
pub mod Recovery
pub mod Proof
pub mod Completeness
pub mod Randomness
use Prim.Native.String.{String}
use mpc_lib.Prelude.{
  ℕ, ◌+◌, ◌-◌, ◌*◌, ◌/◌, ℤ, pos, negsuc, neg_ℤ, ◌-ℤ◌, ◌*ℤ◌, ltb, ltb_ℤ, emod, ediv, gcd, nat_abs,
  Bool, not, ◌||◌, Option, none, some, List, [], ◌∷◌, if◌then◌else◌,
}
use mpc_lib.Prelude.Result.{Result, ok, err, panic, ◌>>=◌}
use mpc_lib.Common.ModInt.{mul, exp, mod_inverse}

pub record PublicKey : Type 0 where
  pub n : ℕ

pub record PrivateKey : Type 0 where
  pub public_key : PublicKey
  pub lambda_n : ℕ
  pub phi_n : ℕ
  pub p : ℕ
  pub q : ℕ

abbrev pub message_too_long : String
message_too_long = "the message is too large or < 0"

abbrev pub message_mal_formed : String
message_mal_formed = "the message is mal-formed"

-- A nil result that the caller goes on to use.
abbrev pub or_panic : Option ℤ → Result ℤ
or_panic none = panic
or_panic (some x) = ok x

-- The end of `GenerateKeyPair`, for the two primes that it has found.
unfoldable pub key_pair : ℕ → ℕ → PrivateKey
key_pair p q =
    let phi_n = (p - 1) * (q - 1) in
    record {
      public_key = record { n = p * q };
      lambda_n = phi_n / gcd (p - 1) (q - 1);
      phi_n = phi_n;
      p = p;
      q = q;
    }

unfoldable pub n_square : PublicKey → ℕ
n_square public_key = public_key.n * public_key.n

unfoldable pub gamma : PublicKey → ℕ
gamma public_key = public_key.n + 1

unfoldable pub as_ints : PublicKey → List ℤ
unfolding gamma
as_ints public_key = pos public_key.n ∷ pos (gamma public_key) ∷ []

-- `x < 0 || x >= bound`.
unfoldable pub is_outside : ℤ → ℕ → Bool
is_outside x bound = ltb_ℤ x (pos 0) || not (ltb_ℤ x (pos bound))

unfoldable pub encrypt_with_randomness_no_err_chk : PublicKey → ℤ → ℤ → Result ℤ
unfolding n_square gamma
encrypt_with_randomness_no_err_chk public_key m x = do
  gm ← or_panic (exp (n_square public_key) (pos (gamma public_key)) m)
  xn ← or_panic (exp (n_square public_key) x (pos public_key.n))
  ok (mul (n_square public_key) gm xn)

unfoldable pub encrypt_with_randomness : PublicKey → ℤ → ℤ → Result ℤ
unfolding is_outside encrypt_with_randomness_no_err_chk
encrypt_with_randomness public_key m x =
    if is_outside m public_key.n
    then err message_too_long
    else encrypt_with_randomness_no_err_chk public_key m x

-- `x` is the number that was drawn.
unfoldable pub encrypt_and_return_randomness : PublicKey → ℤ → ℤ → Result (ℤ × ℤ)
unfolding encrypt_with_randomness
encrypt_and_return_randomness public_key m x = do
  c ← encrypt_with_randomness public_key m x
  ok (c, x)

unfoldable pub homo_mult : PublicKey → ℤ → ℤ → Result ℤ
unfolding is_outside n_square
homo_mult public_key m c1 =
    if is_outside m public_key.n
    then err message_too_long
    else if is_outside c1 (n_square public_key)
    then err message_too_long
    else or_panic (exp (n_square public_key) c1 m)

unfoldable pub homo_mult_and_return_randomness : PublicKey → ℤ → ℤ → ℤ → Result (ℤ × ℤ)
unfolding homo_mult n_square
homo_mult_and_return_randomness public_key m c1 x = do
  ciphertext ← homo_mult public_key m c1
  xn ← or_panic (exp (n_square public_key) x (pos public_key.n))
  ok (mul (n_square public_key) ciphertext xn, x)

-- nil, without an error, where there is no inverse.
unfoldable pub homo_mult_inv : PublicKey → ℤ → Result (Option ℤ)
unfolding is_outside n_square
homo_mult_inv public_key c1 =
    if is_outside c1 (n_square public_key)
    then err message_too_long
    else ok (exp (n_square public_key) c1 (negsuc 0))

unfoldable pub homo_add : PublicKey → ℤ → ℤ → Result ℤ
unfolding is_outside n_square
homo_add public_key c1 c2 =
    if is_outside c1 (n_square public_key)
    then err message_too_long
    else if is_outside c2 (n_square public_key)
    then err message_too_long
    else ok (mul (n_square public_key) c1 c2)

unfoldable pub homo_add_int : PublicKey → ℤ → ℤ → Result ℤ
unfolding is_outside encrypt_with_randomness homo_add
homo_add_int public_key m c1 =
    if is_outside m public_key.n
    then err message_too_long
    else (do c2 ← encrypt_with_randomness public_key m (pos 1); homo_add public_key c1 c2)

-- `L`: (u - 1) / N.
unfoldable pub l : ℤ → ℕ → ℤ
l u n = ediv (u -ℤ pos 1) n

unfoldable pub decrypt : PrivateKey → ℤ → Result ℤ
unfolding is_outside n_square gamma l gcd
decrypt private_key c =
    let n = private_key.public_key.n in
    let n2 = n_square private_key.public_key in
    if is_outside c n2
    then err message_too_long
    else if ltb 1 (gcd (nat_abs c) n2)
    then err message_mal_formed
    else (do
      u ← or_panic (exp n2 c (pos private_key.lambda_n))
      g ← or_panic (exp n2 (pos (gamma private_key.public_key)) (pos private_key.lambda_n))
      inv ← or_panic (mod_inverse n (l g n))
      ok (mul n (l u n) inv))

-- The message with the random number that it was encrypted with.
unfoldable pub decrypt_full : PrivateKey → ℤ → Result (ℤ × ℤ)
unfolding decrypt gamma
decrypt_full private_key c = do
  let n = private_key.public_key.n
  m ← decrypt private_key c
  gamma_exp_neg_m ← or_panic (exp n (pos (gamma private_key.public_key)) (neg_ℤ m))
  n_inv ← or_panic (mod_inverse private_key.lambda_n (pos n))
  rho ← or_panic (exp n (pos (emod (c *ℤ gamma_exp_neg_m) n)) n_inv)
  ok (m, rho)
