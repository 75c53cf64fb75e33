-- ===== src/Crypto/Paillier/Proof.antt =====
-- crypto/paillier/paillier.go: the proof that N is prime to its phi, with its challenges. The two
-- goroutines of `Verify` are taken in the order in which the test of the divisors answers first.

use mpc_lib.Prelude.{
  ℕ, zero, suc, ◌+◌, ◌/◌, ◌%◌, ℤ, pos, emod, gcd, nat_abs, bytes, set_bytes, ltb, leb, Bool, true,
  false, not, ◌&&◌, Option, none, some, List, [], ◌∷◌, ◌++◌, length, ◌==◌, if◌then◌else◌,
}
use mpc_lib.Prelude.Result.{Result, ok, err, panic, ◌>>=◌}
use mpc_lib.Common.Hash.{sha512_256}
use mpc_lib.Common.ModInt.{exp, mod_inverse}
use mpc_lib.Crypto.Point.{EcPoint}
use mpc_lib.Crypto.Paillier.{PrivateKey, or_panic}

abbrev pub proof_iters : ℕ
proof_iters = 13

-- `BitLen`: the count of halvings until nothing is left. The number itself is enough as their count.
bits_from : ℕ → ℕ → ℕ
bits_from zero n = 0
bits_from (suc fuel) n = let rest = bits_from fuel (n / 2) in if n == 0 then 0 else rest + 1

unfoldable pub bit_len : ℕ → ℕ
unfolding bits_from
bit_len n = bits_from n n

-- `IsNumberInMultiplicativeGroup`, on numbers that are not nil.
unfoldable pub is_number_in_multiplicative_group : ℕ → ℕ → Bool
unfolding gcd
is_number_in_multiplicative_group n v = not (n == 0) && (ltb v n && (leb 1 v && gcd v n == 1))

-- `strconv.Itoa`, which the standard library documents as the decimal digits.
digits_onto : ℕ → ℕ → List ℕ → List ℕ
digits_onto zero n rest = rest
digits_onto (suc fuel) n rest =
    let longer = digits_onto fuel (n / 10) ((48 + n % 10) ∷ rest) in
    if n / 10 == 0 then (48 + n % 10) ∷ rest else longer

unfoldable pub itoa : ℕ → List ℕ
unfolding digits_onto
itoa n = digits_onto (n + 1) n []

-- The powers of the challenges by the inverse of N modulo phi.
unfoldable pub prove_each : PrivateKey → List ℕ → Result (List ℤ)
prove_each private_key [] = ok []
prove_each private_key (x ∷ xs) = do
  m ← or_panic (mod_inverse private_key.phi_n (pos private_key.public_key.n))
  y ← or_panic (exp private_key.public_key.n (pos x) m)
  ys ← prove_each private_key xs
  ok (y ∷ ys)

module _ (sum : List ℕ → List ℕ) where
  -- The blocks of one challenge, from block j on: `left` of them.
  unfoldable pub challenge_blocks :
      (i n : ℕ) (inputs : List (List ℕ)) (left j : ℕ) → Result (List ℕ)
  unfolding sha512_256 itoa
  challenge_blocks i n inputs zero j = ok []
  challenge_blocks i n inputs (suc left) j = do
    rx ← elim (sha512_256 sum (itoa i ∷ itoa j ∷ itoa n ∷ inputs)) [ none ↦ panic | some d ↦ ok d ]
    rest ← challenge_blocks i n inputs left (j + 1)
    ok (rx ++ rest)

  -- Both counters: `i` of the challenges that are there, `n` of the numbers that were no units. The
  -- loop has no bound in the code, so `fuel` counts its rounds; `none` is a loop that goes on.
  unfoldable pub generate_from :
      (modulus blocks : ℕ) (inputs : List (List ℕ)) (fuel left i n : ℕ) → Option (Result (List ℕ))
  unfolding challenge_blocks is_number_in_multiplicative_group
  generate_from modulus blocks inputs fuel zero i n = some (ok [])
  generate_from modulus blocks inputs zero (suc left) i n = none
  generate_from modulus blocks inputs (suc fuel) (suc left) i n =
      let kept = generate_from modulus blocks inputs fuel left (i + 1) n in
      let dropped = generate_from modulus blocks inputs fuel (suc left) i (n + 1) in
      elim (challenge_blocks i n inputs blocks 0) [
        | panic ↦ some panic
        | err e ↦ some (err e)
        | ok xi ↦
            if is_number_in_multiplicative_group modulus (set_bytes xi)
            then (elim kept [ none ↦ none | some r ↦ some (do xs ← r; ok (set_bytes xi ∷ xs)) ])
            else dropped
      ]

  unfoldable pub generate_xs :
      (fuel m : ℕ) (k modulus : ℤ) (ecdsa_pub : EcPoint) → Option (Result (List ℕ))
  unfolding generate_from bit_len
  generate_xs fuel m k modulus ecdsa_pub =
      let inputs =
        bytes (nat_abs k)
        ∷ bytes (nat_abs (ecdsa_pub.coords.0))
        ∷ bytes (nat_abs (ecdsa_pub.coords.1))
        ∷ bytes (nat_abs modulus)
        ∷ [] in
      generate_from (nat_abs modulus) ((bit_len (nat_abs modulus) + 255) / 256) inputs fuel m 0 0

  unfoldable pub proof : PrivateKey → ℕ → ℤ → EcPoint → Option (Result (List ℤ))
  unfolding generate_xs prove_each
  proof private_key fuel k ecdsa_pub =
      elim (generate_xs fuel proof_iters k (pos private_key.public_key.n) ecdsa_pub) [
        | none ↦ none
        | some xs ↦ some (do cs ← xs; prove_each private_key cs)
      ]

-- Whether no prime of the list divides N.
unfoldable pub has_no_divisor : ℕ → List ℕ → Bool
has_no_divisor n [] = true
has_no_divisor n (prm ∷ prms) = if n % prm == 0 then false else has_no_divisor n prms

-- The N-th power of each element of the proof is the challenge.
unfoldable pub verify_each : ℕ → List ℤ → List ℕ → Result Bool
verify_each n pf [] = ok true
verify_each n [] (x ∷ xs) = panic
verify_each n (y ∷ pf) (x ∷ xs) = do
  yi_exp_n ← or_panic (exp n y (pos n))
  if emod (pos x) n == nat_abs yi_exp_n then verify_each n pf xs else ok false

module _ (sum : List ℕ → List ℕ) (primes : List ℕ) where
  unfoldable pub verify_challenges : ℕ → List ℤ → Result (List ℕ) → Result Bool
  unfolding verify_each
  verify_challenges n pf panic = panic
  verify_challenges n pf (err e) = err e
  verify_challenges n pf (ok xs) =
      if length xs == proof_iters
      then verify_each n pf xs
      else err "paillier proof verify: another count of xs"

  unfoldable pub verify : List ℤ → ℕ → ℕ → ℤ → EcPoint → Option (Result Bool)
  unfolding generate_xs verify_challenges has_no_divisor
  verify pf fuel n k ecdsa_pub =
      if has_no_divisor n primes
      then (elim (generate_xs sum fuel proof_iters k (pos n) ecdsa_pub) [
        | none ↦ none
        | some xs ↦ some (verify_challenges n pf xs)
      ])
      else some (ok false)
