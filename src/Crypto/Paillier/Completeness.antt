-- ===== src/Crypto/Paillier/Completeness.antt =====
-- The challenges of a Paillier proof, and the proof of a key that is one.
use mpc_lib.Prelude.{
  ℕ, zero, suc, ◌+◌, ◌*◌, ◌/◌, ◌%◌, ◌^◌, ◌<◌, ◌≡◌, refl, ◌∙◌, arith, ℤ, pos, emod, bytes, nat_abs,
  set_bytes, Bool-cases, inl, inr, true, Option, some, none, List, [], ◌∷◌, length, ==_iff,
}
use mpc_lib.Prelude.Result.{Result, ok, err, panic, ◌>>=◌}
use native.Mathlib.Nat.{mod-mod, mod-eq_of_lt}
use mpc_lib.Common.ModInt.Powers.{exp-pos}
use mpc_lib.Common.ModInt.Inverses.{mod_inverse-unit, power-root, one_more}
use mpc_lib.Crypto.Point.{EcPoint}
use mpc_lib.Crypto.Paillier.{PrivateKey}
use mpc_lib.Crypto.Paillier.Proof.{
  proof_iters, is_number_in_multiplicative_group, challenge_blocks, generate_from, generate_xs,
  prove_each, proof, verify_each, has_no_divisor, verify, verify_challenges, bit_len,
}

-- Each number is in the multiplicative group.
abbrev pub HasUnits : ℕ → List ℕ → Type 0
HasUnits n [] = Unit
HasUnits n (x ∷ xs) = (is_number_in_multiplicative_group n x ≡ true) × HasUnits n xs

-- A challenge that is kept, in front of the others.
keep-HasUnits :
    (n left x : ℕ) (xs : List ℕ) (rest : Option (Result (List ℕ)))
    → is_number_in_multiplicative_group n x ≡ true
    → ((ys : List ℕ) → rest ≡ some (ok ys) → HasUnits n ys × (length ys ≡ left))
    → (elim rest [ none ↦ none | some r ↦ some (do ys ← r; ok (x ∷ ys)) ]) ≡ some (ok xs)
    → HasUnits n xs × (length xs ≡ suc left)
keep-HasUnits n left x xs none unit later e = absurd (ground arith)
keep-HasUnits n left x xs (some panic) unit later e = absurd (ground arith)
keep-HasUnits n left x xs (some (err text)) unit later e = absurd (ground arith)
keep-HasUnits n left x xs (some (ok ys)) unit later e =
    let (units, count) = later ys refl in ground (arith, units, count, unit)

module _ (sum : List ℕ → List ℕ) (modulus blocks : ℕ) (inputs : List (List ℕ)) where
  generate_from-HasUnits :
      (fuel left i n : ℕ) (xs : List ℕ)
      → generate_from sum modulus blocks inputs fuel left i n ≡ some (ok xs)
      → HasUnits modulus xs × (length xs ≡ left)
  unfolding generate_from
  generate_from-HasUnits fuel zero i n xs e = ground arith
  generate_from-HasUnits zero (suc left) i n xs e = absurd (ground arith)
  generate_from-HasUnits (suc fuel) (suc left) i n xs e =
      step (generate_from-HasUnits fuel left (i + 1) n)
        (generate_from-HasUnits fuel (suc left) i (n + 1) xs)
        (challenge_blocks sum i n inputs blocks 0) refl
    where
      step :
          ((ys : List ℕ)
            → generate_from sum modulus blocks inputs fuel left (i + 1) n ≡ some (ok ys)
            → HasUnits modulus ys × (length ys ≡ left))
          → (generate_from sum modulus blocks inputs fuel (suc left) i (n + 1) ≡ some (ok xs)
              → HasUnits modulus xs × (length xs ≡ suc left))
          → (o : Result (List ℕ)) → challenge_blocks sum i n inputs blocks 0 ≡ o
          → HasUnits modulus xs × (length xs ≡ suc left)
      step later again panic q = absurd (ground arith)
      step later again (err text) q = absurd (ground arith)
      step later again (ok xi) q =
          elim (Bool-cases (is_number_in_multiplicative_group modulus (set_bytes xi))) [
            | inl unit ↦
                keep-HasUnits modulus left (set_bytes xi) xs _ unit later
                  (rw (generate_from, q, unit) at e)
            | inr other ↦ again (rw (generate_from, q, other) at e)
          ]

module _ (sum : List ℕ → List ℕ) where
  -- The challenges are as many as asked for, and each is in [1, N) and prime to N.
  pub generate_xs-HasUnits :
      (fuel m : ℕ) (k : ℤ) (n : ℕ) (ecdsa_pub : EcPoint) (xs : List ℕ)
      → generate_xs sum fuel m k (pos n) ecdsa_pub ≡ some (ok xs)
      → HasUnits n xs × (length xs ≡ m)
  unfolding generate_xs
  generate_xs-HasUnits fuel m k n ecdsa_pub xs e =
      generate_from-HasUnits sum n ((bit_len n + 255) / 256)
        (bytes (nat_abs k)
          ∷ bytes (nat_abs (ecdsa_pub.coords.0))
          ∷ bytes (nat_abs (ecdsa_pub.coords.1))
          ∷ bytes n
          ∷ [])
        fuel m 0 0 xs e

-- A key of which N is prime to phi, and phi is an exponent of the multiplicative group: for the
-- product of two primes this is Euler's theorem.
pub record IsProvable (key : PrivateKey) : Type 0 where
  pub large : 1 < key.public_key.n
  pub phi_large : 1 < key.phi_n
  pub n_inverse : ℕ
  pub n_inverts : key.public_key.n * n_inverse % key.phi_n ≡ 1
  pub euler :
      (v : ℕ)
      → is_number_in_multiplicative_group key.public_key.n v ≡ true
      → v ^ key.phi_n % key.public_key.n ≡ 1

module _ (key : PrivateKey) (provable : IsProvable key) where
  abbrev n : ℕ
  n = key.public_key.n

  unit-lt : (v : ℕ) → is_number_in_multiplicative_group n v ≡ true → v < n
  unfolding is_number_in_multiplicative_group
  unit-lt v h = ground arith

  prove_each-verify_each :
      (xs : List ℕ)
      → HasUnits n xs
      → (ys : List ℤ) × (prove_each key xs ≡ ok ys) × (verify_each n ys xs ≡ ok true)
  unfolding prove_each verify_each emod
  prove_each-verify_each [] units = ([], refl, refl)
  prove_each-verify_each (x ∷ xs) (unit, units) =
      let (ys, made, checked) = prove_each-verify_each xs units in
      let (j, found, inverts) =
        mod_inverse-unit key.phi_n provable.phi_large n provable.n_inverse provable.n_inverts in
      let lt = unit-lt x unit in
      let swapped : j * n ≡ n * j = omega arith in
      let root : (x ^ j % n) ^ n % n ≡ x =
        power-root n provable.large x key.phi_n j n _ lt (provable.euler x unit)
          (swapped ∙ one_more (n * j) key.phi_n inverts) in
      let y = pos (x ^ j % n) in
      let small : x % n ≡ x = mod-eq_of_lt lt in
      (
        y ∷ ys,
        rw (found, exp-pos n (pos x) j, small, made) refl,
        rw (exp-pos n y n, mod-mod (x ^ j) n, root, small, (==_iff x x).1 refl) checked,
      )

  -- The proof of a key of which N is prime to phi, and phi an exponent of the multiplicative group,
  -- is accepted, where the challenges are found and none of the primes divides N.
  pub proof-verify :
      (sum : List ℕ → List ℕ) (primes : List ℕ) (fuel : ℕ) (k : ℤ) (ecdsa_pub : EcPoint)
      (xs : List ℕ)
      → has_no_divisor n primes ≡ true
      → generate_xs sum fuel proof_iters k (pos n) ecdsa_pub ≡ some (ok xs)
      → (ys : List ℤ) × (proof sum key fuel k ecdsa_pub ≡ some (ok ys))
        × (verify sum primes ys fuel n k ecdsa_pub ≡ some (ok true))
  unfolding proof verify verify_challenges
  proof-verify sum primes fuel k ecdsa_pub xs free e =
      let (units, count) = generate_xs-HasUnits sum fuel proof_iters k n ecdsa_pub xs e in
      let (ys, made, checked) = prove_each-verify_each xs units in
      (ys, rw (e, made) refl, rw (free, e, (==_iff (length xs) proof_iters).1 count, checked) refl)
