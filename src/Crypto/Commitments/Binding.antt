-- ===== src/Crypto/Commitments/Binding.antt =====
-- What the commitments by a hash promise.
use mpc_lib.Prelude.{
  ℕ, ℤ, true, Option, none, some, List, [], ◌∷◌, map, length, nat_abs, HasBytes, ◌≡◌, ◌≢◌, sym, ◌∙◌,
  arith,
}
use mpc_lib.Prelude.Result.{ok}
use mpc_lib.Common.Hash.{sha512_256i, hash_input, int_bytes}
use mpc_lib.Common.Hash.Injective.{HasShortInts, sha512_256i-collision}
use mpc_lib.Crypto.Commitments.Hashed.{new_hash_commitment_with_randomness, verify, de_commit}

module _ (sum : List ℕ → List ℕ) where
  -- A commitment opens to the secrets that it was made of, whatever the random number.
  pub de_commit-new_hash_commitment :
      (r : ℤ) (secrets : List ℤ)
      → de_commit sum (new_hash_commitment_with_randomness sum r secrets) ≡ ok (some secrets)
  unfolding de_commit new_hash_commitment_with_randomness sha512_256i
  de_commit-new_hash_commitment r secrets = ground arith

  verified_hash :
      (c : Option ℕ) (d : List ℤ)
      → verify sum (record { c = c; d = some d }) ≡ ok true
      → (d ≢ []) × (sha512_256i sum d ≡ c)
  unfolding verify sha512_256i
  verified_hash none d h = absurd (cc)
  verified_hash (some c) [] h = absurd (cc)
  verified_hash (some c) (n ∷ ns) h = (λ e. cc, ground arith)

  -- Where digests are 32 bytes, two openings of one commitment whose numbers differ in absolute value
  -- are a collision of SHA-512/256: their hash inputs differ and the digests agree.
  pub verify_binding :
      ((m : List ℕ) → (length (sum m) ≡ 32) × HasBytes (sum m))
      → (c : Option ℕ) (d d' : List ℤ) → HasShortInts d
      → HasShortInts d'
      → verify sum (record { c = c; d = some d }) ≡ ok true
      → verify sum (record { c = c; d = some d' }) ≡ ok true
      → map nat_abs d ≢ map nat_abs d'
      → (hash_input (map int_bytes d) ≢ hash_input (map int_bytes d'))
        × (sum (hash_input (map int_bytes d)) ≡ sum (hash_input (map int_bytes d')))
  verify_binding digest c d d' h h' v v' differ =
      let (some_input, e) = verified_hash c d v in
      let (_, e') = verified_hash c d' v' in
      sha512_256i-collision sum digest d d' h h' some_input differ (e ∙ sym e')
