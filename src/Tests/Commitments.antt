-- ===== src/Tests/Commitments.antt =====
-- Commitments and their parts.
use mpc_lib.Prelude.{
  ℕ, ◌^◌, ◌-◌, ◌≤◌, ℤ, pos, nat_abs, true, some, List, [], ◌∷◌, map, length, bytes, set_bytes, ◌≡◌,
  ◌≢◌, refl, arith,
}
use mpc_lib.Prelude.Result
use mpc_lib.Common.Hash.{hash_input, int_bytes, sha512_256i}
use mpc_lib.Common.Hash.Injective.{hash_input-injective, HasShortInts}
use mpc_lib.Crypto.Commitments.{
  Builder, secrets, parse_secrets, ok, panic, no_fuel, HasSmallParts, parts_cap,
}
use mpc_lib.Crypto.Commitments.RoundTrip.{parse_secrets-secrets, without_empty_last}
use mpc_lib.Crypto.Commitments.Safety.{
  parse_secrets-ne-no_fuel, parse_secrets_bounds, parse_secrets-ne-panic, parse_secrets-panic,
}
use mpc_lib.Crypto.Commitments.Hashed.{
  new_hash_commitment_with_randomness, compare_hash, verify, de_commit,
}
use mpc_lib.Crypto.Commitments.Binding.{de_commit-new_hash_commitment, verify_binding}
use mpc_lib.Tests.Toy.{sum, sum_bytes}

abbrev two_parts : Builder
two_parts = record { parts = (pos 7 ∷ pos 8 ∷ []) ∷ (pos 9 ∷ []) ∷ [] }

abbrev written : List ℤ
written = pos 2 ∷ pos 7 ∷ pos 8 ∷ pos 1 ∷ pos 9 ∷ []

two_parts-written : secrets two_parts ≡ ok written
unfolding secrets
two_parts-written = refl

written_read : parse_secrets written ≡ ok two_parts.parts
unfolding parse_secrets
written_read = refl

parse_secrets-secrets_example : parse_secrets written ≡ ok (without_empty_last two_parts.parts)
parse_secrets-secrets_example =
    parse_secrets-secrets two_parts written two_parts-written (omega arith)

parse_secrets-ne-no_fuel_example : parse_secrets written ≢ no_fuel
parse_secrets-ne-no_fuel_example = parse_secrets-ne-no_fuel written

parse_secrets_bounds_example :
    (2 ≤ length written) × (length two_parts.parts ≤ parts_cap) × HasSmallParts two_parts.parts
parse_secrets_bounds_example = parse_secrets_bounds written two_parts.parts written_read

parse_secrets-ne-panic_example : parse_secrets written ≢ panic
parse_secrets-ne-panic_example =
    parse_secrets-ne-panic written
      (omega arith, (omega arith, (omega arith, (omega arith, (omega arith, tt)))))

parse_secrets-panic_example : parse_secrets (pos (2 ^ 64 - 1) ∷ pos 7 ∷ []) ≡ panic
parse_secrets-panic_example = parse_secrets-panic 0 (pos (2 ^ 64 - 1)) (pos 7) [] refl

de_commit-new_hash_commitment_example :
    de_commit sum (new_hash_commitment_with_randomness sum (pos 3) written)
    ≡ Result.ok (some written)
de_commit-new_hash_commitment_example = de_commit-new_hash_commitment sum (pos 3) written

abbrev five : List ℤ
five = pos 5 ∷ []

abbrev six : List ℤ
six = pos 6 ∷ []

abbrev digest : ℕ
digest = set_bytes (sum [])

five_verified : verify sum (record { c = some digest; d = some five }) ≡ Result.ok true
unfolding verify compare_hash sha512_256i set_bytes
five_verified = refl

six_verified : verify sum (record { c = some digest; d = some six }) ≡ Result.ok true
unfolding verify compare_hash sha512_256i set_bytes
six_verified = refl

five_short : HasShortInts five
unfolding bytes
five_short = (omega arith, (omega arith, tt))

six_short : HasShortInts six
unfolding bytes
six_short = (omega arith, (omega arith, tt))

five_not_six : map nat_abs five ≢ map nat_abs six
five_not_six e = absurd (ground arith)

verify_binding_example :
    (hash_input (map int_bytes five) ≢ hash_input (map int_bytes six))
    × (sum (hash_input (map int_bytes five)) ≡ sum (hash_input (map int_bytes six)))
verify_binding_example =
    verify_binding sum sum_bytes (some digest) five six five_short six_short five_verified
      six_verified five_not_six

five_hashes : sha512_256i sum five ≡ sha512_256i sum six
unfolding sha512_256i
five_hashes = refl

abbrev blocks : List (List ℕ)
blocks = (1 ∷ 2 ∷ []) ∷ []

hash_input-injective_example : blocks ≡ blocks
hash_input-injective_example =
    hash_input-injective blocks blocks (omega arith) (omega arith) (omega arith, tt)
      (omega arith, tt) refl
