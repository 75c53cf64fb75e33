-- ===== src/Crypto/Commitments/Hashed.antt =====
-- crypto/commitments/commitment.go: commitments by a hash. `sum` is SHA-512/256.
use mpc_lib.Prelude.{ℕ, ℤ, Bool, false, Option, none, some, List, [], ◌∷◌, ◌==◌, if◌then◌else◌}
use mpc_lib.Prelude.Result.{Result, ok, panic, ◌>>=◌}
use mpc_lib.Common.Hash.{sha512_256i}

-- `none` is a nil commitment or a nil slice.
pub record HashCommitDecommit : Type 0 where
  pub c : Option ℕ
  pub d : Option (List ℤ)

module _ (sum : List ℕ → List ℕ) where
  unfoldable pub new_hash_commitment_with_randomness : ℤ → List ℤ → HashCommitDecommit
  new_hash_commitment_with_randomness r secrets = record {
    c = sha512_256i sum (r ∷ secrets);
    d = some (r ∷ secrets);
  }

  -- `hash.Cmp(C)`: the hash of no numbers is nil, and the call on it panics.
  unfoldable pub compare_hash : Option ℕ → ℕ → Result Bool
  compare_hash none c = panic
  compare_hash (some hash) c = ok (hash == c)

  pub verify_parts : Option ℕ → Option (List ℤ) → Result Bool
  unfolding compare_hash
  verify_parts none d = ok false
  verify_parts (some c) none = ok false
  verify_parts (some c) (some d) = compare_hash (sha512_256i sum d) c

  unfoldable pub verify : HashCommitDecommit → Result Bool
  unfolding verify_parts
  verify cmt = verify_parts cmt.c cmt.d

  -- `D[1:]`; a commitment that is verified has a number to skip.
  pub skip_random : Option (List ℤ) → Result (Option (List ℤ))
  skip_random none = panic
  skip_random (some []) = panic
  skip_random (some (r ∷ secrets)) = ok (some secrets)

  -- `none` stands for (false, nil).
  unfoldable pub de_commit : HashCommitDecommit → Result (Option (List ℤ))
  unfolding verify skip_random
  de_commit cmt = do verified ← verify cmt; if verified then skip_random cmt.d else ok none
