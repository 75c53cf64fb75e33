-- ===== src/Common/Hash.antt =====
-- common/hash.go: what the hash functions feed to SHA-512/256. The hash itself is a parameter.
pub mod Injective
use mpc_lib.Prelude.{
  ℕ, ℤ, pos, Bool, Option, none, some, List, [], ◌∷◌, ◌++◌, map, length, nat_abs, bytes, set_bytes,
  put_uint64,
}

-- The byte '$'.
abbrev pub hash_input_delimiter : ℕ
hash_input_delimiter = 36

-- Each block, the delimiter, and the length of the block.
unfoldable pub block_bytes : List (List ℕ) → List ℕ
unfolding put_uint64
block_bytes [] = []
block_bytes (bz ∷ blocks) =
    (bz ++ (hash_input_delimiter ∷ put_uint64 (length bz))) ++ block_bytes blocks

-- The count of the blocks stands before them.
unfoldable pub hash_input : List (List ℕ) → List ℕ
unfolding block_bytes
hash_input blocks = put_uint64 (length blocks) ++ block_bytes blocks

-- `n.Bytes()` gives the absolute value.
abbrev pub int_bytes : ℤ → List ℕ
int_bytes n = bytes (nat_abs n)

-- A missing number counts as zero.
abbrev pub int_bytes? : Option ℤ → List ℕ
int_bytes? none = int_bytes (pos 0)
int_bytes? (some n) = int_bytes n

-- `sum` is `crypto.SHA512_256`: the digest of all that was written. `none` is a nil result.
module _ (sum : List ℕ → List ℕ) where
  unfoldable pub sha512_256 : List (List ℕ) → Option (List ℕ)
  unfolding hash_input
  sha512_256 [] = none
  sha512_256 (bz ∷ blocks) = some (sum (hash_input (bz ∷ blocks)))

  unfoldable pub sha512_256i : List ℤ → Option ℕ
  unfolding hash_input
  sha512_256i [] = none
  sha512_256i (n ∷ ns) = some (set_bytes (sum (hash_input (map int_bytes (n ∷ ns)))))

  -- The tag's digest is written twice before the input. (The call with one block is never nil.)
  unfoldable pub sha512_256i_tagged : List ℕ → List (Option ℤ) → Option ℕ
  unfolding hash_input
  sha512_256i_tagged tag [] = none
  sha512_256i_tagged tag (n ∷ ns) =
      let tag_bz = sum (hash_input (tag ∷ [])) in
      some (set_bytes (sum (tag_bz ++ (tag_bz ++ hash_input (map int_bytes? (n ∷ ns))))))

  unfoldable pub sha512_256i_one : Option ℤ → Option ℕ
  sha512_256i_one none = none
  sha512_256i_one (some n) = some (set_bytes (sum (int_bytes n)))
