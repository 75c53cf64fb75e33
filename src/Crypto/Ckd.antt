-- ===== src/Crypto/Ckd.antt =====
-- crypto/ckd/child_key_derivation.go: keys that are derived from a public key, without hardening. The
-- functions HMAC-SHA512 and RIPEMD160 of SHA-256 are parameters.
pub mod Derivation
use mpc_lib.Prelude.{
  ℕ, zero, suc, ◌+◌, ◌*◌, ◌-◌, ◌/◌, ◌%◌, ◌^◌, ℤ, pos, nat_abs, bytes, set_bytes, ltb, Bool, true,
  false, not, ◌&&◌, ◌||◌, List, [], ◌∷◌, ◌++◌, length, take, drop, replicate, ◌==◌, ◌==ℤ◌,
  if◌then◌else◌,
}
use mpc_lib.Prelude.Result.{Result, ok, err, panic, ◌>>=◌, ◌>>◌, guard}
use mpc_lib.Common.ModInt
use mpc_lib.Crypto.Curve.{Curve, Coords}
use mpc_lib.Crypto.Point.{EcPoint, new_ec_point, scalar_base_mult, add}

pub record ExtendedKey : Type 0 where
  pub public_key : Coords
  pub depth : ℕ
  pub child_index : ℕ
  pub chain_code : List ℕ
  pub parent_fp : List ℕ
  pub version : List ℕ

-- 2^31.
abbrev pub hardened_key_start : ℕ
hardened_key_start = 2147483648

abbrev pub max_depth : ℕ
max_depth = 255

unfoldable pub padded_bytes : ℕ → List ℕ → List ℕ
padded_bytes size src =
    if ltb (length src) size then replicate (size - length src) 0 ++ src else src

-- The format, 2 or 3 by the last bit of y, before the bytes of x.
unfoldable pub serialize_compressed : ℤ → ℤ → List ℕ
unfolding padded_bytes
serialize_compressed x y = (2 + nat_abs y % 2) ∷ padded_bytes 32 (bytes (nat_abs x))

-- `binary.BigEndian.PutUint32`.
unfoldable pub put_uint32 : ℕ → List ℕ
put_uint32 n = n / 2 ^ 24 % 256 ∷ n / 2 ^ 16 % 256 ∷ n / 2 ^ 8 % 256 ∷ n % 256 ∷ []

-- The 37 bytes that are hashed: the index is written over what stands behind the first 33.
unfoldable pub hashed_data : Coords → ℕ → List ℕ
unfolding serialize_compressed put_uint32
hashed_data xy index = take 33 (serialize_compressed (xy.0) (xy.1)) ++ put_uint32 index

-- `x.Sign() == 0 || y.Sign() == 0`.
unfoldable pub has_zero : Coords → Bool
has_zero xy = (xy.0 ==ℤ pos 0) || (xy.1 ==ℤ pos 0)

module _ (hmac512 : List ℕ → List ℕ → List ℕ) (hash160 : List ℕ → List ℕ) where
  -- The key at a point, with what was hashed.
  unfoldable pub child_of : ℕ → ExtendedKey → List ℕ → Coords → ExtendedKey
  unfolding serialize_compressed
  child_of index pk child_chain_code xy = record {
    public_key = xy;
    depth = pk.depth + 1;
    child_index = index;
    chain_code = child_chain_code;
    parent_fp = take 4 (hash160 (serialize_compressed (pk.public_key.0) (pk.public_key.1)));
    version = pk.version;
  }

  -- "I left" and the derived key.
  unfoldable pub derive_child_key : ℕ → ExtendedKey → Curve → Result (ℕ × ExtendedKey)
  unfolding hashed_data has_zero child_of
  derive_child_key index pk curve = do
    guard (ltb index hardened_key_start) "the index must be non-hardened"
    guard (not (pk.depth == max_depth)) "cannot derive key beyond max depth"
    crypto_pk ← new_ec_point curve pk.public_key
    let ilr = hmac512 pk.chain_code (hashed_data pk.public_key index)
    let il_num = set_bytes (take 32 ilr)
    guard (ltb il_num curve.n && not (il_num == 0)) "invalid derived key"
    delta_g ← scalar_base_mult curve (pos il_num)
    guard (not (has_zero delta_g.coords)) "invalid child"
    child_crypto_pk ← add crypto_pk delta_g
    ok (il_num, child_of index pk (drop 32 ilr) child_crypto_pk.coords)

  -- The loop over the indices: the sum of what was added so far, and the key.
  unfoldable pub derive_from : ℕ → Curve → List ℕ → ℤ → ExtendedKey → Result (ℤ × ExtendedKey)
  unfolding derive_child_key
  derive_from modulus curve [] il_num k = ok (il_num, k)
  derive_from modulus curve (index ∷ indices) il_num k = do
    (il, child_key) ← derive_child_key index k curve
    derive_from modulus curve indices (ModInt.add modulus (pos il) il_num) child_key

  unfoldable pub derive_child_key_from_hierarchy :
      List ℕ → ExtendedKey → ℕ → Curve → Result (ℤ × ExtendedKey)
  unfolding derive_from
  derive_child_key_from_hierarchy indices pk modulus curve =
      derive_from modulus curve indices (pos 0) pk
