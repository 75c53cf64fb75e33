-- ===== src/Tests/Ckd.antt =====
-- A key of the toy group that is derived through two indices.
use mpc_lib.Prelude.{ℕ, emod, ◌+ℤ◌, ◌+◌, ◌≡◌, refl, pos, bytes, set_bytes, List, [], ◌∷◌, length}
use mpc_lib.Common.ModInt
use mpc_lib.Crypto.Point
use mpc_lib.Crypto.Point.{new_ec_point, scalar_base_mult}
use mpc_lib.Crypto.Ckd.{ExtendedKey, derive_child_key_from_hierarchy}
use mpc_lib.Crypto.Ckd.Derivation.{derive_child_key_from_hierarchy_lem}
use mpc_lib.Tests.Toy.{curve, group, point}

abbrev two_always : List ℕ → List ℕ → List ℕ
two_always key input = 2 ∷ []

abbrev no_hash : List ℕ → List ℕ
no_hash bz = []

abbrev parent : ExtendedKey
parent = record {
  public_key = point 1;
  depth = 0;
  child_index = 0;
  chain_code = [];
  parent_fp = [];
  version = [];
}

abbrev grandchild : ExtendedKey
grandchild = record {
  public_key = point 5;
  depth = 2;
  child_index = 7;
  chain_code = [];
  parent_fp = [];
  version = [];
}

derive_child_key_from_hierarchy_lem_example :
    (t : ℕ) × (pos 4 ≡ pos t)
    × (grandchild.public_key ≡ group.point (1 + t))
    × (grandchild.depth ≡ parent.depth + length {A = ℕ} (3 ∷ 7 ∷ []))
unfolding derive_child_key_from_hierarchy new_ec_point set_bytes scalar_base_mult bytes Point.add
    ModInt.add emod ◌+ℤ◌
derive_child_key_from_hierarchy_lem_example =
    derive_child_key_from_hierarchy_lem two_always no_hash curve group (3 ∷ 7 ∷ []) 1 parent
      grandchild (pos 4) refl refl
