-- ===== src/Tests/Signing.antt =====
-- Encodings, and the additive share of a signer over the group of order 5.
use mpc_lib.Prelude.{
  ℕ, ◌≤◌, ℤ, pos, ◌*ℤ◌, ◌-ℤ◌, List, [], ◌∷◌, length, map, bytes, set_bytes, emod, AreCongruent,
  congruent_of_eq, ◌≡◌, refl, arith,
}
use mpc_lib.Prelude.Result.{ok, nth}
use mpc_lib.Common.ModInt.{mul, mod_inverse, inverse_from}
use mpc_lib.Crypto.Vss.{lagrange_from}
use mpc_lib.Eddsa.Signing.Prepare.{prepare_for_signing}
use mpc_lib.Eddsa.Signing.Additive.{prepare_for_signing_lem}
use mpc_lib.Crypto.Point.{EcPoint, scalar_mult}
use mpc_lib.Crypto.Point.Group.{at}
use mpc_lib.Ecdsa.Signing.Prepare.{prepare_shares}
use mpc_lib.Ecdsa.Signing.PublicShare.{prepare_shares_lem}
use mpc_lib.Tests.Toy.{curve, group}

short : length (bytes 258) ≤ 32
unfolding bytes
short = omega arith

abbrev two_keys : List ℤ
two_keys = pos 1 ∷ pos 2 ∷ []

prepared : prepare_for_signing curve 0 2 (pos 2) two_keys ≡ ok (pos 4)
unfolding prepare_for_signing mul mod_inverse inverse_from emod ◌*ℤ◌ ◌-ℤ◌
prepared = refl

prepare_for_signing_lem_example :
    (ki : ℤ) × (t : ℤ) × (nth two_keys 0 ≡ ok ki)
    × (lagrange_from 5 0 ki 0 (pos 1) two_keys ≡ ok t)
    × AreCongruent 5 (pos 4) (pos 2 *ℤ t)
prepare_for_signing_lem_example =
    prepare_for_signing_lem curve 0 2 (pos 2) (pos 4) two_keys (omega arith) prepared

abbrev public_shares : List EcPoint
public_shares = map (at curve group) (2 ∷ 3 ∷ [])

shared :
    prepare_shares curve 0 2 (pos 2) two_keys public_shares
    ≡ ok (pos 4, at curve group 4 ∷ at curve group 12 ∷ [])
unfolding prepare_shares prepare_for_signing mul mod_inverse inverse_from emod ◌*ℤ◌ ◌-ℤ◌ scalar_mult
    bytes set_bytes
shared = refl

prepare_shares_lem_example :
    (y : ℕ) × (nth (at curve group 4 ∷ at curve group 12 ∷ []) 0 ≡ ok (at curve group y))
    × AreCongruent 5 (pos 4) (pos y)
prepare_shares_lem_example =
    prepare_shares_lem curve group 0 2 2 (pos 2) (pos 4) two_keys (2 ∷ 3 ∷ [])
      (at curve group 4 ∷ at curve group 12 ∷ []) refl (congruent_of_eq 5 refl) shared
