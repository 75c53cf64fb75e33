-- ===== src/Tests/Curves.antt =====
-- Shares and proofs over the group of order 5.
use mpc_lib.Prelude.{pos, true, [], ◌∷◌, map, bytes, set_bytes, ◌*ℤ◌, emod, ◌↔◌, ◌≡◌, refl, arith}
use mpc_lib.Prelude.Result.{ok}
use mpc_lib.Crypto.Point.{equals}
use mpc_lib.Crypto.Point.Group.{at}
use mpc_lib.Crypto.Vss
use mpc_lib.Crypto.Vss.{evaluate_polynomial, check_indexes, create}
use mpc_lib.Crypto.Vss.Shares.{commitments}
use mpc_lib.Crypto.Vss.Indexes.{AreDistinct, check_indexes_iff}
use mpc_lib.Crypto.Vss.Create.{dealt, AreVerified, create-verify}
use mpc_lib.Crypto.Schnorr.{ZkProof, ZkvProof, new_zk_proof, verify, new_zkv_proof, verify_v}
use mpc_lib.Crypto.Schnorr.Completeness.{new_zk_proof-verify}
use mpc_lib.Crypto.Schnorr.TwoScalars.{new_zkv_proof-verify_v}
use mpc_lib.Tests.Toy.{sum, curve, group}

share_accepted :
    Vss.verify curve 1
      (commitments curve group 3 (4 ∷ []))
      (record { threshold = 1; id = pos 2; share = pos 1 })
    ≡ ok true
unfolding Vss.verify equals set_bytes bytes emod ◌*ℤ◌
share_accepted = refl

check_indexes_iff_example :
    (check_indexes curve (pos 1 ∷ pos 2 ∷ []) ≡ ok (pos 1 ∷ pos 2 ∷ []))
    ↔ AreDistinct 5 [] (pos 1 ∷ pos 2 ∷ [])
check_indexes_iff_example = check_indexes_iff curve (pos 1 ∷ pos 2 ∷ [])

indexes_distinct : AreDistinct 5 [] (pos 1 ∷ pos 2 ∷ [])
unfolding check_indexes emod
indexes_distinct = check_indexes_iff_example.0 refl

create-verify_example :
    (create curve 1 (pos 3) (pos 4 ∷ []) (pos 1 ∷ pos 2 ∷ [])
      ≡ ok (
        at curve group 3 ∷ at curve group 4 ∷ [],
        map (dealt curve group refl 3 4 []) (pos 1 ∷ pos 2 ∷ []),
      ))
    × AreVerified curve 1
        (at curve group 3 ∷ at curve group 4 ∷ [])
        (map (dealt curve group refl 3 4 []) (pos 1 ∷ pos 2 ∷ []))
create-verify_example =
    create-verify curve group refl 3 4 [] (pos 1 ∷ pos 2 ∷ []) indexes_distinct (omega arith)

new_zk_proof-verify_example :
    (pf : ZkProof) × (new_zk_proof sum (9 ∷ []) (pos 3) (at curve group 3) (pos 2) ≡ ok pf)
    × (verify sum (9 ∷ []) (at curve group 3) pf ≡ ok true)
new_zk_proof-verify_example = new_zk_proof-verify sum curve group refl (9 ∷ []) 3 2

new_zkv_proof-verify_v_example :
    (pf : ZkvProof) × (new_zkv_proof sum
        (9 ∷ [])
        (at curve group 4)
        (at curve group 2)
        (pos 3)
        (pos 3)
        (pos 1)
        (pos 2)
      ≡ ok pf)
    × (verify_v sum (9 ∷ []) (at curve group 4) (at curve group 2) pf ≡ ok true)
new_zkv_proof-verify_v_example =
    new_zkv_proof-verify_v sum curve group refl (9 ∷ []) 4 2 3 3 1 2 refl
