-- ===== src/Eddsa/Signing/Messages.antt =====
-- eddsa/signing/messages.go: the messages of the protocol and how they are written and read. All of
-- them are broadcast.
use mpc_lib.Prelude.{ℕ, ℤ, pos, nat_abs, Bool, ◌&&◌, some, List, map, bytes, set_bytes}
use mpc_lib.Prelude.Result.{Result, ok, ◌>>=◌}
use mpc_lib.Common.Slice.{
  big_ints_to_bytes, multi_bytes_to_big_ints, non_empty_bytes, non_empty_multi_bytes,
}
use mpc_lib.Crypto.Curve.{Curve}
use mpc_lib.Crypto.Point.{new_ec_point}
use mpc_lib.Crypto.Schnorr.{ZkProof}
use mpc_lib.Tss.PartyId.{PartyId}
use mpc_lib.Tss.Message.{MessageImpl, new_message_wrapper, new_message}
use mpc_lib.Eddsa.Keygen.Messages.{broadcast_routing}

-- `other` is a content of another protocol, with the result of its own test.
pub data Content : Type 0 where
  sign_round1_message : (commitment : List ℕ) → Content
  sign_round2_message :
      (de_commitment : List (List ℕ)) (proof_alpha_x proof_alpha_y proof_t : List ℕ) → Content
  sign_round3_message : (s : List ℕ) → Content
  other : Bool → Content

abbrev pub Msg : Type 0
Msg = MessageImpl Content

unfoldable pub validate_basic : Content → Bool
unfolding non_empty_bytes non_empty_multi_bytes
validate_basic (sign_round1_message commitment) = non_empty_bytes commitment
validate_basic (sign_round2_message de_commitment x y t) =
    non_empty_multi_bytes de_commitment (some 3)
    && (non_empty_bytes x && (non_empty_bytes y && non_empty_bytes t))
validate_basic (sign_round3_message s) = non_empty_bytes s
validate_basic (other valid) = valid

unfoldable pub broadcast : PartyId → Content → Msg
unfolding new_message_wrapper broadcast_routing
broadcast from content =
    let meta = broadcast_routing from in new_message meta (some content) (new_message_wrapper meta)

unfoldable pub new_sign_round1_message : PartyId → ℕ → Msg
unfolding broadcast
new_sign_round1_message from commitment = broadcast from (sign_round1_message (bytes commitment))

unfoldable pub new_sign_round2_message : PartyId → List ℤ → ZkProof → Msg
unfolding broadcast
new_sign_round2_message from de_commitment proof = broadcast from (
    sign_round2_message (big_ints_to_bytes (map some de_commitment))
      (bytes (nat_abs proof.alpha.coords.0)) (bytes (nat_abs proof.alpha.coords.1))
      (bytes (nat_abs proof.t)))

unfoldable pub new_sign_round3_message : PartyId → ℕ → Msg
unfolding broadcast
new_sign_round3_message from si = broadcast from (sign_round3_message (bytes si))

unfoldable pub unmarshal_de_commitment : List (List ℕ) → List ℤ
unfolding multi_bytes_to_big_ints
unmarshal_de_commitment bzs = multi_bytes_to_big_ints bzs

unfoldable pub unmarshal_zk_proof : Curve → List ℕ → List ℕ → List ℕ → Result ZkProof
unmarshal_zk_proof ec x y t = do
  point ← new_ec_point ec (pos (set_bytes x), pos (set_bytes y))
  ok (record { alpha = point; t = pos (set_bytes t) })
