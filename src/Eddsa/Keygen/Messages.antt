-- ===== src/Eddsa/Keygen/Messages.antt =====
-- eddsa/keygen/messages.go: the messages of the protocol and how they are written and read. A numeric
-- field is a byte string; a nil one is empty.
use mpc_lib.Prelude.{
  ℕ, ℤ, pos, nat_abs, Bool, true, false, none, some, List, [], ◌∷◌, map, bytes, set_bytes,
}
use mpc_lib.Prelude.Result.{Result, ok, ◌>>=◌}
use mpc_lib.Common.Slice.{
  big_ints_to_bytes, multi_bytes_to_big_ints, non_empty_bytes, non_empty_multi_bytes,
}
use mpc_lib.Crypto.Curve.{Curve}
use mpc_lib.Crypto.Point.{new_ec_point}
use mpc_lib.Crypto.Schnorr.{ZkProof}
use mpc_lib.Crypto.Vss.{Share}
use mpc_lib.Tss.PartyId.{PartyId}
use mpc_lib.Tss.Message.{MessageRouting, MessageImpl, new_message_wrapper, new_message}

-- `other` is a content of another protocol, with the result of its own test.
pub data Content : Type 0 where
  kg_round1_message : List ℕ → Content
  kg_round2_message1 : List ℕ → Content
  kg_round2_message2 : List (List ℕ) → List ℕ → List ℕ → List ℕ → Content
  other : Bool → Content

abbrev pub Msg : Type 0
Msg = MessageImpl Content

unfoldable pub validate_basic : Content → Bool
unfolding non_empty_bytes non_empty_multi_bytes
validate_basic (kg_round1_message commitment) = non_empty_bytes commitment
validate_basic (kg_round2_message1 share) = non_empty_bytes share
validate_basic (kg_round2_message2 de_commitment x y t) = non_empty_multi_bytes de_commitment none
validate_basic (other valid) = valid

unfoldable pub broadcast_routing : PartyId → MessageRouting
broadcast_routing from = record {
  from = some from;
  to = none;
  is_broadcast = true;
  is_to_old_committee = false;
  is_to_old_and_new_committees = false;
}

unfoldable pub new_kg_round1_message : PartyId → ℕ → Msg
unfolding new_message_wrapper broadcast_routing
new_kg_round1_message from ct =
    let meta = broadcast_routing from in
    new_message meta (some (kg_round1_message (bytes ct))) (new_message_wrapper meta)

unfoldable pub new_kg_round2_message1 : PartyId → PartyId → Share → Msg
unfolding new_message_wrapper
new_kg_round2_message1 to from share =
    let meta : MessageRouting = record {
      from = some from;
      to = some (to ∷ []);
      is_broadcast = false;
      is_to_old_committee = false;
      is_to_old_and_new_committees = false;
    } in
    new_message meta (some (kg_round2_message1 (bytes (nat_abs share.share))))
      (new_message_wrapper meta)

unfoldable pub new_kg_round2_message2 : PartyId → List ℤ → ZkProof → Msg
unfolding new_message_wrapper broadcast_routing
new_kg_round2_message2 from de_commitment proof =
    let meta = broadcast_routing from in
    new_message meta
      (some (
        kg_round2_message2 (big_ints_to_bytes (map some de_commitment))
          (bytes (nat_abs proof.alpha.coords.0)) (bytes (nat_abs proof.alpha.coords.1))
          (bytes (nat_abs proof.t))))
      (new_message_wrapper meta)

unfoldable pub unmarshal_de_commitment : List (List ℕ) → List ℤ
unfolding multi_bytes_to_big_ints
unmarshal_de_commitment bzs = multi_bytes_to_big_ints bzs

unfoldable pub unmarshal_zk_proof : Curve → List ℕ → List ℕ → List ℕ → Result ZkProof
unmarshal_zk_proof ec x y t = do
  point ← new_ec_point ec (pos (set_bytes x), pos (set_bytes y))
  ok (record { alpha = point; t = pos (set_bytes t) })
