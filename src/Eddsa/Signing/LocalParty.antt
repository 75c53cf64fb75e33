-- ===== src/Eddsa/Signing/LocalParty.antt =====
-- eddsa/signing/local_party.go: the party of the signing protocol that `BaseStart` and `BaseUpdate` run.
use mpc_lib.Prelude.{
  ℕ, ℤ, pos, ◌-ℤ◌, ltb_ℤ, Bool, true, false, not, Option, none, some, List, [], ◌∷◌, length,
  if◌then◌else◌,
}
use mpc_lib.Prelude.Result.{Result, ok, panic, ◌>>=◌, put, to_index}
use mpc_lib.Tss.PartyId
use mpc_lib.Tss.PartyId.{PartyId}
use mpc_lib.Tss.Message.{Error, get_from}
use mpc_lib.Tss.Party.{
  Step, done, failed, crashed, Party, base_start, base_update, base_validate_message,
}
use mpc_lib.Eddsa.Signing.Edwards.{Edwards25519}
use mpc_lib.Eddsa.Signing.Messages.{
  Content, sign_round1_message, sign_round2_message, sign_round3_message, Msg, validate_basic,
}
use mpc_lib.Eddsa.Signing.State.{
  TempData, Kind, round1, round2, round3, finalization, Round, LocalParty, first_round,
  can_proceed_round, wrap_error,
}
use mpc_lib.Eddsa.Signing.Rounds.{
  Randomness, or_fail, prepare, start_round1, start_round2, update_kind,
}
use mpc_lib.Eddsa.Signing.Round3.{start_round3}
use mpc_lib.Eddsa.Signing.Finalize.{start_finalization}

-- The tests of the sender, before those of `BaseParty.ValidateMessage`.
unfoldable pub validate_sender : LocalParty → Option PartyId → Option Error
unfolding PartyId.validate_basic
validate_sender p none = some (wrap_error p "received msg with an invalid sender" [])
validate_sender p (some from) =
    if not (PartyId.validate_basic (some from))
    then some (wrap_error p "received msg with an invalid sender" [])
    else if ltb_ℤ (pos (length p.params.parties) -ℤ pos 1) from.index
    then some (wrap_error p "received msg with a sender index too great" (from ∷ []))
    else none

unfoldable pub validate_rest : LocalParty → Msg → Option Error → Option Error
unfolding base_validate_message
validate_rest p msg (some e) = some e
validate_rest p msg none = base_validate_message (wrap_error p) validate_basic msg

unfoldable pub validate_message : LocalParty → Msg → Option Error
unfolding validate_sender validate_rest
validate_message p msg = validate_rest p msg (validate_sender p (get_from msg))

unfoldable pub from_index : Option PartyId → Result ℕ
from_index none = panic
from_index (some from) = to_index from.index

-- The array for a content, with the message written at a place; `none` for one of another protocol.
unfoldable pub write_content : TempData → Msg → Option Content → ℕ → Option (Result TempData)
write_content t msg (some (sign_round1_message c)) i = some (do
  msgs ← put t.sign_round1_messages i (some msg)
  ok (record t { sign_round1_messages = msgs }))
write_content t msg (some (sign_round2_message d x y z)) i = some (do
  msgs ← put t.sign_round2_messages i (some msg)
  ok (record t { sign_round2_messages = msgs }))
write_content t msg (some (sign_round3_message s)) i = some (do
  msgs ← put t.sign_round3_messages i (some msg)
  ok (record t { sign_round3_messages = msgs }))
write_content t msg _ i = none

unfoldable pub finish_store : LocalParty → Option (Result TempData) → Step LocalParty
finish_store p none = done p false
finish_store p (some r) = or_fail p [] r (λ t. done (record p { temp = t }) true)

unfoldable pub store_checked : LocalParty → Msg → Option Error → Step LocalParty
unfolding from_index write_content finish_store
store_checked p msg (some e) = failed p e
store_checked p msg none =
    or_fail p [] (from_index (get_from msg))
      (λ i. finish_store p (write_content p.temp msg msg.content i))

unfoldable pub store_message : LocalParty → Msg → Step LocalParty
unfolding validate_message store_checked
store_message p msg = store_checked p msg (validate_message p msg)

-- `p.rnd != nil`.
unfoldable pub is_set : Option Round → Bool
is_set none = false
is_set (some r) = true

unfoldable pub update_set : Option Round → LocalParty → Step LocalParty
unfolding update_kind
update_set none p = crashed
update_set (some r) p = update_kind r.kind p r

unfoldable pub update_round : LocalParty → Step LocalParty
unfolding update_set
update_round p = update_set p.rnd p

unfoldable pub can_proceed_set : Option Round → Bool
unfolding can_proceed_round
can_proceed_set none = false
can_proceed_set (some r) = can_proceed_round r

unfoldable pub can_proceed : LocalParty → Bool
unfolding can_proceed_set
can_proceed p = can_proceed_set p.rnd

-- `NextRound` of the rounds.
unfoldable pub next_kind : Kind → Round → Option Round
next_kind round1 r = some (record r { kind = round2; started = false })
next_kind round2 r = some (record r { kind = round3; started = false })
next_kind round3 r = some (record r { kind = finalization; started = false })
next_kind finalization r = none

unfoldable pub advance_set : Option Round → LocalParty → LocalParty
unfolding next_kind
advance_set none p = p
advance_set (some r) p = record p { rnd = next_kind r.kind r }

unfoldable pub advance : LocalParty → LocalParty
unfolding advance_set
advance p = advance_set p.rnd p

module _ (sum : List ℕ → List ℕ) (eight_inv : ℤ) (ed : Edwards25519) (rand : Randomness) where
  unfoldable pub start_kind : Kind → LocalParty → Round → Step LocalParty
  unfolding start_round1 start_round2 start_round3 start_finalization
  start_kind round1 p r = start_round1 sum rand p r
  start_kind round2 p r = start_round2 sum rand p r
  start_kind round3 p r = start_round3 sum eight_inv ed rand p r
  start_kind finalization p r = start_finalization ed p r

  unfoldable pub start_set : Option Round → LocalParty → Step LocalParty
  unfolding start_kind
  start_set none p = crashed
  start_set (some r) p =
      if r.started
      then failed p (wrap_error p "round already started" [])
      else start_kind r.kind p r

  unfoldable pub start_round : LocalParty → Step LocalParty
  unfolding start_set
  start_round p = start_set p.rnd p

  -- The methods that the shared life cycle calls.
  abbrev pub party : Party LocalParty Msg
  party = record {
    party_id = λ p. some p.params.party_id;
    validate_message = validate_message;
    store_message = store_message;
    has_round = λ p. is_set p.rnd;
    set_first_round = first_round;
    start_round = start_round;
    update_round = update_round;
    can_proceed = can_proceed;
    advance = advance;
    wrap_error = wrap_error;
  }

  unfoldable pub start : LocalParty → Step LocalParty
  unfolding base_start prepare start_round is_set first_round
  start p = base_start party (prepare ∷ []) p

  -- Four rounds can be entered at most, so six calls are enough.
  unfoldable pub update : LocalParty → Msg → Option (Step LocalParty)
  unfolding base_update
  update p msg = base_update party 6 msg p
