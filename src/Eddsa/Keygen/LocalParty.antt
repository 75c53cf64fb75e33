-- ===== src/Eddsa/Keygen/LocalParty.antt =====
-- eddsa/keygen/local_party.go: the party that `BaseStart` and `BaseUpdate` run.
use mpc_lib.Prelude.{
  ℕ, ℤ, pos, ◌-ℤ◌, ltb_ℤ, Bool, true, false, not, Option, none, some, List, [], if◌then◌else◌,
}
use mpc_lib.Prelude.Result.{Result, ok, err, panic, put, to_index}
use mpc_lib.Tss.PartyId.{PartyId}
use mpc_lib.Tss.Message.{Error, get_from}
use mpc_lib.Tss.Party.{
  Step, done, failed, crashed, Party, base_start, base_update, base_validate_message, culprits_of,
}
use mpc_lib.Eddsa.Keygen.Messages.{
  Content, kg_round1_message, kg_round2_message1, kg_round2_message2, other, Msg, validate_basic,
}
use mpc_lib.Eddsa.Keygen.State.{
  TempData, SaveData, Kind, round1, round2, round3, Round, LocalParty, first_round,
  can_proceed_round, wrap_error, index_from,
}
use mpc_lib.Eddsa.Keygen.Rounds.{Randomness, start_round1, start_round2, update_kind}
use mpc_lib.Eddsa.Keygen.Round3.{start_round3}

-- The sender's index must fit into the arrays; the sender is there by the test before.
unfoldable pub index_fits : ℕ → Option PartyId → Bool
index_fits party_count none = false
index_fits party_count (some from) = not (ltb_ℤ (pos party_count -ℤ pos 1) from.index)

unfoldable pub validate_index : LocalParty → Msg → Option Error → Option Error
unfolding index_fits
validate_index p msg (some e) = some e
validate_index p msg none =
    if index_fits p.params.party_count (get_from msg)
    then none
    else some
        (wrap_error p "received msg with a sender index too great" (culprits_of (get_from msg)))

unfoldable pub validate_message : LocalParty → Msg → Option Error
unfolding validate_index base_validate_message
validate_message p msg =
    validate_index p msg (base_validate_message (wrap_error p) validate_basic msg)

unfoldable pub from_index : Option PartyId → Result ℕ
from_index none = panic
from_index (some from) = to_index from.index

-- A write into one of the three arrays.
unfoldable pub write_slot :
    LocalParty → (List (Option Msg) → TempData) → Result (List (Option Msg)) → Step LocalParty
write_slot p into (ok msgs) = done (record p { temp = into msgs }) true
write_slot p into (err e) = crashed
write_slot p into panic = crashed

-- The `switch` on the type of the content.
unfoldable pub store_content : LocalParty → Msg → Option Content → ℕ → Step LocalParty
unfolding write_slot
store_content p msg none i = done p false
store_content p msg (some (kg_round1_message c)) i =
    write_slot p (λ m. record p.temp { kg_round1_messages = m })
      (put p.temp.kg_round1_messages i (some msg))
store_content p msg (some (kg_round2_message1 s)) i =
    write_slot p (λ m. record p.temp { kg_round2_message1s = m })
      (put p.temp.kg_round2_message1s i (some msg))
store_content p msg (some (kg_round2_message2 d x y t)) i =
    write_slot p (λ m. record p.temp { kg_round2_message2s = m })
      (put p.temp.kg_round2_message2s i (some msg))
store_content p msg (some (other v)) i = done p false

unfoldable pub store_at : LocalParty → Msg → Result ℕ → Step LocalParty
unfolding store_content
store_at p msg (ok i) = store_content p msg msg.content i
store_at p msg (err e) = crashed
store_at p msg panic = crashed

unfoldable pub store_checked : LocalParty → Msg → Option Error → Step LocalParty
unfolding store_at from_index
store_checked p msg (some e) = failed p e
store_checked p msg none = store_at p msg (from_index (get_from msg))

unfoldable pub store_message : LocalParty → Msg → Step LocalParty
unfolding validate_message store_checked
store_message p msg = store_checked p msg (validate_message p msg)

-- `p.rnd != nil`.
unfoldable pub is_set : Option Round → Bool
is_set none = false
is_set (some r) = true

-- The methods of no round are never called: `BaseUpdate` tests for it first.
unfoldable pub update_set : Option Round → LocalParty → Step LocalParty
unfolding update_kind
update_set none p = crashed
update_set (some r) p = update_kind r.kind p r

unfoldable pub update_round : LocalParty → Step LocalParty
unfolding update_set
update_round p = update_set p.rnd p

unfoldable pub can_proceed_set : Option Round → Bool
unfolding can_proceed_round
can_proceed_set none = false
can_proceed_set (some r) = can_proceed_round r

unfoldable pub can_proceed : LocalParty → Bool
unfolding can_proceed_set
can_proceed p = can_proceed_set p.rnd

-- `NextRound` of the three rounds.
unfoldable pub next_kind : Kind → Round → Option Round
next_kind round1 r = some (record r { kind = round2; started = false })
next_kind round2 r = some (record r { kind = round3; started = false })
next_kind round3 r = none

unfoldable pub advance_set : Option Round → LocalParty → LocalParty
unfolding next_kind
advance_set none p = p
advance_set (some r) p = record p { rnd = next_kind r.kind r }

unfoldable pub advance : LocalParty → LocalParty
unfolding advance_set
advance p = advance_set p.rnd p

-- `OriginalIndex` of the saved data.
unfoldable pub original_index : SaveData → Result ℕ
unfolding index_from
original_index save = elim save.share_id [
  | none ↦ panic
  | some ki ↦ elim (index_from ki 0 save.ks) [
    | none ↦ err "a party index could not be recovered from Ks"
    | some j ↦ ok j
  ]
]

module _ (sum : List ℕ → List ℕ) (eight_inv : ℤ) (rand : Randomness) where
  unfoldable pub start_kind : Kind → LocalParty → Round → Step LocalParty
  unfolding start_round1 start_round2 start_round3
  start_kind round1 p r = start_round1 sum rand p r
  start_kind round2 p r = start_round2 sum rand p r
  start_kind round3 p r = start_round3 sum eight_inv p r

  unfoldable pub start_set : Option Round → LocalParty → Step LocalParty
  unfolding start_kind
  start_set none p = crashed
  start_set (some r) p =
      if r.started
      then failed p (wrap_error p "round already started" [])
      else start_kind r.kind p r

  unfoldable pub start_round : LocalParty → Step LocalParty
  unfolding start_set
  start_round p = start_set p.rnd p

  -- The methods that the shared life cycle calls.
  abbrev pub party : Party LocalParty Msg
  party = record {
    party_id = λ p. some p.params.party_id;
    validate_message = validate_message;
    store_message = store_message;
    has_round = λ p. is_set p.rnd;
    set_first_round = first_round;
    start_round = start_round;
    update_round = update_round;
    can_proceed = can_proceed;
    advance = advance;
    wrap_error = wrap_error;
  }

  unfoldable pub start : LocalParty → Step LocalParty
  unfolding base_start start_round is_set first_round
  start p = base_start party [] p

  -- Three rounds can be entered at most, so five calls are enough.
  unfoldable pub update : LocalParty → Msg → Option (Step LocalParty)
  unfolding base_update
  update p msg = base_update party 5 msg p
