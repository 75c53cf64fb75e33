-- ===== src/Tss/Party.antt =====
-- tss/party.go and tss/round.go: the life cycle that all protocols share. A party is a state with the
-- methods that `BaseStart` and `BaseUpdate` call on it and on its current round. What
-- a call writes it writes under the mutex, which it lets go between its recursive calls; the whole
-- call is one step here.
pub mod Fuel
pub mod Rules
use Prim.Native.String.{String}
use mpc_lib.Prelude.{
  ℕ, zero, suc, Bool, true, false, not, Option, none, some, List, [], ◌∷◌, if◌then◌else◌,
}
use mpc_lib.Tss.PartyId.{PartyId, validate_basic}
use mpc_lib.Tss.Message.{Error, MessageImpl, get_from}

-- How a method ends: with its Boolean and no error, with an error, or in a panic.
pub data Step (S : Type 0) : Type 0 where
  done : S → Bool → Step S
  failed : S → Error → Step S
  crashed : Step S

pub record Party (S M : Type 0) : Type 0 where
  pub party_id : S → Option PartyId
  pub validate_message : S → M → Option Error
  pub store_message : S → M → Step S
  -- Whether `p.rnd` is set, and the methods of the round that it holds.
  pub has_round : S → Bool
  pub set_first_round : S → S
  pub start_round : S → Step S
  pub update_round : S → Step S
  pub can_proceed : S → Bool
  pub advance : S → S
  pub wrap_error : S → String → List PartyId → Error

module _ {S M : Type 0} (p : Party S M) where
  -- The optional prepare function runs behind the constructor of the first round.
  unfoldable pub prepare_round : List (S → Step S) → S → Step S
  prepare_round [] s = p.start_round s
  prepare_round (prepare ∷ []) s = elim (prepare s) [
    | done s' _ ↦ p.start_round s'
    | failed s' e ↦ failed s' e
    | crashed ↦ crashed
  ]
  prepare_round (prepare ∷ other ∷ more) s =
      failed s (p.wrap_error s "too many prepare functions given to Start(); 1 allowed" [])

  unfoldable pub base_start : List (S → Step S) → S → Step S
  unfolding prepare_round
  base_start prepare s =
      if not (validate_basic (p.party_id s))
      then failed s (p.wrap_error s "could not start. this party has an invalid PartyID" [])
      else if p.has_round s
      then failed s (p.wrap_error s "could not start. this party is in an unexpected state" [])
      else prepare_round prepare (p.set_first_round s)

  -- `again` is the rest of the run, the recursive call with the same message.
  pub after_start : (S → Option (Step S)) → Step S → Option (Step S)
  after_start again (done s b) = again s
  after_start again (failed s e) = some (failed s e)
  after_start again crashed = some crashed

  -- The next round is entered and started, unless there is none; then all is run again.
  pub enter_next : (S → Option (Step S)) → S → Option (Step S)
  enter_next again s =
      if p.has_round (p.advance s)
      then after_start again (p.start_round (p.advance s))
      else again (p.advance s)

  pub after_update : (S → Option (Step S)) → Step S → Option (Step S)
  after_update again (done s b) = if p.can_proceed s then enter_next again s else some (done s true)
  after_update again (failed s e) = some (failed s e)
  after_update again crashed = some crashed

  pub after_store : (S → Option (Step S)) → Step S → Option (Step S)
  after_store again (done s false) = some (done s false)
  after_store again (done s true) =
      if p.has_round s then after_update again (p.update_round s) else some (done s true)
  after_store again (failed s e) = some (failed s e)
  after_store again crashed = some crashed

  pub after_validate : (S → Option (Step S)) → M → S → Option Error → Option (Step S)
  after_validate again msg s (some e) = some (failed s e)
  after_validate again msg s none = after_store again (p.store_message s msg)

  -- `BaseUpdate` calls itself with the same message once per round that it enters; `none` means that
  -- the fuel ran out.
  unfoldable pub base_update : ℕ → M → S → Option (Step S)
  unfolding after_validate after_store after_update enter_next after_start
  base_update zero msg s = none
  base_update (suc fuel) msg s =
      after_validate (base_update fuel msg) msg s (p.validate_message s msg)

-- `BaseParty.ValidateMessage`: the error, if there is one. Only a content that fails its own test
-- names its sender as the culprit.
pub culprits_of : Option PartyId → List PartyId
culprits_of none = []
culprits_of (some from) = from ∷ []

module _ {C : Type 0} (wrap : String → List PartyId → Error) (is_valid : C → Bool) where
  unfoldable pub validate_content : Option PartyId → Option C → Option Error
  validate_content from none = some (wrap "received nil msg" [])
  validate_content from (some content) =
      if not (validate_basic from)
      then some (wrap "received msg with an invalid sender" [])
      else if not (is_valid content)
      then some (wrap "message failed ValidateBasic" (culprits_of from))
      else none

  unfoldable pub base_validate_message : MessageImpl C → Option Error
  unfolding validate_content
  base_validate_message msg = validate_content (get_from msg) msg.content
