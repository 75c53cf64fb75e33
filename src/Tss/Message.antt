-- ===== src/Tss/Message.antt =====
-- tss/message.go and the error of tss/error.go. The content is a type of the protocol.
use Prim.Native.String.{String}
use mpc_lib.Prelude.{ℤ, Bool, Option, List}
use mpc_lib.Tss.PartyId.{PartyId}

pub record MessageRouting : Type 0 where
  pub from : Option PartyId
  pub to : Option (List PartyId)
  pub is_broadcast : Bool
  pub is_to_old_committee : Bool
  pub is_to_old_and_new_committees : Bool

-- The fields of the wrapper that the accessors read.
pub record MessageWrapper : Type 0 where
  pub is_broadcast : Bool
  pub is_to_old_committee : Bool
  pub is_to_old_and_new_committees : Bool

pub record MessageImpl (C : Type 0) : Type 0 where
  pub routing : MessageRouting
  pub content : Option C
  pub wire : MessageWrapper

-- The marshalled content and the parties in the wrapper are left out: nothing here reads them.
unfoldable pub new_message_wrapper : MessageRouting → MessageWrapper
new_message_wrapper routing = record {
  is_broadcast = routing.is_broadcast;
  is_to_old_committee = routing.is_to_old_committee;
  is_to_old_and_new_committees = routing.is_to_old_and_new_committees;
}

module _ {C : Type 0} where
  abbrev pub new_message : MessageRouting → Option C → MessageWrapper → MessageImpl C
  new_message meta content wire = record { routing = meta; content = content; wire = wire }

  abbrev pub get_from : MessageImpl C → Option PartyId
  get_from mm = mm.routing.from

  -- Read from the wrapper, which the receiver fills from how the message came in.
  abbrev pub is_broadcast : MessageImpl C → Bool
  is_broadcast mm = mm.wire.is_broadcast

-- `none` for the victim and the text alone for the cause.
pub record Error : Type 0 where
  pub cause : String
  pub task : String
  pub round : ℤ
  pub victim : Option PartyId
  pub culprits : List PartyId
