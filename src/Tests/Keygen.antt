-- ===== src/Tests/Keygen.antt =====
-- A key generation of two parties over the group of order 5.
use mpc_lib.Prelude.{
  ℕ, zero, suc, ◌+◌, ◌<◌, ◌≤◌, ℤ, pos, negsuc, Bool, true, false, Option, none, some, List, [], ◌∷◌,
  length, replicate, bytes, set_bytes, ◌↔◌, ◌≡◌, ◌≢◌, refl, arith,
}
use mpc_lib.Prelude.Result.{ok}
use mpc_lib.Common.Slice.{non_empty_bytes}
use mpc_lib.Crypto.Point.{EcPoint}
use mpc_lib.Crypto.Point.Group.{at}
use mpc_lib.Crypto.Vss.{Share}
use mpc_lib.Crypto.Schnorr.{ZkProof}
use mpc_lib.Tss.PartyId
use mpc_lib.Tss.PartyId.{PartyId}
use mpc_lib.Tss.Params.{Parameters}
use mpc_lib.Tss.Party.{Step, done, failed, crashed}
use mpc_lib.Tss.Party.Rules.{LeavesSome}
use mpc_lib.Eddsa.Keygen.Messages.{
  Msg, kg_round1_message, new_kg_round1_message, new_kg_round2_message1, new_kg_round2_message2,
  validate_basic,
}
use mpc_lib.Eddsa.Keygen.State.{Round, round1, round2, round3, LocalParty, new_local_party}
use mpc_lib.Eddsa.Keygen.Rounds.{Randomness}
use mpc_lib.Eddsa.Keygen.Round3.{Opening, verify_party, start_round3}
use mpc_lib.Eddsa.Keygen.LocalParty.{store_message, update}
use mpc_lib.Eddsa.Keygen.Progress.{IsSized, update-ne-none, update-IsSized}
use mpc_lib.Eddsa.Keygen.Validation.{IsValid}
use mpc_lib.Eddsa.Keygen.Storage.{IsStored, store_message_valid}
use mpc_lib.Eddsa.Keygen.Outcome.{IsOutcome, start_round3_lem}
use mpc_lib.Eddsa.Keygen.PartyCheck.{HasOpened, HasProved, HasShared, verify_party_sound}
use mpc_lib.Tests.Toy.{sum, curve, group}

abbrev alice : PartyId
alice = record { id = "1"; moniker = "A"; key = some (1 ∷ []); index = pos 0 }

abbrev bob : PartyId
bob = record { id = "2"; moniker = "B"; key = some (2 ∷ []); index = pos 1 }

abbrev params : Parameters
params = record {
  ec = curve;
  parties = alice ∷ bob ∷ [];
  party_id = alice;
  party_count = 2;
  threshold = 1;
  no_proof_mod = false;
  no_proof_fac = false;
}

abbrev rand : Randomness
rand = record { ui = pos 3; sampled = pos 4 ∷ []; commit_r = pos 11; schnorr_a = pos 2 }

abbrev eight_inv : ℤ
eight_inv = pos 2

abbrev fresh : LocalParty
fresh = new_local_party params

fresh-IsSized : IsSized fresh
unfolding new_local_party
fresh-IsSized = record {
  slots1 = refl;
  slots2 = refl;
  slots3 = refl;
  oks = λ lt. absurd (omega arith);
}

abbrev from_bob : Msg
from_bob = new_kg_round1_message bob 7

from_bob_valid : IsValid fresh from_bob
unfolding new_local_party new_kg_round1_message PartyId.has_key bytes validate_basic non_empty_bytes
from_bob_valid = record {
  from = bob;
  index = 1;
  content = kg_round1_message (bytes 7);
  sender = refl;
  has_key = refl;
  at = refl;
  in_range = omega arith;
  has_content = refl;
  is_basic = refl;
}

update-ne-none_example : update sum eight_inv rand fresh from_bob ≢ none
update-ne-none_example = update-ne-none sum eight_inv rand fresh from_bob

update-IsSized_example : LeavesSome IsSized (update sum eight_inv rand fresh from_bob)
update-IsSized_example = update-IsSized sum eight_inv rand fresh from_bob fresh-IsSized

store_message_valid_example :
    (q : LocalParty) × (b : Bool) × (store_message fresh from_bob ≡ done q b)
    × IsStored fresh from_bob from_bob_valid.index from_bob_valid.content q b
store_message_valid_example = store_message_valid fresh from_bob fresh-IsSized from_bob_valid

-- Bob's polynomial is 2 + x: its value at Alice's key, what he opens, and his proof.
abbrev bobs_share : Share
bobs_share = record { threshold = 1; id = pos 1; share = pos 3 }

abbrev bobs_opening : List ℤ
bobs_opening = pos 9 ∷ pos 2 ∷ pos 1 ∷ pos 1 ∷ pos 1 ∷ []

abbrev bobs_proof : ZkProof
bobs_proof = record { alpha = at curve group 1; t = pos 4 }

abbrev first : Round
first = record { kind = round1; oks = false ∷ false ∷ []; started = true; number = 1 }

abbrev in_first : LocalParty
in_first = record {
  params = params;
  temp = record {
    kg_round1_messages = none ∷ some from_bob ∷ [];
    kg_round2_message1s = none ∷ none ∷ [];
    kg_round2_message2s = none ∷ none ∷ [];
    ui = pos 3;
    kgcs = none ∷ none ∷ [];
    vs = [];
    shares = [];
    de_commit_poly_g = [];
    ssid = [];
  };
  save = record {
    xi = none;
    share_id = none;
    ks = 1 ∷ 2 ∷ [];
    big_xj = none ∷ none ∷ [];
    eddsa_pub = none;
  };
  rnd = some first;
  out = [];
  end = [];
}

abbrev second : Round
second = record first { kind = round2; number = 2 }

abbrev in_second : LocalParty
in_second = record in_first {
  temp = record in_first.temp {
    kgcs = none ∷ some (set_bytes (sum [])) ∷ [];
    vs = at curve group 3 ∷ at curve group 4 ∷ [];
    shares =
        record { threshold = 1; id = pos 1; share = pos 2 }
        ∷ record { threshold = 1; id = pos 2; share = pos 1 }
        ∷ [];
    kg_round2_message1s = none ∷ some (new_kg_round2_message1 alice bob bobs_share) ∷ [];
    kg_round2_message2s = none ∷ some (new_kg_round2_message2 bob bobs_opening bobs_proof) ∷ [];
  };
  rnd = some second;
}

abbrev bobs_points : List EcPoint
bobs_points = at curve group 2 ∷ at curve group 1 ∷ []

bob_checked : verify_party sum eight_inv in_second 1 ≡ ok bobs_points
unfolding verify_party new_kg_round2_message1 new_kg_round2_message2
    mpc_lib.Crypto.Commitments.Hashed.de_commit mpc_lib.Common.Hash.sha512_256i
    mpc_lib.Eddsa.Keygen.Messages.unmarshal_de_commitment mpc_lib.Common.Slice.big_ints_to_bytes
    set_bytes mpc_lib.Crypto.Point.unflatten_ec_points mpc_lib.Crypto.Point.eight_inv_eight
    mpc_lib.Eddsa.Keygen.Messages.unmarshal_zk_proof mpc_lib.Crypto.Schnorr.verify
    mpc_lib.Crypto.Schnorr.challenge mpc_lib.Common.Challenge.rejection_sample
    mpc_lib.Common.Hash.sha512_256i_tagged mpc_lib.Crypto.Point.scalar_base_mult
    mpc_lib.Crypto.Point.add mpc_lib.Crypto.Schnorr.same_coords bytes mpc_lib.Crypto.Vss.verify
    mpc_lib.Prelude.emod mpc_lib.Prelude.◌*ℤ◌ PartyId.key_int
bob_checked = refl

verify_party_sound_example :
    (opening : Opening) × HasOpened sum eight_inv in_second 1 opening bobs_points
    × HasProved sum in_second 1 opening bobs_points
    × HasShared in_second 1 bobs_points
verify_party_sound_example = verify_party_sound sum eight_inv in_second 1 bobs_points bob_checked

start_round3_lem_example :
    IsOutcome
      (verify_party sum eight_inv in_second)
      in_second
      (start_round3 sum eight_inv in_second (record second { kind = round3 }))
start_round3_lem_example =
    start_round3_lem sum eight_inv in_second (record second { kind = round3 })

abbrev is_done : Step LocalParty → Bool
is_done (done q b) = true
is_done (failed q e) = false
is_done crashed = false

-- With Bob's messages, round 3 ends without an error.
round3_ends :
    is_done (start_round3 sum eight_inv in_second (record second { kind = round3 })) ≡ true
unfolding start_round3 mpc_lib.Eddsa.Keygen.Round3.check_and_add mpc_lib.Eddsa.Keygen.State.attempt
    verify_party new_kg_round2_message1 new_kg_round2_message2
    mpc_lib.Crypto.Commitments.Hashed.de_commit mpc_lib.Common.Hash.sha512_256i
    mpc_lib.Eddsa.Keygen.Messages.unmarshal_de_commitment mpc_lib.Common.Slice.big_ints_to_bytes
    set_bytes mpc_lib.Crypto.Point.unflatten_ec_points mpc_lib.Crypto.Point.eight_inv_eight
    mpc_lib.Eddsa.Keygen.Messages.unmarshal_zk_proof mpc_lib.Crypto.Schnorr.verify
    mpc_lib.Crypto.Schnorr.challenge mpc_lib.Common.Challenge.rejection_sample
    mpc_lib.Common.Hash.sha512_256i_tagged mpc_lib.Crypto.Point.scalar_base_mult
    mpc_lib.Crypto.Point.add mpc_lib.Crypto.Schnorr.same_coords bytes mpc_lib.Crypto.Vss.verify
    mpc_lib.Prelude.emod mpc_lib.Prelude.◌*ℤ◌ PartyId.key_int
    mpc_lib.Eddsa.Keygen.Round3.finish_keygen
round3_ends = refl
