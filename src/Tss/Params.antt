-- ===== src/Tss/Params.antt =====
-- tss/params.go and tss/peers.go: the parameters of a run. The limits on goroutines and time are left
-- out, and the lists of parties are the peer contexts themselves.
pub mod Committees
use mpc_lib.Prelude.{ℕ, ◌+◌, Bool, true, false, List, [], ◌∷◌, ◌++◌, ◌==◌, if◌then◌else◌}
use mpc_lib.Crypto.Curve.{Curve}
use mpc_lib.Tss.PartyId.{PartyId, key_int}

pub record Parameters : Type 0 where
  pub ec : Curve
  pub parties : List PartyId
  pub party_id : PartyId
  pub party_count : ℕ
  pub threshold : ℕ
  pub no_proof_mod : Bool
  pub no_proof_fac : Bool

unfoldable pub new_parameters : Curve → List PartyId → PartyId → ℕ → ℕ → Parameters
new_parameters ec ctx party_id party_count threshold = record {
  ec = ec;
  parties = ctx;
  party_id = party_id;
  party_count = party_count;
  threshold = threshold;
  no_proof_mod = false;
  no_proof_fac = false;
}

abbrev pub set_no_proof_mod : Parameters → Parameters
set_no_proof_mod params = record params { no_proof_mod = true }

abbrev pub set_no_proof_fac : Parameters → Parameters
set_no_proof_fac params = record params { no_proof_fac = true }

pub record ReSharingParameters : Type 0 where
  pub params : Parameters
  pub new_parties : List PartyId
  pub new_party_count : ℕ
  pub new_threshold : ℕ

unfoldable pub new_re_sharing_parameters :
    Curve → List PartyId → List PartyId → PartyId → ℕ → ℕ → ℕ → ℕ → ReSharingParameters
unfolding new_parameters
new_re_sharing_parameters ec ctx new_ctx party_id party_count threshold new_count new_threshold =
    record {
      params = new_parameters ec ctx party_id party_count threshold;
      new_parties = new_ctx;
      new_party_count = new_count;
      new_threshold = new_threshold;
    }

unfoldable pub old_and_new_parties : ReSharingParameters → List PartyId
old_and_new_parties rg = rg.params.parties ++ rg.new_parties

unfoldable pub old_and_new_party_count : ReSharingParameters → ℕ
old_and_new_party_count rg = rg.params.party_count + rg.new_party_count

-- The loop over a committee, which compares keys.
pub has_key_of : PartyId → List PartyId → Bool
has_key_of party_id [] = false
has_key_of party_id (pj ∷ ids) =
    if key_int party_id == key_int pj then true else has_key_of party_id ids

unfoldable pub is_old_committee : ReSharingParameters → Bool
unfolding has_key_of
is_old_committee rg = has_key_of rg.params.party_id rg.params.parties

unfoldable pub is_new_committee : ReSharingParameters → Bool
unfolding has_key_of
is_new_committee rg = has_key_of rg.params.party_id rg.new_parties
