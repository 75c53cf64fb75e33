-- ===== src/Tss/Params/Committees.antt =====
-- Who is in which committee.
use mpc_lib.Prelude.{
  pos, Bool, true, false, ◌||◌, Option, none, some, List, [], ◌∷◌, ◌++◌, ◌≡◌, refl, arith,
}
use mpc_lib.Tss.PartyId.{PartyId, key_int, find_by_key}
use mpc_lib.Tss.Params.{
  ReSharingParameters, old_and_new_parties, has_key_of, is_old_committee, is_new_committee,
}

-- Whether a lookup found a party.
abbrev pub is_found : Option PartyId → Bool
is_found none = false
is_found (some p) = true

has_key_of-append :
    (p : PartyId) (xs ys : List PartyId)
    → is_found (find_by_key (xs ++ ys) (pos (key_int p))) ≡ (has_key_of p xs || has_key_of p ys)
unfolding find_by_key has_key_of
has_key_of-append p [] [] = refl
has_key_of-append p [] (y ∷ ys) = ground (arith, has_key_of-append p [] ys)
has_key_of-append p (x ∷ xs) ys = ground (arith, has_key_of-append p xs ys)

-- A party's key is found among both committees exactly if it is in the old or in the new one.
committees_lem :
    (rg : ReSharingParameters)
    → is_found (find_by_key (old_and_new_parties rg) (pos (key_int rg.params.party_id)))
      ≡ (is_old_committee rg || is_new_committee rg)
unfolding old_and_new_parties is_old_committee is_new_committee
committees_lem rg = has_key_of-append rg.params.party_id rg.params.parties rg.new_parties
