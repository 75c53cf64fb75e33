-- ===== src/Tests/Tss.antt =====
-- Three parties and their committees.
use mathlib.Core.List.{Perm}
use mpc_lib.Prelude.{get_elem?, ℕ, pos, negsuc, ◌+ℤ◌, some, none, List, [], ◌∷◌, map, ◌≡◌}
use mpc_lib.Tss.PartyId.{PartyId, sort_party_ids, start_of}
use mpc_lib.Tss.PartyId.Sorting.{IsAscending, unindexed, sort_party_ids_lem}

abbrev alice : PartyId
alice = record { id = "1"; moniker = "A"; key = some (3 ∷ []); index = negsuc 0 }

abbrev bob : PartyId
bob = record { id = "2"; moniker = "B"; key = some (1 ∷ []); index = negsuc 0 }

abbrev carol : PartyId
carol = record { id = "3"; moniker = "C"; key = some (2 ∷ []); index = negsuc 0 }

abbrev ids : List PartyId
ids = alice ∷ bob ∷ carol ∷ []

sort_party_ids_lem_example :
    IsAscending (sort_party_ids ids none)
    × Perm (map unindexed (sort_party_ids ids none)) (map unindexed ids)
    × ((i : ℕ) (p : PartyId)
        → get_elem? (sort_party_ids ids none) i ≡ some p
        → p.index ≡ pos i +ℤ start_of none)
sort_party_ids_lem_example = sort_party_ids_lem ids none
