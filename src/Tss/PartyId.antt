-- ===== src/Tss/PartyId.antt =====
-- tss/party_id.go: the participants, sorted by key. A pointer that may be nil is an `Option`; the
-- source sets the indexes in the shared records, and here the sorted list holds new ones.
pub mod Sorting
pub mod Search
use Prim.Native.String.{String}
use mathlib.Core.List.{reverse}
use mpc_lib.Prelude.{
  ℕ, zero, suc, ◌+◌, ℤ, pos, negsuc, ◌+ℤ◌, ltb_ℤ, nat_abs, Bool, true, false, not, ◌&&◌, Option,
  none, some, List, [], ◌∷◌, map, bytes, set_bytes, leb, ◌==◌, ◌==ℤ◌, if◌then◌else◌,
}

-- `none` is a nil key.
pub record PartyId : Type 0 where
  pub id : String
  pub moniker : String
  pub key : Option (List ℕ)
  pub index : ℤ

unfoldable pub has_key : Option (List ℕ) → Bool
has_key none = false
has_key (some k) = true

unfoldable pub validate_basic : Option PartyId → Bool
unfolding has_key
validate_basic none = false
validate_basic (some pid) = has_key pid.key && not (ltb_ℤ pid.index (pos 0))

unfoldable pub key_bytes : Option (List ℕ) → List ℕ
key_bytes none = []
key_bytes (some k) = k

unfoldable pub key_int : PartyId → ℕ
unfolding key_bytes
key_int pid = set_bytes (key_bytes pid.key)

unfoldable pub new_party_id : String → String → ℤ → PartyId
new_party_id id moniker key = record {
  id = id;
  moniker = moniker;
  key = some (bytes (nat_abs key));
  index = negsuc 0;
}

-- `Less`, which holds of equal keys too.
pub less : PartyId → PartyId → Bool
less a b = leb (key_int a) (key_int b)

-- Go's insertion sort, which `sort.Sort` uses for up to 12 elements: the next element moves down past
-- each one that it is less than. The sorted elements are held from the last to the first.
pub insert_down : PartyId → List PartyId → List PartyId
unfolding less
insert_down x [] = x ∷ []
insert_down x (y ∷ below) =
    let moved = y ∷ insert_down x below in if less x y then moved else x ∷ y ∷ below

pub insertion_sort : List PartyId → List PartyId → List PartyId
unfolding insert_down
insertion_sort sorted [] = reverse sorted
insertion_sort sorted (x ∷ ids) = insertion_sort (insert_down x sorted) ids

pub assign_indexes : ℕ → ℤ → List PartyId → List PartyId
assign_indexes i frm [] = []
assign_indexes i frm (pid ∷ sorted) =
    record pid { index = pos i +ℤ frm } ∷ assign_indexes (i + 1) frm sorted

-- The optional argument `startAt`.
pub start_of : Option ℤ → ℤ
start_of none = pos 0
start_of (some start) = start

unfoldable pub sort_party_ids : List PartyId → Option ℤ → List PartyId
unfolding insertion_sort assign_indexes start_of
sort_party_ids ids start_at = assign_indexes 0 (start_of start_at) (insertion_sort [] ids)

unfoldable pub keys : List PartyId → List ℕ
unfolding key_int
keys spids = map key_int spids

unfoldable pub find_by_key : List PartyId → ℤ → Option PartyId
find_by_key [] key = none
find_by_key (pid ∷ spids) key =
    if pos (key_int pid) ==ℤ key then some pid else find_by_key spids key

unfoldable pub exclude : List PartyId → PartyId → List PartyId
exclude [] excluded = []
exclude (pid ∷ spids) excluded =
    let rest = exclude spids excluded in
    if key_int pid == key_int excluded then rest else pid ∷ rest
