-- ===== src/Tss/PartyId/Search.antt =====
-- Looking a party up by its key, and leaving one out.
use mpc_lib.Prelude.{
  ℕ, pos, none, some, List, [], ◌∷◌, ◌==◌, ◌==ℤ◌, if◌then◌else◌, ◌≡◌, ◌≢◌, sym, subst, arith,
  Bool-cases, inl, inr,
}
use mpc_lib.Tss.PartyId.{PartyId, key_int, find_by_key, exclude}
use mpc_lib.Tss.PartyId.Sorting.{AtLeast, IsAscending}

-- No party of the list has the key.
abbrev pub HasNone : ℕ → List PartyId → Type 0
HasNone k [] = Unit
HasNone k (x ∷ xs) = (key_int x ≢ k) × HasNone k xs

-- The list splits at a party with the key, the first one.
pub data IsFirst (k : ℕ) (p : PartyId) : List PartyId → Type 0 where
  found : (after : List PartyId) → key_int p ≡ k → IsFirst k p (p ∷ after)
  passed :
      (x : PartyId) {spids : List PartyId}
      → key_int x ≢ k
      → IsFirst k p spids
      → IsFirst k p (x ∷ spids)

find_some :
    (spids : List PartyId) (k : ℕ) (p : PartyId)
    → find_by_key spids (pos k) ≡ some p
    → IsFirst k p spids
unfolding find_by_key
find_some [] k p h = absurd (cc)
find_some (x ∷ spids) k p h = elim (Bool-cases (pos (key_int x) ==ℤ pos k)) [
  | inl same ↦
      let e : x ≡ p = ground arith in
      subst (λ y. IsFirst k p (y ∷ spids)) (sym e) (found spids (ground arith))
  | inr other ↦ passed x (λ q. ground arith) (find_some spids k p (ground arith))
]

find_none : (spids : List PartyId) (k : ℕ) → find_by_key spids (pos k) ≡ none → HasNone k spids
unfolding find_by_key
find_none [] k h = tt
find_none (x ∷ spids) k h = (λ q. ground arith, find_none spids k (ground arith))

-- `FindByKey` gives the first party with the key, and nil only where no party has it.
find_by_key_lem :
    (spids : List PartyId) (k : ℕ)
    → ((p : PartyId) → find_by_key spids (pos k) ≡ some p → IsFirst k p spids)
      × (find_by_key spids (pos k) ≡ none → HasNone k spids)
find_by_key_lem spids k = (find_some spids k, find_none spids k)

AtLeast-exclude :
    (k : ℕ) (spids : List PartyId) (e : PartyId) → AtLeast k spids → AtLeast k (exclude spids e)
unfolding exclude
AtLeast-exclude k [] e a = tt
AtLeast-exclude k (x ∷ spids) e a = ground (arith, AtLeast-exclude k spids e a.1)

exclude-IsAscending :
    (spids : List PartyId) (e : PartyId) → IsAscending spids → IsAscending (exclude spids e)
unfolding exclude
exclude-IsAscending [] e a = tt
exclude-IsAscending (x ∷ spids) e a =
    ground (arith, exclude-IsAscending spids e a.1, AtLeast-exclude (key_int x) spids e a.0)

find-exclude :
    (spids : List PartyId) (e : PartyId) (k : ℕ)
    → find_by_key (exclude spids e) (pos k)
      ≡ (if k == key_int e then none else find_by_key spids (pos k))
unfolding find_by_key exclude
find-exclude [] e k = ground arith
find-exclude (x ∷ spids) e k = ground (arith, find-exclude spids e k)

-- After `Exclude` the excluded key is not found, every other key is found as before, and the
-- ascending order is kept.
find_by_key-exclude :
    (spids : List PartyId) (e : PartyId)
    → ((k : ℕ)
        → find_by_key (exclude spids e) (pos k)
          ≡ (if k == key_int e then none else find_by_key spids (pos k)))
      × (IsAscending spids → IsAscending (exclude spids e))
find_by_key-exclude spids e = (find-exclude spids e, exclude-IsAscending spids e)
