-- ===== src/Tss/PartyId/Sorting.antt =====
-- What `SortPartyIDs` returns.
use mathlib.Core.List.{reverse, reverse-append, Perm, reverse_perm, perm_middle}
use mathlib.Core.List.Perm
use mpc_lib.Prelude.{
  ℕ, zero, suc, ◌+◌, ◌≤◌, ℤ, pos, ◌+ℤ◌, Option, some, List, [], ◌∷◌, ◌++◌, map, append-nil,
  get_elem?, ◌≡◌, refl, ap, arith, Bool-cases, inl, inr,
}
use mpc_lib.Tss.PartyId.{
  PartyId, key_int, less, insert_down, insertion_sort, assign_indexes, start_of, sort_party_ids,
}

-- Every key is at most k.
abbrev AtMost : ℕ → List PartyId → Type 0
AtMost k [] = Unit
AtMost k (x ∷ xs) = (key_int x ≤ k) × AtMost k xs

-- Every key is at least k.
abbrev pub AtLeast : ℕ → List PartyId → Type 0
AtLeast k [] = Unit
AtLeast k (x ∷ xs) = (k ≤ key_int x) × AtLeast k xs

-- Each key is at least those behind it.
abbrev IsDescending : List PartyId → Type 0
IsDescending [] = Unit
IsDescending (x ∷ xs) = AtMost (key_int x) xs × IsDescending xs

-- Each key is at most those behind it.
abbrev pub IsAscending : List PartyId → Type 0
IsAscending [] = Unit
IsAscending (x ∷ xs) = AtLeast (key_int x) xs × IsAscending xs

AtMost-mono : (j k : ℕ) (xs : List PartyId) → j ≤ k → AtMost j xs → AtMost k xs
AtMost-mono j k [] h a = tt
AtMost-mono j k (x ∷ xs) h a = (omega arith, AtMost-mono j k xs h a.1)

AtMost-insert_down :
    (k : ℕ) (x : PartyId) (ys : List PartyId)
    → key_int x ≤ k
    → AtMost k ys
    → AtMost k (insert_down x ys)
unfolding insert_down less
AtMost-insert_down k x [] h a = (h, tt)
AtMost-insert_down k x (y ∷ ys) h a = ground (arith, AtMost-insert_down k x ys)

insert_down-IsDescending :
    (x : PartyId) (ys : List PartyId) → IsDescending ys → IsDescending (insert_down x ys)
unfolding insert_down less
insert_down-IsDescending x [] d = (tt, tt)
insert_down-IsDescending x (y ∷ ys) d = ground (
  arith,
  insert_down-IsDescending x ys d.1,
  AtMost-insert_down (key_int y) x ys,
  AtMost-mono (key_int y) (key_int x) ys,
)

insert_down-perm : (x : PartyId) (ys : List PartyId) → Perm (insert_down x ys) (x ∷ ys)
unfolding insert_down
insert_down-perm x [] = Perm.refl (x ∷ [])
insert_down-perm x (y ∷ ys) = elim (Bool-cases (less x y)) [
  | inl h ↦ rw h (Perm.trans (Perm.cons y (insert_down-perm x ys)) (Perm.swap x y ys))
  | inr h ↦ rw h (Perm.refl (x ∷ y ∷ ys))
]

AtLeast-append : (k : ℕ) (xs ys : List PartyId) → AtLeast k xs → AtLeast k ys → AtLeast k (xs ++ ys)
AtLeast-append k [] ys a b = b
AtLeast-append k (x ∷ xs) ys a b = (a.0, AtLeast-append k xs ys a.1 b)

IsAscending-append_one :
    (xs : List PartyId) (y : PartyId)
    → IsAscending xs
    → AtMost (key_int y) xs
    → IsAscending (xs ++ y ∷ [])
IsAscending-append_one [] y d a = (tt, tt)
IsAscending-append_one (x ∷ xs) y d a =
    (AtLeast-append (key_int x) xs (y ∷ []) d.0 (a.0, tt), IsAscending-append_one xs y d.1 a.1)

AtMost-append : (k : ℕ) (xs ys : List PartyId) → AtMost k xs → AtMost k ys → AtMost k (xs ++ ys)
AtMost-append k [] ys a b = b
AtMost-append k (x ∷ xs) ys a b = (a.0, AtMost-append k xs ys a.1 b)

AtMost-reverse : (k : ℕ) (xs : List PartyId) → AtMost k xs → AtMost k (reverse xs)
AtMost-reverse k [] a = tt
AtMost-reverse k (x ∷ xs) a =
    rw (reverse-append (x ∷ []) xs)
      (AtMost-append k (reverse xs) (x ∷ []) (AtMost-reverse k xs a.1) (a.0, tt))

reverse-IsAscending : (xs : List PartyId) → IsDescending xs → IsAscending (reverse xs)
reverse-IsAscending [] d = tt
reverse-IsAscending (x ∷ xs) d = rw (reverse-append (x ∷ []) xs) (
    IsAscending-append_one (reverse xs) x (reverse-IsAscending xs d.1)
      (AtMost-reverse (key_int x) xs d.0))

insertion_sort-IsAscending :
    (sorted ids : List PartyId) → IsDescending sorted → IsAscending (insertion_sort sorted ids)
unfolding insertion_sort
insertion_sort-IsAscending sorted [] d = reverse-IsAscending sorted d
insertion_sort-IsAscending sorted (x ∷ ids) d =
    insertion_sort-IsAscending (insert_down x sorted) ids (insert_down-IsDescending x sorted d)

insertion_sort-perm : (sorted ids : List PartyId) → Perm (insertion_sort sorted ids) (sorted ++ ids)
unfolding insertion_sort
insertion_sort-perm sorted [] = rw append-nil (reverse_perm sorted)
insertion_sort-perm sorted (x ∷ ids) = Perm.trans (insertion_sort-perm (insert_down x sorted) ids) (
    Perm.trans (Perm.append_right ids (insert_down-perm x sorted))
      (Perm.symm (perm_middle sorted ids)))

-- A party without its index, which the sort sets anew.
abbrev pub unindexed : PartyId → PartyId
unindexed pid = record pid { index = pos 0 }

unindexed-assign_indexes :
    (i : ℕ) (frm : ℤ) (xs : List PartyId)
    → map unindexed (assign_indexes i frm xs) ≡ map unindexed xs
unfolding assign_indexes
unindexed-assign_indexes i frm [] = refl
unindexed-assign_indexes i frm (x ∷ xs) =
    ap (◌∷◌ (unindexed x)) (unindexed-assign_indexes (i + 1) frm xs)

AtLeast-assign_indexes :
    (k i : ℕ) (frm : ℤ) (xs : List PartyId) → AtLeast k xs → AtLeast k (assign_indexes i frm xs)
unfolding assign_indexes key_int
AtLeast-assign_indexes k i frm [] a = tt
AtLeast-assign_indexes k i frm (x ∷ xs) a = (a.0, AtLeast-assign_indexes k (i + 1) frm xs a.1)

assign_indexes-IsAscending :
    (i : ℕ) (frm : ℤ) (xs : List PartyId) → IsAscending xs → IsAscending (assign_indexes i frm xs)
unfolding assign_indexes key_int
assign_indexes-IsAscending i frm [] d = tt
assign_indexes-IsAscending i frm (x ∷ xs) d = (
  AtLeast-assign_indexes (key_int x) (i + 1) frm xs d.0,
  assign_indexes-IsAscending (i + 1) frm xs d.1,
)

index_at :
    (i j n : ℕ) (frm : ℤ) (xs : List PartyId) (p : PartyId)
    → get_elem? (assign_indexes i frm xs) j ≡ some p
    → i + j ≡ n
    → p.index ≡ pos n +ℤ frm
unfolding assign_indexes
index_at i j n frm [] p h e = absurd (cc)
index_at i zero n frm (x ∷ xs) p h e =
    let same : i ≡ n = omega arith in ground (arith, ap (λ (k : ℕ). pos k +ℤ frm) same)
index_at i (suc j) n frm (x ∷ xs) p h e = index_at (i + 1) j n frm xs p h (omega arith)

-- `SortPartyIDs` returns the parties that it was given, in ascending order of their keys, and numbers
-- them from the start index on.
pub sort_party_ids_lem :
    (ids : List PartyId) (start_at : Option ℤ)
    → IsAscending (sort_party_ids ids start_at)
      × Perm (map unindexed (sort_party_ids ids start_at)) (map unindexed ids)
      × ((i : ℕ) (p : PartyId)
          → get_elem? (sort_party_ids ids start_at) i ≡ some p
          → p.index ≡ pos i +ℤ start_of start_at)
unfolding sort_party_ids
sort_party_ids_lem ids start_at = (
  assign_indexes-IsAscending 0 (start_of start_at) (insertion_sort [] ids)
      (insertion_sort-IsAscending [] ids tt),
  rw (unindexed-assign_indexes 0 (start_of start_at) (insertion_sort [] ids))
      (Perm.map unindexed (insertion_sort-perm [] ids)),
  λ i p h. index_at 0 i i (start_of start_at) (insertion_sort [] ids) p h (omega arith),
)
