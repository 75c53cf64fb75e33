-- ===== src/Eddsa/Keygen/Subset.antt =====
-- eddsa/keygen/save_data.go: the saved data of the parties that sign.
use mpc_lib.Prelude.{
  ℕ, ◌+◌, Option, none, some, List, [], ◌∷◌, bytes, Bool, true, false, ◌&&◌, ◌==◌, if◌then◌else◌,
}
use mpc_lib.Prelude.Result.{Result, ok, panic, ◌>>=◌, nth}
use mpc_lib.Crypto.Point.{EcPoint}
use mpc_lib.Tss.PartyId.{PartyId, key_bytes}
use mpc_lib.Eddsa.Keygen.State.{SaveData}

-- Byte strings are compared as their hex strings are.
abbrev pub same_bytes : List ℕ → List ℕ → Bool
same_bytes [] [] = true
same_bytes (x ∷ xs) (y ∷ ys) = x == y && same_bytes xs ys
same_bytes _ _ = false

-- What the map `keysToIndices`, filled from index j on, has under a key: the last index with it.
unfoldable pub saved_index : List ℕ → ℕ → List ℕ → Option ℕ
saved_index key j [] = none
saved_index key j (kj ∷ ks) =
    let later = saved_index key (j + 1) ks in
    elim later [ some i ↦ some i | none ↦ if same_bytes (bytes kj) key then some j else none ]

unfoldable pub index_or_panic : Option ℕ → Result ℕ
index_or_panic none = panic
index_or_panic (some i) = ok i

-- The key and the public share of each party of the list.
unfoldable pub select_each : SaveData → List PartyId → Result (List ℕ × List (Option EcPoint))
unfolding saved_index index_or_panic
select_each source [] = ok ([], [])
select_each source (id ∷ ids) = do
  i ← index_or_panic (saved_index (key_bytes id.key) 0 source.ks)
  k ← nth source.ks i
  x ← nth source.big_xj i
  (ks, xs) ← select_each source ids
  ok (k ∷ ks, x ∷ xs)

unfoldable pub build_local_save_data_subset : SaveData → List PartyId → Result SaveData
unfolding select_each
build_local_save_data_subset source sorted_ids = do
  (ks, big_xj) ← select_each source sorted_ids
  ok (record {
    xi = source.xi;
    share_id = source.share_id;
    ks = ks;
    big_xj = big_xj;
    eddsa_pub = source.eddsa_pub;
  })
