-- ===== src/Crypto/Vss/Indexes.antt =====
-- Which lists of indexes `CheckIndexes` accepts.
use mpc_lib.Prelude.{ℕ, ℤ, false, List, [], ◌∷◌, ◌≡◌, ◌≢◌, refl, ◌↔◌, arith, emod}
use mpc_lib.Prelude.Result.{ok}
use mpc_lib.Crypto.Curve.{Curve}
use mpc_lib.Crypto.Vss.{is_visited, check_from, check_indexes}

-- No element of the list is v.
abbrev pub IsNew : ℕ → List ℕ → Type 0
IsNew v [] = Unit
IsNew v (w ∷ ws) = (v ≢ w) × IsNew v ws

-- No residue is 0, and none stands twice or among those visited before.
abbrev pub AreDistinct : ℕ → List ℕ → List ℤ → Type 0
AreDistinct n visited [] = Unit
AreDistinct n visited (v ∷ indexes) =
    (emod v n ≢ 0) × IsNew (emod v n) visited × AreDistinct n (emod v n ∷ visited) indexes

is_visited_iff : (v : ℕ) (visited : List ℕ) → (is_visited v visited ≡ false) ↔ IsNew v visited
unfolding is_visited
is_visited_iff v [] = (λ h. tt, λ h. refl)
is_visited_iff v (w ∷ visited) = (
  λ h. (λ e. ground arith, (is_visited_iff v visited).0 (ground arith)),
  λ h. ground (arith, h.0, (is_visited_iff v visited).1 h.1),
)

check_from_iff :
    (n : ℕ) (visited : List ℕ) (indexes : List ℤ)
    → (check_from n visited indexes ≡ ok tt) ↔ AreDistinct n visited indexes
unfolding check_from
check_from_iff n visited [] = (λ h. tt, λ h. refl)
check_from_iff n visited (v ∷ indexes) = (
  λ h. (
    λ e. ground arith,
    (is_visited_iff (emod v n) visited).0 (ground arith),
    (check_from_iff n (emod v n ∷ visited) indexes).0 (ground arith),
  ),
  λ h. ground (
    arith,
    h.0,
    (is_visited_iff (emod v n) visited).1 h.1,
    (check_from_iff n (emod v n ∷ visited) indexes).1 h.2,
  ),
)

-- `CheckIndexes` gives the indexes back exactly if, modulo the order, none is 0 and no two agree.
pub check_indexes_iff :
    (ec : Curve) (indexes : List ℤ)
    → (check_indexes ec indexes ≡ ok indexes) ↔ AreDistinct ec.n [] indexes
unfolding check_indexes
check_indexes_iff ec indexes = (
  λ h. (check_from_iff ec.n [] indexes).0 (ground arith),
  λ h. ground (arith, (check_from_iff ec.n [] indexes).1 h),
)
