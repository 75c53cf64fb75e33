-- ===== src/Crypto/Commitments.antt =====
-- crypto/commitments/commitment_builder.go: parts of a commitment, written out one after another
-- with a length before each, and read back.
pub mod RoundTrip
pub mod Safety
pub mod Hashed
pub mod Binding
use mpc_lib.Prelude.{
  ℕ, zero, suc, ◌+◌, ◌*◌, ◌≤◌, ℤ, pos, Bool, true, false, not, List, [], ◌∷◌, ◌++◌, length, get_or,
  take, drop, ltb, leb, if◌then◌else◌, ltb_ℤ, ◌+ℤ◌, int64,
}

abbrev pub parts_cap : ℕ
parts_cap = 3

-- 1 MB.
abbrev pub max_part_size : ℕ
max_part_size = 1048576

-- No part is over the limit on its size.
abbrev pub HasSmallParts : List (List ℤ) → Type 0
HasSmallParts [] = Unit
HasSmallParts (p ∷ ps) = (length p ≤ max_part_size) × HasSmallParts ps

pub record Builder : Type 0 where
  pub parts : List (List ℤ)

abbrev pub new_builder : Builder
new_builder = record { parts = [] }

unfoldable pub add_part : Builder → List ℤ → Builder
add_part b part = record { parts = b.parts ++ part ∷ [] }

pub data Error : Type 0 where
  too_many_parts part_too_large too_small not_enough_data : Error

-- What a call gives: a value, an error, or a run-time panic. `no_fuel` is the model's own.
pub data Outcome {ℓ} (A : Type ℓ) : Type ℓ where
  ok : A → Outcome A
  err : Error → Outcome A
  panic : Outcome A
  no_fuel : Outcome A

-- The loop that writes the parts.
write_parts : List ℤ → List (List ℤ) → Outcome (List ℤ)
write_parts secrets [] = ok secrets
write_parts secrets (p ∷ ps) =
    let rest = write_parts (secrets ++ (pos (length p) ∷ p)) ps in
    if ltb max_part_size (length p) then err part_too_large else rest

unfoldable pub secrets : Builder → Outcome (List ℤ)
unfolding write_parts
secrets b = if ltb parts_cap (length b.parts) then err too_many_parts else write_parts [] b.parts

-- `secrets[el : el+n]`: a negative n makes the bounds run backwards, which panics.
slice : List ℤ → ℕ → ℤ → Outcome (List ℤ)
slice xs el (pos n) = if leb (el + n) (length xs) then ok (take n (drop el xs)) else panic
slice xs el (ℤ.negsuc n) = panic

-- `el += nextPartLen` behind a slice that did not panic.
abbrev advance : ℕ → ℤ → ℕ
advance el (pos n) = el + n
advance el (ℤ.negsuc n) = el

-- The loop of `ParseSecrets`. `el` never falls, since a negative length panics at the slice first:
-- the source's test `el < 0` is never true, and `el` is a natural number here.
parse_loop : ℕ → List ℤ → ℕ → ℤ → Bool → List (List ℤ) → Outcome (List (List ℤ))
unfolding slice
parse_loop zero secrets el next_part_len is_len_el parts = no_fuel
parse_loop (suc fuel) secrets el next_part_len true parts =
    let n = int64 (get_or secrets el (pos 0)) in
    let rest = parse_loop fuel secrets (el + 1) n false parts in
    if ltb el (length secrets)
    then if ltb_ℤ (pos max_part_size) n then err part_too_large else rest
    else ok parts
parse_loop (suc fuel) secrets el next_part_len false parts =
    if ltb el (length secrets)
    then if leb parts_cap (length parts)
      then err too_many_parts
      else if ltb_ℤ (pos (length secrets)) (pos el +ℤ next_part_len)
      then err not_enough_data
      else elim (slice secrets el next_part_len) [
        | ok part ↦
            parse_loop fuel secrets (advance el next_part_len) next_part_len true
              (parts ++ part ∷ [])
        | err e ↦ err e
        | panic ↦ panic
        | no_fuel ↦ no_fuel
      ]
    else ok parts

-- Each pair of rounds reads at least the length, so this many rounds are enough.
unfoldable pub parse_secrets : List ℤ → Outcome (List (List ℤ))
unfolding parse_loop ◌+ℤ◌
parse_secrets secrets =
    if ltb (length secrets) 2
    then err too_small
    else parse_loop (2 * length secrets + 1) secrets 0 (pos 0) true []
