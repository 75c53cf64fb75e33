-- ===== src/Common/Slice.antt =====
-- common/slice.go: numbers and byte strings, tests for empty ones, and padding. A nil slice is empty.
pub mod Laws
use mpc_lib.Prelude.{
  ℕ, zero, suc, ◌-◌, ℤ, pos, Bool, true, false, not, ◌&&◌, Option, none, some, List, [], ◌∷◌, map,
  length, all, nat_abs, bytes, set_bytes, ltb, ◌==◌, if◌then◌else◌,
}

-- A nil number is left as an empty byte string.
number_bytes : Option ℤ → List ℕ
number_bytes none = []
number_bytes (some n) = bytes (nat_abs n)

unfoldable pub big_ints_to_bytes : List (Option ℤ) → List (List ℕ)
unfolding number_bytes
big_ints_to_bytes big_ints = map number_bytes big_ints

unfoldable pub multi_bytes_to_big_ints : List (List ℕ) → List ℤ
multi_bytes_to_big_ints bzs = map (λ bz. pos (set_bytes bz)) bzs

unfoldable pub non_empty_bytes : List ℕ → Bool
non_empty_bytes bz = ltb 0 (length bz)

-- The optional argument `expectLen`.
has_expected_length : Option ℕ → ℕ → Bool
has_expected_length none n = true
has_expected_length (some expect_len) n = expect_len == n

unfoldable pub non_empty_multi_bytes : List (List ℕ) → Option ℕ → Bool
unfolding non_empty_bytes has_expected_length
non_empty_multi_bytes bzs expect_len =
    if length bzs == 0
    then false
    else if not (has_expected_length expect_len (length bzs))
    then false
    else all non_empty_bytes bzs

-- The loop puts one zero in front in each round.
pad_zeros : ℕ → List ℕ → List ℕ
pad_zeros zero src = src
pad_zeros (suc rounds) src = pad_zeros rounds (0 ∷ src)

unfoldable pub pad_to_length_bytes_in_place : List ℕ → ℕ → List ℕ
unfolding pad_zeros
pad_to_length_bytes_in_place src len =
    if ltb (length src) len then pad_zeros (len - length src) src else src
