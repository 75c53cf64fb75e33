-- ===== src/Common/ModInt.antt =====
-- common/int.go: arithmetic on `*big.Int` reduced by a modulus. A modulus is a positive number here;
-- every caller in the repository passes a curve order or a product of primes.
pub mod Laws
pub mod Powers
pub mod Inverses
use mpc_lib.Prelude.{
  ℕ, zero, suc, ◌+◌, ◌*◌, ◌%◌, ℤ, pos, negsuc, Bool, ◌&&◌, not, Option, none, some, List, ◌++◌,
  ◌==◌, if◌then◌else◌, ◌+ℤ◌, ◌-ℤ◌, ◌*ℤ◌, ltb_ℤ, nat_abs, emod, ediv, bytes,
}

module _ (m : ℕ) where
  unfoldable pub reduce : ℤ → ℤ
  reduce x = pos (emod x m)

  unfoldable pub add : ℤ → ℤ → ℤ
  add x y = pos (emod (x +ℤ y) m)

  unfoldable pub sub : ℤ → ℤ → ℤ
  sub x y = pos (emod (x -ℤ y) m)

  -- Euclidean division of `big.Int`, then the remainder. `none` is the panic on a zero divisor.
  unfoldable pub div : ℤ → ℤ → Option ℤ
  div x (pos zero) = none
  div x (pos (suc d)) = some (pos (emod (ediv x (suc d)) m))
  div x (negsuc d) = some (pos (emod (pos 0 -ℤ ediv x (suc d)) m))

  unfoldable pub mul : ℤ → ℤ → ℤ
  mul x y = pos (emod (x *ℤ y) m)

  -- The first of 0, 1, …, that times g leaves 1: `rounds` counts down to the modulus.
  unfoldable pub inverse_from : ℕ → ℕ → ℕ → Option ℕ
  inverse_from zero i g = none
  inverse_from (suc rounds) i g =
      let later = inverse_from rounds (i + 1) g in if g * i % m == 1 % m then some i else later

  -- `(*big.Int).ModInverse`: the inverse in [0, m), and nil where there is none.
  unfoldable pub mod_inverse : ℤ → Option ℤ
  unfolding inverse_from
  mod_inverse g = elim (inverse_from m 0 (emod g m)) [ none ↦ none | some i ↦ some (pos i) ]

  unfoldable pub power : ℕ → ℕ → ℕ
  power b zero = 1 % m
  power b (suc e) = b * power b e % m

  -- `(*big.Int).Exp` with a modulus: a negative exponent asks for the inverse, and nil is its failure.
  unfoldable pub exp : ℤ → ℤ → Option ℤ
  unfolding power inverse_from
  exp x (pos e) = some (pos (power (emod x m) e))
  exp x (negsuc e) = elim (inverse_from m 0 (emod x m)) [
    | none ↦ none
    | some i ↦ some (pos (power i (suc e)))
  ]

  unfoldable pub is_congruent : ℤ → ℤ → Bool
  is_congruent a b = emod a m == emod b m

  unfoldable pub is_additive_inverse : ℤ → ℤ → Bool
  unfolding is_congruent add
  is_additive_inverse a b = is_congruent (add a b) (pos 0)

  unfoldable pub is_mult_inverse : ℤ → ℤ → Bool
  unfolding is_congruent mul
  is_mult_inverse a b = is_congruent (mul a b) (pos 1)

unfoldable pub is_in_interval : ℤ → ℤ → Bool
is_in_interval b bound = ltb_ℤ b bound && not (ltb_ℤ b (pos 0))

unfoldable pub append_big_int_to_bytes_slice : List ℕ → ℤ → List ℕ
append_big_int_to_bytes_slice common_bytes appended = common_bytes ++ bytes (nat_abs appended)
