-- ===== src/Common/ModInt/Inverses.antt =====
-- `ModInverse` where an inverse is known to exist, and the roots that it gives.
use mpc_lib.Prelude.{
  ℕ, ◌+◌, ◌*◌, ◌/◌, ◌%◌, ◌^◌, ◌<◌, ◌≡◌, refl, sym, ap, ◌∙◌, arith, pos, emod, Option, some, none,
}
use native.Mathlib.Nat.{mod-lt, mod-eq_of_lt, div-add-mod, pow-zero}
use mpc_lib.Common.ModInt.{mod_inverse, inverse_from}
use mpc_lib.Common.ModInt.Laws.{inverse_from-some, inverse_from-none}
use mpc_lib.Common.ModInt.Powers.{
  mul-mod_congr, mul-mod_left_drop, mul-mod_right_drop, pow-add, pow-mul, pow-mod, pow-mod_congr,
  one-pow, pow-suc_left,
}

module _ (m : ℕ) (big : 1 < m) where
  pub one-mod : 1 % m ≡ 1
  one-mod = mod-eq_of_lt big

  m_pos : 0 < m
  m_pos = omega arith

  found_from :
      (g i : ℕ)
      → g * i % m ≡ 1
      → (o : Option ℕ) → inverse_from m m 0 (g % m) ≡ o
      → (j : ℕ) × (inverse_from m m 0 (g % m) ≡ some j) × (g * j % m ≡ 1)
  found_from g i e none q = absurd (
      inverse_from-none m m_pos m 0 (g % m) (i % m) q (omega arith) (omega (arith, mod-lt i m_pos))
        (mul-mod_right_drop (g % m) i m ∙ mul-mod_left_drop g i m ∙ e ∙ sym one-mod))
  found_from g i e (some j) q = (
    j,
    q,
    sym (mul-mod_left_drop g j m) ∙ (inverse_from-some m m_pos m 0 (g % m) j q).0 ∙ one-mod,
  )

  -- An inverse is found, if there is one.
  pub mod_inverse-unit :
      (g i : ℕ) → g * i % m ≡ 1 → (j : ℕ) × (mod_inverse m (pos g) ≡ some (pos j)) × (g * j % m ≡ 1)
  unfolding emod mod_inverse
  mod_inverse-unit g i e =
      let (j, found, inverts) = found_from g i e (inverse_from m m 0 (g % m)) refl in
      (j, rw (mod_inverse, found) refl, inverts)

  -- The inverse of 1 is 1.
  pub inverse_of_one : (g : ℕ) → g % m ≡ 1 → inverse_from m m 0 (g % m) ≡ some 1
  inverse_of_one g one =
      let (j, found, inverts) =
        found_from g 1 (ap (λ (t : ℕ). t % m) (omega arith) ∙ one) (inverse_from m m 0 (g % m))
          refl in
      let whole : j ≡ 1 * j = omega arith in
      let small : j < m = omega (arith, (inverse_from-some m m_pos m 0 (g % m) j found).1) in
      let value : j ≡ 1 =
        sym (mod-eq_of_lt small)
        ∙ ap (λ (t : ℕ). t % m) whole
        ∙ ap (λ (t : ℕ). t * j % m) (sym one)
        ∙ mul-mod_left_drop g j m
        ∙ inverts in
      found ∙ ap some value

  -- Raising to e and then to j is undone where e j is 1 more than a multiple of an exponent that
  -- gives 1.
  pub power-root :
      (v a e j k : ℕ) → v < m → v ^ a % m ≡ 1 → e * j ≡ 1 + a * k → (v ^ e % m) ^ j % m ≡ v
  power-root v a e j k lt unit split =
      let whole : (v ^ a) ^ k % m ≡ 1 % m =
        pow-mod_congr (v ^ a) 1 k m (unit ∙ sym one-mod) ∙ ap (λ (t : ℕ). t % m) (one-pow k) in
      let first : v ^ 1 ≡ v = rw (pow-suc_left v 0, pow-zero v) (omega arith) in
      pow-mod (v ^ e) j m
      ∙ ap (λ (t : ℕ). t % m)
          (sym (pow-mul v e j)
            ∙ ap (λ (t : ℕ). v ^ t) split
            ∙ pow-add v 1 (a * k)
            ∙ ap (λ (t : ℕ). v ^ 1 * t) (pow-mul v a k))
      ∙ mul-mod_congr (v ^ 1) v ((v ^ a) ^ k) 1 m (ap (λ (t : ℕ). t % m) first) whole
      ∙ ap (λ (t : ℕ). t % m) (omega arith)
      ∙ mod-eq_of_lt lt

-- A number that is 1 modulo another is 1 more than a multiple.
pub one_more : (a m : ℕ) → a % m ≡ 1 → a ≡ 1 + m * (a / m)
one_more a m e = omega (arith, e, div-add-mod a m)
