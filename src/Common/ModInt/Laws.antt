-- ===== src/Common/ModInt/Laws.antt =====
-- What the modular operations compute.
use mpc_lib.Prelude.{
  ℕ, zero, suc, ◌+◌, ◌*◌, ◌%◌, ◌<◌, ◌≤◌, ◌≢◌, Bool-cases, inl, inr, ℤ, pos, true, false, Option,
  none, some, ◌+ℤ◌, ◌-ℤ◌, ◌*ℤ◌, ◌≤ℤ◌, emod, ediv, ◌≡◌, refl, sym, ap, ◌∙◌, ◌↔◌, arith, emod-lt,
  emod-*ℤ, emod_parts, eq_of_parts, -ℤ_parts, ℕ_discrete, emod_unique, +ℤ_parts, *ℤ_parts, pos_part,
  neg_part, ==_iff,
}
use native.Mathlib.Nat.{mod-mod, mod-eq_of_lt}
use mpc_lib.Common.ModInt.{inverse_from, mod_inverse, is_congruent, is_mult_inverse, is_in_interval}

-- Whether b is in [0, bound).
is_in_interval_iff :
    (b bound : ℤ) → (is_in_interval b bound ≡ true) ↔ ((pos 0 ≤ℤ b) × (b +ℤ pos 1 ≤ℤ bound))
unfolding is_in_interval ◌+ℤ◌
is_in_interval_iff b bound = (λ h. ground arith, λ h. ground arith)

emod-+ℤ-multiple : (m : ℕ) → 0 < m → (b k : ℤ) → emod (b +ℤ k *ℤ pos m) m ≡ emod b m
emod-+ℤ-multiple m h b k =
    emod_unique (b +ℤ k *ℤ pos m) m (emod b m) (neg_part (ediv b m) + neg_part k)
      (pos_part (ediv b m) + pos_part k) (emod-lt b m h)
      (omega (arith, emod_parts b m h, +ℤ_parts b (k *ℤ pos m), *ℤ_parts k (pos m)))

same_residue :
    (m : ℕ) → 0 < m → (a b : ℤ) → emod a m ≡ emod b m → a ≡ b +ℤ (ediv a m -ℤ ediv b m) *ℤ pos m
same_residue m h a b e = eq_of_parts _ _ (
    omega (
      arith,
      emod_parts a m h,
      emod_parts b m h,
      e,
      +ℤ_parts b ((ediv a m -ℤ ediv b m) *ℤ pos m),
      *ℤ_parts (ediv a m -ℤ ediv b m) (pos m),
      ap (λ (t : ℕ). t * m) (-ℤ_parts (ediv a m) (ediv b m)),
    ))

module _ (m : ℕ) (h : 0 < m) where
  -- `IsCongruent` tells whether the numbers differ by a multiple of the modulus.
  is_congruent_iff : (a b : ℤ) → (is_congruent m a b ≡ true) ↔ ((k : ℤ) × (a ≡ b +ℤ k *ℤ pos m))
  unfolding is_congruent
  is_congruent_iff a b = (
    λ c. (ediv a m -ℤ ediv b m, same_residue m h a b ((==_iff (emod a m) (emod b m)).0 c)),
    λ (k, e). (==_iff (emod a m) (emod b m)).1 (ap (λ x. emod x m) e ∙ emod-+ℤ-multiple m h b k),
  )

  -- The search finds the inverse, if it is among the numbers that are left.
  pub inverse_from-some :
      (rounds i g x : ℕ)
      → inverse_from m rounds i g ≡ some x
      → (g * x % m ≡ 1 % m) × (x < i + rounds)
  unfolding inverse_from
  inverse_from-some zero i g x e = absurd (cc)
  inverse_from-some (suc rounds) i g x e = ground (
    arith,
    λ (r : inverse_from m rounds (i + 1) g ≡ some x). inverse_from-some rounds (i + 1) g x r,
  )

  pub inverse_from-none :
      (rounds i g x : ℕ)
      → inverse_from m rounds i g ≡ none
      → i ≤ x
      → x < i + rounds
      → g * x % m ≢ 1 % m
  unfolding inverse_from
  inverse_from-none zero i g x e lo hi = absurd (omega arith)
  inverse_from-none (suc rounds) i g x e lo hi = elim (ℕ_discrete i x) [
    | yes same ↦ λ q. ground arith
    | no other ↦ λ q. ground (
      arith,
      λ (r : inverse_from m rounds (i + 1) g ≡ none) (l : i + 1 ≤ x).
          inverse_from-none rounds (i + 1) g x r l (omega arith) q,
    )
  ]

  is_mult_inverse_iff :
      (g x : ℤ) → (is_mult_inverse m g x ≡ true) ↔ (emod g m * emod x m % m ≡ 1 % m)
  unfolding is_mult_inverse emod
  is_mult_inverse_iff g x =
      let e = ap (λ (t : ℕ). t % m) (emod-*ℤ g x m h) ∙ mod-mod (emod g m * emod x m) m in
      (λ t. sym e ∙ (==_iff _ _).0 t, λ t. (==_iff _ _).1 (e ∙ t))

  -- `ModInverse` gives an inverse in [0, m), and nil only where no integer is one.
  mod_inverse_lem :
      (g : ℤ)
      → ((x : ℤ)
          → mod_inverse m g ≡ some x
          → (i : ℕ) × (x ≡ pos i) × (i < m) × (is_mult_inverse m g x ≡ true))
        × (mod_inverse m g ≡ none → (x : ℤ) → is_mult_inverse m g x ≡ false)
  unfolding mod_inverse
  mod_inverse_lem g = cases (inverse_from m m 0 (emod g m)) refl
    where
      found :
          (i : ℕ)
          → inverse_from m m 0 (emod g m) ≡ some i
          → (i < m) × (is_mult_inverse m g (pos i) ≡ true)
      found i e =
          let (p, lt) = inverse_from-some m 0 (emod g m) i e in
          let small : i < m = omega arith in
          (
            small,
            (is_mult_inverse_iff g (pos i)).1
                (unfold emod in ap (λ (t : ℕ). emod g m * t % m) (mod-eq_of_lt small) ∙ p),
          )

      missing : inverse_from m m 0 (emod g m) ≡ none → (x : ℤ) → is_mult_inverse m g x ≡ false
      missing e x = elim (Bool-cases (is_mult_inverse m g x)) [
        | inl t ↦ absurd (
            inverse_from-none m 0 (emod g m) (emod x m) e (omega arith)
              (omega (arith, emod-lt x m h)) ((is_mult_inverse_iff g x).0 t))
        | inr f ↦ f
      ]

      cases :
          (o : Option ℕ)
          → inverse_from m m 0 (emod g m) ≡ o
          → ((x : ℤ)
              → mod_inverse m g ≡ some x
              → (i : ℕ) × (x ≡ pos i) × (i < m) × (is_mult_inverse m g x ≡ true))
            × (mod_inverse m g ≡ none → (x : ℤ) → is_mult_inverse m g x ≡ false)
      cases none e = (λ x q. absurd (ground arith), λ q. missing e)
      cases (some i) e = (
        λ x q. (i, ground arith, (found i e).0, ground (arith, (found i e).1)),
        λ q. absurd (ground arith),
      )
