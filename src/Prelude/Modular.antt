-- ===== src/Prelude/Modular.antt =====
-- Residues: the Euclidean remainder of an integer by a positive number.
use Prim.Native.Nat.{ℕ, ◌+◌, ◌-◌, ◌*◌, ◌/◌, ◌%◌, ◌<◌}
use mathlib.Core.Path.{◌≡◌, sym, ap, ap₂, ◌∙◌}
use native.Mathlib.Omega.{arith}
use native.Mathlib.Nat.{
  mod-lt, mod-eq_of_lt, div-add-mod, add-mul-mod_self_left, add-mul-mod_self_right,
}
use mpc_lib.Prelude.Int.{
  ℤ, pos, negsuc, pos_part, neg_part, ◌+ℤ◌, ◌-ℤ◌, ◌*ℤ◌, +ℤ_parts, -ℤ_parts, *ℤ_parts,
}

-- `new(big.Int).Mod(a, m)` for m > 0: the remainder in [0, m), for a of either sign.
unfoldable pub emod : ℤ → ℕ → ℕ
emod (pos n) m = n % m
emod (negsuc n) m = m - 1 - n % m

-- `new(big.Int).Div(a, m)` for m > 0: the quotient that goes with it.
unfoldable pub ediv : ℤ → ℕ → ℤ
ediv (pos n) m = pos (n / m)
ediv (negsuc n) m = negsuc (n / m)

pub emod-lt : (a : ℤ) (m : ℕ) → 0 < m → emod a m < m
unfolding emod
emod-lt (pos n) m h = omega arith
emod-lt (negsuc n) m h = omega arith

-- The division's equation, over the parts of the quotient.
pub emod_parts :
    (a : ℤ) (m : ℕ)
    → 0 < m
    → pos_part a + neg_part (ediv a m) * m ≡ neg_part a + (emod a m + pos_part (ediv a m) * m)
unfolding emod ediv
emod_parts (pos n) m h = omega (arith, div-add-mod n m)
emod_parts (negsuc n) m h = omega (arith, div-add-mod n m, mod-lt n h)

-- A remainder is determined by such an equation.
pub emod_unique :
    (a : ℤ) (m r k l : ℕ) → r < m → pos_part a + k * m ≡ neg_part a + (r + l * m) → emod a m ≡ r
emod_unique a m r k l h e =
    let lt = emod-lt a m (omega arith) in
    sym (mod-eq_of_lt lt)
    ∙ sym (add-mul-mod_self_right (emod a m) (pos_part (ediv a m) + k) m)
    ∙ ap (λ (t : ℕ). t % m) (omega (arith, emod_parts a m (omega arith)))
    ∙ add-mul-mod_self_right r (l + neg_part (ediv a m)) m
    ∙ mod-eq_of_lt h

module _ (a b : ℤ) (m : ℕ) (h : 0 < m) where
  pub emod-+ℤ : emod (a +ℤ b) m ≡ (emod a m + emod b m) % m
  emod-+ℤ =
      emod_unique (a +ℤ b) m ((emod a m + emod b m) % m) (neg_part (ediv a m) + neg_part (ediv b m))
        (pos_part (ediv a m) + pos_part (ediv b m) + (emod a m + emod b m) / m) (mod-lt _ h)
        (omega (
          arith,
          emod_parts a m h,
          emod_parts b m h,
          +ℤ_parts a b,
          div-add-mod (emod a m + emod b m) m,
        ))

  pub emod--ℤ : emod (a -ℤ b) m ≡ (emod a m + (m - emod b m)) % m
  emod--ℤ =
      emod_unique (a -ℤ b) m ((emod a m + (m - emod b m)) % m)
        (neg_part (ediv a m) + pos_part (ediv b m) + 1)
        (pos_part (ediv a m) + neg_part (ediv b m) + (emod a m + (m - emod b m)) / m) (mod-lt _ h)
        (omega (
          arith,
          emod_parts a m h,
          emod_parts b m h,
          -ℤ_parts a b,
          emod-lt b m h,
          div-add-mod (emod a m + (m - emod b m)) m,
        ))

  emod-*ℤ_parts :
      let ka = neg_part (ediv a m) in
      let la = pos_part (ediv a m) in
      let kb = neg_part (ediv b m) in
      let lb = pos_part (ediv b m) in
      pos_part (a *ℤ b) + (emod a m * kb + emod b m * ka + (la * kb + ka * lb) * m) * m
      ≡ neg_part (a *ℤ b)
        + (emod a m * emod b m % m
            + (emod a m * lb + emod b m * la + (la * lb + ka * kb) * m + emod a m * emod b m / m)
              * m)
  emod-*ℤ_parts = omega (
    arith,
    *ℤ_parts a b,
    ap (λ (t : ℕ). t * pos_part b) (emod_parts a m h),
    ap (λ (t : ℕ). t * neg_part b) (emod_parts a m h),
    ap (λ (t : ℕ). t * (emod a m + pos_part (ediv a m) * m)) (emod_parts b m h),
    ap (λ (t : ℕ). t * (neg_part (ediv a m) * m)) (emod_parts b m h),
    div-add-mod (emod a m * emod b m) m,
  )

  pub emod-*ℤ : emod (a *ℤ b) m ≡ emod a m * emod b m % m
  emod-*ℤ = emod_unique (a *ℤ b) m _ _ _ (mod-lt _ h) emod-*ℤ_parts

-- Two integers with one residue.
pub record AreCongruent (m : ℕ) (a b : ℤ) : Type 0 where
  pub residue : emod a m ≡ emod b m

abbrev congruent : {m : ℕ} {a b : ℤ} → emod a m ≡ emod b m → AreCongruent m a b
congruent e = record { residue = e }

pub congruent_of_eq : (m : ℕ) {a b : ℤ} → a ≡ b → AreCongruent m a b
congruent_of_eq m e = congruent (ap (λ x. emod x m) e)

pub congruent_sym : {m : ℕ} {a b : ℤ} → AreCongruent m a b → AreCongruent m b a
congruent_sym p = congruent (sym p.residue)

infixr 30 ◌⨾◌
pub ◌⨾◌ : {m : ℕ} {a b c : ℤ} → AreCongruent m a b → AreCongruent m b c → AreCongruent m a c
p ⨾ q = congruent (p.residue ∙ q.residue)

module _ {m : ℕ} (h : 0 < m) where
  pub congruent-+ℤ :
      {a a' b b' : ℤ}
      → AreCongruent m a a'
      → AreCongruent m b b'
      → AreCongruent m (a +ℤ b) (a' +ℤ b')
  congruent-+ℤ {a} {a'} {b} {b'} p q = congruent (
      emod-+ℤ a b m h
      ∙ ap₂ (λ (s t : ℕ). (s + t) % m) p.residue q.residue
      ∙ sym (emod-+ℤ a' b' m h))

  pub congruent--ℤ :
      {a a' b b' : ℤ}
      → AreCongruent m a a'
      → AreCongruent m b b'
      → AreCongruent m (a -ℤ b) (a' -ℤ b')
  congruent--ℤ {a} {a'} {b} {b'} p q = congruent (
      emod--ℤ a b m h
      ∙ ap₂ (λ (s t : ℕ). (s + (m - t)) % m) p.residue q.residue
      ∙ sym (emod--ℤ a' b' m h))

  pub congruent-*ℤ :
      {a a' b b' : ℤ}
      → AreCongruent m a a'
      → AreCongruent m b b'
      → AreCongruent m (a *ℤ b) (a' *ℤ b')
  congruent-*ℤ {a} {a'} {b} {b'} p q =
      congruent (
        emod-*ℤ a b m h
        ∙ ap₂ (λ (s t : ℕ). s * t % m) p.residue q.residue
        ∙ sym (emod-*ℤ a' b' m h))

  pub congruent-emod : (a : ℤ) → AreCongruent m (pos (emod a m)) a
  congruent-emod a = congruent (unfold emod in mod-eq_of_lt (emod-lt a m h))

-- Remainders inside a sum of products may be dropped.
pub mod-mul-add : (r a b n : ℕ) → (r * (a % n) + b % n) % n ≡ (r * a + b) % n
mod-mul-add r a b n =
    sym (add-mul-mod_self_left (r * (a % n) + b % n) n (r * (a / n) + b / n))
    ∙ ap (λ (t : ℕ). t % n)
        (omega (arith, div-add-mod b n, ap (λ (t : ℕ). r * t) (div-add-mod a n)))

pub mod-add-mul_congr : (k c x y n : ℕ) → x % n ≡ y % n → (k + x * c) % n ≡ (k + y * c) % n
mod-add-mul_congr k c x y n e = reduced x ∙ ap (λ (t : ℕ). (k + t * c) % n) e ∙ sym (reduced y)
  where
    reduced : (z : ℕ) → (k + z * c) % n ≡ (k + z % n * c) % n
    reduced z =
        ap (λ (t : ℕ). t % n) (omega (arith, ap (λ (t : ℕ). t * c) (div-add-mod z n)))
        ∙ add-mul-mod_self_left (k + z % n * c) n (z / n * c)
