-- ===== src/Eddsa/Signing/Additive.antt =====
-- The share that `PrepareForSigning` makes and the summand of `ReConstruct`.
use mpc_lib.Prelude.{
  ℕ, ◌+◌, ◌<◌, ℤ, pos, ◌*ℤ◌, ◌-ℤ◌, *ℤ_assoc, one-*ℤ, *ℤ_comm, Option, none, some, List, [], ◌∷◌,
  length, AreCongruent, congruent_of_eq, congruent_sym, ◌⨾◌, congruent-*ℤ, congruent-emod, ◌==◌,
  ◌==ℤ◌, Bool-cases, inl, inr, ◌≡◌, refl, sym, ap, ◌∙◌, arith,
}
use mpc_lib.Prelude.Result.{ok, ◌>>=◌, nth, >>=-eq-ok}
use mpc_lib.Common.ModInt.{mul, sub, mod_inverse, inverse_from}
use mpc_lib.Crypto.Curve.{Curve}
use mpc_lib.Crypto.Vss.{lagrange_factor, lagrange_from}
use mpc_lib.Eddsa.Signing.Prepare.{inverse_or_panic, coefficient, weigh, prepare_for_signing}

module _ (q : ℕ) (h : 0 < q) where
  mod_inverse-sub : (a b : ℤ) → mod_inverse q (sub q a b) ≡ mod_inverse q (a -ℤ b)
  unfolding mod_inverse sub
  mod_inverse-sub a b =
      ap
        (λ (g : ℕ). elim (inverse_from q q 0 g) as (λ _. Option ℤ) [
          | none ↦ none
          | some i ↦ some (pos i)
        ])
        ((congruent-emod h (a -ℤ b)).residue)

  coefficient-lagrange_factor :
      (kj ki c : ℤ) → coefficient q kj ki ≡ ok c → lagrange_factor q kj ki ≡ ok c
  unfolding coefficient lagrange_factor inverse_or_panic
  coefficient-lagrange_factor kj ki c e = elim (Bool-cases (kj ==ℤ ki)) [
    | inl y ↦ absurd (ground arith)
    | inr n ↦ ground (arith, mod_inverse-sub kj ki)
  ]

  weigh-lagrange_from :
      (x ki : ℤ) (i j : ℕ) (wi t w : ℤ) (ks : List ℤ)
      → AreCongruent q wi (x *ℤ t)
      → weigh q i ki j wi ks ≡ ok w
      → (t' : ℤ) × (lagrange_from q i ki j t ks ≡ ok t') × AreCongruent q w (x *ℤ t')
  unfolding weigh lagrange_from
  weigh-lagrange_from x ki i j wi t w [] c e =
      let same : wi ≡ w = ground arith in (t, refl, congruent_sym (congruent_of_eq q same) ⨾ c)
  weigh-lagrange_from x ki i j wi t w (kj ∷ ks) c e = elim (Bool-cases (j == i)) [
    | inl own ↦
        let e' : weigh q i ki (j + 1) wi ks ≡ ok w = rw own at e in
        let (t', f, g) = weigh-lagrange_from x ki i (j + 1) wi t w ks c e' in (t', rw own f, g)
    | inr other ↦
        let e' : (do
          wi' ← (do coef ← coefficient q kj ki; ok (mul q wi coef))
          weigh q i ki (j + 1) wi' ks)
            ≡ ok w =
          rw other at e in
        let (wi', e1, e2) = >>=-eq-ok (do coef ← coefficient q kj ki; ok (mul q wi coef)) _ e' in
        let (coef, e3, e4) = >>=-eq-ok (coefficient q kj ki) _ e1 in
        let same : mul q wi coef ≡ wi' = ground arith in
        let (t', f, g) =
          weigh-lagrange_from x ki i (j + 1) wi' (mul q t coef) w ks (stepped wi t coef wi' c same)
            e2 in
        let factor = coefficient-lagrange_factor kj ki coef e3 in
        (t', rw other (ground (arith, factor, f)), g)
  ]
    where
      stepped :
          (wi t coef wi' : ℤ)
          → AreCongruent q wi (x *ℤ t)
          → mul q wi coef ≡ wi'
          → AreCongruent q wi' (x *ℤ mul q t coef)
      stepped wi t coef wi' c same =
          congruent_sym (congruent_of_eq q same)
          ⨾ unfold mul in
            congruent-emod h (wi *ℤ coef)
            ⨾ congruent-*ℤ h c (congruent_of_eq q refl)
            ⨾ congruent_of_eq q (*ℤ_assoc x t coef)
            ⨾ congruent-*ℤ h (congruent_of_eq q refl)
                (congruent_sym (unfold mul in congruent-emod h (t *ℤ coef)))

-- Where `PrepareForSigning` gives an additive share, `ReConstruct` finds a Lagrange coefficient for the
-- same index among the same keys, and the additive share is, modulo the order, the product of the
-- secret share and that coefficient.
pub prepare_for_signing_lem :
    (ec : Curve) (i pax : ℕ) (xi w : ℤ) (ks : List ℤ)
    → 0 < ec.n
    → prepare_for_signing ec i pax xi ks ≡ ok w
    → (ki : ℤ) × (t : ℤ) × (nth ks i ≡ ok ki)
      × (lagrange_from ec.n i ki 0 (pos 1) ks ≡ ok t)
      × AreCongruent ec.n w (xi *ℤ t)
unfolding prepare_for_signing
prepare_for_signing_lem ec i pax xi w ks h e = elim (Bool-cases (length ks == pax)) [
  | inl y ↦
      let e' : (do ksi ← nth ks i; weigh ec.n i ksi 0 xi ks) ≡ ok w = rw y at e in
      let (ki, f, g) = >>=-eq-ok (nth ks i) _ e' in
      let (t, l, c) =
        weigh-lagrange_from ec.n h xi ki i 0 xi (pos 1) w ks
          (congruent_of_eq ec.n (sym (*ℤ_comm xi (pos 1) ∙ one-*ℤ xi))) g in
      (ki, t, f, l, c)
  | inr n ↦ absurd (ground arith)
]
