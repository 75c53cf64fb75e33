-- ===== src/Crypto/Vss/Sums.antt =====
-- The loop of `Verify` against commitments in the group.
use mpc_lib.Prelude.{
  ℕ, suc, ◌+◌, ◌*◌, ◌<◌, ℤ, pos, true, false, Option, none, some, List, [], ◌∷◌, map, length, ◌+ℤ◌,
  ◌*ℤ◌, ◌≡◌, refl, sym, ap, ◌∙◌, arith, emod, AreCongruent, congruent_of_eq, ◌⨾◌, congruent-+ℤ,
  congruent-*ℤ, congruent-emod, pos-*ℤ, pos-+ℤ, +ℤ_assoc, *ℤ_comm, *ℤ_assoc, *ℤ-+ℤ, +ℤ-zero,
  *ℤ-zero, ◌⊎◌, Bool-cases, inl, inr,
}
use mpc_lib.Prelude.Result.{Result, ok, panic}
use mpc_lib.Common.ModInt.{mul}
use mpc_lib.Crypto.Curve.{Curve, IsGroup}
use mpc_lib.Crypto.Point.{EcPoint}
use mpc_lib.Crypto.Point.Group.{at, is_accepted, is_accepted_all, add-at, scalar_mult-at}
use mpc_lib.Crypto.Vss.{verify_from}
use mpc_lib.Crypto.Vss.Polynomial.{poly_value}

rearrange :
    (v t a d p : ℤ) → v +ℤ a *ℤ (t *ℤ d) +ℤ t *ℤ d *ℤ (d *ℤ p) ≡ v +ℤ t *ℤ (d *ℤ (a +ℤ d *ℤ p))
rearrange v t a d p =
    +ℤ_assoc v (a *ℤ (t *ℤ d)) (t *ℤ d *ℤ (d *ℤ p))
    ∙ ap (λ s. v +ℤ (s +ℤ t *ℤ d *ℤ (d *ℤ p))) (*ℤ_comm a (t *ℤ d))
    ∙ ap (λ s. v +ℤ s) (sym (*ℤ-+ℤ (t *ℤ d) a (d *ℤ p)) ∙ *ℤ_assoc t d (a +ℤ d *ℤ p))

module _ (ec : Curve) (G : IsGroup ec) where
  -- What the loop gives: the point of the sum, or a stop at the identity where that is off the curve.
  abbrev pub Sums : ℤ → Result (Option EcPoint) → Type 0
  Sums s r =
      ((w : ℕ) × (r ≡ ok (some (at ec G w))) × AreCongruent ec.n (pos w) s)
      ⊎ ((G.identity_on ≡ false) × ((r ≡ ok none) ⊎ (r ≡ panic)))

  rejected : (k : ℕ) → is_accepted ec G k ≡ false → G.identity_on ≡ false
  rejected k h = elim (Bool-cases G.identity_on) [
    | inl t ↦ absurd (ground (arith, is_accepted_all ec G t k))
    | inr f ↦ f
  ]

  next_sum :
      (v t a : ℕ) (id p : ℤ)
      → AreCongruent ec.n
          (pos (v + a * emod (pos t *ℤ id) ec.n) +ℤ pos (emod (pos t *ℤ id) ec.n) *ℤ (id *ℤ p))
          (pos v +ℤ pos t *ℤ (id *ℤ (pos a +ℤ id *ℤ p)))
  next_sum v t a id p =
      let h : 0 < ec.n = omega (arith, G.order) in
      let t' = emod (pos t *ℤ id) ec.n in
      let t_ok = congruent-emod h (pos t *ℤ id) in
      let v_ok =
        congruent_of_eq ec.n (sym (pos-+ℤ v (a * t')) ∙ ap (λ s. pos v +ℤ s) (sym (pos-*ℤ a t')))
        ⨾ congruent-+ℤ h (congruent_of_eq ec.n {a = pos v} refl)
            (congruent-*ℤ h (congruent_of_eq ec.n {a = pos a} refl) t_ok) in
      congruent-+ℤ h v_ok (congruent-*ℤ h t_ok (congruent_of_eq ec.n {a = id *ℤ p} refl))
      ⨾ congruent_of_eq ec.n (rearrange (pos v) (pos t) (pos a) id p)

  module _ (rounds : ℕ) (id : ℤ) (t v a : ℕ) (vs : List EcPoint) where
    abbrev power : ℕ
    power = emod (pos t *ℤ id) ec.n

    abbrev round : Result (Option EcPoint)
    round = verify_from ec (suc rounds) id (pos t) (at ec G v) (at ec G a ∷ vs)

    round_sum :
        is_accepted ec G (a * power) ≡ true
        → is_accepted ec G (v + a * power) ≡ true
        → round ≡ verify_from ec rounds id (pos power) (at ec G (v + a * power)) vs
    unfolding verify_from mul
    round_sum h k = ground (arith, scalar_mult-at ec G a (pos power), add-at ec G v (a * power))

    round_off :
        is_accepted ec G (a * power) ≡ true
        → is_accepted ec G (v + a * power) ≡ false
        → round ≡ ok none
    unfolding verify_from mul
    round_off h k = ground (arith, scalar_mult-at ec G a (pos power), add-at ec G v (a * power))

    round_panic : is_accepted ec G (a * power) ≡ false → round ≡ panic
    unfolding verify_from mul
    round_panic h = ground (arith, scalar_mult-at ec G a (pos power))

  pub Sums-congruent :
      {s s' : ℤ} {r r' : Result (Option EcPoint)}
      → AreCongruent ec.n s s'
      → r' ≡ r
      → Sums s r
      → Sums s' r'
  Sums-congruent c e (inl (w, f, d)) = inl (w, e ∙ f, d ⨾ c)
  Sums-congruent c e (inr (f, inl g)) = inr (f, inl (e ∙ g))
  Sums-congruent c e (inr (f, inr g)) = inr (f, inr (e ∙ g))

  pub verify_from-Sums :
      (cs : List ℕ) (id : ℤ) (t v : ℕ)
      → Sums
          (pos v +ℤ pos t *ℤ (id *ℤ poly_value (map pos cs) id))
          (verify_from ec (length cs) id (pos t) (at ec G v) (map (at ec G) cs))
  unfolding verify_from poly_value
  verify_from-Sums [] id t v = inl (
    v,
    refl,
    congruent_of_eq ec.n (
        sym (
          ap (λ s. pos v +ℤ pos t *ℤ s) (*ℤ-zero id)
          ∙ ap (λ s. pos v +ℤ s) (*ℤ-zero (pos t))
          ∙ +ℤ-zero (pos v))),
  )
  verify_from-Sums (a ∷ cs) id t v = elim (Bool-cases (is_accepted ec G (a * t'))) [
    | inr off ↦ inr (rejected (a * t') off, inr (round_panic n id t v a vs off))
    | inl on ↦ elim (Bool-cases (is_accepted ec G (v + a * t'))) [
      | inr off ↦ inr (rejected (v + a * t') off, inl (round_off n id t v a vs on off))
      | inl on' ↦
          Sums-congruent (next_sum v t a id (poly_value (map pos cs) id))
            (round_sum n id t v a vs on on') (verify_from-Sums cs id t' (v + a * t'))
    ]
  ]
    where
      n : ℕ
      n = length cs

      t' : ℕ
      t' = emod (pos t *ℤ id) ec.n

      vs : List EcPoint
      vs = map (at ec G) cs
