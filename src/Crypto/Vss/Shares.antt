-- ===== src/Crypto/Vss/Shares.antt =====
-- Which shares `Verify` accepts against commitments in the group.
use mpc_lib.Prelude.{
  ℕ, ◌%◌, ℤ, pos, Bool, true, false, Option, none, some, List, ◌∷◌, map, length, ◌+ℤ◌, ◌*ℤ◌, ◌≡◌,
  refl, sym, ap, ◌∙◌, arith, emod, AreCongruent, congruent_of_eq, congruent_sym, ◌⨾◌, one-*ℤ, ◌↔◌,
  Bool-cases, inl, inr,
}
use mpc_lib.Prelude.Result.{Result, ok, panic, ◌>>=◌}
use mpc_lib.Crypto.Curve.{Curve, IsGroup}
use mpc_lib.Crypto.Point.{EcPoint, equals}
use mpc_lib.Crypto.Point.Group.{at, is_accepted, is_accepted_all, scalar_base_mult-at, equals-at}
use mpc_lib.Crypto.Vss.{verify_from, compare_commitment, verify}
use mpc_lib.Crypto.Vss.Polynomial.{poly_value}
use mpc_lib.Crypto.Vss.Sums.{Sums, Sums-congruent, verify_from-Sums}

module _ (ec : Curve) (G : IsGroup ec) where
  -- The commitments to the coefficients a, cs of a polynomial.
  abbrev pub commitments : ℕ → List ℕ → Option (List EcPoint)
  commitments a cs = some (at ec G a ∷ map (at ec G) cs)

  compare-at :
      (s w : ℕ)
      → is_accepted ec G s ≡ true
      → (b : Bool) × (compare_commitment ec (pos s) (some (at ec G w)) ≡ ok b)
        × ((b ≡ true) ↔ (s % ec.n ≡ w % ec.n))
  unfolding compare_commitment
  compare-at s w h = (
    equals (at ec G s) (at ec G w),
    ground (arith, scalar_base_mult-at ec G (pos s)),
    equals-at ec G s w,
  )

  compare_panic :
      (s w : ℕ)
      → is_accepted ec G s ≡ false
      → compare_commitment ec (pos s) (some (at ec G w)) ≡ panic
  unfolding compare_commitment
  compare_panic s w h = ground (arith, scalar_base_mult-at ec G (pos s))

  scalars : (s w : ℕ) → s % ec.n ≡ w % ec.n → AreCongruent ec.n (pos s) (pos w)
  scalars s w e = record { residue = unfold emod in e }

  compared :
      (s : ℕ) (v : ℤ) (r : Result (Option EcPoint))
      → Sums ec G v r
      → (do sum ← r; compare_commitment ec (pos s) sum) ≡ ok true
      → AreCongruent ec.n (pos s) v
  compared s v r (inl (w, e, c)) h =
      let h' : compare_commitment ec (pos s) (some (at ec G w)) ≡ ok true = rw e at h in
      elim (Bool-cases (is_accepted ec G s)) [
        | inl on ↦ let (b, f, same) = compare-at s w on in scalars s w (same.0 (cc (f, h'))) ⨾ c
        | inr off ↦ absurd (cc (compare_panic s w off, h'))
      ]
  compared s v r (inr (off, inl e)) h =
      let h' : compare_commitment ec (pos s) none ≡ ok true = rw e at h in
      absurd (unfold compare_commitment in cc (h'))
  compared s v r (inr (off, inr e)) h = let h' : panic ≡ ok true = rw e at h in absurd (cc (h'))

  verify-Sums :
      (a : ℕ) (cs : List ℕ) (id : ℤ)
      → Sums ec G
          (poly_value (pos a ∷ map pos cs) id)
          (verify_from ec (length cs) id (pos 1) (at ec G a) (map (at ec G) cs))
  unfolding poly_value
  verify-Sums a cs id =
      Sums-congruent ec G
        (congruent_of_eq ec.n (ap (λ s. pos a +ℤ s) (one-*ℤ (id *ℤ poly_value (map pos cs) id))))
        refl (verify_from-Sums ec G cs id 1 a)

  verify-eq :
      (a : ℕ) (cs : List ℕ) (id : ℤ) (s : ℕ)
      → verify ec
          (length cs)
          (commitments a cs)
          (record { threshold = length cs; id = id; share = pos s })
        ≡ (do
          sum ← verify_from ec (length cs) id (pos 1) (at ec G a) (map (at ec G) cs)
          compare_commitment ec (pos s) sum)
  unfolding verify
  verify-eq a cs id s = ground arith

  -- A share that `Verify` accepts against commitments in the group lies on the polynomial that they
  -- commit to, on any curve.
  verify_sound :
      (a : ℕ) (cs : List ℕ) (id : ℤ) (s : ℕ)
      → verify ec
          (length cs)
          (commitments a cs)
          (record { threshold = length cs; id = id; share = pos s })
        ≡ ok true
      → AreCongruent ec.n (pos s) (poly_value (pos a ∷ map pos cs) id)
  verify_sound a cs id s h = compared s _ _ (verify-Sums a cs id) (sym (verify-eq a cs id s) ∙ h)

  pub verify_iff :
      (a : ℕ) (cs : List ℕ) (id : ℤ) (s : ℕ)
      → G.identity_on ≡ true
      → (b : Bool) × (verify ec
            (length cs)
            (commitments a cs)
            (record { threshold = length cs; id = id; share = pos s })
          ≡ ok b)
        × ((b ≡ true) ↔ AreCongruent ec.n (pos s) (poly_value (pos a ∷ map pos cs) id))
  verify_iff a cs id s h = answer (verify-Sums a cs id)
    where
      v : ℤ
      v = poly_value (pos a ∷ map pos cs) id

      sum : Result (Option EcPoint)
      sum = verify_from ec (length cs) id (pos 1) (at ec G a) (map (at ec G) cs)

      answer :
          Sums ec G v sum
          → (b : Bool) × (verify ec
                (length cs)
                (commitments a cs)
                (record { threshold = length cs; id = id; share = pos s })
              ≡ ok b)
            × ((b ≡ true) ↔ AreCongruent ec.n (pos s) v)
      answer (inr (off, _)) = absurd (cc (off, h))
      answer (inl (w, e, c)) =
          let (b, f, same) = compare-at s w (is_accepted_all ec G h s) in
          (
            b,
            verify-eq a cs id s ∙ rw e f,
            (
              λ t. scalars s w (same.0 t) ⨾ c,
              λ d. same.1 (unfold emod in (d ⨾ congruent_sym c).residue),
            ),
          )
