-- ===== src/Crypto/Vss/Polynomial.antt =====
-- `evaluatePolynomial` against the polynomial over the integers.
use mpc_lib.Prelude.{
  ℕ, suc, ◌<◌, ℤ, pos, List, [], ◌∷◌, length, ◌+ℤ◌, ◌*ℤ◌, ◌≡◌, refl, sym, ap, ◌∙◌, emod,
  AreCongruent, congruent_of_eq, ◌⨾◌, congruent-+ℤ, congruent-*ℤ, congruent-emod, emod-lt, +ℤ_assoc,
  *ℤ_comm, *ℤ_assoc, *ℤ-+ℤ, +ℤ-zero, *ℤ-zero, one-*ℤ,
}
use mpc_lib.Prelude.Result.{ok}
use native.Mathlib.Nat.{mod-eq_of_lt}
use mpc_lib.Common.ModInt.{add, mul}
use mpc_lib.Crypto.Curve.{Curve}
use mpc_lib.Crypto.Vss.{evaluate_from, evaluate_polynomial}

-- The value at x of the polynomial with these coefficients, the constant one first.
unfoldable pub poly_value : List ℤ → ℤ → ℤ
poly_value [] x = pos 0
poly_value (a ∷ v) x = a +ℤ x *ℤ poly_value v x

rearrange :
    (r a x d p : ℤ) → r +ℤ a *ℤ (x *ℤ d) +ℤ x *ℤ d *ℤ (d *ℤ p) ≡ r +ℤ x *ℤ (d *ℤ (a +ℤ d *ℤ p))
rearrange r a x d p =
    +ℤ_assoc r (a *ℤ (x *ℤ d)) (x *ℤ d *ℤ (d *ℤ p))
    ∙ ap (λ t. r +ℤ (t +ℤ x *ℤ d *ℤ (d *ℤ p))) (*ℤ_comm a (x *ℤ d))
    ∙ ap (λ t. r +ℤ t) (sym (*ℤ-+ℤ (x *ℤ d) a (d *ℤ p)) ∙ *ℤ_assoc x d (a +ℤ d *ℤ p))

module _ (q : ℕ) (h : 0 < q) where
  -- One round keeps the sum of what is read and what is still to be read.
  step_sum :
      (a id x result p : ℤ)
      → AreCongruent q
          (add q result (a *ℤ mul q x id) +ℤ mul q x id *ℤ (id *ℤ p))
          (result +ℤ x *ℤ (id *ℤ (a +ℤ id *ℤ p)))
  unfolding add mul
  step_sum a id x result p =
      let x_ok = congruent-emod h (x *ℤ id) in
      let same = congruent_of_eq q {a = a} refl in
      let sum_ok =
        congruent-emod h (result +ℤ a *ℤ mul q x id)
        ⨾ congruent-+ℤ h (congruent_of_eq q {a = result} refl) (congruent-*ℤ h same x_ok) in
      congruent-+ℤ h sum_ok (congruent-*ℤ h x_ok (congruent_of_eq q {a = id *ℤ p} refl))
      ⨾ congruent_of_eq q (rearrange result a x id p)

  evaluate_from_reduced :
      (v : List ℤ) (id x : ℤ) (k : ℕ)
      → k < q
      → evaluate_from q (length v) id x (pos k) v
        ≡ ok (pos (emod (pos k +ℤ x *ℤ (id *ℤ poly_value v id)) q))
  unfolding evaluate_from poly_value add
  evaluate_from_reduced [] id x k lt =
      let e : pos k +ℤ x *ℤ (id *ℤ pos 0) ≡ pos k =
        ap (λ t. pos k +ℤ x *ℤ t) (*ℤ-zero id)
        ∙ ap (λ t. pos k +ℤ t) (*ℤ-zero x)
        ∙ +ℤ-zero (pos k) in
      ap ok (ap pos (sym (ap (λ t. emod t q) e ∙ unfold emod in mod-eq_of_lt lt)))
  evaluate_from_reduced (a ∷ v) id x k lt =
      let x' = mul q x id in
      evaluate_from_reduced v id x' (emod (pos k +ℤ a *ℤ x') q) (emod-lt (pos k +ℤ a *ℤ x') q h)
      ∙ ap ok (ap pos (step_sum a id x (pos k) (poly_value v id)).residue)

  pub evaluate_from_lem :
      (a : ℤ) (v : List ℤ) (id result : ℤ)
      → evaluate_from q (suc (length v)) id (pos 1) result (a ∷ v)
        ≡ ok (pos (emod (poly_value (result ∷ a ∷ v) id) q))
  unfolding evaluate_from poly_value add
  evaluate_from_lem a v id result =
      let x' = mul q (pos 1) id in
      evaluate_from_reduced v id x' (emod (result +ℤ a *ℤ x') q) (emod-lt (result +ℤ a *ℤ x') q h)
      ∙ ap ok (ap pos (step_sum a id (pos 1) result (poly_value v id)).residue)
      ∙ ap (λ t. ok (pos (emod (result +ℤ t) q))) (one-*ℤ (id *ℤ (a +ℤ id *ℤ poly_value v id)))

-- At a threshold of at least 1, `evaluatePolynomial` gives the residue of the polynomial's value.
pub evaluate_polynomial_lem :
    (ec : Curve) (a b : ℤ) (v : List ℤ) (id : ℤ)
    → 0 < ec.n
    → evaluate_polynomial ec (suc (length v)) (a ∷ b ∷ v) id
      ≡ ok (pos (emod (poly_value (a ∷ b ∷ v) id) ec.n))
unfolding evaluate_polynomial
evaluate_polynomial_lem ec a b v id h = evaluate_from_lem ec.n h b v id a
