-- ===== src/Crypto/Point/Group.antt =====
-- The operations on points at the multiples of the base point.
use mpc_lib.Prelude.{
  ℕ, ◌+◌, ◌*◌, ◌%◌, ℤ, nat_abs, Bool, true, ◌&&◌, ◌≡◌, sym, ap, ◌∙◌, ◌↔◌, arith, bytes,
  set_bytes-bytes, ◌==ℤ◌, ==ℤ_iff, if◌then◌else◌,
}
use mpc_lib.Prelude.Result.{Result, ok, err, panic}
use mpc_lib.Crypto.Curve.{Curve, IsGroup, Coords}
use mpc_lib.Crypto.Point.{
  EcPoint, new_ec_point, add, or_panic, scalar_mult, scalar_base_mult, equals,
}

module _ (ec : Curve) (G : IsGroup ec) where
  -- The point k·G.
  abbrev pub at : ℕ → EcPoint
  at k = record { curve = ec; coords = G.point k }

  -- Its coordinates pass the curve's test.
  abbrev pub is_accepted : ℕ → Bool
  is_accepted k = ec.is_on_curve (G.point k)

  abbrev pub off_curve : Result EcPoint
  off_curve = err "NewECPoint: the given point is not on the elliptic curve"

  pub is_accepted_all : G.identity_on ≡ true → (k : ℕ) → is_accepted k ≡ true
  is_accepted_all h k = G.on_curve k ∙ ground arith

  pub add-at :
      (j k : ℕ) → add (at j) (at k) ≡ (if is_accepted (j + k) then ok (at (j + k)) else off_curve)
  unfolding add new_ec_point
  add-at j k = ap (new_ec_point ec) (G.add_points j k)

  checked : Coords → Result EcPoint
  checked xy = or_panic (new_ec_point ec xy)

  checked-point : (k : ℕ) → checked (G.point k) ≡ (if is_accepted k then ok (at k) else panic)
  unfolding checked or_panic new_ec_point
  checked-point k = ground arith

  pub scalar_mult-at :
      (j : ℕ) (k : ℤ)
      → scalar_mult (at j) k
        ≡ (if is_accepted (j * nat_abs k) then ok (at (j * nat_abs k)) else panic)
  unfolding scalar_mult checked
  scalar_mult-at j k =
      ap checked (G.mult j (bytes (nat_abs k)))
      ∙ ap (λ (t : ℕ). checked (G.point (j * t))) (set_bytes-bytes (nat_abs k))
      ∙ checked-point (j * nat_abs k)

  pub scalar_base_mult-at :
      (k : ℤ)
      → scalar_base_mult ec k ≡ (if is_accepted (nat_abs k) then ok (at (nat_abs k)) else panic)
  unfolding scalar_base_mult checked
  scalar_base_mult-at k =
      ap checked (G.base_mult (bytes (nat_abs k)))
      ∙ ap (λ (t : ℕ). checked (G.point t)) (set_bytes-bytes (nat_abs k))
      ∙ checked-point (nat_abs k)

  -- Points are equal where their scalars have one residue.
  pub equals-at : (j k : ℕ) → (equals (at j) (at k) ≡ true) ↔ (j % ec.n ≡ k % ec.n)
  unfolding equals
  equals-at j k = (
    λ h. G.point-injective j k (same (G.point j) (G.point k) h),
    λ h.
        agree (G.point j) (G.point k)
          (sym (G.point-mod j) ∙ ap (λ (t : ℕ). G.point t) h ∙ G.point-mod k),
  )
    where
      same : (p q : Coords) → ((p.0 ==ℤ q.0) && (p.1 ==ℤ q.1)) ≡ true → p ≡ q
      same p q h = ground (arith, (==ℤ_iff p.0 q.0).0, (==ℤ_iff p.1 q.1).0)

      agree : (p q : Coords) → p ≡ q → ((p.0 ==ℤ q.0) && (p.1 ==ℤ q.1)) ≡ true
      agree p q e = ground (arith, (==ℤ_iff p.0 q.0).1, (==ℤ_iff p.1 q.1).1)
