-- ===== src/Crypto/Schnorr/TwoScalars.antt =====
-- The proofs for V = s·R + l·G.
use mpc_lib.Prelude.{
  ℕ, ◌+◌, ◌*◌, ◌%◌, pos, Bool, true, List, [], ◌∷◌, ◌+ℤ◌, ◌*ℤ◌, ◌≡◌, refl, ap, ◌∙◌, ◌↔◌, arith,
  emod, mod-mul-add, mod-add-mul_congr, pos-*ℤ, pos-+ℤ,
}
use mpc_lib.Prelude.Result.{ok}
use mpc_lib.Common.ModInt
use mpc_lib.Crypto.Curve.{Curve, IsGroup}
use mpc_lib.Crypto.Point.{is_on_curve}
use mpc_lib.Crypto.Point.Group.{at, is_accepted_all}
use mpc_lib.Crypto.Schnorr.{ZkvProof, same_coords, new_zkv_proof, verify_v}
use mpc_lib.Crypto.Schnorr.Completeness.{
  mult_ok, base_ok, add_ok, challenge_of, challenge-eq, same_coords_iff,
}

module _ (sum : List ℕ → List ℕ) (ec : Curve) (G : IsGroup ec) (on : G.identity_on ≡ true)
    (session : List ℕ) (v r : ℕ) where
  -- The challenge for a proof about v·G and R = r·G with the commitment k·G.
  abbrev pub proof_challenge : ℕ → ℕ
  proof_challenge k =
      challenge_of sum ec G on session (G.point v ∷ G.point r ∷ ec.g ∷ G.point k ∷ [])

  -- On a proof in the group the verifier answers whether t·R + u·G = alpha + c·V.
  verify_v_iff :
      (k t u : ℕ)
      → (b : Bool) × (verify_v sum session
            (at ec G v)
            (at ec G r)
            (record { alpha = at ec G k; t = pos t; u = pos u })
          ≡ ok b)
        × ((b ≡ true) ↔ ((r * t + u) % ec.n ≡ (k + v * proof_challenge k) % ec.n))
  unfolding verify_v is_on_curve
  verify_v_iff k t u = (
    same_coords (at ec G (r * t + u)) (at ec G (k + v * proof_challenge k)),
    ground (
      arith,
      is_accepted_all ec G on k,
      challenge-eq sum ec G on session (G.point v) (G.point r ∷ ec.g ∷ G.point k ∷ []),
      mult_ok sum ec G on r (pos t),
      base_ok sum ec G on (pos u),
      add_ok sum ec G on (r * t) u,
      mult_ok sum ec G on v (pos (proof_challenge k)),
      add_ok sum ec G on k (v * proof_challenge k),
    ),
    same_coords_iff sum ec G on (r * t + u) (k + v * proof_challenge k),
  )

  response : (a c s : ℕ) → ModInt.add ec.n (pos a) (pos c *ℤ pos s) ≡ pos ((a + c * s) % ec.n)
  response a c s =
      unfold ModInt.add in
      ap pos (
        ap (λ k. emod (pos a +ℤ k) ec.n) (pos-*ℤ c s)
        ∙ ap (λ k. emod k ec.n) (pos-+ℤ a (c * s))
        ∙ unfold emod in refl)

  -- A proof made with scalars s and l such that V = s·R + l·G, and any random scalars a and b, is
  -- accepted, where the identity is on the curve.
  pub new_zkv_proof-verify_v :
      (s l a b : ℕ)
      → (r * s + l) % ec.n ≡ v % ec.n
      → (pf : ZkvProof) × (new_zkv_proof sum session
            (at ec G v)
            (at ec G r)
            (pos s)
            (pos l)
            (pos a)
            (pos b)
          ≡ ok pf)
        × (verify_v sum session (at ec G v) (at ec G r) pf ≡ ok true)
  unfolding new_zkv_proof is_on_curve
  new_zkv_proof-verify_v s l a b h = (
    record { alpha = at ec G k; t = pos ((a + c * s) % ec.n); u = pos ((b + c * l) % ec.n) },
    ground (
      arith,
      is_accepted_all ec G on v,
      is_accepted_all ec G on r,
      mult_ok sum ec G on r (pos a),
      base_ok sum ec G on (pos b),
      add_ok sum ec G on (r * a) b,
      challenge-eq sum ec G on session (G.point v) (G.point r ∷ ec.g ∷ G.point k ∷ []),
      response a c s,
      response b c l,
    ),
    accepted,
  )
    where
      k : ℕ
      k = r * a + b

      c : ℕ
      c = proof_challenge k

      equation : (r * ((a + c * s) % ec.n) + (b + c * l) % ec.n) % ec.n ≡ (k + v * c) % ec.n
      equation =
          mod-mul-add r (a + c * s) (b + c * l) ec.n
          ∙ ap (λ (t : ℕ). t % ec.n) (omega arith)
          ∙ mod-add-mul_congr k c (r * s + l) v ec.n h

      accepted :
          verify_v sum session (at ec G v) (at ec G r) (record {
            alpha = at ec G k;
            t = pos ((a + c * s) % ec.n);
            u = pos ((b + c * l) % ec.n);
          })
          ≡ ok true
      accepted =
          let (x, e, same) = verify_v_iff k ((a + c * s) % ec.n) ((b + c * l) % ec.n) in
          e ∙ ap ok (same.1 equation)
