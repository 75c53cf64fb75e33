-- ===== src/Crypto/Schnorr/Completeness.antt =====
-- Which proofs the verifiers accept.
use mpc_lib.Prelude.{
  ℕ, ◌+◌, ◌*◌, ◌%◌, ℤ, pos, Bool, true, List, [], ◌∷◌, ◌+ℤ◌, ◌*ℤ◌, ◌≡◌, refl, sym, ap, ◌∙◌, ◌↔◌,
  arith, emod, nat_abs, pos-*ℤ, pos-+ℤ,
}
use mpc_lib.Prelude.Result.{ok}
use mpc_lib.Common.Hash.{sha512_256i_tagged}
use mpc_lib.Common.Challenge.{rejection_sample}
use mpc_lib.Common.ModInt
use mpc_lib.Crypto.Curve.{Curve, Coords, IsGroup}
use mpc_lib.Crypto.Point
use mpc_lib.Crypto.Point.{EcPoint, scalar_mult, scalar_base_mult, is_on_curve, equals}
use native.Mathlib.Nat.{mul_comm, mod-mod}
use mpc_lib.Crypto.Point.Group.{
  at, is_accepted_all, add-at, scalar_mult-at, scalar_base_mult-at, equals-at,
}
use mpc_lib.Crypto.Schnorr.{ZkProof, hash_points, same_coords, challenge, new_zk_proof, verify}

module _ (sum : List ℕ → List ℕ) (ec : Curve) (G : IsGroup ec) (on : G.identity_on ≡ true) where
  pub mult_ok : (j : ℕ) (k : ℤ) → scalar_mult (at ec G j) k ≡ ok (at ec G (j * nat_abs k))
  mult_ok j k = ground (arith, scalar_mult-at ec G j k, is_accepted_all ec G on (j * nat_abs k))

  pub base_ok : (k : ℤ) → scalar_base_mult ec k ≡ ok (at ec G (nat_abs k))
  base_ok k = ground (arith, scalar_base_mult-at ec G k, is_accepted_all ec G on (nat_abs k))

  pub add_ok : (j k : ℕ) → Point.add (at ec G j) (at ec G k) ≡ ok (at ec G (j + k))
  add_ok j k = ground (arith, add-at ec G j k, is_accepted_all ec G on (j + k))

  -- The challenge is a number, since there is something to hash.
  pub challenge_of : List ℕ → List Coords → ℕ
  challenge_of session points = elim (challenge sum ec.n session points) [ ok c ↦ c | _ ↦ 0 ]

  pub challenge-eq :
      (session : List ℕ) (p : Coords) (points : List Coords)
      → challenge sum ec.n session (p ∷ points) ≡ ok (challenge_of session (p ∷ points))
  unfolding challenge challenge_of hash_points sha512_256i_tagged rejection_sample
  challenge-eq session (x, y) points = refl

  pub same_coords_iff :
      (j k : ℕ) → (same_coords (at ec G j) (at ec G k) ≡ true) ↔ (j % ec.n ≡ k % ec.n)
  same_coords_iff j k = unfold same_coords equals in equals-at ec G j k

  module _ (session : List ℕ) (x a : ℕ) where
    -- The challenge for a proof about x·G with the commitment a·G.
    abbrev pub proof_challenge : ℕ
    proof_challenge = challenge_of session (G.point x ∷ ec.g ∷ G.point a ∷ [])

    -- On a proof in the group the verifier answers whether t·G = alpha + c·X.
    zk_verify_iff :
        (t : ℕ)
        → (b : Bool) × (verify sum session (at ec G x) (record { alpha = at ec G a; t = pos t })
            ≡ ok b)
          × ((b ≡ true) ↔ ((a + x * proof_challenge) % ec.n ≡ t % ec.n))
    unfolding verify
    zk_verify_iff t = (
      same_coords (at ec G (a + x * proof_challenge)) (at ec G t),
      ground (
        arith,
        challenge-eq session (G.point x) (ec.g ∷ G.point a ∷ []),
        base_ok (pos t),
        mult_ok x (pos proof_challenge),
        add_ok a (x * proof_challenge),
      ),
      same_coords_iff (a + x * proof_challenge) t,
    )

    response :
        ModInt.add ec.n (pos a) (pos proof_challenge *ℤ pos x)
        ≡ pos ((a + proof_challenge * x) % ec.n)
    response =
        unfold ModInt.add in
        ap pos (
          ap (λ k. emod (pos a +ℤ k) ec.n) (pos-*ℤ proof_challenge x)
          ∙ ap (λ k. emod k ec.n) (pos-+ℤ a (proof_challenge * x))
          ∙ unfold emod in refl)

    -- A proof made with the discrete logarithm x and any random scalar a is accepted, where the
    -- identity is on the curve.
    pub new_zk_proof-verify :
        (pf : ZkProof) × (new_zk_proof sum session (pos x) (at ec G x) (pos a) ≡ ok pf)
        × (verify sum session (at ec G x) pf ≡ ok true)
    unfolding new_zk_proof is_on_curve
    new_zk_proof-verify = (
      record { alpha = at ec G a; t = pos ((a + proof_challenge * x) % ec.n) },
      ground (
        arith,
        is_accepted_all ec G on x,
        base_ok (pos a),
        challenge-eq session (G.point x) (ec.g ∷ G.point a ∷ []),
        response,
      ),
      accepted,
    )
      where
        accepted :
            verify sum session
              (at ec G x)
              (record { alpha = at ec G a; t = pos ((a + proof_challenge * x) % ec.n) })
            ≡ ok true
        accepted =
            let (b, e, same) = zk_verify_iff ((a + proof_challenge * x) % ec.n) in
            e
            ∙ ap ok (
                same.1 (
                  ap (λ (k : ℕ). (a + k) % ec.n) (mul_comm x proof_challenge)
                  ∙ sym (mod-mod (a + proof_challenge * x) ec.n)))
