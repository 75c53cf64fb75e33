-- ===== src/Crypto/Vss/Create.antt =====
-- What `Create` deals, and what `Verify` says of it.
use mpc_lib.Prelude.{
  ℕ, suc, ◌≤◌, ℤ, pos, true, some, List, [], ◌∷◌, map, length, ◌≡◌, refl, sym, ap, ◌∙◌, arith, emod,
  congruent-emod, length-map,
}
use mpc_lib.Prelude.Result.{ok, ◌>>=◌, traverse}
use mpc_lib.Crypto.Curve.{Curve, IsGroup}
use mpc_lib.Crypto.Point.{EcPoint, scalar_base_mult}
use mpc_lib.Crypto.Point.Group.{at, is_accepted_all, scalar_base_mult-at}
use mpc_lib.Crypto.Vss.{Share, share_of, evaluate_polynomial, create, verify}
use mpc_lib.Crypto.Vss.Polynomial.{poly_value, evaluate_polynomial_lem}
use mpc_lib.Crypto.Vss.Shares.{commitments, verify_iff}
use mpc_lib.Crypto.Vss.Indexes.{AreDistinct, check_indexes_iff}

-- Each share is accepted at the threshold against the commitments.
abbrev pub AreVerified : Curve → ℕ → List EcPoint → List Share → Type 0
AreVerified ec threshold vs [] = Unit
AreVerified ec threshold vs (share ∷ shares) =
    (verify ec threshold (some vs) share ≡ ok true) × AreVerified ec threshold vs shares

module _ (ec : Curve) (G : IsGroup ec) (on : G.identity_on ≡ true) where
  traverse-at : (cs : List ℕ) → traverse (scalar_base_mult ec) (map pos cs) ≡ ok (map (at ec G) cs)
  traverse-at [] = refl
  traverse-at (c ∷ cs) =
      ground (arith, scalar_base_mult-at ec G (pos c), is_accepted_all ec G on c, traverse-at cs)

  module _ (a b : ℕ) (cs : List ℕ) where
    -- The share of an index is the residue of the polynomial's value there.
    abbrev pub dealt : ℤ → Share
    dealt id = record {
      threshold = suc (length cs);
      id = id;
      share = pos (emod (poly_value (pos a ∷ pos b ∷ map pos cs) id) ec.n);
    }

    share_of-dealt :
        (id : ℤ) → share_of ec (suc (length cs)) (pos a ∷ pos b ∷ map pos cs) id ≡ ok (dealt id)
    unfolding share_of
    share_of-dealt id = ap (λ r. do s ← r; ok (record (dealt id) { share = s })) value
      where
        poly : List ℤ
        poly = pos a ∷ pos b ∷ map pos cs

        value :
            evaluate_polynomial ec (suc (length cs)) poly id
            ≡ ok (pos (emod (poly_value poly id) ec.n))
        value =
            ap (λ (k : ℕ). evaluate_polynomial ec (suc k) poly id) (sym (length-map pos cs))
            ∙ evaluate_polynomial_lem ec (pos a) (pos b) (map pos cs) id (omega (arith, G.order))

    traverse-dealt :
        (ids : List ℤ)
        → traverse (share_of ec (suc (length cs)) (pos a ∷ pos b ∷ map pos cs)) ids
          ≡ ok (map dealt ids)
    traverse-dealt [] = refl
    traverse-dealt (id ∷ ids) = ground (arith, share_of-dealt id, traverse-dealt ids)

    verified :
        (ids : List ℤ)
        → AreVerified ec
            (suc (length cs))
            (at ec G a ∷ at ec G b ∷ map (at ec G) cs)
            (map dealt ids)
    verified [] = tt
    verified (id ∷ ids) = (accepted, verified ids)
      where
        value : ℤ
        value = poly_value (pos a ∷ pos b ∷ map pos cs) id

        accepted : verify ec (suc (length cs)) (commitments ec G a (b ∷ cs)) (dealt id) ≡ ok true
        accepted =
            let (v, e, same) = verify_iff ec G a (b ∷ cs) id (emod value ec.n) on in
            e ∙ ap ok (same.1 (congruent-emod (omega (arith, G.order)) value))

    -- For indexes with distinct residues other than 0, at least as many as the threshold, `Create`
    -- succeeds. It commits to each coefficient, deals each index the polynomial's value there, and
    -- `Verify` accepts every share that it deals, where the identity is on the curve.
    pub create-verify :
        (indexes : List ℤ)
        → AreDistinct ec.n [] indexes
        → suc (length cs) ≤ length indexes
        → (create ec (suc (length cs)) (pos a) (pos b ∷ map pos cs) indexes
            ≡ ok (at ec G a ∷ at ec G b ∷ map (at ec G) cs, map dealt indexes))
          × AreVerified ec
              (suc (length cs))
              (at ec G a ∷ at ec G b ∷ map (at ec G) cs)
              (map dealt indexes)
    unfolding create
    create-verify indexes distinct enough = (
      ground (
        arith,
        (check_indexes_iff ec indexes).1 distinct,
        traverse-at (a ∷ b ∷ cs),
        traverse-dealt indexes,
      ),
      verified indexes,
    )
