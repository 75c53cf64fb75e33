-- ===== src/Crypto/Schnorr.antt =====
-- crypto/schnorr/schnorr_proof.go: proofs of knowledge of a discrete logarithm, and of two scalars of
-- a sum. The random scalars and the hash are arguments; a proof and its parts are never nil here.
pub mod Completeness
pub mod TwoScalars
use mpc_lib.Prelude.{
  ℕ, ℤ, pos, Bool, true, false, not, ◌&&◌, Option, none, some, List, [], ◌∷◌, ◌*ℤ◌, ◌==ℤ◌,
  if◌then◌else◌,
}
use mpc_lib.Prelude.Result.{Result, ok, err, panic, ◌>>=◌, ◌>>◌, guard}
use mpc_lib.Common.Hash.{sha512_256i_tagged}
use mpc_lib.Common.Challenge.{rejection_sample}
use mpc_lib.Common.ModInt
use mpc_lib.Crypto.Curve.{Curve, Coords}
use mpc_lib.Crypto.Point
use mpc_lib.Crypto.Point.{EcPoint, scalar_mult, scalar_base_mult, is_on_curve}

pub record ZkProof : Type 0 where
  pub alpha : EcPoint
  pub t : ℤ

pub record ZkvProof : Type 0 where
  pub alpha : EcPoint
  pub t : ℤ
  pub u : ℤ

-- Both coordinates of each point, as arguments of the hash.
unfoldable pub hash_points : List Coords → List (Option ℤ)
hash_points [] = []
hash_points ((x, y) ∷ points) = some x ∷ some y ∷ hash_points points

-- A sum that is off the curve leaves a nil point behind, which the next use reads.
unfoldable pub or_nil : Result EcPoint → Result (Option EcPoint)
or_nil (ok p) = ok (some p)
or_nil (err e) = ok none
or_nil panic = panic

unfoldable pub not_nil : Option EcPoint → Result EcPoint
not_nil none = panic
not_nil (some p) = ok p

unfoldable pub same_coords : EcPoint → EcPoint → Bool
same_coords p q = (p.coords.0 ==ℤ q.coords.0) && (p.coords.1 ==ℤ q.coords.1)

module _ (sum : List ℕ → List ℕ) where
  unfoldable pub challenge : ℕ → List ℕ → List Coords → Result ℕ
  unfolding hash_points
  challenge q session points =
      rejection_sample q (sha512_256i_tagged sum session (hash_points points))

  unfoldable pub new_zk_proof : List ℕ → ℤ → EcPoint → ℤ → Result ZkProof
  new_zk_proof session x big_x a = do
    guard (is_on_curve big_x) "ZKProof constructor received nil or invalid value(s)"
    let ec = big_x.curve
    alpha ← scalar_base_mult ec a
    c ← challenge ec.n session (big_x.coords ∷ ec.g ∷ alpha.coords ∷ [])
    ok (record { alpha = alpha; t = ModInt.add ec.n a (pos c *ℤ x) })

  unfoldable pub verify : List ℕ → EcPoint → ZkProof → Result Bool
  unfolding or_nil
  verify session big_x pf = do
    let ec = big_x.curve
    c ← challenge ec.n session (big_x.coords ∷ ec.g ∷ pf.alpha.coords ∷ [])
    tg ← scalar_base_mult ec pf.t
    xc ← scalar_mult big_x (pos c)
    axc ← or_nil (Point.add pf.alpha xc)
    elim axc [ none ↦ ok false | some p ↦ ok (same_coords p tg) ]

  unfoldable pub new_zkv_proof : List ℕ → EcPoint → EcPoint → ℤ → ℤ → ℤ → ℤ → Result ZkvProof
  unfolding or_nil not_nil
  new_zkv_proof session v r s l a b = do
    guard (is_on_curve v && is_on_curve r) "ZKVProof constructor received nil value(s)"
    let ec = v.curve
    ar ← scalar_mult r a
    bg ← scalar_base_mult ec b
    alpha? ← or_nil (Point.add ar bg)
    alpha ← not_nil alpha?
    c ← challenge ec.n session (v.coords ∷ r.coords ∷ ec.g ∷ alpha.coords ∷ [])
    ok (record {
      alpha = alpha;
      t = ModInt.add ec.n a (pos c *ℤ s);
      u = ModInt.add ec.n b (pos c *ℤ l);
    })

  unfoldable pub verify_v : List ℕ → EcPoint → EcPoint → ZkvProof → Result Bool
  unfolding or_nil not_nil
  verify_v session v r pf =
      if is_on_curve pf.alpha
      then (do
        let ec = v.curve
        c ← challenge ec.n session (v.coords ∷ r.coords ∷ ec.g ∷ pf.alpha.coords ∷ [])
        tr ← scalar_mult r pf.t
        ug ← scalar_base_mult ec pf.u
        trug ← or_nil (Point.add tr ug)
        vc ← scalar_mult v (pos c)
        avc ← or_nil (Point.add pf.alpha vc)
        elim avc [ none ↦ ok false | some p ↦ do q ← not_nil trug; ok (same_coords q p) ])
      else ok false
