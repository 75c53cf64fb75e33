-- ===== src/Crypto/Mta/ProofBob.antt =====
-- crypto/mta/proofs.go: Bob's proofs, without and with the check of a public point.
use mpc_lib.Prelude.{
  ℕ, ◌*◌, ℤ, pos, ◌+ℤ◌, ◌*ℤ◌, ltb_ℤ, emod, nat_abs, bytes, set_bytes, map, Bool, true, false, not,
  ◌&&◌, Option, none, some, List, [], ◌∷◌, ◌++◌, ◌==ℤ◌, if◌then◌else◌,
}
use mpc_lib.Prelude.Result.{Result, ok, err, panic, ◌>>=◌}
use mpc_lib.Common.Hash.{sha512_256i_tagged}
use mpc_lib.Common.Challenge.{rejection_sample}
use mpc_lib.Common.Slice.{non_empty_multi_bytes}
use mpc_lib.Common.ModInt.{mul, exp, is_in_interval}
use mpc_lib.Crypto.Curve.{Curve}
use mpc_lib.Crypto.Point.{EcPoint, scalar_base_mult, scalar_mult, add, equals, new_ec_point}
use mpc_lib.Tss.Curve.{same_curve}
use mpc_lib.Crypto.Paillier.{PublicKey, or_panic, as_ints, n_square, gamma}
use mpc_lib.Crypto.ZkProofs.{RingPedersenParams, commit}
use mpc_lib.Crypto.Mta.RangeProof.{is_coprime}

pub record ProofBob : Type 0 where
  pub z : ℤ
  pub z_prm : ℤ
  pub t : ℤ
  pub v : ℤ
  pub w : ℤ
  pub s : ℤ
  pub s1 : ℤ
  pub s2 : ℤ
  pub t1 : ℤ
  pub t2 : ℤ

-- `none` where the proof is without the point, which the code fills with the point (0, 0).
pub record ProofBobWc : Type 0 where
  pub proof_bob : ProofBob
  pub u : Option EcPoint

-- The numbers that the prover draws.
pub record BobRandomness : Type 0 where
  pub alpha : ℤ
  pub rho : ℤ
  pub sigma : ℤ
  pub tau : ℤ
  pub rho_prm : ℤ
  pub beta : ℤ
  pub gamma : ℤ

-- The first messages of the prover.
pub record Commitments : Type 0 where
  pub z : ℤ
  pub z_prm : ℤ
  pub t : ℤ
  pub v : ℤ
  pub w : ℤ

-- Both coordinates of a point, if it is there.
abbrev pub coordinates : Option EcPoint → List ℤ
coordinates none = []
coordinates (some p) = p.coords.0 ∷ p.coords.1 ∷ []

module _ (sum : List ℕ → List ℕ) (session : List ℕ) (ec : Curve) (pk : PublicKey)
    (rp : RingPedersenParams) where
  -- The point X and the prover's point stand in the hash only where X is there.
  unfoldable pub bob_challenge : Option EcPoint → Option EcPoint → ℤ → ℤ → Commitments → Result ℕ
  unfolding as_ints
  bob_challenge big_x u c1 c2 cm = rejection_sample ec.n (
      sha512_256i_tagged sum session (
        map some (
          as_ints pk
          ++ (coordinates big_x
              ++ ((c1 ∷ c2 ∷ [])
                  ++ (coordinates u ++ (cm.z ∷ cm.z_prm ∷ cm.t ∷ cm.v ∷ cm.w ∷ [])))))))

  -- Step 5.
  unfoldable pub bob_point : Option EcPoint → ℤ → Result (Option EcPoint)
  bob_point none alpha = ok none
  bob_point (some big_x) alpha = do u ← scalar_base_mult ec alpha; ok (some u)

  -- Steps 6 to 10.
  unfoldable pub bob_commitments : ℤ → ℤ → ℤ → BobRandomness → Result Commitments
  unfolding n_square gamma
  bob_commitments c1 x y rand = do
    z ← commit rp x rand.rho
    z_prm ← commit rp rand.alpha rand.rho_prm
    t ← commit rp y rand.sigma
    ca ← or_panic (exp (n_square pk) c1 rand.alpha)
    gg ← or_panic (exp (n_square pk) (pos (gamma pk)) rand.gamma)
    bn ← or_panic (exp (n_square pk) rand.beta (pos pk.n))
    w ← commit rp rand.gamma rand.tau
    ok (record {
      z = z;
      z_prm = z_prm;
      t = t;
      v = mul (n_square pk) (mul (n_square pk) ca gg) bn;
      w = w;
    })

  unfoldable pub prove_bob_wc :
      ℤ → ℤ → ℤ → ℤ → ℤ → Option EcPoint → BobRandomness → Result ProofBobWc
  unfolding bob_challenge bob_point bob_commitments
  prove_bob_wc c1 c2 x y r big_x rand = do
    u ← bob_point big_x rand.alpha
    cm ← bob_commitments c1 x y rand
    e ← bob_challenge big_x u c1 c2 cm
    re ← or_panic (exp pk.n r (pos e))
    ok (record {
      proof_bob = record {
        z = cm.z;
        z_prm = cm.z_prm;
        t = cm.t;
        v = cm.v;
        w = cm.w;
        s = mul pk.n re rand.beta;
        s1 = pos e *ℤ x +ℤ rand.alpha;
        s2 = pos e *ℤ rand.rho +ℤ rand.rho_prm;
        t1 = pos e *ℤ y +ℤ rand.gamma;
        t2 = pos e *ℤ rand.sigma +ℤ rand.tau;
      };
      u = u;
    })

  unfoldable pub prove_bob : ℤ → ℤ → ℤ → ℤ → ℤ → BobRandomness → Result ProofBob
  unfolding prove_bob_wc
  prove_bob c1 c2 x y r rand = do pf ← prove_bob_wc c1 c2 x y r none rand; ok pf.proof_bob

  unfoldable pub bob_intervals : ProofBob → Bool
  unfolding is_in_interval n_square
  bob_intervals pf =
      is_in_interval pf.z (pos rp.n)
      && (is_in_interval pf.z_prm (pos rp.n)
          && (is_in_interval pf.t (pos rp.n)
              && (is_in_interval pf.v (pos (n_square pk))
                  && (is_in_interval pf.w (pos rp.n) && is_in_interval pf.s (pos pk.n)))))

  unfoldable pub bob_coprime : ProofBob → Bool
  unfolding n_square
  bob_coprime pf =
      is_coprime pf.z rp.n
      && (is_coprime pf.z_prm rp.n
          && (is_coprime pf.t rp.n
              && (is_coprime pf.v (n_square pk)
                  && (is_coprime pf.w rp.n
                      && (not (pf.s ==ℤ pos 0)
                          && (is_coprime pf.s pk.n
                              && (not (pf.v ==ℤ pos 0) && is_coprime pf.v pk.n)))))))

  -- The answers are at least q, and the first of each pair at most q^3 and q^7.
  unfoldable pub bob_bounds : ProofBob → Bool
  bob_bounds pf =
      let q = ec.n in
      let q3 = q * (q * q) in
      not (ltb_ℤ pf.s1 (pos q))
      && (not (ltb_ℤ pf.s2 (pos q))
          && (not (ltb_ℤ pf.t1 (pos q))
              && (not (ltb_ℤ pf.t2 (pos q))
                  && (not (ltb_ℤ (pos q3) pf.s1) && not (ltb_ℤ (pos (q3 * q3 * q)) pf.t1)))))

  -- Step 4, with the point X; an error of the addition is a refusal.
  unfoldable pub bob_point_equation : Option EcPoint → Option EcPoint → ProofBob → ℕ → Result Bool
  unfolding equals
  bob_point_equation none u pf e = ok true
  bob_point_equation (some big_x) none pf e = panic
  bob_point_equation (some big_x) (some u) pf e = do
    gs1 ← scalar_base_mult ec (pos (emod pf.s1 ec.n))
    xe ← scalar_mult big_x (pos e)
    elim (add xe u) [ ok xeu ↦ ok (equals gs1 xeu) | err text ↦ ok false | panic ↦ panic ]

  -- Steps 5 and 6: both answers open the product of a commitment and a power of the other.
  unfoldable pub bob_opening : ℤ → ℤ → ℤ → ℤ → ℕ → Result Bool
  bob_opening a b base other e = do
    left ← commit rp a b
    be ← or_panic (exp rp.n base (pos e))
    ok (left ==ℤ mul rp.n be other)

  -- Step 7.
  unfoldable pub bob_cipher : ProofBob → ℤ → ℤ → ℕ → Result Bool
  unfolding n_square gamma
  bob_cipher pf c1 c2 e = do
    cs ← or_panic (exp (n_square pk) c1 pf.s1)
    sn ← or_panic (exp (n_square pk) pf.s (pos pk.n))
    gt ← or_panic (exp (n_square pk) (pos (gamma pk)) pf.t1)
    ce ← or_panic (exp (n_square pk) c2 (pos e))
    ok (mul (n_square pk) (mul (n_square pk) cs sn) gt ==ℤ mul (n_square pk) ce pf.v)

  unfoldable pub bob_equations : ProofBobWc → ℤ → ℤ → Option EcPoint → ℕ → Result Bool
  unfolding bob_point_equation bob_opening bob_cipher
  bob_equations proof c1 c2 big_x e = do
    let pf = proof.proof_bob
    point ← bob_point_equation big_x proof.u pf e
    if not point then ok false else (do
      first ← bob_opening pf.s1 pf.s2 pf.z pf.z_prm e
      if not first then ok false else (do
        second ← bob_opening pf.t1 pf.t2 pf.t pf.w e
        if not second then ok false else bob_cipher pf c1 c2 e))

  -- A point of another curve is refused.
  unfoldable pub is_on_same_curve : Option EcPoint → Bool
  unfolding same_curve
  is_on_same_curve none = true
  is_on_same_curve (some big_x) = same_curve ec big_x.curve

  unfoldable pub bob_wc_verify : ProofBobWc → ℤ → ℤ → Option EcPoint → Result Bool
  unfolding bob_challenge bob_intervals bob_coprime bob_bounds is_on_same_curve bob_equations
  bob_wc_verify proof c1 c2 big_x =
      let pf = proof.proof_bob in
      let cm : Commitments = record { z = pf.z; z_prm = pf.z_prm; t = pf.t; v = pf.v; w = pf.w } in
      if bob_intervals pf && (bob_coprime pf && (bob_bounds pf && is_on_same_curve big_x))
      then (do e ← bob_challenge big_x proof.u c1 c2 cm; bob_equations proof c1 c2 big_x e)
      else ok false

  unfoldable pub bob_verify : ProofBob → ℤ → ℤ → Result Bool
  unfolding bob_wc_verify
  bob_verify pf c1 c2 = bob_wc_verify (record { proof_bob = pf; u = none }) c1 c2 none

-- Ten parts, or twelve with the point; of these the first ten are read.
bob_from_parts : List (List ℕ) → Result ProofBob
bob_from_parts (z ∷ z_prm ∷ t ∷ v ∷ w ∷ s ∷ s1 ∷ s2 ∷ t1 ∷ t2 ∷ more) = ok (record {
  z = pos (set_bytes z);
  z_prm = pos (set_bytes z_prm);
  t = pos (set_bytes t);
  v = pos (set_bytes v);
  w = pos (set_bytes w);
  s = pos (set_bytes s);
  s1 = pos (set_bytes s1);
  s2 = pos (set_bytes s2);
  t1 = pos (set_bytes t1);
  t2 = pos (set_bytes t2);
})
bob_from_parts _ = panic

unfoldable pub proof_bob_from_bytes : List (List ℕ) → Result ProofBob
unfolding bob_from_parts non_empty_multi_bytes
proof_bob_from_bytes bzs =
    if not (non_empty_multi_bytes bzs (some 10)) && not (non_empty_multi_bytes bzs (some 12))
    then err "expected 10 byte parts to construct ProofBob, or 12 for ProofBobWC"
    else bob_from_parts bzs

-- The parts 10 and 11, which are read without a test that they are there.
unfoldable pub point_parts : List (List ℕ) → Result (ℤ × ℤ)
point_parts (b0 ∷ b1 ∷ b2 ∷ b3 ∷ b4 ∷ b5 ∷ b6 ∷ b7 ∷ b8 ∷ b9 ∷ x ∷ y ∷ more) =
    ok (pos (set_bytes x), pos (set_bytes y))
point_parts _ = panic

unfoldable pub proof_bob_wc_from_bytes : Curve → List (List ℕ) → Result ProofBobWc
unfolding proof_bob_from_bytes point_parts
proof_bob_wc_from_bytes ec bzs = do
  proof_bob ← proof_bob_from_bytes bzs
  xy ← point_parts bzs
  u ← new_ec_point ec xy
  ok (record { proof_bob = proof_bob; u = some u })

unfoldable pub bob_bytes : ProofBob → List (List ℕ)
bob_bytes pf =
    bytes (nat_abs pf.z)
    ∷ bytes (nat_abs pf.z_prm)
    ∷ bytes (nat_abs pf.t)
    ∷ bytes (nat_abs pf.v)
    ∷ bytes (nat_abs pf.w)
    ∷ bytes (nat_abs pf.s)
    ∷ bytes (nat_abs pf.s1)
    ∷ bytes (nat_abs pf.s2)
    ∷ bytes (nat_abs pf.t1)
    ∷ bytes (nat_abs pf.t2)
    ∷ []
