-- ===== src/Crypto/Facproof.antt =====
-- crypto/facproof/proof.go: the proof that a modulus has no small factor. The commitment by two powers
-- is the one of crypto/zkproofs; the random numbers are arguments.
pub mod Completeness
use mpc_lib.Prelude.{
  ℕ, zero, suc, ◌*◌, ℤ, pos, ◌+ℤ◌, ◌-ℤ◌, ◌*ℤ◌, nat_abs, bytes, set_bytes, leb, map, Bool, true,
  false, not, ◌&&◌, some, List, [], ◌∷◌, ◌==ℤ◌, if◌then◌else◌,
}
use mpc_lib.Prelude.Result.{Result, ok, err, panic, ◌>>=◌}
use mpc_lib.Common.Hash.{sha512_256i_tagged}
use mpc_lib.Common.Challenge.{rejection_sample}
use mpc_lib.Common.Slice.{non_empty_multi_bytes}
use mpc_lib.Common.ModInt.{mul, exp, is_in_interval}
use mpc_lib.Crypto.Paillier.{or_panic}
use mpc_lib.Crypto.ZkProofs.{RingPedersenParams, commit}

pub record ProofFac : Type 0 where
  pub p : ℤ
  pub q : ℤ
  pub a : ℤ
  pub b : ℤ
  pub t : ℤ
  pub sigma : ℤ
  pub z1 : ℤ
  pub z2 : ℤ
  pub w1 : ℤ
  pub w2 : ℤ
  pub v : ℤ

-- The numbers that the prover draws.
pub record FacRandomness : Type 0 where
  pub alpha : ℤ
  pub beta : ℤ
  pub mu : ℤ
  pub nu : ℤ
  pub sigma : ℤ
  pub r : ℤ
  pub x : ℤ
  pub y : ℤ

-- `(*big.Int).Sqrt`: the greatest number, up to the bound, with a square of at most n.
sqrt_below : ℕ → ℕ → ℕ
sqrt_below zero n = 0
sqrt_below (suc k) n =
    let smaller = sqrt_below k n in if leb (suc k * suc k) n then suc k else smaller

unfoldable pub sqrt : ℕ → ℕ
unfolding sqrt_below
sqrt n = sqrt_below n n

-- The commitments that are hashed.
pub record FacCommitments : Type 0 where
  pub p : ℤ
  pub q : ℤ
  pub a : ℤ
  pub b : ℤ
  pub t : ℤ

module _ (sum : List ℕ → List ℕ) (session : List ℕ) (order : ℕ) (n0 : ℕ)
    (rp : RingPedersenParams) where
  unfoldable pub fac_challenge : FacCommitments → ℤ → Result ℕ
  fac_challenge cm sigma = rejection_sample order (
      sha512_256i_tagged sum session (
        map some (pos n0 ∷ pos rp.n ∷ rp.s ∷ rp.t ∷ cm.p ∷ cm.q ∷ cm.a ∷ cm.b ∷ cm.t ∷ sigma ∷ [])))

  unfoldable pub fac_commitments : ℤ → ℤ → FacRandomness → Result FacCommitments
  fac_commitments n0p n0q rand = do
    p ← commit rp n0p rand.mu
    q ← commit rp n0q rand.nu
    a ← commit rp rand.alpha rand.x
    b ← commit rp rand.beta rand.y
    t ← commit (record rp { s = q }) rand.alpha rand.r
    ok (record { p = p; q = q; a = a; b = b; t = t })

  unfoldable pub new_fac_proof : ℤ → ℤ → FacRandomness → Result ProofFac
  unfolding fac_challenge fac_commitments
  new_fac_proof n0p n0q rand = do
    cm ← fac_commitments n0p n0q rand
    c ← fac_challenge cm rand.sigma
    let e = pos c
    ok (record {
      p = cm.p;
      q = cm.q;
      a = cm.a;
      b = cm.b;
      t = cm.t;
      sigma = rand.sigma;
      z1 = e *ℤ n0p +ℤ rand.alpha;
      z2 = e *ℤ n0q +ℤ rand.beta;
      w1 = e *ℤ rand.mu +ℤ rand.x;
      w2 = e *ℤ rand.nu +ℤ rand.y;
      v = e *ℤ (rand.sigma -ℤ rand.nu *ℤ n0p) +ℤ rand.r;
    })

  -- `modNCap.Mul(first, modNCap.Exp(base, e))` against a commitment.
  unfoldable pub fac_equation : Result ℤ → ℤ → ℤ → ℕ → Result Bool
  fac_equation left first base e = do
    lhs ← left
    be ← or_panic (exp rp.n base (pos e))
    ok (lhs ==ℤ mul rp.n first be)

  unfoldable pub fac_equations : ProofFac → ℕ → Result Bool
  unfolding fac_equation
  fac_equations pf e = do
    first ← fac_equation (commit rp pf.z1 pf.w1) pf.a pf.p e
    if not first then ok false else (do
      second ← fac_equation (commit rp pf.z2 pf.w2) pf.b pf.q e
      if not second then ok false else (do
        r ← commit rp (pos n0) pf.sigma
        fac_equation (commit (record rp { s = pf.q }) pf.z1 pf.v) pf.t r e))

  -- N0 is positive.
  unfoldable pub fac_verify : ProofFac → Result Bool
  unfolding is_in_interval fac_challenge fac_equations sqrt
  fac_verify pf =
      let bound = pos (order * (order * order) * sqrt n0) in
      let cm : FacCommitments = record { p = pf.p; q = pf.q; a = pf.a; b = pf.b; t = pf.t } in
      if is_in_interval pf.z1 bound && is_in_interval pf.z2 bound
      then (do e ← fac_challenge cm pf.sigma; fac_equations pf e)
      else ok false

unfoldable pub fac_bytes : ProofFac → List (List ℕ)
fac_bytes pf =
    bytes (nat_abs pf.p)
    ∷ bytes (nat_abs pf.q)
    ∷ bytes (nat_abs pf.a)
    ∷ bytes (nat_abs pf.b)
    ∷ bytes (nat_abs pf.t)
    ∷ bytes (nat_abs pf.sigma)
    ∷ bytes (nat_abs pf.z1)
    ∷ bytes (nat_abs pf.z2)
    ∷ bytes (nat_abs pf.w1)
    ∷ bytes (nat_abs pf.w2)
    ∷ bytes (nat_abs pf.v)
    ∷ []

fac_from_parts : List (List ℕ) → Result ProofFac
fac_from_parts (p ∷ q ∷ a ∷ b ∷ t ∷ sigma ∷ z1 ∷ z2 ∷ w1 ∷ w2 ∷ v ∷ []) = ok (record {
  p = pos (set_bytes p);
  q = pos (set_bytes q);
  a = pos (set_bytes a);
  b = pos (set_bytes b);
  t = pos (set_bytes t);
  sigma = pos (set_bytes sigma);
  z1 = pos (set_bytes z1);
  z2 = pos (set_bytes z2);
  w1 = pos (set_bytes w1);
  w2 = pos (set_bytes w2);
  v = pos (set_bytes v);
})
fac_from_parts _ = err "expected 11 byte parts to construct ProofFac"

unfoldable pub fac_proof_from_bytes : List (List ℕ) → Result ProofFac
unfolding fac_from_parts non_empty_multi_bytes
fac_proof_from_bytes bzs =
    if not (non_empty_multi_bytes bzs (some 11))
    then err "expected 11 byte parts to construct ProofFac"
    else fac_from_parts bzs
