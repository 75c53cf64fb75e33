-- ===== src/Crypto/Facproof/Completeness.antt =====
-- The factor proof of an honest prover is accepted.
use mpc_lib.Prelude.{
  ℕ, ◌+◌, ◌-◌, ◌*◌, ◌%◌, ◌^◌, ◌≤◌, ◌≡◌, refl, sym, ap, ◌∙◌, arith, ℤ, pos, ◌+ℤ◌, ◌-ℤ◌, ◌*ℤ◌, pos-+ℤ,
  pos-*ℤ, emod, true, ◌&&◌, List, ==ℤ_iff,
}
use mpc_lib.Prelude.Result.{Result, ok}
use mpc_lib.Common.ModInt.{is_in_interval}
use mpc_lib.Common.ModInt.Powers.{
  mul-mod_congr, mul-pow, pow-add, pow-mul, pow-mod, exp-pos, mul-pos,
}
use mpc_lib.Crypto.ZkProofs.{RingPedersenParams, commit}
use mpc_lib.Crypto.ZkProofs.Powers.{commit-pos, raised_residues}
use mpc_lib.Crypto.Facproof.{
  ProofFac, FacRandomness, FacCommitments, sqrt, fac_challenge, fac_commitments, new_fac_proof,
  fac_equation, fac_equations, fac_verify,
}

times_plus : (a b c : ℕ) → pos a *ℤ pos b +ℤ pos c ≡ pos (c + a * b)
times_plus a b c = ap (λ z. z +ℤ pos c) (pos-*ℤ a b) ∙ pos-+ℤ (a * b) c ∙ ap pos (omega arith)

pos--ℤ : (a b : ℕ) → b ≤ a → pos a -ℤ pos b ≡ pos (a - b)
unfolding ◌-ℤ◌
pos--ℤ a b h = ground arith

module _ (sum : List ℕ → List ℕ) (session : List ℕ) (order n0 : ℕ) (rp : RingPedersenParams)
    (p q alpha beta mu nu sigma r x y : ℕ) where
  abbrev m : ℕ
  m = rp.n

  abbrev s : ℕ
  s = emod rp.s rp.n

  abbrev t : ℕ
  t = emod rp.t rp.n

  abbrev opening : ℕ → ℕ → ℕ
  opening a b = s ^ a * t ^ b % m

  abbrev rand : FacRandomness
  rand = record {
    alpha = pos alpha;
    beta = pos beta;
    mu = pos mu;
    nu = pos nu;
    sigma = pos sigma;
    r = pos r;
    x = pos x;
    y = pos y;
  }

  abbrev big_q : ℕ
  big_q = opening q nu

  -- The commitments that the prover makes, and its proof for the challenge e.
  abbrev pub honest_commitments : FacCommitments
  honest_commitments = record {
    p = pos (opening p mu);
    q = pos big_q;
    a = pos (opening alpha x);
    b = pos (opening beta y);
    t = pos (big_q ^ alpha * t ^ r % m);
  }

  abbrev pub honest_fac_proof : ℕ → ProofFac
  honest_fac_proof e = record {
    p = pos (opening p mu);
    q = pos big_q;
    a = pos (opening alpha x);
    b = pos (opening beta y);
    t = pos (big_q ^ alpha * t ^ r % m);
    sigma = pos sigma;
    z1 = pos (alpha + e * p);
    z2 = pos (beta + e * q);
    w1 = pos (x + e * mu);
    w2 = pos (y + e * nu);
    v = pos (r + e * (sigma - nu * p));
  }

  commit-big_q :
      (a b : ℕ)
      → commit (record rp { s = pos big_q }) (pos a) (pos b) ≡ ok (pos (big_q ^ a * t ^ b % m))
  unfolding emod
  commit-big_q a b =
      commit-pos (record rp { s = pos big_q }) a b
      ∙ ap (λ k. ok (pos k))
          (mul-mod_congr ((big_q % m) ^ a) (big_q ^ a) (t ^ b) (t ^ b) m (pow-mod big_q a m) refl)

  -- The commitment to N0 is a power of the second one, times a power of the other base.
  product_opening :
      n0 ≡ p * q → nu * p ≤ sigma → big_q ^ p * t ^ (sigma - nu * p) % m ≡ opening n0 sigma
  product_opening factors small =
      let rest = sigma - nu * p in
      let powers : (s ^ q * t ^ nu) ^ p * t ^ rest ≡ s ^ n0 * t ^ sigma =
        ap (λ (k : ℕ). k * t ^ rest)
          (mul-pow (s ^ q) (t ^ nu) p ∙ rw (← pow-mul s q p, ← pow-mul t nu p) refl)
        ∙ regroup (s ^ (q * p)) (t ^ (nu * p)) (t ^ rest)
        ∙ rw (← pow-add t (nu * p) rest) (
            ap (λ (k : ℕ). s ^ k * t ^ (nu * p + rest)) (omega arith)
            ∙ ap (λ (k : ℕ). s ^ n0 * t ^ k) (omega arith)) in
      mul-mod_congr (big_q ^ p) ((s ^ q * t ^ nu) ^ p) (t ^ rest) (t ^ rest) m
        (pow-mod (s ^ q * t ^ nu) p m) refl
      ∙ ap (λ (k : ℕ). k % m) powers
    where
      regroup : (a b c : ℕ) → a * b * c ≡ a * (b * c)
      regroup a b c = omega arith

  fac_equation-true :
      (left : Result ℤ) (first base e k : ℕ)
      → left ≡ ok (pos k)
      → first * (base ^ e % m) % m ≡ k
      → fac_equation sum session order n0 rp left (pos first) (pos base) e ≡ ok true
  unfolding fac_equation emod
  fac_equation-true left first base e k opened same =
      let reduced : first * ((base % m) ^ e % m) % m ≡ k =
        ap (λ (j : ℕ). first * j % m) (pow-mod base e m) ∙ same in
      rw (opened, exp-pos m (pos base) e, mul-pos, reduced, (==ℤ_iff (pos k) (pos k)).1 refl) refl

  fac_equations-honest :
      (e : ℕ)
      → n0 ≡ p * q
      → nu * p ≤ sigma
      → fac_equations sum session order n0 rp (honest_fac_proof e) e ≡ ok true
  unfolding fac_equations
  fac_equations-honest e factors small =
      let third : big_q ^ alpha * t ^ r % m * (opening n0 sigma ^ e % m) % m
          ≡ big_q ^ (alpha + e * p) * t ^ (r + e * (sigma - nu * p)) % m =
        ap (λ (k : ℕ). big_q ^ alpha * t ^ r % m * (k ^ e % m) % m)
          (sym (product_opening factors small))
        ∙ raised_residues m big_q t p (sigma - nu * p) e alpha r in
      rw
        (
          fac_equation-true _ (opening alpha x) (opening p mu) e _
              (commit-pos rp (alpha + e * p) (x + e * mu)) (raised_residues m s t p mu e alpha x),
          fac_equation-true _ (opening beta y) big_q e _ (commit-pos rp (beta + e * q) (y + e * nu))
              (raised_residues m s t q nu e beta y),
          commit-pos rp n0 sigma,
          fac_equation-true _ (big_q ^ alpha * t ^ r % m) (opening n0 sigma) e _
              (commit-big_q (alpha + e * p) (r + e * (sigma - nu * p))) third,
        )
        refl

  -- The factor proof of an honest prover with N0 = p q, for natural numbers of which sigma is at
  -- least nu p, is made, and it is accepted where its two bounded answers are in their interval.
  pub new_fac_proof-fac_verify :
      (e : ℕ)
      → fac_challenge sum session order n0 rp honest_commitments (pos sigma) ≡ ok e
      → n0 ≡ p * q
      → nu * p ≤ sigma
      → is_in_interval (pos (alpha + e * p)) (pos (order * (order * order) * sqrt n0))
          && is_in_interval (pos (beta + e * q)) (pos (order * (order * order) * sqrt n0))
        ≡ true
      → (new_fac_proof sum session order n0 rp (pos p) (pos q) rand ≡ ok (honest_fac_proof e))
        × (fac_verify sum session order n0 rp (honest_fac_proof e) ≡ ok true)
  unfolding new_fac_proof fac_verify fac_commitments
  new_fac_proof-fac_verify e challenged factors small bounded = (
    rw
        (
          commit-pos rp p mu,
          commit-pos rp q nu,
          commit-pos rp alpha x,
          commit-pos rp beta y,
          commit-big_q alpha r,
          challenged,
          times_plus e p alpha,
          times_plus e q beta,
          times_plus e mu x,
          times_plus e nu y,
          pos-*ℤ nu p,
          pos--ℤ sigma (nu * p) small,
          times_plus e (sigma - nu * p) r,
        )
        refl,
    rw (bounded, challenged, fac_equations-honest e factors small) refl,
  )
