-- ===== src/Crypto/Mta/RangeProof.antt =====
-- crypto/mta/range_proof.go: Alice's proof that her ciphertext holds a number in range. The commitment
-- by two powers is the one of crypto/zkproofs; the random numbers are arguments.
use mpc_lib.Prelude.{
  ℕ, ◌*◌, ℤ, pos, neg_ℤ, ◌+ℤ◌, ◌*ℤ◌, ltb_ℤ, nat_abs, gcd, bytes, set_bytes, Bool, false, not, ◌&&◌,
  some, List, [], ◌∷◌, ◌++◌, ◌==◌, ◌==ℤ◌, if◌then◌else◌,
}
use mpc_lib.Prelude.Result.{Result, ok, err, ◌>>=◌}
use mpc_lib.Common.Hash.{sha512_256i}
use mpc_lib.Common.Challenge.{rejection_sample}
use mpc_lib.Common.Slice.{non_empty_multi_bytes}
use mpc_lib.Common.ModInt.{mul, exp, is_in_interval}
use mpc_lib.Crypto.Paillier.{PublicKey, or_panic, as_ints, n_square, gamma}
use mpc_lib.Crypto.ZkProofs.{RingPedersenParams, commit}

pub record RangeProofAlice : Type 0 where
  pub z : ℤ
  pub u : ℤ
  pub w : ℤ
  pub s : ℤ
  pub s1 : ℤ
  pub s2 : ℤ

-- The numbers that the prover draws.
pub record AliceRandomness : Type 0 where
  pub alpha : ℤ
  pub beta : ℤ
  pub gamma : ℤ
  pub rho : ℤ

-- Whether two numbers have no factor in common, as the code tests it.
abbrev pub is_coprime : ℤ → ℕ → Bool
is_coprime x n = gcd (nat_abs x) n == 1

module _ (sum : List ℕ → List ℕ) (q : ℕ) (pk : PublicKey) (rp : RingPedersenParams) where
  unfoldable pub range_challenge : ℤ → ℤ → ℤ → ℤ → Result ℕ
  unfolding as_ints
  range_challenge c z u w =
      rejection_sample q (sha512_256i sum (as_ints pk ++ (c ∷ z ∷ u ∷ w ∷ [])))

  unfoldable pub prove_range_alice : ℤ → ℤ → ℤ → AliceRandomness → Result RangeProofAlice
  unfolding range_challenge gamma n_square
  prove_range_alice c m r rand = do
    z ← commit rp m rand.rho
    gm ← or_panic (exp (n_square pk) (pos (gamma pk)) rand.alpha)
    bn ← or_panic (exp (n_square pk) rand.beta (pos pk.n))
    w ← commit rp rand.alpha rand.gamma
    let u = mul (n_square pk) gm bn
    e ← range_challenge c z u w
    se ← or_panic (exp pk.n r (pos e))
    ok (record {
      z = z;
      u = u;
      w = w;
      s = mul pk.n se rand.beta;
      s1 = pos e *ℤ m +ℤ rand.alpha;
      s2 = pos e *ℤ rand.rho +ℤ rand.gamma;
    })

  -- The tests before the challenge.
  unfoldable pub range_checks : RangeProofAlice → Bool
  unfolding is_in_interval n_square
  range_checks pf =
      is_in_interval pf.z (pos rp.n)
      && (is_in_interval pf.u (pos (n_square pk))
          && (is_in_interval pf.w (pos rp.n)
              && (is_in_interval pf.s (pos pk.n)
                  && (is_coprime pf.z rp.n
                      && (is_coprime pf.u (n_square pk)
                          && (is_coprime pf.w rp.n
                              && (not (ltb_ℤ pf.s1 (pos q))
                                  && (not (ltb_ℤ pf.s2 (pos q))
                                      && not (ltb_ℤ (pos (q * (q * q))) pf.s1)))))))))

  -- Step 4: u = gamma^s1 s^N c^-e.
  unfoldable pub range_first : RangeProofAlice → ℤ → ℕ → Result Bool
  unfolding n_square gamma
  range_first pf c e = do
    ce ← or_panic (exp (n_square pk) c (neg_ℤ (pos e)))
    sn ← or_panic (exp (n_square pk) pf.s (pos pk.n))
    gs ← or_panic (exp (n_square pk) (pos (gamma pk)) pf.s1)
    ok (pf.u ==ℤ mul (n_square pk) (mul (n_square pk) gs sn) ce)

  -- Step 5: w = h1^s1 h2^s2 z^-e.
  unfoldable pub range_second : RangeProofAlice → ℕ → Result Bool
  range_second pf e = do
    product ← commit rp pf.s1 pf.s2
    ze ← or_panic (exp rp.n pf.z (neg_ℤ (pos e)))
    ok (pf.w ==ℤ mul rp.n product ze)

  unfoldable pub range_verify : RangeProofAlice → ℤ → Result Bool
  unfolding range_challenge range_checks range_first range_second
  range_verify pf c =
      if range_checks pf
      then (do
        e ← range_challenge c pf.z pf.u pf.w
        first ← range_first pf c e
        if first then range_second pf e else ok false)
      else ok false

unfoldable pub range_bytes : RangeProofAlice → List (List ℕ)
range_bytes pf =
    bytes (nat_abs pf.z)
    ∷ bytes (nat_abs pf.u)
    ∷ bytes (nat_abs pf.w)
    ∷ bytes (nat_abs pf.s)
    ∷ bytes (nat_abs pf.s1)
    ∷ bytes (nat_abs pf.s2)
    ∷ []

range_from_parts : List (List ℕ) → Result RangeProofAlice
range_from_parts (z ∷ u ∷ w ∷ s ∷ s1 ∷ s2 ∷ []) = ok (record {
  z = pos (set_bytes z);
  u = pos (set_bytes u);
  w = pos (set_bytes w);
  s = pos (set_bytes s);
  s1 = pos (set_bytes s1);
  s2 = pos (set_bytes s2);
})
range_from_parts _ = err "expected 6 byte parts to construct RangeProofAlice"

unfoldable pub range_proof_alice_from_bytes : List (List ℕ) → Result RangeProofAlice
unfolding range_from_parts non_empty_multi_bytes
range_proof_alice_from_bytes bzs =
    if not (non_empty_multi_bytes bzs (some 6))
    then err "expected 6 byte parts to construct RangeProofAlice"
    else range_from_parts bzs
