-- ===== src/Crypto/Dlnproof.antt =====
-- crypto/dlnproof/proof.go: the proof that h2 is a power of h1 modulo N. The numbers of a proof are
-- never nil here, and N is positive.
pub mod Completeness
pub mod Serial
use Prim.Native.String.{String}
use mpc_lib.Prelude.{
  ℕ, zero, suc, ◌+◌, ◌*◌, ◌/◌, ◌%◌, ◌^◌, ℤ, pos, emod, nat_abs, bytes, set_bytes, map, length, take,
  ltb, Bool, true, false, not, ◌&&◌, Option, none, some, List, [], ◌∷◌, ◌++◌, all, ◌==◌, ◌==ℤ◌,
  if◌then◌else◌,
}
use mpc_lib.Prelude.Result.{Result, ok, err, panic, ◌>>=◌, ◌>>◌, guard}
use mpc_lib.Common.Hash.{sha512_256i}
use mpc_lib.Common.ModInt.{mul, exp}
use mpc_lib.Common.ModInt
use mpc_lib.Crypto.Paillier.{or_panic}

abbrev pub iterations : ℕ
iterations = 128

pub record Proof : Type 0 where
  pub alpha : List ℤ
  pub t : List ℤ

-- `c.Bit(i)`.
unfoldable pub bit : ℕ → ℕ → ℕ
bit c i = c / 2 ^ i % 2

-- The powers of h1 by the numbers that were drawn.
unfoldable pub alphas : ℕ → ℤ → List ℕ → Result (List ℤ)
alphas n h1 [] = ok []
alphas n h1 (a ∷ drawn) = do
  alpha ← or_panic (exp n h1 (pos a))
  rest ← alphas n h1 drawn
  ok (alpha ∷ rest)

-- The answers, from bit i on.
unfoldable pub answers : ℕ → ℤ → ℕ → ℕ → List ℕ → List ℤ
unfolding bit
answers p_mul_q x c i [] = []
answers p_mul_q x c i (a ∷ drawn) =
    ModInt.add p_mul_q (pos a) (mul p_mul_q (pos (bit c i)) x) ∷ answers p_mul_q x c (i + 1) drawn

-- The equations, from bit i on.
unfoldable pub equations : ℕ → ℤ → ℤ → ℕ → ℕ → List ℤ → List ℤ → Result Bool
unfolding bit
equations n h1 h2 c i [] ts = ok true
equations n h1 h2 c i (alpha ∷ alphas) [] = panic
equations n h1 h2 c i (alpha ∷ alphas) (t ∷ ts) = do
  h1_exp_ti ← or_panic (exp n h1 t)
  h2_exp_ci ← or_panic (exp n h2 (pos (bit c i)))
  if h1_exp_ti ==ℤ mul n alpha h2_exp_ci then equations n h1 h2 c (i + 1) alphas ts else ok false

-- More than 1 as a residue.
unfoldable pub is_large_residue : ℕ → ℤ → Bool
is_large_residue n x = ltb 1 (emod x n)

unfoldable pub residue_checks : ℤ → ℤ → ℕ → Proof → Bool
unfolding is_large_residue
residue_checks h1 h2 n p =
    is_large_residue n h1
    && (is_large_residue n h2
        && (not (emod h1 n == emod h2 n)
            && (all (is_large_residue n) p.t && all (is_large_residue n) p.alpha)))

module _ (sum : List ℕ → List ℕ) where
  digest_or_panic : Option ℕ → Result ℕ
  digest_or_panic none = panic
  digest_or_panic (some c) = ok c

  unfoldable pub dln_challenge : ℤ → ℤ → ℕ → List ℤ → Result ℕ
  unfolding digest_or_panic
  dln_challenge h1 h2 n alpha = digest_or_panic (sha512_256i sum (h1 ∷ h2 ∷ pos n ∷ alpha))

  -- `drawn` has as many numbers as there are iterations.
  unfoldable pub new_dln_proof : ℤ → ℤ → ℤ → ℕ → ℕ → ℕ → List ℕ → Result Proof
  unfolding alphas answers dln_challenge
  new_dln_proof h1 h2 x p q n drawn = do
    alpha ← alphas n h1 drawn
    c ← dln_challenge h1 h2 n alpha
    ok (record { alpha = alpha; t = answers (p * q) x c 0 drawn })

  unfoldable pub dln_verify : Proof → ℤ → ℤ → ℕ → Result Bool
  unfolding residue_checks dln_challenge equations
  dln_verify p h1 h2 n =
      if residue_checks h1 h2 n p
      then (do c ← dln_challenge h1 h2 n p.alpha; equations n h1 h2 c 0 p.alpha p.t)
      else ok false
