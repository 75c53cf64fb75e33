-- ===== src/Crypto/ZkProofs.antt =====
-- crypto/zkproofs/zkproofs.go: what the zero-knowledge proofs share. A nil number that is used panics.
pub mod Powers
pub mod Equations
pub mod Mul
pub mod Dec
pub mod LogStar
pub mod MulStar
pub mod AffG
pub mod AffP
pub mod AffGInv
pub mod Answers
pub mod AffGCompleteness
pub mod LogStarCompleteness
pub mod Enc
pub mod EncCompleteness
use mpc_lib.Prelude.{
  ℕ, ◌+◌, ◌*◌, ◌^◌, ℤ, pos, neg_ℤ, ◌+ℤ◌, ◌*ℤ◌, ltb_ℤ, ◌==ℤ◌, Bool, ◌&&◌, List, [], ◌∷◌, ◌++◌,
  Option, none, some, replicate,
}
use mpc_lib.Prelude.Result.{Result, ok, ◌>>=◌}
use mpc_lib.Common.ModInt.{mul, exp}
use mpc_lib.Crypto.Curve.{Curve}
use mpc_lib.Crypto.Paillier.{or_panic}

-- `ell` is the bit length of the curve, which is not among the parameters of a curve here.
pub record Ell : Type 0 where
  pub ell : ℕ
  pub two_pow_ell : ℕ
  pub epsilon : ℕ
  pub ell_plus_epsilon : ℕ
  pub two_pow_ell_plus_epsilon : ℕ

unfoldable pub new_ell : ℕ → Ell
new_ell ell = record {
  ell = ell;
  two_pow_ell = 2 ^ ell;
  epsilon = ell * 2;
  ell_plus_epsilon = ell + ell * 2;
  two_pow_ell_plus_epsilon = 2 ^ (ell + ell * 2);
}

-- `val.Cmp(-bound) == 1 && val.Cmp(bound) == -1`.
unfoldable pub is_within : ℕ → ℤ → Bool
is_within bound val = ltb_ℤ (neg_ℤ (pos bound)) val && ltb_ℤ val (pos bound)

unfoldable pub in_range : Ell → ℤ → Bool
unfolding is_within
in_range ell val = is_within ell.two_pow_ell_plus_epsilon val

unfoldable pub in_range_ell : Ell → ℤ → Bool
unfolding is_within
in_range_ell ell val = is_within ell.two_pow_ell val

unfoldable pub is_zero : ℤ → Bool
is_zero val = val ==ℤ pos 0

unfoldable pub pseudo_paillier_encrypt : ℤ → ℤ → ℤ → ℕ → ℕ → Result ℤ
pseudo_paillier_encrypt gamma m rho n n2 = do
  gm ← or_panic (exp n2 gamma m)
  xn ← or_panic (exp n2 rho (pos n))
  ok (mul n2 gm xn)

-- Ring-Pedersen parameters, and the commitment s^x t^y.
pub record RingPedersenParams : Type 0 where
  pub s : ℤ
  pub t : ℤ
  pub n : ℕ

unfoldable pub commit : RingPedersenParams → ℤ → ℤ → Result ℤ
commit rp x y = do
  sx ← or_panic (exp rp.n rp.s x)
  ty ← or_panic (exp rp.n rp.t y)
  ok (mul rp.n sx ty)

unfoldable pub a_plus_bc : ℤ → ℤ → ℤ → ℤ
a_plus_bc a b c = a +ℤ b *ℤ c

unfoldable pub a_times_b_to_the_c_mod_n : ℤ → ℤ → ℤ → ℕ → Result ℤ
a_times_b_to_the_c_mod_n a b c n = do bc ← or_panic (exp n b c); ok (mul n a bc)

-- `ProofArrayToBytes`, over proofs that are given by their parts: a nil proof leaves nil parts.
unfoldable pub proof_array_to_bytes : ℕ → List (Option (List (List ℕ))) → List (List ℕ)
proof_array_to_bytes parts [] = []
proof_array_to_bytes parts (none ∷ proofs) = replicate parts [] ++ proof_array_to_bytes parts proofs
proof_array_to_bytes parts (some bzs ∷ proofs) = bzs ++ proof_array_to_bytes parts proofs
