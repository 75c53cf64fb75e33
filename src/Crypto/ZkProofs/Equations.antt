-- ===== src/Crypto/ZkProofs/Equations.antt =====
-- crypto/zkproofs: the tests that the verifiers of the proofs have in common.
use mpc_lib.Prelude.{
  ℕ, ℤ, pos, bytes, set_bytes, nat_abs, Bool, false, Option, none, some, List, ◌==ℤ◌, if◌then◌else◌,
}
use mpc_lib.Prelude.Result.{Result, ok, err, panic, ◌>>=◌}
use mpc_lib.Crypto.Point.{EcPoint, scalar_mult, add, equals}
use mpc_lib.Crypto.ZkProofs.{a_times_b_to_the_c_mod_n}

-- A verifier ends at the first test that fails.
unfoldable pub and_then : Result Bool → Result Bool → Result Bool
and_then test rest = do passed ← test; if passed then rest else ok false

-- A digest that is nil is used as a number.
unfoldable pub digest_or_panic : Option ℕ → Result ℕ
digest_or_panic none = panic
digest_or_panic (some c) = ok c

-- An error that is dropped leaves nil, and the use of that is a panic.
unfoldable pub unchecked : Result ℤ → Result ℤ
unchecked (ok a) = ok a
unchecked (err text) = panic
unchecked panic = panic

-- An error of the encryption is a refusal.
unfoldable pub refused : Result ℤ → (Result ℤ → Result Bool) → Result Bool
refused (ok l) test = test (ok l)
refused (err text) test = ok false
refused panic test = panic

-- `left.Cmp(ATimesBToTheCModN(a, b, e, n)) == 0`.
unfoldable pub power_equation : Result ℤ → ℤ → ℤ → ℕ → ℕ → Result Bool
power_equation left a b e n = do l ← left; r ← a_times_b_to_the_c_mod_n a b (pos e) n; ok (l ==ℤ r)

-- `left.Equals(y.Add(x.ScalarMult(e)))`, where an error of the addition is a refusal.
unfoldable pub group_equation : Result EcPoint → EcPoint → EcPoint → ℕ → Result Bool
unfolding equals
group_equation left y x e = do
  l ← left
  xe ← scalar_mult x (pos e)
  elim (add y xe) [ ok r ↦ ok (equals l r) | err text ↦ ok false | panic ↦ panic ]

-- The number that a part of a message spells.
abbrev pub number : List ℕ → ℤ
number bz = pos (set_bytes bz)

-- The part that a number is written as, without its sign.
abbrev pub part : ℤ → List ℕ
part z = bytes (nat_abs z)
