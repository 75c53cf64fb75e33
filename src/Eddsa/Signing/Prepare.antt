-- ===== src/Eddsa/Signing/Prepare.antt =====
-- eddsa/signing/prepare.go: the additive share of a signer. An index out of range or a nil inverse
-- panics, as the tests in the code do.
use mpc_lib.Prelude.{
  ℕ, ◌+◌, ℤ, ◌-ℤ◌, Option, none, some, List, [], ◌∷◌, length, ◌==◌, ◌==ℤ◌, if◌then◌else◌,
}
use mpc_lib.Prelude.Result.{Result, ok, panic, ◌>>=◌, nth}
use mpc_lib.Common.ModInt.{mul, mod_inverse}
use mpc_lib.Crypto.Curve.{Curve}

unfoldable pub inverse_or_panic : Option ℤ → Result ℤ
inverse_or_panic none = panic
inverse_or_panic (some i) = ok i

-- `ks[j] * (ks[j] - ks[i])^-1`, where the two are different.
unfoldable pub coefficient : ℕ → ℤ → ℤ → Result ℤ
unfolding inverse_or_panic
coefficient q ksj ksi =
    if ksj ==ℤ ksi
    then panic
    else (do inv ← inverse_or_panic (mod_inverse q (ksj -ℤ ksi)); ok (mul q ksj inv))

-- The loop over the other parties.
unfoldable pub weigh : ℕ → ℕ → ℤ → ℕ → ℤ → List ℤ → Result ℤ
unfolding coefficient
weigh q i ksi j wi [] = ok wi
weigh q i ksi j wi (ksj ∷ ks) = do
  wi' ← if j == i then ok wi else (do coef ← coefficient q ksj ksi; ok (mul q wi coef))
  weigh q i ksi (j + 1) wi' ks

unfoldable pub prepare_for_signing : Curve → ℕ → ℕ → ℤ → List ℤ → Result ℤ
unfolding weigh
prepare_for_signing ec i pax xi ks =
    if length ks == pax then (do ksi ← nth ks i; weigh ec.n i ksi 0 xi ks) else panic
