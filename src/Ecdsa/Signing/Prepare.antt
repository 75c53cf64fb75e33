-- ===== src/Ecdsa/Signing/Prepare.antt =====
-- ecdsa/signing/prepare.go: the additive share of a signer and the public ones of all. The loop for the
-- signer's share is the one of eddsa/signing/prepare.go.
use mpc_lib.Prelude.{ℕ, ◌+◌, ℤ, List, [], ◌∷◌, length, ◌==◌, if◌then◌else◌}
use mpc_lib.Prelude.Result.{Result, ok, panic, ◌>>=◌, nth}
use mpc_lib.Crypto.Curve.{Curve}
use mpc_lib.Crypto.Point.{EcPoint, scalar_mult}
use mpc_lib.Eddsa.Signing.Prepare.{coefficient, weigh}

-- The inner loop: the public share of party j times a coefficient for each other party.
unfoldable pub raise : ℕ → ℕ → ℤ → ℕ → EcPoint → List ℤ → Result EcPoint
raise q j ksj c big_wj [] = ok big_wj
raise q j ksj c big_wj (ksc ∷ ks) = do
  big_wj' ← if c == j then ok big_wj else (do iota ← coefficient q ksc ksj; scalar_mult big_wj iota)
  raise q j ksj (c + 1) big_wj' ks

-- The outer loop, from party j on; `all_ks` are the keys of all.
unfoldable pub raise_all : ℕ → List ℤ → ℕ → List ℤ → List EcPoint → Result (List EcPoint)
unfolding raise
raise_all q all_ks j [] big_xs = ok []
raise_all q all_ks j (ksj ∷ ks) [] = panic
raise_all q all_ks j (ksj ∷ ks) (big_xj ∷ big_xs) = do
  big_wj ← raise q j ksj 0 big_xj all_ks
  big_ws ← raise_all q all_ks (j + 1) ks big_xs
  ok (big_wj ∷ big_ws)

unfoldable pub prepare_shares :
    Curve → ℕ → ℕ → ℤ → List ℤ → List EcPoint → Result (ℤ × List EcPoint)
unfolding raise_all
prepare_shares ec i pax xi ks big_xs =
    if length ks == length big_xs
    then if length ks == pax
      then (do
        ksi ← nth ks i
        wi ← weigh ec.n i ksi 0 xi ks
        big_ws ← raise_all ec.n ks 0 ks big_xs
        ok (wi, big_ws))
      else panic
    else panic
