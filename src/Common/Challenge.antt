-- ===== src/Common/Challenge.antt =====
-- common/hash_utils.go: a digest reduced modulo a curve's order. The argument is overwritten by the
-- result there; no caller uses it again.
use mpc_lib.Prelude.{ℕ, ◌%◌, Option, none, some}
use mpc_lib.Prelude.Result.{Result, ok, panic}

-- `none` is a nil digest.
unfoldable pub rejection_sample : ℕ → Option ℕ → Result ℕ
rejection_sample q none = panic
rejection_sample q (some e_hash) = ok (e_hash % q)
