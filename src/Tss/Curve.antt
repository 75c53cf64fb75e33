-- ===== src/Tss/Curve.antt =====
-- tss/curve.go: whether two curves are the same. The registry itself is the name that a curve has.
use Prim.Native.String.{String}
use text.Mathlib.Text.{◌==◌}
use mpc_lib.Prelude.{Bool, false, Option, none, some}
use mpc_lib.Crypto.Curve.{Curve}

-- Two names that are there, and the same.
unfoldable pub same_name : Option String → Option String → Bool
same_name (some l) (some r) = l == r
same_name (some l) none = false
same_name none r = false

unfoldable pub same_curve : Curve → Curve → Bool
unfolding same_name
same_curve lhs rhs = same_name lhs.name rhs.name
