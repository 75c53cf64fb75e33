-- ===== src/Prelude/Int64.antt =====
-- Machine integers: `(*big.Int).Int64()`.
use Prim.Native.Nat.{ℕ, suc, ◌-◌, ◌%◌, ◌^◌}
use mpc_lib.Prelude.Tests.{ltb, if◌then◌else◌}
use mpc_lib.Prelude.Int.{ℤ, pos, negsuc, neg_ℤ}

-- The two's complement reading of the low 64 bits.
abbrev pub signed64 : ℕ → ℤ
signed64 n = let w = n % 2 ^ 64 in if ltb w (2 ^ 63) then pos w else negsuc (2 ^ 64 - w - 1)

-- Negation of an `int64`, which leaves the least one as it is.
abbrev neg64 : ℤ → ℤ
neg64 (pos n) = neg_ℤ (pos n)
neg64 (negsuc n) = signed64 (suc n)

-- The low 64 bits of the absolute value, negated where the number is negative.
abbrev pub int64 : ℤ → ℤ
int64 (pos n) = signed64 n
int64 (negsuc n) = neg64 (signed64 (suc n))
