-- ===== src/Common/ModInt/Powers.antt =====
-- `Exp` with a modulus, read as the power of a number.
use mpc_lib.Prelude.{
  ℕ, zero, suc, ◌+◌, ◌*◌, ◌/◌, ◌%◌, ◌^◌, ◌<◌, ◌≡◌, refl, sym, ap, ap₂, ◌∙◌, arith, ℤ, pos, emod,
  emod-lt, some, pos-*ℤ, emod-lt,
}
use native.Mathlib.Nat.{
  mod-mod, mod-eq_of_lt, add-mul-mod_self_left, div-add-mod, pow-zero, pow-suc,
}
use mpc_lib.Common.ModInt.{power, exp, mul}

pub mul-mod_left_drop : (a b n : ℕ) → a % n * b % n ≡ a * b % n
mul-mod_left_drop a b n =
    sym (add-mul-mod_self_left (a % n * b) n (a / n * b))
    ∙ ap (λ (t : ℕ). t % n) (omega (arith, ap (λ (t : ℕ). t * b) (div-add-mod a n)))

pub mul-mod_right_drop : (a b n : ℕ) → a * (b % n) % n ≡ a * b % n
mul-mod_right_drop a b n =
    ap (λ (t : ℕ). t % n) (omega arith)
    ∙ mul-mod_left_drop b a n
    ∙ ap (λ (t : ℕ). t % n) (omega arith)

pub mul-mod_congr : (a a' b b' n : ℕ) → a % n ≡ a' % n → b % n ≡ b' % n → a * b % n ≡ a' * b' % n
mul-mod_congr a a' b b' n p q =
    sym (mul-mod_left_drop a b n)
    ∙ sym (mul-mod_right_drop (a % n) b n)
    ∙ ap₂ (λ (s t : ℕ). s * t % n) p q
    ∙ mul-mod_right_drop (a' % n) b' n
    ∙ mul-mod_left_drop a' b' n

pub pow-suc_left : (b e : ℕ) → b ^ suc e ≡ b * b ^ e
pow-suc_left b e = omega (arith, pow-suc b e)

pub pow-add : (b d e : ℕ) → b ^ (d + e) ≡ b ^ d * b ^ e
pow-add b zero e =
    let same : b ^ (0 + e) ≡ b ^ e = ap (λ (t : ℕ). b ^ t) (omega arith) in
    omega (arith, same, ap (λ (t : ℕ). t * b ^ e) (pow-zero b))
pow-add b (suc d) e =
    let shifted : b ^ (suc d + e) ≡ b ^ suc (d + e) = ap (λ (t : ℕ). b ^ t) (omega arith) in
    omega (
      arith,
      shifted,
      pow-suc_left b (d + e),
      ap (λ (t : ℕ). t * b ^ e) (pow-suc_left b d),
      ap (λ (t : ℕ). b * t) (pow-add b d e),
    )

pub mul-pow : (a b e : ℕ) → (a * b) ^ e ≡ a ^ e * b ^ e
mul-pow a b zero = rw (pow-zero (a * b), pow-zero a, pow-zero b) refl
mul-pow a b (suc e) = omega (
  arith,
  pow-suc_left (a * b) e,
  pow-suc_left a e,
  pow-suc_left b e,
  ap (λ (t : ℕ). a * b * t) (mul-pow a b e),
  ap (λ (t : ℕ). t * b ^ suc e) (pow-suc_left a e),
  ap (λ (t : ℕ). a * a ^ e * t) (pow-suc_left b e),
)

pub one-pow : (e : ℕ) → 1 ^ e ≡ 1
one-pow zero = refl
one-pow (suc e) = omega (arith, one-pow e, pow-suc_left 1 e)

pub pow-mul : (b d e : ℕ) → b ^ (d * e) ≡ (b ^ d) ^ e
pow-mul b d zero = ap (λ (t : ℕ). b ^ t) (omega arith) ∙ pow-zero b ∙ sym (pow-zero (b ^ d))
pow-mul b d (suc e) =
    ap (λ (t : ℕ). b ^ t) (omega arith)
    ∙ pow-add b d (d * e)
    ∙ ap (λ (t : ℕ). b ^ d * t) (pow-mul b d e)
    ∙ sym (pow-suc_left (b ^ d) e)

pub pow-mod_congr : (a b e n : ℕ) → a % n ≡ b % n → a ^ e % n ≡ b ^ e % n
pow-mod_congr a b zero n h = rw (pow-zero a, pow-zero b) refl
pow-mod_congr a b (suc e) n h =
    ap (λ (t : ℕ). t % n) (pow-suc_left a e)
    ∙ mul-mod_congr a b (a ^ e) (b ^ e) n h (pow-mod_congr a b e n h)
    ∙ ap (λ (t : ℕ). t % n) (sym (pow-suc_left b e))

pub power_lem : (m b e : ℕ) → power m b e ≡ b ^ e % m
unfolding power
power_lem m b zero = ap (λ (t : ℕ). t % m) (sym (pow-zero b))
power_lem m b (suc e) =
    ap (λ (t : ℕ). b * t % m) (power_lem m b e)
    ∙ mul-mod_right_drop b (b ^ e) m
    ∙ ap (λ (t : ℕ). t % m) (sym (pow-suc_left b e))

-- A power with a natural exponent.
pub exp-pos : (m : ℕ) (x : ℤ) (e : ℕ) → exp m x (pos e) ≡ some (pos (emod x m ^ e % m))
unfolding exp
exp-pos m x e = ap (λ k. some (pos k)) (power_lem m (emod x m) e)

pub emod-mod : (x : ℤ) (m : ℕ) → 0 < m → emod x m % m ≡ emod x m
emod-mod x m h = mod-eq_of_lt (emod-lt x m h)

-- The power of a residue is that of the number.
pub pow-mod : (b e n : ℕ) → (b % n) ^ e % n ≡ b ^ e % n
pow-mod b e n = pow-mod_congr (b % n) b e n (mod-mod b n)

-- The product of two natural numbers.
pub mul-pos : (m a b : ℕ) → mul m (pos a) (pos b) ≡ pos (a * b % m)
unfolding mul
mul-pos m a b = ap (λ z. pos (emod z m)) (pos-*ℤ a b) ∙ (unfold emod in refl)
