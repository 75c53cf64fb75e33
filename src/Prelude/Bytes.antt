-- ===== src/Prelude/Bytes.antt =====
-- Big-endian bytes of a number without leading zeros (`(*big.Int).Bytes`), read back (`SetBytes`),
-- and the eight little-endian bytes of a 64-bit word (`PutUint64`).
use Prim.Native.Nat.{ℕ, zero, suc, ◌+◌, ◌*◌, ◌/◌, ◌%◌, ◌^◌, ◌≤◌, ◌<◌}
use mathlib.Core.Path.{◌≡◌, refl, sym, ap, subst, ◌∙◌}
use mathlib.Core.Logic.{inl, inr}
use mathlib.Core.List.{List, [], ◌∷◌}
use native.Mathlib.Omega.{arith}
use native.Mathlib.Nat.{pow-zero, pow-suc}
use mpc_lib.Prelude.Tests.{◌==◌, if◌then◌else◌, Bool-cases}
use mpc_lib.Prelude.Lists.{length}

bytes_onto : ℕ → ℕ → List ℕ → List ℕ
bytes_onto zero n rest = rest
bytes_onto (suc fuel) n rest =
    let longer = bytes_onto fuel (n / 256) (n % 256 ∷ rest) in if n == 0 then rest else longer

unfoldable pub bytes : ℕ → List ℕ
unfolding bytes_onto
bytes n = bytes_onto n n []

unfoldable pub set_bytes_from : ℕ → List ℕ → ℕ
set_bytes_from n [] = n
set_bytes_from n (b ∷ bs) = set_bytes_from (n * 256 + b) bs

unfoldable pub set_bytes : List ℕ → ℕ
unfolding set_bytes_from
set_bytes bs = set_bytes_from 0 bs

unfoldable pub put_uint64 : ℕ → List ℕ
put_uint64 n =
    n % 256
    ∷ n / 2 ^ 8 % 256
    ∷ n / 2 ^ 16 % 256
    ∷ n / 2 ^ 24 % 256
    ∷ n / 2 ^ 32 % 256
    ∷ n / 2 ^ 40 % 256
    ∷ n / 2 ^ 48 % 256
    ∷ n / 2 ^ 56 % 256
    ∷ []

-- Every element is a byte.
abbrev pub HasBytes : List ℕ → Type 0
HasBytes [] = Unit
HasBytes (b ∷ bs) = (b < 256) × HasBytes bs

set_bytes_from-bytes_onto :
    (fuel n : ℕ) (rest : List ℕ)
    → n ≤ fuel
    → set_bytes_from 0 (bytes_onto fuel n rest) ≡ set_bytes_from n rest
unfolding bytes_onto
set_bytes_from-bytes_onto zero n rest h = ap (λ k. set_bytes_from k rest) (omega arith)
set_bytes_from-bytes_onto (suc fuel) n rest h = elim (Bool-cases (n == 0)) [
  | inl done ↦ rw done (ap (λ k. set_bytes_from k rest) (ground arith))
  | inr more ↦ rw more (
      set_bytes_from-bytes_onto fuel (n / 256) (n % 256 ∷ rest) (ground arith)
      ∙ unfold set_bytes_from in ap (λ k. set_bytes_from k rest) (omega arith))
]

pub set_bytes-bytes : (n : ℕ) → set_bytes (bytes n) ≡ n
unfolding set_bytes bytes
set_bytes-bytes n = set_bytes_from-bytes_onto n n [] (omega arith)

pub bytes-injective : {m n : ℕ} → bytes m ≡ bytes n → m ≡ n
bytes-injective {m} {n} e = sym (set_bytes-bytes m) ∙ ap set_bytes e ∙ set_bytes-bytes n

bytes_onto-HasBytes :
    (fuel n : ℕ) (rest : List ℕ) → HasBytes rest → HasBytes (bytes_onto fuel n rest)
unfolding bytes_onto
bytes_onto-HasBytes zero n rest h = h
bytes_onto-HasBytes (suc fuel) n rest h =
    ground (arith, bytes_onto-HasBytes fuel (n / 256) (n % 256 ∷ rest))

pub bytes-HasBytes : (n : ℕ) → HasBytes (bytes n)
unfolding bytes
bytes-HasBytes n = bytes_onto-HasBytes n n [] tt

length-bytes_onto :
    (fuel n k : ℕ) (rest : List ℕ) → n < 256 ^ k → length (bytes_onto fuel n rest) ≤ k + length rest
unfolding bytes_onto
length-bytes_onto zero n k rest h = omega arith
length-bytes_onto (suc fuel) n zero rest h =
    let small : n < 1 = subst (λ (t : ℕ). n < t) (pow-zero 256) h in ground arith
length-bytes_onto (suc fuel) n (suc k) rest h =
    let step : 256 ^ suc k ≡ 256 ^ k * 256 = pow-suc 256 k in
    let smaller : n / 256 < 256 ^ k = omega (arith, h, step) in
    ground (arith, length-bytes_onto fuel (n / 256) k (n % 256 ∷ rest) smaller)

-- A number below 256^k has at most k bytes.
pub length-bytes : (n k : ℕ) → n < 256 ^ k → length (bytes n) ≤ k
unfolding bytes
length-bytes n k h = omega (arith, length-bytes_onto n n k [] h)

pub length-put_uint64 : (n : ℕ) → length (put_uint64 n) ≡ 8
unfolding put_uint64
length-put_uint64 n = refl

pub put_uint64-injective : {m n : ℕ} → m < 2 ^ 64 → n < 2 ^ 64 → put_uint64 m ≡ put_uint64 n → m ≡ n
unfolding put_uint64
put_uint64-injective {m} {n} hm hn e = ground arith

set_bytes_from-injective :
    (m n : ℕ) (xs ys : List ℕ)
    → length xs ≡ length ys
    → HasBytes xs
    → HasBytes ys
    → set_bytes_from m xs ≡ set_bytes_from n ys
    → (m ≡ n) × (xs ≡ ys)
unfolding set_bytes_from
set_bytes_from-injective m n [] [] l hx hy e = (e, refl)
set_bytes_from-injective m n [] (y ∷ ys) l hx hy e = absurd (omega arith)
set_bytes_from-injective m n (x ∷ xs) [] l hx hy e = absurd (omega arith)
set_bytes_from-injective m n (x ∷ xs) (y ∷ ys) l hx hy e =
    let (p, q) =
      set_bytes_from-injective (m * 256 + x) (n * 256 + y) xs ys (omega arith) hx.1 hy.1 e in
    let same : x ≡ y = omega (arith, hx.0, hy.0, p) in (omega (arith, p, same), cc (same, q))

-- Byte strings of one length are told apart by the number that they spell.
pub set_bytes-injective :
    (xs ys : List ℕ)
    → length xs ≡ length ys
    → HasBytes xs
    → HasBytes ys
    → set_bytes xs ≡ set_bytes ys
    → xs ≡ ys
unfolding set_bytes
set_bytes-injective xs ys l hx hy e = (set_bytes_from-injective 0 0 xs ys l hx hy e).1
