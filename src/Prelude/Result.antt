-- ===== src/Prelude/Result.antt =====
-- What a Go call gives: a value, an error with its text, or a run-time panic.
use Prim.Native.String.{String}
use Prim.Native.Nat.{ℕ, zero, suc}
use mathlib.Core.Path.{◌≡◌, refl}
use mpc_lib.Prelude.Int.{ℤ, pos, negsuc}
use mathlib.Core.Bool.{Bool, true, false}
use mathlib.Core.List.{List, [], ◌∷◌}

pub data Result {ℓ} (A : Type ℓ) : Type ℓ where
  ok : A → Result A
  err : String → Result A
  panic : Result A

-- The rest of a function, behind a call that may not give a value.
infixl 5 ◌>>=◌
abbrev pub ◌>>=◌ {ℓ₁ ℓ₂} :
    {X : Type ℓ₁} {Y : Type ℓ₂} (call : Result X) (rest : X → Result Y) → Result Y
panic >>= rest = panic
err text >>= rest = err text
ok x >>= rest = rest x

-- `if !test { return err }`.
abbrev pub guard : (test : Bool) (text : String) → Result (Unit {0})
guard false text = err text
guard true text = ok tt

-- A test with nothing to hand on.
infixl 5 ◌>>◌
abbrev pub ◌>>◌ {ℓ₁} : {Y : Type ℓ₁} (test : Result (Unit {0})) (rest : Result Y) → Result Y
test >> rest = test >>= λ u. rest

-- A loop that fills a slice.
abbrev pub traverse {ℓ κ} : {A : Type ℓ} {B : Type κ} → (A → Result B) → List A → Result (List B)
traverse f [] = ok []
traverse f (x ∷ xs) = do y ← f x; ys ← traverse f xs; ok (y ∷ ys)

pub >>=-eq-ok {ℓ₁ ℓ₂} :
    {X : Type ℓ₁} {Y : Type ℓ₂} (call : Result X) (rest : X → Result Y) {y : Y}
    → (call >>= rest) ≡ ok y
    → (x : X) × (call ≡ ok x) × (rest x ≡ ok y)
>>=-eq-ok panic rest e = absurd (cc)
>>=-eq-ok (err text) rest e = absurd (cc)
>>=-eq-ok (ok x) rest e = (x, refl, e)

-- `xs[i]`.
abbrev pub nth {ℓ} : {A : Type ℓ} → List A → ℕ → Result A
nth [] i = panic
nth (x ∷ xs) zero = ok x
nth (x ∷ xs) (suc i) = nth xs i

-- `xs[i] = v`.
abbrev pub put {ℓ} : {A : Type ℓ} → List A → ℕ → A → Result (List A)
put [] i v = panic
put (x ∷ xs) zero v = ok (v ∷ xs)
put (x ∷ xs) (suc i) v = do ys ← put xs i v; ok (x ∷ ys)

-- An index that is a Go `int`.
abbrev pub to_index : ℤ → Result ℕ
to_index (pos i) = ok i
to_index (negsuc i) = panic
