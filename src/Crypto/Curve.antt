-- ===== src/Crypto/Curve.antt =====
-- The curves: `elliptic.Curve` values of secp256k1 and Ed25519, which other packages implement. They
-- are a parameter of all that follows, with the laws that the code relies on.
use Prim.Native.String.{String}
use mpc_lib.Prelude.{
  ℕ, ◌+◌, ◌*◌, ◌%◌, ◌<◌, ◌≡◌, ℤ, Bool, true, Option, List, ◌==◌, if◌then◌else◌, set_bytes,
}

abbrev pub Coords : Type 0
Coords = ℤ × ℤ

-- `Params()` and the methods that the code calls. A scalar is given by its big-endian bytes. `name` is
-- what `GetCurveName` of tss/curve.go finds: the name under which a curve of this type is registered.
pub record Curve : Type 0 where
  pub name : Option String
  pub p : ℕ
  pub n : ℕ
  pub g : Coords
  pub is_on_curve : Coords → Bool
  pub add : Coords → Coords → Coords
  pub scalar_mult : Coords → List ℕ → Coords
  pub scalar_base_mult : List ℕ → Coords

-- The multiples of the base point form a cyclic group of order n. `identity_on` is whether the
-- coordinates that stand for the identity pass the curve's test: (0, 1) does on Ed25519, and (0, 0)
-- does not on secp256k1.
pub record IsGroup (c : Curve) : Type 0 where
  pub point : ℕ → Coords
  pub identity_on : Bool
  pub order : 1 < c.n
  pub base : c.g ≡ point 1
  pub base_mult : (k : List ℕ) → c.scalar_base_mult k ≡ point (set_bytes k)
  pub mult : (j : ℕ) (k : List ℕ) → c.scalar_mult (point j) k ≡ point (j * set_bytes k)
  pub add_points : (j k : ℕ) → c.add (point j) (point k) ≡ point (j + k)
  pub point-mod : (j : ℕ) → point (j % c.n) ≡ point j
  pub point-injective : (j k : ℕ) → point j ≡ point k → j % c.n ≡ k % c.n
  pub on_curve : (j : ℕ) → c.is_on_curve (point j) ≡ (if j % c.n == 0 then identity_on else true)
