-- ===== src/Eddsa/Signing/Edwards.antt =====
-- eddsa/signing/utils.go, the part over the package edwards25519, which is a parameter, with SHA-512
-- and the verifier of the package edwards. Byte arrays are lists.
use mpc_lib.Prelude.{ℕ, ◌+◌, ◌%◌, ℤ, nat_abs, Bool, some, List, [], ◌∷◌, if◌then◌else◌}
use mpc_lib.Crypto.Curve.{Coords}
use mpc_lib.Eddsa.Signing.Encoding.{big_int_to_encoded_bytes}

pub record ExtendedGroupElement (F : Type 0) : Type 0 where
  pub x : F
  pub y : F
  pub z : F
  pub t : F

-- What the code calls of the packages: field elements, the addition of group elements by way of two
-- other representations, and scalars modulo the order as 32 bytes.
pub record Edwards25519 : Type 1 where
  pub FieldElement : Type 0
  pub CachedGroupElement : Type 0
  pub CompletedGroupElement : Type 0
  pub fe_from_bytes : List ℕ → FieldElement
  pub fe_is_negative : FieldElement → Bool
  pub fe_mul : FieldElement → FieldElement → FieldElement
  pub ge_scalar_mult_base : List ℕ → ExtendedGroupElement FieldElement
  pub ge_add : ExtendedGroupElement FieldElement → CachedGroupElement → CompletedGroupElement
  pub to_cached : ExtendedGroupElement FieldElement → CachedGroupElement
  pub to_extended : CompletedGroupElement → ExtendedGroupElement FieldElement
  pub to_bytes : ExtendedGroupElement FieldElement → List ℕ
  pub sc_reduce : List ℕ → List ℕ
  pub sc_mul_add : List ℕ → List ℕ → List ℕ → List ℕ
  pub sha512 : List ℕ → List ℕ
  pub verify : Coords → List ℕ → ℕ → ℕ → Bool

-- The encoding of a number of either sign.
abbrev pub encode : ℤ → List ℕ
encode a = big_int_to_encoded_bytes (some (nat_abs a))

-- The top bit of the last byte says that x is negative.
unfoldable pub set_sign : Bool → List ℕ → List ℕ
set_sign is_negative [] = []
set_sign is_negative (b ∷ []) = (if is_negative then b % 128 + 128 else b % 128) ∷ []
set_sign is_negative (b ∷ c ∷ s) = b ∷ set_sign is_negative (c ∷ s)

module _ (ed : Edwards25519) where
  open ed use {FieldElement, fe_from_bytes, fe_is_negative, fe_mul, ge_add, to_cached, to_extended}

  abbrev pub Element : Type 0
  Element = ExtendedGroupElement FieldElement

  unfoldable pub ec_point_to_encoded_bytes : Coords → List ℕ
  unfolding set_sign
  ec_point_to_encoded_bytes (x, y) = set_sign (fe_is_negative (fe_from_bytes (encode x))) (encode y)

  unfoldable pub add_extended_elements : Element → Element → Element
  add_extended_elements p q = to_extended (ge_add p (to_cached q))

  -- `z` is the random number.
  unfoldable pub ec_point_to_extended_element : Coords → ℤ → Element
  ec_point_to_extended_element (x, y) z =
      let fx = fe_from_bytes (encode x) in
      let fy = fe_from_bytes (encode y) in
      let fz = fe_from_bytes (encode z) in
      record { x = fe_mul fx fz; y = fe_mul fy fz; z = fz; t = fe_mul (fe_mul fx fy) fz }
