-- ===== src/Crypto/Ckd/Derivation.antt =====
-- crypto/ckd: what a derived key is.
use Prim.Native.String.{String}
use mpc_lib.Prelude.{
  ℕ, ◌+◌, ◌%◌, ◌≡◌, refl, sym, ap, ◌∙◌, arith, ℤ, pos, pos-+ℤ, emod, set_bytes, ltb, Bool, true,
  false, not, ◌&&◌, List, [], ◌∷◌, length, take, drop, ◌==◌, if◌then◌else◌, ◌≢◌,
}
use mpc_lib.Prelude.Result.{Result, ok, err, panic, ◌>>◌, guard, >>=-eq-ok}
use native.Mathlib.Nat.{add-mod-mod}
use mpc_lib.Common.ModInt
use mpc_lib.Crypto.Curve.{Curve, IsGroup, Coords}
use mpc_lib.Crypto.Point.{EcPoint, new_ec_point, add}
use mpc_lib.Crypto.Point.Group.{at, add-at, scalar_base_mult-at}
use mpc_lib.Crypto.Ckd.{
  ExtendedKey, hardened_key_start, max_depth, hashed_data, has_zero, child_of, derive_child_key,
  derive_from, derive_child_key_from_hierarchy,
}

-- A call behind a test that holds.
behind_guard {ℓ} :
    {Y : Type ℓ} (test : Bool) (text : String) (rest : Result Y) {y : Y}
    → guard test text >> rest ≡ ok y
    → (test ≡ true) × (rest ≡ ok y)
behind_guard true text rest e = (refl, e)
behind_guard false text rest e = absurd (cc)

new_ec_point-eq-ok :
    (ec : Curve) (xy : Coords) (p : EcPoint)
    → new_ec_point ec xy ≡ ok p
    → p ≡ record { curve = ec; coords = xy }
unfolding new_ec_point
new_ec_point-eq-ok ec xy p e = ground arith

if-eq-ok :
    (b : Bool) (x y : EcPoint) (other : Result EcPoint)
    → other ≢ ok y
    → (if b then ok x else other) ≡ ok y
    → y ≡ x
if-eq-ok true x y other none_other e = ground arith
if-eq-ok false x y other none_other e = absurd (none_other e)

ok-injective :
    {X Y : Type 0} (a : X) (b : Y) (c : X) (d : Y)
    → ◌≡◌ {A = Result (X × Y)} (ok (a, b)) (ok (c, d))
    → (a ≡ c) × (b ≡ d)
ok-injective a b c d e = (cc, cc)

panic-ne-ok : (y : EcPoint) → panic ≢ ok y
panic-ne-ok y h = absurd (cc)

err-ne-ok : (text : String) (y : EcPoint) → err text ≢ ok y
err-ne-ok text y h = absurd (cc)

module _ (hmac512 : List ℕ → List ℕ → List ℕ) (hash160 : List ℕ → List ℕ) (ec : Curve)
    (G : IsGroup ec) where
  -- A key that is derived from the key of the scalar k, with the number il that is added to it.
  record IsChild (k : ℕ) (pk : ExtendedKey) (il : ℕ) (child : ExtendedKey) : Type 0 where
    derived : child.public_key ≡ G.point (k + il)
    deeper : child.depth ≡ pk.depth + 1

  derive_child_key-IsChild :
      (index k il : ℕ) (pk child : ExtendedKey)
      → pk.public_key ≡ G.point k
      → derive_child_key hmac512 hash160 index pk ec ≡ ok (il, child)
      → IsChild k pk il child
  unfolding derive_child_key child_of
  derive_child_key-IsChild index k il pk child at_k e =
      let ilr = hmac512 pk.chain_code (hashed_data pk.public_key index) in
      let (_, e1) =
        behind_guard (ltb index hardened_key_start) "the index must be non-hardened" _ e in
      let (_, e2) =
        behind_guard (not (pk.depth == max_depth)) "cannot derive key beyond max depth" _ e1 in
      let (crypto_pk, made, e3) = >>=-eq-ok _ _ e2 in
      let (_, e4) =
        behind_guard (ltb (set_bytes (take 32 ilr)) ec.n && not (set_bytes (take 32 ilr) == 0))
          "invalid derived key" _ e3 in
      let (delta, multiplied, e5) = >>=-eq-ok _ _ e4 in
      let (_, e6) = behind_guard (not (has_zero delta.coords)) "invalid child" _ e5 in
      let (child_pk, added, e7) =
        >>=-eq-ok (add crypto_pk delta)
          (λ child_pk. ok (
            set_bytes (take 32 ilr),
            child_of hmac512 hash160 index pk (drop 32 ilr) child_pk.coords,
          ))
          e6 in
      let same_pk : crypto_pk ≡ at ec G k =
        new_ec_point-eq-ok ec pk.public_key crypto_pk made
        ∙ ap (λ xy. record { curve = ec; coords = xy }) at_k in
      let same_delta : delta ≡ at ec G (set_bytes (take 32 ilr)) =
        if-eq-ok _ _ delta panic (panic-ne-ok delta)
          (sym (scalar_base_mult-at ec G (pos (set_bytes (take 32 ilr)))) ∙ multiplied) in
      let same_child : child_pk ≡ at ec G (k + set_bytes (take 32 ilr)) =
        if-eq-ok _ _ child_pk _ (err-ne-ok _ child_pk) (
          sym (add-at ec G k (set_bytes (take 32 ilr))) ∙ rw (sym same_pk, sym same_delta) added) in
      let (same_il, same) = ok-injective _ _ il child e7 in
      record {
        derived =
            ap (λ c. c.public_key) (sym same)
            ∙ ap (λ p. p.coords) same_child
            ∙ ap (λ (j : ℕ). G.point (k + j)) same_il;
        deeper = ap (λ c. c.depth) (sym same);
      }

  reduced : (c k j : ℕ) → G.point (k + j + c) ≡ G.point (k + (c + j) % ec.n)
  reduced c k j =
      let same : (k + (c + j) % ec.n) % ec.n ≡ (k + j + c) % ec.n =
        add-mod-mod k (c + j) ec.n ∙ ap (λ (t : ℕ). t % ec.n) (omega arith) in
      sym (G.point-mod (k + j + c))
      ∙ ap (λ (t : ℕ). G.point t) (sym same)
      ∙ G.point-mod (k + (c + j) % ec.n)

  added : (c j : ℕ) → ModInt.add ec.n (pos c) (pos j) ≡ pos ((c + j) % ec.n)
  unfolding ModInt.add emod
  added c j = rw (pos-+ℤ c j) refl

  -- Where the code derives a key through a list of indices from that of the scalar k, with the order
  -- as the modulus, the key is that of k plus the number that it returns, and each index makes it
  -- deeper by one.
  pub derive_child_key_from_hierarchy_lem :
      (indices : List ℕ) (k : ℕ) (pk child : ExtendedKey) (il : ℤ)
      → pk.public_key ≡ G.point k
      → derive_child_key_from_hierarchy hmac512 hash160 indices pk ec.n ec ≡ ok (il, child)
      → (t : ℕ) × (il ≡ pos t)
        × (child.public_key ≡ G.point (k + t))
        × (child.depth ≡ pk.depth + length indices)
  unfolding derive_child_key_from_hierarchy derive_from
  derive_child_key_from_hierarchy_lem indices k pk child il at_k e = loop indices 0 pk il at_k0 e
    where
      at_k0 : pk.public_key ≡ G.point (k + 0)
      at_k0 = at_k ∙ ap (λ (j : ℕ). G.point j) (omega arith)

      loop :
          (indices : List ℕ) (j : ℕ) (key : ExtendedKey) (il : ℤ)
          → key.public_key ≡ G.point (k + j)
          → derive_from hmac512 hash160 ec.n ec indices (pos j) key ≡ ok (il, child)
          → (t : ℕ) × (il ≡ pos t)
            × (child.public_key ≡ G.point (k + t))
            × (child.depth ≡ key.depth + length indices)
      loop [] j key il at_j e =
          let (p, q) = ok-injective (pos j) key il child e in
          (j, sym p, ap (λ c. c.public_key) (sym q) ∙ at_j, ap (λ c. c.depth) (sym q) ∙ omega arith)
      loop (index ∷ indices) j key il at_j e =
          let ((c, next), derived, rest) =
            >>=-eq-ok (derive_child_key hmac512 hash160 index key ec)
              (λ r.
                derive_from hmac512 hash160 ec.n ec indices (ModInt.add ec.n (pos (r.0)) (pos j))
                  (r.1))
              e in
          let is = derive_child_key-IsChild index (k + j) c key next at_j derived in
          let (t, same, at_t, deep) =
            loop indices ((c + j) % ec.n) next il (is.derived ∙ reduced c k j)
              (rw (sym (added c j)) rest) in
          (t, same, at_t, deep ∙ ap (λ (d : ℕ). d + length indices) is.deeper ∙ omega arith)
