-- ===== src/Crypto/Dlnproof/Serial.antt =====
-- crypto/dlnproof/proof.go: a proof as byte strings. The text of an error is left out.
use mpc_lib.Prelude.{
  ℕ, zero, suc, ◌≤◌, ◌≡◌, refl, sym, ap, ◌∙◌, arith, ℤ, pos, nat_abs, bytes, set_bytes,
  set_bytes-bytes, map, length, take, leb, length-append, List, [], ◌∷◌, ◌++◌,
}
use mpc_lib.Prelude.Result.{Result, err, panic, ◌>>=◌, ◌>>◌, guard}
use mpc_lib.Crypto.Commitments.{
  Builder, new_builder, add_part, Outcome, no_fuel, secrets, parse_secrets, HasSmallParts,
  parts_cap, max_part_size,
}
use mpc_lib.Crypto.Commitments
use mpc_lib.Crypto.Commitments.RoundTrip.{
  encode, without_empty_last, secrets_iff, parse_secrets-secrets,
}
use mpc_lib.Crypto.Dlnproof.{Proof, iterations}

-- What a call of the builder gives. (`no_fuel` is the model's own and does not happen.)
unfoldable pub as_result {ℓ} : {A : Type ℓ} → Outcome A → Result A
as_result (Commitments.ok a) = Result.ok a
as_result (Commitments.err e) = err ""
as_result Commitments.panic = panic
as_result no_fuel = panic

-- The numbers are not nil.
unfoldable pub serialize : Proof → Result (List (List ℕ))
unfolding as_result
serialize p = do
  ints ← as_result (secrets (add_part (add_part new_builder p.alpha) p.t))
  Result.ok (map (λ i. bytes (nat_abs i)) ints)

-- `copy` into an array fills all of it exactly if the part is long enough.
unfoldable pub two_parts : List (List ℤ) → Result Proof
two_parts (alpha ∷ t ∷ []) = do
  guard (leb iterations (length alpha)) "UnmarshalDLNProof expected 128 but copied fewer"
  guard (leb iterations (length t)) "UnmarshalDLNProof expected 128 but copied fewer"
  Result.ok (record { alpha = take iterations alpha; t = take iterations t })
two_parts _ = err "UnmarshalDLNProof expected 2 parts"

unfoldable pub unmarshal_dln_proof : List (List ℕ) → Result Proof
unfolding as_result two_parts
unmarshal_dln_proof bzs = do
  parsed ← as_result (parse_secrets (map (λ bz. pos (set_bytes bz)) bzs))
  two_parts parsed

take-all {ℓ} : {A : Type ℓ} (n : ℕ) (xs : List A) → length xs ≡ n → take n xs ≡ xs
take-all zero [] e = refl
take-all zero (x ∷ xs) e = absurd (omega arith)
take-all (suc n) [] e = absurd (omega arith)
take-all (suc n) (x ∷ xs) e = ap (λ ys. x ∷ ys) (take-all n xs (omega arith))

-- Numbers that are not negative are read back.
read_back :
    (ns : List ℕ)
    → map (λ bz. pos (set_bytes bz)) (map (λ i. bytes (nat_abs i)) (map pos ns)) ≡ map pos ns
read_back [] = refl
read_back (n ∷ ns) = rw (set_bytes-bytes n, read_back ns) refl

length-map-pos : (ns : List ℕ) → length (map pos ns) ≡ length ns
length-map-pos [] = refl
length-map-pos (n ∷ ns) = ap suc (length-map-pos ns)

map-pos-++ : (ms ns : List ℕ) → map pos (ms ++ ns) ≡ map pos ms ++ map pos ns
map-pos-++ [] ns = refl
map-pos-++ (m ∷ ms) ns = ap (λ zs. pos m ∷ zs) (map-pos-++ ms ns)

last_kept : (p q : List ℤ) → length q ≡ 128 → without_empty_last (p ∷ q ∷ []) ≡ p ∷ q ∷ []
unfolding without_empty_last
last_kept p [] e = absurd (omega arith)
last_kept p (x ∷ q) e = refl

-- What is written for parts without a negative number.
encode-pos :
    (alpha t : List ℕ)
    → encode (map pos alpha ∷ map pos t ∷ [])
      ≡ map pos (length alpha ∷ (alpha ++ (length t ∷ (t ++ []))))
unfolding encode
encode-pos alpha t =
    rw
      (
        length-map-pos alpha,
        length-map-pos t,
        map-pos-++ alpha (length t ∷ (t ++ [])),
        map-pos-++ t [],
      )
      refl

-- A proof of 128 and 128 numbers, none of them negative, is serialized and read back.
pub unmarshal_dln_proof-serialize :
    (alpha t : List ℕ)
    → length alpha ≡ 128
    → length t ≡ 128
    → let p : Proof = record { alpha = map pos alpha; t = map pos t } in
      (bzs : List (List ℕ)) × (serialize p ≡ Result.ok bzs)
      × (unmarshal_dln_proof bzs ≡ Result.ok p)
unfolding serialize unmarshal_dln_proof as_result two_parts add_part
unmarshal_dln_proof-serialize alpha t la lt =
    let a = map pos alpha in
    let b = map pos t in
    let builder : Builder = record { parts = a ∷ b ∷ [] } in
    let ints = encode (a ∷ b ∷ []) in
    let flat = length alpha ∷ (alpha ++ (length t ∷ (t ++ []))) in
    let size_a : length a ≡ 128 = length-map-pos alpha ∙ la in
    let size_b : length b ≡ 128 = length-map-pos t ∙ lt in
    let made : secrets builder ≡ Commitments.ok ints =
      (secrets_iff builder ints).1
        (omega arith, (omega (arith, size_a), (omega (arith, size_b), tt)), refl) in
    let long : 2 ≤ length ints = omega (
      arith,
      ap length (encode-pos alpha t),
      length-map-pos flat,
      length-append alpha (length t ∷ (t ++ [])),
    ) in
    let parsed : parse_secrets (map pos flat) ≡ Commitments.ok (a ∷ b ∷ []) =
      ap parse_secrets (sym (encode-pos alpha t))
      ∙ parse_secrets-secrets builder ints made long
      ∙ ap Commitments.ok (last_kept a b size_b) in
    (
      map (λ i. bytes (nat_abs i)) (map pos flat),
      rw (made, encode-pos alpha t) refl,
      rw (read_back flat, parsed, size_a, size_b, take-all 128 a size_a, take-all 128 b size_b)
          refl,
    )
