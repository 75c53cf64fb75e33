-- ===== src/Eddsa/Signing/Encoding.antt =====
-- eddsa/signing/utils.go: numbers as 32 bytes, the least significant first. An array is a list of its
-- elements; a nil pointer is `none`.
use mathlib.Core.List.{reverse, reverse-reverse}
use mpc_lib.Prelude.{
  ℕ, zero, suc, ◌+◌, ◌-◌, ◌≤◌, Option, none, some, List, [], ◌∷◌, length, replicate, take, bytes,
  set_bytes, set_bytes-bytes, ltb, ltb→lt, Bool-cases, inl, inr, if◌then◌else◌, ◌≡◌, refl, ap, ◌∙◌,
  arith,
}

-- The loop that puts a zero in front, as often as bytes are missing.
unfoldable pub add_zeros : ℕ → List ℕ → List ℕ
add_zeros zero bz = bz
add_zeros (suc missing) bz = add_zeros missing (0 ∷ bz)

-- A short string is padded; of a long one, the first 32 bytes are kept.
unfoldable pub copy_bytes : List ℕ → List ℕ
unfolding add_zeros
copy_bytes bz = if ltb (length bz) 32 then take 32 (add_zeros (32 - length bz) bz) else take 32 bz

unfoldable pub encoded_bytes_to_big_int : List ℕ → ℕ
encoded_bytes_to_big_int s = set_bytes (reverse s)

unfoldable pub big_int_to_encoded_bytes : Option ℕ → List ℕ
unfolding copy_bytes
big_int_to_encoded_bytes none = replicate 32 0
big_int_to_encoded_bytes (some a) = reverse (copy_bytes (bytes a))

add_zeros-length : (n : ℕ) (bz : List ℕ) → length (add_zeros n bz) ≡ n + length bz
unfolding add_zeros
add_zeros-length zero bz = ground arith
add_zeros-length (suc n) bz = omega (arith, add_zeros-length n (0 ∷ bz))

add_zeros-set_bytes : (n : ℕ) (bz : List ℕ) → set_bytes (add_zeros n bz) ≡ set_bytes bz
unfolding add_zeros set_bytes
add_zeros-set_bytes zero bz = refl
add_zeros-set_bytes (suc n) bz = add_zeros-set_bytes n (0 ∷ bz)

take-all : (xs : List ℕ) (n : ℕ) → length xs ≤ n → take n xs ≡ xs
take-all [] zero h = ground arith
take-all [] (suc n) h = ground arith
take-all (x ∷ xs) zero h = absurd (omega arith)
take-all (x ∷ xs) (suc n) h = ground (arith, take-all xs n (omega arith))

copy_bytes-short : (bz : List ℕ) → length bz ≤ 32 → set_bytes (copy_bytes bz) ≡ set_bytes bz
unfolding copy_bytes
copy_bytes-short bz h = elim (Bool-cases (ltb (length bz) 32)) [
  | inl short ↦
      let all : take 32 (add_zeros (32 - length bz) bz) ≡ add_zeros (32 - length bz) bz =
        take-all _ 32
          (omega (arith, add_zeros-length (32 - length bz) bz, ltb→lt (length bz) 32 short)) in
      rw short (ap set_bytes all ∙ add_zeros-set_bytes (32 - length bz) bz)
  | inr long ↦ rw long (ap set_bytes (take-all bz 32 h))
]

-- A number of at most 32 bytes is read back as it was written.
pub encoded_bytes_to_big_int-big_int_to_encoded_bytes :
    (a : ℕ)
    → length (bytes a) ≤ 32
    → encoded_bytes_to_big_int (big_int_to_encoded_bytes (some a)) ≡ a
unfolding encoded_bytes_to_big_int big_int_to_encoded_bytes
encoded_bytes_to_big_int-big_int_to_encoded_bytes a h =
    ap set_bytes (reverse-reverse (copy_bytes (bytes a)))
    ∙ copy_bytes-short (bytes a) h
    ∙ set_bytes-bytes a
