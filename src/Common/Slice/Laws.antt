-- ===== src/Common/Slice/Laws.antt =====
-- What the conversions keep.
use Prim.Native.Nat.{max}
use mpc_lib.Prelude.{
  ℕ, zero, suc, ◌-◌, ℤ, pos, true, Option, none, some, List, [], ◌∷◌, ◌++◌, map, length, all, ◌≡◌,
  refl, ap, ap₂, ◌∙◌, ◌↔◌, ◌≢◌, nat_abs, set_bytes, set_bytes-bytes, arith, replicate, ◌≤◌,
  length-append, length-replicate,
}
use mpc_lib.Common.Slice.{
  big_ints_to_bytes, multi_bytes_to_big_ints, non_empty_bytes, non_empty_multi_bytes, pad_zeros,
  pad_to_length_bytes_in_place,
}

-- A nil number reads as zero, any other as its absolute value.
abbrev pub magnitude : Option ℤ → ℤ
magnitude none = pos 0
magnitude (some n) = pos (nat_abs n)

-- `MultiBytesToBigInts` reads back what `BigIntsToBytes` wrote, but for signs; nil becomes zero.
multi_bytes_to_big_ints-big_ints_to_bytes :
    (ns : List (Option ℤ)) → multi_bytes_to_big_ints (big_ints_to_bytes ns) ≡ map magnitude ns
unfolding multi_bytes_to_big_ints big_ints_to_bytes
multi_bytes_to_big_ints-big_ints_to_bytes [] = refl
multi_bytes_to_big_ints-big_ints_to_bytes (none ∷ ns) =
    ap₂ ◌∷◌ (unfold set_bytes in refl) (multi_bytes_to_big_ints-big_ints_to_bytes ns)
multi_bytes_to_big_ints-big_ints_to_bytes (some n ∷ ns) =
    ap₂ ◌∷◌ (ap pos (set_bytes-bytes (nat_abs n))) (multi_bytes_to_big_ints-big_ints_to_bytes ns)

-- Every byte string has a byte.
abbrev pub AreNonEmpty : List (List ℕ) → Type 0
AreNonEmpty [] = Unit
AreNonEmpty (bz ∷ bzs) = (bz ≢ []) × AreNonEmpty bzs

all_iff : (bzs : List (List ℕ)) → (all non_empty_bytes bzs ≡ true) ↔ AreNonEmpty bzs
unfolding non_empty_bytes
all_iff [] = (λ h. tt, λ h. refl)
all_iff ([] ∷ bzs) = (λ h. cc, λ h. absurd (h.0 refl))
all_iff ((b ∷ bz) ∷ bzs) =
    (λ h. (λ e. cc, (all_iff bzs).0 (ground arith)), λ h. ground (arith, (all_iff bzs).1 h.1))

-- `NonEmptyMultiBytes` holds of a list with an element, of the expected length where one is given,
-- in which every byte string has a byte, and of no other.
non_empty_multi_bytes_iff :
    (bzs : List (List ℕ)) (expect_len : Option ℕ)
    → (non_empty_multi_bytes bzs expect_len ≡ true)
      ↔ ((bzs ≢ []) × ((n : ℕ) → expect_len ≡ some n → n ≡ length bzs) × AreNonEmpty bzs)
unfolding non_empty_multi_bytes
non_empty_multi_bytes_iff [] expect_len = (λ e. cc, λ h. absurd (h.0 refl))
non_empty_multi_bytes_iff (bz ∷ bzs) none = (
  λ h. (λ e. cc, λ n e. cc, (all_iff (bz ∷ bzs)).0 (ground arith)),
  λ h. ground (arith, (all_iff (bz ∷ bzs)).1 h.2),
)
non_empty_multi_bytes_iff (bz ∷ bzs) (some k) = (
  λ h. (λ e. cc, λ n e. ground arith, (all_iff (bz ∷ bzs)).0 (ground arith)),
  λ h. ground (arith, h.1 k refl, (all_iff (bz ∷ bzs)).1 h.2),
)

replicate-append_zero :
    (k : ℕ) (src : List ℕ) → replicate k 0 ++ (0 ∷ src) ≡ 0 ∷ (replicate k 0 ++ src)
replicate-append_zero zero src = refl
replicate-append_zero (suc k) src = ap (◌∷◌ 0) (replicate-append_zero k src)

pad_zeros-eq : (k : ℕ) (src : List ℕ) → pad_zeros k src ≡ replicate k 0 ++ src
unfolding pad_zeros
pad_zeros-eq zero src = refl
pad_zeros-eq (suc k) src = pad_zeros-eq k (0 ∷ src) ∙ replicate-append_zero k src

set_bytes-zeros : (k : ℕ) (src : List ℕ) → set_bytes (replicate k 0 ++ src) ≡ set_bytes src
unfolding set_bytes
set_bytes-zeros zero src = refl
set_bytes-zeros (suc k) src = set_bytes-zeros k src

-- Padding puts zeros in front, up to the length asked for where the source is shorter, and keeps the
-- number that the bytes spell.
pad_to_length_bytes_in_place_lem :
    (src : List ℕ) (n : ℕ)
    → (pad_to_length_bytes_in_place src n ≡ replicate (n - length src) 0 ++ src)
      × (length (pad_to_length_bytes_in_place src n) ≡ max n (length src))
      × (set_bytes (pad_to_length_bytes_in_place src n) ≡ set_bytes src)
pad_to_length_bytes_in_place_lem src n = (
  padded,
  ap length padded
      ∙ omega (
        arith,
        length-append (replicate (n - length src) 0) src,
        length-replicate {A = ℕ} (n - length src) 0,
      ),
  ap set_bytes padded ∙ set_bytes-zeros (n - length src) src,
)
  where
    long : n ≤ length src → replicate (n - length src) 0 ++ src ≡ src
    long h = let e : n - length src ≡ 0 = omega arith in ap (λ (k : ℕ). replicate k 0 ++ src) e

    padded : pad_to_length_bytes_in_place src n ≡ replicate (n - length src) 0 ++ src
    padded =
        unfold pad_to_length_bytes_in_place in
        ground (arith, pad_zeros-eq (n - length src) src, long)
