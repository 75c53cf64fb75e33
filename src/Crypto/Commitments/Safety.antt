-- ===== src/Crypto/Commitments/Safety.antt =====
-- How `ParseSecrets` ends on input that nobody wrote with `Secrets`.
use mpc_lib.Prelude.{
  ℕ, zero, suc, ◌+◌, ◌*◌, ◌-◌, ◌≤◌, ℤ, pos, negsuc, Bool, true, false, List, [], ◌∷◌, ◌++◌, ◌≡◌,
  ◌≢◌, length, get_or, take, drop, length-append, length-drop, length-take_le, int64, arith, ◌+ℤ◌,
  ◌≤ℤ◌,
}
use mpc_lib.Crypto.Commitments.{
  parts_cap, max_part_size, HasSmallParts, ok, panic, no_fuel, slice, parse_loop, parse_secrets,
}

-- The rounds that are left, where a length (`true`) or a part comes next.
abbrev rounds : List ℤ → ℕ → Bool → ℕ
rounds s el true = 2 * (length s - el) + 1
rounds s el false = 2 * (length s - el) + 2

parse_loop-ne-no_fuel :
    (fuel : ℕ) (s : List ℤ) (el : ℕ) (k : ℤ) (b : Bool) (acc : List (List ℤ))
    → rounds s el b ≤ fuel
    → parse_loop fuel s el k b acc ≢ no_fuel
unfolding parse_loop slice ◌+ℤ◌
parse_loop-ne-no_fuel zero s el k true acc h = absurd (omega arith)
parse_loop-ne-no_fuel zero s el k false acc h = absurd (omega arith)
parse_loop-ne-no_fuel (suc fuel) s el k true acc h =
    ground (arith, parse_loop-ne-no_fuel fuel s (el + 1) (int64 (get_or s el (pos 0))) false acc)
parse_loop-ne-no_fuel (suc fuel) s el (pos n) false acc h =
    ground
      (arith, parse_loop-ne-no_fuel fuel s (el + n) (pos n) true (acc ++ take n (drop el s) ∷ []))
parse_loop-ne-no_fuel (suc fuel) s el (negsuc n) false acc h = ground arith

-- `ParseSecrets` terminates on every input: the model's fuel never runs out.
pub parse_secrets-ne-no_fuel : (s : List ℤ) → parse_secrets s ≢ no_fuel
unfolding parse_secrets
parse_secrets-ne-no_fuel s =
    ground (arith, parse_loop-ne-no_fuel (2 * length s + 1) s 0 (pos 0) true [])

HasSmallParts-append :
    (ps : List (List ℤ)) (p : List ℤ)
    → HasSmallParts ps
    → length p ≤ max_part_size
    → HasSmallParts (ps ++ p ∷ [])
HasSmallParts-append [] p h k = (k, tt)
HasSmallParts-append (q ∷ ps) p h k = (h.0, HasSmallParts-append ps p h.1 k)

-- A length that was read is within the limit when the part behind it is read.
abbrev IsReady : ℤ → Bool → Type 0
IsReady k true = Unit
IsReady k false = k ≤ℤ pos max_part_size

parse_loop_bounds :
    (fuel : ℕ) (s : List ℤ) (el : ℕ) (k : ℤ) (b : Bool) (acc parts : List (List ℤ))
    → parse_loop fuel s el k b acc ≡ ok parts
    → IsReady k b
    → HasSmallParts acc
    → length acc ≤ parts_cap
    → (length parts ≤ parts_cap) × HasSmallParts parts
unfolding parse_loop slice ◌+ℤ◌
parse_loop_bounds zero s el k b acc parts h r a c = absurd (cc)
parse_loop_bounds (suc fuel) s el k true acc parts h r a c =
    ground (arith, parse_loop_bounds fuel s (el + 1) (int64 (get_or s el (pos 0))) false acc parts)
parse_loop_bounds (suc fuel) s el (pos n) false acc parts h r a c = ground (
  arith,
  length-append acc (take n (drop el s) ∷ []),
  HasSmallParts-append acc (take n (drop el s)) a,
  length-take_le n (drop el s),
  length-drop el s,
  parse_loop_bounds fuel s (el + n) (pos n) true (acc ++ take n (drop el s) ∷ []) parts,
)
parse_loop_bounds (suc fuel) s el (negsuc n) false acc parts h r a c = ground arith

-- What `ParseSecrets` accepts has at least two elements and gives at most three parts of at most
-- 1 MB each.
pub parse_secrets_bounds :
    (s : List ℤ) (parts : List (List ℤ))
    → parse_secrets s ≡ ok parts
    → (2 ≤ length s) × (length parts ≤ parts_cap) × HasSmallParts parts
unfolding parse_secrets
parse_secrets_bounds s parts h =
    ground (arith, parse_loop_bounds (2 * length s + 1) s 0 (pos 0) true [] parts)

-- No element reads as a negative `int64`.
abbrev pub HasPlainLengths : List ℤ → Type 0
HasPlainLengths [] = Unit
HasPlainLengths (x ∷ xs) = (pos 0 ≤ℤ int64 x) × HasPlainLengths xs

int64-get_or : (s : List ℤ) (i : ℕ) → HasPlainLengths s → pos 0 ≤ℤ int64 (get_or s i (pos 0))
int64-get_or [] i h = ground arith
int64-get_or (x ∷ s) zero h = h.0
int64-get_or (x ∷ s) (suc i) h = int64-get_or s i h.1

parse_loop-ne-panic :
    (fuel : ℕ) (s : List ℤ) (el : ℕ) (k : ℤ) (b : Bool) (acc : List (List ℤ))
    → HasPlainLengths s
    → pos 0 ≤ℤ k
    → parse_loop fuel s el k b acc ≢ panic
unfolding parse_loop slice ◌+ℤ◌
parse_loop-ne-panic zero s el k true acc h n = ground arith
parse_loop-ne-panic zero s el k false acc h n = ground arith
parse_loop-ne-panic (suc fuel) s el k true acc h n = ground (
  arith,
  int64-get_or s el h,
  parse_loop-ne-panic fuel s (el + 1) (int64 (get_or s el (pos 0))) false acc h,
)
parse_loop-ne-panic (suc fuel) s el (pos n) false acc h _ =
    ground
      (arith, parse_loop-ne-panic fuel s (el + n) (pos n) true (acc ++ take n (drop el s) ∷ []) h)
parse_loop-ne-panic (suc fuel) s el (negsuc n) false acc h k = ground arith

-- `ParseSecrets` does not panic where no element reads as a negative `int64`.
pub parse_secrets-ne-panic : (s : List ℤ) → HasPlainLengths s → parse_secrets s ≢ panic
unfolding parse_secrets
parse_secrets-ne-panic s h =
    ground (arith, parse_loop-ne-panic (2 * length s + 1) s 0 (pos 0) true [] h)

-- `ParseSecrets` panics on a first length that reads as a negative `int64`, whatever follows.
pub parse_secrets-panic :
    (n : ℕ) (x y : ℤ) (rest : List ℤ) → int64 x ≡ negsuc n → parse_secrets (x ∷ y ∷ rest) ≡ panic
unfolding parse_secrets
parse_secrets-panic n x y rest h =
    let e : 2 * length (x ∷ y ∷ rest) + 1 ≡ suc (suc (2 * length rest + 3)) = omega arith in
    rw e (ground arith)
