-- ===== src/Common/Hash/Injective.antt =====
-- Which blocks have one hash input, and which numbers have one hash.
use mpc_lib.Prelude.{
  ℕ, ◌^◌, ◌<◌, ℤ, List, [], ◌∷◌, ◌++◌, map, ◌≡◌, refl, sym, ap, ◌∙◌, ◌≢◌, length, nat_abs,
  set_bytes, put_uint64, length-put_uint64, put_uint64-injective, arith, HasBytes, bytes-injective,
  append_cancel_left, append_cancel_right, append_assoc, append-nil, length-append, length-map,
  set_bytes-injective,
}
use mathlib.Core.List.{reverse, reverse-reverse, reverse-append}
use mpc_lib.Common.Hash.{hash_input_delimiter, block_bytes, hash_input, int_bytes, sha512_256i}

-- Every block is shorter than 2^64 bytes.
abbrev pub HasShortBlocks : List (List ℕ) → Type 0
HasShortBlocks [] = Unit
HasShortBlocks (bz ∷ blocks) = (length bz < 2 ^ 64) × HasShortBlocks blocks

block : List ℕ → List ℕ
block bz = bz ++ (hash_input_delimiter ∷ put_uint64 (length bz))

-- The blocks in reverse order, so that a recursion takes the last block first.
reversed_bytes : List (List ℕ) → List ℕ
reversed_bytes [] = []
reversed_bytes (bz ∷ blocks) = reversed_bytes blocks ++ block bz

block-injective :
    (us vs : List ℕ) (a b : List ℕ)
    → length a < 2 ^ 64
    → length b < 2 ^ 64
    → us ++ block a ≡ vs ++ block b
    → (us ≡ vs) × (a ≡ b)
unfolding block
block-injective us vs a b ha hb e =
    let tails = hash_input_delimiter ∷ put_uint64 (length a) in
    let tails' = hash_input_delimiter ∷ put_uint64 (length b) in
    let (front, back) =
      append_cancel_right (us ++ a) (vs ++ b) tails tails'
        (omega (arith, length-put_uint64 (length a), length-put_uint64 (length b)))
        (append_assoc us a tails ∙ e ∙ sym (append_assoc vs b tails')) in
    let same = put_uint64-injective ha hb (cc) in append_cancel_right us vs a b same front

reversed_bytes-injective :
    (xs ys : List (List ℕ))
    → length xs ≡ length ys
    → HasShortBlocks xs
    → HasShortBlocks ys
    → reversed_bytes xs ≡ reversed_bytes ys
    → xs ≡ ys
unfolding reversed_bytes
reversed_bytes-injective [] [] n hx hy e = refl
reversed_bytes-injective [] (y ∷ ys) n hx hy e = absurd (omega arith)
reversed_bytes-injective (x ∷ xs) [] n hx hy e = absurd (omega arith)
reversed_bytes-injective (x ∷ xs) (y ∷ ys) n hx hy e =
    let (front, same) = block-injective (reversed_bytes xs) (reversed_bytes ys) x y hx.0 hy.0 e in
    let rest = reversed_bytes-injective xs ys (omega arith) hx.1 hy.1 front in cc

reversed_bytes-append :
    (xs ys : List (List ℕ)) → reversed_bytes (xs ++ ys) ≡ reversed_bytes ys ++ reversed_bytes xs
unfolding reversed_bytes
reversed_bytes-append [] ys = sym (append-nil (reversed_bytes ys))
reversed_bytes-append (x ∷ xs) ys =
    ap (λ r. r ++ block x) (reversed_bytes-append xs ys)
    ∙ append_assoc (reversed_bytes ys) (reversed_bytes xs) (block x)

reversed_bytes-reverse : (xs : List (List ℕ)) → reversed_bytes (reverse xs) ≡ block_bytes xs
unfolding block_bytes reversed_bytes block
reversed_bytes-reverse [] = refl
reversed_bytes-reverse (x ∷ xs) =
    ap reversed_bytes (reverse-append (x ∷ []) xs)
    ∙ reversed_bytes-append (reverse xs) (x ∷ [])
    ∙ ap (λ r. block x ++ r) (reversed_bytes-reverse xs)

length-reverse : (xs : List (List ℕ)) → length (reverse xs) ≡ length xs
length-reverse [] = refl
length-reverse (x ∷ xs) =
    ap length (reverse-append (x ∷ []) xs)
    ∙ omega (arith, length-append (reverse xs) (x ∷ []), length-reverse xs)

HasShortBlocks-append :
    (xs ys : List (List ℕ)) → HasShortBlocks xs → HasShortBlocks ys → HasShortBlocks (xs ++ ys)
HasShortBlocks-append [] ys hx hy = hy
HasShortBlocks-append (x ∷ xs) ys hx hy = (hx.0, HasShortBlocks-append xs ys hx.1 hy)

HasShortBlocks-reverse : (xs : List (List ℕ)) → HasShortBlocks xs → HasShortBlocks (reverse xs)
HasShortBlocks-reverse [] h = tt
HasShortBlocks-reverse (x ∷ xs) h =
    rw (reverse-append (x ∷ []) xs)
      (HasShortBlocks-append (reverse xs) (x ∷ []) (HasShortBlocks-reverse xs h.1) (h.0, tt))

-- Two lists of fewer than 2^64 blocks, each shorter than 2^64 bytes, with one hash input are equal.
pub hash_input-injective :
    (xs ys : List (List ℕ))
    → length xs < 2 ^ 64
    → length ys < 2 ^ 64
    → HasShortBlocks xs
    → HasShortBlocks ys
    → hash_input xs ≡ hash_input ys
    → xs ≡ ys
unfolding hash_input
hash_input-injective xs ys nx ny hx hy e =
    let (count, body) =
      append_cancel_left (put_uint64 (length xs)) (put_uint64 (length ys))
        (length-put_uint64 (length xs) ∙ sym (length-put_uint64 (length ys))) e in
    let same = put_uint64-injective nx ny count in
    let flipped =
      reversed_bytes-injective (reverse xs) (reverse ys)
        (length-reverse xs ∙ same ∙ sym (length-reverse ys)) (HasShortBlocks-reverse xs hx)
        (HasShortBlocks-reverse ys hy)
        (reversed_bytes-reverse xs ∙ body ∙ sym (reversed_bytes-reverse ys)) in
    sym (reverse-reverse xs) ∙ ap reverse flipped ∙ reverse-reverse ys

-- The bytes of every number are fewer than 2^64.
abbrev pub HasShortInts : List ℤ → Type 0
HasShortInts ns = (length ns < 2 ^ 64) × HasShortBlocks (map int_bytes ns)

int_bytes-injective :
    (ms ns : List ℤ) → map int_bytes ms ≡ map int_bytes ns → map nat_abs ms ≡ map nat_abs ns
int_bytes-injective [] [] e = refl
int_bytes-injective [] (n ∷ ns) e = cc
int_bytes-injective (m ∷ ms) [] e = cc
int_bytes-injective (m ∷ ms) (n ∷ ns) e =
    let head : int_bytes m ≡ int_bytes n = cc in
    let rest : map int_bytes ms ≡ map int_bytes ns = cc in
    let h = bytes-injective head in let r = int_bytes-injective ms ns rest in cc

module _ (sum : List ℕ → List ℕ) where
  -- Where digests are 32 bytes, two lists of numbers with one `SHA512_256i`, whose absolute values
  -- differ, are a collision of SHA-512/256 itself: their hash inputs differ and the digests agree.
  pub sha512_256i-collision :
      ((m : List ℕ) → (length (sum m) ≡ 32) × HasBytes (sum m))
      → (xs ys : List ℤ) → HasShortInts xs
      → HasShortInts ys
      → xs ≢ []
      → map nat_abs xs ≢ map nat_abs ys
      → sha512_256i sum xs ≡ sha512_256i sum ys
      → (hash_input (map int_bytes xs) ≢ hash_input (map int_bytes ys))
        × (sum (hash_input (map int_bytes xs)) ≡ sum (hash_input (map int_bytes ys)))
  unfolding sha512_256i
  sha512_256i-collision digest [] ys hx hy some_input differ e = absurd (some_input refl)
  sha512_256i-collision digest (x ∷ xs) [] hx hy some_input differ e = absurd (cc)
  sha512_256i-collision digest (x ∷ xs) (y ∷ ys) hx hy some_input differ e =
      let a = hash_input (map int_bytes (x ∷ xs)) in
      let b = hash_input (map int_bytes (y ∷ ys)) in
      let p : set_bytes (sum a) ≡ set_bytes (sum b) = cc in
      (
        λ q. differ (
            int_bytes-injective (x ∷ xs) (y ∷ ys) (
              hash_input-injective (map int_bytes (x ∷ xs)) (map int_bytes (y ∷ ys))
                (omega (arith, length-map int_bytes (x ∷ xs)))
                (omega (arith, length-map int_bytes (y ∷ ys))) hx.1 hy.1 q)),
        set_bytes-injective (sum a) (sum b) ((digest a).0 ∙ sym (digest b).0) (digest a).1
            (digest b).1 p,
      )
