-- ===== src/Crypto/Commitments/RoundTrip.antt =====
-- What `ParseSecrets` reads back from what `Secrets` writes, and how it ends.
use mpc_lib.Prelude.{
  ℕ, zero, suc, ◌+◌, ◌*◌, ◌≤◌, ◌<◌, ℤ, pos, Bool, true, false, List, [], ◌∷◌, ◌++◌, ◌≡◌, refl, ◌↔◌,
  sym, ap, ◌∙◌, length, get_or, take, drop, append_assoc, append-nil, length-append,
  take-append_length, ltb, int64, arith, ◌+ℤ◌, Bool-cases, inl, inr,
}
use mpc_lib.Crypto.Commitments.{
  parts_cap, max_part_size, Builder, ok, HasSmallParts, secrets, write_parts, slice, parse_loop,
  parse_secrets,
}

-- The written form: each part behind its length.
unfoldable pub encode : List (List ℤ) → List ℤ
encode [] = []
encode (p ∷ ps) = pos (length p) ∷ (p ++ encode ps)

-- A last part with nothing in it is left out.
unfoldable pub without_empty_last : List (List ℤ) → List (List ℤ)
without_empty_last [] = []
without_empty_last ([] ∷ []) = []
without_empty_last ((x ∷ xs) ∷ []) = (x ∷ xs) ∷ []
without_empty_last (p ∷ q ∷ qs) = p ∷ without_empty_last (q ∷ qs)

write_parts-eq :
    (out : List ℤ) (ps : List (List ℤ))
    → HasSmallParts ps
    → write_parts out ps ≡ ok (out ++ encode ps)
unfolding write_parts encode
write_parts-eq out [] h = ap ok (sym (append-nil out))
write_parts-eq out (p ∷ ps) h = ground (
  arith,
  write_parts-eq (out ++ (pos (length p) ∷ p)) ps h.1,
  append_assoc out (pos (length p) ∷ p) (encode ps),
)

int64_small : (n : ℕ) → n ≤ max_part_size → int64 (pos n) ≡ pos n
int64_small n h = ground arith

-- One lemma for each way a round of the loop can go.
module _ (fuel : ℕ) (s : List ℤ) (el : ℕ) (k : ℤ) (acc : List (List ℤ)) where
  step_end : (b : Bool) → length s ≤ el → parse_loop (suc fuel) s el k b acc ≡ ok acc
  unfolding parse_loop
  step_end true h = ground arith
  step_end false h = ground arith

  step_length :
      (n : ℕ)
      → el < length s
      → get_or s el (pos 0) ≡ pos n
      → n ≤ max_part_size
      → parse_loop (suc fuel) s el k true acc ≡ parse_loop fuel s (el + 1) (pos n) false acc
  unfolding parse_loop
  step_length n h e small = rw (e, int64_small n small) (ground arith)

step_part :
    (fuel : ℕ) (s : List ℤ) (el n : ℕ) (acc : List (List ℤ))
    → el < length s
    → length acc < parts_cap
    → el + n ≤ length s
    → parse_loop (suc fuel) s el (pos n) false acc
      ≡ parse_loop fuel s (el + n) (pos n) true (acc ++ take n (drop el s) ∷ [])
unfolding parse_loop slice ◌+ℤ◌
step_part fuel s el n acc h room fits = ground arith

get_or-append_length : (xs ys : List ℤ) (y d : ℤ) → get_or (xs ++ y ∷ ys) (length xs) d ≡ y
get_or-append_length [] ys y d = refl
get_or-append_length (x ∷ xs) ys y d = get_or-append_length xs ys y d

part_of : (pre p rest : List ℤ) → take (length p) (drop (length pre) (pre ++ (p ++ rest))) ≡ p
part_of [] p rest = take-append_length p rest
part_of (x ∷ pre) p rest = part_of pre p rest

next_prefix : (pre p rest : List ℤ) (x : ℤ) → pre ++ (x ∷ (p ++ rest)) ≡ (pre ++ (x ∷ p)) ++ rest
next_prefix pre p rest x = sym (append_assoc pre (x ∷ p) rest)

-- Two rounds of the loop read one part, where something stands behind its length.
two_steps :
    (fuel : ℕ) (pre p rest : List ℤ) (acc : List (List ℤ)) (k : ℤ) (s : List ℤ) (el : ℕ)
    → s ≡ pre ++ (pos (length p) ∷ (p ++ rest))
    → el ≡ length pre
    → 0 < length p + length rest
    → length p ≤ max_part_size
    → length acc < parts_cap
    → parse_loop (suc (suc fuel)) s el k true acc
      ≡ parse_loop fuel s (el + 1 + length p) (pos (length p)) true (acc ++ p ∷ [])
two_steps fuel pre p rest acc k s el es ee more small room =
    step_length (suc fuel) s el k acc (length p) (omega (arith, size)) here small
    ∙ step_part fuel s (el + 1) (length p) acc (omega (arith, size)) room (omega (arith, size))
    ∙ ap (λ q. parse_loop fuel s (el + 1 + length p) (pos (length p)) true (acc ++ q ∷ [])) content
  where
    size : length s ≡ length pre + suc (length p + length rest)
    size =
        ap length es
        ∙ length-append pre (pos (length p) ∷ (p ++ rest))
        ∙ ap (λ n. length pre + suc n) (length-append p rest)

    here : get_or s el (pos 0) ≡ pos (length p)
    here = rw (es, ee) (get_or-append_length pre (p ++ rest) (pos (length p)) (pos 0))

    before : List ℤ
    before = pre ++ (pos (length p) ∷ [])

    len : el + 1 ≡ length before
    len = omega (arith, ee, length-append pre (pos (length p) ∷ []))

    split : s ≡ before ++ (p ++ rest)
    split = es ∙ sym (append_assoc pre (pos (length p) ∷ []) (p ++ rest))

    content : take (length p) (drop (el + 1) s) ≡ p
    content = rw (len, split) (part_of before p rest)

-- The loop behind a prefix that it has read.
parse_loop-encode :
    (fuel : ℕ) (pre : List ℤ) (ps acc : List (List ℤ)) (k : ℤ) (s : List ℤ) (el : ℕ)
    → s ≡ pre ++ encode ps
    → el ≡ length pre
    → length ps + length ps < fuel
    → HasSmallParts ps
    → length acc + length ps ≤ parts_cap
    → parse_loop fuel s el k true acc ≡ ok (acc ++ without_empty_last ps)
unfolding encode without_empty_last
parse_loop-encode zero pre ps acc k s el es ee f h c = absurd (omega arith)
parse_loop-encode (suc fuel) pre [] acc k s el es ee f h c =
    step_end fuel s el k acc true (omega (arith, ap length (es ∙ append-nil pre)))
    ∙ ap ok (sym (append-nil acc))
parse_loop-encode (suc zero) pre (p ∷ ps) acc k s el es ee f h c = absurd (omega arith)
parse_loop-encode (suc (suc zero)) pre (p ∷ ps) acc k s el es ee f h c = absurd (omega arith)
parse_loop-encode (suc (suc (suc fuel))) pre ([] ∷ []) acc k s el es ee f h c =
    step_length (suc (suc fuel)) s el k acc 0 (omega (arith, size)) here (omega arith)
    ∙ step_end (suc fuel) s (el + 1) (pos 0) acc false (omega (arith, size))
    ∙ ap ok (sym (append-nil acc))
  where
    size : length s ≡ length pre + 1
    size = ap length es ∙ length-append pre (pos 0 ∷ [])

    here : get_or s el (pos 0) ≡ pos 0
    here = rw (es, ee) (get_or-append_length pre [] (pos 0) (pos 0))
parse_loop-encode (suc (suc fuel)) pre ((x ∷ xs) ∷ []) acc k s el es ee f h c =
    two_steps fuel pre (x ∷ xs) [] acc k s el es ee (omega arith) h.0 (omega arith)
    ∙ parse_loop-encode fuel (pre ++ (pos (length (x ∷ xs)) ∷ x ∷ xs)) [] (acc ++ (x ∷ xs) ∷ [])
        (pos (length (x ∷ xs))) s (el + 1 + length (x ∷ xs))
        (es ∙ next_prefix pre (x ∷ xs) [] (pos (length (x ∷ xs))))
        (omega (arith, ee, length-append pre (pos (length (x ∷ xs)) ∷ x ∷ xs))) (omega arith) tt
        (omega (arith, length-append acc ((x ∷ xs) ∷ [])))
    ∙ ap ok (append-nil (acc ++ (x ∷ xs) ∷ []))
parse_loop-encode (suc (suc fuel)) pre (p ∷ q ∷ qs) acc k s el es ee f h c =
    two_steps fuel pre p (encode (q ∷ qs)) acc k s el es ee (omega arith) h.0 (omega arith)
    ∙ parse_loop-encode fuel (pre ++ (pos (length p) ∷ p)) (q ∷ qs) (acc ++ p ∷ []) (pos (length p))
        s (el + 1 + length p) (es ∙ next_prefix pre p (encode (q ∷ qs)) (pos (length p)))
        (omega (arith, ee, length-append pre (pos (length p) ∷ p))) (omega arith) h.1
        (omega (arith, length-append acc (p ∷ [])))
    ∙ ap ok (append_assoc acc (p ∷ []) (without_empty_last (q ∷ qs)))

write_parts_inv :
    (out : List ℤ) (ps : List (List ℤ)) {s : List ℤ}
    → write_parts out ps ≡ ok s
    → HasSmallParts ps × (s ≡ out ++ encode ps)
unfolding write_parts encode
write_parts_inv out [] h = (tt, ground (arith, append-nil out))
write_parts_inv out (p ∷ ps) {s} h = ground (
  arith,
  λ (r : write_parts (out ++ (pos (length p) ∷ p)) ps ≡ ok s).
      write_parts_inv (out ++ (pos (length p) ∷ p)) ps r,
  append_assoc out (pos (length p) ∷ p) (encode ps),
)

-- `Secrets` succeeds on at most three parts of at most 1 MB each and on no others, and then gives
-- each part behind its length.
pub secrets_iff :
    (b : Builder) (s : List ℤ)
    → (secrets b ≡ ok s)
      ↔ ((length b.parts ≤ parts_cap) × HasSmallParts b.parts × (s ≡ encode b.parts))
unfolding secrets
secrets_iff b s = (
  λ h. elim (Bool-cases (ltb parts_cap (length b.parts))) [
    | inl over ↦ absurd (ground arith)
    | inr few ↦
        let (small, e) = write_parts_inv [] b.parts (rw few at h) in (ground arith, small, e)
  ],
  λ h. ground (arith, write_parts-eq [] b.parts h.1),
)

length-encode : (ps : List (List ℤ)) → length ps ≤ length (encode ps)
unfolding encode
length-encode [] = omega arith
length-encode (p ∷ ps) = omega (arith, length-append p (encode ps), length-encode ps)

-- `ParseSecrets` reads the parts that `Secrets` wrote, but for a last part with nothing in it, which
-- it leaves out. (It refuses fewer than two elements: no part, or one part with nothing in it.)
pub parse_secrets-secrets :
    (b : Builder) (s : List ℤ)
    → secrets b ≡ ok s
    → 2 ≤ length s
    → parse_secrets s ≡ ok (without_empty_last b.parts)
unfolding parse_secrets
parse_secrets-secrets b s h two =
    let (few, small, e) = (secrets_iff b s).0 h in
    let parsed =
      parse_loop-encode (2 * length s + 1) [] b.parts [] (pos 0) s 0 e refl
        (omega (arith, length-encode b.parts, ap length e)) small (omega arith) in
    ground (arith, parsed)
