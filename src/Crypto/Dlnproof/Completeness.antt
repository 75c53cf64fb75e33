-- ===== src/Crypto/Dlnproof/Completeness.antt =====
-- The proof of an honest prover is accepted.
use mpc_lib.Prelude.{
  ℕ, ◌+◌, ◌*◌, ◌/◌, ◌%◌, ◌^◌, ◌≡◌, refl, sym, ap, ◌∙◌, arith, ℤ, pos, pos-+ℤ, emod, true, List, [],
  ◌∷◌, ==ℤ_iff, ◌==ℤ◌,
}
use mpc_lib.Prelude.Result.{ok}
use native.Mathlib.Nat.{mod-mod, div-add-mod, add-mod-mod}
use mpc_lib.Common.ModInt
use mpc_lib.Common.ModInt.{mul, exp}
use mpc_lib.Common.ModInt.Powers.{
  mul-mod_congr, pow-add, pow-mul, pow-mod, pow-mod_congr, one-pow, exp-pos, mul-pos,
}
use mpc_lib.Crypto.Dlnproof.{
  Proof, bit, alphas, answers, equations, residue_checks, dln_challenge, new_dln_proof, dln_verify,
}

-- Exponents count modulo one that gives 1.
pow-exponent : (m v k e : ℕ) → v ^ k % m ≡ 1 % m → v ^ (e % k) % m ≡ v ^ e % m
pow-exponent m v k e unit =
    let split : e ≡ e % k + k * (e / k) = omega (arith, div-add-mod e k) in
    let whole : (v ^ k) ^ (e / k) % m ≡ 1 % m =
      pow-mod_congr (v ^ k) 1 (e / k) m unit ∙ ap (λ (t : ℕ). t % m) (one-pow (e / k)) in
    sym (
      ap (λ (t : ℕ). v ^ t % m) split
      ∙ ap (λ (t : ℕ). t % m)
          (pow-add v (e % k) (k * (e / k)) ∙ ap (λ (t : ℕ). v ^ (e % k) * t) (pow-mul v k (e / k)))
      ∙ mul-mod_congr (v ^ (e % k)) (v ^ (e % k)) _ 1 m refl whole
      ∙ ap (λ (t : ℕ). t % m) (omega arith))

module _ (n p q : ℕ) (h1 : ℤ) (x : ℕ) (unit : emod h1 n ^ (p * q) % n ≡ 1 % n) where
  abbrev v : ℕ
  v = emod h1 n

  -- The power of h1 that the prover knows the exponent of.
  abbrev pub h2 : ℤ
  h2 = pos (v ^ x % n)

  abbrev pub powers : List ℕ → List ℤ
  powers [] = []
  powers (a ∷ drawn) = pos (v ^ a % n) ∷ powers drawn

  alphas-powers : (drawn : List ℕ) → alphas n h1 drawn ≡ ok (powers drawn)
  unfolding alphas
  alphas-powers [] = refl
  alphas-powers (a ∷ drawn) = rw (exp-pos n h1 a, alphas-powers drawn) refl

  answer :
      (a c : ℕ)
      → ModInt.add (p * q) (pos a) (mul (p * q) (pos c) (pos x)) ≡ pos ((a + c * x) % (p * q))
  unfolding ModInt.add emod
  answer a c =
      rw (mul-pos (p * q) c x, pos-+ℤ a (c * x % (p * q))) (ap pos (add-mod-mod a (c * x) (p * q)))

  -- One equation.
  equation : (a c : ℕ) → v ^ ((a + c * x) % (p * q)) % n ≡ v ^ a % n * ((v ^ x % n) ^ c % n) % n
  equation a c =
      pow-exponent n v (p * q) (a + c * x) unit
      ∙ ap (λ (t : ℕ). t % n)
          (pow-add v a (c * x)
            ∙ ap (λ (t : ℕ). v ^ a * v ^ t) (swap c)
            ∙ ap (λ (t : ℕ). v ^ a * t) (pow-mul v x c))
      ∙ sym (
          mul-mod_congr (v ^ a % n) (v ^ a) ((v ^ x % n) ^ c % n) ((v ^ x) ^ c) n
            (mod-mod (v ^ a) n) (mod-mod ((v ^ x % n) ^ c) n ∙ pow-mod (v ^ x) c n))
    where
      swap : (k : ℕ) → k * x ≡ x * k
      swap k = omega arith

  equations-true :
      (c i : ℕ) (drawn : List ℕ)
      → equations n h1 h2 c i (powers drawn) (answers (p * q) (pos x) c i drawn) ≡ ok true
  unfolding equations answers emod
  equations-true c i [] = refl
  equations-true c i (a ∷ drawn) =
      let same : (pos (v ^ ((a + bit c i * x) % (p * q)) % n)
            ==ℤ pos (v ^ a % n * ((v ^ x % n % n) ^ bit c i % n) % n))
          ≡ true =
        (==ℤ_iff _ _).1 (
          ap pos (
            equation a (bit c i)
            ∙ ap (λ (t : ℕ). v ^ a % n * (t ^ bit c i % n) % n) (sym (mod-mod (v ^ x) n)))) in
      rw
        (
          answer a (bit c i),
          exp-pos n h1 ((a + bit c i * x) % (p * q)),
          exp-pos n h2 (bit c i),
          mul-pos,
          same,
          equations-true c (i + 1) drawn,
        )
        refl

  -- The proof of a prover who knows the exponent x of h2 = h1^x, where h1 to the power p q is 1, is
  -- made, and it is accepted where its numbers, h1 and h2 pass the tests of their residues.
  pub new_dln_proof-dln_verify :
      (sum : List ℕ → List ℕ) (drawn : List ℕ) (c : ℕ)
      → dln_challenge sum h1 h2 n (powers drawn) ≡ ok c
      → let pf : Proof = record { alpha = powers drawn; t = answers (p * q) (pos x) c 0 drawn } in
        residue_checks h1 h2 n pf ≡ true
        → (new_dln_proof sum h1 h2 (pos x) p q n drawn ≡ ok pf)
          × (dln_verify sum pf h1 h2 n ≡ ok true)
  unfolding new_dln_proof dln_verify
  new_dln_proof-dln_verify sum drawn c challenged checks = (
    rw (alphas-powers drawn, challenged) refl,
    rw (checks, challenged, equations-true c 0 drawn) refl,
  )
