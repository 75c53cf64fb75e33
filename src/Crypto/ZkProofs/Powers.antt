-- ===== src/Crypto/ZkProofs/Powers.antt =====
-- Commitments by two powers, raised to the challenge.
use mpc_lib.Prelude.{ℕ, ◌+◌, ◌*◌, ◌%◌, ◌^◌, ◌≡◌, refl, ap, ◌∙◌, arith, pos, emod}
use mpc_lib.Prelude.Result.{ok, ◌>>=◌}
use native.Mathlib.Nat.{mod-mod}
use mpc_lib.Common.ModInt.Powers.{
  mul-mod_congr, mul-mod_left_drop, mul-mod_right_drop, mul-pow, pow-add, pow-mul, pow-mod, exp-pos,
  mul-pos,
}
use mpc_lib.Crypto.ZkProofs.{RingPedersenParams, commit, a_times_b_to_the_c_mod_n}

module _ (m : ℕ) where
  -- A product of powers to the power e, times another such product.
  pub raised_product :
      (a b x y e u v : ℕ)
      → a ^ u * b ^ v * ((a ^ x * b ^ y) ^ e) ≡ a ^ (u + e * x) * b ^ (v + e * y)
  raised_product a b x y e u v =
      let swapped_x : x * e ≡ e * x = omega arith in
      let swapped_y : y * e ≡ e * y = omega arith in
      rw
        (
          mul-pow (a ^ x) (b ^ y) e,
          ← pow-mul a x e,
          ← pow-mul b y e,
          swapped_x,
          swapped_y,
          pow-add a u (e * x),
          pow-add b v (e * y),
        )
        (omega arith)

  -- The same for residues, as the verifiers compute them.
  pub raised_residues :
      (a b x y e u v : ℕ)
      → a ^ u * b ^ v % m * ((a ^ x * b ^ y % m) ^ e % m) % m
        ≡ a ^ (u + e * x) * b ^ (v + e * y) % m
  raised_residues a b x y e u v =
      mul-mod_congr (a ^ u * b ^ v % m) (a ^ u * b ^ v) ((a ^ x * b ^ y % m) ^ e % m) _ m
        (mod-mod _ m) (mod-mod _ m ∙ pow-mod (a ^ x * b ^ y) e m)
      ∙ ap (λ (t : ℕ). t % m) (raised_product a b x y e u v)

-- What a commitment to natural numbers is.
pub commit-pos :
    (rp : RingPedersenParams) (x y : ℕ)
    → commit rp (pos x) (pos y) ≡ ok (pos (emod rp.s rp.n ^ x * emod rp.t rp.n ^ y % rp.n))
unfolding commit
commit-pos rp x y =
    let a = emod rp.s rp.n ^ x in
    let b = emod rp.t rp.n ^ y in
    rw (exp-pos rp.n rp.s x, exp-pos rp.n rp.t y, mul-pos)
      (ap (λ k. ok (pos k)) (mul-mod_left_drop a (b % rp.n) rp.n ∙ mul-mod_right_drop a b rp.n))

pub a_times_b-pos :
    (a b c n : ℕ)
    → a_times_b_to_the_c_mod_n (pos a) (pos b) (pos c) n ≡ ok (pos (a * (b ^ c % n) % n))
unfolding a_times_b_to_the_c_mod_n emod
a_times_b-pos a b c n =
    rw (exp-pos n (pos b) c, mul-pos) (ap (λ (t : ℕ). ok (pos (a * t % n))) (pow-mod b c n))

-- A commitment to the answers of a proof is the first commitment times the power of the second by
-- the challenge.
pub commit-raised :
    (rp : RingPedersenParams) (x y u v e : ℕ)
    → (do
      s ← commit rp (pos x) (pos y)
      c ← commit rp (pos u) (pos v)
      a_times_b_to_the_c_mod_n c s (pos e) rp.n)
      ≡ commit rp (pos (u + e * x)) (pos (v + e * y))
commit-raised rp x y u v e =
    let a = emod rp.s rp.n in
    let b = emod rp.t rp.n in
    rw
      (
        commit-pos rp x y,
        commit-pos rp u v,
        a_times_b-pos (a ^ u * b ^ v % rp.n) (a ^ x * b ^ y % rp.n) e rp.n,
        commit-pos rp (u + e * x) (v + e * y),
        raised_residues rp.n a b x y e u v,
      )
      refl
