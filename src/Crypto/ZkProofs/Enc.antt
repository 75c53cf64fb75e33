-- ===== src/Crypto/ZkProofs/Enc.antt =====
-- crypto/zkproofs/enc_proof.go: the proof that a Paillier ciphertext holds a number in range.
use mpc_lib.Prelude.{
  ℕ, ◌*◌, ℤ, pos, nat_abs, set_bytes, bytes, Bool, false, not, ◌&&◌, ◌||◌, List, [], ◌∷◌, some,
  ◌==ℤ◌, if◌then◌else◌,
}
use mpc_lib.Prelude.Result.{Result, ok, err, ◌>>=◌, ◌>>◌, guard}
use mpc_lib.Common.Hash.{sha512_256i}
use mpc_lib.Common.Challenge.{rejection_sample}
use mpc_lib.Common.Slice.{non_empty_multi_bytes}
use mpc_lib.Crypto.Paillier.{encrypt_with_randomness, encrypt_with_randomness_no_err_chk}
use mpc_lib.Crypto.ZkProofs.{
  new_ell, in_range, in_range_ell, is_zero, RingPedersenParams, commit, a_plus_bc,
  a_times_b_to_the_c_mod_n,
}

pub record EncProof : Type 0 where
  pub s : ℤ
  pub a : ℤ
  pub c : ℤ
  pub z1 : ℤ
  pub z2 : ℤ
  pub z3 : ℤ

-- The order of the curve, its bit length, and the ciphertext under N0.
pub record EncStatement : Type 0 where
  pub q : ℕ
  pub bit_size : ℕ
  pub n0 : ℕ
  pub k : ℤ

pub record EncWitness : Type 0 where
  pub k : ℤ
  pub rho : ℤ

-- The numbers that the prover draws.
pub record EncRandomness : Type 0 where
  pub alpha : ℤ
  pub mu : ℤ
  pub r : ℤ
  pub gamma : ℤ

module _ (sum : List ℕ → List ℕ) where
  unfoldable pub get_challenge : EncStatement → RingPedersenParams → ℤ → ℤ → ℤ → Result ℕ
  get_challenge stmt rp s a c = rejection_sample stmt.q (
      sha512_256i sum (pos stmt.q ∷ pos stmt.n0 ∷ stmt.k ∷ pos rp.n ∷ rp.s ∷ rp.t ∷ s ∷ a ∷ c ∷ []))

  unfoldable pub new_enc_proof :
      EncWitness → EncStatement → RingPedersenParams → EncRandomness → Result EncProof
  unfolding get_challenge in_range in_range_ell
  new_enc_proof wit stmt rp rand = do
    let ecpc = new_ell stmt.bit_size
    guard (in_range_ell ecpc wit.k) "NewEncProof: wit.K must be less than 2^ell."
    s ← commit rp wit.k rand.mu
    a ← encrypt_with_randomness (record { n = stmt.n0 }) rand.alpha rand.r
    c ← commit rp rand.alpha rand.gamma
    e ← get_challenge stmt rp s a c
    let z1 = a_plus_bc rand.alpha (pos e) wit.k
    guard (in_range ecpc z1) "NewEncProof: Could not create Z1 in range."
    z2 ← a_times_b_to_the_c_mod_n rand.r wit.rho (pos e) stmt.n0
    ok (record { s = s; a = a; c = c; z1 = z1; z2 = z2; z3 = a_plus_bc rand.gamma (pos e) rand.mu })

  -- The two equations of the verifier, for the challenge.
  unfoldable pub equations_hold : EncProof → EncStatement → RingPedersenParams → ℕ → Result Bool
  equations_hold proof stmt rp e = do
    left1 ← encrypt_with_randomness_no_err_chk (record { n = stmt.n0 }) proof.z1 proof.z2
    right1 ← a_times_b_to_the_c_mod_n proof.a stmt.k (pos e) (stmt.n0 * stmt.n0)
    if not (left1 ==ℤ right1) then ok false else (do
      left2 ← commit rp proof.z1 proof.z3
      right2 ← a_times_b_to_the_c_mod_n proof.c proof.s (pos e) rp.n
      ok (left2 ==ℤ right2))

  -- N0 is positive.
  unfoldable pub enc_verify : EncProof → EncStatement → RingPedersenParams → Result Bool
  unfolding get_challenge equations_hold is_zero in_range
  enc_verify proof stmt rp = do
    e ← get_challenge stmt rp proof.s proof.a proof.c
    if is_zero proof.z2 || is_zero proof.a then ok false else (do
      hold ← equations_hold proof stmt rp e
      ok (hold && in_range (new_ell stmt.bit_size) proof.z1))

-- The parts are written without their signs.
unfoldable pub enc_bytes : EncProof → List (List ℕ)
enc_bytes proof =
    bytes (nat_abs proof.s)
    ∷ bytes (nat_abs proof.a)
    ∷ bytes (nat_abs proof.c)
    ∷ bytes (nat_abs proof.z1)
    ∷ bytes (nat_abs proof.z2)
    ∷ bytes (nat_abs proof.z3)
    ∷ []

enc_from_parts : List (List ℕ) → Result EncProof
enc_from_parts (s ∷ a ∷ c ∷ z1 ∷ z2 ∷ z3 ∷ []) = ok (record {
  s = pos (set_bytes s);
  a = pos (set_bytes a);
  c = pos (set_bytes c);
  z1 = pos (set_bytes z1);
  z2 = pos (set_bytes z2);
  z3 = pos (set_bytes z3);
})
enc_from_parts _ = err "expected 6 byte parts to construct EncProof"

unfoldable pub enc_proof_from_bytes : List (List ℕ) → Result EncProof
unfolding enc_from_parts non_empty_multi_bytes
enc_proof_from_bytes bzs =
    if not (non_empty_multi_bytes bzs (some 6))
    then err "expected 6 byte parts to construct EncProof"
    else enc_from_parts bzs
