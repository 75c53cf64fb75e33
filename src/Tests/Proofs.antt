-- ===== src/Tests/Proofs.antt =====
-- Proofs of honest provers over small moduli, and a run of the multiplication of two secrets.
use mpc_lib.Prelude.{
  map, replicate, ℕ, ◌%◌, ◌*◌, ◌≡◌, refl, arith, ℤ, pos, emod, set_bytes, List, [], ◌∷◌, true,
  if◌then◌else◌, ◌+ℤ◌, ◌*ℤ◌,
}
use mpc_lib.Prelude.Result.{ok, err, ◌>>=◌}
use mpc_lib.Common.ModInt.{sub, add, mul, is_in_interval}
use mpc_lib.Common.Hash.{sha512_256, sha512_256i, sha512_256i_tagged}
use mpc_lib.Common.Challenge.{rejection_sample}
use mpc_lib.Crypto.ZkProofs.{RingPedersenParams, is_zero}
use mpc_lib.Crypto.ZkProofs.Enc.{get_challenge, new_enc_proof, enc_verify}
use mpc_lib.Crypto.ZkProofs.EncCompleteness.{
  stmt, wit, rand, honest_proof, new_enc_proof-enc_verify,
}
use mpc_lib.Crypto.Facproof.{FacRandomness, sqrt, fac_challenge, new_fac_proof, fac_verify}
use mpc_lib.Crypto.Facproof.Completeness.{honest_fac_proof, new_fac_proof-fac_verify}
use mpc_lib.Crypto.Mta.RangeProof.{
  AliceRandomness, RangeProofAlice, prove_range_alice, range_verify,
}
use mpc_lib.Crypto.Mta.ProofBob.{BobRandomness, ProofBob, prove_bob, bob_verify}
use mpc_lib.Crypto.Mta.ShareProtocol.{alice_init, bob_mid, alice_end}
use mpc_lib.Crypto.Mta.Shares.{mta_lem}
use mpc_lib.Tests.Toy.{curve}
use mpc_lib.Tests.Paillier.{key15, private15, is_key15}
use mpc_lib.Crypto.Dlnproof.{
  Proof, answers, residue_checks, dln_challenge, new_dln_proof, dln_verify,
}
use mpc_lib.Crypto.Dlnproof.Serial.{serialize, unmarshal_dln_proof, unmarshal_dln_proof-serialize}
use mpc_lib.Crypto.Dlnproof.Completeness.{new_dln_proof-dln_verify}

abbrev pub ones : List ℕ → List ℕ
ones m = 1 ∷ []

abbrev pub ring : RingPedersenParams
ring = record { s = pos 2; t = pos 4; n = 15 }

abbrev dln_proof : Proof
dln_proof = record { alpha = pos 2 ∷ pos 8 ∷ []; t = pos 3 ∷ pos 3 ∷ [] }

new_dln_proof-dln_verify_example :
    (new_dln_proof ones (pos 2) (pos 4) (pos 2) 2 2 15 (1 ∷ 3 ∷ []) ≡ ok dln_proof)
    × (dln_verify ones dln_proof (pos 2) (pos 4) 15 ≡ ok true)
unfolding emod residue_checks dln_challenge sha512_256i sha512_256 set_bytes answers add mul ◌+ℤ◌
    ◌*ℤ◌
new_dln_proof-dln_verify_example =
    new_dln_proof-dln_verify 15 2 2 (pos 2) 2 refl ones (1 ∷ 3 ∷ []) 1 refl refl

abbrev sent : Proof
sent = record { alpha = map pos (replicate 128 5); t = map pos (replicate 128 7) }

unmarshal_dln_proof-serialize_example :
    (bzs : List (List ℕ)) × (serialize sent ≡ ok bzs) × (unmarshal_dln_proof bzs ≡ ok sent)
unmarshal_dln_proof-serialize_example =
    unmarshal_dln_proof-serialize (replicate 128 5) (replicate 128 7) refl refl

new_enc_proof-enc_verify_example :
    (new_enc_proof ones
        (wit ones 5 3 15 ring 3 2 4 1 2 3)
        (stmt ones 5 3 15 ring 3 2 4 1 2 3)
        ring
        (rand ones 5 3 15 ring 3 2 4 1 2 3)
      ≡ ok (honest_proof ones 5 3 15 ring 3 2 4 1 2 3 1))
    × (enc_verify ones
          (honest_proof ones 5 3 15 ring 3 2 4 1 2 3 1)
          (stmt ones 5 3 15 ring 3 2 4 1 2 3)
          ring
        ≡ ok true)
unfolding emod is_zero get_challenge rejection_sample sha512_256i sha512_256 set_bytes
new_enc_proof-enc_verify_example =
    new_enc_proof-enc_verify ones 5 3 15 ring 3 2 4 1 2 3 (omega arith) 1 refl (omega arith)
      (omega arith) (omega arith) refl

abbrev drawn : FacRandomness
drawn = record {
  alpha = pos 2;
  beta = pos 3;
  mu = pos 1;
  nu = pos 2;
  sigma = pos 8;
  r = pos 1;
  x = pos 4;
  y = pos 5;
}

new_fac_proof-fac_verify_example :
    (new_fac_proof ones [] 5 15 ring (pos 3) (pos 5) drawn
      ≡ ok (honest_fac_proof ones [] 5 15 ring 3 5 2 3 1 2 8 1 4 5 1))
    × (fac_verify ones [] 5 15 ring (honest_fac_proof ones [] 5 15 ring 3 5 2 3 1 2 8 1 4 5 1)
        ≡ ok true)
unfolding emod fac_challenge rejection_sample sha512_256i_tagged sha512_256 set_bytes is_in_interval
    sqrt
new_fac_proof-fac_verify_example =
    new_fac_proof-fac_verify ones [] 5 15 ring 3 5 2 3 1 2 8 1 4 5 1 refl (omega arith)
      (omega arith) refl

abbrev of_alice : AliceRandomness
of_alice = record { alpha = pos 1; beta = pos 2; gamma = pos 3; rho = pos 4 }

abbrev of_bob : BobRandomness
of_bob = record {
  alpha = pos 1;
  rho = pos 2;
  sigma = pos 3;
  tau = pos 4;
  rho_prm = pos 5;
  beta = pos 7;
  gamma = pos 6;
}

mta_lem_example :
    (c_a : ℤ) × (c_b : ℤ) × (alpha : ℤ) × (alice_init ones [] curve key15 ring ring
        (pos 2)
        (pos 2)
        of_alice
      ≡ (do pf ← prove_range_alice ones 5 key15 ring c_a (pos 2) (pos 2) of_alice; ok (c_a, pf)))
    × ((pf : RangeProofAlice)
        → bob_mid ones [] curve key15 ring ring pf (pos 3) c_a (pos 4) (pos 7) of_bob ≡ (do
          accepted ← range_verify ones 5 key15 ring pf c_a
          if accepted
              then (do
                pi_b ← prove_bob ones [] curve key15 ring c_a c_b (pos 3) (pos 4) (pos 7) of_bob
                ok (record {
                  beta = sub 5 (pos 0) (pos 4);
                  c_b = c_b;
                  beta_prm = pos 4;
                  pi_b = pi_b;
                }))
              else err "RangeProofAlice.Verify() returned false"))
    × ((pf : ProofBob)
        → alice_end ones [] curve key15 ring ring pf c_a c_b private15 ≡ (do
          accepted ← bob_verify ones [] curve key15 ring pf c_a c_b
          if accepted then ok alpha else err "ProofBob.Verify() returned false"))
    × (emod (alpha +ℤ sub 5 (pos 0) (pos 4)) 5 ≡ 3 * 2 % 5)
unfolding emod
mta_lem_example =
    mta_lem ones [] curve private15 is_key15 ring ring 2 3 4 (pos 2) (pos 7) of_alice of_bob
      (omega arith) (omega arith) (omega arith) (omega arith) refl refl
