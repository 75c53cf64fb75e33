-- ===== src/Tests/Paillier.antt =====
-- Paillier keys of small primes: 3 * 5 with lambda 4, and, for the proof, N = 3 with phi 2.
use mpc_lib.Prelude.{
  ℕ, zero, suc, ◌%◌, ◌^◌, ◌≡◌, refl, arith, ℤ, pos, emod, gcd, set_bytes, replicate, true, some,
  List, [], ◌∷◌,
}
use mpc_lib.Prelude.Result.{ok, ◌>>=◌}
use mpc_lib.Common.Hash.{sha512_256}
use mpc_lib.Crypto.Point.{EcPoint}
use mpc_lib.Crypto.Paillier.{
  PublicKey, PrivateKey, key_pair, encrypt_with_randomness, decrypt, decrypt_full,
}
use mpc_lib.Crypto.Paillier.Decryption.{IsKey, decrypt-encrypt}
use mpc_lib.Crypto.Paillier.Recovery.{IsRecovering, decrypt_full-encrypt}
use mpc_lib.Crypto.Paillier.Circuits.{
  Circuit, input, sum, multiple, shifted, ciphertext_of, message_of, decrypt-ciphertext_of,
}
use mpc_lib.Crypto.Paillier.Proof.{
  is_number_in_multiplicative_group, generate_from, challenge_blocks, bit_len, itoa, has_no_divisor,
  generate_xs, proof, verify,
}
use mpc_lib.Crypto.Paillier.Completeness.{IsProvable, proof-verify}
use mpc_lib.Tests.Toy.{curve}

abbrev pub key15 : PublicKey
key15 = record { n = 15 }

abbrev pub private15 : PrivateKey
private15 = record { public_key = key15; lambda_n = 4; phi_n = 8; p = 3; q = 5 }

made_of_primes : key_pair 3 5 ≡ private15
unfolding key_pair gcd
made_of_primes = refl

pub is_key15 : IsKey private15
is_key15 = record { large = omega arith; inverse = 4; inverts = refl }

decrypt-encrypt_example :
    (do c ← encrypt_with_randomness key15 (pos 9) (pos 2); decrypt private15 c) ≡ ok (pos 9)
unfolding emod
decrypt-encrypt_example = decrypt-encrypt private15 is_key15 9 (pos 2) (omega arith) refl

decrypt_full-encrypt_example :
    (do c ← encrypt_with_randomness key15 (pos 9) (pos 2); decrypt_full private15 c)
    ≡ ok (pos 9, pos (emod (pos 2) 15))
unfolding emod
decrypt_full-encrypt_example =
    decrypt_full-encrypt private15 recovering 9 (pos 2) refl (omega arith) refl
  where
    recovering : IsRecovering private15
    recovering = record {
      is_key = is_key15;
      lambda_large = omega arith;
      n_inverse = 3;
      n_inverts = refl;
    }

abbrev circuit : Circuit
circuit = shifted 3 (sum (multiple 4 (input 9 (pos 2))) (input 14 (pos 7)))

decrypt-ciphertext_of_example :
    (do c ← ciphertext_of key15 circuit; decrypt private15 c) ≡ ok (pos (message_of 15 circuit))
unfolding emod
decrypt-ciphertext_of_example =
    decrypt-ciphertext_of private15 is_key15 circuit
      (omega arith, ((omega arith, (omega arith, refl)), (omega arith, refl)))

abbrev ones : List ℕ → List ℕ
ones m = 1 ∷ []

abbrev private3 : PrivateKey
private3 = record { public_key = record { n = 3 }; lambda_n = 2; phi_n = 2; p = 3; q = 2 }

euler3 : (v : ℕ) → is_number_in_multiplicative_group 3 v ≡ true → v ^ 2 % 3 ≡ 1
unfolding is_number_in_multiplicative_group
euler3 zero h = absurd (ground arith)
euler3 (suc zero) h = refl
euler3 (suc (suc zero)) h = refl
euler3 (suc (suc (suc v))) h = absurd (ground arith)

is_provable3 : IsProvable private3
is_provable3 = record {
  large = omega arith;
  phi_large = omega arith;
  n_inverse = 1;
  n_inverts = refl;
  euler = euler3;
}

abbrev some_point : EcPoint
some_point = record { curve = curve; coords = curve.g }

proof-verify_example :
    (ys : List ℤ) × (proof ones private3 13 (pos 6) some_point ≡ some (ok ys))
    × (verify ones (2 ∷ 5 ∷ 7 ∷ []) ys 13 3 (pos 6) some_point ≡ some (ok true))
unfolding has_no_divisor generate_xs generate_from challenge_blocks bit_len sha512_256 itoa
    is_number_in_multiplicative_group gcd set_bytes
proof-verify_example =
    proof-verify private3 is_provable3 ones (2 ∷ 5 ∷ 7 ∷ []) 13 (pos 6) some_point (replicate 13 1)
      refl refl
