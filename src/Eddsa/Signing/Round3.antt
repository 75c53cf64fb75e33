-- ===== src/Eddsa/Signing/Round3.antt =====
-- eddsa/signing/round_3.go: the nonces are opened and added up, and the party's part of the signature
-- is made.
use mpc_lib.Prelude.{
  ℕ, ◌+◌, ℤ, pos, true, Option, none, some, List, [], ◌∷◌, ◌++◌, bytes, nat_abs, ◌==◌,
  if◌then◌else◌,
}
use mpc_lib.Prelude.Result.{Result, ok, err, panic, ◌>>=◌, guard, nth, put, to_index}
use mpc_lib.Common.ModInt.{append_big_int_to_bytes_slice}
use mpc_lib.Crypto.Curve.{Coords}
use mpc_lib.Crypto.Point.{EcPoint, new_ec_point, eight_inv_eight, or_panic}
use mpc_lib.Crypto.Schnorr
use mpc_lib.Crypto.Schnorr.{ZkProof}
use mpc_lib.Crypto.Commitments.Hashed.{de_commit}
use mpc_lib.Tss.PartyId.{PartyId}
use mpc_lib.Tss.Party.{Step, done}
use mpc_lib.Eddsa.Signing.Encoding.{encoded_bytes_to_big_int}
use mpc_lib.Eddsa.Signing.Edwards.{
  Edwards25519, Element, encode, ec_point_to_encoded_bytes, add_extended_elements,
  ec_point_to_extended_element,
}
use mpc_lib.Eddsa.Signing.Messages.{
  Content, sign_round2_message, Msg, new_sign_round3_message, unmarshal_de_commitment,
  unmarshal_zk_proof,
}
use mpc_lib.Eddsa.Signing.State.{Round, LocalParty, begin}
use mpc_lib.Eddsa.Signing.Rounds.{Randomness, or_nil_panic, or_fail}

pub record Opening : Type 0 where
  pub de_commitment : List (List ℕ)
  pub alpha_x : List ℕ
  pub alpha_y : List ℕ
  pub proof_t : List ℕ

unfoldable pub opening_in : Option Content → Result Opening
opening_in (some (sign_round2_message d x y t)) =
    ok (record { de_commitment = d; alpha_x = x; alpha_y = y; proof_t = t })
opening_in _ = panic

-- A slot that holds a message of the second round, as the type assertion wants it.
pub opening_of : Option Msg → Result Opening
unfolding opening_in
opening_of none = panic
opening_of (some msg) = opening_in msg.content

-- The two coordinates of an opening.
unfoldable pub two_coordinates : Option (List ℤ) → Result Coords
two_coordinates none = err "de-commitment verify failed"
two_coordinates (some (x ∷ y ∷ [])) = ok (x, y)
two_coordinates (some _) = err "length of de-commitment should be 2"

-- Any error of `UnmarshalZKProof` is replaced by one.
unfoldable pub proof_or_error : Result ZkProof → Result ZkProof
proof_or_error (ok pf) = ok pf
proof_or_error (err e) = err "failed to unmarshal Rj proof"
proof_or_error panic = panic

module _ (sum : List ℕ → List ℕ) (eight_inv : ℤ) where
  -- The nonce point that party j has committed to. The point is multiplied before the error of
  -- `NewECPoint` is looked at, so a point off the curve panics.
  unfoldable pub opened_nonce : LocalParty → ℕ → Result (Opening × EcPoint)
  unfolding opening_of two_coordinates or_panic
  opened_nonce p j = do
    msg ← nth p.temp.sign_round2_messages j
    opening ← opening_of msg
    cj ← nth p.temp.cjs j
    flat? ←
        de_commit sum (record { c = cj; d = some (unmarshal_de_commitment opening.de_commitment) })
    xy ← two_coordinates flat?
    point ← or_panic (new_ec_point p.params.ec xy)
    rj ← eight_inv_eight eight_inv point
    ok (opening, rj)

  -- Whether party j's proof holds for it, or an error.
  unfoldable pub proves_nonce : LocalParty → ℕ → Opening → EcPoint → Result (Unit {0})
  unfolding proof_or_error
  proves_nonce p j opening rj = do
    proof ←
        proof_or_error
          (unmarshal_zk_proof p.params.ec opening.alpha_x opening.alpha_y opening.proof_t)
    proved ← Schnorr.verify sum (append_big_int_to_bytes_slice p.temp.ssid (pos j)) rj proof
    guard proved "failed to prove Rj"

  -- The loop over the parties from place j on, but the own one, before the rest of the round, which
  -- gets their nonce points. The sender is blamed for its proof, and nobody for an opening.
  unfoldable pub check_nonces :
      LocalParty → ℕ → ℕ → List PartyId → (List (ℕ × EcPoint) → Step LocalParty) → Step LocalParty
  unfolding opened_nonce proves_nonce
  check_nonces p i j [] next = next []
  check_nonces p i j (pj ∷ ps) next =
      let later = check_nonces p i (j + 1) ps in
      if j == i
      then later next
      else or_fail p [] (opened_nonce p j) (λ (opening, rj).
        or_fail p (pj ∷ []) (proves_nonce p j opening rj)
          (λ _. later (λ rjs. next ((j, rj) ∷ rjs))))

module _ (ed : Edwards25519) where
  -- The loop's sum of the points.
  unfoldable pub add_nonces : Randomness → Element ed → List (ℕ × EcPoint) → Element ed
  add_nonces rand r [] = r
  add_nonces rand r ((j, rj) ∷ rjs) =
      add_nonces rand
        (add_extended_elements ed r (ec_point_to_extended_element ed rj.coords (rand.z j))) rjs

  -- What is hashed: the sum of the nonces, the public key, and the message, which stands there without
  -- leading zeros.
  unfoldable pub hash_input : List ℕ → Coords → ℤ → List ℕ
  hash_input encoded_r public_key m =
      encoded_r ++ (ec_point_to_encoded_bytes ed public_key ++ bytes (nat_abs m))

  -- The party's part of the signature.
  unfoldable pub part_of_signature : List ℕ → ℤ → List ℕ → List ℕ
  part_of_signature ri_bytes wi input =
      ed.sc_mul_add (ed.sc_reduce (ed.sha512 input)) (encode wi) ri_bytes

  -- Steps 7 to 10, with the sum of the nonces.
  unfoldable pub make_part : LocalParty → ℕ → ℤ → Element ed → Step LocalParty
  unfolding hash_input part_of_signature or_nil_panic
  make_part p i ri r =
      let me = p.params.party_id in
      let encoded_r = ed.to_bytes r in
      or_fail p []
        (do key ← or_nil_panic p.keys.eddsa_pub; wi ← or_nil_panic p.temp.wi; ok (key, wi))
        (λ (key, wi).
          let local_s =
            part_of_signature (encode ri) wi (hash_input encoded_r key.coords p.temp.m) in
          let msg = new_sign_round3_message me (encoded_bytes_to_big_int local_s) in
          or_fail p [] (put p.temp.sign_round3_messages i (some msg)) (λ msgs.
            done
              (record p {
                temp = record p.temp {
                  si = some local_s;
                  r = some (encoded_bytes_to_big_int encoded_r);
                  sign_round3_messages = msgs;
                };
                out = msg ∷ p.out;
              })
              true))

module _ (sum : List ℕ → List ℕ) (eight_inv : ℤ) (ed : Edwards25519) (rand : Randomness) where
  -- `round3.Start` behind the test that it was not started.
  unfoldable pub start_round3 : LocalParty → Round → Step LocalParty
  unfolding check_nonces add_nonces make_part or_nil_panic
  start_round3 p r =
      let p0 = record p { rnd = some (begin 3 r) } in
      or_fail p0 [] (or_nil_panic p.temp.ri) (λ ri.
        or_fail p0 [] (to_index p.params.party_id.index) (λ i.
          check_nonces sum eight_inv p0 i 0 p.params.parties (λ rjs.
            make_part ed p0 i ri (add_nonces ed rand (ed.ge_scalar_mult_base (encode ri)) rjs))))
