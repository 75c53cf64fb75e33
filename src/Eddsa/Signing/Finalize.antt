-- ===== src/Eddsa/Signing/Finalize.antt =====
-- eddsa/signing/finalize.go: the parts are added up to the signature, which is verified.
use mpc_lib.Prelude.{
  ℕ, ◌+◌, ℤ, true, Option, none, some, List, [], ◌∷◌, ◌++◌, bytes, set_bytes, nat_abs, ◌==◌,
  if◌then◌else◌, map,
}
use mpc_lib.Prelude.Result.{Result, ok, panic, ◌>>=◌, to_index}
use mpc_lib.Tss.PartyId.{PartyId}
use mpc_lib.Tss.Party.{Step, done, failed}
use mpc_lib.Eddsa.Signing.Encoding.{big_int_to_encoded_bytes, encoded_bytes_to_big_int}
use mpc_lib.Eddsa.Signing.Edwards.{Edwards25519}
use mpc_lib.Eddsa.Signing.Messages.{Content, sign_round3_message, Msg}
use mpc_lib.Eddsa.Signing.State.{Round, LocalParty, SignatureData, begin, wrap_error}
use mpc_lib.Eddsa.Signing.Rounds.{or_nil_panic, or_fail}

-- `UnmarshalS` of a slot that holds a message of the third round, as the type assertion wants it.
unfoldable pub part_in : Option Content → Result ℕ
part_in (some (sign_round3_message s)) = ok (set_bytes s)
part_in _ = panic

unfoldable pub part_of : Option Msg → Result ℕ
unfolding part_in
part_of none = panic
part_of (some msg) = part_in msg.content

module _ (ed : Edwards25519) where
  -- The loop's sum, by a multiplication by 1 and an addition: the parts of the parties from place j
  -- on, but the own one.
  unfoldable pub add_parts : ℕ → ℕ → List ℕ → List PartyId → List (Option Msg) → Result (List ℕ)
  unfolding part_of
  add_parts i j sum_s [] msgs = ok sum_s
  add_parts i j sum_s (pj ∷ ps) [] = if j == i then add_parts i (j + 1) sum_s ps [] else panic
  add_parts i j sum_s (pj ∷ ps) (msg ∷ msgs) = do
    next ← if j == i then ok sum_s else (do
      s ← part_of msg
      ok (
          ed.sc_mul_add sum_s (big_int_to_encoded_bytes (some 1))
            (big_int_to_encoded_bytes (some s))))
    add_parts i (j + 1) next ps msgs

  abbrev pub signature_of : ℕ → List ℕ → ℤ → SignatureData
  signature_of r sum_s m = record {
    signature = big_int_to_encoded_bytes (some r) ++ sum_s;
    r = bytes r;
    s = bytes (encoded_bytes_to_big_int sum_s);
    m = bytes (nat_abs m);
  }

  -- The signature is handed out only if it is verified.
  unfoldable pub hand_out : LocalParty → ℕ → List ℕ → Step LocalParty
  unfolding or_nil_panic
  hand_out p r sum_s =
      let signature = signature_of r sum_s p.temp.m in
      let p1 = record p { signature_data = signature } in
      or_fail p1 [] (or_nil_panic p.keys.eddsa_pub) (λ key.
        if ed.verify key.coords (bytes (nat_abs p.temp.m)) r (encoded_bytes_to_big_int sum_s)
        then done (record p1 { end = signature ∷ p1.end }) true
        else failed p1 (wrap_error p1 "signature verification failed" []))

  -- `finalization.Start` behind the test that it was not started. It marks every party.
  unfoldable pub start_finalization : LocalParty → Round → Step LocalParty
  unfolding add_parts hand_out or_nil_panic
  start_finalization p r =
      let marked = record (begin 4 r) { oks = map (λ b. true) r.oks } in
      let p0 = record p { rnd = some marked } in
      or_fail p0 [] (to_index p.params.party_id.index) (λ i.
        or_fail p0 []
          (do
            si ← or_nil_panic p.temp.si
            add_parts i 0 si p.params.parties p.temp.sign_round3_messages)
          (λ sum_s. or_fail p0 [] (or_nil_panic p.temp.r) (λ r. hand_out p0 r sum_s)))
