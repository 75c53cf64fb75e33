-- ===== src/Eddsa/Signing/Completion.antt =====
-- eddsa/signing: how the protocol ends, by the last message of the third round and the finalization.
use mpc_lib.Prelude.{
  ℕ, suc, ℤ, Bool, true, false, none, some, List, [], ◌∷◌, ◌++◌, length, map, all, bytes, nat_abs,
  ◌≡◌, refl, ap, ◌∙◌,
}
use mpc_lib.Prelude.Result.{ok, to_index}
use mpc_lib.Crypto.Point.{EcPoint}
use mpc_lib.Tss.Party.{done, base_update}
use mpc_lib.Tss.Rounds.{after_call}
use mpc_lib.Tss.Rounds.Laws.{all_ready, marks}
use mpc_lib.Eddsa.Signing.Encoding.{big_int_to_encoded_bytes, encoded_bytes_to_big_int}
use mpc_lib.Eddsa.Signing.Edwards.{Edwards25519}
use mpc_lib.Eddsa.Signing.Messages.{Msg}
use mpc_lib.Eddsa.Signing.State.{
  LocalParty, SignatureData, Round, round3, finalization, begin, can_proceed_round,
}
use mpc_lib.Eddsa.Signing.Rounds.{Randomness, is_ready, update_kind, or_nil_panic}
use mpc_lib.Eddsa.Signing.Finalize.{add_parts, hand_out, start_finalization}
use mpc_lib.Eddsa.Signing.LocalParty.{
  validate_message, store_message, update_round, update_set, can_proceed, can_proceed_set,
  next_kind, advance, advance_set, is_set, party, update,
}
use mpc_lib.Eddsa.Signing.Storage.{
  WasStored, store_message-WasStored, store_message-again, validate_message-params,
}
use mpc_lib.Eddsa.Signing.Advance.{sign_update_proceeds}

-- The signature of R and the bytes of S.
abbrev pub joined : ℕ → List ℕ → ℤ → SignatureData
joined big_r sum_s m = record {
  signature = big_int_to_encoded_bytes (some big_r) ++ sum_s;
  r = bytes big_r;
  s = bytes (encoded_bytes_to_big_int sum_s);
  m = bytes (nat_abs m);
}

all-marked : (oks : List Bool) → all (λ b. b) (map (λ b. true) oks) ≡ true
all-marked [] = refl
all-marked (b ∷ oks) = all-marked oks

module _ (sum : List ℕ → List ℕ) (eight_inv : ℤ) (ed : Edwards25519) (rand : Randomness) where
  module _ (t : LocalParty) (msg : Msg) (valid : validate_message t msg ≡ none)
      (stored : store_message t msg ≡ done t true) where
    -- A call without a round.
    resting :
        (fuel : ℕ)
        → t.rnd ≡ none
        → base_update (party sum eight_inv ed rand) (suc fuel) msg t ≡ some (done t true)
    unfolding base_update is_set
    resting fuel over = rw (valid, stored, over) refl

    -- A call in the last round, whose marks are all set.
    closing :
        (fuel : ℕ) (r : Round)
        → t.rnd ≡ some r
        → r.kind ≡ finalization
        → r.started ≡ true
        → all (λ b. b) r.oks ≡ true
        → base_update (party sum eight_inv ed rand) (suc fuel) msg t
          ≡ base_update (party sum eight_inv ed rand) fuel msg (record t { rnd = none })
    unfolding base_update update_round update_set update_kind can_proceed can_proceed_set
        can_proceed_round advance advance_set next_kind is_set
    closing fuel r in_round last started marked =
        rw (valid, stored, in_round, last, started, marked) refl

  -- A message that was stored before ends the protocol in the last round.
  ends :
      (p q t : LocalParty) (msg : Msg) (r : Round)
      → WasStored p q msg
      → t.params ≡ p.params
      → t.temp ≡ q.temp
      → t.rnd ≡ some r
      → r.kind ≡ finalization
      → r.started ≡ true
      → all (λ b. b) r.oks ≡ true
      → update sum eight_inv ed rand t msg ≡ some (done (record t { rnd = none }) true)
  unfolding update
  ends p q t msg r known same kept in_round last started marked =
      let valid = λ (s : LocalParty) (e : s.params ≡ p.params).
        validate_message-params p s e msg known.accepted in
      closing t msg (valid t same) (store_message-again p q t msg known same kept) 5 r in_round last
        started marked
      ∙ resting (record t { rnd = none }) msg (valid (record t { rnd = none }) same)
          (store_message-again p q (record t { rnd = none }) msg known same kept) 4 refl

  -- The finalization over parts that add up to S, with R and S accepted.
  finalization_lem :
      (q : LocalParty) (r : Round) (i big_r : ℕ) (si sum_s : List ℕ) (key : EcPoint)
      → to_index q.params.party_id.index ≡ ok i
      → q.temp.si ≡ some si
      → add_parts ed i 0 si q.params.parties q.temp.sign_round3_messages ≡ ok sum_s
      → q.temp.r ≡ some big_r
      → q.keys.eddsa_pub ≡ some key
      → ed.verify key.coords (bytes (nat_abs q.temp.m)) big_r (encoded_bytes_to_big_int sum_s)
        ≡ true
      → start_finalization ed q r
        ≡ done
            (record q {
              rnd = some (record (begin 4 r) { oks = map (λ b. true) r.oks });
              signature_data = joined big_r sum_s q.temp.m;
              end = joined big_r sum_s q.temp.m ∷ q.end;
            })
            true
  unfolding start_finalization hand_out or_nil_panic after_call
  finalization_lem q r i big_r si sum_s key at started added drawn saved accepted =
      rw (at, started, added, drawn, saved, accepted) refl

  -- The message that completes the third round, where the own index, part and R are there, the loop
  -- over the parts gives the sum S, the public key is there, and the verifier accepts R and S for it and
  -- the message: it makes `Update` end without an error, in no round, with the signature of R and S
  -- kept, and handed out behind what was handed out before; all else is as the storing of the message
  -- leaves it.
  pub sign_update_signs :
      (p q : LocalParty) (msg : Msg) (oks : List Bool) (number i big_r : ℕ) (si sum_s : List ℕ)
      (key : EcPoint)
      → store_message p msg ≡ done q true
      → q.rnd ≡ some (record { kind = round3; oks = oks; started = true; number = number })
      → length q.temp.sign_round3_messages ≡ length oks
      → all_ready (is_ready round3) q.temp.sign_round3_messages oks ≡ true
      → to_index q.params.party_id.index ≡ ok i
      → q.temp.si ≡ some si
      → add_parts ed i 0 si q.params.parties q.temp.sign_round3_messages ≡ ok sum_s
      → q.temp.r ≡ some big_r
      → q.keys.eddsa_pub ≡ some key
      → ed.verify key.coords (bytes (nat_abs q.temp.m)) big_r (encoded_bytes_to_big_int sum_s)
        ≡ true
      → update sum eight_inv ed rand p msg
        ≡ some (
            done
              (record q {
                rnd = none;
                signature_data = joined big_r sum_s q.temp.m;
                end = joined big_r sum_s q.temp.m ∷ q.end;
              })
              true)
  unfolding begin
  sign_update_signs p q msg oks number i big_r si sum_s key stored in_round sized ready at started
        added drawn saved accepted =
      let before : Round = record { kind = round3; oks = oks; started = true; number = number } in
      let (_, proceeds) =
        sign_update_proceeds sum eight_inv ed rand p q msg before stored in_round refl (λ e. cc)
          sized in
      let known = store_message-WasStored p q msg stored in
      let last : Round = record before {
        kind = finalization;
        oks = marks (is_ready round3) q.temp.sign_round3_messages oks;
        started = false;
      } in
      proceeds
      ∙ rw
          (
            ready,
            finalization_lem (record q { rnd = some last }) last i big_r si sum_s key at started
                added drawn saved accepted,
          )
          (ends p q _ msg (record (begin 4 last) { oks = map (λ b. true) last.oks }) known
            (ap (λ s. s.params) known.kept) refl refl refl refl (all-marked last.oks))
