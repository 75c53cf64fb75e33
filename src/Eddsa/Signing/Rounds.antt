-- ===== src/Eddsa/Signing/Rounds.antt =====
-- eddsa/signing/round_1.go and round_2.go, and the parts of rounds.go that they call.
use mpc_lib.Prelude.{
  ℕ, ◌+◌, ℤ, pos, Bool, true, false, Option, none, some, List, [], ◌∷◌, ◌++◌, map, length, bytes,
  set_bytes, ltb, if◌then◌else◌,
}
use mpc_lib.Prelude.Result.{Result, ok, err, panic, ◌>>=◌, ◌>>◌, guard, put, to_index}
use mpc_lib.Common.Hash.{sha512_256i}
use mpc_lib.Crypto.Point.{EcPoint, scalar_base_mult, flatten_ec_points}
use mpc_lib.Crypto.Schnorr.{new_zk_proof}
use mpc_lib.Crypto.Commitments.Hashed.{new_hash_commitment_with_randomness}
use mpc_lib.Tss.PartyId.{PartyId, keys}
use mpc_lib.Tss.Message.{is_broadcast}
use mpc_lib.Tss.Party.{Step, done}
use mpc_lib.Tss.Rounds.{after_call, mark_ready}
use mpc_lib.Eddsa.Signing.Prepare.{prepare_for_signing}
use mpc_lib.Eddsa.Signing.Messages.{
  Content, sign_round1_message, sign_round2_message, sign_round3_message, Msg,
  new_sign_round1_message, new_sign_round2_message,
}
use mpc_lib.Eddsa.Signing.State.{
  Kind, round1, round2, round3, finalization, Round, LocalParty, begin, wrap_error, with_oks,
}

-- What the rounds draw at random: the nonce, the number of its commitment, that of the Schnorr proof,
-- and the one for each conversion of a point.
pub record Randomness : Type 0 where
  pub ri : ℤ
  pub commit_r : ℤ
  pub schnorr_a : ℤ
  pub z : ℕ → ℤ

unfoldable pub or_nil_panic {ℓ} : {A : Type ℓ} → Option A → Result A
or_nil_panic none = panic
or_nil_panic (some a) = ok a

abbrev pub or_fail {ℓ} :
    {A : Type ℓ} → LocalParty → List PartyId → Result A → (A → Step LocalParty) → Step LocalParty
or_fail p culprits r next = after_call wrap_error p culprits r next

pub accepts : Kind → Content → Bool → Bool
accepts round1 (sign_round1_message c) broadcast = broadcast
accepts round2 (sign_round2_message d x y t) broadcast = broadcast
accepts round3 (sign_round3_message s) broadcast = broadcast
accepts _ _ broadcast = false

pub accepts? : Kind → Option Content → Bool → Bool
unfolding accepts
accepts? kind none broadcast = false
accepts? kind (some c) broadcast = accepts kind c broadcast

-- `CanAccept` of the rounds.
unfoldable pub can_accept : Kind → Msg → Bool
unfolding accepts?
can_accept kind msg = accepts? kind msg.content (is_broadcast msg)

-- `msg == nil || !round.CanAccept(msg)`, the other way round.
unfoldable pub is_ready : Kind → Option Msg → Bool
unfolding can_accept
is_ready kind none = false
is_ready kind (some msg) = can_accept kind msg

unfoldable pub finish_update : LocalParty → Result (List Bool × Bool) → Step LocalParty
unfolding with_oks
finish_update p r = or_fail p [] r (λ (oks, all_there). done (with_oks oks p) all_there)

-- `Update` of the rounds.
unfoldable pub update_kind : Kind → LocalParty → Round → Step LocalParty
unfolding mark_ready is_ready finish_update
update_kind round1 p r =
    finish_update p (mark_ready (is_ready round1) p.temp.sign_round1_messages r.oks)
update_kind round2 p r =
    finish_update p (mark_ready (is_ready round2) p.temp.sign_round2_messages r.oks)
update_kind round3 p r =
    finish_update p (mark_ready (is_ready round3) p.temp.sign_round3_messages r.oks)
update_kind finalization p r = done p false

-- `prepare`, which runs before the first round starts. A missing key share panics.
unfoldable pub prepare : LocalParty → Step LocalParty
unfolding or_nil_panic
prepare p =
    let ks = p.keys.ks in
    or_fail p []
      (do
        guard (if ltb (length ks) (p.params.threshold + 1) then false else true)
            "t+1 is not satisfied by the key count"
        i ← to_index p.params.party_id.index
        xi ← or_nil_panic p.keys.xi
        prepare_for_signing p.params.ec i (length ks) xi (map pos ks))
      (λ wi. done (record p { temp = record p.temp { wi = some wi } }) true)

-- The list that `getSSID` hashes.
unfoldable pub ssid_list : LocalParty → ℕ → List ℤ → List ℤ
ssid_list p number big_xjs =
    let ec = p.params.ec in
    pos ec.p
    ∷ pos ec.n
    ∷ ec.g.0
    ∷ ec.g.1
    ∷ (map pos (keys p.params.parties) ++ (big_xjs ++ (pos number ∷ pos 0 ∷ [])))

-- Any error of `FlattenECPoints` is replaced by one.
unfoldable pub flattened : Result (List ℤ) → Result (List ℤ)
flattened (ok flat) = ok flat
flattened (err e) = err "read BigXj failed"
flattened panic = panic

-- A slot that holds a message of the first round, as the type assertion wants it.
unfoldable pub commitment_in : Option Content → Result ℕ
commitment_in (some (sign_round1_message c)) = ok (set_bytes c)
commitment_in _ = panic

pub commitment_of : Option Msg → Result ℕ
unfolding commitment_in
commitment_of none = panic
commitment_of (some msg) = commitment_in msg.content

-- The commitments that the first messages carry.
unfoldable pub read_commitments : List (Option Msg) → Result (List (Option ℕ))
unfolding commitment_of
read_commitments [] = ok []
read_commitments (msg ∷ msgs) = do
  c ← commitment_of msg
  cs ← read_commitments msgs
  ok (some c ∷ cs)

module _ (sum : List ℕ → List ℕ) (rand : Randomness) where
  -- The session's id; its nonce is 0.
  unfoldable pub get_ssid : LocalParty → ℕ → Result (List ℕ)
  unfolding or_nil_panic ssid_list flattened
  get_ssid p number = do
    big_xjs ← flattened (flatten_ec_points p.keys.big_xj)
    h ← or_nil_panic (sha512_256i sum (ssid_list p number big_xjs))
    ok (bytes h)

  -- The party broadcasts a commitment to its nonce point.
  unfoldable pub commit_nonce : LocalParty → Round → EcPoint → Step LocalParty
  unfolding or_nil_panic with_oks
  commit_nonce p r point_ri =
      let me = p.params.party_id in
      let secrets = point_ri.coords.0 ∷ point_ri.coords.1 ∷ [] in
      let cmt = new_hash_commitment_with_randomness sum rand.commit_r secrets in
      or_fail p [] (or_nil_panic cmt.c) (λ c. or_fail p [] (to_index me.index) (λ i.
        let msg = new_sign_round1_message me c in
        or_fail p []
          (do
            oks ← put r.oks i true
            msgs ← put p.temp.sign_round1_messages i (some msg)
            ok (oks, msgs))
          (λ (oks, msgs).
            done
              (with_oks oks (record p {
                temp = record p.temp {
                  ri = some rand.ri;
                  point_ri = some point_ri;
                  de_commit = rand.commit_r ∷ secrets;
                  sign_round1_messages = msgs;
                };
                out = msg ∷ p.out;
              }))
              true)))

  -- `round1.Start` behind the test that it was not started.
  unfoldable pub start_round1 : LocalParty → Round → Step LocalParty
  unfolding get_ssid commit_nonce
  start_round1 p r =
      let p0 = record p { rnd = some (begin 1 r) } in
      or_fail p0 [] (get_ssid p0 1) (λ ssid.
        let p1 = record p0 { temp = record p0.temp { ssid = ssid } } in
        or_fail p1 [] (scalar_base_mult p.params.ec rand.ri)
          (λ point_ri. commit_nonce p1 (begin 1 r) point_ri))

  -- The party broadcasts the opening of its commitment and a proof that it knows its nonce.
  unfoldable pub open_nonce : LocalParty → ℕ → Step LocalParty
  unfolding or_nil_panic
  open_nonce p i =
      let me = p.params.party_id in
      let context = p.temp.ssid ++ bytes i in
      or_fail p []
        (do
          ri ← or_nil_panic p.temp.ri
          point_ri ← or_nil_panic p.temp.point_ri
          new_zk_proof sum context ri point_ri rand.schnorr_a)
        (λ pir.
          let msg = new_sign_round2_message me p.temp.de_commit pir in
          or_fail p [] (put p.temp.sign_round2_messages i (some msg)) (λ msgs.
            done
              (record p { temp = record p.temp { sign_round2_messages = msgs }; out = msg ∷ p.out })
              true))

  -- `round2.Start` behind the test that it was not started.
  unfoldable pub start_round2 : LocalParty → Round → Step LocalParty
  unfolding read_commitments open_nonce
  start_round2 p r =
      let p0 = record p { rnd = some (begin 2 r) } in
      or_fail p0 [] (to_index p.params.party_id.index) (λ i.
        or_fail p0 [] (read_commitments p.temp.sign_round1_messages)
          (λ cjs. open_nonce (record p0 { temp = record p0.temp { cjs = cjs } }) i))
