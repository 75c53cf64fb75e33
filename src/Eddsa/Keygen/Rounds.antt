-- ===== src/Eddsa/Keygen/Rounds.antt =====
-- eddsa/keygen/round_1.go and round_2.go, and the parts of rounds.go that they call.
use mpc_lib.Prelude.{
  ℕ, ◌+◌, ℤ, pos, Bool, true, false, not, ◌&&◌, ◌||◌, Option, none, some, List, [], ◌∷◌, ◌++◌, map,
  bytes, set_bytes, ◌==◌, if◌then◌else◌,
}
use mpc_lib.Prelude.Result.{Result, ok, err, panic, ◌>>=◌, nth, put, to_index}
use mpc_lib.Common.Hash.{sha512_256i}
use mpc_lib.Crypto.Point.{EcPoint, flatten_ec_points}
use mpc_lib.Crypto.Vss.{Share, create}
use mpc_lib.Crypto.Schnorr.{new_zk_proof}
use mpc_lib.Crypto.Commitments.Hashed.{HashCommitDecommit, new_hash_commitment_with_randomness}
use mpc_lib.Tss.PartyId.{PartyId, keys}
use mpc_lib.Tss.Message.{is_broadcast}
use mpc_lib.Tss.Party.{Step, done, failed, crashed}
use mpc_lib.Eddsa.Keygen.Messages.{
  Content, kg_round1_message, kg_round2_message1, kg_round2_message2, other, Msg,
  new_kg_round1_message, new_kg_round2_message1, new_kg_round2_message2,
}
use mpc_lib.Eddsa.Keygen.State.{
  Kind, round1, round2, round3, Round, LocalParty, attempt, begin, wrap_error,
}

-- What the rounds draw at random: the partial key, the other coefficients of its polynomial, the
-- random number of the commitment, and that of the Schnorr proof.
pub record Randomness : Type 0 where
  pub ui : ℤ
  pub sampled : List ℤ
  pub commit_r : ℤ
  pub schnorr_a : ℤ

or_nil_panic : Option ℕ → Result ℕ
or_nil_panic none = panic
or_nil_panic (some h) = ok h

-- A slot that holds a message of the first round, as the type assertion wants it.
pub commitment_of : Option Msg → Result ℕ
commitment_of none = panic
commitment_of (some msg) = elim msg.content [
  | none ↦ panic
  | some c ↦ elim c [
    | kg_round1_message commitment ↦ ok (set_bytes commitment)
    | kg_round2_message1 s ↦ panic
    | kg_round2_message2 d x y t ↦ panic
    | other v ↦ panic
  ]
]

pub accepts : Kind → Content → Bool → Bool
accepts round1 (kg_round1_message m) broadcast = broadcast
accepts round2 (kg_round2_message1 m) broadcast = not broadcast
accepts round2 (kg_round2_message2 d x y t) broadcast = broadcast
accepts _ _ broadcast = false

pub accepts? : Kind → Option Content → Bool → Bool
accepts? kind none broadcast = false
accepts? kind (some c) broadcast = accepts kind c broadcast

-- `CanAccept` of the three rounds.
unfoldable pub can_accept : Kind → Msg → Bool
unfolding accepts? accepts
can_accept kind msg = accepts? kind msg.content (is_broadcast msg)

-- `msg == nil || !round.CanAccept(msg)`, the other way round.
unfoldable pub is_ready : Kind → Option Msg → Bool
unfolding can_accept
is_ready kind none = false
is_ready kind (some msg) = can_accept kind msg

-- The loop of `round1.Update`: it marks the parties whose message is there, up to the first that is
-- missing, and tells whether none is. Too few marks panic.
unfoldable pub mark : Bool → Result (List Bool × Bool) → Result (List Bool × Bool)
mark b rest = do (oks, all_there) ← rest; ok (b ∷ oks, all_there)

unfoldable pub update_oks1 : List (Option Msg) → List Bool → Result (List Bool × Bool)
unfolding is_ready mark
update_oks1 [] oks = ok (oks, true)
update_oks1 (msg ∷ msgs) [] = panic
update_oks1 (msg ∷ msgs) (b ∷ oks) =
    let rest = update_oks1 msgs oks in
    if b || is_ready round1 msg then mark true rest else ok (b ∷ oks, false)

-- The second message of the party is looked at only where the first is there.
unfoldable pub are_ready : Option Msg → List (Option Msg) → Result Bool
unfolding is_ready
are_ready msg [] = if is_ready round2 msg then panic else ok false
are_ready msg (msg2 ∷ msgs2) = ok (is_ready round2 msg && is_ready round2 msg2)

unfoldable pub tail_of : List (Option Msg) → List (Option Msg)
tail_of [] = []
tail_of (m ∷ ms) = ms

-- The loop of `round2.Update`, over both lists of messages.
unfoldable pub update_oks2 :
    List (Option Msg) → List (Option Msg) → List Bool → Result (List Bool × Bool)
unfolding are_ready tail_of mark
update_oks2 [] msgs2 oks = ok (oks, true)
update_oks2 (msg ∷ msgs) msgs2 [] = panic
update_oks2 (msg ∷ msgs) msgs2 (b ∷ oks) =
    let rest = update_oks2 msgs (tail_of msgs2) oks in
    if b
    then mark b rest
    else (do ready ← are_ready msg msgs2; if ready then mark true rest else ok (b ∷ oks, false))

-- The result of a loop of `Update` as that of the method.
unfoldable pub finish_update : LocalParty → Round → Result (List Bool × Bool) → Step LocalParty
finish_update p r (ok (oks, all_there)) =
    done (record p { rnd = some (record r { oks = oks }) }) all_there
finish_update p r (err e) = failed p (wrap_error p e [])
finish_update p r panic = crashed

unfoldable pub update_kind : Kind → LocalParty → Round → Step LocalParty
unfolding update_oks1 update_oks2 finish_update
update_kind round1 p r = finish_update p r (update_oks1 p.temp.kg_round1_messages r.oks)
update_kind round2 p r =
    finish_update p r (update_oks2 p.temp.kg_round2_message1s p.temp.kg_round2_message2s r.oks)
update_kind round3 p r = done p false

-- The list that `getSSID` hashes.
unfoldable pub ssid_list : LocalParty → ℕ → List ℤ
ssid_list p number =
    let ec = p.params.ec in
    pos ec.p
    ∷ pos ec.n
    ∷ ec.g.0
    ∷ ec.g.1
    ∷ (map pos (keys p.params.parties) ++ (pos number ∷ pos 0 ∷ []))

-- The commitments that the first messages carry.
unfoldable pub read_commitments : List (Option Msg) → Result (List (Option ℕ))
unfolding commitment_of
read_commitments [] = ok []
read_commitments (msg ∷ msgs) = do
  c ← commitment_of msg
  cs ← read_commitments msgs
  ok (some c ∷ cs)

-- The loop that sends each party its share. The message for party j, unless j = i, is also kept at
-- the party's own place i, where a later one overwrites it.
unfoldable pub send_shares :
    PartyId
    → ℕ
    → ℕ
    → List PartyId
    → List Share
    → List (Option Msg) × List Msg
    → Result (List (Option Msg) × List Msg)
send_shares me i j [] shares sent = ok sent
send_shares me i j (pj ∷ ps) [] sent = panic
send_shares me i j (pj ∷ ps) (share ∷ shares) (kept, out) = do
  let msg = new_kg_round2_message1 pj me share
  kept' ← put kept i (some msg)
  send_shares me i (j + 1) ps shares (kept', if j == i then out else msg ∷ out)

first_of_vs : List EcPoint → Result EcPoint
first_of_vs vs = nth vs 0

module _ (sum : List ℕ → List ℕ) (rand : Randomness) where
  -- The session's id; its nonce is 0.
  pub get_ssid : LocalParty → ℕ → Result (List ℕ)
  unfolding or_nil_panic ssid_list
  get_ssid p number = do h ← or_nil_panic (sha512_256i sum (ssid_list p number)); ok (bytes h)

  commitment_value : HashCommitDecommit → Result ℕ
  unfolding or_nil_panic
  commitment_value cmt = or_nil_panic cmt.c

  -- The party broadcasts a commitment to its polynomial.
  unfoldable pub commit_polynomial : LocalParty → ℕ → List EcPoint → List Share → Step LocalParty
  unfolding commitment_value
  commit_polynomial p i vs shares =
      let me = p.params.party_id in
      attempt p (me ∷ []) (flatten_ec_points (map some vs)) (λ flat.
        let cmt = new_hash_commitment_with_randomness sum rand.commit_r flat in
        attempt p [] (nth p.save.ks i) (λ share_id. attempt p [] (commitment_value cmt) (λ c.
          let msg = new_kg_round1_message me c in
          attempt p [] (put p.temp.kg_round1_messages i (some msg)) (λ msgs.
            done
              (record p {
                save = record p.save { share_id = some share_id };
                temp = record p.temp {
                  vs = vs;
                  shares = shares;
                  de_commit_poly_g = rand.commit_r ∷ flat;
                  kg_round1_messages = msgs;
                };
                out = msg ∷ p.out;
              })
              true))))

  -- `round1.Start` behind the test that it was not started.
  unfoldable pub start_round1 : LocalParty → Round → Step LocalParty
  unfolding get_ssid commit_polynomial
  start_round1 p r =
      let p0 = record p { rnd = some (begin 1 r) } in
      attempt p0 [] (get_ssid p0 1) (λ ssid.
        let p1 = record p0 { temp = record p0.temp { ssid = ssid; ui = rand.ui } } in
        let ids = keys p.params.parties in
        attempt p1 (p.params.party_id ∷ [])
          (create p.params.ec p.params.threshold rand.ui rand.sampled (map pos ids))
          (λ (vs, shares). attempt p1 [] (to_index p.params.party_id.index) (λ i.
            commit_polynomial (record p1 { save = record p1.save { ks = ids } }) i vs shares)))

  -- The party broadcasts the opening of its commitment and a proof that it knows its partial key.
  unfoldable pub open_commitment : LocalParty → ℕ → Step LocalParty
  unfolding first_of_vs
  open_commitment p i =
      let me = p.params.party_id in
      let context = p.temp.ssid ++ bytes i in
      attempt p []
        (do v0 ← first_of_vs p.temp.vs; new_zk_proof sum context p.temp.ui v0 rand.schnorr_a)
        (λ pii.
          let msg = new_kg_round2_message2 me p.temp.de_commit_poly_g pii in
          attempt p [] (put p.temp.kg_round2_message2s i (some msg)) (λ msgs.
            done
              (record p { temp = record p.temp { kg_round2_message2s = msgs }; out = msg ∷ p.out })
              true))

  -- `round2.Start` behind the test that it was not started.
  unfoldable pub start_round2 : LocalParty → Round → Step LocalParty
  unfolding read_commitments send_shares open_commitment
  start_round2 p r =
      let p0 = record p { rnd = some (begin 2 r) } in
      let me = p.params.party_id in
      attempt p0 [] (to_index me.index) (λ i.
        attempt p0 [] (read_commitments p.temp.kg_round1_messages) (λ kgcs.
          attempt p0 []
            (send_shares me i 0 p.params.parties p.temp.shares (p.temp.kg_round2_message1s, p.out))
            (λ (kept, out).
              open_commitment
                (record p0 {
                  temp = record p0.temp { kgcs = kgcs; kg_round2_message1s = kept };
                  out = out;
                })
                i)))
