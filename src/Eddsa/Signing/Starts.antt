-- ===== src/Eddsa/Signing/Starts.antt =====
-- The starts of the four rounds: what they leave as it was, and that the last hands out a verified
-- signature or nothing.
use mpc_lib.Prelude.{
  ℕ, ◌+◌, ℤ, Bool, true, false, Option, none, some, List, [], ◌∷◌, length, map, ◌==◌, ◌≡◌, refl, ap,
  sym, ◌∙◌, arith, length-replicate, subst, set_bytes-bytes,
}
use mpc_lib.Prelude.Result.{ok, put, >>=-eq-ok}
use mpc_lib.Crypto.Point.{EcPoint}
use mpc_lib.Tss.PartyId.{PartyId}
use mpc_lib.Tss.Party.{Step, done, failed, crashed}
use mpc_lib.Tss.Party.Rules.{Leaves, Leaves-map}
use mpc_lib.Tss.Rounds.Laws.{after_call_elim, branch_elim}
use mpc_lib.Eddsa.Keygen.Evolution.{put-length}
use mpc_lib.Eddsa.Signing.Encoding.{encoded_bytes_to_big_int}
use mpc_lib.Eddsa.Signing.Edwards.{Edwards25519, Element}
use mpc_lib.Eddsa.Signing.State.{
  Kind, round1, round2, round3, finalization, Round, LocalParty, begin,
}
use mpc_lib.Eddsa.Signing.Rounds.{
  Randomness, or_nil_panic, prepare, start_round1, start_round2, commit_nonce, open_nonce,
}
use mpc_lib.Eddsa.Signing.Round3.{check_nonces, make_part, start_round3}
use mpc_lib.Eddsa.Signing.Finalize.{signature_of, hand_out, start_finalization}
use mpc_lib.Eddsa.Signing.LocalParty.{start_kind, start_set, start_round}
use mpc_lib.Eddsa.Signing.Verified.{AllVerified, AllVerified-cong}
use mpc_lib.Eddsa.Signing.Evolution.{
  Evolves, Evolves-refl, Evolves-trans, SameSlots, same_slots, sized, temp-Evolves,
  with_oks-Evolves, rounds_left, oks_count,
}

or_nil_panic-ok {ℓ} : {A : Type ℓ} (o : Option A) {a : A} → or_nil_panic o ≡ ok a → o ≡ some a
unfolding or_nil_panic
or_nil_panic-ok none e = absurd (cc)
or_nil_panic-ok (some b) e = ground arith

-- The first lines of each `Start`.
begins :
    (p : LocalParty) (r r' : Round)
    → p.rnd ≡ some r
    → r'.kind ≡ r.kind
    → length r'.oks ≡ length r.oks
    → Evolves p (record p { rnd = some r' })
begins p r r' e k n = record {
  params = refl;
  keys = refl;
  left = cc (e, k);
  oks = n ∙ ap oks_count (sym e);
  temp = same_slots p.temp;
  end = refl;
}

begin-length : (n : ℕ) (r : Round) → length ((begin n r).oks) ≡ length r.oks
unfolding begin
begin-length n r = length-replicate (length r.oks) false

map-length : (bs : List Bool) → length (map (λ b. true) bs) ≡ length bs
map-length [] = refl
map-length (b ∷ bs) = ground (arith, map-length bs)

pub prepare-Evolves : (p : LocalParty) → Leaves (Evolves p) (prepare p)
unfolding prepare
prepare-Evolves p =
    after_call_elim (Leaves (Evolves p)) _ p [] _ _ (λ e. Evolves-refl p) tt
      (λ wi _. temp-Evolves p (record p.temp { wi = some wi }) p.out (sized refl refl refl refl))

module _ (sum : List ℕ → List ℕ) (rand : Randomness) (p : LocalParty) where
  commit_nonce-Evolves :
      (q : LocalParty) (r : Round) (point_ri : EcPoint)
      → q.rnd ≡ some r
      → Evolves p q
      → Leaves (Evolves p) (commit_nonce sum rand q r point_ri)
  unfolding commit_nonce
  commit_nonce-Evolves q r point_ri current h =
      after_call_elim (Leaves (Evolves p)) _ q [] _ _ (λ e. h) tt
        (λ c _.
          after_call_elim (Leaves (Evolves p)) _ q [] _ _ (λ e. h) tt
            (λ i _.
              after_call_elim (Leaves (Evolves p)) _ q [] _ _ (λ e. h) tt
                (λ (oks, msgs) e.
                  let (oks', f, g) = >>=-eq-ok (put r.oks i true) _ e in
                  let (msgs', f', g') = >>=-eq-ok (put q.temp.sign_round1_messages i _) _ g in
                  let n : length msgs ≡ length q.temp.sign_round1_messages =
                    ground (arith, put-length q.temp.sign_round1_messages i _ f') in
                  let k : length oks ≡ length r.oks = ground (arith, put-length r.oks i true f) in
                  Evolves-trans p q _ h (
                    Evolves-trans q _ _ (temp-Evolves q _ _ (sized n refl refl refl))
                      (with_oks-Evolves _ oks (k ∙ ap oks_count (sym current)))))))

  start_round1-Evolves :
      (r : Round) → p.rnd ≡ some r → Leaves (Evolves p) (start_round1 sum rand p r)
  unfolding start_round1
  start_round1-Evolves r e =
      let h = begins p r (begin 1 r) e (unfold begin in refl) (begin-length 1 r) in
      after_call_elim (Leaves (Evolves p)) _ _ [] _ _ (λ e. h) tt
        (λ ssid _.
          let p0 : LocalParty = record p { rnd = some (begin 1 r) } in
          let h1 =
            Evolves-trans p p0 _ h (
              temp-Evolves p0 (record p0.temp { ssid = ssid }) p0.out
                (sized refl refl refl refl)) in
          after_call_elim (Leaves (Evolves p)) _ _ [] _ _ (λ e. h1) tt
            (λ point_ri _. commit_nonce-Evolves _ (begin 1 r) point_ri refl h1))

  open_nonce-Evolves :
      (q : LocalParty) (i : ℕ) → Evolves p q → Leaves (Evolves p) (open_nonce sum rand q i)
  unfolding open_nonce
  open_nonce-Evolves q i h =
      after_call_elim (Leaves (Evolves p)) _ q [] _ _ (λ e. h) tt
        (λ pir _.
          after_call_elim (Leaves (Evolves p)) _ q [] _ _ (λ e. h) tt
            (λ msgs e. Evolves-trans p q _ h (
              temp-Evolves q _ _
                (sized refl (put-length q.temp.sign_round2_messages i _ e) refl refl))))

  start_round2-Evolves :
      (r : Round) → p.rnd ≡ some r → Leaves (Evolves p) (start_round2 sum rand p r)
  unfolding start_round2
  start_round2-Evolves r e =
      let h = begins p r (begin 2 r) e (unfold begin in refl) (begin-length 2 r) in
      let p0 : LocalParty = record p { rnd = some (begin 2 r) } in
      after_call_elim (Leaves (Evolves p)) _ p0 [] _ _ (λ e. h) tt
        (λ i _.
          after_call_elim (Leaves (Evolves p)) _ p0 [] _ _ (λ e. h) tt
            (λ cjs _. open_nonce-Evolves _ i (
              Evolves-trans p p0 _ h (
                temp-Evolves p0 (record p0.temp { cjs = cjs }) p0.out
                  (sized refl refl refl refl)))))

module _ (sum : List ℕ → List ℕ) (eight_inv : ℤ) (ed : Edwards25519) (rand : Randomness) where
  -- What holds of an error and of the rest, holds of the loop before it.
  pub check_nonces_elim {ℓ} :
      (Q : Step LocalParty → Type ℓ) (p : LocalParty) (i j : ℕ) (ps : List PartyId)
      (next : List (ℕ × EcPoint) → Step LocalParty)
      → ((e : _) → Q (failed p e))
      → Q crashed
      → ((rjs : List (ℕ × EcPoint)) → Q (next rjs))
      → Q (check_nonces sum eight_inv p i j ps next)
  unfolding check_nonces
  check_nonces_elim Q p i j [] next f c k = k []
  check_nonces_elim Q p i j (pj ∷ ps) next f c k =
      branch_elim Q (j == i) _ _ (λ _. check_nonces_elim Q p i (j + 1) ps next f c k)
        (λ _. after_call_elim Q _ p [] _ _ f c (λ (opening, rj) _.
          after_call_elim Q _ p (pj ∷ []) _ _ f c (λ _ _.
            check_nonces_elim Q p i (j + 1) ps (λ rjs. next ((j, rj) ∷ rjs)) f c
              (λ rjs. k ((j, rj) ∷ rjs)))))

  make_part-Evolves :
      (p q : LocalParty) (i : ℕ) (ri : ℤ) (r : Element ed)
      → Evolves p q
      → Leaves (Evolves p) (make_part ed q i ri r)
  unfolding make_part
  make_part-Evolves p q i ri r h =
      after_call_elim (Leaves (Evolves p)) _ q [] _ _ (λ e. h) tt
        (λ (key, wi) _.
          after_call_elim (Leaves (Evolves p)) _ q [] _ _ (λ e. h) tt
            (λ msgs e. Evolves-trans p q _ h (
              temp-Evolves q _ _
                (sized refl refl (put-length q.temp.sign_round3_messages i _ e) refl))))

  start_round3-Evolves :
      (p : LocalParty) (r : Round)
      → p.rnd ≡ some r
      → Leaves (Evolves p) (start_round3 sum eight_inv ed rand p r)
  unfolding start_round3
  start_round3-Evolves p r e =
      let h = begins p r (begin 3 r) e (unfold begin in refl) (begin-length 3 r) in
      let p0 : LocalParty = record p { rnd = some (begin 3 r) } in
      after_call_elim (Leaves (Evolves p)) _ p0 [] _ _ (λ e. h) tt
        (λ ri _.
          after_call_elim (Leaves (Evolves p)) _ p0 [] _ _ (λ e. h) tt
            (λ i _.
              check_nonces_elim (Leaves (Evolves p)) p0 i 0 p.params.parties _ (λ e. h) tt
                (λ rjs. make_part-Evolves p p0 i ri _ h)))

  -- A step of a party: what it leaves as it was, and that a verified signature is all that it hands
  -- out.
  pub record Steps (p q : LocalParty) : Type 0 where
    pub params : q.params ≡ p.params
    pub left : rounds_left q.rnd ≡ rounds_left p.rnd
    pub oks : oks_count q.rnd ≡ oks_count p.rnd
    pub temp : SameSlots p.temp q.temp
    pub verified : AllVerified ed p p.end → AllVerified ed q q.end

  pub Evolves-Steps : (p q : LocalParty) → Evolves p q → Steps p q
  Evolves-Steps p q h = record {
    params = h.params;
    left = h.left;
    oks = h.oks;
    temp = h.temp;
    verified = λ v.
        subst (AllVerified ed q) (sym h.end)
          (AllVerified-cong ed p q p.end h.keys h.temp.message v);
  }

  -- The last lines of the protocol, with the key that is there.
  hand_out-Steps :
      (p q : LocalParty) (r : ℕ) (sum_s : List ℕ)
      → Evolves p q
      → Leaves (Steps p) (hand_out ed q r sum_s)
  unfolding hand_out
  hand_out-Steps p q r sum_s h =
      let q1 : LocalParty = record q { signature_data = signature_of ed r sum_s q.temp.m } in
      let quiet : Steps p q1 = Evolves-Steps p q1 (record {
        params = h.params;
        keys = h.keys;
        left = h.left;
        oks = h.oks;
        temp = h.temp;
        end = h.end;
      }) in
      after_call_elim (Leaves (Steps p)) _ q1 [] (or_nil_panic q.keys.eddsa_pub) _ (λ e. quiet) tt
        (λ key e.
          branch_elim (Leaves (Steps p)) _
            (done (record q1 { end = signature_of ed r sum_s q.temp.m ∷ q1.end }) true)
            (failed q1 _)
            (λ accepted. record {
              params = h.params;
              left = h.left;
              oks = h.oks;
              temp = h.temp;
              verified = λ v. (
                record {
                  key = key;
                  saved = or_nil_panic-ok q.keys.eddsa_pub e;
                  message = refl;
                  sum_s = sum_s;
                  encoded = rw (set_bytes-bytes r) refl;
                  summed = set_bytes-bytes (encoded_bytes_to_big_int sum_s);
                  accepted =
                      rw (set_bytes-bytes r, set_bytes-bytes (encoded_bytes_to_big_int sum_s))
                        accepted;
                },
                AllVerified-cong ed q1 _ q1.end refl refl (quiet.verified v),
              );
            })
            (λ refused. quiet))

  start_finalization-Steps :
      (p : LocalParty) (r : Round) → p.rnd ≡ some r → Leaves (Steps p) (start_finalization ed p r)
  unfolding start_finalization
  start_finalization-Steps p r e =
      let marked : Round = record (begin 4 r) { oks = map (λ b. true) r.oks } in
      let h = begins p r marked e (unfold begin in refl) (map-length r.oks) in
      let p0 : LocalParty = record p { rnd = some marked } in
      let quiet = Evolves-Steps p p0 h in
      after_call_elim (Leaves (Steps p)) _ p0 [] _ _ (λ e. quiet) tt
        (λ i _.
          after_call_elim (Leaves (Steps p)) _ p0 [] _ _ (λ e. quiet) tt
            (λ sum_s _.
              after_call_elim (Leaves (Steps p)) _ p0 [] _ _ (λ e. quiet) tt
                (λ r _. hand_out-Steps p p0 r sum_s h)))

  start_kind-Steps :
      (p : LocalParty) (k : Kind) (r : Round)
      → p.rnd ≡ some r
      → Leaves (Steps p) (start_kind sum eight_inv ed rand k p r)
  unfolding start_kind
  start_kind-Steps p round1 r e =
      Leaves-map (Evolves-Steps p) _ (start_round1-Evolves sum rand p r e)
  start_kind-Steps p round2 r e =
      Leaves-map (Evolves-Steps p) _ (start_round2-Evolves sum rand p r e)
  start_kind-Steps p round3 r e = Leaves-map (Evolves-Steps p) _ (start_round3-Evolves p r e)
  start_kind-Steps p finalization r e = start_finalization-Steps p r e

  start_set-Steps :
      (p : LocalParty) (o : Option Round)
      → p.rnd ≡ o
      → Leaves (Steps p) (start_set sum eight_inv ed rand o p)
  unfolding start_set
  start_set-Steps p none e = tt
  start_set-Steps p (some r) e =
      branch_elim (Leaves (Steps p)) r.started _ _ (λ _. Evolves-Steps p p (Evolves-refl p))
        (λ _. start_kind-Steps p r.kind r e)

  pub start_round-Steps : (p : LocalParty) → Leaves (Steps p) (start_round sum eight_inv ed rand p)
  unfolding start_round
  start_round-Steps p = start_set-Steps p p.rnd refl
