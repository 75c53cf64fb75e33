-- ===== src/Eddsa/Signing/Storage.antt =====
-- eddsa/signing/local_party.go: what a message that is stored leaves behind, and that it can be stored
-- again.
use mpc_lib.Prelude.{
  ℕ, zero, suc, true, Option, none, some, List, [], ◌∷◌, ◌≡◌, refl, ap, sym, subst, ◌∙◌, arith,
}
use mpc_lib.Prelude.Result.{Result, ok, err, panic, put, >>=-eq-ok}
use mpc_lib.Tss.PartyId.{PartyId}
use mpc_lib.Tss.Message.{Error, get_from}
use mpc_lib.Tss.Party.{done, failed, crashed, validate_content, base_validate_message}
use mpc_lib.Tss.Rounds.{after_call}
use mpc_lib.Eddsa.Signing.Messages.{
  validate_basic, Msg, Content, sign_round1_message, sign_round2_message, sign_round3_message,
  other,
}
use mpc_lib.Eddsa.Signing.State.{wrap_error, LocalParty, TempData}
use mpc_lib.Eddsa.Signing.Rounds.{or_fail}
use mpc_lib.Eddsa.Signing.LocalParty.{
  validate_message, validate_sender, validate_rest, write_content, finish_store, from_index,
  store_checked, store_message,
}
use mpc_lib.Eddsa.Signing.Evolution.{slot_written}

ok-injective {ℓ} : {A : Type ℓ} (x y : A) → ok x ≡ ok y → x ≡ y
ok-injective x y e = ap (λ r. elim r [ ok a ↦ a | err t ↦ y | panic ↦ y ]) e

put-again {ℓ} :
    {A : Type ℓ} (xs : List A) (i : ℕ) (v : A) (ys : List A)
    → put xs i v ≡ ok ys
    → put ys i v ≡ ok ys
put-again [] i v ys h = absurd (cc)
put-again (x ∷ xs) zero v ys h =
    subst (λ zs. put zs zero v ≡ ok zs) (ok-injective (v ∷ xs) ys h) refl
put-again (x ∷ xs) (suc i) v ys h =
    let (zs, e, f) = >>=-eq-ok (put xs i v) _ h in
    subst (λ us. put us (suc i) v ≡ ok us) (ok-injective (x ∷ zs) ys f)
      (rw (put-again xs i v zs e) refl)

write_content-again :
    (t : TempData) (msg : Msg) (c : Option Content) (i : ℕ) (t' : TempData)
    → write_content t msg c i ≡ some (ok t')
    → write_content t' msg c i ≡ some (ok t')
unfolding write_content
write_content-again t msg none i t' h = absurd (cc)
write_content-again t msg (some (other v)) i t' h = absurd (cc)
write_content-again t msg (some (sign_round1_message c)) i t' h =
    let (msgs, e, f) = slot_written _ (λ msgs. record t { sign_round1_messages = msgs }) t' h in
    subst (λ u. write_content u msg (some (sign_round1_message c)) i ≡ some (ok u)) f
      (rw (put-again _ i (some msg) msgs e) refl)
write_content-again t msg (some (sign_round2_message d x y z)) i t' h =
    let (msgs, e, f) = slot_written _ (λ msgs. record t { sign_round2_messages = msgs }) t' h in
    subst (λ u. write_content u msg (some (sign_round2_message d x y z)) i ≡ some (ok u)) f
      (rw (put-again _ i (some msg) msgs e) refl)
write_content-again t msg (some (sign_round3_message s)) i t' h =
    let (msgs, e, f) = slot_written _ (λ msgs. record t { sign_round3_messages = msgs }) t' h in
    subst (λ u. write_content u msg (some (sign_round3_message s)) i ≡ some (ok u)) f
      (rw (put-again _ i (some msg) msgs e) refl)

-- What is known of a message that was stored.
pub record WasStored (p q : LocalParty) (msg : Msg) : Type 0 where
  pub accepted : validate_message p msg ≡ none
  pub place : ℕ
  pub from : from_index (get_from msg) ≡ ok place
  pub written : write_content p.temp msg msg.content place ≡ some (ok q.temp)
  pub kept : q ≡ record p { temp = q.temp }

finish_store-stored :
    (p q : LocalParty) (o : Option (Result TempData))
    → finish_store p o ≡ done q true
    → (o ≡ some (ok q.temp)) × (q ≡ record p { temp = q.temp })
unfolding finish_store after_call
finish_store-stored p q none h = absurd (cc)
finish_store-stored p q (some panic) h = absurd (cc)
finish_store-stored p q (some (err e)) h = absurd (cc)
finish_store-stored p q (some (ok t)) h =
    let e : record p { temp = t } ≡ q =
      ap (λ x. elim x [ done u b ↦ u | failed u e ↦ q | crashed ↦ q ]) h in
    (ap (λ u. some (ok u.temp)) e, sym e ∙ ap (λ u. record p { temp = u.temp }) e)

stored_at :
    (p q : LocalParty) (msg : Msg) (v : Option Error) (r : Result ℕ)
    → validate_message p msg ≡ v
    → from_index (get_from msg) ≡ r
    → store_checked p msg v ≡ done q true
    → WasStored p q msg
unfolding store_checked after_call
stored_at p q msg (some e) r valid from h = absurd (cc)
stored_at p q msg none r valid from h = at_place r from (
    subst
      (λ x.
        or_fail p [] x (λ i. finish_store p (write_content p.temp msg msg.content i)) ≡ done q true)
      from h)
  where
    at_place :
        (x : Result ℕ)
        → from_index (get_from msg) ≡ x
        → or_fail p [] x (λ i. finish_store p (write_content p.temp msg msg.content i))
          ≡ done q true
        → WasStored p q msg
    at_place panic e h = absurd (cc)
    at_place (err t) e h = absurd (cc)
    at_place (ok i) e h =
        let (w, k) = finish_store-stored p q (write_content p.temp msg msg.content i) h in
        record { accepted = valid; place = i; from = e; written = w; kept = k }

pub store_message-WasStored :
    (p q : LocalParty) (msg : Msg) → store_message p msg ≡ done q true → WasStored p q msg
unfolding store_message
store_message-WasStored p q msg h =
    stored_at p q msg (validate_message p msg) (from_index (get_from msg)) refl refl h

module _ (p s : LocalParty) (same : s.params ≡ p.params) where
  validate_sender-params :
      (from : Option PartyId) → validate_sender p from ≡ none → validate_sender s from ≡ none
  unfolding validate_sender
  validate_sender-params none h = absurd (cc)
  validate_sender-params (some from) h = ground arith

  validate_content-params :
      (from : Option PartyId) (c : Option Content)
      → validate_content (wrap_error p) validate_basic from c ≡ none
      → validate_content (wrap_error s) validate_basic from c ≡ none
  unfolding validate_content
  validate_content-params from none h = absurd (cc)
  validate_content-params from (some c) h = ground arith

  validate_rest-params :
      (msg : Msg) (v w : Option Error)
      → (v ≡ none → w ≡ none)
      → validate_rest p msg v ≡ none
      → validate_rest s msg w ≡ none
  unfolding validate_rest base_validate_message
  validate_rest-params msg (some e) w k h = absurd (cc)
  validate_rest-params msg none w k h =
      rw (k refl) (validate_content-params (get_from msg) msg.content h)

  -- Whether a message is accepted depends on the parameters alone.
  pub validate_message-params :
      (msg : Msg) → validate_message p msg ≡ none → validate_message s msg ≡ none
  unfolding validate_message
  validate_message-params msg h =
      validate_rest-params msg _ _ (validate_sender-params (get_from msg)) h

-- A message that was stored is stored again in any party with the same parameters and messages, and
-- changes nothing.
pub store_message-again :
    (p q s : LocalParty) (msg : Msg)
    → WasStored p q msg
    → s.params ≡ p.params
    → s.temp ≡ q.temp
    → store_message s msg ≡ done s true
unfolding store_message store_checked finish_store after_call
store_message-again p q s msg h e t =
    rw
      (
        validate_message-params p s e msg h.accepted,
        h.from,
        t,
        write_content-again p.temp msg msg.content h.place q.temp h.written,
      )
      refl
