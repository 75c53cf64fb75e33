-- ===== src/Eddsa/Signing/Progress.antt =====
-- The rounds that a signing party has left, the sizes of its arrays, and what it hands out, through
-- `Start` and `Update`.
use mpc_lib.Prelude.{
  ℕ, ◌≤◌, ◌<◌, ℤ, true, Option, none, some, List, length, ◌≡◌, ◌≢◌, refl, arith, ◌∙◌, ap, sym,
  subst,
}
use mpc_lib.Tss.Party.Rules.{
  Leaves, Leaves-map, LeavesSome, HasRoundsLeft, IsKept, base_update-ne-none, base_update_keeps,
}
use mpc_lib.Eddsa.Signing.Edwards.{Edwards25519}
use mpc_lib.Eddsa.Signing.Messages.{Msg}
use mpc_lib.Eddsa.Signing.State.{Kind, round1, round2, round3, finalization, Round, LocalParty}
use mpc_lib.Eddsa.Signing.Rounds.{Randomness}
use mpc_lib.Eddsa.Signing.LocalParty.{
  can_proceed_set, can_proceed, advance_set, next_kind, advance, party, update, store_message,
  update_round,
}
use mpc_lib.Eddsa.Signing.Verified.{AllVerified-cong, HandsOutVerified}
use mpc_lib.Eddsa.Signing.Evolution.{
  rounds_left, kinds_left, oks_count, store_message-Evolves, update_round-Evolves,
}
use mpc_lib.Eddsa.Signing.Starts.{Steps, Evolves-Steps, start_round-Steps}

abbrev pub left : LocalParty → ℕ
left p = rounds_left p.rnd

-- The three arrays have a slot for each party, and so have the marks of a round that is there.
pub record IsSized (p : LocalParty) : Type 0 where
  pub slots1 : length p.temp.sign_round1_messages ≡ length p.params.parties
  pub slots2 : length p.temp.sign_round2_messages ≡ length p.params.parties
  pub slots3 : length p.temp.sign_round3_messages ≡ length p.params.parties
  pub oks : 0 < left p → oks_count p.rnd ≡ length p.params.parties

next_kind-lt :
    (k : Kind) (r : Round)
    → (rounds_left (next_kind k r) < kinds_left k)
      × (0 < rounds_left (next_kind k r) → oks_count (next_kind k r) ≡ length r.oks)
unfolding next_kind
next_kind-lt round1 r = (omega arith, λ lt. refl)
next_kind-lt round2 r = (omega arith, λ lt. refl)
next_kind-lt round3 r = (omega arith, λ lt. refl)
next_kind-lt finalization r = (omega arith, λ lt. absurd (omega arith))

advance_set-lt :
    (p : LocalParty) (o : Option Round)
    → can_proceed_set o ≡ true
    → rounds_left ((advance_set o p).rnd) < rounds_left o
unfolding can_proceed_set advance_set
advance_set-lt p none h = absurd (cc)
advance_set-lt p (some r) h = (next_kind-lt r.kind r).0

advance_set-IsSized :
    (p : LocalParty) (o : Option Round) → p.rnd ≡ o → IsSized p → IsSized (advance_set o p)
unfolding advance_set
advance_set-IsSized p none e h = h
advance_set-IsSized p (some r) e h = record {
  slots1 = h.slots1;
  slots2 = h.slots2;
  slots3 = h.slots3;
  oks = λ lt.
      (next_kind-lt r.kind r).1 lt
      ∙ ap oks_count (sym e)
      ∙ h.oks (subst (λ o. 0 < rounds_left o) (sym e) (omega (arith, (next_kind-lt r.kind r).0)));
}

advance_set_keeps :
    (ed : Edwards25519) (p : LocalParty) (o : Option Round)
    → HandsOutVerified ed p
    → HandsOutVerified ed (advance_set o p)
unfolding advance_set
advance_set_keeps ed p none h = h
advance_set_keeps ed p (some r) h = AllVerified-cong ed p _ p.end refl refl h

kinds_left-le : (k : Kind) → kinds_left k ≤ 4
kinds_left-le round1 = omega arith
kinds_left-le round2 = omega arith
kinds_left-le round3 = omega arith
kinds_left-le finalization = omega arith

pub rounds_left-le : (o : Option Round) → rounds_left o ≤ 4
rounds_left-le none = omega arith
rounds_left-le (some r) = kinds_left-le r.kind

module _ (sum : List ℕ → List ℕ) (eight_inv : ℤ) (ed : Edwards25519) (rand : Randomness) where
  abbrev IsStep : LocalParty → LocalParty → Type 0
  IsStep = Steps sum eight_inv ed rand

  Steps-left : (p q : LocalParty) → IsStep p q → left q ≤ left p
  Steps-left p q h = omega (arith, h.left)

  Steps-IsSized : (p q : LocalParty) → IsSized p → IsStep p q → IsSized q
  Steps-IsSized p q sized h = record {
    slots1 = cc (h.temp.slots1, h.params, sized.slots1);
    slots2 = cc (h.temp.slots2, h.params, sized.slots2);
    slots3 = cc (h.temp.slots3, h.params, sized.slots3);
    oks = λ lt. cc (h.oks, h.params, sized.oks (omega (arith, h.left)));
  }

  -- Each method of a party makes a step.
  stored : (p : LocalParty) (msg : Msg) → Leaves (IsStep p) (store_message p msg)
  stored p msg = Leaves-map (Evolves-Steps sum eight_inv ed rand p) _ (store_message-Evolves p msg)

  updated : (p : LocalParty) → Leaves (IsStep p) (update_round p)
  updated p = Leaves-map (Evolves-Steps sum eight_inv ed rand p) _ (update_round-Evolves p)

  pub party-HasRoundsLeft : HasRoundsLeft (party sum eight_inv ed rand) left
  unfolding can_proceed advance
  party-HasRoundsLeft = record {
    stored = λ p m. Leaves-map (Steps-left p) _ (stored p m);
    updated = λ p. Leaves-map (Steps-left p) _ (updated p);
    started = λ p. Leaves-map (Steps-left p) _ (start_round-Steps sum eight_inv ed rand p);
    advanced = λ p go. advance_set-lt p p.rnd go;
  }

  party-IsKept : IsKept (party sum eight_inv ed rand) IsSized
  unfolding advance
  party-IsKept = record {
    stored = λ p m h. Leaves-map (λ q. Steps-IsSized p q h) _ (stored p m);
    updated = λ p h. Leaves-map (λ q. Steps-IsSized p q h) _ (updated p);
    started =
        λ p h. Leaves-map (λ q. Steps-IsSized p q h) _ (start_round-Steps sum eight_inv ed rand p);
    advanced = λ p h. advance_set-IsSized p p.rnd refl h;
  }

  party-keeps_verified : IsKept (party sum eight_inv ed rand) (HandsOutVerified ed)
  unfolding advance
  party-keeps_verified = record {
    stored = λ p m h. Leaves-map (λ q (s : IsStep p q). s.verified h) _ (stored p m);
    updated = λ p h. Leaves-map (λ q (s : IsStep p q). s.verified h) _ (updated p);
    started = λ p h.
        Leaves-map (λ q (s : IsStep p q). s.verified h) _
          (start_round-Steps sum eight_inv ed rand p);
    advanced = λ p h. advance_set_keeps ed p p.rnd h;
  }

  -- `Update` of a signing party ends, whatever the state and the message: it calls itself at most
  -- once for each of the four rounds, so the six calls of the model are enough.
  pub sign_update-ne-none : (p : LocalParty) (msg : Msg) → update sum eight_inv ed rand p msg ≢ none
  unfolding update
  sign_update-ne-none p msg =
      base_update-ne-none (party sum eight_inv ed rand) left party-HasRoundsLeft 6 msg p
        (omega (arith, rounds_left-le p.rnd))

  -- `Update` of a signing party keeps the sizes: where each of the three arrays, and the marks of a
  -- round that is there, have as many places as there are parties, they have so in the state that it
  -- leaves, also with an error.
  pub sign_update-IsSized :
      (p : LocalParty) (msg : Msg)
      → IsSized p
      → LeavesSome IsSized (update sum eight_inv ed rand p msg)
  unfolding update
  sign_update-IsSized p msg h =
      base_update_keeps (party sum eight_inv ed rand) IsSized party-IsKept 6 msg p h

  -- All that a signing party hands out holds its message, numbers R and S that the verifier accepts for
  -- the message and the public key of the saved data, and as the signature the encoding of R followed
  -- by bytes that encode S: where this holds before `Update`, it holds of the state that `Update`
  -- leaves, also with an error.
  pub sign_update-HandsOutVerified :
      (p : LocalParty) (msg : Msg)
      → HandsOutVerified ed p
      → LeavesSome (HandsOutVerified ed) (update sum eight_inv ed rand p msg)
  unfolding update
  sign_update-HandsOutVerified p msg h =
      base_update_keeps (party sum eight_inv ed rand) (HandsOutVerified ed) party-keeps_verified 6
        msg p h
