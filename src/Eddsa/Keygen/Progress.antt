-- ===== src/Eddsa/Keygen/Progress.antt =====
-- The rounds that a party has left, and the sizes of its arrays, through `Start` and `Update`.
use mpc_lib.Prelude.{
  ℕ, ◌≤◌, ◌<◌, ℤ, true, false, not, Option, none, some, List, length, ◌≡◌, ◌≢◌, refl, arith, ◌∙◌,
  ap, sym, subst, length-replicate,
}
use mpc_lib.Tss.Party.{failed, base_start, prepare_round}
use mpc_lib.Tss.PartyId.{validate_basic}
use mpc_lib.Tss.Params.{Parameters}
use mpc_lib.Tss.Party.Rules.{
  Leaves, Leaves-map, LeavesSome, HasRoundsLeft, IsKept, base_update-ne-none, base_update_keeps,
}
use mpc_lib.Eddsa.Keygen.Messages.{Msg}
use mpc_lib.Eddsa.Keygen.State.{
  Kind, round1, round2, round3, Round, LocalParty, first_round, new_local_party,
}
use mpc_lib.Eddsa.Keygen.Rounds.{Randomness}
use mpc_lib.Eddsa.Keygen.LocalParty.{
  can_proceed_set, can_proceed, advance_set, next_kind, advance, party, start, update, is_set,
}
use mpc_lib.Eddsa.Keygen.Evolution.{
  Evolves, rounds_left, kinds_left, oks_count, if-Leaves, store_message-Evolves,
  update_round-Evolves,
}
use mpc_lib.Eddsa.Keygen.Starts.{start_round-Evolves}

abbrev pub left : LocalParty → ℕ
left p = rounds_left p.rnd

-- The three arrays have a slot for each party, and so have the marks of a round that is there.
pub record IsSized (p : LocalParty) : Type 0 where
  pub slots1 : length p.temp.kg_round1_messages ≡ p.params.party_count
  pub slots2 : length p.temp.kg_round2_message1s ≡ p.params.party_count
  pub slots3 : length p.temp.kg_round2_message2s ≡ p.params.party_count
  pub oks : 0 < left p → oks_count p.rnd ≡ p.params.party_count

Evolves-left : (p q : LocalParty) → Evolves p q → left q ≤ left p
Evolves-left p q h = omega (arith, h.left)

Evolves-IsSized : (p q : LocalParty) → IsSized p → Evolves p q → IsSized q
Evolves-IsSized p q sized h = record {
  slots1 = cc (h.slots1, h.params, sized.slots1);
  slots2 = cc (h.slots2, h.params, sized.slots2);
  slots3 = cc (h.slots3, h.params, sized.slots3);
  oks = λ lt. cc (h.oks, h.params, sized.oks (omega (arith, h.left)));
}

next_kind-lt :
    (k : Kind) (r : Round)
    → (rounds_left (next_kind k r) < kinds_left k)
      × (0 < rounds_left (next_kind k r) → oks_count (next_kind k r) ≡ length r.oks)
unfolding next_kind
next_kind-lt round1 r = (omega arith, λ lt. refl)
next_kind-lt round2 r = (omega arith, λ lt. refl)
next_kind-lt round3 r = (omega arith, λ lt. absurd (omega arith))

advance_set-lt :
    (p : LocalParty) (o : Option Round)
    → can_proceed_set o ≡ true
    → rounds_left (advance_set o p).rnd < rounds_left o
unfolding can_proceed_set advance_set
advance_set-lt p none h = absurd (cc)
advance_set-lt p (some r) h = (next_kind-lt r.kind r).0

advance_set-IsSized :
    (p : LocalParty) (o : Option Round) → p.rnd ≡ o → IsSized p → IsSized (advance_set o p)
unfolding advance_set
advance_set-IsSized p none e h = h
advance_set-IsSized p (some r) e h = record {
  slots1 = h.slots1;
  slots2 = h.slots2;
  slots3 = h.slots3;
  oks = λ lt.
      (next_kind-lt r.kind r).1 lt
      ∙ ap oks_count (sym e)
      ∙ h.oks (subst (λ o. 0 < rounds_left o) (sym e) (omega (arith, (next_kind-lt r.kind r).0)));
}

kinds_left-le : (k : Kind) → kinds_left k ≤ 3
kinds_left-le round1 = omega arith
kinds_left-le round2 = omega arith
kinds_left-le round3 = omega arith

rounds_left-le : (o : Option Round) → rounds_left o ≤ 3
rounds_left-le none = omega arith
rounds_left-le (some r) = kinds_left-le r.kind

new_local_party-IsSized : (params : Parameters) → IsSized (new_local_party params)
unfolding new_local_party
new_local_party-IsSized params = record {
  slots1 = length-replicate params.party_count none;
  slots2 = length-replicate params.party_count none;
  slots3 = length-replicate params.party_count none;
  oks = λ lt. absurd (omega arith);
}

first_round-IsSized :
    (p : LocalParty)
    → length p.params.parties ≡ p.params.party_count
    → IsSized p
    → IsSized (first_round p)
unfolding first_round
first_round-IsSized p e h = record {
  slots1 = h.slots1;
  slots2 = h.slots2;
  slots3 = h.slots3;
  oks = λ lt. length-replicate (length p.params.parties) false ∙ e;
}

module _ (sum : List ℕ → List ℕ) (eight_inv : ℤ) (rand : Randomness) where
  pub party-HasRoundsLeft : HasRoundsLeft (party sum eight_inv rand) left
  unfolding can_proceed advance
  party-HasRoundsLeft = record {
    stored = λ p m. Leaves-map (Evolves-left p) _ (store_message-Evolves p m);
    updated = λ p. Leaves-map (Evolves-left p) _ (update_round-Evolves p);
    started = λ p. Leaves-map (Evolves-left p) _ (start_round-Evolves sum eight_inv rand p);
    advanced = λ p go. advance_set-lt p p.rnd go;
  }

  pub party-IsKept : IsKept (party sum eight_inv rand) IsSized
  unfolding advance
  party-IsKept = record {
    stored = λ p m h. Leaves-map (λ q. Evolves-IsSized p q h) _ (store_message-Evolves p m);
    updated = λ p h. Leaves-map (λ q. Evolves-IsSized p q h) _ (update_round-Evolves p);
    started =
        λ p h. Leaves-map (λ q. Evolves-IsSized p q h) _ (start_round-Evolves sum eight_inv rand p);
    advanced = λ p h. advance_set-IsSized p p.rnd refl h;
  }

  -- `Update` of a key generation ends, whatever the state and the message: it calls itself at most
  -- once for each of the three rounds, so the five calls of the model are enough.
  pub update-ne-none : (p : LocalParty) (msg : Msg) → update sum eight_inv rand p msg ≢ none
  unfolding update
  update-ne-none p msg =
      base_update-ne-none (party sum eight_inv rand) left party-HasRoundsLeft 5 msg p
        (omega (arith, rounds_left-le p.rnd))

  -- `Update` keeps the sizes: where each of the three arrays, and the marks of a round that is there,
  -- have as many places as there are parties, they have so in the state that it leaves, also with an
  -- error.
  pub update-IsSized :
      (p : LocalParty) (msg : Msg)
      → IsSized p
      → LeavesSome IsSized (update sum eight_inv rand p msg)
  unfolding update
  update-IsSized p msg h =
      base_update_keeps (party sum eight_inv rand) IsSized party-IsKept 5 msg p h

  -- A party made by `NewLocalParty` for as many parties as it counts has, after `Start`, a place for
  -- each of them in the three arrays and in the marks of its round, also where `Start` fails.
  start-IsSized :
      (params : Parameters)
      → length params.parties ≡ params.party_count
      → Leaves IsSized (start sum eight_inv rand (new_local_party params))
  unfolding start base_start prepare_round is_set
  start-IsSized params e =
      let p = new_local_party params in
      let h = new_local_party-IsSized params in
      if-Leaves IsSized (not (validate_basic (some p.params.party_id))) (failed p _) _ h (
        if-Leaves IsSized (is_set p.rnd) (failed p _) _ h (
          party-IsKept.started (first_round p)
            (first_round-IsSized p (unfold new_local_party in e) h)))
