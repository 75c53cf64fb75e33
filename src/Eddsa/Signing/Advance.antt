-- ===== src/Eddsa/Signing/Advance.antt =====
-- eddsa/signing: what `Update` makes of a message, once the round that waits for it has started.
use mpc_lib.Prelude.{
  ℕ, ℤ, Bool, true, false, Option, none, some, List, [], length, all, if◌then◌else◌, ◌≡◌, ◌≢◌, refl,
  ap, ◌∙◌, arith,
}
use mpc_lib.Prelude.Result.{ok}
use mpc_lib.Tss.Message.{Error}
use mpc_lib.Tss.Party.{Step, done, failed, crashed, after_start, after_validate, base_update}
use mpc_lib.Tss.Party.Fuel.{after_start-base_update}
use mpc_lib.Tss.Rounds.{mark_ready, after_call}
use mpc_lib.Tss.Rounds.Laws.{all_ready, marks, mark_ready_lem}
use mpc_lib.Eddsa.Signing.Messages.{Msg}
use mpc_lib.Eddsa.Signing.Edwards.{Edwards25519}
use mpc_lib.Eddsa.Signing.State.{
  TempData, LocalParty, Round, Kind, round1, round2, round3, finalization, with_oks, with_oks_set,
  can_proceed_round,
}
use mpc_lib.Eddsa.Signing.Rounds.{Randomness, is_ready, update_kind, finish_update, start_round2}
use mpc_lib.Eddsa.Signing.Round3.{start_round3}
use mpc_lib.Eddsa.Signing.Finalize.{start_finalization}
use mpc_lib.Eddsa.Signing.LocalParty.{
  validate_message, store_message, store_checked, update_round, update_set, can_proceed,
  can_proceed_set, next_kind, advance, advance_set, is_set, start_kind, start_set, start_round,
  party, update,
}
use mpc_lib.Eddsa.Signing.Progress.{left, rounds_left-le, party-HasRoundsLeft}

-- The messages that a round waits for.
abbrev pub messages_of : Kind → TempData → List (Option Msg)
messages_of round1 t = t.sign_round1_messages
messages_of round2 t = t.sign_round2_messages
messages_of round3 t = t.sign_round3_messages
messages_of finalization t = []

-- The round behind each of the first three.
abbrev pub following : Kind → Kind
following round1 = round2
following round2 = round3
following round3 = finalization
following finalization = finalization

-- Only an accepted message is stored.
store_message-valid :
    (p q : LocalParty) (msg : Msg) (b : Bool)
    → store_message p msg ≡ done q b
    → validate_message p msg ≡ none
unfolding store_message
store_message-valid p q msg b stored = valid (validate_message p msg) stored
  where
    valid : (v : Option Error) → store_checked p msg v ≡ done q b → v ≡ none
    valid none e = refl
    valid (some e) f = absurd (cc)

module _ (sum : List ℕ → List ℕ) (eight_inv : ℤ) (ed : Edwards25519) (rand : Randomness) where
  -- What the round behind each of the first three does at its start.
  abbrev pub start_next : Kind → LocalParty → Round → Step LocalParty
  start_next round1 p r = start_round2 sum rand p r
  start_next round2 p r = start_round3 sum eight_inv ed rand p r
  start_next round3 p r = start_finalization ed p r
  start_next finalization p r = crashed

  module _ (p q : LocalParty) (msg : Msg) (r : Round) where
    -- The marks that the message leaves, and the state in a round.
    abbrev pub new_marks : List Bool
    new_marks = marks (is_ready r.kind) (messages_of r.kind q.temp) r.oks

    abbrev pub are_ready : Bool
    are_ready = all_ready (is_ready r.kind) (messages_of r.kind q.temp) r.oks

    abbrev pub waiting : Round
    waiting = record r { oks = new_marks }

    abbrev enter : Kind → List Bool → Round
    enter k marked = record r { kind = following k; oks = marked; started = false }

    abbrev pub entered : Round
    entered = enter r.kind new_marks

    -- One call, with what the calls behind it give.
    once :
        (again : LocalParty → Option (Step LocalParty)) (k : Kind)
        → validate_message p msg ≡ none
        → store_message p msg ≡ done q true
        → q.rnd ≡ some r
        → r.started ≡ true
        → r.kind ≡ k
        → k ≢ finalization
        → (b : Bool) (marked : List Bool)
        → mark_ready (is_ready k) (messages_of k q.temp) r.oks ≡ ok (marked, b)
        → all (λ b. b) marked ≡ b
        → after_validate (party sum eight_inv ed rand) again msg p (validate_message p msg) ≡ (
            if b
            then after_start
                (party sum eight_inv ed rand)
                again
                (start_next k (record q { rnd = some (enter k marked) }) (enter k marked))
            else some (done (record q { rnd = some (record r { oks = marked }) }) true))
    unfolding base_update update_round update_set update_kind finish_update after_call with_oks
        with_oks_set can_proceed can_proceed_set can_proceed_round advance advance_set next_kind
        is_set start_round start_set start_kind
    once again round1 valid stored in_round started same early b marked found full =
        rw (valid, stored, in_round, same, found, started, full) refl
    once again round2 valid stored in_round started same early b marked found full =
        rw (valid, stored, in_round, same, found, started, full) refl
    once again round3 valid stored in_round started same early b marked found full =
        rw (valid, stored, in_round, same, found, started, full) refl
    once again finalization valid stored in_round started same early b marked found full =
        absurd (early refl)

    -- A message that is stored in a started round of the first three marks each party up to the first
    -- whose message is not there or not acceptable. If no such party is left then all are marked, and
    -- `Update` runs the start of the next round, not yet started: an error or a panic of that start is
    -- its result, and otherwise its result is that of `Update` in the state that the start leaves. If
    -- one is left then `Update` ends without an error in the same round with the new marks.
    pub sign_update_proceeds :
        store_message p msg ≡ done q true
        → q.rnd ≡ some r
        → r.started ≡ true
        → r.kind ≢ finalization
        → length (messages_of r.kind q.temp) ≡ length r.oks
        → (all (λ b. b) new_marks ≡ are_ready)
          × (update sum eight_inv ed rand p msg ≡ (
              if are_ready
              then elim (start_next r.kind (record q { rnd = some entered }) entered) [
                | done t b ↦ update sum eight_inv ed rand t msg
                | failed t e ↦ some (failed t e)
                | crashed ↦ some crashed
              ]
              else some (done (record q { rnd = some waiting }) true)))
    unfolding update base_update
    sign_update_proceeds stored in_round started early sized =
        let (found, full) =
          mark_ready_lem (is_ready r.kind) (messages_of r.kind q.temp) r.oks sized in
        (
          full,
          once (base_update (party sum eight_inv ed rand) 5 msg) r.kind
                (store_message-valid p q msg true stored) stored in_round started refl early
                are_ready new_marks found full
              ∙ ap
                  (λ x. if are_ready then x else some (done (record q { rnd = some waiting }) true))
                  (after_start-base_update (party sum eight_inv ed rand) left
                    (party-HasRoundsLeft sum eight_inv ed rand) 5 msg
                    (λ t. omega (arith, rounds_left-le t.rnd))
                    (start_next r.kind (record q { rnd = some entered }) entered)),
        )
