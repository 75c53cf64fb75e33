-- ===== src/Eddsa/Keygen/Marks.antt =====
-- When the first two rounds of the key generation go on: what their `Update` methods find out.
use mpc_lib.Prelude.{
  Bool, true, false, ◌&&◌, ◌||◌, Option, some, List, [], ◌∷◌, length, all, ◌≡◌, refl, arith,
  Bool-cases, inl, inr, ap, ◌∙◌,
}
use mpc_lib.Prelude.Result.{Result, ok}
use mpc_lib.Tss.Party.{done}
use mpc_lib.Eddsa.Keygen.Messages.{Msg}
use mpc_lib.Eddsa.Keygen.State.{round1, round2, Round, LocalParty, can_proceed_round}
use mpc_lib.Eddsa.Keygen.Rounds.{
  is_ready, mark, update_oks1, update_oks2, are_ready, tail_of, finish_update, update_kind,
}
use mpc_lib.Eddsa.Keygen.LocalParty.{update_set, update_round, can_proceed_set, can_proceed}

-- Each party is marked, or its message of the first round is there and acceptable.
abbrev pub are_there1 : List (Option Msg) → List Bool → Bool
are_there1 (m ∷ ms) (b ∷ oks) = (b || is_ready round1 m) && are_there1 ms oks
are_there1 _ _ = true

-- Each party is marked, or both its messages of the second round are there and acceptable.
abbrev pub are_there2 : List (Option Msg) → List (Option Msg) → List Bool → Bool
are_there2 (m ∷ ms) (m2 ∷ ms2) (b ∷ oks) =
    (b || (is_ready round2 m && is_ready round2 m2)) && are_there2 ms ms2 oks
are_there2 _ _ _ = true

update_oks1_lem :
    (msgs : List (Option Msg)) (oks : List Bool)
    → length msgs ≡ length oks
    → (oks' : List Bool) × (update_oks1 msgs oks ≡ ok (oks', are_there1 msgs oks))
      × (all (λ b. b) oks' ≡ are_there1 msgs oks)
unfolding update_oks1 mark
update_oks1_lem [] [] e = ([], refl, refl)
update_oks1_lem [] (b ∷ oks) e = absurd (omega arith)
update_oks1_lem (m ∷ ms) [] e = absurd (omega arith)
update_oks1_lem (m ∷ ms) (true ∷ oks) e =
    let (oks', f, g) = update_oks1_lem ms oks (omega arith) in
    (true ∷ oks', ground (arith), ground (arith))
update_oks1_lem (m ∷ ms) (false ∷ oks) e =
    let (oks', f, g) = update_oks1_lem ms oks (omega arith) in
    elim (Bool-cases (is_ready round1 m)) [
      | inl y ↦ (true ∷ oks', ground (arith), ground (arith))
      | inr n ↦ (false ∷ oks, ground (arith), ground (arith))
    ]

update_oks2_lem :
    (msgs msgs2 : List (Option Msg)) (oks : List Bool)
    → length msgs ≡ length oks
    → length msgs2 ≡ length oks
    → (oks' : List Bool) × (update_oks2 msgs msgs2 oks ≡ ok (oks', are_there2 msgs msgs2 oks))
      × (all (λ b. b) oks' ≡ are_there2 msgs msgs2 oks)
unfolding update_oks2 mark are_ready tail_of
update_oks2_lem [] [] [] e e2 = ([], refl, refl)
update_oks2_lem [] _ (b ∷ oks) e e2 = absurd (omega arith)
update_oks2_lem [] (m2 ∷ ms2) [] e e2 = absurd (omega arith)
update_oks2_lem (m ∷ ms) _ [] e e2 = absurd (omega arith)
update_oks2_lem (m ∷ ms) [] (b ∷ oks) e e2 = absurd (omega arith)
update_oks2_lem (m ∷ ms) (m2 ∷ ms2) (true ∷ oks) e e2 =
    let (oks', f, g) = update_oks2_lem ms ms2 oks (omega arith) (omega arith) in
    (true ∷ oks', ground (arith), ground (arith))
update_oks2_lem (m ∷ ms) (m2 ∷ ms2) (false ∷ oks) e e2 =
    let (oks', f, g) = update_oks2_lem ms ms2 oks (omega arith) (omega arith) in
    elim (Bool-cases (is_ready round2 m && is_ready round2 m2)) [
      | inl y ↦ (true ∷ oks', ground (arith), ground (arith))
      | inr n ↦ (false ∷ oks, ground (arith), ground (arith))
    ]

module _ (p : LocalParty) (r : Round) (current : p.rnd ≡ some r) (started : r.started ≡ true) where
  finished :
      (res : Result (List Bool × Bool)) (b : Bool)
      → (oks' : List Bool) × (res ≡ ok (oks', b)) × (all (λ b. b) oks' ≡ b)
      → (q : LocalParty) × (finish_update p r res ≡ done q b) × (can_proceed q ≡ b)
  unfolding finish_update can_proceed can_proceed_set can_proceed_round
  finished res b (oks', e, f) =
      (record p { rnd = some (record r { oks = oks' }) }, ground (arith), ground (arith))

  -- The `Update` of round 1, once it is started and with as many messages as marks, returns whether
  -- each party is marked or its message is there and acceptable, and leaves a state whose
  -- `CanProceed` says the same.
  update_round1_lem :
      r.kind ≡ round1
      → length p.temp.kg_round1_messages ≡ length r.oks
      → (q : LocalParty) × (update_round p ≡ done q (are_there1 p.temp.kg_round1_messages r.oks))
        × (can_proceed q ≡ are_there1 p.temp.kg_round1_messages r.oks)
  unfolding update_round update_set update_kind
  update_round1_lem k e =
      let (q, f, g) = finished _ _ (update_oks1_lem p.temp.kg_round1_messages r.oks e) in
      (q, ap (λ o. update_set o p) current ∙ ap (λ k. update_kind k p r) k ∙ f, g)

  -- The `Update` of round 2, once it is started and with as many messages of both sorts as marks,
  -- returns whether each party is marked or both its messages are there and acceptable, and leaves a
  -- state whose `CanProceed` says the same.
  update_round2_lem :
      r.kind ≡ round2
      → length p.temp.kg_round2_message1s ≡ length r.oks
      → length p.temp.kg_round2_message2s ≡ length r.oks
      → (q : LocalParty) × (update_round p
          ≡ done q (are_there2 p.temp.kg_round2_message1s p.temp.kg_round2_message2s r.oks))
        × (can_proceed q ≡ are_there2 p.temp.kg_round2_message1s p.temp.kg_round2_message2s r.oks)
  unfolding update_round update_set update_kind
  update_round2_lem k e e2 =
      let (q, f, g) =
        finished _ _
          (update_oks2_lem p.temp.kg_round2_message1s p.temp.kg_round2_message2s r.oks e e2) in
      (q, ap (λ o. update_set o p) current ∙ ap (λ k. update_kind k p r) k ∙ f, g)
