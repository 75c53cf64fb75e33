-- ===== src/Tss/Party/Fuel.antt =====
-- `BaseUpdate` of tss/party.go on fuel: once the fuel is enough, more makes no difference.
use mpc_lib.Prelude.{
  ℕ, zero, suc, ◌<◌, true, false, Option, none, some, ◌≡◌, ◌≢◌, refl, sym, Bool-cases, inl, inr,
}
use mpc_lib.Tss.Message.{Error}
use mpc_lib.Tss.Party.{
  Step, done, failed, crashed, Party, after_start, enter_next, after_update, after_store,
  after_validate, base_update,
}
use mpc_lib.Tss.Party.Rules.{HasRoundsLeft, base_update-ne-none}

module _ {S M : Type 0} (p : Party S M) where
  module _ (again more : S → Option (Step S))
      (same : (t : S) (r : Step S) → again t ≡ some r → more t ≡ some r) where
    after_start_more :
        (x r : Step S) → after_start p again x ≡ some r → after_start p more x ≡ some r
    unfolding after_start
    after_start_more (done t b) r h = same t r h
    after_start_more (failed t e) r h = h
    after_start_more crashed r h = h

    enter_next_more :
        (s : S) (r : Step S) → enter_next p again s ≡ some r → enter_next p more s ≡ some r
    unfolding enter_next
    enter_next_more s r = elim (Bool-cases (p.has_round (p.advance s))) [
      | inl on ↦ rw on (after_start_more (p.start_round (p.advance s)) r)
      | inr off ↦ rw off (same (p.advance s) r)
    ]

    after_update_more :
        (x r : Step S) → after_update p again x ≡ some r → after_update p more x ≡ some r
    unfolding after_update
    after_update_more (done s b) r = elim (Bool-cases (p.can_proceed s)) [
      | inl go ↦ rw go (enter_next_more s r)
      | inr stay ↦ rw stay (λ h. h)
    ]
    after_update_more (failed s e) r = λ h. h
    after_update_more crashed r = λ h. h

    after_store_more :
        (x r : Step S) → after_store p again x ≡ some r → after_store p more x ≡ some r
    unfolding after_store
    after_store_more (done s false) r = λ h. h
    after_store_more (done s true) r = elim (Bool-cases (p.has_round s)) [
      | inl on ↦ rw on (after_update_more (p.update_round s) r)
      | inr off ↦ rw off (λ h. h)
    ]
    after_store_more (failed s e) r = λ h. h
    after_store_more crashed r = λ h. h

    after_validate_more :
        (m : M) (s : S) (v : Option Error) (r : Step S)
        → after_validate p again m s v ≡ some r
        → after_validate p more m s v ≡ some r
    unfolding after_validate
    after_validate_more m s (some e) r h = h
    after_validate_more m s none r h = after_store_more (p.store_message s m) r h

  base_update_more :
      (fuel : ℕ) (m : M) (s : S) (r : Step S)
      → base_update p fuel m s ≡ some r
      → base_update p (suc fuel) m s ≡ some r
  unfolding base_update
  base_update_more zero m s r h = absurd (cc)
  base_update_more (suc fuel) m s r h =
      after_validate_more (base_update p fuel m) (base_update p (suc fuel) m)
        (λ t q e. base_update_more fuel m t q e) m s (p.validate_message s m) r h

  kept :
      (o more : Option (Step S)) → o ≢ none → ((r : Step S) → o ≡ some r → more ≡ some r) → o ≡ more
  kept none more n same = absurd (n refl)
  kept (some r) more n same = sym (same r refl)

  -- More fuel than there are rounds left gives the same result as one more.
  base_update-suc :
      (left : S → ℕ)
      → HasRoundsLeft p left
      → (fuel : ℕ) (m : M) (s : S) → left s < fuel
      → base_update p fuel m s ≡ base_update p (suc fuel) m s
  base_update-suc left h fuel m s lt =
      kept (base_update p fuel m s) (base_update p (suc fuel) m s)
        (base_update-ne-none p left h fuel m s lt) (base_update_more fuel m s)

  -- The call behind the start of a round is the call in the state that the start leaves.
  pub after_start-base_update :
      (left : S → ℕ)
      → HasRoundsLeft p left
      → (fuel : ℕ) (m : M) → ((s : S) → left s < fuel)
      → (x : Step S)
      → after_start p (base_update p fuel m) x ≡ elim x [
        | done t b ↦ base_update p (suc fuel) m t
        | failed t e ↦ some (failed t e)
        | crashed ↦ some crashed
      ]
  unfolding after_start
  after_start-base_update left h fuel m enough (done t b) =
      base_update-suc left h fuel m t (enough t)
  after_start-base_update left h fuel m enough (failed t e) = refl
  after_start-base_update left h fuel m enough crashed = refl
