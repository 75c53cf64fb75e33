-- ===== src/Tss/Rounds/Laws.antt =====
-- Rules for the parts that rounds are made of.
use Prim.Native.String.{String}
use mpc_lib.Prelude.{
  Bool, true, false, ◌&&◌, ◌||◌, Option, List, [], ◌∷◌, length, all, ◌≡◌, refl, arith, Bool-cases,
  inl, inr, if◌then◌else◌,
}
use mpc_lib.Prelude.Result.{Result, ok, err, panic}
use mpc_lib.Tss.PartyId.{PartyId}
use mpc_lib.Tss.Message.{Error}
use mpc_lib.Tss.Party.{Step, failed, crashed}
use mpc_lib.Tss.Rounds.{after_call, mark_ready}

-- What holds of every way in which a call goes on, holds of the rest.
pub after_call_elim {ℓ κ} :
    {S : Type 0} {A : Type κ} (Q : Step S → Type ℓ) (wrap : S → String → List PartyId → Error)
    (s : S) (culprits : List PartyId) (r : Result A) (next : A → Step S)
    → ((e : Error) → Q (failed s e))
    → Q crashed
    → ((a : A) → r ≡ ok a → Q (next a))
    → Q (after_call wrap s culprits r next)
unfolding after_call
after_call_elim Q wrap s culprits (ok a) next f c k = k a refl
after_call_elim Q wrap s culprits (err e) next f c k = f _
after_call_elim Q wrap s culprits panic next f c k = c

pub branch_elim {ℓ} :
    {S : Type 0} (Q : Step S → Type ℓ) (b : Bool) (x y : Step S)
    → (b ≡ true → Q x)
    → (b ≡ false → Q y)
    → Q (if b then x else y)
branch_elim Q true x y l m = l refl
branch_elim Q false x y l m = m refl

module _ {M : Type 0} (ready : Option M → Bool) where
  -- Each party is marked, or its message is ready.
  abbrev pub all_ready : List (Option M) → List Bool → Bool
  all_ready (m ∷ ms) (b ∷ oks) = (b || ready m) && all_ready ms oks
  all_ready _ _ = true

  -- The marks behind the loop: each party up to the first that is not ready is marked.
  abbrev pub marks : List (Option M) → List Bool → List Bool
  marks (m ∷ ms) (b ∷ oks) =
      let later = marks ms oks in if b || ready m then true ∷ later else b ∷ oks
  marks _ oks = oks

  pub mark_ready-length :
      (msgs : List (Option M)) (oks : List Bool) (res : List Bool × Bool)
      → mark_ready ready msgs oks ≡ ok res
      → length res.0 ≡ length oks
  unfolding mark_ready
  mark_ready-length [] oks res h = ground arith
  mark_ready-length (m ∷ ms) [] res h = absurd (cc)
  mark_ready-length (m ∷ ms) (b ∷ oks) res h =
      split (mark_ready-length ms oks) (mark_ready ready ms oks) refl
    where
      split :
          ((later : List Bool × Bool)
            → mark_ready ready ms oks ≡ ok later
            → length later.0 ≡ length oks)
          → (o : Result (List Bool × Bool)) → mark_ready ready ms oks ≡ o
          → length res.0 ≡ length (b ∷ oks)
      split k panic q = ground arith
      split k (err e) q = ground arith
      split k (ok later) q = ground (arith, k later q)

  -- The loop answers whether all are ready, and so do the marks that it leaves.
  pub mark_ready_lem :
      (msgs : List (Option M)) (oks : List Bool)
      → length msgs ≡ length oks
      → (mark_ready ready msgs oks ≡ ok (marks msgs oks, all_ready msgs oks))
        × (all (λ b. b) (marks msgs oks) ≡ all_ready msgs oks)
  unfolding mark_ready
  mark_ready_lem [] [] e = (refl, refl)
  mark_ready_lem [] (b ∷ oks) e = absurd (omega arith)
  mark_ready_lem (m ∷ ms) [] e = absurd (omega arith)
  mark_ready_lem (m ∷ ms) (b ∷ oks) e =
      let (f, g) = mark_ready_lem ms oks (omega arith) in
      elim (Bool-cases (b || ready m)) [
        | inl y ↦ (rw (f, y) refl, rw y g)
        | inr n ↦ (rw n refl, rw n (ground arith))
      ]
