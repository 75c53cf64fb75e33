-- ===== src/Tss/Rounds.antt =====
-- tss/round.go, and what the rounds of the protocols have in common: calls that may fail, the loop of
-- `Update`, and the marks of the parties.
pub mod Laws
use Prim.Native.String.{String}
use mpc_lib.Prelude.{
  Bool, true, false, ◌||◌, Option, none, some, List, [], ◌∷◌, replicate, length, if◌then◌else◌,
}
use mpc_lib.Prelude.Result.{Result, ok, err, panic, ◌>>=◌}
use mpc_lib.Tss.PartyId.{PartyId}
use mpc_lib.Tss.Message.{Error}
use mpc_lib.Tss.Party.{Step, failed, crashed}

-- The rest of a method behind a call: `return round.WrapError(err, culprits...)` on an error.
unfoldable pub after_call {ℓ} :
    {S : Type 0} {A : Type ℓ}
    → (S → String → List PartyId → Error)
    → S
    → List PartyId
    → Result A
    → (A → Step S)
    → Step S
after_call wrap s culprits (ok a) next = next a
after_call wrap s culprits (err e) next = failed s (wrap s e culprits)
after_call wrap s culprits panic next = crashed

-- The loop of `Update` over one list of messages: each party up to the first that is not ready is
-- marked. More messages than marks panic.
unfoldable pub mark_ready :
    {M : Type 0} → (Option M → Bool) → List (Option M) → List Bool → Result (List Bool × Bool)
mark_ready ready [] oks = ok (oks, true)
mark_ready ready (msg ∷ msgs) [] = panic
mark_ready ready (msg ∷ msgs) (b ∷ oks) =
    let rest = mark_ready ready msgs oks in
    if b || ready msg
    then (do (marked, all_there) ← rest; ok (true ∷ marked, all_there))
    else ok (b ∷ oks, false)

-- `resetOK`.
abbrev pub reset_ok : List Bool → List Bool
reset_ok oks = replicate (length oks) false
