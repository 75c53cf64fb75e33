-- ===== src/Eddsa/Keygen/State.antt =====
-- eddsa/keygen/local_party.go, rounds.go and save_data.go: what a party and its current round hold.
use Prim.Native.String.{String}
use mpc_lib.Prelude.{
  ℕ, ◌+◌, ◌==◌, ℤ, pos, negsuc, Bool, true, false, not, Option, none, some, List, [], ◌∷◌, length,
  replicate, all, if◌then◌else◌,
}
use mpc_lib.Prelude.Result.{Result, ok, err, panic}
use mpc_lib.Crypto.Point.{EcPoint}
use mpc_lib.Crypto.Vss.{Share}
use mpc_lib.Tss.PartyId.{PartyId}
use mpc_lib.Tss.Message.{Error}
use mpc_lib.Tss.Params.{Parameters}
use mpc_lib.Tss.Party.{Step, failed, crashed}
use mpc_lib.Eddsa.Keygen.Messages.{Msg}

-- The missing values are nil, or zero values, until a round fills them in.
pub record SaveData : Type 0 where
  pub xi : Option ℤ
  pub share_id : Option ℕ
  pub ks : List ℕ
  pub big_xj : List (Option EcPoint)
  pub eddsa_pub : Option EcPoint

-- `localTempData`, without the third array of messages, which nothing reads or writes, and the nonce,
-- which is 0.
pub record TempData : Type 0 where
  pub kg_round1_messages : List (Option Msg)
  pub kg_round2_message1s : List (Option Msg)
  pub kg_round2_message2s : List (Option Msg)
  pub ui : ℤ
  pub kgcs : List (Option ℕ)
  pub vs : List EcPoint
  pub shares : List Share
  pub de_commit_poly_g : List ℤ
  pub ssid : List ℕ

pub data Kind : Type 0 where
  round1 round2 round3 : Kind

-- `base` of rounds.go. The three rounds share it; `kind` is the wrapper that is current.
pub record Round : Type 0 where
  pub kind : Kind
  pub oks : List Bool
  pub started : Bool
  pub number : ℕ

-- `out` and `end` hold what was sent on the two channels, the last first.
pub record LocalParty : Type 0 where
  pub params : Parameters
  pub temp : TempData
  pub save : SaveData
  pub rnd : Option Round
  pub out : List Msg
  pub end : List SaveData

abbrev pub task_name : String
task_name = "eddsa-keygen"

unfoldable pub new_local_party_save_data : ℕ → SaveData
new_local_party_save_data party_count = record {
  xi = none;
  share_id = none;
  ks = replicate party_count 0;
  big_xj = replicate party_count none;
  eddsa_pub = none;
}

unfoldable pub new_local_party : Parameters → LocalParty
unfolding new_local_party_save_data
new_local_party params =
    let empty = replicate params.party_count none in
    record {
      params = params;
      temp = record {
        kg_round1_messages = empty;
        kg_round2_message1s = empty;
        kg_round2_message2s = empty;
        ui = pos 0;
        kgcs = replicate params.party_count none;
        vs = [];
        shares = [];
        de_commit_poly_g = [];
        ssid = [];
      };
      save = new_local_party_save_data params.party_count;
      rnd = none;
      out = [];
      end = [];
    }

-- `newRound1`: the first round, not started.
unfoldable pub first_round : LocalParty → LocalParty
first_round p = record p {
  rnd = some (record {
    kind = round1;
    oks = replicate (length p.params.parties) false;
    started = false;
    number = 1;
  });
}

-- `BaseParty.WrapError`, and that of a round.
pub wrap_error : LocalParty → String → List PartyId → Error
wrap_error p cause culprits = elim p.rnd [
  | none ↦ record { cause = cause; task = ""; round = negsuc 0; victim = none; culprits = culprits }
  | some r ↦ record {
    cause = cause;
    task = task_name;
    round = pos r.number;
    victim = some p.params.party_id;
    culprits = culprits;
  }
]

-- The rest of a `Start` behind a call that may fail: `return round.WrapError(err, culprits...)`.
unfoldable pub attempt {ℓ} :
    {A : Type ℓ} → LocalParty → List PartyId → Result A → (A → Step LocalParty) → Step LocalParty
attempt p culprits (ok a) next = next a
attempt p culprits (err e) next = failed p (wrap_error p e culprits)
attempt p culprits panic next = crashed

-- `CanProceed`.
unfoldable pub can_proceed_round : Round → Bool
can_proceed_round r = if not r.started then false else all (λ b. b) r.oks

-- `resetOK`, with the number and the mark that `Start` sets.
unfoldable pub begin : ℕ → Round → Round
begin n r = record r { number = n; started = true; oks = replicate (length r.oks) false }

-- `OriginalIndex`.
unfoldable pub index_from : ℕ → ℕ → List ℕ → Option ℕ
index_from ki j [] = none
index_from ki j (kj ∷ ks) = if kj == ki then some j else index_from ki (j + 1) ks
