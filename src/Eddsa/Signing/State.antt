-- ===== src/Eddsa/Signing/State.antt =====
-- eddsa/signing/local_party.go and rounds.go: what a party of the signing protocol holds.
use Prim.Native.String.{String}
use mpc_lib.Prelude.{
  ℕ, ℤ, pos, negsuc, Bool, true, false, not, Option, none, some, List, [], ◌∷◌, length, replicate,
  all, if◌then◌else◌,
}
use mpc_lib.Prelude.Result.{Result, ok, panic, ◌>>=◌}
use mpc_lib.Crypto.Point.{EcPoint}
use mpc_lib.Tss.PartyId.{PartyId}
use mpc_lib.Tss.Message.{Error}
use mpc_lib.Tss.Params.{Parameters}
use mpc_lib.Tss.Rounds.{reset_ok}
use mpc_lib.Eddsa.Keygen.State.{SaveData}
use mpc_lib.Eddsa.Keygen.Subset.{build_local_save_data_subset}
use mpc_lib.Eddsa.Signing.Messages.{Msg}

-- `localTempData`, without the nonce, which is 0. A missing value is nil until a round fills it in.
pub record TempData : Type 0 where
  pub sign_round1_messages : List (Option Msg)
  pub sign_round2_messages : List (Option Msg)
  pub sign_round3_messages : List (Option Msg)
  pub wi : Option ℤ
  pub m : ℤ
  pub ri : Option ℤ
  pub point_ri : Option EcPoint
  pub de_commit : List ℤ
  pub cjs : List (Option ℕ)
  pub si : Option (List ℕ)
  pub r : Option ℕ
  pub ssid : List ℕ

-- The fields of `common.SignatureData` that the protocol sets.
pub record SignatureData : Type 0 where
  pub signature : List ℕ
  pub r : List ℕ
  pub s : List ℕ
  pub m : List ℕ

pub data Kind : Type 0 where
  round1 round2 round3 finalization : Kind

-- `base` of rounds.go, which the rounds share; `kind` is the wrapper that is current.
pub record Round : Type 0 where
  pub kind : Kind
  pub oks : List Bool
  pub started : Bool
  pub number : ℕ

-- `out` and `end` hold what was sent on the two channels, the last first.
pub record LocalParty : Type 0 where
  pub params : Parameters
  pub keys : SaveData
  pub temp : TempData
  pub signature_data : SignatureData
  pub rnd : Option Round
  pub out : List Msg
  pub end : List SignatureData

abbrev pub task_name : String
task_name = "eddsa-signing"

abbrev pub empty_temp_data : ℤ → ℕ → TempData
empty_temp_data msg party_count = record {
  sign_round1_messages = replicate party_count none;
  sign_round2_messages = replicate party_count none;
  sign_round3_messages = replicate party_count none;
  wi = none;
  m = msg;
  ri = none;
  point_ri = none;
  de_commit = [];
  cjs = replicate party_count none;
  si = none;
  r = none;
  ssid = [];
}

unfoldable pub new_local_party : ℤ → Parameters → SaveData → Result LocalParty
unfolding build_local_save_data_subset
new_local_party msg params key = do
  keys ← build_local_save_data_subset key params.parties
  ok (record {
    params = params;
    keys = keys;
    temp = empty_temp_data msg (length params.parties);
    signature_data = record { signature = []; r = []; s = []; m = [] };
    rnd = none;
    out = [];
    end = [];
  })

-- `newRound1`: the first round, not started.
unfoldable pub first_round : LocalParty → LocalParty
first_round p = record p {
  rnd = some (record {
    kind = round1;
    oks = replicate (length p.params.parties) false;
    started = false;
    number = 1;
  });
}

-- `BaseParty.WrapError`, and that of a round.
pub wrap_error : LocalParty → String → List PartyId → Error
wrap_error p cause culprits = elim p.rnd [
  | none ↦ record { cause = cause; task = ""; round = negsuc 0; victim = none; culprits = culprits }
  | some r ↦ record {
    cause = cause;
    task = task_name;
    round = pos r.number;
    victim = some p.params.party_id;
    culprits = culprits;
  }
]

unfoldable pub can_proceed_round : Round → Bool
can_proceed_round r = if not r.started then false else all (λ b. b) r.oks

-- `WaitingFor`: the parties without a mark.
unfoldable pub waiting_for : List PartyId → List Bool → Result (List PartyId)
waiting_for ids [] = ok []
waiting_for [] (true ∷ oks) = waiting_for [] oks
waiting_for [] (false ∷ oks) = panic
waiting_for (id ∷ ids) (b ∷ oks) = do rest ← waiting_for ids oks; ok (if b then rest else id ∷ rest)

-- The number and the marks that each `Start` sets first.
unfoldable pub begin : ℕ → Round → Round
begin n r = record r { number = n; started = true; oks = reset_ok r.oks }

-- The current round with other marks.
unfoldable pub with_oks_set : Option Round → List Bool → LocalParty → LocalParty
with_oks_set none oks p = p
with_oks_set (some r) oks p = record p { rnd = some (record r { oks = oks }) }

unfoldable pub with_oks : List Bool → LocalParty → LocalParty
unfolding with_oks_set
with_oks oks p = with_oks_set p.rnd oks p
