-- ===== src/Eddsa/Signing/Evolution.antt =====
-- What no method of a signing party or of its rounds changes: the parameters, the keys, the message,
-- the sizes of the arrays and of the marks, which round it is, and, but for the last round, what was
-- handed out.
use mpc_lib.Prelude.{ℕ, Bool, Option, none, some, List, [], length, ◌≡◌, refl, arith, ap, sym, ◌∙◌}
use mpc_lib.Prelude.Result.{Result, ok, err, panic, ◌>>=◌}
use mpc_lib.Tss.Message.{Error, get_from}
use mpc_lib.Tss.Party.Rules.{Leaves}
use mpc_lib.Tss.Rounds.Laws.{after_call_elim, mark_ready-length}
use mpc_lib.Eddsa.Keygen.Evolution.{put-length}
use mpc_lib.Eddsa.Signing.Messages.{
  Msg, Content, sign_round1_message, sign_round2_message, sign_round3_message, other,
}
use mpc_lib.Eddsa.Signing.State.{
  Kind, round1, round2, round3, finalization, Round, LocalParty, TempData, with_oks, with_oks_set,
}
use mpc_lib.Eddsa.Signing.Rounds.{is_ready, finish_update, update_kind}
use mpc_lib.Eddsa.Signing.LocalParty.{
  write_content, finish_store, store_checked, store_message, update_set, update_round, from_index,
}

abbrev pub kinds_left : Kind → ℕ
kinds_left round1 = 4
kinds_left round2 = 3
kinds_left round3 = 2
kinds_left finalization = 1

abbrev pub rounds_left : Option Round → ℕ
rounds_left none = 0
rounds_left (some r) = kinds_left r.kind

abbrev pub oks_count : Option Round → ℕ
oks_count none = 0
oks_count (some r) = length r.oks

-- The three arrays of messages have the lengths of others.
pub record SameSlots (s t : TempData) : Type 0 where
  pub slots1 : length t.sign_round1_messages ≡ length s.sign_round1_messages
  pub slots2 : length t.sign_round2_messages ≡ length s.sign_round2_messages
  pub slots3 : length t.sign_round3_messages ≡ length s.sign_round3_messages
  pub message : t.m ≡ s.m

abbrev pub same_slots : (s : TempData) → SameSlots s s
same_slots s = record { slots1 = refl; slots2 = refl; slots3 = refl; message = refl }

abbrev pub sized :
    {s t : TempData}
    → length t.sign_round1_messages ≡ length s.sign_round1_messages
    → length t.sign_round2_messages ≡ length s.sign_round2_messages
    → length t.sign_round3_messages ≡ length s.sign_round3_messages
    → t.m ≡ s.m
    → SameSlots s t
sized e1 e2 e3 m = record { slots1 = e1; slots2 = e2; slots3 = e3; message = m }

-- What a method leaves as it was, from p to q.
pub record Evolves (p q : LocalParty) : Type 0 where
  pub params : q.params ≡ p.params
  pub keys : q.keys ≡ p.keys
  pub left : rounds_left q.rnd ≡ rounds_left p.rnd
  pub oks : oks_count q.rnd ≡ oks_count p.rnd
  pub temp : SameSlots p.temp q.temp
  pub end : q.end ≡ p.end

pub Evolves-refl : (p : LocalParty) → Evolves p p
Evolves-refl p = record {
  params = refl;
  keys = refl;
  left = refl;
  oks = refl;
  temp = same_slots p.temp;
  end = refl;
}

pub Evolves-trans : (p q s : LocalParty) → Evolves p q → Evolves q s → Evolves p s
Evolves-trans p q s h k = record {
  params = k.params ∙ h.params;
  keys = k.keys ∙ h.keys;
  left = k.left ∙ h.left;
  oks = k.oks ∙ h.oks;
  temp = record {
    slots1 = k.temp.slots1 ∙ h.temp.slots1;
    slots2 = k.temp.slots2 ∙ h.temp.slots2;
    slots3 = k.temp.slots3 ∙ h.temp.slots3;
    message = k.temp.message ∙ h.temp.message;
  };
  end = k.end ∙ h.end;
}

-- Other temporary data of the same sizes, and other messages sent.
pub temp-Evolves :
    (p : LocalParty) (t : TempData) (out : List Msg)
    → SameSlots p.temp t
    → Evolves p (record p { temp = t; out = out })
temp-Evolves p t out h = record {
  params = refl;
  keys = refl;
  left = refl;
  oks = refl;
  temp = h;
  end = refl;
}

-- Marks of the same number.
pub with_oks-Evolves :
    (p : LocalParty) (oks : List Bool) → length oks ≡ oks_count p.rnd → Evolves p (with_oks oks p)
unfolding with_oks
with_oks-Evolves p oks e = cases p.rnd refl
  where
    cases : (o : Option Round) → p.rnd ≡ o → Evolves p (with_oks_set o oks p)
    cases none q = Evolves-refl p
    cases (some r) q = record {
      params = refl;
      keys = refl;
      left = ap rounds_left (sym q);
      oks = e;
      temp = same_slots p.temp;
      end = refl;
    }

finish_update-Evolves :
    (p : LocalParty) (r : Round) (res : Result (List Bool × Bool))
    → p.rnd ≡ some r
    → ((out : List Bool × Bool) → res ≡ ok out → length out.0 ≡ length r.oks)
    → Leaves (Evolves p) (finish_update p res)
unfolding finish_update
finish_update-Evolves p r res e k =
    after_call_elim (Leaves (Evolves p)) _ p [] res _ (λ e. Evolves-refl p) tt
      (λ (oks, b) f. with_oks-Evolves p oks (k (oks, b) f ∙ ap oks_count (sym e)))

update_kind-Evolves :
    (p : LocalParty) (k : Kind) (r : Round)
    → p.rnd ≡ some r
    → Leaves (Evolves p) (update_kind k p r)
unfolding update_kind
update_kind-Evolves p round1 r e =
    finish_update-Evolves p r _ e
      (mark_ready-length (is_ready round1) p.temp.sign_round1_messages r.oks)
update_kind-Evolves p round2 r e =
    finish_update-Evolves p r _ e
      (mark_ready-length (is_ready round2) p.temp.sign_round2_messages r.oks)
update_kind-Evolves p round3 r e =
    finish_update-Evolves p r _ e
      (mark_ready-length (is_ready round3) p.temp.sign_round3_messages r.oks)
update_kind-Evolves p finalization r e = Evolves-refl p

update_set-Evolves :
    (p : LocalParty) (o : Option Round) → p.rnd ≡ o → Leaves (Evolves p) (update_set o p)
unfolding update_set
update_set-Evolves p none e = tt
update_set-Evolves p (some r) e = update_kind-Evolves p r.kind r e

pub update_round-Evolves : (p : LocalParty) → Leaves (Evolves p) (update_round p)
unfolding update_round
update_round-Evolves p = update_set-Evolves p p.rnd refl

pub slot_written :
    (r : Result (List (Option Msg))) (into : List (Option Msg) → TempData) (t : TempData)
    → some (do msgs ← r; ok (into msgs)) ≡ some (ok t)
    → (msgs : List (Option Msg)) × (r ≡ ok msgs) × (into msgs ≡ t)
slot_written panic into t h = absurd (ground arith)
slot_written (err e) into t h = absurd (ground arith)
slot_written (ok msgs) into t h = (msgs, refl, ground arith)

-- A write that succeeds keeps the sizes.
write_content-SameSlots :
    (t : TempData) (msg : Msg) (c : Option Content) (i : ℕ) (t' : TempData)
    → write_content t msg c i ≡ some (ok t')
    → SameSlots t t'
unfolding write_content
write_content-SameSlots t msg none i t' h = absurd (cc)
write_content-SameSlots t msg (some (other v)) i t' h = absurd (cc)
write_content-SameSlots t msg (some (sign_round1_message c)) i t' h =
    let (msgs, e, f) = slot_written _ (λ msgs. record t { sign_round1_messages = msgs }) t' h in
    ground (arith, put-length t.sign_round1_messages i (some msg) e)
write_content-SameSlots t msg (some (sign_round2_message d x y z)) i t' h =
    let (msgs, e, f) = slot_written _ (λ msgs. record t { sign_round2_messages = msgs }) t' h in
    ground (arith, put-length t.sign_round2_messages i (some msg) e)
write_content-SameSlots t msg (some (sign_round3_message s)) i t' h =
    let (msgs, e, f) = slot_written _ (λ msgs. record t { sign_round3_messages = msgs }) t' h in
    ground (arith, put-length t.sign_round3_messages i (some msg) e)

finish_store-Evolves :
    (p : LocalParty) (o : Option (Result TempData))
    → ((t : TempData) → o ≡ some (ok t) → SameSlots p.temp t)
    → Leaves (Evolves p) (finish_store p o)
unfolding finish_store
finish_store-Evolves p none k = Evolves-refl p
finish_store-Evolves p (some r) k =
    after_call_elim (Leaves (Evolves p)) _ p [] r _ (λ e. Evolves-refl p) tt
      (λ t e. temp-Evolves p t p.out (k t (ap some e)))

store_checked-Evolves :
    (p : LocalParty) (msg : Msg) (v : Option Error) → Leaves (Evolves p) (store_checked p msg v)
unfolding store_checked
store_checked-Evolves p msg (some e) = Evolves-refl p
store_checked-Evolves p msg none =
    after_call_elim (Leaves (Evolves p)) _ p [] (from_index (get_from msg)) _ (λ e. Evolves-refl p)
      tt (λ i _. finish_store-Evolves p _ (write_content-SameSlots p.temp msg msg.content i))

pub store_message-Evolves : (p : LocalParty) (msg : Msg) → Leaves (Evolves p) (store_message p msg)
unfolding store_message
store_message-Evolves p msg = store_checked-Evolves p msg _
