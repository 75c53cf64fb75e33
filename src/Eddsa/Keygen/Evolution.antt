-- ===== src/Eddsa/Keygen/Evolution.antt =====
-- What no method of a party or of its rounds changes: the parameters, the sizes of the arrays and of
-- the marks, and which round it is.
use mpc_lib.Prelude.{
  ℕ, zero, suc, ◌+◌, Bool, true, false, ◌||◌, Option, none, some, List, [], ◌∷◌, length, ◌≡◌, refl,
  arith, ap, sym, ◌∙◌, if◌then◌else◌, Bool-cases, inl, inr,
}
use mpc_lib.Prelude.Result.{Result, ok, err, panic, put, >>=-eq-ok}
use mpc_lib.Tss.Message.{Error}
use mpc_lib.Tss.PartyId.{PartyId}
use mpc_lib.Tss.Party.{Step}
use mpc_lib.Tss.Party.Rules.{Leaves}
use mpc_lib.Crypto.Vss.{Share}
use mpc_lib.Eddsa.Keygen.Messages.{
  Msg, Content, kg_round1_message, kg_round2_message1, kg_round2_message2, other,
}
use mpc_lib.Eddsa.Keygen.State.{Kind, round1, round2, round3, Round, LocalParty, TempData, attempt}
use mpc_lib.Eddsa.Keygen.Rounds.{
  mark, is_ready, update_oks1, update_oks2, are_ready, tail_of, finish_update, update_kind,
  send_shares,
}
use mpc_lib.Eddsa.Keygen.LocalParty.{
  write_slot, store_content, store_at, store_checked, store_message, update_round, update_set,
}

abbrev pub kinds_left : Kind → ℕ
kinds_left round1 = 3
kinds_left round2 = 2
kinds_left round3 = 1

abbrev pub rounds_left : Option Round → ℕ
rounds_left none = 0
rounds_left (some r) = kinds_left r.kind

abbrev pub oks_count : Option Round → ℕ
oks_count none = 0
oks_count (some r) = length r.oks

-- What a method leaves as it was, from s to t.
pub record Evolves (s t : LocalParty) : Type 0 where
  pub params : t.params ≡ s.params
  pub left : rounds_left t.rnd ≡ rounds_left s.rnd
  pub oks : oks_count t.rnd ≡ oks_count s.rnd
  pub slots1 : length t.temp.kg_round1_messages ≡ length s.temp.kg_round1_messages
  pub slots2 : length t.temp.kg_round2_message1s ≡ length s.temp.kg_round2_message1s
  pub slots3 : length t.temp.kg_round2_message2s ≡ length s.temp.kg_round2_message2s

pub Evolves-refl : (s : LocalParty) → Evolves s s
Evolves-refl s = record {
  params = refl;
  left = refl;
  oks = refl;
  slots1 = refl;
  slots2 = refl;
  slots3 = refl;
}

pub attempt-Leaves {ℓ κ} :
    {A : Type κ} (P : LocalParty → Type ℓ) (p : LocalParty) (culprits : List PartyId) (r : Result A)
    (next : A → Step LocalParty)
    → P p
    → ((a : A) → r ≡ ok a → Leaves P (next a))
    → Leaves P (attempt p culprits r next)
unfolding attempt
attempt-Leaves P p culprits (ok a) next h k = k a refl
attempt-Leaves P p culprits (err e) next h k = h
attempt-Leaves P p culprits panic next h k = tt

pub if-Leaves {ℓ} :
    (P : LocalParty → Type ℓ) (b : Bool) (x y : Step LocalParty)
    → Leaves P x
    → Leaves P y
    → Leaves P (if b then x else y)
if-Leaves P true x y l m = l
if-Leaves P false x y l m = m

pub put-length {ℓ} :
    {A : Type ℓ} (xs : List A) (i : ℕ) (v : A) {ys : List A}
    → put xs i v ≡ ok ys
    → length ys ≡ length xs
put-length [] i v h = absurd (cc)
put-length (x ∷ xs) zero v h = ground (arith)
put-length (x ∷ xs) (suc i) v h =
    let (zs, e, f) = >>=-eq-ok (put xs i v) (λ ys. ok (x ∷ ys)) h in
    ground (arith, put-length xs i v e)

pub send_shares-length :
    (me : PartyId) (i j : ℕ) (ps : List PartyId) (shares : List Share) (kept : List (Option Msg))
    (out : List Msg) {sent : List (Option Msg) × List Msg}
    → send_shares me i j ps shares (kept, out) ≡ ok sent
    → length sent.0 ≡ length kept
unfolding send_shares
send_shares-length me i j [] shares kept out h = ground (arith)
send_shares-length me i j (pj ∷ ps) [] kept out h = absurd (cc)
send_shares-length me i j (pj ∷ ps) (share ∷ shares) kept out h =
    let (kept', e, f) = >>=-eq-ok (put kept i _) _ h in
    ground (arith, send_shares-length me i (j + 1) ps shares kept' _ f, put-length kept i _ e)

write_slot-Leaves :
    (p : LocalParty) (into : List (Option Msg) → TempData) (r : Result (List (Option Msg)))
    → ((msgs : List (Option Msg)) → r ≡ ok msgs → Evolves p (record p { temp = into msgs }))
    → Leaves (Evolves p) (write_slot p into r)
unfolding write_slot
write_slot-Leaves p into (ok msgs) k = k msgs refl
write_slot-Leaves p into (err e) k = tt
write_slot-Leaves p into panic k = tt

module _ (p : LocalParty) where
  temp-Evolves :
      (t : TempData)
      → length t.kg_round1_messages ≡ length p.temp.kg_round1_messages
      → length t.kg_round2_message1s ≡ length p.temp.kg_round2_message1s
      → length t.kg_round2_message2s ≡ length p.temp.kg_round2_message2s
      → Evolves p (record p { temp = t })
  temp-Evolves t e1 e2 e3 = record {
    params = refl;
    left = refl;
    oks = refl;
    slots1 = e1;
    slots2 = e2;
    slots3 = e3;
  }

  store_content-Leaves :
      (msg : Msg) (c : Option Content) (i : ℕ) → Leaves (Evolves p) (store_content p msg c i)
  unfolding store_content
  store_content-Leaves msg none i = Evolves-refl p
  store_content-Leaves msg (some (kg_round1_message c)) i =
      write_slot-Leaves p (λ m. record p.temp { kg_round1_messages = m })
        (put p.temp.kg_round1_messages i (some msg))
        (λ msgs e. temp-Evolves _ (put-length p.temp.kg_round1_messages i _ e) refl refl)
  store_content-Leaves msg (some (kg_round2_message1 s)) i =
      write_slot-Leaves p (λ m. record p.temp { kg_round2_message1s = m })
        (put p.temp.kg_round2_message1s i (some msg))
        (λ msgs e. temp-Evolves _ refl (put-length p.temp.kg_round2_message1s i _ e) refl)
  store_content-Leaves msg (some (kg_round2_message2 d x y t)) i =
      write_slot-Leaves p (λ m. record p.temp { kg_round2_message2s = m })
        (put p.temp.kg_round2_message2s i (some msg))
        (λ msgs e. temp-Evolves _ refl refl (put-length p.temp.kg_round2_message2s i _ e))
  store_content-Leaves msg (some (other v)) i = Evolves-refl p

store_at-Leaves :
    (p : LocalParty) (msg : Msg) (r : Result ℕ) → Leaves (Evolves p) (store_at p msg r)
unfolding store_at
store_at-Leaves p msg (ok i) = store_content-Leaves p msg msg.content i
store_at-Leaves p msg (err e) = tt
store_at-Leaves p msg panic = tt

store_checked-Leaves :
    (p : LocalParty) (msg : Msg) (v : Option Error) → Leaves (Evolves p) (store_checked p msg v)
unfolding store_checked
store_checked-Leaves p msg (some e) = Evolves-refl p
store_checked-Leaves p msg none = store_at-Leaves p msg _

pub store_message-Evolves : (p : LocalParty) (msg : Msg) → Leaves (Evolves p) (store_message p msg)
unfolding store_message
store_message-Evolves p msg = store_checked-Leaves p msg _

update_oks1-length :
    (msgs : List (Option Msg)) (oks : List Bool) {res : List Bool × Bool}
    → update_oks1 msgs oks ≡ ok res
    → length res.0 ≡ length oks
unfolding update_oks1 mark
update_oks1-length [] oks h = ground (arith)
update_oks1-length (msg ∷ msgs) [] h = absurd (cc)
update_oks1-length (msg ∷ msgs) (b ∷ oks) h = elim (Bool-cases (b || is_ready round1 msg)) [
  | inl y ↦
      let h' : mark true (update_oks1 msgs oks) ≡ ok _ = rw y at h in
      let ((oks', t), e, f) = >>=-eq-ok (update_oks1 msgs oks) _ h' in
      ground (arith, update_oks1-length msgs oks e)
  | inr n ↦ let h' : ok (b ∷ oks, false) ≡ ok _ = rw n at h in ground (arith)
]

update_oks2-length :
    (msgs msgs2 : List (Option Msg)) (oks : List Bool) {res : List Bool × Bool}
    → update_oks2 msgs msgs2 oks ≡ ok res
    → length res.0 ≡ length oks
unfolding update_oks2 mark
update_oks2-length [] msgs2 oks h = ground (arith)
update_oks2-length (msg ∷ msgs) msgs2 [] h = absurd (cc)
update_oks2-length (msg ∷ msgs) msgs2 (true ∷ oks) h =
    let ((oks', t), e, f) = >>=-eq-ok (update_oks2 msgs (tail_of msgs2) oks) _ h in
    ground (arith, update_oks2-length msgs (tail_of msgs2) oks e)
update_oks2-length (msg ∷ msgs) msgs2 (false ∷ oks) h =
    let (ready, e, f) = >>=-eq-ok (are_ready msg msgs2) _ h in
    elim (Bool-cases ready) [
      | inl y ↦
          let f' : mark true (update_oks2 msgs (tail_of msgs2) oks) ≡ ok _ = rw y at f in
          let ((oks', t), e', g) = >>=-eq-ok (update_oks2 msgs (tail_of msgs2) oks) _ f' in
          ground (arith, update_oks2-length msgs (tail_of msgs2) oks e')
      | inr n ↦ let f' : ok (false ∷ oks, false) ≡ ok _ = rw n at f in ground (arith)
    ]

finish_update-Evolves :
    (p : LocalParty) (r : Round) (res : Result (List Bool × Bool))
    → p.rnd ≡ some r
    → ((out : List Bool × Bool) → res ≡ ok out → length out.0 ≡ length r.oks)
    → Leaves (Evolves p) (finish_update p r res)
unfolding finish_update
finish_update-Evolves p r (ok (oks, b)) e k = record {
  params = refl;
  left = ap rounds_left (sym e);
  oks = k _ refl ∙ ap oks_count (sym e);
  slots1 = refl;
  slots2 = refl;
  slots3 = refl;
}
finish_update-Evolves p r (err x) e k = Evolves-refl p
finish_update-Evolves p r panic e k = tt

update_kind-Evolves :
    (p : LocalParty) (k : Kind) (r : Round)
    → p.rnd ≡ some r
    → Leaves (Evolves p) (update_kind k p r)
unfolding update_kind
update_kind-Evolves p round1 r e =
    finish_update-Evolves p r _ e (λ _. update_oks1-length p.temp.kg_round1_messages r.oks)
update_kind-Evolves p round2 r e =
    finish_update-Evolves p r _ e
      (λ _. update_oks2-length p.temp.kg_round2_message1s p.temp.kg_round2_message2s r.oks)
update_kind-Evolves p round3 r e = Evolves-refl p

update_set-Evolves :
    (p : LocalParty) (o : Option Round) → p.rnd ≡ o → Leaves (Evolves p) (update_set o p)
unfolding update_set
update_set-Evolves p none e = tt
update_set-Evolves p (some r) e = update_kind-Evolves p r.kind r e

pub update_round-Evolves : (p : LocalParty) → Leaves (Evolves p) (update_round p)
unfolding update_round
update_round-Evolves p = update_set-Evolves p p.rnd refl
