-- ===== src/Eddsa/Keygen/Storage.antt =====
-- What `StoreMessage` does with a message.

use mpc_lib.Prelude.{
  ℕ, zero, suc, ◌<◌, Bool, true, false, Option, none, some, List, [], ◌∷◌, length, ◌≡◌, ◌≢◌, refl,
  arith, ap, ◌∙◌,
}
use mpc_lib.Prelude.Result.{ok, put, nth, to_index, >>=-eq-ok}
use mpc_lib.Tss.Message.{Error}
use mpc_lib.Tss.Party.{done, crashed}
use mpc_lib.Eddsa.Keygen.Messages.{
  Content, kg_round1_message, kg_round2_message1, kg_round2_message2, other, Msg,
}
use mpc_lib.Eddsa.Keygen.State.{LocalParty}
use mpc_lib.Eddsa.Keygen.LocalParty.{
  write_slot, store_content, store_at, store_checked, validate_message, store_message, from_index,
}
use mpc_lib.Eddsa.Keygen.Progress.{IsSized}
use mpc_lib.Eddsa.Keygen.Validation.{IsValid, validate_message_iff}

put-eq-ok {ℓ} :
    {A : Type ℓ} (xs : List A) (i : ℕ) (v : A)
    → i < length xs
    → (ys : List A) × (put xs i v ≡ ok ys)
put-eq-ok [] i v lt = absurd (omega arith)
put-eq-ok (x ∷ xs) zero v lt = (v ∷ xs, refl)
put-eq-ok (x ∷ xs) (suc i) v lt =
    let (ys, e) = put-eq-ok xs i v (omega arith) in (x ∷ ys, ground (arith))

-- The place i holds the value v, and every other one what it held.
abbrev pub IsPut {ℓ} : {A : Type ℓ} → List A → ℕ → A → List A → Type ℓ
IsPut xs i v ys = (nth ys i ≡ ok v) × ((j : ℕ) → j ≢ i → nth ys j ≡ nth xs j)

put-IsPut {ℓ} :
    {A : Type ℓ} (xs : List A) (i : ℕ) (v : A) (ys : List A) → put xs i v ≡ ok ys → IsPut xs i v ys
put-IsPut [] i v ys e = absurd (cc)
put-IsPut (x ∷ xs) zero v [] e = absurd (cc)
put-IsPut (x ∷ xs) zero v (y ∷ ys) e = (ground (arith), others)
  where
    others : (j : ℕ) → j ≢ 0 → nth (y ∷ ys) j ≡ nth (x ∷ xs) j
    others zero ne = absurd (ne refl)
    others (suc j) ne = ground (arith)
put-IsPut (x ∷ xs) (suc i) v [] e =
    let (zs, f, g) = >>=-eq-ok (put xs i v) (λ ys. ok (x ∷ ys)) e in absurd (cc (g))
put-IsPut (x ∷ xs) (suc i) v (y ∷ ys) e =
    let (zs, f, g) = >>=-eq-ok (put xs i v) (λ ys. ok (x ∷ ys)) e in
    let (at, kept) = put-IsPut xs i v ys (ground (arith)) in (at, others kept)
  where
    others :
        ((j : ℕ) → j ≢ i → nth ys j ≡ nth xs j)
        → (j : ℕ) → j ≢ suc i
        → nth (y ∷ ys) j ≡ nth (x ∷ xs) j
    others kept zero ne = ground (arith)
    others kept (suc j) ne = kept j (λ q. ne (ap suc q))

-- The slot that a message of the content belongs to holds it afterwards, and nothing else changes; a
-- content of another protocol changes nothing.
abbrev pub IsStored : LocalParty → Msg → ℕ → Content → LocalParty → Bool → Type 0
IsStored p msg i (kg_round1_message c) q b =
    (b ≡ true)
    × IsPut p.temp.kg_round1_messages i (some msg) q.temp.kg_round1_messages
    × (q ≡ record p { temp = record p.temp { kg_round1_messages = q.temp.kg_round1_messages } })
IsStored p msg i (kg_round2_message1 s) q b =
    (b ≡ true)
    × IsPut p.temp.kg_round2_message1s i (some msg) q.temp.kg_round2_message1s
    × (q ≡ record p { temp = record p.temp { kg_round2_message1s = q.temp.kg_round2_message1s } })
IsStored p msg i (kg_round2_message2 d x y t) q b =
    (b ≡ true)
    × IsPut p.temp.kg_round2_message2s i (some msg) q.temp.kg_round2_message2s
    × (q ≡ record p { temp = record p.temp { kg_round2_message2s = q.temp.kg_round2_message2s } })
IsStored p msg i (other v) q b = (b ≡ false) × (q ≡ p)

store_content_lem :
    (p : LocalParty) (msg : Msg) (c : Content) (i : ℕ)
    → IsSized p
    → i < p.params.party_count
    → (q : LocalParty) × (b : Bool) × (store_content p msg (some c) i ≡ done q b)
      × IsStored p msg i c q b
unfolding store_content write_slot
store_content_lem p msg (kg_round1_message c) i sized lt =
    let (ys, e) = put-eq-ok p.temp.kg_round1_messages i (some msg) (omega (arith, sized.slots1)) in
    (
      record p { temp = record p.temp { kg_round1_messages = ys } },
      true,
      ap (write_slot p _) e,
      (refl, put-IsPut _ i _ ys e, refl),
    )
store_content_lem p msg (kg_round2_message1 s) i sized lt =
    let (ys, e) = put-eq-ok p.temp.kg_round2_message1s i (some msg) (omega (arith, sized.slots2)) in
    (
      record p { temp = record p.temp { kg_round2_message1s = ys } },
      true,
      ap (write_slot p _) e,
      (refl, put-IsPut _ i _ ys e, refl),
    )
store_content_lem p msg (kg_round2_message2 d x y t) i sized lt =
    let (ys, e) = put-eq-ok p.temp.kg_round2_message2s i (some msg) (omega (arith, sized.slots3)) in
    (
      record p { temp = record p.temp { kg_round2_message2s = ys } },
      true,
      ap (write_slot p _) e,
      (refl, put-IsPut _ i _ ys e, refl),
    )
store_content_lem p msg (other v) i sized lt = (p, false, refl, (refl, refl))

-- `StoreMessage` on a message that is accepted, where the arrays have a slot for each party, succeeds:
-- it writes the message into the slot of its sender in the array for its content and changes nothing
-- else; on a content of another protocol it returns false and changes nothing.
pub store_message_valid :
    (p : LocalParty) (msg : Msg)
    → IsSized p
    → (v : IsValid p msg)
    → (q : LocalParty) × (b : Bool) × (store_message p msg ≡ done q b)
      × IsStored p msg v.index v.content q b
unfolding store_message store_checked store_at from_index
store_message_valid p msg sized v =
    let (q, b, e, stored) = store_content_lem p msg v.content v.index sized v.in_range in
    (q, b, steps ∙ e, stored)
  where
    steps : store_message p msg ≡ store_content p msg (some v.content) v.index
    steps =
        ap (store_checked p msg) ((validate_message_iff p msg).1 v)
        ∙ ap (λ o. store_at p msg (from_index o)) v.sender
        ∙ ap (λ z. store_at p msg (to_index z)) v.at
        ∙ ap (λ c. store_content p msg c v.index) v.has_content

-- `StoreMessage` never panics where the arrays have a slot for each party.
store_message-ne-crashed : (p : LocalParty) (msg : Msg) → IsSized p → store_message p msg ≢ crashed
unfolding store_message
store_message-ne-crashed p msg sized = checked (validate_message p msg) refl
  where
    checked : (r : Option Error) → validate_message p msg ≡ r → store_message p msg ≢ crashed
    checked (some e) h crash =
        absurd (unfold store_checked in cc (crash, ap (store_checked p msg) h))
    checked none h crash =
        let (q, b, e, stored) =
          store_message_valid p msg sized ((validate_message_iff p msg).0 h) in
        cc (e, crash)
