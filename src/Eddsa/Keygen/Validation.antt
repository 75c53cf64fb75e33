-- ===== src/Eddsa/Keygen/Validation.antt =====
-- Which messages `ValidateMessage` accepts.
use Prim.Native.String.{String}
use mpc_lib.Prelude.{
  ℕ, zero, suc, ◌<◌, ℤ, pos, negsuc, ◌-ℤ◌, ltb_ℤ, Bool, true, false, not, ◌&&◌, Option, none, some,
  List, ◌+ℤ◌, ◌↔◌, ◌≡◌, refl, arith, Bool-cases, inl, inr, ap, ap₂, sym, subst, ◌∙◌,
}
use mpc_lib.Tss.PartyId
use mpc_lib.Tss.PartyId.{PartyId}
use mpc_lib.Tss.Message.{Error, get_from}
use mpc_lib.Tss.Party.{validate_content, base_validate_message}
use mpc_lib.Eddsa.Keygen.Messages.{Content, Msg, validate_basic}
use mpc_lib.Eddsa.Keygen.State.{LocalParty, wrap_error}
use mpc_lib.Eddsa.Keygen.LocalParty.{validate_index, validate_message, index_fits}

-- What a message must have to be accepted.
pub record IsValid (p : LocalParty) (msg : Msg) : Type 0 where
  pub from : PartyId
  pub index : ℕ
  pub content : Content
  pub sender : get_from msg ≡ some from
  pub has_key : PartyId.has_key from.key ≡ true
  pub at : from.index ≡ pos index
  pub in_range : index < p.params.party_count
  pub has_content : msg.content ≡ some content
  pub is_basic : validate_basic content ≡ true

content_valid :
    (wrap : String → List PartyId → Error) (o : Option PartyId) (c : Option Content)
    → validate_content wrap validate_basic o c ≡ none
    → (from : PartyId) × (content : Content) × (o ≡ some from)
      × (c ≡ some content)
      × (PartyId.validate_basic (some from) ≡ true)
      × (validate_basic content ≡ true)
unfolding validate_content PartyId.validate_basic
content_valid wrap none none h = absurd (cc)
content_valid wrap (some from) none h = absurd (cc)
content_valid wrap none (some c) h = absurd (cc)
content_valid wrap (some from) (some c) h =
    elim (Bool-cases (PartyId.has_key from.key && not (ltb_ℤ from.index (pos 0)))) [
      | inl y ↦ elim (Bool-cases (validate_basic c)) [
        | inl z ↦ (from, c, refl, refl, y, z)
        | inr n ↦ absurd (grind arith)
      ]
      | inr n ↦ absurd (grind arith)
    ]

in_range_iff : (n i : ℕ) → (not (ltb_ℤ (pos n -ℤ pos 1) (pos i)) ≡ true) ↔ (i < n)
unfolding ◌-ℤ◌ ◌+ℤ◌
in_range_iff zero i = (λ h. absurd (ground arith), λ h. absurd (omega arith))
in_range_iff (suc n) i = (λ h. ground arith, λ h. ground arith)

index_in_range :
    (n : ℕ) (z : ℤ)
    → not (ltb_ℤ z (pos 0)) ≡ true
    → not (ltb_ℤ (pos n -ℤ pos 1) z) ≡ true
    → (i : ℕ) × (z ≡ pos i) × (i < n)
index_in_range n (pos i) h k = (i, refl, (in_range_iff n i).0 k)
index_in_range n (negsuc i) h k = absurd (ground arith)

and_true : (a b : Bool) → a && b ≡ true → (a ≡ true) × (b ≡ true)
and_true true b h = (refl, h)
and_true false b h = absurd (cc)

index_valid :
    (p : LocalParty) (msg : Msg) (v : Option Error)
    → validate_index p msg v ≡ none
    → (v ≡ none) × (index_fits p.params.party_count (get_from msg) ≡ true)
unfolding validate_index
index_valid p msg (some e) h = absurd (cc)
index_valid p msg none h = elim (Bool-cases (index_fits p.params.party_count (get_from msg))) [
  | inl y ↦ (refl, y)
  | inr n ↦ absurd (ground arith)
]

content_accepted :
    (wrap : String → List PartyId → Error) (from : PartyId) (c : Content) (i : ℕ)
    → PartyId.has_key from.key ≡ true
    → from.index ≡ pos i
    → validate_basic c ≡ true
    → validate_content wrap validate_basic (some from) (some c) ≡ none
unfolding validate_content PartyId.validate_basic
content_accepted wrap from c i h e v = ground (arith)

index_accepted :
    (p : LocalParty) (msg : Msg)
    → index_fits p.params.party_count (get_from msg) ≡ true
    → validate_index p msg none ≡ none
unfolding validate_index
index_accepted p msg h = ground (arith)

index_fits_of :
    (n : ℕ) (from : PartyId) (i : ℕ) → from.index ≡ pos i → i < n → index_fits n (some from) ≡ true
unfolding index_fits
index_fits_of n from i at lt =
    subst (λ z. not (ltb_ℤ (pos n -ℤ pos 1) z) ≡ true) (sym at) ((in_range_iff n i).1 lt)

-- `ValidateMessage` accepts a message exactly if it has a content that passes its own test and a
-- sender that has a key and an index from 0 up to the number of parties, without it.
pub validate_message_iff :
    (p : LocalParty) (msg : Msg) → (validate_message p msg ≡ none) ↔ IsValid p msg
unfolding validate_message base_validate_message index_fits PartyId.validate_basic
validate_message_iff p msg = (sound, complete)
  where
    sound : validate_message p msg ≡ none → IsValid p msg
    sound h =
        let (b, fits) = index_valid p msg _ h in
        let (from, c, e, f, g, v) = content_valid (wrap_error p) (get_from msg) msg.content b in
        let (k, low) = and_true _ _ g in
        let (i, at, lt) =
          index_in_range p.params.party_count from.index low
            (subst (λ o. index_fits p.params.party_count o ≡ true) e fits) in
        record {
          from = from;
          index = i;
          content = c;
          sender = e;
          has_key = k;
          at = at;
          in_range = lt;
          has_content = f;
          is_basic = v;
        }

    complete : IsValid p msg → validate_message p msg ≡ none
    complete v =
        ap₂ (λ o c. validate_index p msg (validate_content (wrap_error p) validate_basic o c))
          v.sender v.has_content
        ∙ ap (validate_index p msg)
            (content_accepted (wrap_error p) v.from v.content v.index v.has_key v.at v.is_basic)
        ∙ index_accepted p msg (
            subst (λ o. index_fits p.params.party_count o ≡ true) (sym v.sender)
              (index_fits_of p.params.party_count v.from v.index v.at v.in_range))
