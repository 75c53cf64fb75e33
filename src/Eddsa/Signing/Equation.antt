-- ===== src/Eddsa/Signing/Equation.antt =====
-- The last round adds up the parts of the signature, and what the sum of the parts is.
use mpc_lib.Prelude.{
  ℕ, ◌+◌, ◌*◌, ◌%◌, ◌^◌, ◌<◌, ◌≤◌, pos, Option, some, List, [], ◌∷◌, length, bytes, set_bytes-bytes,
  length-bytes, Bool-cases, inl, inr, ◌==◌, ◌≡◌, refl, ap, ◌∙◌, arith, if◌then◌else◌,
}
use mpc_lib.Prelude.Result.{ok}
use native.Mathlib.Nat.{mod-lt, mod-add-mod, add-mod-mod}
use mpc_lib.Tss.PartyId.{PartyId}
use mpc_lib.Tss.Message.{new_message_wrapper}
use mpc_lib.Eddsa.Signing.Encoding.{
  big_int_to_encoded_bytes, encoded_bytes_to_big_int,
  encoded_bytes_to_big_int-big_int_to_encoded_bytes,
}
use mpc_lib.Eddsa.Signing.Edwards.{Edwards25519, encode}
use mpc_lib.Eddsa.Signing.Messages.{Msg, new_sign_round3_message, broadcast}
use mpc_lib.Eddsa.Signing.Round3.{part_of_signature}
use mpc_lib.Eddsa.Signing.Finalize.{part_of, part_in, add_parts}

-- What the package says of its scalars: `ScMulAdd` gives ab + c modulo the order, which is below
-- 2^256.
pub record HasScalars (ed : Edwards25519) (order : ℕ) : Type 0 where
  pub order_pos : 0 < order
  pub order_small : order ≤ 256 ^ 32
  pub mul_add :
      (a b c : List ℕ)
      → encoded_bytes_to_big_int (ed.sc_mul_add a b c)
        ≡ (encoded_bytes_to_big_int a * encoded_bytes_to_big_int b + encoded_bytes_to_big_int c)
          % order

-- An additive share of the key and the nonce of a party.
pub record Contribution : Type 0 where
  pub from : PartyId
  pub wi : ℕ
  pub ri : ℕ

module _ (ed : Edwards25519) (order : ℕ) (scalars : HasScalars ed order) (input : List ℕ) where
  abbrev value : List ℕ → ℕ
  value = encoded_bytes_to_big_int

  -- The reduced hash, which all parties share.
  abbrev pub lambda : ℕ
  lambda = value (ed.sc_reduce (ed.sha512 input))

  -- The bytes that a party makes in round 3, and the message that carries them.
  abbrev pub part : Contribution → List ℕ
  part c = part_of_signature ed (encode (pos c.ri)) (pos c.wi) input

  abbrev pub part_message : Contribution → Option Msg
  part_message c = some (new_sign_round3_message c.from (value (part c)))

  -- Both numbers fit into 32 bytes.
  abbrev pub IsShort : Contribution → Type 0
  IsShort c = (length (bytes c.wi) ≤ 32) × (length (bytes c.ri) ≤ 32)

  part-value : (c : Contribution) → IsShort c → value (part c) ≡ (lambda * c.wi + c.ri) % order
  unfolding part_of_signature
  part-value c (w, r) =
      rw
        (
          scalars.mul_add (ed.sc_reduce (ed.sha512 input)) (encode (pos c.wi)) (encode (pos c.ri)),
          encoded_bytes_to_big_int-big_int_to_encoded_bytes c.wi w,
          encoded_bytes_to_big_int-big_int_to_encoded_bytes c.ri r,
        )
        refl

  part_of-message : (c : Contribution) → part_of (part_message c) ≡ ok (value (part c))
  unfolding part_of part_in new_sign_round3_message broadcast new_message_wrapper
  part_of-message c = ap ok (set_bytes-bytes (value (part c)))

  one-value : value (big_int_to_encoded_bytes (some 1)) ≡ 1
  one-value = encoded_bytes_to_big_int-big_int_to_encoded_bytes 1 (length-bytes 1 32 (omega arith))

  -- The numbers of the contributions but the one at place i, weighed by the hash.
  abbrev pub total : ℕ → ℕ → List Contribution → ℕ
  total i j [] = 0
  total i j (c ∷ cs) = (if j == i then 0 else lambda * c.wi + c.ri) + total i (j + 1) cs

  abbrev pub AreShort : List Contribution → Type 0
  AreShort [] = Unit
  AreShort (c ∷ cs) = IsShort c × AreShort cs

  abbrev pub messages : List Contribution → List (Option Msg)
  messages [] = []
  messages (c ∷ cs) = part_message c ∷ messages cs

  abbrev pub senders : List Contribution → List PartyId
  senders [] = []
  senders (c ∷ cs) = c.from ∷ senders cs

  -- One round of the loop.
  part-added :
      (c : Contribution) (sum_s : List ℕ)
      → IsShort c
      → value (
          ed.sc_mul_add sum_s
            (big_int_to_encoded_bytes (some 1))
            (big_int_to_encoded_bytes (some (value (part c)))))
        ≡ (value sum_s + (lambda * c.wi + c.ri)) % order
  part-added c sum_s short =
      let v = part-value c short in
      let lt : value (part c) < 256 ^ 32 =
        omega (arith, v, mod-lt (lambda * c.wi + c.ri) scalars.order_pos, scalars.order_small) in
      scalars.mul_add sum_s _ _
      ∙ rw
          (
            one-value,
            encoded_bytes_to_big_int-big_int_to_encoded_bytes (value (part c))
                (length-bytes (value (part c)) 32 lt),
            v,
          )
          (ap (λ (t : ℕ). (t + (lambda * c.wi + c.ri) % order) % order) (omega arith)
            ∙ add-mod-mod (value sum_s) (lambda * c.wi + c.ri) order)

  -- The loop of the last round over the messages of parties that made their parts in round 3 from
  -- numbers of at most 32 bytes: it succeeds, and its sum is, modulo the order, that of the start
  -- and of the hash times the additive share plus the nonce of each party but the own one.
  pub add_parts_lem :
      (i j : ℕ) (sum_s : List ℕ) (cs : List Contribution)
      → AreShort cs
      → (s : List ℕ) × (add_parts ed i j sum_s (senders cs) (messages cs) ≡ ok s)
        × (value s % order ≡ (value sum_s + total i j cs) % order)
  unfolding add_parts
  add_parts_lem i j sum_s [] short = (sum_s, refl, ap (λ (t : ℕ). t % order) (omega arith))
  add_parts_lem i j sum_s (c ∷ cs) (first, short) = elim (Bool-cases (j == i)) [
    | inl own ↦
        let (s, e, f) = add_parts_lem i (j + 1) sum_s cs short in
        (s, rw own e, f ∙ rw own (ap (λ (t : ℕ). t % order) (omega arith)))
    | inr other ↦
        let next =
          ed.sc_mul_add sum_s (big_int_to_encoded_bytes (some 1))
            (big_int_to_encoded_bytes (some (value (part c)))) in
        let (s, e, f) = add_parts_lem i (j + 1) next cs short in
        (
          s,
          rw (other, part_of-message c) e,
          f
              ∙ rw (other, part-added c sum_s first)
                  (mod-add-mod (value sum_s + (lambda * c.wi + c.ri)) order (total i (j + 1) cs)
                    ∙ ap (λ (t : ℕ). t % order) (omega arith)),
        )
  ]
