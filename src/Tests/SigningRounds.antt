-- ===== src/Tests/SigningRounds.antt =====
-- A signing party of two over the group of order 5, with scalars modulo 5 and a verifier
-- that tests one equation modulo 5.
use mpc_lib.Prelude.{
  ◌-ℤ◌, all, ℕ, ◌+◌, ◌*◌, ◌%◌, ◌^◌, ◌<◌, pos, true, false, none, some, List, [], ◌∷◌, ◌++◌, ◌==◌,
  bytes, set_bytes, length, ◌≤◌, length-bytes, ◌≡◌, ◌≢◌, refl, arith,
}
use native.Mathlib.Nat.{mod-lt}
use mpc_lib.Prelude.Result.{ok}
use mpc_lib.Tss.PartyId.{PartyId}
use mpc_lib.Tss.Rounds.{after_call}
use mpc_lib.Tss.Params.{Parameters}
use mpc_lib.Tss.Party.{done}
use mpc_lib.Tss.Party.Rules.{LeavesSome}
use mpc_lib.Eddsa.Keygen.State.{SaveData}
use mpc_lib.Eddsa.Signing.Encoding.{
  big_int_to_encoded_bytes, encoded_bytes_to_big_int,
  encoded_bytes_to_big_int-big_int_to_encoded_bytes,
}
use mpc_lib.Eddsa.Signing.Edwards.{Edwards25519}
use mpc_lib.Eddsa.Signing.Messages.{
  Msg, validate_basic, new_sign_round1_message, new_sign_round3_message,
}
use mpc_lib.Eddsa.Signing.State.{
  LocalParty, SignatureData, Round, round3, finalization, empty_temp_data, begin,
}
use mpc_lib.Eddsa.Signing.Rounds.{Randomness, is_ready, or_nil_panic}
use mpc_lib.Eddsa.Signing.LocalParty.{
  update, start_round, validate_message, store_message, is_set, update_round, can_proceed, advance,
}
use mpc_lib.Eddsa.Signing.Verified.{IsVerified}
use mpc_lib.Eddsa.Signing.Progress.{
  IsSized, sign_update-ne-none, sign_update-IsSized, sign_update-HandsOutVerified,
}
use mpc_lib.Eddsa.Signing.Completion.{sign_update_signs}
use mpc_lib.Eddsa.Signing.Advance.{sign_update_proceeds}
use mpc_lib.Eddsa.Signing.Finalize.{add_parts, start_finalization}
use mpc_lib.Eddsa.Signing.Equation.{
  HasScalars, Contribution, total, messages, senders, add_parts_lem,
}
use mpc_lib.Tests.Toy.{sum, curve}

abbrev alice : PartyId
alice = record { id = "1"; moniker = "A"; key = some (1 ∷ []); index = pos 0 }

abbrev bob : PartyId
bob = record { id = "2"; moniker = "B"; key = some (2 ∷ []); index = pos 1 }

abbrev mul_add5 : List ℕ → List ℕ → List ℕ → List ℕ
mul_add5 a b c = big_int_to_encoded_bytes (
    some
      ((encoded_bytes_to_big_int a * encoded_bytes_to_big_int b + encoded_bytes_to_big_int c) % 5))

abbrev ed : Edwards25519
ed = record {
  FieldElement = ℕ;
  CachedGroupElement = ℕ;
  CompletedGroupElement = ℕ;
  fe_from_bytes = encoded_bytes_to_big_int;
  fe_is_negative = λ f. false;
  fe_mul = λ f g. f * g;
  ge_scalar_mult_base = λ s. record { x = 0; y = 1; z = 1; t = 0 };
  ge_add = λ p c. c;
  to_cached = λ p. p.x;
  to_extended = λ c. record { x = c; y = 1; z = 1; t = 0 };
  to_bytes = λ p. big_int_to_encoded_bytes (some p.x);
  sc_reduce = λ s. s;
  sc_mul_add = mul_add5;
  sha512 = λ input. big_int_to_encoded_bytes (some 3);
  verify = λ key m r s. s == (r + set_bytes m) % 5;
}

scalars5 : HasScalars ed 5
scalars5 = record {
  order_pos = omega arith;
  order_small = omega arith;
  mul_add = λ a b c. encoded_bytes_to_big_int-big_int_to_encoded_bytes _ (
      length-bytes _ 32 (
        omega (
          arith,
          mod-lt
              (encoded_bytes_to_big_int a * encoded_bytes_to_big_int b + encoded_bytes_to_big_int c)
              five_pos,
        )));
}
  where
    five_pos : 0 < 5
    five_pos = omega arith

abbrev params : Parameters
params = record {
  ec = curve;
  parties = alice ∷ bob ∷ [];
  party_id = alice;
  party_count = 2;
  threshold = 1;
  no_proof_mod = false;
  no_proof_fac = false;
}

abbrev keys : SaveData
keys = record {
  xi = some (pos 2);
  share_id = some 1;
  ks = 1 ∷ 2 ∷ [];
  big_xj = [];
  eddsa_pub = some (record { curve = curve; coords = curve.g });
}

abbrev fresh : LocalParty
fresh = record {
  params = params;
  keys = keys;
  temp = empty_temp_data (pos 77) 2;
  signature_data = record { signature = []; r = []; s = []; m = [] };
  rnd = none;
  out = [];
  end = [];
}

abbrev rand : Randomness
rand = record { ri = pos 3; commit_r = pos 4; schnorr_a = pos 2; z = λ j. pos 1 }

abbrev from_bob : Msg
from_bob = new_sign_round1_message bob 7

sign_update-ne-none_example : update sum (pos 2) ed rand fresh from_bob ≢ none
sign_update-ne-none_example = sign_update-ne-none sum (pos 2) ed rand fresh from_bob

fresh-IsSized : IsSized fresh
fresh-IsSized = record {
  slots1 = refl;
  slots2 = refl;
  slots3 = refl;
  oks = λ lt. absurd (omega arith);
}

sign_update-IsSized_example : LeavesSome IsSized (update sum (pos 2) ed rand fresh from_bob)
sign_update-IsSized_example = sign_update-IsSized sum (pos 2) ed rand fresh from_bob fresh-IsSized

-- Alice at the end of round 3, who waits for Bob's part and has handed out a signature before.
abbrev part_of_bob : Msg
part_of_bob = new_sign_round3_message bob 2

abbrev earlier : SignatureData
earlier = record {
  signature = big_int_to_encoded_bytes (some 9) ++ big_int_to_encoded_bytes (some 1);
  r = 9 ∷ [];
  s = 1 ∷ [];
  m = 77 ∷ [];
}

abbrev waiting : Round
waiting = record { kind = round3; oks = true ∷ false ∷ []; started = true; number = 3 }

abbrev in_third : LocalParty
in_third = record fresh {
  rnd = some waiting;
  temp = record fresh.temp {
    sign_round3_messages = some (new_sign_round3_message alice 4) ∷ none ∷ [];
    si = some (big_int_to_encoded_bytes (some 4));
    r = some 4;
  };
  end = earlier ∷ [];
}

abbrev made : SignatureData
made = record {
  signature = big_int_to_encoded_bytes (some 4) ++ big_int_to_encoded_bytes (some 1);
  r = 4 ∷ [];
  s = 1 ∷ [];
  m = 77 ∷ [];
}

-- The same with Bob's part, and then with the signature that is made of both and no round.
abbrev summing : LocalParty
summing = record in_third {
  temp = record in_third.temp {
    sign_round3_messages = some (new_sign_round3_message alice 4) ∷ some part_of_bob ∷ [];
  };
}

abbrev signed : LocalParty
signed = record summing { rnd = none; signature_data = made; end = made ∷ earlier ∷ [] }

earlier-IsVerified : IsVerified ed in_third earlier
unfolding set_bytes bytes encoded_bytes_to_big_int big_int_to_encoded_bytes
earlier-IsVerified = record {
  key = record { curve = curve; coords = curve.g };
  saved = refl;
  message = refl;
  sum_s = big_int_to_encoded_bytes (some 1);
  encoded = refl;
  summed = refl;
  accepted = refl;
}

sign_update-HandsOutVerified_example :
    IsVerified ed signed made × (IsVerified ed signed earlier × Unit {0})
unfolding update bytes set_bytes encoded_bytes_to_big_int big_int_to_encoded_bytes
    new_sign_round3_message validate_basic ◌-ℤ◌ validate_message store_message after_call is_set
    update_round can_proceed advance start_round begin or_nil_panic
sign_update-HandsOutVerified_example =
    sign_update-HandsOutVerified sum (pos 2) ed rand in_third part_of_bob (earlier-IsVerified, tt)

abbrev contributions : List Contribution
contributions = record { from = alice; wi = 2; ri = 3 } ∷ record { from = bob; wi = 4; ri = 1 } ∷ []

add_parts_lem_example :
    (s : List ℕ) × (add_parts ed 0 0
        (big_int_to_encoded_bytes (some 4))
        (senders ed 5 scalars5 (7 ∷ []) contributions)
        (messages ed 5 scalars5 (7 ∷ []) contributions)
      ≡ ok s)
    × (encoded_bytes_to_big_int s % 5
        ≡ (encoded_bytes_to_big_int (big_int_to_encoded_bytes (some 4))
            + total ed 5 scalars5 (7 ∷ []) 0 0 contributions)
          % 5)
add_parts_lem_example =
    add_parts_lem ed 5 scalars5 (7 ∷ []) 0 0 (big_int_to_encoded_bytes (some 4)) contributions (
      (short 2 (omega arith), short 3 (omega arith)),
      ((short 4 (omega arith), short 1 (omega arith)), tt),
    )
  where
    short : (n : ℕ) → n < 256 ^ 32 → length (bytes n) ≤ 32
    short n h = length-bytes n 32 h

-- Alice when the start of the last round has made the signature.
abbrev finalized : LocalParty
finalized = record signed {
  rnd = some (record { kind = finalization; oks = true ∷ true ∷ []; started = true; number = 4 });
}

sign_update_proceeds_example :
    (all (λ b. b) (true ∷ true ∷ []) ≡ true)
    × (update sum (pos 2) ed rand in_third part_of_bob
        ≡ update sum (pos 2) ed rand finalized part_of_bob)
unfolding validate_message store_message new_sign_round3_message ◌-ℤ◌ validate_basic bytes set_bytes
    after_call is_ready encoded_bytes_to_big_int big_int_to_encoded_bytes or_nil_panic begin
    start_finalization
sign_update_proceeds_example =
    sign_update_proceeds sum (pos 2) ed rand in_third summing part_of_bob waiting refl refl refl
      (λ e. cc) refl

sign_update_signs_example :
    update sum (pos 2) ed rand in_third part_of_bob ≡ some (done signed true)
unfolding store_message validate_message new_sign_round3_message ◌-ℤ◌ validate_basic bytes set_bytes
    after_call is_ready encoded_bytes_to_big_int big_int_to_encoded_bytes add_parts
sign_update_signs_example =
    sign_update_signs sum (pos 2) ed rand in_third summing part_of_bob (true ∷ false ∷ []) 3 0 4
      (big_int_to_encoded_bytes (some 4)) (big_int_to_encoded_bytes (some 1))
      (record { curve = curve; coords = curve.g }) refl refl refl refl refl refl refl refl refl refl
