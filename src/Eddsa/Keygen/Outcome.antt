-- ===== src/Eddsa/Keygen/Outcome.antt =====
-- What a key generation that ends has checked, and when it hands out its data.
use Prim.Native.String.{String}
use mpc_lib.Prelude.{
  ℕ, ◌+◌, ℤ, pos, negsuc, Bool, true, false, Option, some, List, [], ◌∷◌, ◌==◌, ◌≡◌, ◌≢◌, refl,
  arith, if◌then◌else◌,
}
use mpc_lib.Prelude.Result.{Result, ok, err, panic, to_index, >>=-eq-ok}
use mpc_lib.Crypto.Point.{EcPoint}
use mpc_lib.Tss.PartyId.{PartyId}
use mpc_lib.Tss.Message.{Error}
use mpc_lib.Tss.Party.{Step, done, failed, crashed}
use mpc_lib.Eddsa.Keygen.State.{Round, LocalParty, attempt}
use mpc_lib.Eddsa.Keygen.Round3.{
  Checked, own, good, bad, as_checked, verify_party, opened_points, proves_first, shares_agree,
  verify_parties, culprits_in, is_empty, check_and_add, finish_keygen, start_round3, unevaluated,
}

-- The check of every party from place j on, but the one at place i, succeeds.
abbrev pub AreChecked : (ℕ → Result (List EcPoint)) → ℕ → ℕ → List PartyId → Type 0
AreChecked check i j [] = Unit
AreChecked check i j (pj ∷ ps) =
    (j ≢ i → (vs : List EcPoint) × (check j ≡ ok vs)) × AreChecked check i (j + 1) ps

-- A result of round 3: its data is handed out exactly if it ends without an error, and then the checks
-- of the other parties have succeeded.
abbrev pub IsOutcome : (ℕ → Result (List EcPoint)) → LocalParty → Step LocalParty → Type 0
IsOutcome check p (done q b) =
    (i : ℕ) × (key : EcPoint) × (p.params.party_id.index ≡ pos i)
    × AreChecked check i 0 p.params.parties
    × (q.save.eddsa_pub ≡ some key)
    × (q.end ≡ q.save ∷ p.end)
IsOutcome check p (failed q e) = (q.end ≡ p.end) × (q.save.eddsa_pub ≡ p.save.eddsa_pub)
IsOutcome check p crashed = Unit

attempt_elim {ℓ κ} :
    {A : Type κ} (Q : Step LocalParty → Type ℓ) (p : LocalParty) (culprits : List PartyId)
    (r : Result A) (next : A → Step LocalParty)
    → ((e : Error) → Q (failed p e))
    → Q crashed
    → ((a : A) → r ≡ ok a → Q (next a))
    → Q (attempt p culprits r next)
unfolding attempt
attempt_elim Q p culprits (ok a) next f c k = k a refl
attempt_elim Q p culprits (err e) next f c k = f _
attempt_elim Q p culprits panic next f c k = c

if_elim {ℓ} :
    (Q : Step LocalParty → Type ℓ) (b : Bool) (x y : Step LocalParty)
    → (b ≡ true → Q x)
    → Q y
    → Q (if b then x else y)
if_elim Q true x y l m = l refl
if_elim Q false x y l m = m

module _ (sum : List ℕ → List ℕ) (eight_inv : ℤ) where
  checked_good :
      (r : Result (List EcPoint)) (c : Checked)
      → as_checked r ≡ ok c
      → ((e : String) → c ≢ bad e)
      → (vs : List EcPoint) × (r ≡ ok vs)
  unfolding as_checked
  checked_good (ok vs) c h ne = (vs, refl)
  checked_good (err e) c h ne = absurd (ne e (ground (arith)))
  checked_good panic c h ne = absurd (cc)

  checked_at :
      (p : LocalParty) (i j : ℕ) (c : Checked)
      → (if j == i then ok own else as_checked (verify_party sum eight_inv p j)) ≡ ok c
      → ((e : String) → c ≢ bad e)
      → j ≢ i
      → (vs : List EcPoint) × (verify_party sum eight_inv p j ≡ ok vs)
  checked_at p i j c h ne away = checked_good _ c (ground (arith)) ne

  no_culprits :
      (pj : PartyId) (ps : List PartyId) (c : Checked) (cs : List Checked)
      → is_empty (culprits_in (pj ∷ ps) (c ∷ cs)) ≡ true
      → ((e : String) → c ≢ bad e) × (is_empty (culprits_in ps cs) ≡ true)
  unfolding culprits_in is_empty
  no_culprits pj ps own cs h = (λ e f. cc, h)
  no_culprits pj ps (good vs) cs h = (λ e f. cc, h)
  no_culprits pj ps (bad x) cs h = absurd (cc)

  checks_sound :
      (p : LocalParty) (i j : ℕ) (ps : List PartyId) (cs : List Checked)
      → verify_parties sum eight_inv p i j ps ≡ ok cs
      → is_empty (culprits_in ps cs) ≡ true
      → AreChecked (verify_party sum eight_inv p) i j ps
  unfolding verify_parties
  checks_sound p i j [] cs h e = tt
  checks_sound p i j (pj ∷ ps) cs h e =
      let (c, f, g) =
        >>=-eq-ok (if j == i then ok own else as_checked (verify_party sum eight_inv p j)) _ h in
      let (cs', f', g') = >>=-eq-ok (verify_parties sum eight_inv p i (j + 1) ps) _ g in
      let e' : is_empty (culprits_in (pj ∷ ps) (c ∷ cs')) ≡ true = ground (arith) in
      let (ne, rest) = no_culprits pj ps c cs' e' in
      (checked_at p i j c f ne, checks_sound p i (j + 1) ps cs' f' rest)

  module _ (q : LocalParty) (i : ℕ) (at : q.params.party_id.index ≡ pos i) where
    abbrev check : ℕ → Result (List EcPoint)
    check = verify_party sum eight_inv q

    finish_keygen-IsOutcome :
        (vcs : List (Option EcPoint))
        → AreChecked check i 0 q.params.parties
        → IsOutcome check q (finish_keygen q vcs)
    unfolding finish_keygen
    finish_keygen-IsOutcome vcs checks =
        attempt_elim (IsOutcome check q) q _ _ _ (λ _. (refl, refl)) tt
          (λ ps _.
            attempt_elim (IsOutcome check q) q _ _ _ (λ _. (refl, refl)) tt
              (λ big_xj _.
                let q1 : LocalParty = record q { save = record q.save { big_xj = big_xj } } in
                if_elim (IsOutcome check q) (is_empty (unevaluated ps big_xj)) _ _
                  (λ _.
                    attempt_elim (IsOutcome check q) q1 _ _ _ (λ _. (refl, refl)) tt
                      (λ key _. (i, key, at, checks, refl, refl)))
                  (refl, refl)))

    check_and_add-IsOutcome : IsOutcome check q (check_and_add sum eight_inv q i)
    unfolding check_and_add
    check_and_add-IsOutcome =
        attempt_elim (IsOutcome check q) q _ _ _ (λ _. (refl, refl)) tt
          (λ vcs _.
            attempt_elim (IsOutcome check q) q _ _ _ (λ _. (refl, refl)) tt
              (λ checked e.
                if_elim (IsOutcome check q) (is_empty (culprits_in q.params.parties checked)) _ _
                  (λ none_bad.
                    attempt_elim (IsOutcome check q) q _ _ _ (λ _. (refl, refl)) tt
                      (λ (sums, culprits) _.
                        if_elim (IsOutcome check q) (is_empty culprits) _ _
                          (λ _.
                            finish_keygen-IsOutcome sums
                              (checks_sound q i 0 q.params.parties checked e none_bad))
                          (refl, refl)))
                  (refl, refl)))

  to_index-eq-ok : (z : ℤ) (i : ℕ) → to_index z ≡ ok i → z ≡ pos i
  to_index-eq-ok (pos n) i h = ground (arith)
  to_index-eq-ok (negsuc n) i h = absurd (cc)

  -- Round 3 of a key generation, in whichever way it returns: it hands out data to `end` exactly if it
  -- ends without an error, and what it hands out is then its saved data with a public key, and the
  -- check of every other party has succeeded: of its opening, its proof and its share. With an error,
  -- `end` and the saved public key are as before.
  pub start_round3_lem :
      (p : LocalParty) (r : Round)
      → IsOutcome (verify_party sum eight_inv p) p (start_round3 sum eight_inv p r)
  unfolding start_round3 verify_party opened_points proves_first shares_agree
  start_round3_lem p r =
      attempt_elim (IsOutcome (verify_party sum eight_inv p) p) _ _ _ _ (λ _. (refl, refl)) tt
        (λ i e.
          attempt_elim (IsOutcome (verify_party sum eight_inv p) p) _ _ _ _ (λ _. (refl, refl)) tt
            (λ own_share _.
              attempt_elim (IsOutcome (verify_party sum eight_inv p) p) _ _ _ _ (λ _. (refl, refl))
                tt (λ xi _. check_and_add-IsOutcome _ i (to_index-eq-ok _ i e))))
