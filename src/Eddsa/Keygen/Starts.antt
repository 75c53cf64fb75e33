-- ===== src/Eddsa/Keygen/Starts.antt =====
-- The starts of the three rounds, and what no method changes.
use mpc_lib.Prelude.{
  ℕ, ℤ, false, Option, none, some, List, length, ◌≡◌, refl, ap, sym, ◌∙◌, length-replicate,
}
use mpc_lib.Tss.Party.Rules.{Leaves}
use mpc_lib.Crypto.Vss.{Share}
use mpc_lib.Crypto.Point.{EcPoint}
use mpc_lib.Eddsa.Keygen.State.{Kind, round1, round2, round3, Round, LocalParty, SaveData, begin}
use mpc_lib.Eddsa.Keygen.Rounds.{
  Randomness, start_round1, start_round2, commit_polynomial, open_commitment,
}
use mpc_lib.Eddsa.Keygen.Round3.{
  start_round3, check_and_add, finish_keygen, is_empty, unevaluated, culprits_in,
}
use mpc_lib.Eddsa.Keygen.LocalParty.{start_kind, start_set, start_round}
use mpc_lib.Eddsa.Keygen.Evolution.{
  Evolves, Evolves-refl, rounds_left, oks_count, put-length, send_shares-length, attempt-Leaves,
  if-Leaves,
}

begins :
    (p : LocalParty) (n : ℕ) (r : Round)
    → p.rnd ≡ some r
    → Evolves p (record p { rnd = some (begin n r) })
unfolding begin
begins p n r e = record {
  params = refl;
  left = ap rounds_left (sym e);
  oks = length-replicate (length r.oks) false ∙ ap oks_count (sym e);
  slots1 = refl;
  slots2 = refl;
  slots3 = refl;
}

module _ (sum : List ℕ → List ℕ) (rand : Randomness) (p : LocalParty) where
  commit_polynomial-Evolves :
      (q : LocalParty) (i : ℕ) (vs : List EcPoint) (shares : List Share)
      → Evolves p q
      → Leaves (Evolves p) (commit_polynomial sum rand q i vs shares)
  unfolding commit_polynomial
  commit_polynomial-Evolves q i vs shares h = attempt-Leaves (Evolves p) q _ _ _ h (λ flat _.
      attempt-Leaves (Evolves p) q _ _ _ h (λ share_id _.
        attempt-Leaves (Evolves p) q _ _ _ h (λ c _. attempt-Leaves (Evolves p) q _ _ _ h (λ msgs e.
          record {
            params = h.params;
            left = h.left;
            oks = h.oks;
            slots1 = put-length q.temp.kg_round1_messages i _ e ∙ h.slots1;
            slots2 = h.slots2;
            slots3 = h.slots3;
          }))))

  start_round1-Evolves :
      (r : Round) → p.rnd ≡ some r → Leaves (Evolves p) (start_round1 sum rand p r)
  unfolding start_round1
  start_round1-Evolves r e =
      let p0 : LocalParty = record p { rnd = some (begin 1 r) } in
      let h = begins p 1 r e in
      attempt-Leaves (Evolves p) p0 _ _ _ h (λ ssid _.
        let p1 : LocalParty = record p0 { temp = record p0.temp { ssid = ssid; ui = rand.ui } } in
        attempt-Leaves (Evolves p) p1 _ _ _ (again h) (λ (vs, shares) _.
          attempt-Leaves (Evolves p) p1 _ _ _ (again h)
            (λ i _. commit_polynomial-Evolves _ i vs shares (again h))))
    where
      again :
          {q : LocalParty}
          → Evolves p q
          → {s : SaveData} {ssid : List ℕ} {ui : ℤ}
          → Evolves p (record q { save = s; temp = record q.temp { ssid = ssid; ui = ui } })
      again h = record {
        params = h.params;
        left = h.left;
        oks = h.oks;
        slots1 = h.slots1;
        slots2 = h.slots2;
        slots3 = h.slots3;
      }

  open_commitment-Evolves :
      (q : LocalParty) (i : ℕ) → Evolves p q → Leaves (Evolves p) (open_commitment sum rand q i)
  unfolding open_commitment
  open_commitment-Evolves q i h = attempt-Leaves (Evolves p) q _ _ _ h (λ pii _.
      attempt-Leaves (Evolves p) q _ _ _ h (λ msgs e. record {
        params = h.params;
        left = h.left;
        oks = h.oks;
        slots1 = h.slots1;
        slots2 = h.slots2;
        slots3 = put-length q.temp.kg_round2_message2s i _ e ∙ h.slots3;
      }))

  start_round2-Evolves :
      (r : Round) → p.rnd ≡ some r → Leaves (Evolves p) (start_round2 sum rand p r)
  unfolding start_round2
  start_round2-Evolves r e =
      let p0 : LocalParty = record p { rnd = some (begin 2 r) } in
      let h = begins p 2 r e in
      attempt-Leaves (Evolves p) p0 _ _ _ h (λ i _. attempt-Leaves (Evolves p) p0 _ _ _ h (λ kgcs _.
        attempt-Leaves (Evolves p) p0 _ _ _ h (λ (kept, out) f.
          open_commitment-Evolves _ i (record {
            params = h.params;
            left = h.left;
            oks = h.oks;
            slots1 = h.slots1;
            slots2 = send_shares-length _ i 0 _ _ _ _ f;
            slots3 = h.slots3;
          }))))

module _ (p : LocalParty) where
  saved :
      {q : LocalParty}
      → Evolves p q
      → {save : SaveData} → {end : List SaveData} → Evolves p (record q { save = save; end = end })
  saved h = record {
    params = h.params;
    left = h.left;
    oks = h.oks;
    slots1 = h.slots1;
    slots2 = h.slots2;
    slots3 = h.slots3;
  }

  finish_keygen-Evolves :
      (q : LocalParty) (vcs : List (Option EcPoint))
      → Evolves p q
      → Leaves (Evolves p) (finish_keygen q vcs)
  unfolding finish_keygen
  finish_keygen-Evolves q vcs h = attempt-Leaves (Evolves p) q _ _ _ h (λ ps _.
      attempt-Leaves (Evolves p) q _ _ _ h (λ big_xj _.
        let q1 : LocalParty = record q { save = record q.save { big_xj = big_xj } } in
        if-Leaves (Evolves p) (is_empty (unevaluated ps big_xj)) _ _
          (attempt-Leaves (Evolves p) q1 _ _ _ (saved h) (λ key _. saved h)) (saved h)))

  module _ (sum : List ℕ → List ℕ) (eight_inv : ℤ) where
    check_and_add-Evolves :
        (q : LocalParty) (i : ℕ)
        → Evolves p q
        → Leaves (Evolves p) (check_and_add sum eight_inv q i)
    unfolding check_and_add
    check_and_add-Evolves q i h = attempt-Leaves (Evolves p) q _ _ _ h (λ vcs _.
        attempt-Leaves (Evolves p) q _ _ _ h (λ checked _.
          if-Leaves (Evolves p) (is_empty (culprits_in q.params.parties checked)) _ _
            (attempt-Leaves (Evolves p) q _ _ _ h (λ (sums, culprits) _.
              if-Leaves (Evolves p) (is_empty culprits) _ _ (finish_keygen-Evolves q sums h) h))
            h))

    start_round3-Evolves :
        (r : Round) → p.rnd ≡ some r → Leaves (Evolves p) (start_round3 sum eight_inv p r)
    unfolding start_round3
    start_round3-Evolves r e =
        let p0 : LocalParty = record p { rnd = some (begin 3 r) } in
        let h = begins p 3 r e in
        attempt-Leaves (Evolves p) p0 _ _ _ h (λ i _.
          attempt-Leaves (Evolves p) p0 _ _ _ h (λ own_share _.
            attempt-Leaves (Evolves p) p0 _ _ _ h (λ xi _. check_and_add-Evolves _ i (saved h))))

module _ (sum : List ℕ → List ℕ) (eight_inv : ℤ) (rand : Randomness) where
  start_kind-Evolves :
      (p : LocalParty) (k : Kind) (r : Round)
      → p.rnd ≡ some r
      → Leaves (Evolves p) (start_kind sum eight_inv rand k p r)
  unfolding start_kind
  start_kind-Evolves p round1 r e = start_round1-Evolves sum rand p r e
  start_kind-Evolves p round2 r e = start_round2-Evolves sum rand p r e
  start_kind-Evolves p round3 r e = start_round3-Evolves p sum eight_inv r e

  start_set-Evolves :
      (p : LocalParty) (o : Option Round)
      → p.rnd ≡ o
      → Leaves (Evolves p) (start_set sum eight_inv rand o p)
  unfolding start_set
  start_set-Evolves p none e = tt
  start_set-Evolves p (some r) e =
      if-Leaves (Evolves p) r.started _ _ (Evolves-refl p) (start_kind-Evolves p r.kind r e)

  pub start_round-Evolves : (p : LocalParty) → Leaves (Evolves p) (start_round sum eight_inv rand p)
  unfolding start_round
  start_round-Evolves p = start_set-Evolves p p.rnd refl
