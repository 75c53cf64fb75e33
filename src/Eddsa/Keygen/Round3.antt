-- ===== src/Eddsa/Keygen/Round3.antt =====
-- eddsa/keygen/round_3.go: the shares are checked and added up to the party's key share.
use Prim.Native.String.{String}
use mpc_lib.Prelude.{
  ℕ, zero, suc, ◌+◌, ℤ, pos, ◌+ℤ◌, emod, Bool, true, false, Option, none, some, List, [], ◌∷◌, ◌++◌,
  set_bytes, ◌==◌, if◌then◌else◌,
}
use mpc_lib.Prelude.Result.{Result, ok, err, panic, ◌>>=◌, ◌>>◌, guard, traverse, nth, to_index}
use mpc_lib.Common.ModInt
use mpc_lib.Common.ModInt.{append_big_int_to_bytes_slice}
use mpc_lib.Crypto.Point
use mpc_lib.Crypto.Point.{EcPoint, scalar_mult, new_ec_point, eight_inv_eight, unflatten_ec_points}
use mpc_lib.Crypto.Vss
use mpc_lib.Crypto.Vss.{Share}
use mpc_lib.Crypto.Schnorr
use mpc_lib.Crypto.Commitments.Hashed.{de_commit}
use mpc_lib.Tss.PartyId.{PartyId, key_int}
use mpc_lib.Tss.Party.{Step, done, failed}
use mpc_lib.Eddsa.Keygen.Messages.{
  Content, kg_round1_message, kg_round2_message1, kg_round2_message2, other, Msg,
  unmarshal_de_commitment, unmarshal_zk_proof,
}
use mpc_lib.Eddsa.Keygen.State.{Round, LocalParty, attempt, begin, wrap_error}

-- A slot that holds a share, as the type assertion wants it.
share_in : Option Content → Result ℤ
share_in none = panic
share_in (some (kg_round1_message c)) = panic
share_in (some (kg_round2_message1 share)) = ok (pos (set_bytes share))
share_in (some (kg_round2_message2 d x y t)) = panic
share_in (some (other v)) = panic

pub unmarshal_share : Option Msg → Result ℤ
unfolding share_in
unmarshal_share none = panic
unmarshal_share (some msg) = share_in msg.content

-- The opening and the proof of a party's second broadcast.
pub record Opening : Type 0 where
  pub de_commitment : List (List ℕ)
  pub alpha_x : List ℕ
  pub alpha_y : List ℕ
  pub proof_t : List ℕ

opening_in : Option Content → Result Opening
opening_in none = panic
opening_in (some (kg_round1_message c)) = panic
opening_in (some (kg_round2_message1 share)) = panic
opening_in (some (kg_round2_message2 d x y t)) =
    ok (record { de_commitment = d; alpha_x = x; alpha_y = y; proof_t = t })
opening_in (some (other v)) = panic

pub opening_of : Option Msg → Result Opening
unfolding opening_in
opening_of none = panic
opening_of (some msg) = opening_in msg.content

-- The sum of the shares of the other parties, onto the party's own.
pub add_shares : ℕ → ℕ → ℤ → List PartyId → List (Option Msg) → Result ℤ
unfolding unmarshal_share
add_shares i j xi [] msgs = ok xi
add_shares i j xi (pj ∷ ps) [] = if j == i then add_shares i (j + 1) xi ps [] else panic
add_shares i j xi (pj ∷ ps) (msg ∷ msgs) = do
  xi' ← if j == i then ok xi else (do share ← unmarshal_share msg; ok (xi +ℤ share))
  add_shares i (j + 1) xi' ps msgs

-- `errors.New` where the opening does not verify or is nil.
unfoldable pub opened : Option (List ℤ) → Result (List ℤ)
opened none = err "de-commitment verify failed"
opened (some flat) = ok flat

unfoldable pub proof_or_error : Result Schnorr.ZkProof → Result Schnorr.ZkProof
proof_or_error (ok pf) = ok pf
proof_or_error (err e) = err "failed to unmarshal schnorr proof"
proof_or_error panic = panic

-- What the checks of the other parties give: nothing at the party's own place.
pub data Checked : Type 0 where
  own : Checked
  good : List EcPoint → Checked
  bad : String → Checked

unfoldable pub as_checked : Result (List EcPoint) → Result Checked
as_checked (ok vs) = ok (good vs)
as_checked (err e) = ok (bad e)
as_checked panic = panic

-- Whether the share of party j agrees with the points that it opened.
unfoldable pub shares_agree : LocalParty → ℕ → List EcPoint → Result Bool
unfolding unmarshal_share
shares_agree p j vs = do
  msg1 ← nth p.temp.kg_round2_message1s j
  share ← unmarshal_share msg1
  Vss.verify p.params.ec p.params.threshold (some vs) (record {
    threshold = p.params.threshold;
    id = pos (key_int p.params.party_id);
    share = share;
  })

module _ (sum : List ℕ → List ℕ) (eight_inv : ℤ) where
  -- The points that party j has committed to.
  unfoldable pub opened_points : LocalParty → ℕ → Result (Opening × List EcPoint)
  unfolding opened opening_of
  opened_points p j = do
    kgc ← nth p.temp.kgcs j
    msg2 ← nth p.temp.kg_round2_message2s j
    opening ← opening_of msg2
    flat? ←
        de_commit sum (record { c = kgc; d = some (unmarshal_de_commitment opening.de_commitment) })
    flat ← opened flat?
    points ← unflatten_ec_points p.params.ec flat false
    vs ← traverse (eight_inv_eight eight_inv) points
    ok (opening, vs)

  -- Whether its proof holds for the first of them.
  unfoldable pub proves_first : LocalParty → ℕ → Opening → List EcPoint → Result Bool
  unfolding proof_or_error
  proves_first p j opening vs = do
    proof ←
        proof_or_error
          (unmarshal_zk_proof p.params.ec opening.alpha_x opening.alpha_y opening.proof_t)
    v0 ← nth vs 0
    Schnorr.verify sum (append_big_int_to_bytes_slice p.temp.ssid (pos j)) v0 proof

  -- The goroutine for party j. An error is the one that it sends on its channel.
  unfoldable pub verify_party : LocalParty → ℕ → Result (List EcPoint)
  unfolding opened_points proves_first shares_agree
  verify_party p j = do
    (opening, vs) ← opened_points p j
    proved ← proves_first p j opening vs
    guard proved "failed to prove schnorr proof"
    agreed ← shares_agree p j vs
    guard agreed "vss verify failed"
    ok vs

  -- One goroutine for each party but the own one; a panic in any ends the process.
  unfoldable pub verify_parties : LocalParty → ℕ → ℕ → List PartyId → Result (List Checked)
  unfolding as_checked
  verify_parties p i j [] = ok []
  verify_parties p i j (pj ∷ ps) = do
    c ← if j == i then ok own else as_checked (verify_party p j)
    cs ← verify_parties p i (j + 1) ps
    ok (c ∷ cs)

-- The parties whose check failed.
unfoldable pub culprits_in : List PartyId → List Checked → List PartyId
culprits_in [] cs = []
culprits_in (pj ∷ ps) [] = []
culprits_in (pj ∷ ps) (bad e ∷ cs) = pj ∷ culprits_in ps cs
culprits_in (pj ∷ ps) (own ∷ cs) = culprits_in ps cs
culprits_in (pj ∷ ps) (good vs ∷ cs) = culprits_in ps cs

-- A point that is nil after a sum off the curve panics when it is used again.
pub add_to : Option EcPoint → EcPoint → Result (Option EcPoint)
add_to none q = panic
add_to (some p) q = elim (Point.add p q) [ ok r ↦ ok (some r) | err e ↦ ok none | panic ↦ panic ]

-- `Vc[c].Add(PjVs[c])` for each c up to the threshold.
pub add_all : List (Option EcPoint) → List EcPoint → Result (List (Option EcPoint))
unfolding add_to
add_all [] vs = ok []
add_all (vc ∷ vcs) [] = panic
add_all (vc ∷ vcs) (v ∷ vs) = do r ← add_to vc v; rs ← add_all vcs vs; ok (r ∷ rs)

-- One entry of the culprits for each sum that is off the curve.
pub blame : PartyId → List (Option EcPoint) → List PartyId
blame pj [] = []
blame pj (none ∷ vcs) = pj ∷ blame pj vcs
blame pj (some v ∷ vcs) = blame pj vcs

-- The commitments of the other parties are added to the own ones, party by party.
unfoldable pub add_commitments :
    List PartyId
    → List Checked
    → List (Option EcPoint)
    → List PartyId
    → Result (List (Option EcPoint) × List PartyId)
unfolding add_all blame
add_commitments [] cs vcs culprits = ok (vcs, culprits)
add_commitments (pj ∷ ps) [] vcs culprits = ok (vcs, culprits)
add_commitments (pj ∷ ps) (own ∷ cs) vcs culprits = add_commitments ps cs vcs culprits
add_commitments (pj ∷ ps) (bad e ∷ cs) vcs culprits = panic
add_commitments (pj ∷ ps) (good vs ∷ cs) vcs culprits = do
  vcs' ← add_all vcs vs
  add_commitments ps cs vcs' (culprits ++ blame pj vcs')

-- The loop that evaluates the sum of the polynomials, in the exponent, at a party's key.
pub evaluate_commitments :
    ℕ → ℤ → ℤ → Option EcPoint → List (Option EcPoint) → Result (Option EcPoint)
unfolding add_to
evaluate_commitments n z kj big_x [] = ok big_x
evaluate_commitments n z kj big_x (none ∷ vcs) = panic
evaluate_commitments n z kj big_x (some vc ∷ vcs) = do
  let z' = ModInt.mul n z kj
  q ← scalar_mult vc z'
  big_x' ← add_to big_x q
  evaluate_commitments n z' kj big_x' vcs

pub evaluate_at : ℕ → List (Option EcPoint) → PartyId → Result (Option EcPoint)
unfolding evaluate_commitments
evaluate_at n [] pj = panic
evaluate_at n (v0 ∷ vcs) pj = evaluate_commitments n (pos 1) (pos (key_int pj)) v0 vcs

-- The parties at whose key the sum is off the curve.
pub unevaluated : List PartyId → List (Option EcPoint) → List PartyId
unevaluated [] xs = []
unevaluated (pj ∷ ps) [] = []
unevaluated (pj ∷ ps) (none ∷ xs) = pj ∷ unevaluated ps xs
unevaluated (pj ∷ ps) (some x ∷ xs) = unevaluated ps xs

-- The first parties, as many as are counted.
pub first_parties : ℕ → List PartyId → Result (List PartyId)
first_parties zero ps = ok []
first_parties (suc n) [] = panic
first_parties (suc n) (p ∷ ps) = do rest ← first_parties n ps; ok (p ∷ rest)

-- `Vc[c] = vs[c]` for each c up to the threshold.
unfoldable pub own_commitments : ℕ → List EcPoint → Result (List (Option EcPoint))
own_commitments zero vs = ok []
own_commitments (suc n) [] = panic
own_commitments (suc n) (v ∷ vs) = do rest ← own_commitments n vs; ok (some v ∷ rest)

unfoldable pub is_empty : List PartyId → Bool
is_empty [] = true
is_empty (p ∷ ps) = false

unfoldable pub head_point : List (Option EcPoint) → Result EcPoint
head_point [] = panic
head_point (none ∷ vcs) = panic
head_point (some v ∷ vcs) = ok v

-- Steps 13 to 18: the public shares and the public key are saved, and the data is sent to `end`.
unfoldable pub finish_keygen : LocalParty → List (Option EcPoint) → Step LocalParty
unfolding evaluate_at unevaluated first_parties is_empty head_point
finish_keygen p vcs =
    let ec = p.params.ec in
    attempt p [] (first_parties p.params.party_count p.params.parties) (λ ps.
      attempt p [] (traverse (evaluate_at ec.n vcs) ps) (λ big_xj.
        let p1 = record p { save = record p.save { big_xj = big_xj } } in
        if is_empty (unevaluated ps big_xj)
        then attempt p1 [] (do v0 ← head_point vcs; new_ec_point ec v0.coords)
            (λ key.
              let save = record p1.save { eddsa_pub = some key } in
              done (record p1 { save = save; end = save ∷ p1.end }) true)
        else failed p1 (
            wrap_error p1 "adding Vc[c].ScalarMult(z) to BigXj resulted in a point not on the curve"
              (unevaluated ps big_xj))))

module _ (sum : List ℕ → List ℕ) (eight_inv : ℤ) where
  -- Steps 2 to 12: the other parties are checked, and their commitments are added.
  unfoldable pub check_and_add : LocalParty → ℕ → Step LocalParty
  unfolding verify_parties culprits_in add_commitments own_commitments finish_keygen is_empty
  check_and_add p i =
      let ps = p.params.parties in
      attempt p [] (own_commitments (suc p.params.threshold) p.temp.vs) (λ vcs.
        attempt p [] (verify_parties sum eight_inv p i 0 ps) (λ checked.
          if is_empty (culprits_in ps checked)
          then attempt p [] (add_commitments ps checked vcs []) (λ (sums, culprits).
            if is_empty culprits
            then finish_keygen p sums
            else failed p (
                wrap_error p "adding PjVs[c] to Vc[c] resulted in a point not on the curve"
                  culprits))
          else failed p (wrap_error p "errors of the other parties" (culprits_in ps checked))))

  -- `round3.Start` behind the test that it was not started.
  unfoldable pub start_round3 : LocalParty → Round → Step LocalParty
  unfolding add_shares check_and_add
  start_round3 p r =
      let p0 = record p { rnd = some (begin 3 r) } in
      attempt p0 [] (to_index p.params.party_id.index) (λ i.
        attempt p0 [] (nth p.temp.shares i) (λ own_share.
          attempt p0 [] (add_shares i 0 own_share.share p.params.parties p.temp.kg_round2_message1s)
            (λ xi.
              check_and_add
                (record p0 { save = record p0.save { xi = some (pos (emod xi p.params.ec.n)) } })
                i)))
