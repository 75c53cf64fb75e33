-- ===== src/Eddsa/Keygen/PartyCheck.antt =====
-- What the check of another party in round 3 has found.
use Prim.Native.String.{String}
use mpc_lib.Prelude.{
  ℕ, ℤ, pos, Bool, true, false, Option, none, some, List, ◌≡◌, refl, ap, subst, ◌∙◌, arith,
}
use mpc_lib.Prelude.Result.{Result, ok, err, panic, guard, nth, traverse, >>=-eq-ok}
use mpc_lib.Common.ModInt.{append_big_int_to_bytes_slice}
use mpc_lib.Crypto.Point.{EcPoint, eight_inv_eight, unflatten_ec_points}
use mpc_lib.Crypto.Vss
use mpc_lib.Crypto.Schnorr
use mpc_lib.Crypto.Commitments.Hashed.{HashCommitDecommit, de_commit}
use mpc_lib.Tss.PartyId.{key_int}
use mpc_lib.Eddsa.Keygen.Messages.{Msg, unmarshal_de_commitment, unmarshal_zk_proof}
use mpc_lib.Eddsa.Keygen.State.{LocalParty}
use mpc_lib.Eddsa.Keygen.Round3.{
  Opening, opening_of, opened, proof_or_error, unmarshal_share, opened_points, proves_first,
  shares_agree, verify_party,
}

guard-true : (b : Bool) (e : String) {u : Unit {0}} → guard b e ≡ ok u → b ≡ true
guard-true true e h = refl
guard-true false e h = absurd (cc)

proof_or_error-eq-ok :
    (r : Result Schnorr.ZkProof) (proof : Schnorr.ZkProof)
    → proof_or_error r ≡ ok proof
    → r ≡ ok proof
unfolding proof_or_error
proof_or_error-eq-ok (ok q) proof h = h
proof_or_error-eq-ok (err e) proof h = absurd (cc)
proof_or_error-eq-ok panic proof h = absurd (cc)

opened-eq-ok : (o : Option (List ℤ)) (flat : List ℤ) → opened o ≡ ok flat → o ≡ some flat
unfolding opened
opened-eq-ok none flat h = absurd (cc)
opened-eq-ok (some f) flat h = ground arith

-- What a party whose check succeeds has sent: an opening of its commitment, to points that are those
-- opened after a multiplication by 8 and one by its inverse, a Schnorr proof for the first of them, and
-- a share that agrees with all of them.
pub record HasOpened (sum : List ℕ → List ℕ) (eight_inv : ℤ) (p : LocalParty) (j : ℕ)
    (opening : Opening) (vs : List EcPoint) : Type 0 where
  pub kgc : Option ℕ
  pub flat : List ℤ
  pub points : List EcPoint
  pub committed : nth p.temp.kgcs j ≡ ok kgc
  pub opens :
      de_commit sum (record { c = kgc; d = some (unmarshal_de_commitment opening.de_commitment) })
      ≡ ok (some flat)
  pub on_curve : unflatten_ec_points p.params.ec flat false ≡ ok points
  pub cleared : traverse (eight_inv_eight eight_inv) points ≡ ok vs

pub record HasProved (sum : List ℕ → List ℕ) (p : LocalParty) (j : ℕ) (opening : Opening)
    (vs : List EcPoint) : Type 0 where
  pub proof : Schnorr.ZkProof
  pub v0 : EcPoint
  pub decoded :
      unmarshal_zk_proof p.params.ec opening.alpha_x opening.alpha_y opening.proof_t ≡ ok proof
  pub first : nth vs 0 ≡ ok v0
  pub proved :
      Schnorr.verify sum (append_big_int_to_bytes_slice p.temp.ssid (pos j)) v0 proof ≡ ok true

pub record HasShared (p : LocalParty) (j : ℕ) (vs : List EcPoint) : Type 0 where
  pub msg : Option Msg
  pub share : ℤ
  pub received : nth p.temp.kg_round2_message1s j ≡ ok msg
  pub decoded : unmarshal_share msg ≡ ok share
  pub agrees :
      Vss.verify p.params.ec p.params.threshold (some vs) (record {
        threshold = p.params.threshold;
        id = pos (key_int p.params.party_id);
        share = share;
      })
      ≡ ok true

module _ (sum : List ℕ → List ℕ) (eight_inv : ℤ) (p : LocalParty) (j : ℕ) where
  opened_points_sound :
      (opening : Opening) (vs : List EcPoint)
      → opened_points sum eight_inv p j ≡ ok (opening, vs)
      → HasOpened sum eight_inv p j opening vs
  unfolding opened_points
  opened_points_sound o vs h =
      let (kgc, e1, h1) = >>=-eq-ok (nth p.temp.kgcs j) _ h in
      let (msg2, e2, h2) = >>=-eq-ok (nth p.temp.kg_round2_message2s j) _ h1 in
      let (opening, e3, h3) = >>=-eq-ok (opening_of msg2) _ h2 in
      let cmt : HashCommitDecommit = record {
        c = kgc;
        d = some (unmarshal_de_commitment opening.de_commitment);
      } in
      let (flat?, e4, h4) = >>=-eq-ok (de_commit sum cmt) _ h3 in
      let (flat, e5, h5) = >>=-eq-ok (opened flat?) _ h4 in
      let (points, e6, h6) = >>=-eq-ok (unflatten_ec_points p.params.ec flat false) _ h5 in
      let (ws, e7, h7) = >>=-eq-ok (traverse (eight_inv_eight eight_inv) points) _ h6 in
      let same : (opening, ws) ≡ (o, vs) = ground arith in
      subst (λ (x : Opening × List EcPoint). HasOpened sum eight_inv p j x.0 x.1) same
        (record {
          kgc = kgc;
          flat = flat;
          points = points;
          committed = e1;
          opens = e4 ∙ ap ok (opened-eq-ok flat? flat e5);
          on_curve = e6;
          cleared = e7;
        })

  proves_first_sound :
      (opening : Opening) (vs : List EcPoint)
      → proves_first sum eight_inv p j opening vs ≡ ok true
      → HasProved sum p j opening vs
  unfolding proves_first
  proves_first_sound opening vs h =
      let sent = unmarshal_zk_proof p.params.ec opening.alpha_x opening.alpha_y opening.proof_t in
      let (proof, e8, h8) = >>=-eq-ok (proof_or_error sent) _ h in
      let (v0, e9, h9) = >>=-eq-ok (nth vs 0) _ h8 in
      record {
        proof = proof;
        v0 = v0;
        decoded = proof_or_error-eq-ok sent proof e8;
        first = e9;
        proved = h9;
      }

  shares_agree_sound : (vs : List EcPoint) → shares_agree p j vs ≡ ok true → HasShared p j vs
  unfolding shares_agree
  shares_agree_sound vs h =
      let (msg1, e12, h12) = >>=-eq-ok (nth p.temp.kg_round2_message1s j) _ h in
      let (share, e13, h13) = >>=-eq-ok (unmarshal_share msg1) _ h12 in
      record { msg = msg1; share = share; received = e12; decoded = e13; agrees = h13 }

  -- Where the check of party j in round 3 succeeds, its opening is verified against its commitment, its
  -- proof against the first of the points that it opened, and the share that it sent against all of
  -- them, at the key of this party.
  pub verify_party_sound :
      (vs : List EcPoint)
      → verify_party sum eight_inv p j ≡ ok vs
      → (opening : Opening) × HasOpened sum eight_inv p j opening vs
        × HasProved sum p j opening vs
        × HasShared p j vs
  unfolding verify_party
  verify_party_sound vs h =
      let ((opening, ws), e1, h1) = >>=-eq-ok (opened_points sum eight_inv p j) _ h in
      let (proved, e2, h2) = >>=-eq-ok (proves_first sum eight_inv p j opening ws) _ h1 in
      let (u, e3, h3) = >>=-eq-ok (guard proved "failed to prove schnorr proof") _ h2 in
      let (agreed, e4, h4) = >>=-eq-ok (shares_agree p j ws) _ h3 in
      let (v, e5, h5) = >>=-eq-ok (guard agreed "vss verify failed") _ h4 in
      let same : ws ≡ vs = ground arith in
      (
        opening,
        subst (HasOpened sum eight_inv p j opening) same (opened_points_sound opening ws e1),
        subst (HasProved sum p j opening) same
            (proves_first_sound opening ws (e2 ∙ ap ok (guard-true proved _ e3))),
        subst (HasShared p j) same (shares_agree_sound ws (e4 ∙ ap ok (guard-true agreed _ e5))),
      )
