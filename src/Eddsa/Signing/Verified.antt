-- ===== src/Eddsa/Signing/Verified.antt =====
-- What the signing protocol hands out: verified signatures of the message, and nothing else.
use mpc_lib.Prelude.{ℕ, true, some, List, [], ◌∷◌, ◌++◌, bytes, set_bytes, nat_abs, ◌≡◌}
use mpc_lib.Crypto.Point.{EcPoint}
use mpc_lib.Eddsa.Signing.Encoding.{big_int_to_encoded_bytes, encoded_bytes_to_big_int}
use mpc_lib.Eddsa.Signing.Edwards.{Edwards25519}
use mpc_lib.Eddsa.Signing.State.{LocalParty, SignatureData}

module _ (ed : Edwards25519) where
  -- The numbers R and S that are handed out are accepted by the verifier for the public key of the
  -- saved data and the message, which is handed out with them; the bytes of the signature are the
  -- encoding of R and then those of S.
  pub record IsVerified (p : LocalParty) (signature : SignatureData) : Type 0 where
    pub key : EcPoint
    pub saved : p.keys.eddsa_pub ≡ some key
    pub message : signature.m ≡ bytes (nat_abs p.temp.m)
    pub sum_s : List ℕ
    pub encoded :
        signature.signature ≡ big_int_to_encoded_bytes (some (set_bytes signature.r)) ++ sum_s
    pub summed : set_bytes signature.s ≡ encoded_bytes_to_big_int sum_s
    pub accepted :
        ed.verify key.coords signature.m (set_bytes signature.r) (set_bytes signature.s) ≡ true

  abbrev pub AllVerified : LocalParty → List SignatureData → Type 0
  AllVerified p [] = Unit
  AllVerified p (s ∷ signatures) = IsVerified p s × AllVerified p signatures

  -- Nothing that was handed out is not verified.
  abbrev pub HandsOutVerified : LocalParty → Type 0
  HandsOutVerified p = AllVerified p p.end

  -- Only the saved data and the message count.
  pub AllVerified-cong :
      (p q : LocalParty) (signatures : List SignatureData)
      → q.keys ≡ p.keys
      → q.temp.m ≡ p.temp.m
      → AllVerified p signatures
      → AllVerified q signatures
  AllVerified-cong p q [] k m h = tt
  AllVerified-cong p q (s ∷ signatures) k m (v, h) = (
    record {
      key = v.key;
      saved = cc (v.saved, k);
      message = cc (v.message, m);
      sum_s = v.sum_s;
      encoded = v.encoded;
      summed = v.summed;
      accepted = v.accepted;
    },
    AllVerified-cong p q signatures k m h,
  )
