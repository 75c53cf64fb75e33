-- ===== src/Lib.antt =====
-- mpc-lib: threshold signatures among parties that share a key. This library models the parts on
-- which every protocol stands, the generation of a shared Ed25519 key and the signing with it, and
-- the Paillier encryption and the proofs on which the ECDSA protocols stand.
--
-- The parts and how they meet. A party runs a protocol as a sequence of rounds (tss/party.go and
-- tss/round.go: `BaseStart`, `BaseUpdate`). A round's `Start` computes and sends messages,
-- `Update` marks the parties whose messages are there, and `CanProceed` lets the next round
-- begin. In the key generation (eddsa/keygen) every party shares a random number among all
-- (crypto/vss), commits to its polynomial (crypto/commitments), then opens the commitment and
-- proves that it knows its number (crypto/schnorr), and at last adds up the shares that it got. In
-- the signing (eddsa/signing) every party commits to a nonce, opens it with a proof, and sends its
-- part of the signature; the sum of the parts is verified before it is handed out. For ECDSA two
-- parties turn a product of secrets into a sum (crypto/mta) by Paillier encryption
-- (crypto/paillier), with proofs that the numbers are in range; the keys come with the proofs of
-- crypto/facproof and crypto/dlnproof. CGG+ has its own proofs (crypto/zkproofs) and its own such
-- multiplication (crypto/accmta).
--
--   Prelude            shared types: integers, residues, bytes, lists, and the results of Go calls
--   Common.Hash        common/hash.go: what SHA-512/256 is fed with
--   Common.Challenge   common/hash_utils.go
--   Common.Slice       common/slice.go
--   Common.ModInt      common/int.go: numbers modulo m
--   Crypto.Curve       the interface of an elliptic curve, and the group laws that the code relies on
--   Crypto.Point       crypto/ecpoint.go
--   Crypto.Commitments crypto/commitments/commitment_builder.go; Hashed below it: commitment.go
--   Crypto.Vss         crypto/vss/feldman_vss.go
--   Crypto.Schnorr     crypto/schnorr/schnorr_proof.go
--   Crypto.Paillier    crypto/paillier/paillier.go: keys and ciphertexts; Proof below it: the key proof
--   Crypto.ZkProofs    crypto/zkproofs/zkproofs.go; below it Equations, which the verifiers share, and Enc,
--                      Mul, Dec, LogStar, MulStar, AffG, AffP and AffGInv: the file of each proof
--   Crypto.Mta         crypto/mta: RangeProof (range_proof.go), ProofBob (proofs.go) and ShareProtocol
--                      (share_protocol.go)
--   Crypto.Accmta      crypto/accmta/share_protocol.go: Proofs (one for each verifier), Alice and Bob
--   Crypto.Ckd         crypto/ckd/child_key_derivation.go
--   Crypto.Facproof    crypto/facproof/proof.go
--   Crypto.Dlnproof    crypto/dlnproof/proof.go; Serial below it: its bytes
--   Tss.PartyId        tss/party_id.go
--   Tss.Message        tss/message.go and tss/error.go
--   Tss.Params         tss/params.go and tss/peers.go
--   Tss.Curve          tss/curve.go: whether two curves are the same
--   Tss.Party          tss/party.go: the life cycle over a record of methods
--   Eddsa.Keygen       eddsa/keygen: Messages (messages.go), State (local_party.go, rounds.go and
--                      save_data.go), Rounds (round_1.go and round_2.go), Round3 (round_3.go) and
--                      LocalParty (local_party.go, with the methods that the life cycle calls)
--                      and Subset (the key data of a subset of the parties, save_data.go)
--   Eddsa.Signing      eddsa/signing: Encoding and Edwards (utils.go), Prepare (prepare.go), Messages
--                      (messages.go), State (local_party.go and rounds.go), Rounds (round_1.go and
--                      round_2.go), Round3 (round_3.go), Finalize (finalize.go) and LocalParty
--                      (local_party.go)
--   Ecdsa.Signing      ecdsa/signing: Prepare (prepare.go)
--   Tests              runs on concrete inputs
--
-- How the code is read. A function has the name of the Go function in lower case with
-- underscores, and a method takes its receiver as an argument. Where Go returns an error or
-- panics, the model returns a `Result`; a method of a round returns a `Step`: the new state with
-- its Boolean, the state that an error leaves behind with the error, or a panic. A pointer or
-- slice that may be nil is an `Option` where the code tests it. The map of `CheckIndexes` is the
-- list of its keys. A party's rounds share its data through pointers, and here that data is part
-- of the state. A channel is the list of what was sent, the last first. A call writes under the
-- mutex, lets it go only between its recursive calls, and is one step here; the goroutines of
-- round 3 each send one value and are read in order, so they are a traversal. `big.Int` values
-- are integers `ℤ`, a key or a digest is a natural number, and `Int64()` keeps its wrap-around.
--
-- Bounds and fuel. `ParseSecrets` runs on twice the number of elements and one more.
-- `BaseUpdate` calls itself once for each round that it enters: the key generation has three
-- rounds, and the model allows five calls, one more than the four that can happen; the signing has
-- four, and the model allows six calls. `GenerateXs` of Paillier draws until it has enough units,
-- which the code does not bound: its fuel is an argument, and what is stated is about a fuel within
-- which it ends.
--
-- Parameters, since their code is not in the repository: SHA-512/256 (`sum`), the elliptic curve
-- (`Curve`, with the laws of `IsGroup`: the multiples of the base point are a cyclic group, and
-- whether the identity counts as a point of the curve, as it does on Ed25519), the group elements
-- and scalars of the package edwards25519 and the verifier of the package edwards (`Edwards25519`),
-- the name under which a curve is registered, HMAC-SHA512 and RIPEMD160 in the derivation of keys,
-- the list of the primes below 1000, and the random numbers, which are arguments. `sort.Sort` is
-- Go's insertion sort, which it uses for up to twelve elements.
--
-- Not modelled: the rounds of the ECDSA protocols and of the resharing of EdDSA, crypto/modproof, the
-- generation of primes, the encodings of points and of extended keys, and protobuf. Of the modelled
-- files: logging, names for tests, the time-outs and the limits on goroutines, the draws of random
-- primes, the readers of arrays of proofs, and of the protocols `UpdateFromBytes`; numbers and points
-- that are nil, where the code refuses them at its start. The session's nonce is the 0 that round 1
-- sets.
pub mod Prelude
pub mod Common
pub mod Crypto
pub mod Tss
pub mod Eddsa
pub mod Ecdsa
pub mod Tests
