-- ===== src/Transactions/Signing.antt =====
-- typescript/src/SolanaTransaction.ts: keypairs and signatures. The Ed25519 functions of node's
-- `crypto` are parameters: the public key of a 32-byte seed, and the signature of a message by it.
use chancery_integration_exa.Common.{
  ℕ, ◌==◌, leb, if◌then◌else◌, true, ◌||◌, Option, none, some, List, [], ◌∷◌, length, take, drop,
  Result, ok, ◌>>=◌, ◌>>◌, guard, or_throw, seed_bytes, secret_key_length, keypair_suffix,
  seed_mismatch, missing_keypair, packet_limit, no_signatures,
}
use chancery_integration_exa.Base58.{Text, text, encode_base58, normalize_public_key}
use chancery_integration_exa.Messages.{text_equals}
use chancery_integration_exa.Transactions.{CompiledMessage, map_get, map_set, serialize_transaction}

-- `SolanaKeypair`
pub record SolanaKeypair : Type 0 where
  pub public_key : Text
  pub secret_key_seed : List ℕ

-- `SignedSolanaTransaction`
pub record SignedTransaction : Type 0 where
  pub bytes : List ℕ
  pub message : CompiledMessage
  pub signatures : List (Text × List ℕ)
  pub primary_signature : Text

module _ (public_key_of_seed : List ℕ → List ℕ) (sign_bytes : List ℕ → List ℕ → List ℕ) where
  -- `publicKeyBytesFromPrivateKey(privateKeyFromSeed(seed))`
  unfoldable pub public_key_bytes_from_seed : List ℕ → Result (List ℕ)
  public_key_bytes_from_seed seed =
      guard (length seed == 32) seed_bytes >> ok (public_key_of_seed seed)

  unfoldable pub keypair_from_secret_key_bytes : List ℕ → Result SolanaKeypair
  keypair_from_secret_key_bytes secret_key_bytes = do
    guard (length secret_key_bytes == 32 || length secret_key_bytes == 64) secret_key_length
    public_key_bytes ← public_key_bytes_from_seed (take 32 secret_key_bytes)
    guard
        (if length secret_key_bytes == 64
          then text_equals (drop 32 secret_key_bytes) public_key_bytes
          else true)
        keypair_suffix
    ok (record {
      public_key = encode_base58 public_key_bytes;
      secret_key_seed = take 32 secret_key_bytes;
    })

  unfoldable pub sign_message_with_keypair : List ℕ → SolanaKeypair → Result (List ℕ)
  sign_message_with_keypair message keypair = do
    actual ← public_key_bytes_from_seed keypair.secret_key_seed
    expected ← normalize_public_key (text keypair.public_key)
    guard (text_equals (encode_base58 actual) expected) seed_mismatch
    ok (sign_bytes keypair.secret_key_seed message)

  -- `keypairByPublicKey`
  unfoldable pub keypairs_by_public_key :
      List SolanaKeypair → List (Text × SolanaKeypair) → Result (List (Text × SolanaKeypair))
  keypairs_by_public_key [] keypairs = ok keypairs
  keypairs_by_public_key (keypair ∷ more) keypairs = do
    key ← normalize_public_key (text keypair.public_key)
    keypairs_by_public_key more (map_set keypairs key keypair)

  -- The loop over the signers: their signatures in order.
  unfoldable pub signatures_of :
      List ℕ → List (Text × SolanaKeypair) → List Text → Result (List (Text × List ℕ))
  signatures_of message keypairs [] = ok []
  signatures_of message keypairs (signer ∷ signers) = do
    keypair ← or_throw missing_keypair (map_get keypairs signer)
    signature ← sign_message_with_keypair message keypair
    others ← signatures_of message keypairs signers
    ok ((signer, signature) ∷ others)

  unfoldable pub signature_list : List (Text × List ℕ) → List (List ℕ)
  signature_list [] = []
  signature_list ((signer, signature) ∷ others) = signature ∷ signature_list others

  -- `signatureRecord`
  unfoldable pub signature_record :
      List (Text × List ℕ) → List (Text × List ℕ) → List (Text × List ℕ)
  signature_record [] signatures = signatures
  signature_record ((signer, signature) ∷ others) signatures =
      signature_record others (map_set signatures signer signature)

  -- `signatureBytes[0]`
  unfoldable pub first_signature : List (List ℕ) → Option (List ℕ)
  first_signature [] = none
  first_signature (signature ∷ signatures) = some signature

  unfoldable pub sign_solana_transaction :
      CompiledMessage → List SolanaKeypair → Result SignedTransaction
  sign_solana_transaction message keypairs = do
    by_key ← keypairs_by_public_key keypairs []
    signed ← signatures_of message.bytes by_key message.signer_addresses
    bytes ← serialize_transaction message.bytes (signature_list signed)
    guard (leb (length bytes) 1232) packet_limit
    first ← or_throw no_signatures (first_signature (signature_list signed))
    ok (record {
      bytes = bytes;
      message = message;
      signatures = signature_record signed [];
      primary_signature = encode_base58 first;
    })
