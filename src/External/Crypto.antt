-- ===== src/External/Crypto.antt =====
-- Keys, signatures, peer identities, hashing, and the codecs of the messages. A key is an opaque
-- object of an outside package; it is named here by the bytes that its `Raw` method returns.
use p2p_verse.Common.{ℕ, ◌≡◌, Bytes, Result, ok, Lacks, true, Bool, All, length}
use p2p_verse.Std.Base64.{IsByte}
use p2p_verse.Std.Text.{slash, IsPart}
use p2p_verse.External.Messages
use p2p_verse.External.Messages.{BaseAddress, HashData, SignatureData, AccessKey, Codec}

pub record PrivKey : Type 0 where
  pub raw : Bytes

pub record PubKey : Type 0 where
  pub raw : Bytes

-- The three package variables of crdt/crypto.go, which `InitCryptoFuncs` sets.
pub record CryptoFuncs : Type 0 where
  pub marshal_pub_key : PubKey → Result Bytes
  pub unmarshal_pub_key : Bytes → Result PubKey
  pub generate_key_pair : Bytes → Result (PrivKey × PubKey)

pub record External : Type 0 where
  pub funcs : CryptoFuncs
  -- `priv.Sign(data)` and `pub.Verify(data, sig)`
  pub sign : PrivKey → Bytes → Result Bytes
  pub verify : PubKey → Bytes → Bytes → Result Bool
  -- `mh.Sum(b, mh.IDENTITY, -1)`, and `mh.Decode` with the code and the digest
  pub multihash_sum : Bytes → Bytes
  pub multihash_decode : Bytes → Result (ℕ × Bytes)
  -- `id.Pretty()` and `peer.Decode`
  pub pretty : Bytes → Bytes
  pub peer_decode : Bytes → Result Bytes
  -- `argon2.IDKey(password, salt, 1, 64*1024, 4, keyLen)`
  pub argon2 : Bytes → Bytes → ℕ → Bytes
  pub base_address : Codec BaseAddress
  pub hash_data : Codec HashData
  pub signature_data : Codec SignatureData
  pub access_key : Codec AccessKey

-- The code of `mh.IDENTITY`.
abbrev pub identity_code : ℕ
identity_code = 0

pub record IsLawful (e : External) : Type 0 where
  pub unmarshal-marshal :
      (k : PubKey) (b : Bytes)
      → e.funcs.marshal_pub_key k ≡ ok b
      → e.funcs.unmarshal_pub_key b ≡ ok k
  pub multihash_decode-sum :
      (b : Bytes) → e.multihash_decode (e.multihash_sum b) ≡ ok (identity_code, b)
  -- An identity is a multihash; its text is base58, of at least two characters.
  pub peer_decode-pretty :
      (b : Bytes) → e.peer_decode (e.pretty (e.multihash_sum b)) ≡ ok (e.multihash_sum b)
  pub pretty-Lacks : (b : Bytes) → Lacks slash (e.pretty (e.multihash_sum b))
  pub pretty-IsPart : (b : Bytes) → IsPart (e.pretty (e.multihash_sum b))
  pub argon2-IsByte : (p s : Bytes) (n : ℕ) → All IsByte (e.argon2 p s n)
  pub length-argon2 : (p s : Bytes) (n : ℕ) → length (e.argon2 p s n) ≡ n
  pub base_address_lawful : Messages.IsLawful e.base_address
  pub hash_data_lawful : Messages.IsLawful e.hash_data
  pub signature_data_lawful : Messages.IsLawful e.signature_data
  pub access_key_lawful : Messages.IsLawful e.access_key

-- A signature that the private key makes is one that the public key accepts.
abbrev pub IsPair : External → PrivKey → PubKey → Type 0
IsPair e priv key = (d s : Bytes) → e.sign priv d ≡ ok s → e.verify key d s ≡ ok true
