-- ===== src/Sample/Crypto.antt =====
-- Keys that sign by putting themselves in front, and a hash that depends on the sum of its input.
use p2p_verse.Common.{
  ℕ, zero, suc, ◌+◌, ◌-◌, ◌*◌, ◌%◌, ◌≡◌, refl, Bool, Option, none, some, List, [], ◌∷◌, ◌++◌, arith,
  Bytes, length, All, Lacks, foreign, Result, ok, err, bytes_eq, bytes_eq_refl, ap, ok_injective,
  sym,
}
use p2p_verse.Std.Base64.{IsByte}
use p2p_verse.Std.Text.{slash, IsPart}
use p2p_verse.External.Messages
use p2p_verse.External.Messages.{BaseAddress, HashData, SignatureData, AccessKey, Codec}
use p2p_verse.External.Crypto
use p2p_verse.External.Crypto.{External, PrivKey, PubKey, CryptoFuncs, IsPair}
use p2p_verse.Sample.Fields.{
  write_fields, read_fields, seal_bytes, seal_bytes_ok, read_fields-write_fields,
}

-- A codec from the fields of a message.
module _ {A : Type 0} (fields : A → List Bytes) (build : List Bytes → Result A) where
  abbrev pub read_some : Option (List Bytes) → Result A
  read_some none = err (foreign [])
  read_some (some fs) = build fs

  abbrev pub codec_of : Codec A
  codec_of = record {
    marshal = λ a. seal_bytes (write_fields (fields a));
    unmarshal = λ m. read_some (read_fields [] m);
  }

  pub codec_of-IsLawful : ((a : A) → build (fields a) ≡ ok a) → Messages.IsLawful codec_of
  codec_of-IsLawful built = record {
    unmarshal-marshal = λ a m h.
        let e = (seal_bytes_ok (write_fields (fields a)) m h).0 in
        rw (← e, read_fields-write_fields (fields a)) (built a);
    marshal-IsByte = λ a m h. (seal_bytes_ok (write_fields (fields a)) m h).1;
  }

abbrev build_address : List Bytes → Result BaseAddress
build_address (n ∷ s ∷ p ∷ t ∷ []) = ok (record { name = n; salt = s; pid = p; time = t })
build_address _ = err (foreign [])

abbrev build_hash : List Bytes → Result HashData
build_hash (b ∷ s ∷ v ∷ []) = ok (record { base_hash = b; salt = s; value = v })
build_hash _ = err (foreign [])

abbrev build_signature : List Bytes → Result SignatureData
build_signature (v ∷ s ∷ []) = ok (record { value = v; sign = s })
build_signature _ = err (foreign [])

abbrev build_access : List Bytes → Result AccessKey
build_access (m ∷ a ∷ []) = ok (record { master_key = m; access = a })
build_access _ = err (foreign [])

unfoldable pub raise : Bytes → Bytes
raise [] = []
raise (c ∷ s) = (c + 48) ∷ raise s

unfoldable pub lower : Bytes → Bytes
lower [] = []
lower (c ∷ s) = (c - 48) ∷ lower s

lower-raise : (s : Bytes) → lower (raise s) ≡ s
unfolding lower raise
lower-raise [] = refl
lower-raise (c ∷ s) = ground (arith, lower-raise s)

raise-Lacks : (s : Bytes) → Lacks slash (raise s)
unfolding raise
raise-Lacks [] = tt
raise-Lacks (c ∷ s) = (omega arith, raise-Lacks s)

abbrev tail_of : Bytes → Result Bytes
tail_of [] = err (foreign [])
tail_of (c ∷ s) = ok (lower s)

unfoldable pub total : Bytes → ℕ
total [] = 0
total (c ∷ s) = c + 2 * total s

unfoldable pub fill : ℕ → ℕ → Bytes
fill zero seed = []
fill (suc n) seed = seed % 256 ∷ fill n (seed + 7)

fill-IsByte : (n seed : ℕ) → All IsByte (fill n seed)
unfolding fill
fill-IsByte zero seed = tt
fill-IsByte (suc n) seed = (omega arith, fill-IsByte n (seed + 7))

length-fill : (n seed : ℕ) → length (fill n seed) ≡ n
unfolding fill
length-fill zero seed = refl
length-fill (suc n) seed = ap suc (length-fill n (seed + 7))

head_eq : (a b : ℕ) (s t : Bytes) → ◌≡◌ {A = Bytes} (a ∷ s) (b ∷ t) → a ≡ b
head_eq a b s t e = cc

first_part : (s : Bytes) → IsPart (b'Q' ∷ s)
first_part s = (
  λ e. cc,
  λ e. absurd (omega (arith, head_eq _ _ _ _ e)),
  λ e. absurd (omega (arith, head_eq _ _ _ _ e)),
)

abbrev pub toy : External
toy = record {
  funcs = record {
    marshal_pub_key = λ k. ok k.raw;
    unmarshal_pub_key = λ b. ok (record { raw = b });
    generate_key_pair = λ seed. ok (record { raw = seed }, record { raw = seed });
  };
  sign = λ k m. ok (k.raw ++ m);
  verify = λ k m s. ok (bytes_eq s (k.raw ++ m));
  multihash_sum = λ b. b;
  multihash_decode = λ b. ok (0, b);
  pretty = λ id. b'Q' ∷ raise id;
  peer_decode = tail_of;
  argon2 = λ p s n. fill n (total p + 3 * total s);
  base_address =
      codec_of (λ (a : BaseAddress). a.name ∷ a.salt ∷ a.pid ∷ a.time ∷ []) build_address;
  hash_data = codec_of (λ (a : HashData). a.base_hash ∷ a.salt ∷ a.value ∷ []) build_hash;
  signature_data = codec_of (λ (a : SignatureData). a.value ∷ a.sign ∷ []) build_signature;
  access_key = codec_of (λ (a : AccessKey). a.master_key ∷ a.access ∷ []) build_access;
}

pub toy-IsLawful : Crypto.IsLawful toy
toy-IsLawful = record {
  unmarshal-marshal =
      λ k b h. ap (λ (r : Bytes). ok (record { raw = r })) (sym (ok_injective _ _ h));
  multihash_decode-sum = λ b. refl;
  peer_decode-pretty = λ id. ap (λ (r : Bytes). ok r) (lower-raise id);
  pretty-Lacks = λ id. (omega arith, raise-Lacks id);
  pretty-IsPart = λ id. first_part (raise id);
  argon2-IsByte = λ p s n. fill-IsByte n _;
  length-argon2 = λ p s n. length-fill n _;
  base_address_lawful = codec_of-IsLawful _ _ (λ a. refl);
  hash_data_lawful = codec_of-IsLawful _ _ (λ a. refl);
  signature_data_lawful = codec_of-IsLawful _ _ (λ a. refl);
  access_key_lawful = codec_of-IsLawful _ _ (λ a. refl);
}

-- Equal key bytes make a pair.
pub toy-IsPair : (raw : Bytes) → IsPair toy (record { raw = raw }) (record { raw = raw })
toy-IsPair raw m s h =
    ap (λ (t : Bool). ok t) (rw (← ok_injective _ _ h) (bytes_eq_refl (raw ++ m)))
