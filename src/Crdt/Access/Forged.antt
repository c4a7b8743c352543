-- ===== src/Crdt/Access/Forged.antt =====
-- An entry that a stranger signed can pass for a permission: `acFilter` takes the public key from
-- the first access key that stands in the entry's own key, not from the access store.
use p2p_verse.Common.{
  ℕ, ◌≡◌, ◌≢◌, refl, inl, inr, true, Option, none, some, List, [], ◌∷◌, ◌++◌, Bytes, Error, ok, err,
  Result-cases, In, Lacks, ap,
}
use p2p_verse.Std.Base64.{encode}
use p2p_verse.Std.Base64.RoundTrip.{decode-encode, encode-Lacks}
use p2p_verse.Std.Text.{slash, trim_slash, split-slash, split_one, trim_slash_lem}
use p2p_verse.External.Crypto
use p2p_verse.External.Crypto.{External, PrivKey, PubKey, IsPair}
use p2p_verse.External.Datastore
use p2p_verse.External.Datastore.{Datastore, Entry}
use p2p_verse.Crdt.Filters.{parts}
use p2p_verse.Crdt.Address.{text_or_nil}
use p2p_verse.Crdt.Crypto.{pub_key_to_str, str_to_pub_key-pub_key_to_str, pub_key_to_str-IsPart}
use p2p_verse.Crdt.Signature.{checks}
use p2p_verse.Crdt.Access.{
  AccessBase, AccessStore, master_of, extract_pub_key, ac_filter, access_key, access_key_of, verify,
}
use p2p_verse.Crdt.Access.Control.{verify_iff}

-- The entry that a stranger can write: the stranger's name, an access key of the stranger's own, and
-- the access key that is to be forged; the value is signed by the stranger.
abbrev pub forged_key : Bytes → Bytes → Bytes → Bytes
forged_key name own target = slash ∷ (name ++ (slash ∷ (own ++ (slash ∷ target))))

module _ (x : External) (lawful : Crypto.IsLawful x) where
  -- What an access key is made of.
  access_key_made :
      (key : Option PubKey) (access : Bytes)
      → access_key x key access ≢ []
      → (m : Bytes) × (x.access_key.marshal
            (record { master_key = pub_key_to_str x key; access = access })
          ≡ ok m)
        × (access_key x key access ≡ encode m)
        × (pub_key_to_str x key ≢ [])
  unfolding access_key
  access_key_made key access made = made_of (pub_key_to_str x key) access made
    where
      made_of :
          (name access : Bytes)
          → access_key_of x name access ≢ []
          → (m : Bytes) × (x.access_key.marshal (record { master_key = name; access = access })
              ≡ ok m)
            × (access_key_of x name access ≡ encode m)
            × (name ≢ [])
      made_of [] access made = absurd (made refl)
      made_of (c ∷ name) access made =
          elim (Result-cases
            (x.access_key.marshal (record { master_key = c ∷ name; access = access }))) [
              | inl (m, e) ↦ (m, e, ap text_or_nil e, λ nil. cc)
              | inr (e', e) ↦ absurd (made (ap text_or_nil e))
            ]

  access_key-Lacks :
      (key : Option PubKey) (access : Bytes)
      → access_key x key access ≢ []
      → Lacks slash (access_key x key access)
  access_key-Lacks key access made =
      let (m, wrote, shown, named) = access_key_made key access made in
      rw shown (encode-Lacks m (lawful.access_key_lawful.marshal-IsByte _ m wrote))

  master_of-access_key :
      (key : PubKey) (access : Bytes)
      → access_key x (some key) access ≢ []
      → master_of x (access_key x (some key) access) ≡ ok key
  unfolding master_of
  master_of-access_key key access made =
      let (m, wrote, shown, named) = access_key_made (some key) access made in
      rw
        (
          shown,
          decode-encode m (lawful.access_key_lawful.marshal-IsByte _ m wrote),
          lawful.access_key_lawful.unmarshal-marshal _ m wrote,
        )
        (str_to_pub_key-pub_key_to_str x lawful key named)

  parts-forged_key :
      (name own target : Bytes)
      → Lacks slash name
      → Lacks slash own
      → Lacks slash target
      → parts (forged_key name own target) ≡ name ∷ own ∷ target ∷ []
  unfolding parts
  parts-forged_key name own target h k l = rw (
    trim_slash_lem (name ++ (slash ∷ (own ++ (slash ∷ target)))),
    split-slash name (own ++ (slash ∷ target)) h,
    split-slash own target k,
    split_one target l,
  )

  extract_own :
      (name own target : Bytes) (key : PubKey) {e : Error}
      → master_of x name ≡ err e
      → master_of x own ≡ ok key
      → extract_pub_key x (name ∷ own ∷ target ∷ []) ≡ some key
  unfolding extract_pub_key
  extract_own name own target key strange found = rw (strange, extract_pub_key, found)

  ac_filter_signed :
      (entry : Entry) (name own target val sign m : Bytes) (key : PubKey) {e : Error}
      → parts entry.key ≡ name ∷ own ∷ target ∷ []
      → entry.value ≡ some m
      → master_of x name ≡ err e
      → master_of x own ≡ ok key
      → x.signature_data.unmarshal m ≡ ok (record { value = val; sign = sign })
      → x.verify key val sign ≡ ok true
      → ac_filter x entry ≡ true
  unfolding ac_filter
  ac_filter_signed entry name own target val sign m key keyed valued strange found read valid =
      rw (keyed, valued, extract_own name own target key strange found, read)
        (unfold checks in rw valid)

  module _ (d : Datastore) (b : AccessBase) (stored : Datastore.IsLawful d) where
    -- Whoever holds some key pair can make an entry that counts as a permission of any access
    -- store, whatever its master key: if the answer to the query for the access key holds an entry
    -- under the stranger's name, an access key of the stranger's and the access key asked for, with
    -- a value that the stranger signed, and the name itself does not read as an access key, then
    -- `Verify` accepts that access.
    pub verify_forged :
        (s : AccessStore b) (priv : PrivKey) (key : PubKey) (own access text : Bytes)
        (val sign m : Bytes) (n : ℕ) (es : List Entry) {e : Error}
        → IsPair x priv key
        → b.access_from_key s.base (trim_slash text) ≡ access
        → access ≢ []
        → access_key x (some key) own ≢ []
        → access_key x s.key access ≢ []
        → master_of x (pub_key_to_str x (some key)) ≡ err e
        → x.sign priv val ≡ ok sign
        → x.signature_data.marshal (record { value = val; sign = sign }) ≡ ok m
        → b.ac_query s.base (access_key x s.key access) ≡ ok es
        → In
            (record {
              key =
                  forged_key
                    (pub_key_to_str x (some key))
                    (access_key x (some key) own)
                    (access_key x s.key access);
              value = some m;
              size = n;
            })
            es
        → verify x d b s text ≡ none
    verify_forged s priv key own access text val sign m n es pair from named owned target strange
          signed made answered there =
        let (pm, wrote, shown, has_name) = access_key_made (some key) own owned in
        let (part, plain) = pub_key_to_str-IsPart x lawful (some key) has_name in
        let keyed =
          parts-forged_key _ _ _ plain (access_key-Lacks (some key) own owned)
            (access_key-Lacks s.key access target) in
        (verify_iff x d b stored s text).1 (
          rw from (record {
            named = named;
            keyed = target;
            answer = es;
            answered = answered;
            entry = record { key = forged_key _ _ _; value = some m; size = n };
            present = there;
            signed =
                ac_filter_signed _ _ _ _ val sign m key keyed refl strange
                  (master_of-access_key key own owned)
                  (lawful.signature_data_lawful.unmarshal-marshal _ m made) (pair val sign signed);
          }))
