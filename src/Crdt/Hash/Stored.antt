-- ===== src/Crdt/Hash/Stored.antt =====
-- What a hash store's `Put` stores, and how it is read back and validated.
use p2p_verse.Common.{
  ◌≡◌, ◌≢◌, refl, true, none, some, [], arith, Bytes, Error, already_exist, Result, ok, err,
  bytes_eq_refl, ap, length, bytes_eq_iff, Bool-cases, inl, inr,
}
use p2p_verse.Std.Base64.RoundTrip.{encode-Lacks, encode-IsPart}
use p2p_verse.Std.Text.{IsClean, split_one, trim_slash, trim_slash_lem}
use p2p_verse.External.Messages.{HashData}
use p2p_verse.External.Crypto
use p2p_verse.External.Crypto.{External}
use p2p_verse.External.Datastore
use p2p_verse.External.Datastore.{Datastore}
use p2p_verse.Crdt.Base
use p2p_verse.Crdt.Base.{BaseStore}
use p2p_verse.Crdt.Base.AppendOnly
use p2p_verse.Crdt.Hash.{
  HashStore, make_hash_key, put_marshalled, put, get_stored, get, validate, key_fits, ok_or_none,
}

-- The key is the hash of the plain key and the salt that the value carries.
pub record IsHashed (x : External) (key val : Bytes) : Type 0 where
  pub content : HashData
  pub read : x.hash_data.unmarshal val ≡ ok content
  pub placed : trim_slash key ≡ make_hash_key x content.base_hash content.salt

module _ (x : External) (d : Datastore) where
  key_fits-IsHashed :
      (key val : Bytes) (q : Result HashData)
      → x.hash_data.unmarshal val ≡ q
      → key_fits x d (trim_slash key) (ok_or_none q) ≡ true
      → IsHashed x key val
  unfolding key_fits
  key_fits-IsHashed key val (err e) h k = cc
  key_fits-IsHashed key val (ok content) h k = record {
    content = content;
    read = h;
    placed = (bytes_eq_iff (trim_slash key) _).0 k;
  }

  -- What the hash validator accepts is under its hash.
  pub validate-IsHashed :
      (s : BaseStore d) (key val : Bytes) → validate x d s key val ≡ true → IsHashed x key val
  unfolding validate
  validate-IsHashed s key val h = elim (Bool-cases (Base.validate d s key val)) [
    | inl e ↦ key_fits-IsHashed key val _ refl (rw e at h)
    | inr e ↦ absurd (ground arith)
  ]

  put_marshalled_wrote :
      (s : HashStore d) (key : Bytes) (r : Result Bytes)
      → (put_marshalled x d s key r).1 ≡ none
      → (m : Bytes) × (r ≡ ok m)
        × ((Base.put d s.base key m).1 ≡ none)
        × ((put_marshalled x d s key r).0 ≡ record s { base = (Base.put d s.base key m).0 })
  unfolding put_marshalled
  put_marshalled_wrote s key (err e) h = absurd (ground arith)
  put_marshalled_wrote s key (ok m) h = (m, refl, h, refl)

  module _ (lawful : Crypto.IsLawful x) (stored : Datastore.IsLawful d) where
    pub get_stored-put :
        (s : HashStore d) (str val : Bytes)
        → (put x d s str val).1 ≡ none
        → get_stored x d (put x d s str val).0 (make_hash_key x str s.salt) ≡ ok val
    unfolding put get_stored
    get_stored-put s str val h =
        let (m, made, wrote, same) = put_marshalled_wrote s (make_hash_key x str s.salt) _ h in
        rw (
          same,
          AppendOnly.get-put d stored s.base (make_hash_key x str s.salt) m wrote,
          lawful.hash_data_lawful.unmarshal-marshal _ m made,
        )

    put-salt :
        (s : HashStore d) (str val : Bytes)
        → (put x d s str val).1 ≡ none
        → (put x d s str val).0.salt ≡ s.salt
    unfolding put
    put-salt s str val h =
        let (m, made, wrote, same) = put_marshalled_wrote s (make_hash_key x str s.salt) _ h in
        ap (λ (t : HashStore d). t.salt) same

    -- After a successful `Put` the value is read back under the caller's key, as long as that key
    -- is not itself the stored key of readable data, which `Get` prefers.
    pub get-put_plain :
        (s : HashStore d) (str val : Bytes) {e : Error}
        → (put x d s str val).1 ≡ none
        → get_stored x d (put x d s str val).0 str ≡ err e
        → get x d (put x d s str val).0 str ≡ ok val
    unfolding get
    get-put_plain s str val h missing =
        rw (missing, get, put-salt s str val h) (get_stored-put s str val h)

    -- A hash store is write-once: a second `Put` of a key, with whatever value that can be
    -- marshalled, is refused with ErrAlreadyExist and leaves the store as it was.
    pub put_twice :
        (s : HashStore d) (str val other m : Bytes)
        → (put x d s str val).1 ≡ none
        → x.hash_data.marshal (record { base_hash = str; salt = s.salt; value = other }) ≡ ok m
        → put x d (put x d s str val).0 str other ≡ ((put x d s str val).0, some already_exist)
    unfolding put put_marshalled
    put_twice s str val other m h made' =
        let (n, made, wrote, same) = put_marshalled_wrote s (make_hash_key x str s.salt) _ h in
        rw (same, made')
          (rw (AppendOnly.put-put d stored s.base (make_hash_key x str s.salt) n m wrote))

    pub make_hash_key-IsClean :
        (str salt : Bytes) → IsClean (make_hash_key x str salt) × (make_hash_key x str salt ≢ [])
    unfolding make_hash_key
    make_hash_key-IsClean str salt =
        let raw = x.argon2 str salt 64 in
        let bytes = lawful.argon2-IsByte str salt 64 in
        let nonempty : raw ≢ [] = λ e.
          absurd
            (omega (arith, lawful.length-argon2 str salt 64, ap (λ (t : Bytes). length t) e)) in
        let part = encode-IsPart raw bytes nonempty in
        (rw (split_one _ (encode-Lacks raw bytes)) (part, tt), part.0)

    -- A successful `Put` is one of the base store, of an entry that is under its hash.
    pub put_base :
        (s : HashStore d) (str val : Bytes)
        → (put x d s str val).1 ≡ none
        → (key m : Bytes) × ((Base.put d s.base key m).1 ≡ none)
          × ((put x d s str val).0.base ≡ (Base.put d s.base key m).0)
          × IsHashed x (d.new_key key) m
    unfolding put
    put_base s str val h =
        let key = make_hash_key x str s.salt in
        let (m, made, wrote, same) = put_marshalled_wrote s key _ h in
        (
          key,
          m,
          wrote,
          ap (λ (t : HashStore d). t.base) same,
          record {
            content = record { base_hash = str; salt = s.salt; value = val };
            read = lawful.hash_data_lawful.unmarshal-marshal _ m made;
            placed =
                rw (stored.new_key_clean key (make_hash_key-IsClean str s.salt).0)
                  (trim_slash_lem key);
          },
        )

    -- What a successful `Put` wrote is accepted by the validator of every peer whose store is
    -- still in time: there is a stored value under the key, as the datastore spells it, and
    -- that key and value are valid together.
    pub validate-put_hashed :
        (s : HashStore d) (peer : BaseStore d) (str val : Bytes)
        → (put x d s str val).1 ≡ none
        → peer.in_time ≡ true
        → (m : Bytes) × (Base.get d (put x d s str val).0.base (make_hash_key x str s.salt) ≡ ok m)
          × (validate x d peer (d.new_key (make_hash_key x str s.salt)) m ≡ true)
    unfolding put validate Base.validate
    validate-put_hashed s peer str val h live =
        let (m, made, wrote, same) = put_marshalled_wrote s (make_hash_key x str s.salt) _ h in
        let clean = stored.new_key_clean _ (make_hash_key-IsClean str s.salt).0 in
        (
          m,
          rw same (AppendOnly.get-put d stored s.base (make_hash_key x str s.salt) m wrote),
          rw
              (
                clean,
                live,
                trim_slash_lem (make_hash_key x str s.salt),
                lawful.hash_data_lawful.unmarshal-marshal _ m made,
              )
              (bytes_eq_refl (make_hash_key x str s.salt)),
        )
