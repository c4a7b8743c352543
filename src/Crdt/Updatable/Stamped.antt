-- ===== src/Crdt/Updatable/Stamped.antt =====
-- What `Put` of the updatable store writes: the key under the time of the clock.
use p2p_verse.Common.{
  ◌≡◌, refl, true, none, [], ◌∷◌, ◌++◌, arith, Bytes, Result, ok, err, >>=-eq-ok, sym, All-append,
  ok_injective,
}
use p2p_verse.Std.Base64.{encode, decode}
use p2p_verse.Std.Base64.RoundTrip.{decode-encode, encode-IsPart, encode-Lacks}
use p2p_verse.Std.Text.{
  slash, IsPart, IsClean, last_part, trim_slash_lem, split, split_one, split-append_slash,
  last_part-split,
}
use p2p_verse.Std.Time
use p2p_verse.Std.Time.{Time, is_utc, to_utc}
use p2p_verse.Std.Time.RoundTrip.{IsValid, unmarshal-marshal, marshal-IsByte, marshal-nonempty}
use p2p_verse.External.Datastore.{Datastore}
use p2p_verse.Crdt.Filters.{parts}
use p2p_verse.Crdt.Base
use p2p_verse.Crdt.Base.{BaseStore}
use p2p_verse.Crdt.Updatable.{put_stamped, stamped_key, put}

-- The last part of the key is a UTC instant.
pub record IsDated (key : Bytes) : Type 0 where
  pub stamp : Bytes
  pub instant : Time
  pub decoded : decode (last_part (parts key)) ≡ ok stamp
  pub read : Time.unmarshal stamp ≡ ok instant
  pub utc : is_utc instant ≡ true

pub stamped_key_ok :
    (now : Time) (full key : Bytes)
    → stamped_key now full ≡ ok key
    → (tb : Bytes) × (Time.marshal (to_utc now) ≡ ok tb) × (key ≡ full ++ (slash ∷ encode tb))
unfolding stamped_key
stamped_key_ok now full key h =
    let (tb, made, rest) = >>=-eq-ok (Time.marshal (to_utc now)) _ h in
    (tb, made, ok_injective _ key (sym rest))

IsValid-to_utc : (now : Time) → IsValid now → IsValid (to_utc now)
IsValid-to_utc now v = record { sec_fits = v.sec_fits; nsec_fits = v.nsec_fits }

-- A key with a stamp is clean if it is so without.
pub stamped-IsClean :
    (now : Time) (k tb : Bytes)
    → Time.marshal (to_utc now) ≡ ok tb
    → IsClean k
    → IsClean (k ++ (slash ∷ encode tb))
stamped-IsClean now k tb made clean =
    let bytes = marshal-IsByte (to_utc now) tb made in
    rw (split-append_slash k (encode tb), split_one (encode tb) (encode-Lacks tb bytes))
      (All-append IsPart (split k) (encode tb ∷ []) clean
        (encode-IsPart tb bytes (marshal-nonempty (to_utc now) tb made), tt))

pub stamped-IsDated :
    (now : Time) (key tb : Bytes)
    → IsValid now
    → Time.marshal (to_utc now) ≡ ok tb
    → IsDated (slash ∷ (key ++ (slash ∷ encode tb)))
unfolding parts
stamped-IsDated now key tb v made =
    let bytes = marshal-IsByte (to_utc now) tb made in
    record {
      stamp = tb;
      instant = to_utc now;
      decoded =
          rw
            (
              trim_slash_lem (key ++ (slash ∷ encode tb)),
              last_part-split key (encode tb) (encode-Lacks tb bytes),
            )
            (decode-encode tb bytes);
      read = unmarshal-marshal (to_utc now) tb (IsValid-to_utc now v) made;
      utc = refl;
    }

module _ (d : Datastore) where
  put_stamped_wrote :
      (s : BaseStore d) (val : Bytes) (r : Result Bytes)
      → (put_stamped d s val r).1 ≡ none
      → (key : Bytes) × (r ≡ ok key)
        × ((Base.put d s key val).1 ≡ none)
        × ((put_stamped d s val r).0 ≡ (Base.put d s key val).0)
  unfolding put_stamped
  put_stamped_wrote s val (err e) h = absurd (ground arith)
  put_stamped_wrote s val (ok key) h = (key, refl, h, refl)

  -- A successful `Put` is one of the base store, under the stamped key.
  pub put_wrote :
      (now : Time) (s : BaseStore d) (key val : Bytes)
      → (put d now s key val).1 ≡ none
      → (full : Bytes) × (stamped_key now key ≡ ok full)
        × ((Base.put d s full val).1 ≡ none)
        × ((put d now s key val).0 ≡ (Base.put d s full val).0)
  unfolding put
  put_wrote now s key val h = put_stamped_wrote s val (stamped_key now key) h
