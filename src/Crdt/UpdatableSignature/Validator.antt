-- ===== src/Crdt/UpdatableSignature/Validator.antt =====
-- What the validator of the updatable signature store accepts.
use p2p_verse.Common.{◌≡◌, refl, ◌↔◌, true, arith, Bytes, Result, ok, err, ◌>>=◌, >>=-eq-ok}
use p2p_verse.Std.Base64.{decode}
use p2p_verse.Std.Text.{first_part, last_part}
use p2p_verse.Std.Time
use p2p_verse.Std.Time.{Time, before, is_utc, to_utc}
use p2p_verse.External.Crypto.{External}
use p2p_verse.External.Datastore.{Datastore}
use p2p_verse.Crdt.Filters.{parts}
use p2p_verse.Crdt.Crypto.{str_to_pub_key}
use p2p_verse.Crdt.Base
use p2p_verse.Crdt.Base.{BaseStore, is_true}
use p2p_verse.Crdt.Signature
use p2p_verse.Crdt.Signature.{checks}
use p2p_verse.Crdt.Signature.Valid.{IsSigned, checks_sound}
use p2p_verse.Crdt.Updatable
use p2p_verse.Crdt.Updatable.{in_past}
use p2p_verse.Crdt.UpdatableSignature.{validate}

-- The last part of the key is a UTC instant before `now`.
pub record IsStamped (now : Time) (key : Bytes) : Type 0 where
  pub stamp : Bytes
  pub instant : Time
  pub decoded : decode (last_part (parts key)) ≡ ok stamp
  pub read : Time.unmarshal stamp ≡ ok instant
  pub utc : is_utc instant ≡ true
  pub past : before instant (to_utc now) ≡ true

in_past_sound :
    (now : Time) (r : Result Time)
    → in_past now r ≡ true
    → (t : Time) × (r ≡ ok t) × (is_utc t ≡ true) × (before t (to_utc now) ≡ true)
unfolding in_past
in_past_sound now (err e) h = cc
in_past_sound now (ok t) h = (t, refl, ground arith, ground arith)

module _ (x : External) (d : Datastore) where
  validate_split :
      (s : BaseStore d) (now : Time) (key val : Bytes)
      → validate x d s now key val ≡ true
      → (s.in_time ≡ true)
        × (checks x (str_to_pub_key x (first_part (parts key))) (x.signature_data.unmarshal val)
            ≡ true)
        × (in_past now (decode (last_part (parts key)) >>= Time.unmarshal) ≡ true)
  unfolding validate Updatable.validate Signature.validate Base.validate
  validate_split s now key val h = ground arith

  validate_join :
      (s : BaseStore d) (now : Time) (key val : Bytes)
      → s.in_time ≡ true
      → IsSigned x key val
      → IsStamped now key
      → validate x d s now key val ≡ true
  unfolding validate Updatable.validate Signature.validate Base.validate checks in_past
  validate_join s now key val live signed stamped = rw (
    live, signed.named, signed.carried, signed.verified, stamped.decoded, stamped.read, stamped.utc,
    stamped.past,
  )

  -- The validator accepts exactly the entries that arrive while the store is in time, carry a
  -- signature of the identity that their key begins with, and end in a UTC instant before `now`.
  pub validate_iff :
      (s : BaseStore d) (now : Time) (key val : Bytes)
      → (validate x d s now key val ≡ true)
        ↔ ((s.in_time ≡ true) × IsSigned x key val × IsStamped now key)
  validate_iff s now key val = (
    λ h.
        let (live, checked, timed) = validate_split s now key val h in
        let (vk, sd, named, carried, verified) = checks_sound x _ _ checked in
        let (t, made, utc, past) = in_past_sound now _ timed in
        let (stamp, decoded, read) = >>=-eq-ok (decode (last_part (parts key))) _ made in
        (
          live,
          record {
            signer = vk;
            message = sd;
            named = named;
            carried = carried;
            verified = verified;
          },
          record {
            stamp = stamp;
            instant = t;
            decoded = decoded;
            read = read;
            utc = utc;
            past = past;
          },
        ),
    λ (live, signed, stamped). validate_join s now key val live signed stamped,
  )
