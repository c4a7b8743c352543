-- ===== src/Crdt/Signature/Valid.antt =====
-- What the validator of a signature store accepts.
use p2p_verse.Common.{
  ◌≡◌, refl, Bool, true, false, arith, Bytes, Result, ok, err, Bool-cases, inl, inr,
}
use p2p_verse.Std.Text.{first_part}
use p2p_verse.External.Messages.{SignatureData}
use p2p_verse.External.Crypto.{External, PubKey}
use p2p_verse.External.Datastore.{Datastore}
use p2p_verse.Crdt.Filters.{parts}
use p2p_verse.Crdt.Crypto.{str_to_pub_key}
use p2p_verse.Crdt.Base
use p2p_verse.Crdt.Base.{BaseStore, is_true}
use p2p_verse.Crdt.Signature.{checks, validate}

-- The value carries a signature of the identity that the first part of the key names.
pub record IsSigned (x : External) (key val : Bytes) : Type 0 where
  pub signer : PubKey
  pub message : SignatureData
  pub named : str_to_pub_key x (first_part (parts key)) ≡ ok signer
  pub carried : x.signature_data.unmarshal val ≡ ok message
  pub verified : x.verify signer message.value message.sign ≡ ok true

is_true_ok : (r : Result Bool) → is_true r ≡ true → r ≡ ok true
is_true_ok (ok true) h = refl
is_true_ok (ok false) h = cc
is_true_ok (err e) h = cc

pub checks_sound :
    (x : External) (rk : Result PubKey) (rd : Result SignatureData)
    → checks x rk rd ≡ true
    → (vk : PubKey) × (sd : SignatureData) × (rk ≡ ok vk)
      × (rd ≡ ok sd)
      × (x.verify vk sd.value sd.sign ≡ ok true)
unfolding checks
checks_sound x (err e) rd h = cc
checks_sound x (ok vk) (err e) h = cc
checks_sound x (ok vk) (ok sd) h = (vk, sd, refl, refl, is_true_ok _ h)

checks-IsSigned :
    (x : External) (key val : Bytes)
    → checks x (str_to_pub_key x (first_part (parts key))) (x.signature_data.unmarshal val) ≡ true
    → IsSigned x key val
checks-IsSigned x key val h =
    let (vk, sd, named, carried, verified) = checks_sound x _ _ h in
    record { signer = vk; message = sd; named = named; carried = carried; verified = verified }

pub validate-IsSigned :
    (x : External) (d : Datastore) (s : BaseStore d) (key val : Bytes)
    → validate x d s key val ≡ true
    → IsSigned x key val
unfolding validate
validate-IsSigned x d s key val h = elim (Bool-cases (Base.validate d s key val)) [
  | inl e ↦ checks-IsSigned x key val (rw e at h)
  | inr e ↦ absurd (ground arith)
]
