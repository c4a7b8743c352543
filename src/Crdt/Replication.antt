-- ===== src/Crdt/Replication.antt =====
-- How the copies of a store meet: the writes of the owner, and what other peers send. A message goes
-- through the topic validator that `setupStore` registers (crdt/setup.go), and what passes it is
-- merged by go-ds-crdt, which is a record of functions here.
pub mod Kept
pub mod Hashed
pub mod Signed
pub mod Dated
pub mod Ancestors
pub mod Refused
pub mod Delivered
pub mod Forged
use p2p_verse.Common.{
  ◌≡◌, ◌≢◌, ◌⊎◌, Bool, true, false, Option, none, some, List, [], ◌∷◌, ◌++◌, Bytes, ok,
  if◌then◌else◌, In, Lacks,
}
use p2p_verse.Std.Text.{slash, IsPart, IsClean}
use p2p_verse.Std.Time.{Time}
use p2p_verse.External.Datastore.{Datastore}
use p2p_verse.Crdt.Base.{BaseStore, set_time_limit, deadline, sync, is_true}
use p2p_verse.Crdt.Setup.{Element, Delta, Exchange, value_key, msg_to_deltas, validator_func}

abbrev pub elements_of : List Delta → List Element
elements_of [] = []
elements_of (delta ∷ ds) = delta.elements ++ elements_of ds

-- The replicated datastore as another peer's message meets it.
pub record Replica (d : Datastore) : Type 0 where
  -- The name that `initCRDT` gives to `setupStore`
  pub name : Bytes
  -- `hid`
  pub self : Bytes
  -- What the topic validator asks: the block exchange, and the local copy.
  pub exchange : d.State → Exchange
  -- The deltas that are merged for a message: those of its heads, and of the heads' ancestors that
  -- are not merged yet.
  pub brings : d.State → Bytes → List Delta
  pub merge : d.State → Bytes → d.State

abbrev pub IsHeld : (d : Datastore) → d.State → Bytes → Bytes → Type 0
IsHeld d s key val = d.get s key ≡ ok (some val)

-- A key as `ds.NewKey` spells it: the root, or a slash and a clean path.
pub data IsKey : Bytes → Type 0 where
  root : IsKey (slash ∷ [])
  path : {k : Bytes} → IsClean k → IsKey (slash ∷ k)

-- Where the local copy keeps the value of a key. Keys that `path.Clean` makes one have one place.
abbrev pub slot : {d : Datastore} → Replica d → d.State → Bytes → Bytes
slot {d} r s key = value_key (r.exchange s) (d.new_key r.name) key

abbrev pub OnlyAdds : List Delta → Type 0
OnlyAdds ds = (delta : Delta) → In delta ds → delta.tombstones ≡ []

-- The documented behaviour of go-ds-crdt that the stores rely on, and that of the keys of
-- go-datastore, which are cleaned as paths: merging deltas that delete nothing adds their elements,
-- each at its key's place, one of them at each place, and touches no other place.
pub record IsLawful {d : Datastore} (r : Replica d) : Type 0 where
  -- The local copy that the validator asks is that of the datastore.
  pub held :
      (s : d.State) (key val : Bytes)
      → IsHeld d s key val
      → let w = r.exchange s in is_true (w.has (value_key w (d.new_key r.name) key)) ≡ true
  -- A clean path has the same place with a slash before it and without.
  pub slot_clean : (s : d.State) (k : Bytes) → IsClean k → slot r s k ≡ slot r s (slash ∷ k)
  pub slot_injective :
      (s : d.State) (j k : Bytes) → IsKey j → IsKey k → slot r s j ≡ slot r s k → j ≡ k
  -- ".." takes the part before it away.
  pub slot_parent :
      (s : d.State) (p k : Bytes)
      → IsPart p
      → Lacks slash p
      → slot r s (slash ∷ (p ++ (slash ∷ b'.' ∷ b'.' ∷ slash ∷ k))) ≡ slot r s (slash ∷ k)
  pub untouched :
      (s : d.State) (msg key val : Bytes)
      → OnlyAdds (r.brings s msg)
      → ((e : Element) → In e (elements_of (r.brings s msg)) → slot r s e.key ≢ slot r s key)
      → IsHeld d s key val
      → IsHeld d (r.merge s msg) key val
  pub source :
      (s : d.State) (msg key val : Bytes)
      → OnlyAdds (r.brings s msg)
      → IsHeld d (r.merge s msg) key val
      → IsHeld d s key val
        ⊎ (IsKey key
            × ((e : Element) × In e (elements_of (r.brings s msg))
                × (slot r s e.key ≡ slot r s key)
                × (e.value ≡ val)))
  pub arrives :
      (s : d.State) (msg key : Bytes) (e : Element)
      → OnlyAdds (r.brings s msg)
      → In e (elements_of (r.brings s msg))
      → IsKey key
      → slot r s e.key ≡ slot r s key
      → (val : Bytes) × IsHeld d (r.merge s msg) key val
  -- A sync writes out what is there.
  pub get-sync : (s : d.State) (key j : Bytes) → d.get (d.sync s key).0 j ≡ d.get s j

-- Every delta that a message brings is one that the validator reads.
abbrev pub IsRead : {d : Datastore} → Replica d → d.State → Bytes → Type 0
IsRead r s msg =
    (ds : List Delta) × (msg_to_deltas (r.exchange s) msg ≡ ok ds)
    × ((delta : Delta) → In delta (r.brings s msg) → In delta ds)

module _ {d : Datastore} (r : Replica d) where
  -- A message of the store's topic: what the topic validator takes is merged.
  unfoldable pub receive :
      (BaseStore d → Bytes → Bytes → Bool) → Bytes → Bytes → BaseStore d → BaseStore d
  receive v pid msg s =
      if validator_func (r.exchange s.dt) r.self (v s) (d.new_key r.name) pid msg
      then record s { dt = r.merge s.dt msg }
      else s

module _ {d : Datastore} (r : Replica d) (v : Time → BaseStore d → Bytes → Bytes → Bool) where
  -- What happens to one copy of the store, whose validator may read the clock; the owner's own writes are those of `Own`, and the keys in
  -- messages of other peers those of `Sent`.
  pub data Step (Sent : Bytes → Type 0) (Own : BaseStore d → BaseStore d → Type 0)
      : BaseStore d → BaseStore d → Type 0 where
    writes : {s t : BaseStore d} → Own s t → Step Sent Own s t
    receives :
        (now : Time) (s : BaseStore d) (pid msg : Bytes)
        → r.self ≢ pid
        → IsRead r s.dt msg
        → ((e : Element) → In e (elements_of (r.brings s.dt msg)) → Sent e.key)
        → Step Sent Own s (receive r (v now) pid msg s)
    limits : (s : BaseStore d) (now : Time) → Step Sent Own s (set_time_limit d now s).0
    expires : (s : BaseStore d) → Step Sent Own s (deadline d s)
    syncs : (s : BaseStore d) → Step Sent Own s (sync d s).0

  pub data Reach (Sent : Bytes → Type 0) (Own : BaseStore d → BaseStore d → Type 0)
      (s : BaseStore d) : BaseStore d → Type 0 where
    here : Reach Sent Own s s
    next : {t u : BaseStore d} → Reach Sent Own s t → Step Sent Own t u → Reach Sent Own s u
