-- ===== src/Crdt/Replication/Ancestors.antt =====
-- What the topic validator (crdt/setup.go) does not look at: the ancestors of a message's heads,
-- which go-ds-crdt merges together with them.
use p2p_verse.Common.{◌≡◌, ◌≢◌, inl, inr, Bool, List, Bytes, ok, In, All, subst}
use p2p_verse.External.Datastore.{Datastore}
use p2p_verse.Crdt.Base.{BaseStore}
use p2p_verse.Crdt.Setup.{Element, Delta, msg_to_deltas}
use p2p_verse.Crdt.Setup.Validator.{IsAppend, validator_func_iff}
use p2p_verse.Crdt.Replication.{
  Replica, IsKey, slot, IsLawful, IsHeld, OnlyAdds, elements_of, receive,
}

module _ {d : Datastore} (r : Replica d) (v : BaseStore d → Bytes → Bytes → Bool) where
  -- If the deltas of a message's heads only add new entries that the validator accepts, and merging
  -- the message deletes nothing, then every entry that the message brings, from whatever ancestor
  -- of its heads, is held afterwards under the key whose place its own key has, if the key is not
  -- held yet and the message brings one value for it, whatever the validator says of the entry.
  pub receive_unread :
      (s : BaseStore d) (pid msg key : Bytes) (e : Element) (ds : List Delta)
      → IsLawful r
      → r.self ≢ pid
      → msg_to_deltas (r.exchange s.dt) msg ≡ ok ds
      → All (IsAppend (r.exchange s.dt) (v s) (d.new_key r.name)) ds
      → OnlyAdds (r.brings s.dt msg)
      → In e (elements_of (r.brings s.dt msg))
      → IsKey key
      → slot r s.dt e.key ≡ slot r s.dt key
      → ((f : Element)
          → In f (elements_of (r.brings s.dt msg))
          → slot r s.dt f.key ≡ slot r s.dt key
          → f.value ≡ e.value)
      → ((val : Bytes) → IsHeld d s.dt key val → val ≡ e.value)
      → IsHeld d (receive r v pid msg s).dt key e.value
  unfolding receive
  receive_unread s pid msg key e ds lawful other read all adds brought spelled there one fresh =
      let taken =
        (validator_func_iff (r.exchange s.dt) (v s) (d.new_key r.name) r.self pid msg other).1
          (ds, read, all) in
      let (val, held) = lawful.arrives s.dt msg key e adds brought spelled there in
      let same : val ≡ e.value = elim (lawful.source s.dt msg key val adds held) [
        | inl before ↦ fresh val before
        | inr (_, (f, m, same_place, same_val)) ↦
            subst (λ u. u ≡ e.value) same_val (one f m same_place)
      ] in
      rw taken (subst (λ u. IsHeld d (r.merge s.dt msg) key u) same held)
