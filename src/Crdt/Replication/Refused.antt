-- ===== src/Crdt/Replication/Refused.antt =====
-- A message that a store has already merged a part of.
use p2p_verse.Common.{
  ◌≡◌, ◌≢◌, Bool, true, false, inl, inr, List, Bytes, Result, ok, In, All, All-In, Bool-cases,
  subst, sym, ◌∙◌,
}
use p2p_verse.External.Datastore.{Datastore}
use p2p_verse.Crdt.Base.{BaseStore}
use p2p_verse.Crdt.Setup.{Element, Delta, msg_to_deltas, validator_func}
use p2p_verse.Crdt.Setup.Validator.{IsAppend, IsNewEntry, validator_func_iff}
use p2p_verse.Crdt.Replication.{Replica, IsLawful, IsHeld, receive}

same_list : (a b : List Delta) → Result.ok a ≡ ok b → a ≡ b
same_list a b h = cc

not_both : (b : Bool) → b ≡ true → b ≡ false → ⊥
not_both b h k = cc

module _ {d : Datastore} (r : Replica d) (v : BaseStore d → Bytes → Bytes → Bool) where
  -- A message of another peer that names a head whose delta has an entry under a key that is held
  -- already is refused as a whole: the store stays as it is, whatever the other heads bring.
  pub receive_held :
      (s : BaseStore d) (pid msg : Bytes) (ds : List Delta) (delta : Delta) (e : Element)
      (val : Bytes)
      → IsLawful r
      → r.self ≢ pid
      → msg_to_deltas (r.exchange s.dt) msg ≡ ok ds
      → In delta ds
      → In e delta.elements
      → IsHeld d s.dt e.key val
      → receive r v pid msg s ≡ s
  unfolding receive
  receive_held s pid msg ds delta e val lawful other read there inside held =
      let w = r.exchange s.dt in
      let ns = d.new_key r.name in
      elim (Bool-cases (validator_func w r.self (v s) ns pid msg)) [
        | inr n ↦ rw n
        | inl y ↦
            let (ds', read', all) = (validator_func_iff w (v s) ns r.self pid msg other).0 y in
            let all' =
              subst (All (IsAppend w (v s) ns)) (same_list ds' ds (sym read' ∙ read)) all in
            let fresh =
              All-In (IsNewEntry w (v s) ns) delta.elements e
                (All-In (IsAppend w (v s) ns) ds delta all' there).0 inside in
            absurd (not_both _ (lawful.held s.dt e.key val held) fresh.1)
      ]
