-- ===== src/Crdt/Replication/Hashed.antt =====
-- A hash store (crdt/hash.go) among its peers.
use p2p_verse.Common.{◌≡◌, none, ◌∷◌, Bytes, sym, ap, ◌∙◌, inl, inr}
use p2p_verse.Std.Text.{slash, IsClean, trim_slash, trim_slash_lem, trim_slash-cases}
use p2p_verse.External.Crypto
use p2p_verse.External.Crypto.{External}
use p2p_verse.External.Datastore
use p2p_verse.External.Datastore.{Datastore}
use p2p_verse.Crdt.Base.{BaseStore}
use p2p_verse.Crdt.Hash
use p2p_verse.Crdt.Hash.{HashStore, make_hash_key}
use p2p_verse.Crdt.Hash.Stored.{IsHashed, validate-IsHashed, put_base, make_hash_key-IsClean}
use p2p_verse.Crdt.Replication.{Replica, IsLawful, IsKey, slot, Reach}
use p2p_verse.Crdt.Replication.Kept.{Moves, Keeps, AllFit, put-Keeps, put-AllFit, Reach-lem}

-- The successful writes of an owner whose salt is `salt`.
pub data Writes (x : External) (d : Datastore) (salt : Bytes)
    : BaseStore d → BaseStore d → Type 0 where
  puts :
      (s : BaseStore d) (str val : Bytes)
      → (Hash.put x d (record { base = s; salt = salt }) str val).1 ≡ none
      → Writes x d salt s (Hash.put x d (record { base = s; salt = salt }) str val).0.base
  begins :
      (s : BaseStore d)
      → (Hash.init_put x d (record { base = s; salt = salt })).1 ≡ none
      → Writes x d salt s (Hash.init_put x d (record { base = s; salt = salt })).0.base

-- The validator of a hash store leaves no choice of the key, so that no key is ruled out.
abbrev pub AnyKey : Bytes → Type 0
AnyKey key = Unit

module _ (x : External) (d : Datastore) where
  module _ (lawful : Crypto.IsLawful x) (stored : Datastore.IsLawful d) where
    -- A key that is the hash, with a slash or without, is kept under the hash with a slash.
    hashed_slot :
        (r : Replica d) (s : d.State) (h j key : Bytes)
        → IsLawful r
        → IsClean h
        → trim_slash j ≡ h
        → IsKey key
        → slot r s j ≡ slot r s key
        → key ≡ slash ∷ h
    hashed_slot r s h j key laws clean trimmed spelled same =
        laws.slot_injective s key (slash ∷ h) spelled (IsKey.path clean) (sym same ∙ at)
      where
        at : slot r s j ≡ slot r s (slash ∷ h)
        at = elim (trim_slash-cases j) [
          | inl bare ↦ ap (slot r s) (sym bare ∙ trimmed) ∙ laws.slot_clean s h clean
          | inr slashed ↦ ap (slot r s) (slashed ∙ ap (λ (t : Bytes). slash ∷ t) trimmed)
        ]

    IsHashed-Moves : (r : Replica d) → IsLawful r → (s : d.State) → Moves r (IsHashed x) AnyKey s
    IsHashed-Moves r laws s j key val sent spelled same fit =
        let h = make_hash_key x fit.content.base_hash fit.content.salt in
        let kept =
          hashed_slot r s h j key laws (make_hash_key-IsClean x d lawful stored _ _).0 fit.placed
            spelled same in
        record {
          content = fit.content;
          read = fit.read;
          placed = ap trim_slash kept ∙ trim_slash_lem h;
        }

    put-IsHashed :
        (s : HashStore d) (str val : Bytes)
        → (Hash.put x d s str val).1 ≡ none
        → let t = (Hash.put x d s str val).0.base in
          Keeps s.base t × (AllFit (IsHashed x) s.base → AllFit (IsHashed x) t)
    put-IsHashed s str val h =
        let (key, m, wrote, same, fit) = put_base x d lawful stored s str val h in
        rw same (
          put-Keeps stored s.base key m wrote,
          put-AllFit stored s.base key m wrote (IsHashed x) fit,
        )

    Writes-lem :
        (salt : Bytes) (s t : BaseStore d)
        → Writes x d salt s t
        → Keeps s t × (AllFit (IsHashed x) s → AllFit (IsHashed x) t)
    unfolding Hash.init_put Hash.put
    Writes-lem salt _ _ (puts s str val h) =
        put-IsHashed (record { base = s; salt = salt }) str val h
    Writes-lem salt _ _ (begins s h) =
        put-IsHashed (record { base = s; salt = salt }) s.name s.name h

    -- Whatever the owner of a hash store writes and whatever other peers send, as long as every
    -- delta that is merged for a message is one that the topic validator has read: in every later
    -- copy of the store the entries of an earlier one are unchanged, and each entry still is under
    -- the hash of the plain key and the salt that it carries, if each was so in the earlier copy.
    pub replicate-IsHashed :
        (r : Replica d) (salt : Bytes) {s t : BaseStore d}
        → IsLawful r
        → AllFit (IsHashed x) s
        → Reach r (λ now. Hash.validate x d) AnyKey (Writes x d salt) s t
        → Keeps s t × AllFit (IsHashed x) t
    replicate-IsHashed r salt laws all run =
        let (kept, fit) =
          Reach-lem r laws (λ now. Hash.validate x d) (IsHashed x) (λ now. validate-IsHashed x d)
            (IsHashed-Moves r laws) (Writes-lem salt) run in
        (kept, fit all)
