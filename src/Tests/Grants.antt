-- ===== src/Tests/Grants.antt =====
-- Making an access store round a hash store that is open.
use p2p_verse.Common.{◌≡◌, refl, true, none, some, [], ◌∷◌, codes, get_elem?}
use p2p_verse.Std.Time.{zero_time}
use p2p_verse.Sample.Crypto.{toy}
use p2p_verse.Sample.Machine.{machine}
use p2p_verse.Sample.Memory.{memory}
use p2p_verse.Crdt.Options.{StoreOpts}
use p2p_verse.Crdt.Opening.{Handles}
use p2p_verse.Crdt.Making.{Sources, AnyStore, hash_store, Shop}
use p2p_verse.Crdt.Making.Granting.{
  keys_of, new_access_at, SealsOrCloses, new_access_at-SealsOrCloses,
}

abbrev sources : Sources machine memory
sources = record {
  now = λ s. zero_time;
  fresh = λ s. codes "salt";
  contents = λ s c. [];
  ticks = λ s. 30;
}

abbrev master : StoreOpts
master = record {
  salt = none;
  priv = some (record { raw = codes "alice" });
  key = some (record { raw = codes "alice" });
  time_limit = zero_time;
}

abbrev handles : Handles machine
handles = record { ctx = tt; directory = some (codes "dn"); h = tt; d_store = tt; dt = tt }

abbrev hashed : AnyStore memory
hashed = hash_store (record {
  base = record { name = codes "n"; time_limit = zero_time; in_time = true; dt = [] };
  salt = codes "ab";
})

abbrev shop : Shop machine memory
shop = record {
  world = record { outside = record { ids = []; queue = [] }; log = [] };
  stores = (handles, hashed) ∷ [];
}

hashed_there : get_elem? shop.stores 0 ≡ some (handles, hashed)
unfolding get_elem?
hashed_there = refl

new_access_at-SealsOrCloses_example :
    SealsOrCloses toy machine memory sources 0 handles
      (keys_of toy machine memory sources (master ∷ []) shop).1
      shop
      (new_access_at toy machine memory sources 0
        ((codes "aaa", codes "r") ∷ [])
        (master ∷ [])
        shop)
new_access_at-SealsOrCloses_example =
    new_access_at-SealsOrCloses toy machine memory sources 0 handles hashed
      ((codes "aaa", codes "r") ∷ []) (master ∷ []) shop hashed_there tt
