-- ===== src/Tests/Wraps.antt =====
-- An access store at an address: the hash store that it wraps could not be loaded.
use p2p_verse.Common.{
  true, Option, ◌≡◌, ◌≢◌, ◌⊎◌, refl, false, none, some, [], ◌∷◌, ok, codes, Bytes, Error,
  load_failed, get_elem?, set_elem, bytes_eq, arith,
}
use p2p_verse.Common.Action.{◌>>=◌, returns, fails}
use p2p_verse.Std.Base64.{encode}
use p2p_verse.Std.Text.{slash}
use p2p_verse.Std.Time.{marshal, zero_time, equal, before}
use p2p_verse.External.Addresses.{AddrInfo}
use p2p_verse.External.Crypto.{PubKey}
use p2p_verse.Sample.Addresses.{plain}
use p2p_verse.Sample.Air.{among}
use p2p_verse.Sample.Crypto.{toy, toy-IsLawful, raise, total, fill}
use p2p_verse.Sample.Fields.{write_fields, seal_bytes}
use p2p_verse.Sample.Machine.{machine}
use p2p_verse.Sample.Memory.{memory, lookup}
use p2p_verse.Crdt.Address.{Parsed, make_address, parse_address, parse_address-make_address}
use p2p_verse.Std.Time.RoundTrip
use p2p_verse.Crdt.Access
use p2p_verse.Crdt.Access.{AccessStore}
use p2p_verse.Crdt.Access.Bases.{hash_base}
use p2p_verse.Crdt.Making.Shared.{make_store-address}
use p2p_verse.Crdt.Making.{AnyStore, hash_store}
use p2p_verse.Crdt.Opening.{Handles}
use p2p_verse.External.Crypto.{PrivKey}
use p2p_verse.Crdt.Base
use p2p_verse.Crdt.Base.{BaseStore}
use p2p_verse.Crdt.Crypto.{pub_key_to_str}
use p2p_verse.Crdt.Hash
use p2p_verse.Crdt.Hash.{make_hash_key}
use p2p_verse.Crdt.Options.{StoreOpts, get_hash_opts}
use p2p_verse.Crdt.Opening.{CrdtVerse, init_crdt, setup_store, or_cancel, cancel}
use p2p_verse.Crdt.Verse.{
  mode_of, load_store, load_tries, try_load, try_opened, checked, check_rounds, new_store,
  put_first, make_store, conclude, is_timeout,
}
use p2p_verse.Crdt.Making.{Sources, Shop, Pointer, made, new_hash_store, limited, init_put}
use p2p_verse.Crdt.Making.Instance.{any_stores, new_of, shelve, put_at, cancel_at}
use p2p_verse.Crdt.Making.Wrapped.{Wraps, Refuses, named_opts, make_store-Wraps}
use p2p_verse.Discovery.{bootstrap, connect_bootstraps, greet, greet_all, meet_peers}

-- The ticker never ticks.
abbrev asleep : Sources machine memory
asleep = record {
  now = λ s. zero_time;
  fresh = λ s. codes "salt";
  contents = λ s c. [];
  ticks = λ s. 0;
}

abbrev alice : PubKey
alice = record { raw = codes "alice" }

abbrev pid : Bytes
pid = pub_key_to_str toy (some alice)

abbrev node : AddrInfo plain
node = record { id = codes "pu"; addrs = codes "/u" ∷ [] }

abbrev with_node : CrdtVerse plain
with_node = record { dir_path = codes "d"; save = false; bootstraps = node ∷ [] }

abbrev opts : StoreOpts
opts = record { salt = none; priv = none; key = none; time_limit = zero_time }

abbrev address : Bytes
address = make_address toy (codes "n") pid (codes "ab") []

abbrev named : Parsed
named = record { name = codes "n"; salt = codes "ab"; pid = pid; time_limit = zero_time }

address_ne : address ≢ []
unfolding make_address marshal write_fields seal_bytes encode pub_key_to_str raise
address_ne h = cc

address_read : parse_address toy address ≡ ok named
address_read =
    parse_address-make_address toy toy-IsLawful (codes "n") pid (codes "ab") []
      (record { sec_fits = omega arith; nsec_fits = omega arith }) address_ne

pid_ne : pid ≢ []
unfolding pub_key_to_str raise
pid_ne h = cc

abbrev shop : Shop machine memory
shop = record {
  world = record { outside = record { ids = []; queue = [] }; log = [] };
  stores = [];
}

abbrev loaded : Shop machine memory
loaded =
    (load_store (any_stores toy machine memory asleep with_node) (codes "n") (codes "hash")
      (named_opts named opts) shop).0

not_loaded :
    load_store
      (any_stores toy machine memory asleep with_node)
      (codes "n")
      (codes "hash")
      (named_opts named opts)
      shop
    ≡ (loaded, returns (record { place = 3; master = none }, some load_failed))
unfolding load_store load_tries try_load try_opened checked check_rounds conclude new_store
    put_first is_timeout mode_of new_of shelve put_at cancel_at cancel made new_hash_store
    get_hash_opts limited init_put Hash.init_put make_hash_key encode fill total seal_bytes
    write_fields Base.put Base.has lookup init_crdt setup_store or_cancel bootstrap
    connect_bootstraps greet_all greet meet_peers among get_elem? set_elem Base.set_time_limit equal
    before bytes_eq ◌>>=◌
not_loaded = refl

make_store-Wraps_example :
    let o = any_stores toy machine memory asleep with_node in
    ((q : Pointer) × Wraps toy machine memory asleep 3 pid loaded q
      × (make_store toy o address (codes "hash") opts shop ≡ (o.auto_sync q loaded, returns q)))
    ⊎ ((z : Error) × (make_store toy o address (codes "hash") opts shop ≡ (loaded, fails z))
        × Refuses toy machine memory asleep 3 pid loaded z)
make_store-Wraps_example =
    make_store-Wraps toy machine memory asleep with_node address (codes "hash") opts named shop
      loaded (record { place = 3; master = none }) (some load_failed) address_read pid_ne not_loaded

-- The access store round the first peer's hash store.
abbrev shared : AccessStore (hash_base toy memory)
shared = record {
  base = record {
    base = record { name = codes "n"; time_limit = zero_time; in_time = true; dt = [] };
    salt = codes "ab";
  };
  priv = none;
  key = some alice;
}

abbrev unnamed : Parsed
unnamed = record named { pid = [] }

zero_IsValid : RoundTrip.IsValid zero_time
zero_IsValid = record { sec_fits = omega arith; nsec_fits = omega arith }

base_ne : make_address toy (codes "n") [] (codes "ab") (zero_time ∷ []) ≢ []
unfolding make_address marshal write_fields seal_bytes encode
base_ne h = cc

base_read : parse_address toy (Hash.address toy memory shared.base) ≡ ok unnamed
unfolding Hash.address
base_read =
    parse_address-make_address toy toy-IsLawful (codes "n") [] (codes "ab") (zero_time ∷ [])
      zero_IsValid base_ne

shared_ne : Access.address toy memory (hash_base toy memory) shared ≢ []
unfolding Access.address make_address
shared_ne = rw base_read address_ne

-- The store that is made after three tries holds its first entry.
abbrev fourth : AnyStore memory
fourth = hash_store (record {
  base = record {
    name = codes "n";
    time_limit = zero_time;
    in_time = true;
    dt =
        (
          slash ∷ make_hash_key toy (codes "n") (codes "ab"),
          write_fields (codes "n" ∷ codes "ab" ∷ codes "n" ∷ []),
        )
        ∷ [];
  };
  salt = codes "ab";
})

abbrev handles : Handles machine
handles = record { ctx = tt; directory = some (codes "dn"); h = tt; d_store = tt; dt = tt }

fourth_made : get_elem? loaded.stores 3 ≡ some (handles, fourth)
unfolding load_store load_tries try_load try_opened checked check_rounds conclude new_store
    put_first is_timeout mode_of new_of shelve put_at cancel_at cancel made new_hash_store
    get_hash_opts limited init_put Hash.init_put make_hash_key encode fill total seal_bytes
    write_fields Base.put Base.has lookup init_crdt setup_store or_cancel bootstrap
    connect_bootstraps greet_all greet meet_peers among get_elem? set_elem Base.set_time_limit equal
    before bytes_eq ◌>>=◌
fourth_made = refl

make_store-address_example :
    let o = any_stores toy machine memory asleep with_node in
    let there = Access.address toy memory (hash_base toy memory) shared in
    (priv : Option PrivKey) × (make_store toy o there (codes "hash") opts shop ≡ (
      o.auto_sync (record { place = 3; master = some (priv, some alice) }) loaded,
      returns (record { place = 3; master = some (priv, some alice) }),
    ))
make_store-address_example =
    make_store-address toy toy-IsLawful machine memory asleep (hash_base toy memory) shared alice
      unnamed with_node (codes "hash") opts shop loaded (record { place = 3; master = none })
      (some load_failed) handles fourth refl pid_ne base_read zero_IsValid shared_ne not_loaded
      fourth_made tt
