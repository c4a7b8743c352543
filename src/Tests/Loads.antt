-- ===== src/Tests/Loads.antt =====
-- Stores that are opened and loaded.
use p2p_verse.Common.{
  already_exist, get_elem?, set_elem, bytes_eq, ◌≡◌, ◌≢◌, refl, ◌↔◌, true, false, none, some, List,
  [], ◌∷◌, ◌++◌, arith, codes, Bytes, ok, map, load_failed,
}
use p2p_verse.Common.Action.{returns, fails, ◌>>=◌}
use mathlib.Core.List.{reverse}
use p2p_verse.Std.Text.{slash, split, IsClean}
use p2p_verse.Std.Base64.{encode}
use p2p_verse.Std.Time.{before, equal, zero_time, marshal}
use p2p_verse.Sample.Fields.{write_fields, seal_bytes}
use p2p_verse.External.Addresses.{AddrInfo}
use p2p_verse.Sample.Addresses.{plain}
use p2p_verse.Sample.Air.{among}
use p2p_verse.Sample.Crypto.{toy, toy-IsLawful}
use p2p_verse.Sample.Machine.{machine, slow_until}
use p2p_verse.Sample.Memory.{memory, memory-IsLawful, lookup}
use p2p_verse.Crdt.Address.{Parsed, make_address, parse_address, parse_address-make_address}
use p2p_verse.Crdt.Base
use p2p_verse.Crdt.Base.{BaseStore, has, get}
use p2p_verse.Crdt.Base.Refinement.{Contents, Shows, assign_all, put_all, put_all-Shows}
use p2p_verse.Crdt.Options.{get_log_opts, StoreOpts}
use p2p_verse.Crdt.Opening.{
  CrdtVerse, World, Handles, Resource, host, dht, datastore, crdt, opened, closed, init_crdt,
  setup_store, or_cancel, close,
}
use p2p_verse.Crdt.Opening.Leaks.{Grows, init_crdt-Grows}
use p2p_verse.Crdt.Opening.Mirrored.{close-init_crdt}
use p2p_verse.Crdt.Making.{Sources, Shop, made, new_log_store, limited, init_put}
use p2p_verse.Crdt.Making.Instance.{any_stores, new_of, shelve, put_at}
use p2p_verse.Crdt.Making.Released.{new_store-closes}
use p2p_verse.Crdt.Verse.{
  mode_of, load_rounds, load_store, load_tries, try_load, try_opened, checked, check_rounds,
  new_store, put_first, make_store, conclude, is_timeout,
}
use p2p_verse.Crdt.Verse.Loading.{Loads, load_store_iff, make_store-fails}
use p2p_verse.Discovery.{bootstrap, connect_bootstraps, greet, greet_all, meet_peers}

abbrev opts : StoreOpts
opts = record { salt = none; priv = none; key = none; time_limit = zero_time }

-- The second try loads a store.
load_store_iff_example :
    (load_store (slow_until 1) (codes "n") (codes "hash") opts 0 ≡ (2, returns (1, none)))
    ↔ Loads (slow_until 1) (codes "n") (codes "hash") opts 3 0 2 1
load_store_iff_example = load_store_iff (slow_until 1) (codes "n") (codes "hash") opts 0 2 1

loaded_second : load_store (slow_until 1) (codes "n") (codes "hash") opts 0 ≡ (2, returns (1, none))
unfolding load_store load_tries try_load try_opened checked check_rounds mode_of conclude is_timeout
    ◌>>=◌
loaded_second = refl

abbrev address : Bytes
address = make_address toy (codes "lg") [] (codes "ab") []

abbrev loading : StoreOpts
loading = record opts { salt = some (codes "ab") }

abbrev read : Parsed
read = record { name = codes "lg"; salt = codes "ab"; pid = []; time_limit = zero_time }

address_ne : address ≢ []
unfolding make_address marshal write_fields seal_bytes encode
address_ne h = cc

address_read : parse_address toy address ≡ ok read
address_read =
    parse_address-make_address toy toy-IsLawful (codes "lg") [] (codes "ab") []
      (record { sec_fits = omega arith; nsec_fits = omega arith }) address_ne

all_late : load_tries (slow_until 9) load_rounds (codes "lg") [] loading 0 ≡ (3, returns none)
unfolding load_tries try_load try_opened checked check_rounds mode_of is_timeout ◌>>=◌
all_late = refl

made_anew : new_store (slow_until 9) (codes "lg") [] loading 3 ≡ (4, returns 3)
unfolding new_store put_first mode_of ◌>>=◌
made_anew = refl

make_store-fails_example : make_store toy (slow_until 9) address [] opts 0 ≡ (4, fails load_failed)
make_store-fails_example =
    make_store-fails toy (slow_until 9) address [] opts read 0 3 4 3 address_read refl all_late
      made_anew

abbrev fresh : World machine
fresh = record { outside = record { ids = []; queue = [] }; log = [] }

abbrev node : AddrInfo plain
node = record { id = codes "pu"; addrs = codes "/u" ∷ [] }

abbrev alone : CrdtVerse plain
alone = record { dir_path = codes "d"; save = false; bootstraps = [] }

abbrev with_node : CrdtVerse plain
with_node = record alone { bootstraps = node ∷ [] }

init_crdt-Grows_example : Grows machine fresh (init_crdt machine alone (codes "n") fresh).0
init_crdt-Grows_example = init_crdt-Grows machine alone (codes "n") fresh

abbrev handles : Handles machine
handles = record { ctx = tt; directory = some (codes "dn"); h = tt; d_store = tt; dt = tt }

abbrev running : World machine
running = record {
  outside = record { ids = codes "pu" ∷ []; queue = [] };
  log = opened (crdt tt) ∷ opened (datastore tt) ∷ opened (dht tt) ∷ opened (host tt) ∷ [];
}

store_opened : init_crdt machine with_node (codes "n") fresh ≡ (running, returns handles)
unfolding init_crdt setup_store or_cancel bootstrap connect_bootstraps greet greet_all meet_peers
    among ◌>>=◌
store_opened = refl

close-init_crdt_example :
    (l : List (Resource machine)) × (running.log ≡ map opened l ++ [])
    × ((close machine handles running).log ≡ reverse (map closed l) ++ running.log)
close-init_crdt_example =
    close-init_crdt machine with_node (codes "n") fresh running handles store_opened

abbrev empty : BaseStore memory
empty = record { name = codes "n"; time_limit = zero_time; in_time = true; dt = [] }

abbrev nothing : Contents
nothing k = none

empty-Shows : Shows memory empty nothing
unfolding has get lookup
empty-Shows = record { has_shows = λ k c. refl; get_shows = λ k v c. (λ h. cc, λ h. cc) }

abbrev ops : List (Bytes × Bytes)
ops = (codes "a", codes "x") ∷ (codes "b", codes "y") ∷ (codes "a", codes "z") ∷ []

a-IsClean : IsClean (codes "a")
unfolding split
a-IsClean = ((λ e. cc, λ e. cc, λ e. cc), tt)

b-IsClean : IsClean (codes "b")
unfolding split
b-IsClean = ((λ e. cc, λ e. cc, λ e. cc), tt)

put_all-Shows_example :
    ((put_all memory empty ops).1 ≡ (assign_all nothing ops).1)
    × Shows memory (put_all memory empty ops).0 (assign_all nothing ops).0
put_all-Shows_example =
    put_all-Shows memory memory-IsLawful (λ s k v. refl) empty nothing ops
      (a-IsClean, (b-IsClean, (a-IsClean, tt))) empty-Shows

-- The datastore has the name of the store among its keys from the start.
abbrev taken : Sources machine memory
taken = record {
  now = λ s. zero_time;
  fresh = λ s. codes "salt";
  contents = λ s c. (slash ∷ codes "n", codes "old") ∷ [];
  ticks = λ s. 30;
}

abbrev shop : Shop machine memory
shop = record { world = fresh; stores = [] }

abbrev shut_shop : Shop machine memory
shut_shop = (new_store (any_stores toy machine memory taken with_node) (codes "n") [] opts shop).0

first_put_fails :
    new_store (any_stores toy machine memory taken with_node) (codes "n") [] opts shop
    ≡ (shut_shop, fails already_exist)
unfolding new_store new_of shelve init_crdt setup_store or_cancel bootstrap connect_bootstraps
    greet_all greet meet_peers among ◌>>=◌ mode_of made new_log_store limited put_first put_at
    init_put Base.init_put Base.put has get_elem? set_elem lookup get_log_opts Base.set_time_limit
    equal before bytes_eq
first_put_fails = refl

new_store-closes_example :
    (l : List (Resource machine)) × (shut_shop.world.log
      ≡ reverse (map closed l) ++ (map opened l ++ []))
new_store-closes_example =
    new_store-closes toy machine memory taken with_node (codes "n") [] opts shop shut_shop running
      handles already_exist store_opened first_put_fails
