-- ===== src/Sample/Machine.antt =====
-- A machine where opening a store always succeeds, and stores that are never loaded in time.
use p2p_verse.Common.{ℕ, suc, true, none, [], ◌++◌, ok, ltb, if◌then◌else◌}
use p2p_verse.Common.Action.{returns}
use p2p_verse.External.Setup.{Setup}
use p2p_verse.Crdt.Verse.{Stores}
use p2p_verse.Sample.Addresses.{plain}
use p2p_verse.Sample.Air.{Air, net}

abbrev pub machine : Setup plain
machine = record {
  State = Air;
  Host = Unit;
  Context = Unit;
  Badger = Unit;
  Ipfs = Unit;
  Router = Unit;
  Broadcaster = Unit;
  Crdt = Unit;
  generate_host = λ s. (s, ok tt);
  host_close = λ s h. s;
  network = λ h. net;
  host_addrs = λ s h. [];
  join_path = λ d n. d ++ n;
  mkdir_all = λ s d. (s, none);
  remove_all = λ s d. s;
  background = tt;
  in_memory_datastore = λ s. (s, tt);
  with_cancel = λ s. (s, tt);
  cancel = λ s c. s;
  new_datastore = λ s d. (s, ok tt);
  datastore_close = λ s b. s;
  new_ipfs = λ s c b h. (s, ok tt);
  new_gossip_sub = λ s c h. (s, ok tt);
  register_topic_validator = λ s r n h b i. (s, none);
  new_broadcaster = λ s c r n. (s, ok tt);
  new_crdt = λ s b n i p. (s, ok tt);
  crdt_close = λ s c. s;
}

-- A store is the number of stores that were made before it. Up to that of the given number the
-- ticker never ticks; after it a store is loaded at once.
abbrev pub slow_until : ℕ → Stores ℕ ℕ
slow_until n = record {
  new_of = λ m name opt w. (suc w, returns w);
  init_put = λ s w. (w, none);
  close = λ s w. w;
  cancel = λ s w. w;
  sync = λ s w. (w, none);
  load_check = λ s w. (w, true);
  auto_sync = λ s w. w;
  ticks = λ w. if ltb n w then 30 else 0;
  load_access_store = λ s pid opt w. (w, ok s);
}
