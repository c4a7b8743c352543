-- ===== src/Tests/Nodes.antt =====
-- Bootstrap nodes.
use p2p_verse.Common.{◌≡◌, ◌⊎◌, refl, [], ◌∷◌, codes, no_bootstraps, bytes_eq}
use p2p_verse.Common.Action.{◌>>=◌, returns, fails}
use p2p_verse.External.Addresses.{AddrInfo}
use p2p_verse.Sample.Addresses.{plain}
use p2p_verse.Sample.Air.{net-IsLawful, among}
use p2p_verse.Sample.Machine.{machine}
use p2p_verse.Discovery.{connect_bootstraps, greet, greet_all, addr_info_slice_to_map, known_peers}
use p2p_verse.Crdt.Opening.{World, host, dht, opened, closed}
use p2p_verse.Bootstrap.{Node, new_bootstrap, join, settle}
use p2p_verse.Bootstrap.Peers.{Lists, new_bootstrap-Lists}
use p2p_verse.Bootstrap.Leaks.{new_bootstrap-fails}

abbrev near : AddrInfo plain
near = record { id = codes "p1"; addrs = codes "/a" ∷ [] }

-- It has no address.
abbrev far : AddrInfo plain
far = record { id = codes "p2"; addrs = [] }

abbrev nowhere : World machine
nowhere = record { outside = record { ids = []; queue = [] }; log = [] }

abbrev linked : World machine
linked = record {
  outside = record { ids = codes "p1" ∷ []; queue = [] };
  log = opened (dht tt) ∷ opened (host tt) ∷ [];
}

abbrev node : Node machine
node = record { h = tt; peers = near ∷ [] }

near_made : new_bootstrap machine (far ∷ near ∷ []) nowhere ≡ (linked, returns node)
unfolding new_bootstrap join settle ◌>>=◌ connect_bootstraps greet_all greet among
    addr_info_slice_to_map known_peers bytes_eq
near_made = refl

new_bootstrap-Lists_example : Lists machine (far ∷ near ∷ []) linked node
new_bootstrap-Lists_example =
    new_bootstrap-Lists machine (λ h. net-IsLawful) (far ∷ near ∷ []) nowhere linked node (λ e. cc)
      near_made

abbrev left_open : World machine
left_open = record {
  outside = record { ids = []; queue = [] };
  log = closed (dht tt) ∷ opened (dht tt) ∷ opened (host tt) ∷ [];
}

far_fails : new_bootstrap machine (far ∷ []) nowhere ≡ (left_open, fails no_bootstraps)
unfolding new_bootstrap join settle ◌>>=◌ connect_bootstraps greet_all greet among
far_fails = refl

new_bootstrap-fails_example :
    (left_open.log ≡ opened (host tt) ∷ [])
    ⊎ (left_open.log ≡ closed (dht tt) ∷ opened (dht tt) ∷ opened (host tt) ∷ [])
new_bootstrap-fails_example =
    new_bootstrap-fails machine (far ∷ []) nowhere left_open nowhere.outside tt no_bootstraps refl
      far_fails
