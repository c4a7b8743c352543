-- ===== src/Discovery.antt =====
-- discovery.go and bootstrap.go: connecting to bootstrap nodes, and to the peers that a keyword
-- finds. The goroutine of `connectBootstraps` is waited for at once. What is printed is left out.
pub mod Candidates
pub mod Connected
pub mod Known
use p2p_verse.Common.{
  ℕ, suc, Bool, true, false, not, ◌||◌, Option, none, some, List, [], ◌∷◌, ◌++◌, arith, Bytes,
  Error, no_bootstraps, Result, ok, err, length, ltb, leb, bytes_eq, if◌then◌else◌,
}
use p2p_verse.External.Addresses.{Addresses, AddrInfo}
use p2p_verse.External.Network.{Network, is_done}

-- `maxSuccess`
abbrev pub max_success : ℕ
max_success = 5

abbrev pub Lookup : Addresses → Type 0
Lookup a = Bytes → Option (AddrInfo a)

module _ (a : Addresses) where
  -- The loop of `AddrInfoSliceToMap`: a later entry of an identity replaces an earlier one.
  put_all : Lookup a → List (AddrInfo a) → Lookup a
  put_all m [] = m
  put_all m (elem ∷ slc) = put_all (λ id. if bytes_eq id elem.id then some elem else m id) slc

  unfoldable pub addr_info_slice_to_map : List (AddrInfo a) → Lookup a
  unfolding put_all
  addr_info_slice_to_map slc = put_all (λ id. none) slc

  -- The loop over the connected peers in `NewBootstrap`
  unfoldable pub known_peers : Lookup a → List Bytes → List (AddrInfo a)
  known_peers m [] = []
  known_peers m (pid ∷ pids) = elim (m pid) [
    | some ai ↦ ai ∷ known_peers m pids
    | none ↦ known_peers m pids
  ]

module _ {a : Addresses} {S : Type 0} (n : Network a S) where
  -- One round of the loop of `connectBootstraps`, with whether it sets `isSuccess`.
  unfoldable pub greet : S → AddrInfo a → S × Bool
  greet s other =
      if n.is_connected s other.id
      then (s, true)
      else (let (t, e) = n.connect s other in (t, is_done e))

  unfoldable pub greet_all : S → Bool → List (AddrInfo a) → S × Bool
  greet_all s is_success [] = (s, is_success)
  greet_all s is_success (other ∷ others) =
      let (t, found) = greet s other in greet_all t (found || is_success) others

  unfoldable pub connect_bootstraps : S → List (AddrInfo a) → S × Option Error
  connect_bootstraps s others =
      let (t, is_success) = greet_all s false others in
      (t, if is_success then none else some no_bootstraps)

  -- The tests of the loop over the peers found that skip a peer for good.
  unfoldable pub is_candidate : AddrInfo a → Bool
  is_candidate peer =
      if bytes_eq peer.id n.self then false else if ltb 0 (length peer.addrs) then true else false

  -- One round of that loop for a candidate, who counts whether or not the connection is made.
  unfoldable pub meet_one : S → AddrInfo a → S
  meet_one s peer = if n.is_connected s peer.id then s else (n.connect s peer).0

  unfoldable pub meet_peers : ℕ → S → List (AddrInfo a) → S
  meet_peers n_success s [] = s
  meet_peers n_success s (peer ∷ peers) =
      let skipped = meet_peers n_success s peers in
      let counted = meet_peers (suc n_success) (meet_one s peer) peers in
      if leb max_success n_success then s else if is_candidate peer then counted else skipped

  meet_found : S × Result (List (AddrInfo a)) → S × Option Error
  meet_found (s, err e) = (s, some e)
  meet_found (s, ok peers) = (meet_peers 0 s peers, none)

  find_by : Bytes → S × Option Error → S × Option Error
  unfolding meet_found
  find_by keyword (s, some e) = (s, some e)
  find_by keyword (s, none) = meet_found (n.find_peers (n.advertise s keyword) keyword)

  bootstrap_by : Bytes → S × Option Error → S × Option Error
  unfolding find_by
  bootstrap_by keyword (s, some e) = (s, some e)
  bootstrap_by keyword (s, none) = find_by keyword (n.bootstrap s)

  -- `DiscoveryDHT.Bootstrap`
  unfoldable pub bootstrap : S → Bytes → List (AddrInfo a) → S × Option Error
  unfolding bootstrap_by
  bootstrap s keyword bootstraps = bootstrap_by keyword (connect_bootstraps s bootstraps)

  discovery_from : Bytes → List (AddrInfo a) → S × Option Error → S × Option Error
  discovery_from keyword bootstraps (s, some e) = (s, some e)
  discovery_from keyword bootstraps (s, none) = bootstrap s keyword bootstraps

  -- `Discovery`, which goes on like `Bootstrap` once it has a DHT.
  unfoldable pub discovery : S → Bytes → List (AddrInfo a) → S × Option Error
  unfolding discovery_from
  discovery s keyword bootstraps = discovery_from keyword bootstraps (n.kad_new s)
