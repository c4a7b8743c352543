-- ===== src/Lib.antt =====
-- p2p-verse: key-value stores that are replicated between peers over libp2p and go-ds-crdt.
--
-- The program's parts. `crdt/` holds the stores: a base store (`baseStore`, crdt/crdtverse.go) over
-- the replicated datastore, and four stores built round it, each with a validator: hash, signature,
-- updatable and updatable signature. An access store wraps one of three of these and lets those
-- read and write whom the holder of a master key granted an access. A message of another peer
-- reaches a store only through the topic validator (crdt/setup.go), which calls the store's own
-- validator on every entry. A store is opened by `initCRDT` and made or loaded by `NewStore`.
-- Beside them stand `ipfs/`, which stores files by their content, `bstore/`, a store of peers'
-- addresses, `pubsub/`, rooms where messages are published, and the libp2p glue: discovery.go and
-- bootstrap.go connect a host to bootstrap nodes and to the peers that a keyword finds. A room opens
-- its node with it (`NewPubSub`), and a store its DHT (`setupStore`).
--
-- Where to find what:
--   Common        names, tests on bytes and lists, the error values and `Result`; Action has code
--                 that changes a state and returns, fails or panics
--   Std           the parts of Go's standard library that the code computes with, and that are
--                 defined there by documented formats: text at slashes (`strings`), base64
--                 (`encoding/base64`), instants and their binary form (`time`)
--   External      what lies outside the repository, as records of functions with laws: message
--                 codecs, keys and signatures, the replicated datastore, the IPFS node, addresses,
--                 the network of a host, go-libp2p-pubsub, and what opening a store calls. The
--                 message records are those of crdt/pb, pb, ipfs/pb and pubsub/pb
--   Crdt.Address  `MakeAddress`, `parseAddress` (crdt/crdtverse.go)
--   Crdt.Base     `baseStore`, `baseValidator` (crdt/crdtverse.go); Running has its goroutines, and
--                 AppendOnly, Deadline and Refinement what it guarantees
--   Crdt.Options  `StoreOpts` and the functions that read it
--   Crdt.Filters  crdt/filters.go
--   Crdt.Crypto   crdt/crypto.go, and the names of public keys of crdt/signature.go
--   Crdt.Hash, Crdt.Signature, Crdt.Updatable, Crdt.UpdatableSignature
--                 the files of these names in crdt/; the child modules have the proofs
--   Crdt.Access   crdt/access.go; Bases has the three stores that it can wrap
--   Crdt.Setup    `validatorFunc` and what it calls (crdt/setup.go)
--   Crdt.Replication
--                 one copy of a store among its peers: the owner's writes, and messages that pass
--                 the topic validator and are merged; the keys of what is merged are cleaned
--   Crdt.Opening  `initCRDT`, `Cancel`, `Close` (crdt/crdtverse.go), `setupStore` (crdt/setup.go)
--   Crdt.Verse    `NewStore`, `loadStore` and what they call (crdt/crdtverse.go)
--   Crdt.Making   the constructors of the five stores, and in Instance these stores as what `NewStore`
--                 is written for; Released has what a store that fails leaves open,
--                 Wrapped an address with a master key, Shared an access store at another
--                 peer, Granting `NewAccessStore` when a grant fails
--   Crdt.TimeParams
--                 crdt/pb/timeparams.go
--   Ipfs          ipfs/ipfsverse.go: Blocks has `splitToBlocks`, Store the operations, Opening
--                 how a store and a CID getter are opened and closed; CidGetter is the rest
--                 of ipfs/cidgetter.go
--   Util          the text of peers' addresses (util.go)
--   Bstore        bstore/bootstrapstore.go; Opening has `NewBootstrapStore`
--   Bootstrap     bootstrap.go
--   Discovery     discovery.go and `AddrInfoSliceToMap` (util.go)
--   PubSub        pubsub/pubsub.go: Messages, Node with the objects that rooms share, Room with the
--                 operations of a room; the other child modules have the proofs
--   Sample        a small implementation of each outside part, with proofs of its laws
--   Tests         the theorems at concrete stores
-- A method of the code is a function that takes the state of its receiver; one that changes the
-- state returns it with the error, or none for a nil error. Names are the code's, in snake case.
--
-- Choices. Text and byte slices are lists of numbers; a slice that is nil is told from an empty one
-- only where the code tests it (the value of an entry, a value that was read, the salt option). A
-- channel of query results is the list of what is sent, and a query fails as a whole or not at all.
-- Fresh randomness and the clock are arguments. A key is named by its raw bytes. An
-- error of the program is a constructor of `Error`, and any other is `foreign`. The node of a room is
-- shared by pointers, so it is a place in a list of objects there. Beside the state of the outside
-- calls, opening a store keeps a log of what is opened and closed, which decides nothing. The
-- goroutine of `connectBootstraps` is waited for at once, and is run in place.
--
-- Fuel. Most loops run over a list. `reset` has its own bound of fifty rounds, and `loadStore` of
-- three. `loadCheck` ends with a context: how many ticks its `select` takes before the timeout is
-- given from outside, and a `Sync` that never returns is not modelled. `GetAll` ends only when the
-- subscription times out or fails: it takes fuel, one round more than there are messages is enough,
-- and it gives no result with less.
--
-- Concurrency. What other peers and the goroutines of a store do is a step relation: in
-- Crdt.Replication the steps are writes, messages of other peers, and syncs; in Crdt.Base.Running they
-- are what users of the store do, and the rounds of its goroutines.
--
-- Not modelled: making hosts, wrappers that pass on a field, generated code, and test helpers, which
-- drive the stores over a real network. Merging and the walk over the ancestors of a message's heads
-- belong to go-ds-crdt and are functions with laws: an entry is kept at the place of its key, which is
-- cleaned as a path.
pub mod Common
pub mod Std
pub mod External
pub mod Crdt
pub mod Ipfs
pub mod Util
pub mod Bootstrap
pub mod Bstore
pub mod Discovery
pub mod PubSub
pub mod Sample
mod Tests
