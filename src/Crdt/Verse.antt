-- ===== src/Crdt/Verse.antt =====
-- crdt/crdtverse.go: making and loading a store, `NewStore` with all that it calls. What the steps
-- do to a store is left to `Stores`; the printing is left out.
pub mod Loading
use p2p_verse.Common.{
  ℕ, zero, suc, Bool, true, false, Option, none, some, List, [], ◌∷◌, Bytes, codes, Error, foreign,
  load_failed, sync_timeout, Result, ok, err, if◌then◌else◌, bytes_eq, ltb, length,
}
use p2p_verse.Common.Action.{Ending, returns, fails, panics, of_result, Action, ◌>>=◌}
use p2p_verse.Std.Text.{has_prefix}
use p2p_verse.Std.Time.{Time, zero_time}
use p2p_verse.External.Crypto.{External}
use p2p_verse.Crdt.Address.{Parsed, parse_address}
use p2p_verse.Crdt.Options.{StoreOpts}

-- The modes of `selectNewStore`.
pub data Mode : Type 0 where
  updatable signature updatable_signature hash log : Mode

unfoldable pub mode_of : Bytes → Mode
mode_of mode =
    if bytes_eq mode (codes "updatable")
    then updatable
    else if bytes_eq mode (codes "signature")
    then signature
    else if bytes_eq mode (codes "updatableSignature")
    then updatable_signature
    else if bytes_eq mode (codes "hash")
    then hash
    else log

-- The methods of `IStore` that are called here, and the constructors of the five kinds of store.
pub record Stores (W S : Type 0) : Type 0 where
  -- `NewUpdatableStore`, `NewSignatureStore` and so on
  pub new_of : Mode → Bytes → StoreOpts → Action W S
  pub init_put : S → W → W × Option Error
  pub close : S → W → W
  pub cancel : S → W → W
  pub sync : S → W → W × Option Error
  pub load_check : S → W → W × Bool
  pub auto_sync : S → W → W
  -- How often the `select` of `loadCheck` takes the ticker before it takes the timeout.
  pub ticks : W → ℕ
  -- `loadAccessStore`
  pub load_access_store : S → Bytes → StoreOpts → W → W × Result S

-- `dirLock` and `timeout`, as prefixes of the text of an error; of the program's own errors only
-- that of `loadCheck` begins so.
unfoldable pub is_dir_lock : Error → Bool
is_dir_lock (foreign text) = has_prefix text (codes "Cannot acquire directory lock on")
is_dir_lock e = false

unfoldable pub is_timeout : Error → Bool
is_timeout (foreign text) = has_prefix text (codes "load error: sync timeout")
is_timeout sync_timeout = true
is_timeout e = false

-- The salt of a message, which is nil if the message has none.
abbrev pub salt_of : Bytes → Option Bytes
salt_of [] = none
salt_of (c ∷ s) = some (c ∷ s)

-- `N` of `loadStore`
abbrev pub load_rounds : ℕ
load_rounds = 3

module _ {W S : Type 0} (o : Stores W S) where
  abbrev pub select_new_store : Bytes → Bytes → StoreOpts → Action W S
  select_new_store name mode opt = o.new_of (mode_of mode) name opt

  -- `initPut` of a new store, which is closed if it fails.
  unfoldable pub put_first : S → Action W S
  put_first s w =
      let (u, e) = o.init_put s w in
      elim e [ some x ↦ (o.close s u, fails x) | none ↦ (u, returns s) ]

  -- `newStore`
  unfoldable pub new_store : Bytes → Bytes → StoreOpts → Action W S
  new_store name mode opt = select_new_store name mode opt >>= put_first

  -- The loop of `loadCheck` by the ticks that it takes before the timeout.
  unfoldable pub check_rounds : ℕ → S → Action W (Unit {0})
  check_rounds zero s w = (o.cancel s w, fails sync_timeout)
  check_rounds (suc n) s w =
      let (v, e) = o.sync s w in
      elim e [
        | some x ↦ (o.close s v, fails x)
        | none ↦
            let (t, loaded) = o.load_check s v in
            elim loaded [ true ↦ (t, returns tt) | false ↦ check_rounds n s t ]
      ]

  abbrev pub load_check : S → Action W (Unit {0})
  load_check s w = check_rounds (o.ticks w) s w

  -- What a try of `loadStore` comes to: the store, an error, or another try.
  unfoldable pub checked : S → Ending (Unit {0}) → Ending (Option S)
  checked s (returns u) = returns (some s)
  checked s (fails e) = if is_timeout e then returns none else fails e
  checked s panics = panics

  unfoldable pub try_opened : Ending S → Action W (Option S)
  try_opened (returns s) w = let (u, e) = load_check s w in (u, checked s e)
  try_opened (fails e) w = (w, if is_dir_lock e then returns none else fails e)
  try_opened panics w = (w, panics)

  unfoldable pub try_load : Bytes → Bytes → StoreOpts → Action W (Option S)
  try_load name mode opt w = let (u, e) = select_new_store name mode opt w in try_opened e u

  -- The loop of `loadStore`; no store is that all tries are used up.
  unfoldable pub load_tries : ℕ → Bytes → Bytes → StoreOpts → Action W (Option S)
  load_tries zero name mode opt w = (w, returns none)
  load_tries (suc n) name mode opt w =
      (try_load name mode opt >>= (λ r. elim r [
        | some s ↦ (λ u. (u, returns (some s)))
        | none ↦ load_tries n name mode opt
      ]))
        w

  -- The end of `loadStore`, whose last line returns a store and an error.
  unfoldable pub conclude : Bytes → Bytes → StoreOpts → Option S → Action W (S × Option Error)
  conclude name mode opt (some s) w = (w, returns (s, none))
  conclude name mode opt none w =
      (do s ← new_store name mode opt; λ u. (u, returns (s, some load_failed))) w

  -- `loadStore`
  unfoldable pub load_store : Bytes → Bytes → StoreOpts → Action W (S × Option Error)
  load_store name mode opt = load_tries load_rounds name mode opt >>= conclude name mode opt

  -- The end of `NewStore`.
  unfoldable pub settle : S → Option Error → Action W S
  settle s (some e) w = (w, fails e)
  settle s none w = (o.auto_sync s w, returns s)

  unfoldable pub grant_access : S → StoreOpts → W × Result S → W × Ending S
  unfolding settle
  grant_access s opt (w, ok s') = settle s' none w
  grant_access s opt (w, err e) = settle s (some e) w

  -- The access store that an address names takes the place of the store, and of its error.
  unfoldable pub finish : Bytes → StoreOpts → S × Option Error → Action W S
  unfolding grant_access
  finish [] opt (s, e) w = settle s e w
  finish (c ∷ pid) opt (s, e) w = grant_access s opt (o.load_access_store s (c ∷ pid) opt w)

  -- `NewStore` for what `parseAddress` says of the name.
  unfoldable pub new_or_load : Result Parsed → Bytes → Bytes → StoreOpts → Action W S
  new_or_load (err e) name mode opt = new_store name mode opt >>= (λ s. finish [] opt (s, none))
  new_or_load (ok p) name mode opt =
      let opt' = record opt { salt = salt_of p.salt; time_limit = p.time_limit } in
      load_store p.name mode opt' >>= finish p.pid opt'

module _ (x : External) {W S : Type 0} (o : Stores W S) where
  -- `NewStore`
  unfoldable pub make_store : Bytes → Bytes → StoreOpts → Action W S
  make_store name mode opt = new_or_load o (parse_address x name) name mode opt
