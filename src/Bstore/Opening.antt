-- ===== src/Bstore/Opening.antt =====
-- `NewBootstrapStore` of bstore/bootstrapstore.go, for the name that its `init` computes.
use p2p_verse.Common.{◌≡◌, ◌≢◌, refl, arith, none, [], Bytes, codes, load_failed}
use p2p_verse.Common.Action.{Action, returns, fails}
use p2p_verse.Std.Time.{zero_time}
use p2p_verse.External.Crypto.{External, IsLawful}
use p2p_verse.Crdt.Address.{make_address, parse_address-make_address}
use p2p_verse.Crdt.Options.{StoreOpts}
use p2p_verse.Crdt.Verse.{Stores, make_store, load_tries, load_rounds, new_store}
use p2p_verse.Crdt.Verse.Loading.{make_store-fails}

-- `StoreOpts{}`
abbrev pub no_opts : StoreOpts
no_opts = record { salt = none; priv = none; key = none; time_limit = zero_time }

abbrev pub updatable_signature_mode : Bytes
updatable_signature_mode = codes "updatableSignature"

module _ (x : External) {W S : Type 0} (o : Stores W S) (b_store_name : Bytes) where
  -- `NewBootstrapStore`; what `NewStore` makes in this mode passes the type assertion.
  unfoldable pub new_bootstrap_store : Action W S
  new_bootstrap_store w =
      make_store x o (make_address x b_store_name [] [] []) updatable_signature_mode no_opts w

  -- If the address of the bootstrap store can be made, and no peer has the store, so that all three
  -- tries to load it meet the timeout or the lock, and it can then be made, `NewBootstrapStore`
  -- fails, and the store that was made for it is not returned.
  pub new_bootstrap_store-fails :
      IsLawful x
      → (w v y : W) (s : S) → make_address x b_store_name [] [] [] ≢ []
      → load_tries o load_rounds b_store_name updatable_signature_mode no_opts w ≡ (v, returns none)
      → new_store o b_store_name updatable_signature_mode no_opts v ≡ (y, returns s)
      → new_bootstrap_store w ≡ (y, fails load_failed)
  unfolding new_bootstrap_store
  new_bootstrap_store-fails lawful w v y s made none_loads anew =
      make_store-fails x o (make_address x b_store_name [] [] []) updatable_signature_mode no_opts
        (record { name = b_store_name; salt = []; pid = []; time_limit = zero_time }) w v y s
        (parse_address-make_address x lawful b_store_name [] [] []
          (record { sec_fits = omega arith; nsec_fits = omega arith }) made)
        refl none_loads anew
