-- ===== src/Crdt/Verse/Loading.antt =====
-- Which tries of `loadStore` load a store, and what is left of one that could not be loaded.
use p2p_verse.Std.Text.{has_prefix}
use p2p_verse.Common.{
  true, foreign, sync_timeout, codes, ◌⊎◌, inl, inr, subst, ℕ, zero, suc, ◌<◌, ◌≡◌, refl, ◌≢◌, ◌↔◌,
  Option, none, some, arith, Bytes, Error, load_failed, ok, [], ap, ◌∙◌,
}
use p2p_verse.Common.Action.{Ending, returns, fails, panics, Action, ◌>>=◌, returns-bind}
use p2p_verse.External.Crypto.{External}
use p2p_verse.Crdt.Address.{Parsed, parse_address}
use p2p_verse.Crdt.Options.{StoreOpts}
use p2p_verse.Crdt.Verse.{
  salt_of, Stores, select_new_store, load_check, checked, try_opened, is_dir_lock, is_timeout,
  try_load, load_tries, load_store, load_rounds, new_store, make_store, new_or_load, finish, settle,
  conclude,
}

abbrev error_of : {S : Type 0} → Ending (S × Option Error) → Option Error
error_of (returns (s, e)) = e
error_of e = none

load_failed-ne-none : some load_failed ≢ none
load_failed-ne-none h = cc

pair : {A B : Type 0} (p : A × B) (a : A) (b : B) → p.0 ≡ a → p.1 ≡ b → p ≡ (a, b)
pair (x, y) a b h k = rw (h, k) refl

module _ {W S : Type 0} (o : Stores W S) (name mode : Bytes) (opt : StoreOpts) where
  -- The two errors that make `loadStore` try again: the lock of the directory when the store is
  -- opened, and the timeout when it is checked.
  abbrev pub IsLock : Error → Type 0
  IsLock e =
      (text : Bytes) × (e ≡ foreign text)
      × (has_prefix text (codes "Cannot acquire directory lock on") ≡ true)

  abbrev pub IsTimeout : Error → Type 0
  IsTimeout e =
      (e ≡ sync_timeout)
      ⊎ ((text : Bytes) × (e ≡ foreign text)
          × (has_prefix text (codes "load error: sync timeout") ≡ true))

  -- A try that met one of them.
  abbrev pub Retried : W → W → Type 0
  Retried w u =
      ((e : Error) × IsLock e × (select_new_store o name mode opt w ≡ (u, fails e)))
      ⊎ ((s : S) × (v : W) × (e : Error) × IsTimeout e
          × (select_new_store o name mode opt w ≡ (v, returns s))
          × (load_check o s v ≡ (u, fails e)))

  -- A try that opens a store which passes the check.
  abbrev pub Loaded : W → W → S → Type 0
  Loaded w u s =
      (v : W) × (select_new_store o name mode opt w ≡ (v, returns s))
      × (load_check o s v ≡ (u, returns tt))

  -- So many tries that met a lock or a timeout lead from one state to the other.
  pub data Retries : ℕ → W → W → Type 0 where
    here : {w : W} → Retries 0 w w
    again : {n : ℕ} {w u v : W} → Retried w u → Retries n u v → Retries (suc n) w v

  -- One of so many tries loads the store, after tries that met a lock or a timeout.
  abbrev pub Loads : ℕ → W → W → S → Type 0
  Loads n w u s = (k : ℕ) × (v : W) × (k < n) × Retries k w v × Loaded v u s

  is_dir_lock-IsLock : (e : Error) → is_dir_lock e ≡ true → IsLock e
  unfolding is_dir_lock
  is_dir_lock-IsLock (foreign text) h = (text, refl, h)
  is_dir_lock-IsLock e h = cc

  IsLock-is_dir_lock : (e : Error) → IsLock e → is_dir_lock e ≡ true
  unfolding is_dir_lock
  IsLock-is_dir_lock e (text, same, h) = rw same h

  is_timeout-IsTimeout : (e : Error) → is_timeout e ≡ true → IsTimeout e
  unfolding is_timeout
  is_timeout-IsTimeout (foreign text) h = inr (text, refl, h)
  is_timeout-IsTimeout sync_timeout h = inl refl
  is_timeout-IsTimeout e h = cc

  IsTimeout-is_timeout : (e : Error) → IsTimeout e → is_timeout e ≡ true
  unfolding is_timeout
  IsTimeout-is_timeout e (inl same) = rw same refl
  IsTimeout-is_timeout e (inr (text, same, h)) = rw same h

  checked-none :
      (s : S) (r : Ending (Unit {0}))
      → checked o s r ≡ returns none
      → (e : Error) × (r ≡ fails e) × IsTimeout e
  unfolding checked
  checked-none s (returns x) h = cc
  checked-none s (fails e) h = (e, refl, is_timeout-IsTimeout e (ground arith))
  checked-none s panics h = cc

  checked-some :
      (s t : S) (r : Ending (Unit {0}))
      → checked o s r ≡ returns (some t)
      → (s ≡ t) × (r ≡ returns tt)
  unfolding checked
  checked-some s t (returns x) h = (cc, refl)
  checked-some s t (fails e) h = absurd (ground arith)
  checked-some s t panics h = cc

  try_opened-none :
      (w v u : W) (r : Ending S)
      → select_new_store o name mode opt w ≡ (v, r)
      → try_opened o r v ≡ (u, returns none)
      → Retried w u
  unfolding try_opened
  try_opened-none w v u (returns s) e h =
      let (x, failed, late) = checked-none s (load_check o s v).1 (ap (λ q. q.1) h) in
      inr (s, v, x, late, e, pair (load_check o s v) u (fails x) (ap (λ q. q.0) h) failed)
  try_opened-none w v u (fails x) e h =
      inl (x, is_dir_lock-IsLock x (ground arith), e ∙ ap (λ y. (y, fails x)) (ap (λ q. q.0) h))
  try_opened-none w v u panics e h = cc

  try_opened-some :
      (w v u : W) (s : S) (r : Ending S)
      → select_new_store o name mode opt w ≡ (v, r)
      → try_opened o r v ≡ (u, returns (some s))
      → Loaded w u s
  unfolding try_opened
  try_opened-some w v u s (returns t) e h =
      let (same, passed) = checked-some t s (load_check o t v).1 (ap (λ q. q.1) h) in
      (
        v,
        e ∙ ap (λ y. (v, returns y)) same,
        subst (λ y. load_check o y v ≡ (u, returns tt)) same
            (pair (load_check o t v) u (returns tt) (ap (λ q. q.0) h) passed),
      )
  try_opened-some w v u s (fails x) e h = absurd (ground arith)
  try_opened-some w v u s panics e h = cc

  -- A try comes to another one exactly if it met the lock or the timeout.
  try_load-none : (w u : W) → (try_load o name mode opt w ≡ (u, returns none)) ↔ Retried w u
  unfolding try_load try_opened checked
  try_load-none w u = (
    λ h.
        try_opened-none w (select_new_store o name mode opt w).0 u
          (select_new_store o name mode opt w).1 refl h,
    λ h. elim h [
      | inl (e, lock, met) ↦ rw (met, IsLock-is_dir_lock e lock) refl
      | inr (s, v, e, late, opened, met) ↦ rw (opened, met, IsTimeout-is_timeout e late) refl
    ],
  )

  try_load-some :
      (w u : W) (s : S) → (try_load o name mode opt w ≡ (u, returns (some s))) ↔ Loaded w u s
  unfolding try_load try_opened checked
  try_load-some w u s = (
    λ h.
        try_opened-some w (select_new_store o name mode opt w).0 u s
          (select_new_store o name mode opt w).1 refl h,
    λ (v, opened, passed). rw (opened, passed) refl,
  )

  -- What the loop does after a try.
  abbrev rest : ℕ → Option S → Action W (Option S)
  rest n (some s) u = (u, returns (some s))
  rest n none u = load_tries o n name mode opt u

  step :
      (n : ℕ) (w u : W) (r : Option S)
      → try_load o name mode opt w ≡ (u, returns r)
      → load_tries o (suc n) name mode opt w ≡ rest n r u
  unfolding load_tries ◌>>=◌
  step n w u none h = rw (h, load_tries) refl
  step n w u (some s) h = rw (h, load_tries) refl

  Loads-suc : {n : ℕ} {w v u : W} {s : S} → Retried w v → Loads n v u s → Loads (suc n) w u s
  Loads-suc h (k, v, l, r, t) = (suc k, v, omega (arith, l), Retries.again h r, t)

  loads :
      (n : ℕ) (w u : W) (s : S)
      → load_tries o n name mode opt w ≡ (u, returns (some s))
      → Loads n w u s
  unfolding load_tries
  loads zero w u s h = cc
  loads (suc n) w u s h =
      let (r, v, tried, left) = returns-bind (try_load o name mode opt) (rest n) w u (some s) h in
      after (λ e. loads n v u s e) r tried left
    where
      after :
          {v : W}
          → (load_tries o n name mode opt v ≡ (u, returns (some s)) → Loads n v u s)
          → (r : Option S) → try_load o name mode opt w ≡ (v, returns r)
          → rest n r v ≡ (u, returns (some s))
          → Loads (suc n) w u s
      after more none tried left = Loads-suc ((try_load-none w _).0 tried) (more left)
      after more (some s') tried left =
          (0, w, omega arith, Retries.here, (try_load-some w u s).0 (tried ∙ left))

  loaded :
      (n k : ℕ) (w v u : W) (s : S)
      → k < n
      → Retries k w v
      → Loaded v u s
      → load_tries o n name mode opt w ≡ (u, returns (some s))
  loaded zero k w v u s l r h = absurd (omega (arith, l))
  loaded (suc n) k w v u s l Retries.here h = step n w u (some s) ((try_load-some w u s).1 h)
  loaded (suc n) k w v u s l (Retries.again {n = k'} {u = t} tried r) h =
      step n w t none ((try_load-none w t).1 tried) ∙ loaded n k' t v u s (omega (arith, l)) r h

  abbrev store_of : Ending (S × Option Error) → Ending (Option S)
  store_of (returns (s, e)) = returns (some s)
  store_of (fails e) = fails e
  store_of panics = panics

  kept :
      (w u v : W) (s : S) (r : Option S)
      → load_tries o load_rounds name mode opt w ≡ (v, returns r)
      → conclude o name mode opt r v ≡ (u, returns (s, none))
      → Loads load_rounds w u s
  unfolding conclude
  kept w u v s (some s') tried left =
      loads load_rounds w u s (tried ∙ ap (λ q. (q.0, store_of q.1)) left)
  kept w u v s none tried left =
      let (s', t, made, failed) =
        returns-bind (new_store o name mode opt) (λ s' t. (t, returns (s', some load_failed))) v u
          (s, none) left in
      absurd (load_failed-ne-none (ap (λ q. error_of q.1) failed))

  -- `loadStore` returns a store without an error exactly if one of its three tries opens that store
  -- and the store passes the check, after tries each of which met the lock of the directory when it
  -- opened the store, or the timeout when it checked it.
  pub load_store_iff :
      (w u : W) (s : S) → (load_store o name mode opt w ≡ (u, returns (s, none))) ↔ Loads 3 w u s
  unfolding load_store ◌>>=◌ conclude
  load_store_iff w u s = (
    λ h.
        let (r, v, tried, left) =
          returns-bind (load_tries o load_rounds name mode opt) (conclude o name mode opt) w u
            (s, none) h in
        kept w u v s r tried left,
    λ (k, v, l, r, t). rw (loaded load_rounds k w v u s l r t) refl,
  )

  -- If all three tries meet the lock or the timeout, and a store can then be made, it is returned
  -- with an error.
  load_store-fails :
      (w v y : W) (s : S)
      → load_tries o load_rounds name mode opt w ≡ (v, returns none)
      → new_store o name mode opt v ≡ (y, returns s)
      → load_store o name mode opt w ≡ (y, returns (s, some load_failed))
  unfolding load_store ◌>>=◌ conclude
  load_store-fails w v y s h k = rw (h, k) refl

module _ (x : External) {W S : Type 0} (o : Stores W S) where
  -- If an address of no access store is given, all three tries to load it meet the lock or the
  -- timeout, and a store can then be made in its place, `NewStore` fails, and the state is the one
  -- in which that store has just been made: it is neither closed nor cancelled, and not returned.
  pub make_store-fails :
      (name mode : Bytes) (opt : StoreOpts) (p : Parsed) (w v y : W) (s : S)
      → parse_address x name ≡ ok p
      → p.pid ≡ []
      → load_tries o load_rounds p.name mode
          (record opt { salt = salt_of p.salt; time_limit = p.time_limit })
          w
        ≡ (v, returns none)
      → new_store o p.name mode (record opt { salt = salt_of p.salt; time_limit = p.time_limit }) v
        ≡ (y, returns s)
      → make_store x o name mode opt w ≡ (y, fails load_failed)
  unfolding make_store new_or_load ◌>>=◌ finish settle
  make_store-fails name mode opt p w v y s h none_named k l =
      rw
        (
          h,
          load_store-fails o p.name mode
              (record opt { salt = salt_of p.salt; time_limit = p.time_limit }) w v y s k l,
          none_named,
        )
        refl
