-- ===== src/Crdt/Replication/Kept.antt =====
-- What every store keeps, however it validates: no entry is lost or changed, and all that it holds
-- fits what its validator stands for, where this does not depend on how a key is spelled.
use p2p_verse.Common.{
  ◌≡◌, ◌≢◌, ◌⊎◌, inl, inr, refl, Bool, true, false, none, some, List, [], ◌∷◌, ◌++◌, arith, Bytes,
  Result, ok, Bool-cases, In, All-In, subst, sym, ◌∙◌, bytes_eq, bytes_eq_iff, if◌then◌else◌,
}
use p2p_verse.Std.Time.{Time}
use p2p_verse.External.Datastore
use p2p_verse.External.Datastore.{Datastore}
use p2p_verse.Crdt.Base.{BaseStore, put, has, set_time_limit, deadline, sync, is_true}
use p2p_verse.Crdt.Base.AppendOnly.{put_fresh}
use p2p_verse.Crdt.Setup.{Element, Delta, validator_func}
use p2p_verse.Crdt.Setup.Validator.{IsAppend, IsNewEntry, validator_func_iff}
use p2p_verse.Crdt.Replication.{
  Replica, IsKey, slot, IsLawful, IsHeld, IsRead, OnlyAdds, elements_of, receive, Step, writes,
  receives, limits, expires, syncs, Reach, here, next,
}

-- From one copy of a store to a later one no entry is lost or changed.
abbrev pub Keeps : {d : Datastore} → BaseStore d → BaseStore d → Type 0
Keeps {d} s t = (key val : Bytes) → IsHeld d s.dt key val → IsHeld d t.dt key val

abbrev pub AllFit : {d : Datastore} → (Bytes → Bytes → Type 0) → BaseStore d → Type 0
AllFit {d} Fits s = (key val : Bytes) → IsHeld d s.dt key val → Fits key val

In-append : (e : Element) (es fs : List Element) → In e (es ++ fs) → In e es ⊎ In e fs
In-append e [] fs m = inr m
In-append e (f ∷ es) fs (inl h) = inl (inl h)
In-append e (f ∷ es) fs (inr m) = elim (In-append e es fs m) [ inl h ↦ inl (inr h) | inr h ↦ inr h ]

In-elements_of :
    (e : Element) (ds : List Delta)
    → In e (elements_of ds)
    → (delta : Delta) × In delta ds × In e delta.elements
In-elements_of e [] m = absurd m
In-elements_of e (delta ∷ ds) m = elim (In-append e delta.elements (elements_of ds) m) [
  | inl h ↦ (delta, inl refl, h)
  | inr h ↦ let (found, there, inside) = In-elements_of e ds h in (found, inr there, inside)
]

some_injective : (v w : Bytes) → Result.ok (some v) ≡ ok (some w) → v ≡ w
some_injective v w h = cc

not_both : (b : Bool) → b ≡ true → b ≡ false → ⊥
not_both b h k = cc

present : (q : Result Bool) → q ≡ ok true → is_true q ≡ true
present q h = rw h

module _ {d : Datastore} (stored : Datastore.IsLawful d) where
  module _ (s : BaseStore d) (key val : Bytes) (h : (put d s key val).1 ≡ none) where
    get-written :
        (j : Bytes)
        → d.get (put d s key val).0.dt j
          ≡ (if bytes_eq j (d.new_key key) then ok (some val) else d.get s.dt j)
    get-written j =
        let (absent, wrote, same) = put_fresh d s key val h in
        rw same (stored.get-put s.dt (d.new_key key) val j wrote)

    pub put-Keeps : Keeps s (put d s key val).0
    unfolding has
    put-Keeps j v held =
        let (absent, wrote, same) = put_fresh d s key val h in
        elim (Bool-cases (bytes_eq j (d.new_key key))) [
          | inl e ↦
              let same_key = (bytes_eq_iff j (d.new_key key)).0 e in
              let there = stored.has_of_get s.dt j v held in
              absurd
                (not_both _ (present _ (subst (λ k. d.has s.dt k ≡ ok true) same_key there)) absent)
          | inr e ↦ get-written j ∙ rw e held
        ]

    pub put-AllFit :
        (Fits : Bytes → Bytes → Type 0)
        → Fits (d.new_key key) val
        → AllFit Fits s
        → AllFit Fits (put d s key val).0
    put-AllFit Fits fit all j v held = elim (Bool-cases (bytes_eq j (d.new_key key))) [
      | inl e ↦
          let same_key = (bytes_eq_iff j (d.new_key key)).0 e in
          let same_val = some_injective val v (sym (get-written j ∙ rw e) ∙ held) in
          subst (λ k. Fits k v) (sym same_key) (subst (λ w. Fits (d.new_key key) w) same_val fit)
      | inr e ↦ all j v (sym (get-written j ∙ rw e) ∙ held)
    ]

module _ {d : Datastore} (r : Replica d) where
  -- What fits a key that a peer may send, fits the key that it is kept under.
  abbrev pub Moves : (Bytes → Bytes → Type 0) → (Bytes → Type 0) → d.State → Type 0
  Moves Fits Sent s =
      (j key val : Bytes)
      → Sent j
      → IsKey key
      → slot r s j ≡ slot r s key
      → Fits j val
      → Fits key val

module _ {d : Datastore} (r : Replica d) (lawful : IsLawful r)
    (v : BaseStore d → Bytes → Bytes → Bool) where
  module _ (s : BaseStore d) (pid msg : Bytes) (other : r.self ≢ pid) (read : IsRead r s.dt msg)
      (taken : validator_func (r.exchange s.dt) r.self (v s) (d.new_key r.name) pid msg
        ≡ true) where
    -- Of a message that was taken, every delta that is read appends.
    brought-IsAppend :
        (delta : Delta)
        → In delta (r.brings s.dt msg)
        → IsAppend (r.exchange s.dt) (v s) (d.new_key r.name) delta
    brought-IsAppend delta m =
        let (ds, made, all) =
          (validator_func_iff (r.exchange s.dt) (v s) (d.new_key r.name) r.self pid msg other).0
            taken in
        let (ds', made', reads) = read in
        All-In (IsAppend (r.exchange s.dt) (v s) (d.new_key r.name)) ds delta all
          (subst (λ l. In delta l) (same ds' ds (sym made' ∙ made)) (reads delta m))
      where
        same : (a b : List Delta) → ◌≡◌ {A = Result (List Delta)} (ok a) (ok b) → a ≡ b
        same a b h = cc

    brought-OnlyAdds : OnlyAdds (r.brings s.dt msg)
    brought-OnlyAdds delta m = (brought-IsAppend delta m).1

    brought-IsNewEntry :
        (e : Element)
        → In e (elements_of (r.brings s.dt msg))
        → IsNewEntry (r.exchange s.dt) (v s) (d.new_key r.name) e
    brought-IsNewEntry e m =
        let (delta, there, inside) = In-elements_of e (r.brings s.dt msg) m in
        All-In (IsNewEntry (r.exchange s.dt) (v s) (d.new_key r.name)) delta.elements e
          (brought-IsAppend delta there).0 inside

    merge-Keeps : Keeps s (record s { dt = r.merge s.dt msg })
    merge-Keeps key val held =
        lawful.untouched s.dt msg key val brought-OnlyAdds
          (λ e m same.
            let absent = (brought-IsNewEntry e m).1 in
            let here = lawful.held s.dt key val held in
            not_both _ here (subst (λ k. is_true ((r.exchange s.dt).has k) ≡ false) same absent))
          held

    merge-AllFit :
        (Fits : Bytes → Bytes → Type 0) (Sent : Bytes → Type 0)
        → ((key val : Bytes) → v s key val ≡ true → Fits key val)
        → Moves r Fits Sent s.dt
        → ((e : Element) → In e (elements_of (r.brings s.dt msg)) → Sent e.key)
        → AllFit Fits s
        → AllFit Fits (record s { dt = r.merge s.dt msg })
    merge-AllFit Fits Sent valid moves sent all key val held =
        elim (lawful.source s.dt msg key val brought-OnlyAdds held) [
          | inl before ↦ all key val before
          | inr (spelled, (e, m, same_place, same_val)) ↦
              let fit = valid e.key e.value (brought-IsNewEntry e m).0 in
              moves e.key key val (sent e m) spelled same_place
                (subst (λ w. Fits e.key w) same_val fit)
        ]

  receive-Keeps :
      (s : BaseStore d) (pid msg : Bytes)
      → r.self ≢ pid
      → IsRead r s.dt msg
      → Keeps s (receive r v pid msg s)
  unfolding receive
  receive-Keeps s pid msg other read =
      elim (Bool-cases (validator_func (r.exchange s.dt) r.self (v s) (d.new_key r.name) pid msg)) [
        | inl e ↦ rw e (merge-Keeps s pid msg other read e)
        | inr e ↦ rw e (λ key val held. held)
      ]

  receive-AllFit :
      (Fits : Bytes → Bytes → Type 0) (Sent : Bytes → Type 0) (s : BaseStore d) (pid msg : Bytes)
      → r.self ≢ pid
      → IsRead r s.dt msg
      → ((key val : Bytes) → v s key val ≡ true → Fits key val)
      → Moves r Fits Sent s.dt
      → ((e : Element) → In e (elements_of (r.brings s.dt msg)) → Sent e.key)
      → AllFit Fits s
      → AllFit Fits (receive r v pid msg s)
  unfolding receive
  receive-AllFit Fits Sent s pid msg other read valid moves sent all =
      elim (Bool-cases (validator_func (r.exchange s.dt) r.self (v s) (d.new_key r.name) pid msg)) [
        | inl e ↦ rw e (merge-AllFit s pid msg other read e Fits Sent valid moves sent all)
        | inr e ↦ rw e all
      ]

module _ {d : Datastore} (r : Replica d) (lawful : IsLawful r)
    (v : Time → BaseStore d → Bytes → Bytes → Bool) where
  -- The time limit and the syncs change nothing that is read.
  get-set_time_limit :
      (now : Time) (s : BaseStore d) (j : Bytes)
      → d.get (set_time_limit d now s).0.dt j ≡ d.get s.dt j
  unfolding set_time_limit
  get-set_time_limit now s j = ground arith

  get-deadline : (s : BaseStore d) (j : Bytes) → d.get (deadline d s).dt j ≡ d.get s.dt j
  unfolding deadline
  get-deadline s j = lawful.get-sync s.dt _ j

  get-sync_base : (s : BaseStore d) (j : Bytes) → d.get (sync d s).0.dt j ≡ d.get s.dt j
  unfolding sync
  get-sync_base s j = elim (Bool-cases s.in_time) [
    | inl e ↦ rw e (lawful.get-sync s.dt _ j)
    | inr e ↦ rw e
  ]

  module _ (Fits : Bytes → Bytes → Type 0) {Sent : Bytes → Type 0}
      {Own : BaseStore d → BaseStore d → Type 0}
      (valid : (now : Time) (s : BaseStore d) (key val : Bytes)
        → v now s key val ≡ true
        → Fits key val)
      (moves : (s : d.State) → Moves r Fits Sent s)
      (own : (s t : BaseStore d) → Own s t → Keeps s t × (AllFit Fits s → AllFit Fits t)) where
    Step-Keeps : {s t : BaseStore d} → Step r v Sent Own s t → Keeps s t
    Step-Keeps (writes {s} {t} w) = (own s t w).0
    Step-Keeps (receives now s pid msg other read sent) =
        receive-Keeps r lawful (v now) s pid msg other read
    Step-Keeps (limits s now) = λ key val held. get-set_time_limit now s key ∙ held
    Step-Keeps (expires s) = λ key val held. get-deadline s key ∙ held
    Step-Keeps (syncs s) = λ key val held. get-sync_base s key ∙ held

    Step-AllFit : {s t : BaseStore d} → Step r v Sent Own s t → AllFit Fits s → AllFit Fits t
    Step-AllFit (writes {s} {t} w) all = (own s t w).1 all
    Step-AllFit (receives now s pid msg other read sent) all =
        receive-AllFit r lawful (v now) Fits Sent s pid msg other read (valid now s) (moves s.dt)
          sent all
    Step-AllFit (limits s now) all =
        λ key val held. all key val (sym (get-set_time_limit now s key) ∙ held)
    Step-AllFit (expires s) all = λ key val held. all key val (sym (get-deadline s key) ∙ held)
    Step-AllFit (syncs s) all = λ key val held. all key val (sym (get-sync_base s key) ∙ held)

    -- Over any run nothing is lost or changed, and what was fit throughout stays so.
    pub Reach-lem :
        {s t : BaseStore d} → Reach r v Sent Own s t → Keeps s t × (AllFit Fits s → AllFit Fits t)
    Reach-lem here = (λ key val held. held, λ all. all)
    Reach-lem (next run st) =
        let (kept, fit) = Reach-lem run in
        (λ key val held. Step-Keeps st key val (kept key val held), λ all. Step-AllFit st (fit all))

-- A key that is spelled as `ds.NewKey` spells it is kept as it is.
pub IsKey-Moves :
    {d : Datastore} (r : Replica d)
    → IsLawful r
    → (Fits : Bytes → Bytes → Type 0) (s : d.State) → Moves r Fits IsKey s
IsKey-Moves r laws Fits s j key val sent spelled same fit =
    subst (λ k. Fits k val) (laws.slot_injective s j key sent spelled same) fit
