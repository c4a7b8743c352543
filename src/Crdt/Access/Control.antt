-- ===== src/Crdt/Access/Control.antt =====
-- What access control guarantees: who may write, and what a read or a query may return.
use p2p_verse.Common.{
  ◌++◌, ◌≡◌, ◌≢◌, refl, ◌↔◌, ◌⊎◌, inl, inr, Bool, true, false, Option, none, some, List, [], ◌∷◌,
  arith, Bytes, Error, Result, ok, err, >>=-eq-ok, length, ltb, keep, In, Bool-cases, Option-cases,
  ok_injective, sym, ap, ◌∙◌, subst,
}
use p2p_verse.Std.Text.{trim_slash}
use p2p_verse.External.Crypto.{External}
use p2p_verse.External.Datastore
use p2p_verse.External.Datastore.{Datastore, Entry, Filter, Query, passes}
use p2p_verse.Crdt.Base.{query_of}
use p2p_verse.Crdt.Access.{
  query, ac_verify_filter, is_nil, AccessBase, AccessStore, ac_filter, access_key, verify_key,
  verify_access, is_granted, verify, some_error, put, readable, get,
}

-- A permission in the datastore: an entry under the access key that carries a valid signature.
pub record Permission (x : External) (b : AccessBase) (s : AccessStore b) (access : Bytes)
    : Type 0 where
  pub named : access ≢ []
  pub keyed : access_key x s.key access ≢ []
  pub answer : List Entry
  pub answered : b.ac_query s.base (access_key x s.key access) ≡ ok answer
  pub entry : Entry
  pub present : In entry answer
  pub signed : ac_filter x entry ≡ true

some_kept :
    (p : Entry → Bool) (es : List Entry)
    → ltb 0 (length (keep p es)) ≡ true
    → (e : Entry) × In e es × (p e ≡ true)
unfolding keep
some_kept p [] h = absurd (ground arith)
some_kept p (e ∷ es) h = elim (Bool-cases (p e)) [
  | inl y ↦ (e, inl refl, y)
  | inr n ↦ let (f, m, y) = some_kept p es (rw n at h) in (f, inr m, y)
]

kept_some :
    (p : Entry → Bool) (es : List Entry) (e : Entry)
    → In e es
    → p e ≡ true
    → ltb 0 (length (keep p es)) ≡ true
unfolding keep
kept_some p [] e m y = absurd m
kept_some p (a ∷ es) e (inl same) y = ground arith
kept_some p (a ∷ es) e (inr m) y = ground (arith, kept_some p es e m y)

passes-append :
    (fs : List Filter) (f : Filter) (e : Entry)
    → passes (fs ++ (f ∷ [])) e ≡ true
    → (passes fs e ≡ true) × (f e ≡ true)
passes-append [] f e h = (refl, ground arith)
passes-append (g ∷ fs) f e h = elim (Bool-cases (g e)) [
  | inl y ↦ let (k, l) = passes-append fs f e (rw y at h) in (rw y k, l)
  | inr n ↦ absurd (ground arith)
]

some-ne-none : (e : Error) → Option.some e ≢ none
some-ne-none e h = cc

is_nil_lem : (o : Option Error) → is_nil o ≡ true → o ≡ none
is_nil_lem none h = refl
is_nil_lem (some e) h = cc

module _ (x : External) (d : Datastore) (b : AccessBase) where
  some_error-none : (r : Result Bool) → some_error r ≡ none → r ≡ ok true
  some_error-none (err e) h = cc
  some_error-none (ok true) h = refl
  some_error-none (ok false) h = cc

  module _ (stored : Datastore.IsLawful d) where
    verify_key_sound :
        (s : AccessStore b) (access k : Bytes)
        → access ≢ []
        → access_key x s.key access ≡ k
        → verify_key x d b s k ≡ ok true
        → Permission x b s access
    unfolding verify_key
    verify_key_sound s access [] named keyed h = cc
    verify_key_sound s access (c ∷ k) named keyed h =
        let (es, answered, rest) = >>=-eq-ok (b.ac_query s.base (c ∷ k)) _ h in
        let filtered = stored.naive_filter_lem es (ac_filter x) in
        let (e, m, y) =
          some_kept (ac_filter x) es
            (subst (λ l. ltb 0 (length l) ≡ true) filtered (ok_injective _ _ rest)) in
        record {
          named = named;
          keyed = λ nil. cc (keyed, nil);
          answer = es;
          answered = rw keyed answered;
          entry = e;
          present = m;
          signed = y;
        }

    verify_access_sound :
        (s : AccessStore b) (access : Bytes)
        → verify_access x d b s access ≡ ok true
        → Permission x b s access
    unfolding verify_access
    verify_access_sound s [] h = cc
    verify_access_sound s (c ∷ a) h = verify_key_sound s (c ∷ a) _ (λ e. cc) refl h

    verify_key_complete :
        (s : AccessStore b) (access k : Bytes)
        → access_key x s.key access ≡ k
        → Permission x b s access
        → verify_key x d b s k ≡ ok true
    unfolding verify_key
    verify_key_complete s access [] keyed p = absurd (p.keyed keyed)
    verify_key_complete s access (c ∷ k) keyed p = rw (
      ← keyed,
      p.answered,
      stored.naive_filter_lem p.answer (ac_filter x),
      kept_some (ac_filter x) p.answer p.entry p.present p.signed,
    )

    verify_access_complete :
        (s : AccessStore b) (access : Bytes)
        → Permission x b s access
        → verify_access x d b s access ≡ ok true
    unfolding verify_access
    verify_access_complete s [] p = absurd (p.named refl)
    verify_access_complete s (c ∷ a) p = verify_key_complete s (c ∷ a) _ refl p

    -- `Verify` of a key succeeds exactly if there is a permission for the access of the key: the
    -- access and its access key are not empty, and the wrapped store answers the query for the access
    -- key with an entry that the signature filter passes.
    pub verify_iff :
        (s : AccessStore b) (key : Bytes)
        → (verify x d b s key ≡ none) ↔ Permission x b s (b.access_from_key s.base (trim_slash key))
    unfolding verify is_granted
    verify_iff s key = (
      λ h. verify_access_sound s _ (some_error-none _ h),
      λ p. ap some_error (verify_access_complete s _ p),
    )

    -- If there is a permission for the access of the key that it writes, a `Put` is the wrapped
    -- store's `Put` of the same key and value; if there is none, it fails and leaves the store as it
    -- was.
    pub put_guard :
        (s : AccessStore b) (key val : Bytes)
        → (Permission x b s (b.access_from_key s.base (trim_slash (b.put_key s.base key)))
            × (put x d b s key val
                ≡ (record s { base = (b.put s.base key val).0 }, (b.put s.base key val).1)))
          ⊎ ((Permission x b s (b.access_from_key s.base (trim_slash (b.put_key s.base key))) → ⊥)
              × ((put x d b s key val).0 ≡ s)
              × ((put x d b s key val).1 ≢ none))
    unfolding put
    put_guard s key val = elim (Option-cases (verify x d b s (b.put_key s.base key))) [
      | inl e ↦ inl ((verify_iff s (b.put_key s.base key)).0 e, rw (e, put) refl)
      | inr (e', e) ↦ inr (
        λ p. some-ne-none e' (sym e ∙ (verify_iff s (b.put_key s.base key)).1 p),
        rw (e, put) refl,
        λ n. some-ne-none e' (sym (rw (e, put) refl) ∙ n),
      )
    ]

    readable_sound :
        (s : AccessStore b) (key : Bytes)
        → readable x d b s key ≡ none
        → Permission x b s (b.access_from_key s.base (trim_slash key))
          ⊎ Permission x b s (b.access_from_key s.base (trim_slash (b.put_key s.base key)))
    unfolding readable
    readable_sound s key h = elim (Option-cases (verify x d b s key)) [
      | inl e ↦ inl ((verify_iff s key).0 e)
      | inr (e', e) ↦ inr ((verify_iff s (b.put_key s.base key)).0 (ground arith))
    ]

    -- A `Get` that returns a value, returns the wrapped store's value for that key, and has a
    -- permission for the access of the key as it is given or as it would be written.
    pub get_guard :
        (s : AccessStore b) (key v : Bytes)
        → get x d b s key ≡ ok v
        → (b.get s.base key ≡ ok v)
          × (Permission x b s (b.access_from_key s.base (trim_slash key))
              ⊎ Permission x b s (b.access_from_key s.base (trim_slash (b.put_key s.base key))))
    unfolding get
    get_guard s key v h = elim (Option-cases (readable x d b s key)) [
      | inl e ↦ (sym (rw e) ∙ h, readable_sound s key e)
      | inr (e', e) ↦ absurd (ground arith)
    ]

    -- Every entry that `Query` returns is one that the wrapped store's `Query` without options
    -- returns, passes the caller's filters, and has a permission for the access of its key.
    pub query_guard :
        (s : AccessStore b) (qs : List Query) (out : List Entry) (e : Entry)
        → query x d b s qs ≡ ok out
        → In e out
        → (rs : List Entry) × (b.query s.base [] ≡ ok rs)
          × In e rs
          × (passes (query_of qs).filters e ≡ true)
          × Permission x b s (b.access_from_key s.base (trim_slash e.key))
    unfolding query ac_verify_filter
    query_guard s qs out e h m =
        let (rs, answered, applied) = >>=-eq-ok (b.query s.base []) _ h in
        let (there, passed) =
          stored.naive_query_apply_sound _ rs e (subst (In e) (sym (ok_injective _ _ applied)) m) in
        let (kept, granted) =
          passes-append (query_of qs).filters (ac_verify_filter x d b s) e passed in
        (rs, answered, there, kept, (verify_iff s e.key).0 (is_nil_lem _ granted))
