-- ===== src/Sample/Memory.antt =====
-- A datastore in memory: the writes, the latest first.
use p2p_verse.Common.{
  ℕ, zero, suc, ◌≡◌, ◌⊎◌, subst, refl, Bool, true, false, Option, none, some, List, [], ◌∷◌, arith,
  Bytes, length, keep, In, ok, bytes_eq, bytes_eq_iff, bytes_eq_refl, ap, ◌∙◌, sym, inl, inr,
  Bool-cases, ok_injective, if◌then◌else◌,
}
use p2p_verse.Std.Text.{slash, has_prefix}
use p2p_verse.External.Datastore
use p2p_verse.External.Datastore.{Datastore, Entry, Query, Filter, passes, empty_query}

abbrev pub Writes : Type 0
Writes = List (Bytes × Bytes)

unfoldable pub lookup : Bytes → Writes → Option Bytes
lookup k [] = none
lookup k ((j, v) ∷ s) = if bytes_eq k j then some v else lookup k s

abbrev is_some : Option Bytes → Bool
is_some none = false
is_some (some v) = true

abbrev same_value : Bytes → Option Bytes → Bool
same_value v none = false
same_value v (some w) = bytes_eq v w

-- The writes that no later one hides, as entries; `full` is all of them.
unfoldable pub entries : Writes → Writes → List Entry
entries full [] = []
entries full ((k, v) ∷ s) =
    let rest = entries full s in
    if same_value v (lookup k full)
    then record { key = k; value = some v; size = length v } ∷ rest
    else rest

abbrev hide_values : Bool → List Entry → List Entry
hide_values b [] = []
hide_values b (e ∷ es) = (if b then record e { value = none } else e) ∷ hide_values b es

unfoldable pub take_up_to : ℕ → List Entry → List Entry
take_up_to zero es = []
take_up_to (suc n) [] = []
take_up_to (suc n) (e ∷ es) = e ∷ take_up_to n es

abbrev limited : ℕ → List Entry → List Entry
limited zero es = es
limited (suc n) es = take_up_to (suc n) es

abbrev fits : Query → Entry → Bool
fits q e = if has_prefix e.key q.prefix then passes q.filters e else false

unfoldable pub answer : Writes → Query → List Entry
unfolding entries keep has_prefix take_up_to lookup
answer s q = limited q.limit (hide_values q.keys_only (keep (fits q) (entries s s)))

abbrev pub memory : Datastore
memory = record {
  State = Writes;
  new_key = λ k. slash ∷ k;
  put = λ s k v. ((k, v) ∷ s, none);
  get = λ s k. ok (lookup k s);
  get_size = λ s k. ok (size_of (lookup k s));
  has = λ s k. ok (is_some (lookup k s));
  query = λ s q. ok (answer s q);
  sync = λ s k. (s, none);
  naive_filter = λ es f. keep f es;
  naive_query_apply = λ q es. keep (passes q.filters) es;
}
  where
    size_of : Option Bytes → ℕ
    size_of none = 0
    size_of (some v) = length v

In-head : (e a : Entry) (es : List Entry) → In e (a ∷ es) → (e ≡ a) ⊎ In e es
In-head e a es m = m

In-either :
    (b : Bool) (a : Entry) (es : List Entry) (e : Entry) → In e es → In e (if b then a ∷ es else es)
In-either true a es e m = inr m
In-either false a es e m = m

same_value-some : (v : Bytes) (o : Option Bytes) → same_value v o ≡ true → o ≡ some v
same_value-some v none h = cc
same_value-some v (some w) h = ap (λ (b : Bytes). some b) (sym ((bytes_eq_iff v w).0 h))

some_injective : (v w : Bytes) → ◌≡◌ {A = Option Bytes} (some v) (some w) → v ≡ w
some_injective v w h = cc

entries_sound :
    (full s : Writes) (e : Entry)
    → In e (entries full s)
    → (v : Bytes) × (e.value ≡ some v) × (lookup e.key full ≡ some v)
unfolding entries
entries_sound full [] e m = absurd m
entries_sound full ((k, v) ∷ s) e m = elim (Bool-cases (same_value v (lookup k full))) [
  | inr n ↦ entries_sound full s e (rw n at m)
  | inl y ↦ elim (In-head e _ (entries full s) (rw y at m)) [
    | inl same ↦ (v, ap (λ (t : Entry). t.value) same, rw same (same_value-some v _ y))
    | inr rest ↦ entries_sound full s e rest
  ]
]

entries_complete :
    (full s : Writes) (k v : Bytes)
    → lookup k full ≡ some v
    → lookup k s ≡ some v
    → In (record { key = k; value = some v; size = length v }) (entries full s)
unfolding entries lookup
entries_complete full [] k v h g = absurd (ground arith)
entries_complete full ((j, w) ∷ s) k v h g = elim (Bool-cases (bytes_eq k j)) [
  | inl y ↦
      let key : k ≡ j = (bytes_eq_iff k j).0 y in
      let val : w ≡ v = some_injective _ _ (sym (rw y) ∙ g) in
      let live : same_value w (lookup j full) ≡ true = rw (← key, h, val) (bytes_eq_refl v) in
      rw live (inl (rw (key, val)))
  | inr n ↦ In-either _ _ _ _ (entries_complete full s k v h (sym (rw n) ∙ g))
]

keep-In :
    (p : Entry → Bool) (es : List Entry) (e : Entry) → In e (keep p es) → In e es × (p e ≡ true)
unfolding keep
keep-In p [] e m = absurd m
keep-In p (a ∷ es) e m = elim (Bool-cases (p a)) [
  | inr n ↦ let (there, y) = keep-In p es e (rw n at m) in (inr there, y)
  | inl y ↦ elim (In-head e a (keep p es) (rw y at m)) [
    | inl same ↦ (inl same, rw same y)
    | inr rest ↦ let (there, z) = keep-In p es e rest in (inr there, z)
  ]
]

In-keep : (p : Entry → Bool) (es : List Entry) (e : Entry) → In e es → p e ≡ true → In e (keep p es)
unfolding keep
In-keep p [] e m y = m
In-keep p (a ∷ es) e (inl same) y =
    let z : p a ≡ true = subst (λ (t : Entry). p t ≡ true) same y in rw z (inl same)
In-keep p (a ∷ es) e (inr m) y = In-either (p a) a (keep p es) e (In-keep p es e m y)

In-take : (n : ℕ) (es : List Entry) (e : Entry) → In e (take_up_to n es) → In e es
unfolding take_up_to
In-take zero es e m = absurd m
In-take (suc n) [] e m = m
In-take (suc n) (a ∷ es) e (inl h) = inl h
In-take (suc n) (a ∷ es) e (inr m) = inr (In-take n es e m)

In-limited : (n : ℕ) (es : List Entry) (e : Entry) → In e (limited n es) → In e es
In-limited zero es e m = m
In-limited (suc n) es e m = In-take (suc n) es e m

shown : (es : List Entry) → hide_values false es ≡ es
shown [] = refl
shown (e ∷ es) = ap (λ (t : List Entry). e ∷ t) (shown es)

get_write :
    (s : Writes) (k v j : Bytes)
    → memory.get ((k, v) ∷ s) j ≡ (if bytes_eq j k then ok (some v) else memory.get s j)
unfolding lookup
get_write s k v j = ground arith

has_write :
    (s : Writes) (k v j : Bytes)
    → memory.has ((k, v) ∷ s) j ≡ (if bytes_eq j k then ok true else memory.has s j)
unfolding lookup
has_write s k v j = ground arith

has_get : (s : Writes) (k v : Bytes) → memory.get s k ≡ ok (some v) → memory.has s k ≡ ok true
has_get s k v h = rw (ok_injective _ _ h)

answer_sound :
    (s : Writes) (q : Query) (e : Entry)
    → q.keys_only ≡ false
    → In e (answer s q)
    → (memory.get s e.key ≡ ok e.value) × (passes q.filters e ≡ true)
unfolding answer
answer_sound s q e whole m =
    let found = In-limited q.limit _ e m in
    let kept =
      subst (λ l. In e l) (ap (λ b. hide_values b (keep (fits q) (entries s s))) whole ∙ shown _)
        found in
    let (there, y) = keep-In (fits q) (entries s s) e kept in
    let (v, valued, looked) = entries_sound s s e there in (rw (looked, valued), ground arith)

answer_complete :
    (s : Writes) (fs : List Filter) (k v : Bytes)
    → lookup k s ≡ some v
    → ((n : ℕ) → passes fs (record { key = k; value = some v; size = n }) ≡ true)
    → In
        (record { key = k; value = some v; size = length v })
        (answer s (record empty_query { filters = fs }))
unfolding answer
answer_complete s fs k v h pass = rw shown (
    In-keep _ (entries s s) _ (entries_complete s s k v h h) (unfold has_prefix in pass (length v)))

pub memory-IsLawful : Datastore.IsLawful memory
memory-IsLawful = record {
  new_key_clean = λ k clean. refl;
  get-put = λ s k v j h. get_write s k v j;
  has-put = λ s k v j h. has_write s k v j;
  has_of_get = has_get;
  query_sound = λ s q es e h whole m.
      answer_sound s q e whole (subst (λ l. In e l) (sym (ok_injective _ _ h)) m);
  query_complete = λ s fs es k v h g pass. (
    _,
    subst (In _) (ok_injective _ _ h) (answer_complete s fs k v (ok_injective _ _ g) pass),
    refl,
    refl,
  );
  naive_filter_lem = λ es f. refl;
  naive_query_apply_sound = λ q es e m. keep-In (passes q.filters) es e m;
}
