-- ===== src/Crdt/Updatable/Answers.antt =====
-- What the two orders that `Query` asks for say of an answer's entries that have a category.
use Prim.Native.Nat.{Ordering}
use p2p_verse.Common.{◌≡◌, ◌≢◌, inl, inr, true, List, [], ◌∷◌, arith, keep, All, Bool-cases, ◌∙◌}
use p2p_verse.Std.Text.{compare_bytes, compare_bytes_refl}
use p2p_verse.External.Datastore.{Entry, Order}
use p2p_verse.Crdt.Updatable.{is_full, category, category_order, updatable_order}

-- Smaller category first; within one, newer first.
pub record Ordered (a b : Entry) : Type 0 where
  pub by_category : compare_bytes (category a) (category b) ≢ Ordering.gt
  pub by_time : category a ≡ category b → updatable_order a b ≢ Ordering.gt

-- Every entry against every later one.
abbrev pub IsSorted : List Entry → Type 0
IsSorted [] = Unit
IsSorted (r ∷ rs) = All (Ordered r) rs × IsSorted rs

-- `a` may stand before `b` in an answer by the orders of a query, where a later order decides what
-- an earlier one leaves equal.
abbrev pub Follows : List Order → Entry → Entry → Type 0
Follows [] a b = Unit
Follows (o ∷ os) a b = (o a b ≢ Ordering.gt) × (o a b ≡ Ordering.eq → Follows os a b)

-- The entries of an answer stand in the order of the query, each against every later one.
abbrev pub IsInOrder : List Order → List Entry → Type 0
IsInOrder os [] = Unit
IsInOrder os (r ∷ rs) = All (Follows os r) rs × IsInOrder os rs

-- What `Query` asks for where the caller asks for no order.
abbrev own_orders : List Order
own_orders = category_order ∷ updatable_order ∷ []

category_order_full :
    (a b : Entry)
    → is_full a ≡ true
    → is_full b ≡ true
    → category_order a b ≡ compare_bytes (category a) (category b)
unfolding category_order
category_order_full a b h k = unfold is_full in ground arith

Follows-Ordered :
    (a b : Entry) → is_full a ≡ true → is_full b ≡ true → Follows own_orders a b → Ordered a b
Follows-Ordered a b h k f =
    let same = category_order_full a b h k in
    record {
      by_category = rw (← same) f.0;
      by_time = λ e. (f.1 (same ∙ rw (e, compare_bytes_refl))).0;
    }

pub AllFull : List Entry → Type 0
AllFull = All (λ r. is_full r ≡ true)

pub keep-AllFull : (rs : List Entry) → AllFull (keep is_full rs)
unfolding AllFull keep
keep-AllFull [] = tt
keep-AllFull (r ∷ rs) = elim (Bool-cases (is_full r)) [
  | inl full ↦ rw full (full, keep-AllFull rs)
  | inr short ↦ rw short (keep-AllFull rs)
]

All-Ordered :
    (a : Entry) (rs : List Entry)
    → is_full a ≡ true
    → AllFull rs
    → All (Follows own_orders a) rs
    → All (Ordered a) rs
unfolding AllFull
All-Ordered a [] h k f = tt
All-Ordered a (b ∷ rs) h (k, ks) (f, fs) = (Follows-Ordered a b h k f, All-Ordered a rs h ks fs)

pub IsInOrder-IsSorted : (rs : List Entry) → AllFull rs → IsInOrder own_orders rs → IsSorted rs
unfolding AllFull
IsInOrder-IsSorted [] h s = tt
IsInOrder-IsSorted (r ∷ rs) (h, hs) (f, s) = (All-Ordered r rs h hs f, IsInOrder-IsSorted rs hs s)
