-- ===== src/PubSub/Sorting.antt =====
-- `messSort` orders by time and loses nothing.
use p2p_verse.Common.{
  ◌≡◌, true, false, List, [], ◌∷◌, ◌++◌, arith, Bool-cases, inl, inr, append-nil, sym, subst,
}
use mathlib.Core.List.{Mem, Perm, Pairwise, Pairwise-singleton, forall_mem-cons, perm_middle}
use mathlib.Core.Bool.{Bool-set}
use mathlib.Core.List.Perm
use p2p_verse.Std.Time.{Time, before}
use p2p_verse.PubSub.Messages.{ReceivedMessage, insert, insert_all, mess_sort}

-- The first is not later than the second.
abbrev pub NotLater : ReceivedMessage → ReceivedMessage → Type 0
NotLater m k = before k.time m.time ≡ false

-- The messages are in the order of their times.
abbrev pub IsSorted : List ReceivedMessage → Type 0
IsSorted = Pairwise NotLater

before_trans : (t u v : Time) → before u t ≡ false → before v u ≡ false → before v t ≡ false
unfolding before
before_trans t u v h k = ground arith

before_asym : (t u : Time) → before t u ≡ true → before u t ≡ false
unfolding before
before_asym t u h = ground arith

insert-perm : (m : ReceivedMessage) (l : List ReceivedMessage) → Perm (insert m l) (m ∷ l)
unfolding insert
insert-perm m [] = Perm.rfl
insert-perm m (k ∷ ks) = elim (Bool-cases (before m.time k.time)) [
  | inl yes' ↦ rw (yes', insert) Perm.rfl
  | inr no' ↦ rw (no', insert) (Perm.trans (Perm.cons k (insert-perm m ks)) (Perm.swap m k ks))
]

-- What stands behind the later of two messages stands behind the earlier one.
NotLater-all :
    (m k : ReceivedMessage) (ks : List ReceivedMessage)
    → NotLater m k
    → ((x : ReceivedMessage) → Mem x ks → NotLater k x)
    → (x : ReceivedMessage) → Mem x ks
    → NotLater m x
NotLater-all m k ks h b x e = before_trans m.time k.time x.time h (b x e)

Pairwise-cons :
    (m k : ReceivedMessage) (ks : List ReceivedMessage)
    → NotLater m k
    → IsSorted (k ∷ ks)
    → IsSorted (m ∷ k ∷ ks)
Pairwise-cons m k ks h (Pairwise.cons b s) =
    Pairwise.cons
      ((forall_mem-cons (λ x. Bool-set (before x.time m.time) false)).1
        (h, NotLater-all m k ks h b))
      (Pairwise.cons b s)

insert-IsSorted :
    (m : ReceivedMessage) (l : List ReceivedMessage) → IsSorted l → IsSorted (insert m l)
unfolding insert
insert-IsSorted m [] s = Pairwise-singleton _ m
insert-IsSorted m (k ∷ ks) (Pairwise.cons b s) = elim (Bool-cases (before m.time k.time)) [
  | inl yes' ↦
      rw (yes', insert) (Pairwise-cons m k ks (before_asym m.time k.time yes') (Pairwise.cons b s))
  | inr no' ↦
      rw (no', insert)
        (Pairwise.cons
          (λ x e.
            ((forall_mem-cons (λ x. Bool-set (before x.time k.time) false)).1 (no', b)) x
              ((Perm.mem_iff (insert-perm m ks)).0 e))
          (insert-IsSorted m ks s))
]

insert_all-perm : (l ms : List ReceivedMessage) → Perm (insert_all l ms) (l ++ ms)
unfolding insert_all
insert_all-perm l [] = subst (λ r. Perm l r) (sym (append-nil l)) Perm.rfl
insert_all-perm l (m ∷ ms) =
    Perm.trans (insert_all-perm (insert m l) ms)
      (Perm.trans (Perm.append_right ms (insert-perm m l)) (Perm.symm (perm_middle l ms)))

insert_all-IsSorted : (l ms : List ReceivedMessage) → IsSorted l → IsSorted (insert_all l ms)
unfolding insert_all
insert_all-IsSorted l [] s = s
insert_all-IsSorted l (m ∷ ms) s = insert_all-IsSorted (insert m l) ms (insert-IsSorted m l s)

pub mess_sort-perm : (ms : List ReceivedMessage) → Perm (mess_sort ms) ms
unfolding mess_sort
mess_sort-perm ms = insert_all-perm [] ms

pub mess_sort-IsSorted : (ms : List ReceivedMessage) → IsSorted (mess_sort ms)
unfolding mess_sort
mess_sort-IsSorted ms = insert_all-IsSorted [] ms Pairwise.nil
