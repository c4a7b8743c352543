-- ===== src/PubSub/Received.antt =====
-- What `GetAll` returns for what the subscription delivers.
use p2p_verse.Common.{
  ℕ, zero, suc, ◌<◌, ◌≡◌, refl, true, false, Option, none, some, List, [], ◌∷◌, ◌++◌, arith, Error,
  Result, ok, err, append-nil, append_assoc, length, ltb, inl, inr, Result-cases, if◌then◌else◌,
  sym, ◌∙◌,
}
use p2p_verse.Common.Action.{Ending, returns, fails, of_result}
use mathlib.Core.List.{Perm}
use p2p_verse.External.Addresses.{Addresses}
use p2p_verse.External.Gossip.{Gossip, Message}
use p2p_verse.PubSub.Messages.{
  ReceivedMessage, convert, mess_sort, insert_all, append_converted, convert_message,
}
use p2p_verse.PubSub.Room.{Member, next, get_all_from, get_all}
use p2p_verse.PubSub.Sorting.{IsSorted, mess_sort-perm, mess_sort-IsSorted}

abbrev pub or_nothing : {T : Type 0} → Result T → List T
or_nothing (ok x) = x ∷ []
or_nothing (err e) = []

module _ {a : Addresses} (g : Gossip a) where
  -- The messages that can be read, in the order of their arrival.
  unfoldable pub converted : List Message → List ReceivedMessage
  converted [] = []
  converted (m ∷ ms) = or_nothing (convert g.message m) ++ converted ms

  -- The subscription delivers these messages, and then times out or fails with the error.
  pub data Stream : Member g → List Message → Member g → Option Error → Type 0 where
    quiet : {s : Member g} → (next g s).1.timed_out ≡ true → Stream s [] (next g s).0 none
    broken :
        {s : Member g} {e : Error}
        → (next g s).1.timed_out ≡ false
        → (next g s).1.error ≡ some e
        → Stream s [] (next g s).0 (some e)
    arrives :
        {s t : Member g} {m : Message} {ms : List Message} {e : Option Error}
        → (next g s).1.timed_out ≡ false
        → (next g s).1.error ≡ none
        → (next g s).1.message ≡ some m
        → Stream (next g s).0 ms t e
        → Stream s (m ∷ ms) t e

  -- What the loop returns with messages that it has and those that it reads.
  abbrev ends : List ReceivedMessage → List Message → Option Error → Ending (List ReceivedMessage)
  ends mess ms none = returns (mess_sort (mess ++ converted ms))
  ends mess ms (some e) = fails e

  append_converted-of_result :
      (mess : List ReceivedMessage) (r : Result ReceivedMessage)
      → append_converted g.message mess (of_result r) ≡ mess ++ or_nothing r
  append_converted-of_result mess (ok x) = refl
  append_converted-of_result mess (err e) = sym (append-nil mess)

  step-arrives :
      (n : ℕ) (mess : List ReceivedMessage) (s : Member g) (m : Message)
      → (next g s).1.timed_out ≡ false
      → (next g s).1.error ≡ none
      → (next g s).1.message ≡ some m
      → get_all_from g (suc n) mess s
        ≡ get_all_from g n (mess ++ or_nothing (convert g.message m)) (next g s).0
  unfolding get_all_from convert_message
  step-arrives n mess s m h k l = elim (Result-cases (convert g.message m)) [
    | inl (r, e) ↦ rw (h, k, l, e, get_all_from) refl
    | inr (x, e) ↦ rw (h, k, l, e, get_all_from, append-nil) refl
  ]

  sort_or_not :
      (l : List ReceivedMessage) → (if ltb 0 (length l) then mess_sort l else l) ≡ mess_sort l
  unfolding mess_sort insert_all
  sort_or_not [] = refl
  sort_or_not (m ∷ ms) = ground arith

  get_all_from_lem :
      (n : ℕ) (mess : List ReceivedMessage) (s t : Member g) (ms : List Message) (e : Option Error)
      → Stream s ms t e
      → length ms < n
      → get_all_from g n mess s ≡ some (t, ends mess ms e)
  unfolding get_all_from converted
  get_all_from_lem zero mess s t ms e st l = absurd (omega (arith, l))
  get_all_from_lem (suc n) mess s t [] e (Stream.quiet h) l =
      rw (h, get_all_from, append-nil, sort_or_not mess) refl
  get_all_from_lem (suc n) mess s t [] e (Stream.broken h k) l = rw (h, k, get_all_from) refl
  get_all_from_lem (suc n) mess s t (m ∷ ms) none (Stream.arrives h k q st) l =
      step-arrives n mess s m h k q
      ∙ get_all_from_lem n (mess ++ or_nothing (convert g.message m)) (next g s).0 t ms none st
          (omega (arith, l))
      ∙ rw (append_assoc mess (or_nothing (convert g.message m)) (converted ms)) refl
  get_all_from_lem (suc n) mess s t (m ∷ ms) (some e) (Stream.arrives h k q st) l =
      step-arrives n mess s m h k q
      ∙ get_all_from_lem n (mess ++ or_nothing (convert g.message m)) (next g s).0 t ms (some e) st
          (omega (arith, l))

  -- If the subscription delivers messages and then times out, `GetAll` ends, after one round more
  -- than there are messages, and returns those that can be read, each as often as it arrived, in
  -- the order of their times.
  pub get_all_lem :
      (s t : Member g) (ms : List Message) (n : ℕ)
      → Stream s ms t none
      → length ms < n
      → (l : List ReceivedMessage) × (get_all g n s ≡ some (t, returns l))
        × Perm l (converted ms)
        × IsSorted l
  unfolding get_all
  get_all_lem s t ms n st l = (
    mess_sort (converted ms),
    get_all_from_lem n [] s t ms none st l,
    mess_sort-perm (converted ms),
    mess_sort-IsSorted (converted ms),
  )

  -- If the subscription fails after some messages, `GetAll` ends with that error alone: the messages
  -- that it has taken off the subscription are in no result.
  pub get_all-fails :
      (s t : Member g) (ms : List Message) (e : Error) (n : ℕ)
      → Stream s ms t (some e)
      → length ms < n
      → get_all g n s ≡ some (t, fails e)
  unfolding get_all
  get_all-fails s t ms e n st l = get_all_from_lem n [] s t ms (some e) st l
