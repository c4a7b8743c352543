-- ===== src/PubSub/Exchange.antt =====
-- What is published can be read, and when `Get` panics.
use p2p_verse.Common.{
  ◌≡◌, refl, ◌≢◌, ◌↔◌, inl, inr, true, Bool-cases, Option-cases, Option, none, some, Bytes, Error,
  Result, ok, err, sym, ap, ◌∙◌, subst,
}
use p2p_verse.Common.Action.{
  returns_injective, unit_or, Ending, returns, fails, panics, of_result, ◌>>=◌, returns-bind,
  resume,
}
use p2p_verse.Std.Time
use p2p_verse.Std.Time.{Time, to_utc}
use p2p_verse.Std.Time.RoundTrip
use p2p_verse.Crdt.TimeParams.{bytes_or_nil}
use p2p_verse.External.Addresses.{Addresses}
use p2p_verse.External.Messages
use p2p_verse.External.Gossip.{Gossip, Delivery, IsDelivery, Message}
use p2p_verse.PubSub.Messages.{ReceivedMessage, convert, convert_message}
use p2p_verse.PubSub.Room.{Member, publish, get, next, taken, reset, has_peers}
use p2p_verse.PubSub.Resets.{reset_iff}

fails-ne-panics : {T : Type 0} (x : Error) → (◌≢◌ {A = Ending T} (fails x) panics)
fails-ne-panics x h = cc

module _ {a : Addresses} (g : Gossip a) where
  -- A message of the data and of the time of sending, in UTC, from some sender.
  abbrev pub sent : Bytes → Bytes → Time → ReceivedMessage
  sent from data_bytes t = record {
    message = record { from = from; data_bytes = data_bytes };
    time = to_utc t;
  }

  unit_or-eq-returns : (o : Option Error) → of_result (unit_or o) ≡ returns tt → o ≡ none
  unit_or-eq-returns none h = refl
  unit_or-eq-returns (some e) h = cc

  utc_marshalled :
      (t : Time) → Time.marshal (to_utc t) ≡ ok (bytes_or_nil (Time.marshal (to_utc t)))
  unfolding Time.marshal
  utc_marshalled t = refl

  of_result-eq-returns : {T : Type 0} (r : Result T) (x : T) → of_result r ≡ returns x → r ≡ ok x
  of_result-eq-returns (ok y) x h = ap ok (returns_injective y x h)
  of_result-eq-returns (err e) x h = cc

  convert-marshal :
      Messages.IsLawful g.message
      → (from data_bytes mm : Bytes) (t : Time) → RoundTrip.IsValid t
      → g.message.marshal
          (record { data_bytes = data_bytes; time = bytes_or_nil (Time.marshal (to_utc t)) })
        ≡ ok mm
      → convert g.message (record { from = from; data_bytes = mm }) ≡ ok (sent from data_bytes t)
  unfolding convert
  convert-marshal lawful from data_bytes mm t valid h =
      rw
        (
          lawful.unmarshal-marshal _ mm h,
          RoundTrip.unmarshal-marshal (to_utc t) _
              (record { sec_fits = valid.sec_fits; nsec_fits = valid.nsec_fits })
              (utc_marshalled t),
        )
        refl

  -- If messages are read back as they were written and the clock is in range, `Publish` returns no
  -- error only if the reset of the room has left it with peers, the last state is the one in which
  -- bytes have then been handed to its topic without an error, and any subscriber converts these
  -- bytes to the same data and the time of sending.
  pub convert-publish :
      Messages.IsLawful g.message
      → (data_bytes from : Bytes) (s u : Member g) → RoundTrip.IsValid (g.now s.world.outside)
      → publish g data_bytes s ≡ (u, returns tt)
      → (mm : Bytes) × (t : Member g) × (reset g s ≡ (t, returns tt))
        × (has_peers g t ≡ true)
        × (let (o, e) = g.publish t.world.outside t.room.topic t.room.ctx mm in
            (e ≡ none) × (u ≡ record t { world = record t.world { outside = o } }))
        × (convert g.message (record { from = from; data_bytes = mm })
            ≡ ok (sent from data_bytes (g.now s.world.outside)))
  unfolding publish
  convert-publish lawful data_bytes from s u valid h =
      let (mm, s', e, rest) = returns-bind _ _ s u tt h in
      let (r, t, ran, last) = returns-bind _ _ s' u tt rest in
      let (k, l, reached, peers) = (reset_iff g s' t).0 ran in
      (
        mm,
        t,
        subst (λ q. reset g q ≡ (t, returns r)) (ap (λ q. q.0) (sym e)) ran,
        peers,
        (unit_or-eq-returns _ (ap (λ q. q.1) last), sym (ap (λ q. q.0) last)),
        convert-marshal lawful from data_bytes mm _ valid
            (of_result-eq-returns _ mm (ap (λ q. q.1) e)),
      )

  of_result-ne-panics : {T : Type 0} (r : Result T) → of_result r ≢ panics
  of_result-ne-panics (ok y) h = cc
  of_result-ne-panics (err e) h = cc

  taken-of_message :
      (d : Delivery) (m : Message)
      → d.message ≡ some m
      → d.error ≡ none
      → taken g d ≡ of_result (convert g.message m)
  unfolding taken convert_message
  taken-of_message d m h k = elim (Bool-cases d.timed_out) [
    | inl e ↦ rw (e, h) refl
    | inr e ↦ rw (e, k, h) refl
  ]

  taken-panics :
      (d : Delivery) → IsDelivery d → taken g d ≡ panics → (d.message ≡ none) × (d.timed_out ≡ true)
  unfolding taken convert_message
  taken-panics d (inl (h, failed)) p = elim (Bool-cases d.timed_out) [
    | inl e ↦ (h, e)
    | inr e ↦ elim (Option-cases d.error) [
      | inl k ↦ absurd (failed k)
      | inr (x, k) ↦ absurd (fails-ne-panics x (subst (λ r. r ≡ panics) (rw (e, k) refl) p))
    ]
  ]
  taken-panics d (inr ((m, h), k)) p =
      absurd (of_result-ne-panics (convert g.message m) (sym (taken-of_message d m h k) ∙ p))

  -- In a room that `reset` leaves with peers, and whose next delivery has either a message or an
  -- error, `Get` panics exactly if there is no message and the timeout of a second is over.
  pub get-panics_iff :
      (s t : Member g)
      → reset g s ≡ (t, returns tt)
      → IsDelivery (next g t).1
      → ((get g s).1 ≡ panics) ↔ (((next g t).1.message ≡ none) × ((next g t).1.timed_out ≡ true))
  unfolding get ◌>>=◌ taken convert_message
  get-panics_iff s t h d =
      let reset_done =
        subst
          (λ r.
            (resume r.1 (λ _ s. ((next g s).0, taken g (next g s).1)) r.0).1 ≡ taken g (next g t).1)
          (sym h) refl in
      (λ e. taken-panics (next g t).1 d (sym reset_done ∙ e), λ (e, f). reset_done ∙ rw (e, f) refl)
