-- ===== src/Kafka/Consumer/RoundTrip.antt =====
-- From the service that publishes a change of a booking to the hub that is told of the seat.
use mathlib.Core.List.{map-append, append-nil}
use ticket_master.Prelude.{
  ℕ, ◌≡◌, refl, String, Bool, true, false, some, List, [], ◌∷◌, ◌++◌, map, arith,
}
use ticket_master.Model.{Booking, BookingStatus, reserved, purchased, cancelled, expired}
use ticket_master.Effects.{forget_event}
use ticket_master.Hub.{seat_update}
use ticket_master.Kafka.{
  Codec, IsFaithful, Producer, KafkaMessage, booking_event, publish_booking_event, publish_message,
}
use ticket_master.Kafka.Consumer
use ticket_master.Kafka.Consumer.{
  Turn, Inbox, message, seat_status_for_booking_event, round, fetch_enabled, consume, handle_event,
  ack,
}
use ticket_master.Kafka.Consumer.Expected.{IsWired, update_of, envelopes, values}
use ticket_master.Kafka.Consumer.Delivery.{round-Gave, round-live}

-- The type under which the service publishes a booking that has come to a status.
abbrev pub event_name : BookingStatus → String
event_name reserved = "booking.reserved"
event_name purchased = "booking.purchased"
event_name cancelled = "booking.cancelled"
event_name expired = "booking.expired"

-- What a customer is shown of its seat.
abbrev pub seat_name : BookingStatus → String
seat_name reserved = "reserved"
seat_name purchased = "sold"
seat_name cancelled = "available"
seat_name expired = "available"

seat_status-event_name :
    (s : BookingStatus) → seat_status_for_booking_event (event_name s) ≡ some (seat_name s)
unfolding seat_status_for_booking_event
seat_status-event_name reserved = refl
seat_status-event_name purchased = refl
seat_status-event_name cancelled = refl
seat_status-event_name expired = refl

module _ {Raw : Type 0} (codec : Codec Raw) (faithful : IsFaithful codec) where
  published-update_of :
      (now : ℕ) (b : Booking) (raw : Raw)
      → codec.marshal (booking_event codec now (event_name b.status) b) ≡ some raw
      → update_of codec raw ≡ some (seat_update b.event_id b.seat_id (seat_name b.status))
  published-update_of now b raw e = simp (
    faithful.decodes _ raw e,
    faithful.parses b.event_id,
    faithful.parses b.seat_id,
    seat_status-event_name b.status,
  )

  written_lem :
      (p : Producer) (now : ℕ) (event_type : String) (b : Booking) (raw : Raw)
      (topic : List (KafkaMessage Raw))
      → p.enabled ≡ true
      → codec.marshal (booking_event codec now event_type b) ≡ some raw
      → map (λ m. m.value) (publish_booking_event codec p true now event_type (some b) topic).1
        ≡ map (λ m. m.value) topic ++ raw ∷ []
  unfolding publish_booking_event publish_message
  written_lem p now event_type b raw topic on e = simp (on, e, map-append)

  ack-cache :
      (c : Consumer.Consumer) (taken : Bool) (m : Consumer.Consumed Raw) (st : Inbox Raw)
      → (ack codec c taken m st).1.cache ≡ st.cache
  unfolding ack
  ack-cache c taken m st = ground arith

  round-cache :
      (c : Consumer.Consumer) (t : Turn Raw) (st : Inbox Raw) (now partition offset : ℕ)
      (b : Booking) (raw : Raw)
      → IsWired c
      → c.has_cache_invalidator ≡ true
      → codec.marshal (booking_event codec now (event_name b.status) b) ≡ some raw
      → t.done ≡ false
      → t.fetched ≡ message partition offset raw
      → (round codec c t st).1.cache ≡ forget_event b.event_id st.cache
  unfolding handle_event
  round-cache c t st now partition offset b raw wired cached e live f =
      rw (round-live codec c wired t _ st live f) (
        simp (
          faithful.decodes _ raw e,
          faithful.parses b.event_id,
          faithful.parses b.seat_id,
          wired.has_hub,
          cached,
          seat_status-event_name b.status,
          ack-cache,
        ))

  -- Where Kafka takes the messages and the libraries read back what they write: the event that is
  -- published for a booking reaches a consumer that was started with a broker, a hub and the cache,
  -- as an update of the booking's seat that says `reserved`, `sold` or `available` as the status of
  -- the booking asks; the cached event is forgotten and nothing is dead lettered.
  pub publish-told :
      (p : Producer) (c : Consumer.Consumer) (t : Turn Raw) (st : Inbox Raw)
      (now partition offset : ℕ) (b : Booking) (raw : Raw) (topic : List (KafkaMessage Raw))
      → p.enabled ≡ true
      → IsWired c
      → c.has_cache_invalidator ≡ true
      → codec.marshal (booking_event codec now (event_name b.status) b) ≡ some raw
      → t.done ≡ false
      → t.fetched ≡ message partition offset raw
      → let published =
          publish_booking_event codec p true now (event_name b.status) (some b) topic in
        let st' = (round codec c t st).1 in
        (map (λ m. m.value) published.1 ≡ map (λ m. m.value) topic ++ raw ∷ [])
        × (st'.fanout
            ≡ st.fanout
              ++ envelopes st.hub.instance_id
                  (some (seat_update b.event_id b.seat_id (seat_name b.status))))
        × (values st'.dead ≡ values st.dead)
        × (st'.cache ≡ forget_event b.event_id st.cache)
  publish-told p c t st now partition offset b raw topic on wired cached e live f =
      let known = published-update_of now b raw e in
      let (next, g) = round-Gave codec c wired t st live in
      (
        written_lem p now (event_name b.status) b raw topic on e,
        simp (f, known) at g.tells,
        simp (f, known, append-nil) at g.letters,
        round-cache c t st now partition offset b raw wired cached e live f,
      )
