-- ===== src/Kafka/Consumer.antt =====
-- internal/kafka/consumer.go and internal/services/booking_event_consumer.go: the consumer of booking
-- events, which forgets the cached event, tells the hub of the seat, and moves what it cannot handle to
-- the dead letter topic. A Turn is what the context and Kafka answer in one round of Run. The header
-- of a dead letter that holds the text of the error is left out.

pub mod Expected
mod Gave
pub mod Delivery
pub mod RoundTrip
use ticket_master.Prelude.{
  ℕ, suc, String, Bool, true, false, ◌&&◌, Option, none, some, List, [], ◌∷◌, ◌++◌, if◌then◌else◌,
  str_eq,
}
use ticket_master.Model.{Event}
use ticket_master.Effects.{forget_event}
use ticket_master.Hub.{Hub, FanoutMessage, broadcast_seat_update}
use ticket_master.Repository.SeatNumber.{print}
use ticket_master.Kafka.{BookingEvent, Codec}

-- seatStatusForBookingEvent
unfoldable pub seat_status_for_booking_event : String → Option String
seat_status_for_booking_event event_type =
    if str_eq event_type "booking.reserved"
    then some "reserved"
    else if str_eq event_type "booking.purchased"
    then some "sold"
    else if str_eq event_type "booking.cancelled"
    then some "available"
    else if str_eq event_type "booking.expired"
    then some "available"
    else none

pub record Consumer : Type 0 where
  pub enabled : Bool
  pub has_dlq_writer : Bool
  pub has_cache_invalidator : Bool
  pub has_hub : Bool
  pub topic : String
  pub dlq_topic : String

module _ (Raw : Type 0) where
  -- ConsumedBookingEvent
  pub record Consumed : Type 0 where
    pub event : Option BookingEvent
    pub raw : Raw
    pub partition : ℕ
    pub offset : ℕ

  -- What FetchMessage answers; `end_of_file` is io.EOF.
  pub data Fetched : Type 0 where
    message : ℕ → ℕ → Raw → Fetched
    cancelled end_of_file fetch_failed : Fetched

  -- The message and the error that Fetch returns.
  pub data FetchResult : Type 0 where
    event : Consumed → FetchResult
    undecoded : Consumed → FetchResult
    nothing stopped failed : FetchResult

  -- Whether the context was done, what was fetched, whether Kafka took the dead letter and the
  -- commit, and whether the wait of a second ran to its end.
  pub record Turn : Type 0 where
    pub done : Bool
    pub fetched : Fetched
    pub written : Bool
    pub committed : Bool
    pub waited : Bool

  pub record DeadLetter : Type 0 where
    pub key : String
    pub value : Raw
    pub headers : List (String × String)

  -- The dead letters, the commits of a partition and an offset, and the fan-out of the hub, in their
  -- order.
  pub record Inbox : Type 0 where
    pub dead : List DeadLetter
    pub commits : List (ℕ × ℕ)
    pub resets : ℕ
    pub cache : List Event
    pub hub : Hub
    pub fanout : List FanoutMessage

module _ {Raw : Type 0} (codec : Codec Raw) (c : Consumer) where
  abbrev pub decoded : ℕ → ℕ → Raw → Option BookingEvent → FetchResult Raw
  decoded partition offset raw none =
      undecoded (record { event = none; raw = raw; partition = partition; offset = offset })
  decoded partition offset raw (some e) =
      event (record { event = some e; raw = raw; partition = partition; offset = offset })

  abbrev pub fetch_enabled : Fetched Raw → Inbox Raw → FetchResult Raw × Inbox Raw
  fetch_enabled (message partition offset raw) st =
      (decoded partition offset raw (codec.unmarshal raw), st)
  fetch_enabled cancelled st = (stopped, st)
  fetch_enabled end_of_file st = (nothing, record st { resets = suc st.resets })
  fetch_enabled fetch_failed st = (failed, st)

  -- Fetch
  unfoldable pub fetch : Fetched Raw → Inbox Raw → FetchResult Raw × Inbox Raw
  fetch answer st = if c.enabled then fetch_enabled answer st else (nothing, st)

  -- Ack; whether it returned nil.
  unfoldable pub ack : Bool → Consumed Raw → Inbox Raw → Bool × Inbox Raw
  ack taken m st =
      if c.enabled
      then (if taken
          then (true, record st { commits = st.commits ++ (m.partition, m.offset) ∷ [] })
          else (false, st))
      else (true, st)

  abbrev pub position_key : Consumed Raw → String
  position_key m = print m.partition (String.◌∷◌ ":" (print m.offset ""))

  abbrev pub letter_key : Consumed Raw → Option BookingEvent → String
  letter_key m none = position_key m
  letter_key m (some e) = if str_eq e.event_id "" then position_key m else e.event_id

  abbrev pub type_header : Option BookingEvent → List (String × String)
  type_header none = []
  type_header (some e) = ("event_type", e.event_type) ∷ []

  abbrev pub dead_letter_of : Consumed Raw → DeadLetter Raw
  dead_letter_of m = record {
    key = letter_key m m.event;
    value = m.raw;
    headers = ("source_topic", c.topic) ∷ ("dlq_topic", c.dlq_topic) ∷ type_header m.event;
  }

  -- DeadLetter; whether it returned nil.
  unfoldable pub dead_letter : Bool → Consumed Raw → Inbox Raw → Bool × Inbox Raw
  dead_letter written m st =
      if c.enabled && c.has_dlq_writer
      then (if written
          then (true, record st { dead = st.dead ++ dead_letter_of m ∷ [] })
          else (false, st))
      else (true, st)

  abbrev pub forget : ℕ → Inbox Raw → Inbox Raw
  forget event_id st =
      if c.has_cache_invalidator then record st { cache = forget_event event_id st.cache } else st

  abbrev pub tell : ℕ → ℕ → String → Inbox Raw → Inbox Raw
  tell event_id seat_id status st =
      let (h, f) = broadcast_seat_update event_id seat_id status st.hub in
      record st { hub = h; fanout = st.fanout ++ f ∷ [] }

  abbrev pub tell_status : ℕ → ℕ → Option String → Inbox Raw → Bool × Inbox Raw
  tell_status event_id seat_id none st = (false, st)
  tell_status event_id seat_id (some status) st = (true, tell event_id seat_id status st)

  abbrev pub handle_ids : Option ℕ → Option ℕ → BookingEvent → Inbox Raw → Bool × Inbox Raw
  handle_ids none seat_id e st = (false, st)
  handle_ids (some event_id) none e st = (false, st)
  handle_ids (some event_id) (some seat_id) e st =
      if c.has_hub
      then tell_status event_id seat_id (seat_status_for_booking_event e.event_type)
          (forget event_id st)
      else (true, forget event_id st)

  -- handle; whether it returned nil.
  unfoldable pub handle_event : Option BookingEvent → Inbox Raw → Bool × Inbox Raw
  handle_event none st = (false, st)
  handle_event (some e) st =
      handle_ids (codec.uuid_parse e.event_id) (codec.uuid_parse e.seat_id) e st

  abbrev pub ack_after : Bool → Consumed Raw → Bool × Inbox Raw → Inbox Raw
  ack_after taken m (true, st) = (ack taken m st).1
  ack_after taken m (false, st) = st

  -- deadLetterThenAck
  unfoldable pub dead_letter_then_ack : Turn Raw → Consumed Raw → Inbox Raw → Inbox Raw
  dead_letter_then_ack t m st = ack_after t.committed m (dead_letter t.written m st)

  abbrev pub conclude : Turn Raw → Consumed Raw → Bool × Inbox Raw → Inbox Raw
  conclude t m (true, st) = (ack t.committed m st).1
  conclude t m (false, st) = dead_letter_then_ack t m st

  -- What a round does with the result of Fetch; whether the loop goes on.
  abbrev pub consume : Turn Raw → FetchResult Raw × Inbox Raw → Bool × Inbox Raw
  consume t (stopped, st) = (false, st)
  consume t (undecoded m, st) = (true, dead_letter_then_ack t m st)
  consume t (failed, st) = (t.waited, st)
  consume t (nothing, st) = (t.waited, st)
  consume t (event m, st) = (true, conclude t m (handle_event m.event st))

  -- One round of the loop of Run.
  unfoldable pub round : Turn Raw → Inbox Raw → Bool × Inbox Raw
  round t st = if t.done then (false, st) else consume t (fetch t.fetched st)

  -- Run, on the answers of its rounds.
  unfoldable pub run : List (Turn Raw) → Inbox Raw → Inbox Raw
  run [] st = st
  run (t ∷ ts) st =
      let (goes_on, st') = round t st in let rest = run ts st' in if goes_on then rest else st'
