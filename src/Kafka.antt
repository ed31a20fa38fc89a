-- ===== src/Kafka.antt =====
-- internal/kafka and internal/services/kafka_event_publisher.go: booking events as messages of a topic.
-- The encoding of an event and the text of a uuid are encoding/json's and google/uuid's, so they are a
-- parameter. The metadata of an event are left out.
pub mod Consumer
pub mod Topics
use ticket_master.Prelude.{
  ℕ, ◌≡◌, String, Bool, true, false, not, ◌&&◌, ◌||◌, Option, none, some, List, [], ◌∷◌, ◌++◌, ◌==◌,
  if◌then◌else◌, str_eq,
}
use ticket_master.Model.{Booking, BookingStatus}

pub record BookingEvent : Type 0 where
  pub event_type : String
  pub booking_id : String
  pub user_id : String
  pub event_id : String
  pub seat_id : String
  pub status : BookingStatus
  pub total_amount : ℕ
  pub occurred_at : ℕ

-- json.Marshal and json.Unmarshal of events, uuid.UUID.String and uuid.Parse.
pub record Codec (Raw : Type 0) : Type 0 where
  pub marshal : BookingEvent → Option Raw
  pub unmarshal : Raw → Option BookingEvent
  pub uuid_text : ℕ → String
  pub uuid_parse : String → Option ℕ

-- What those libraries document: what was written is read back.
pub record IsFaithful {Raw : Type 0} (c : Codec Raw) : Type 0 where
  pub decodes : (e : BookingEvent) (raw : Raw) → c.marshal e ≡ some raw → c.unmarshal raw ≡ some e
  pub parses : (id : ℕ) → c.uuid_parse (c.uuid_text id) ≡ some id

-- kafkago.Message
pub record KafkaMessage (Raw : Type 0) : Type 0 where
  pub key : String
  pub value : Raw
  pub time : ℕ
  pub headers : List (String × String)

-- A producer or consumer that no broker is configured for is not enabled.
pub record Producer : Type 0 where
  pub enabled : Bool
  pub topic : String

module _ {Raw : Type 0} (c : Codec Raw) where
  abbrev pub write_encoded :
      Producer
      → Bool
      → BookingEvent
      → Option Raw
      → List (KafkaMessage Raw)
      → Bool × List (KafkaMessage Raw)
  write_encoded p written e none topic = (false, topic)
  write_encoded p false e (some raw) topic = (false, topic)
  write_encoded p true e (some raw) topic = (
    true,
    topic
        ++ (record {
          key = e.event_id;
          value = raw;
          time = e.occurred_at;
          headers = ("event_type", e.event_type) ∷ ("topic", p.topic) ∷ [];
        })
          ∷ [],
  )

  abbrev pub publish_enabled :
      Producer
      → Bool
      → Option BookingEvent
      → List (KafkaMessage Raw)
      → Bool × List (KafkaMessage Raw)
  publish_enabled p written none topic = (false, topic)
  publish_enabled p written (some e) topic = write_encoded p written e (c.marshal e) topic

  -- Producer.PublishBookingEvent: whether it returns nil, and the topic; `written` says whether Kafka
  -- takes the message.
  unfoldable pub publish_message :
      Producer
      → Bool
      → Option BookingEvent
      → List (KafkaMessage Raw)
      → Bool × List (KafkaMessage Raw)
  publish_message p written e topic =
      if p.enabled then publish_enabled p written e topic else (true, topic)

  -- The time of the event is that of the booking's last change, if it has one.
  abbrev pub booking_event : ℕ → String → Booking → BookingEvent
  booking_event now event_type b = record {
    event_type = event_type;
    booking_id = c.uuid_text b.id;
    user_id = c.uuid_text b.user_id;
    event_id = c.uuid_text b.event_id;
    seat_id = c.uuid_text b.seat_id;
    status = b.status;
    total_amount = b.total_amount;
    occurred_at = if b.updated_at == 0 then now else b.updated_at;
  }

  -- KafkaEventPublisher.PublishBookingEvent
  unfoldable pub publish_booking_event :
      Producer
      → Bool
      → ℕ
      → String
      → Option Booking
      → List (KafkaMessage Raw)
      → Bool × List (KafkaMessage Raw)
  publish_booking_event p written now event_type none topic = (true, topic)
  publish_booking_event p written now event_type (some b) topic =
      if p.enabled
      then publish_message p written (some (booking_event now event_type b)) topic
      else (true, topic)
