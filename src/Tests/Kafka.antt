-- ===== src/Tests/Kafka.antt =====
-- Events of bookings through a codec that counts in strokes, topics and clients of a configuration, and
-- the migrations of a start-up.
use mathlib.Core.List.{map}
use ticket_master.Prelude.{
  ℕ, zero, suc, ◌+◌, ◌≡◌, refl, sym, ap, true, false, String, none, some, [], ◌∷◌, ◌++◌, arith,
}
use ticket_master.Effects.{forget_event}
use ticket_master.Hub.{new_hub, seat_update}
use ticket_master.Config.{KafkaConfig}
use ticket_master.Config.Text.{Letters, pos}
use ticket_master.Config.Security.{
  validate_security, kafka_security_protocol, new_client, client_for, IsConsistent,
  new_client-IsConsistent,
}
use ticket_master.Kafka.{
  BookingEvent, Codec, IsFaithful, Producer, booking_event, publish_booking_event,
}
use ticket_master.Kafka.Consumer.{
  Consumer, Turn, Inbox, message, round, run, seat_status_for_booking_event,
}
use ticket_master.Kafka.Consumer.Expected.{
  IsWired, envelopes, values, gather, told, buried, settled,
}
use ticket_master.Kafka.Consumer.Delivery.{run-accounts, resume_at, unacked_passed_over}
use ticket_master.Kafka.Consumer.RoundTrip.{publish-told}
use ticket_master.Service.Purchase.{is_space}
use ticket_master.Startup.{Taken, Connection, ended_tx, execute_migration, execute_migration-locked}
use ticket_master.Kafka.Topics.{occurrences, missing_topic_configs, missing_topic_configs-once}
use ticket_master.Tests.Fixtures.{concert, booking_of_7}

-- A stroke for each unit.
abbrev strokes : ℕ → String
strokes zero = ""
strokes (suc n) = Prim.Native.String.◌∷◌ "|" (strokes n)

abbrev counted : String → ℕ
counted Prim.Native.String.[] = 0
counted (Prim.Native.String.◌∷◌ c s) = counted s + 1

counted-strokes : (n : ℕ) → counted (strokes n) ≡ n
counted-strokes zero = refl
counted-strokes (suc n) = ground (arith, counted-strokes n)

abbrev plain : Codec BookingEvent
plain = record {
  marshal = λ e. some e;
  unmarshal = λ e. some e;
  uuid_text = strokes;
  uuid_parse = λ s. some (counted s);
}

plain-IsFaithful : IsFaithful plain
plain-IsFaithful = record {
  decodes = λ e raw h. sym h;
  parses = λ id. ap some (counted-strokes id);
}

abbrev consumer : Consumer
consumer = record {
  enabled = true;
  has_dlq_writer = true;
  has_cache_invalidator = true;
  has_hub = true;
  topic = "booking-events";
  dlq_topic = "booking-events-dlq";
}

consumer-IsWired : IsWired consumer
consumer-IsWired = record { enabled = refl; has_dlq_writer = refl; has_hub = refl }

abbrev empty_inbox : Inbox BookingEvent
empty_inbox = record {
  dead = [];
  commits = [];
  resets = 0;
  cache = concert ∷ [];
  hub = new_hub "a";
  fanout = [];
}

abbrev sent : BookingEvent
sent = booking_event plain 500 "booking.reserved" booking_of_7

abbrev unknown_sent : BookingEvent
unknown_sent = record sent { event_type = "booking.renamed" }

abbrev received : ℕ → BookingEvent → Turn BookingEvent
received o e = record {
  done = false;
  fetched = message 2 o e;
  written = true;
  committed = true;
  waited = true;
}

abbrev unwritten : ℕ → BookingEvent → Turn BookingEvent
unwritten o e = record (received o e) { written = false }

run-accounts_example :
    let ts = received 0 sent ∷ unwritten 1 unknown_sent ∷ received 2 unknown_sent ∷ [] in
    let st' = run plain consumer ts empty_inbox in
    (st'.fanout ≡ [] ++ gather (told plain "a") ts)
    × (values st'.dead ≡ [] ++ gather (buried plain) ts)
    × (st'.commits ≡ [] ++ gather (settled plain) ts)
run-accounts_example =
    run-accounts plain consumer consumer-IsWired
      (received 0 sent ∷ unwritten 1 unknown_sent ∷ received 2 unknown_sent ∷ []) empty_inbox

unacked_passed_over_example :
    let st' = run plain consumer (unwritten 4 unknown_sent ∷ received 5 sent ∷ []) empty_inbox in
    (values st'.dead ≡ [])
    × (st'.fanout ≡ [] ++ envelopes "a" (some (seat_update 1 11 "reserved")))
    × (resume_at 2 st'.commits ≡ some 6)
unfolding seat_status_for_booking_event
unacked_passed_over_example =
    unacked_passed_over plain consumer (unwritten 4 unknown_sent) (received 5 sent) empty_inbox 2 4
      5 unknown_sent sent (seat_update 1 11 "reserved") consumer-IsWired refl refl refl refl refl
      refl refl refl

abbrev producer : Producer
producer = record { enabled = true; topic = "booking-events" }

publish-told_example :
    let published =
      publish_booking_event plain producer true 500 "booking.reserved" (some booking_of_7) [] in
    let st' = (round plain consumer (received 0 sent) empty_inbox).1 in
    (map (λ m. m.value) published.1 ≡ sent ∷ [])
    × (st'.fanout ≡ [] ++ envelopes "a" (some (seat_update 1 11 "reserved")))
    × (values st'.dead ≡ [])
    × (st'.cache ≡ forget_event 1 (concert ∷ []))
publish-told_example =
    publish-told plain plain-IsFaithful producer consumer (received 0 sent) empty_inbox 500 2 0
      booking_of_7 sent [] refl consumer-IsWired refl refl refl refl

abbrev pub same_letters : Letters
same_letters = record { to_upper = λ s. s; to_lower = λ s. s; url_host = λ s. none }

abbrev kafka : KafkaConfig
kafka = record {
  brokers = "broker:9092" ∷ [];
  security_protocol = "SASL_SSL";
  sasl_mechanism = "PLAIN";
  sasl_username = "app";
  sasl_password = "secret";
  booking_events_topic = "booking-events";
  booking_events_dlq_topic = "";
  booking_commands_topic = "commands";
  purchase_commands_topic = "commands";
  booking_dlq_topic = "dlq";
  purchase_dlq_topic = "dlq";
  client_id = "backend";
  required_acks = "all";
  async = false;
  topic_partitions = pos 8;
  topic_replication_factor = pos 1;
}

new_client-IsConsistent_example : IsConsistent kafka (client_for kafka "SASL_SSL")
unfolding new_client validate_security kafka_security_protocol is_space
new_client-IsConsistent_example =
    new_client-IsConsistent same_letters kafka "broker:9092" [] (client_for kafka "SASL_SSL") refl
      refl

abbrev all_taken : Taken
all_taken = record { begin = true; lock = true; migration = true; commit = true; unlock = true }

abbrev fresh : Connection
fresh = record { tx = ended_tx; locked = false; written = false; migrated = false }

execute_migration-locked_example : (execute_migration all_taken fresh).1.locked ≡ true
execute_migration-locked_example = execute_migration-locked all_taken fresh refl refl

missing_topic_configs-once_example :
    occurrences "commands" (missing_topic_configs kafka ("dlq" ∷ [])) ≡ 1
missing_topic_configs-once_example = missing_topic_configs-once kafka ("dlq" ∷ []) "commands"
