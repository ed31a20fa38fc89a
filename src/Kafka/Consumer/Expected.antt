-- ===== src/Kafka/Consumer/Expected.antt =====
-- What the consumer of booking events is expected to make of its topic, message by message.
use ticket_master.Prelude.{
  ℕ, String, Bool, true, false, not, ◌||◌, ◌≡◌, Option, none, some, List, [], ◌∷◌, ◌++◌, map,
  if◌then◌else◌,
}
use ticket_master.Hub.{Message, FanoutMessage, seat_update}
use ticket_master.Kafka.{BookingEvent, Codec}
use ticket_master.Kafka.Consumer.{
  Consumer, Fetched, Turn, DeadLetter, message, cancelled, end_of_file, fetch_failed,
  seat_status_for_booking_event,
}

-- Started with a broker and a hub, as cmd/server does.
pub record IsWired (c : Consumer) : Type 0 where
  pub enabled : c.enabled ≡ true
  pub has_dlq_writer : c.has_dlq_writer ≡ true
  pub has_hub : c.has_hub ≡ true

abbrev pub update_by : Option ℕ → Option ℕ → Option String → Option Message
update_by (some event_id) (some seat_id) (some status) = some (seat_update event_id seat_id status)
update_by _ _ _ = none

module _ {Raw : Type 0} (codec : Codec Raw) where
  abbrev pub update_of_event : Option BookingEvent → Option Message
  update_of_event none = none
  update_of_event (some e) =
      update_by (codec.uuid_parse e.event_id) (codec.uuid_parse e.seat_id)
        (seat_status_for_booking_event e.event_type)

  -- The seat update that a message asks for, if it is a booking event that the consumer knows.
  abbrev pub update_of : Raw → Option Message
  update_of raw = update_of_event (codec.unmarshal raw)

abbrev pub envelopes : String → Option Message → List FanoutMessage
envelopes id none = []
envelopes id (some m) = (record { source_id = id; message = some m }) ∷ []

abbrev pub when_list {ℓ} : {A : Type ℓ} → Bool → List A → List A
when_list b xs = if b then xs else []

abbrev pub is_known : Option Message → Bool
is_known none = false
is_known (some m) = true

module _ {Raw : Type 0} (codec : Codec Raw) where
  -- What a message gives: to the hubs, to the dead letter topic, and as a commit.
  abbrev pub told : String → Turn Raw → Fetched Raw → List FanoutMessage
  told id t (message partition offset raw) = envelopes id (update_of codec raw)
  told id t _ = []

  abbrev pub buried : Turn Raw → Fetched Raw → List Raw
  buried t (message partition offset raw) =
      when_list (not (is_known (update_of codec raw))) (when_list t.written (raw ∷ []))
  buried t _ = []

  abbrev pub settled : Turn Raw → Fetched Raw → List (ℕ × ℕ)
  settled t (message partition offset raw) =
      when_list (is_known (update_of codec raw) || t.written)
        (when_list t.committed ((partition, offset) ∷ []))
  settled t _ = []

module _ {Raw : Type 0} where
  -- Whether the loop goes on after what was fetched.
  abbrev pub fetch_goes_on : Bool → Fetched Raw → Bool
  fetch_goes_on waited (message partition offset raw) = true
  fetch_goes_on waited cancelled = false
  fetch_goes_on waited end_of_file = waited
  fetch_goes_on waited fetch_failed = waited

  -- What the rounds give, one after the other, up to the one at which the loop ends.
  abbrev pub gather {ℓ} :
      {A : Type ℓ} → (Turn Raw → Fetched Raw → List A) → List (Turn Raw) → List A
  gather f [] = []
  gather f (t ∷ ts) =
      let rest = gather f ts in
      if t.done
      then []
      else f t t.fetched ++ (if fetch_goes_on t.waited t.fetched then rest else [])

  abbrev pub values : List (DeadLetter Raw) → List Raw
  values = map (λ d. d.value)
