-- ===== src/Hub/Upgrade.antt =====
-- internal/websocket/hub.go: checkOrigin, which the upgrade of a connection asks, and what readPump does
-- with a message of a client.
use ticket_master.Prelude.{
  ℕ, String, Bool, true, false, Option, none, some, List, str_eq, if◌then◌else◌,
}
use ticket_master.Config.{is_origin_allowed}
use ticket_master.Config.Text.{is_empty}
use ticket_master.Hub.{Hub, change_client, subscribe}

-- checkOrigin
unfoldable pub check_origin : List String → String → Bool
check_origin allowed_origins origin =
    if is_empty origin then true else is_origin_allowed allowed_origins origin

-- The fields `type` and `event_id` of a message that encoding/json can read, where they are texts.
pub record ClientMessage : Type 0 where
  pub type : Option String
  pub event_id : Option String

abbrev pub is_subscribe : Option String → Bool
is_subscribe none = false
is_subscribe (some type) = str_eq type "subscribe"

abbrev pub parsed_id : (String → Option ℕ) → Option String → Option ℕ
parsed_id uuid_parse none = none
parsed_id uuid_parse (some text) = uuid_parse text

abbrev pub subscribe_to : ℕ → Option ℕ → Hub → Hub
subscribe_to k none h = h
subscribe_to k (some event_id) h = change_client k (subscribe event_id) h

-- A round of readPump; `uuid_parse` is google/uuid's, and a message is none where it is no JSON.
unfoldable pub read_one : (String → Option ℕ) → ℕ → Option ClientMessage → Hub → Hub
read_one uuid_parse k none h = h
read_one uuid_parse k (some m) h =
    if is_subscribe m.type then subscribe_to k (parsed_id uuid_parse m.event_id) h else h
