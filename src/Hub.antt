-- ===== src/Hub.antt =====
-- internal/websocket/hub.go: the hub, its clients and their channels. A client is known by a number that
-- stands for its pointer. A channel is the list of what is in its buffer; a send on a closed channel and
-- the closing of a closed channel panic, which `broken` records. Rounds of Run and steps of the pumps
-- interleave in any order.
pub mod Rows
pub mod Safety
pub mod Upgrade
use ticket_master.Prelude.{
  ℕ, ◌+◌, String, Bool, true, false, not, ◌&&◌, ◌||◌, Option, none, some, List, [], ◌∷◌, ◌++◌, ◌==◌,
  ◌<◌, ◌≡◌, ltb, if◌then◌else◌, length, drop, str_eq, map,
}
use ticket_master.Table.{get, modify}

abbrev pub broadcast_queue_size : ℕ
broadcast_queue_size = 512

abbrev pub register_queue_size : ℕ
register_queue_size = 64

abbrev pub unregister_queue_size : ℕ
unregister_queue_size = 64

abbrev pub client_send_buffer_size : ℕ
client_send_buffer_size = 256

pub record Message : Type 0 where
  pub type : String
  pub event_id : ℕ
  pub seat_id : ℕ
  pub status : String

-- `registered` is whether the client is a key of the hub's map of clients.
pub record Client : Type 0 where
  pub id : ℕ
  pub event_ids : List ℕ
  pub send : List Message
  pub closed : Bool
  pub registered : Bool
  pub broken : Bool

-- The clients are those that HandleClient has made.
pub record Hub : Type 0 where
  pub clients : List Client
  pub broadcast : List Message
  pub register : List ℕ
  pub unregister : List ℕ
  pub instance_id : String

abbrev pub has_event : ℕ → List ℕ → Bool
has_event k [] = false
has_event k (e ∷ es) = e == k || has_event k es

-- subscribedTo
abbrev pub subscribed_to : ℕ → Client → Bool
subscribed_to event_id c = has_event event_id c.event_ids

-- close(client.Send)
abbrev pub close_send : Client → Client
close_send c = if c.closed then record c { broken = true } else record c { closed = true }

-- delete(h.Clients, client) and close(client.Send), where the client is in the map
abbrev pub remove : Client → Client
remove c = if c.registered then close_send (record c { registered = false }) else c

abbrev pub is_recipient : Message → Client → Bool
is_recipient m c = c.registered && (m.event_id == 0 || subscribed_to m.event_id c)

-- select { case client.Send <- payload: default: stale }, and what becomes of a stale client
abbrev pub send_or_drop : Message → Client → Client
send_or_drop m c =
    if c.closed
    then record c { broken = true }
    else if ltb (length c.send) client_send_buffer_size
    then record c { send = c.send ++ m ∷ [] }
    else remove c

abbrev pub deliver : Message → Client → Client
deliver m c = if is_recipient m c then send_or_drop m c else c

-- deliverToClients; the clients do not depend on one another, so their order in the map is free
unfoldable pub deliver_to_clients : Message → Hub → Hub
deliver_to_clients m h = record h { clients = map (deliver m) h.clients }

abbrev pub change_client : ℕ → (Client → Client) → Hub → Hub
change_client k f h = record h { clients = modify (λ c. c.id) k f h.clients }

-- removeClient
unfoldable pub remove_client : ℕ → Hub → Hub
remove_client k h = change_client k remove h

abbrev pub enter_map : Client → Client
enter_map c = record c { registered = true }

-- broadcastLocal
unfoldable pub broadcast_local : Message → Hub → Hub
broadcast_local m h =
    if ltb (length h.broadcast) broadcast_queue_size
    then record h { broadcast = h.broadcast ++ m ∷ [] }
    else h

abbrev pub seat_update : ℕ → ℕ → String → Message
seat_update event_id seat_id status = record {
  type = "seat_update";
  event_id = event_id;
  seat_id = seat_id;
  status = status;
}

-- What is published on websocket:seat_updates.
pub record FanoutMessage : Type 0 where
  pub source_id : String
  pub message : Option Message

-- BroadcastSeatUpdate: the hub, and what it publishes.
unfoldable pub broadcast_seat_update : ℕ → ℕ → String → Hub → Hub × FanoutMessage
broadcast_seat_update event_id seat_id status h =
    let m = seat_update event_id seat_id status in
    (broadcast_local m h, record { source_id = h.instance_id; message = some m })

abbrev pub take_envelope : Option Message → Bool → Hub → Hub
take_envelope none own h = h
take_envelope (some m) true h = h
take_envelope (some m) false h = broadcast_local m h

-- A message of the channel in StartFanout.
unfoldable pub receive_fanout : FanoutMessage → Hub → Hub
receive_fanout f h = take_envelope f.message (str_eq f.source_id h.instance_id) h

abbrev pub new_client : ℕ → Client
new_client k = record {
  id = k;
  event_ids = [];
  send = [];
  closed = false;
  registered = false;
  broken = false;
}

-- HandleClient, where there is room in Register
abbrev pub handle_client : ℕ → Hub → Hub
handle_client k h = record h { clients = new_client k ∷ h.clients; register = h.register ++ k ∷ [] }

-- The end of readPump, where there is room in Unregister
abbrev pub leave : ℕ → Hub → Hub
leave k h = record h { unregister = h.unregister ++ k ∷ [] }

abbrev pub subscribe : ℕ → Client → Client
subscribe event_id c = record c { event_ids = event_id ∷ c.event_ids }

-- One round of writePump.
abbrev pub write_one : Client → Client
write_one c = record c { send = drop 1 c.send }

-- The three cases of Run, on the first message of the channel.
abbrev pub run_register : List ℕ → Hub → Hub
run_register [] h = h
run_register (k ∷ ks) h = change_client k enter_map (record h { register = ks })

abbrev pub run_unregister : List ℕ → Hub → Hub
run_unregister [] h = h
run_unregister (k ∷ ks) h = remove_client k (record h { unregister = ks })

abbrev pub run_broadcast : List Message → Hub → Hub
run_broadcast [] h = h
run_broadcast (m ∷ ms) h = deliver_to_clients m (record h { broadcast = ms })

pub data HubStep (h : Hub) : Hub → Type 0 where
  connects :
      (k : ℕ)
      → get (λ c. c.id) k h.clients ≡ none
      → length h.register < register_queue_size
      → HubStep h (handle_client k h)
  leaves : (k : ℕ) → length h.unregister < unregister_queue_size → HubStep h (leave k h)
  subscribes : (k event_id : ℕ) → HubStep h (change_client k (subscribe event_id) h)
  writes : (k : ℕ) → HubStep h (change_client k write_one h)
  updates : (m : Message) → HubStep h (broadcast_local m h)
  registers : HubStep h (run_register h.register h)
  unregisters : HubStep h (run_unregister h.unregister h)
  broadcasts : HubStep h (run_broadcast h.broadcast h)

pub data HubReach (h : Hub) : Hub → Type 0 where
  started : HubReach h h
  then_step : {u v : Hub} → HubReach h u → HubStep u v → HubReach h v

-- NewHub
abbrev pub new_hub : String → Hub
new_hub instance_id = record {
  clients = [];
  broadcast = [];
  register = [];
  unregister = [];
  instance_id = instance_id;
}
