-- ===== src/Hub/Safety.antt =====
-- Whatever the order of the steps, no channel is misused, and a client is sent what it asked for.
use ticket_master.Prelude.{
  ℕ, ◌+◌, ◌≤◌, ◌<◌, ◌≡◌, ◌≢◌, str_eq, eq_iff, refl, sym, String, true, false, ◌||◌, Option, none,
  some, List, [], ◌∷◌, ◌++◌, ◌==◌, if◌then◌else◌, arith, length, map, length-append, indicator, ltb,
  Bool-cases, inl, inr,
}
use ticket_master.Table.{get, modify, get-modify_any}
use ticket_master.Hub.{
  Hub, Message, Client, HubStep, HubReach, connects, leaves, subscribes, writes, updates, registers,
  unregisters, broadcasts, started, then_step, change_client, handle_client, enter_map, remove,
  deliver, deliver_to_clients, remove_client, broadcast_local, run_register, run_unregister,
  run_broadcast, broadcast_seat_update, receive_fanout, seat_update, subscribe, write_one, new_hub,
  broadcast_queue_size,
}
use ticket_master.Hub.Rows.{
  Sound, AllSound, new_client-Sound, subscribe-Sound, write_one-Sound, enter_map-Sound,
  remove-Sound, deliver-Sound, map-AllSound,
}

abbrev pub times : ℕ → List ℕ → ℕ
times k [] = 0
times k (j ∷ js) = indicator (j == k) + times k js

-- How often a client may stand in Register.
abbrev pub room_for : Option Client → ℕ
room_for none = 0
room_for (some c) = if c.registered || c.closed then 0 else 1

pub record HubInv (h : Hub) : Type 0 where
  pub sound : AllSound h.clients
  pub joins : (k : ℕ) → times k h.register ≤ room_for (get (λ c. c.id) k h.clients)
  pub backlog : length h.broadcast ≤ broadcast_queue_size

modify-AllSound :
    (f : Client → Client) (k : ℕ) (cs : List Client)
    → ((c : Client) → Sound c → Sound (f c))
    → AllSound cs
    → AllSound (modify (λ c. c.id) k f cs)
modify-AllSound f k [] h a = tt
modify-AllSound f k (c ∷ cs) h a = elim (Bool-cases (c.id == k)) [
  | inl here ↦ rw here (h c a.0, a.1)
  | inr there ↦ rw there (a.0, modify-AllSound f k cs h a.1)
]

enter-AllSound :
    (k : ℕ) (cs : List Client)
    → 1 ≤ room_for (get (λ c. c.id) k cs)
    → AllSound cs
    → AllSound (modify (λ c. c.id) k enter_map cs)
enter-AllSound k [] h a = tt
enter-AllSound k (c ∷ cs) h a = elim (Bool-cases (c.id == k)) [
  | inl here ↦ rw here (enter_map-Sound c (ground (arith, here)) a.0, a.1)
  | inr there ↦ rw there (a.0, enter-AllSound k cs (ground (arith, there)) a.1)
]

room-modify :
    (f : Client → Client) (k j : ℕ) (cs : List Client)
    → ((c : Client) → (f c).id ≡ c.id)
    → ((c : Client) → room_for (some (f c)) ≡ room_for (some c))
    → room_for (get (λ c. c.id) j (modify (λ c. c.id) k f cs)) ≡ room_for (get (λ c. c.id) j cs)
room-modify f k j [] i r = refl
room-modify f k j (c ∷ cs) i r = ground (arith, i c, r c, room-modify f k j cs i r)

room-map :
    (f : Client → Client) (j : ℕ) (cs : List Client)
    → ((c : Client) → (f c).id ≡ c.id)
    → ((c : Client) → room_for (some (f c)) ≡ room_for (some c))
    → room_for (get (λ c. c.id) j (map f cs)) ≡ room_for (get (λ c. c.id) j cs)
room-map f j [] i r = refl
room-map f j (c ∷ cs) i r = ground (arith, i c, r c, room-map f j cs i r)

id-deliver : (m : Message) (c : Client) → (deliver m c).id ≡ c.id
id-deliver m c = ground arith

id-remove : (c : Client) → (remove c).id ≡ c.id
id-remove c = ground arith

room-remove : (c : Client) → room_for (some (remove c)) ≡ room_for (some c)
room-remove c = ground arith

room-deliver : (m : Message) (c : Client) → room_for (some (deliver m c)) ≡ room_for (some c)
room-deliver m c = ground arith

-- A change that leaves a client as free to join as it was.
change_client-HubInv :
    (h : Hub) (f : Client → Client) (k : ℕ)
    → ((c : Client) → Sound c → Sound (f c))
    → ((c : Client) → (f c).id ≡ c.id)
    → ((c : Client) → room_for (some (f c)) ≡ room_for (some c))
    → HubInv h
    → HubInv (change_client k f h)
change_client-HubInv h f k s i r v = record {
  sound = modify-AllSound f k h.clients s v.sound;
  joins = λ j. rw (room-modify f k j h.clients i r) (v.joins j);
  backlog = v.backlog;
}

times-append : (j k : ℕ) (js : List ℕ) → times j (js ++ k ∷ []) ≡ times j js + indicator (k == j)
times-append j k [] = omega arith
times-append j k (i ∷ is) = omega (arith, times-append j k is)

connected-HubInv :
    (h : Hub) (k : ℕ) → get (λ c. c.id) k h.clients ≡ none → HubInv h → HubInv (handle_client k h)
connected-HubInv h k e v = record {
  sound = (new_client-Sound k, v.sound);
  joins = λ j. ground (arith, v.joins j, times-append j k h.register);
  backlog = v.backlog;
}

broadcast-HubInv : (h : Hub) (m : Message) → HubInv h → HubInv (broadcast_local m h)
unfolding broadcast_local
broadcast-HubInv h m v = elim (Bool-cases (ltb (length h.broadcast) broadcast_queue_size)) [
  | inl room ↦ rw room (record {
    sound = v.sound;
    joins = v.joins;
    backlog = ground (arith, length-append h.broadcast (m ∷ []));
  })
  | inr full ↦ rw full v
]

registered-HubInv : (h : Hub) (q : List ℕ) → h.register ≡ q → HubInv h → HubInv (run_register q h)
registered-HubInv h [] e v = v
registered-HubInv h (k ∷ ks) e v = record {
  sound = enter-AllSound k h.clients (ground (arith, v.joins k, e)) v.sound;
  joins = λ j.
      ground (arith, e, v.joins j, get-modify_any (λ c. c.id) enter_map k j h.clients (λ c. refl));
  backlog = v.backlog;
}

unregistered-HubInv : (h : Hub) (q : List ℕ) → HubInv h → HubInv (run_unregister q h)
unfolding remove_client
unregistered-HubInv h [] v = v
unregistered-HubInv h (k ∷ ks) v =
    change_client-HubInv (record h { unregister = ks }) remove k remove-Sound id-remove room-remove
      (record { sound = v.sound; joins = v.joins; backlog = v.backlog })

delivered-HubInv :
    (h : Hub) (q : List Message) → h.broadcast ≡ q → HubInv h → HubInv (run_broadcast q h)
unfolding deliver_to_clients
delivered-HubInv h [] e v = v
delivered-HubInv h (m ∷ ms) e v = record {
  sound = map-AllSound (deliver m) h.clients (deliver-Sound m) v.sound;
  joins = λ j. rw (room-map (deliver m) j h.clients (id-deliver m) (room-deliver m)) (v.joins j);
  backlog = ground (arith, v.backlog, e);
}

HubStep-HubInv : {h h' : Hub} → HubInv h → HubStep h h' → HubInv h'
HubStep-HubInv {h} v (connects k e r) = connected-HubInv h k e v
HubStep-HubInv {h} v (leaves k r) = record { sound = v.sound; joins = v.joins; backlog = v.backlog }
HubStep-HubInv {h} v (subscribes k event) =
    change_client-HubInv h (subscribe event) k (subscribe-Sound event) (λ c. refl) (λ c. refl) v
HubStep-HubInv {h} v (writes k) =
    change_client-HubInv h write_one k write_one-Sound (λ c. refl) (λ c. refl) v
HubStep-HubInv {h} v (updates m) = broadcast-HubInv h m v
HubStep-HubInv {h} v registers = registered-HubInv h h.register refl v
HubStep-HubInv {h} v unregisters = unregistered-HubInv h h.unregister v
HubStep-HubInv {h} v broadcasts = delivered-HubInv h h.broadcast refl v

HubReach-HubInv : {h h' : Hub} → HubInv h → HubReach h h' → HubInv h'
HubReach-HubInv v started = v
HubReach-HubInv v (then_step r s) = HubStep-HubInv (HubReach-HubInv v r) s

new_hub-HubInv : (instance : String) → HubInv (new_hub instance)
new_hub-HubInv instance = record { sound = tt; joins = λ k. omega arith; backlog = omega arith }

same-Sound : (x c : Client) → x ≡ c → Sound x → Sound c
same-Sound x c e s = rw (sym e) s

get-AllSound :
    (k : ℕ) (cs : List Client) (c : Client) → AllSound cs → get (λ c. c.id) k cs ≡ some c → Sound c
get-AllSound k [] c a e = ground arith
get-AllSound k (x ∷ xs) c a e = elim (Bool-cases (x.id == k)) [
  | inl here ↦ same-Sound x c (ground (arith, here)) a.0
  | inr there ↦ get-AllSound k xs c a.1 (ground (arith, there))
]

-- A hub that started empty, after any interleaving of connections, subscriptions, disconnections,
-- updates, rounds of its loop and of the write pumps: no client's channel is sent to or closed after it
-- was closed, a client in the map has an open channel, the channel holds at most its capacity, and every
-- message in it is of no event or of one that the client subscribed to.
pub clients-Sound :
    (instance_id : String) (h : Hub) (k : ℕ) (c : Client)
    → HubReach (new_hub instance_id) h
    → get (λ c. c.id) k h.clients ≡ some c
    → Sound c
clients-Sound instance_id h k c r e =
    get-AllSound k h.clients c (HubReach-HubInv (new_hub-HubInv instance_id) r).sound e

has_room :
    (h : Hub)
    → length h.broadcast < broadcast_queue_size
    → ltb (length h.broadcast) broadcast_queue_size ≡ true
has_room h r = ground arith

texts_differ : (s t : String) → s ≢ t → str_eq s t ≡ false
texts_differ s t n = elim (Bool-cases (str_eq s t)) [
  | inl same ↦ absurd (n ((eq_iff s t).0 same))
  | inr differ ↦ differ
]

-- A seat update enters the queue of the instance that made it exactly once, although its own fan-out
-- comes back to it, and that of any other instance once, where the queues have room.
pub broadcast_seat_update_once :
    (o h : Hub) (event seat : ℕ) (status : String)
    → o.instance_id ≢ h.instance_id
    → length o.broadcast < broadcast_queue_size
    → length h.broadcast < broadcast_queue_size
    → let (o', f) = broadcast_seat_update event seat status o in
      ((receive_fanout f o').broadcast ≡ o.broadcast ++ seat_update event seat status ∷ [])
      × ((receive_fanout f h).broadcast ≡ h.broadcast ++ seat_update event seat status ∷ [])
unfolding broadcast_seat_update receive_fanout broadcast_local
broadcast_seat_update_once o h event seat status n p q = (
  rw (has_room o p, (eq_iff o.instance_id o.instance_id).1 refl) refl,
  rw (texts_differ o.instance_id h.instance_id n, has_room h q) refl,
)
