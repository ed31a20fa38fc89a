-- ===== src/Tests/Hubs.antt =====
-- A client that connects, subscribes and is sent an update; two instances that share their updates.
use ticket_master.Prelude.{◌≡◌, refl, [], ◌∷◌, arith, eq_iff, true, false}
use ticket_master.Hub.{
  Hub, Client, HubReach, started, then_step, connects, registers, subscribes, updates, broadcasts,
  new_hub, seat_update, broadcast_seat_update, broadcast_local, deliver_to_clients, receive_fanout,
}
use ticket_master.Hub.Rows.{Sound}
use ticket_master.Hub.Safety.{clients-Sound, broadcast_seat_update_once}

abbrev connected_client : Client
connected_client = record {
  id = 4;
  event_ids = 1 ∷ [];
  send = seat_update 1 11 "reserved" ∷ [];
  closed = false;
  registered = true;
  broken = false;
}

abbrev one_client : Hub
one_client = record (new_hub "a") { clients = connected_client ∷ [] }

one_client_reached : HubReach (new_hub "a") one_client
unfolding broadcast_local deliver_to_clients
one_client_reached =
    then_step
      (then_step
        (then_step (then_step (then_step started (connects 4 refl (omega arith))) registers)
          (subscribes 4 1))
        (updates (seat_update 1 11 "reserved")))
      broadcasts

clients-Sound_example : Sound connected_client
clients-Sound_example = clients-Sound "a" one_client 4 connected_client one_client_reached refl

broadcast_seat_update_once_example :
    let (o, f) = broadcast_seat_update 1 11 "sold" (new_hub "a") in
    ((receive_fanout f o).broadcast ≡ seat_update 1 11 "sold" ∷ [])
    × ((receive_fanout f (new_hub "b")).broadcast ≡ seat_update 1 11 "sold" ∷ [])
broadcast_seat_update_once_example =
    broadcast_seat_update_once (new_hub "a") (new_hub "b") 1 11 "sold"
      (λ e. ground (arith, (eq_iff "a" "b").1 e)) (omega arith) (omega arith)
