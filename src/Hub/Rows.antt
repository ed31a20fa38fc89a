-- ===== src/Hub/Rows.antt =====
-- What holds of every client of the hub.
use ticket_master.Prelude.{
  ℕ, ◌≤◌, ◌<◌, ◌≡◌, refl, Bool, true, false, ◌||◌, List, [], ◌∷◌, ◌++◌, ◌==◌, ltb, arith,
  length-append, length, if◌then◌else◌, drop, map,
}
use ticket_master.Hub.{
  Message, Client, has_event, is_recipient, close_send, remove, send_or_drop, deliver, enter_map,
  subscribe, write_one, new_client, client_send_buffer_size,
}

-- Messages of the client's events, or of no event.
abbrev pub Wanted : List ℕ → List Message → Type 0
Wanted events [] = Unit {0}
Wanted events (m ∷ ms) =
    ((m.event_id == 0 || has_event m.event_id events) ≡ true) × Wanted events ms

-- The client's channels were used well; its buffer has room for what is in it, which is what it asked for;
-- it is in the map only while its channel is is_open.
pub record Sound (c : Client) : Type 0 where
  pub unbroken : c.broken ≡ false
  pub is_open : c.registered ≡ true → c.closed ≡ false
  pub fits : length c.send ≤ client_send_buffer_size
  pub wanted : Wanted c.event_ids c.send

abbrev pub AllSound : List Client → Type 0
AllSound [] = Unit {0}
AllSound (c ∷ cs) = Sound c × AllSound cs

Wanted-append :
    (events : List ℕ) (ms : List Message) (m : Message)
    → Wanted events ms
    → (m.event_id == 0 || has_event m.event_id events) ≡ true
    → Wanted events (ms ++ m ∷ [])
Wanted-append events [] m w h = (h, tt)
Wanted-append events (n ∷ ns) m w h = (w.0, Wanted-append events ns m w.1 h)

Wanted-more :
    (e : ℕ) (events : List ℕ) (ms : List Message) → Wanted events ms → Wanted (e ∷ events) ms
Wanted-more e events [] w = tt
Wanted-more e events (m ∷ ms) w = (ground (arith, w.0), Wanted-more e events ms w.1)

Wanted-drop : (events : List ℕ) (ms : List Message) → Wanted events ms → Wanted events (drop 1 ms)
Wanted-drop events [] w = tt
Wanted-drop events (m ∷ ms) w = w.1

length-drop : (ms : List Message) → length (drop 1 ms) ≤ length ms
length-drop [] = omega arith
length-drop (m ∷ ms) = omega arith

pub new_client-Sound : (k : ℕ) → Sound (new_client k)
new_client-Sound k = record {
  unbroken = refl;
  is_open = λ _. refl;
  fits = omega arith;
  wanted = tt;
}

pub subscribe-Sound : (e : ℕ) (c : Client) → Sound c → Sound (subscribe e c)
subscribe-Sound e c s = record {
  unbroken = s.unbroken;
  is_open = s.is_open;
  fits = s.fits;
  wanted = Wanted-more e c.event_ids c.send s.wanted;
}

pub write_one-Sound : (c : Client) → Sound c → Sound (write_one c)
write_one-Sound c s = record {
  unbroken = s.unbroken;
  is_open = s.is_open;
  fits = omega (arith, length-drop c.send, s.fits);
  wanted = Wanted-drop c.event_ids c.send s.wanted;
}

pub enter_map-Sound : (c : Client) → c.closed ≡ false → Sound c → Sound (enter_map c)
enter_map-Sound c o s = record {
  unbroken = s.unbroken;
  is_open = λ _. o;
  fits = s.fits;
  wanted = s.wanted;
}

-- Closing a channel that is open.
closed-Sound :
    (c : Client) (b : Bool)
    → b ≡ false
    → Sound c
    → Sound (
        if b
        then record c { registered = false; broken = true }
        else record c { registered = false; closed = true })
closed-Sound c true e s = ground arith
closed-Sound c false e s = record {
  unbroken = s.unbroken;
  is_open = λ r. ground arith;
  fits = s.fits;
  wanted = s.wanted;
}

removed-Sound :
    (c : Client) (b : Bool)
    → (b ≡ true → c.closed ≡ false)
    → Sound c
    → Sound (if b then close_send (record c { registered = false }) else c)
removed-Sound c true o s = closed-Sound c c.closed (o refl) s
removed-Sound c false o s = s

pub remove-Sound : (c : Client) → Sound c → Sound (remove c)
remove-Sound c s = removed-Sound c c.registered s.is_open s

push-Sound :
    (m : Message) (c : Client)
    → is_recipient m c ≡ true
    → length c.send < client_send_buffer_size
    → Sound c
    → Sound (record c { send = c.send ++ m ∷ [] })
push-Sound m c r room s = record {
  unbroken = s.unbroken;
  is_open = s.is_open;
  fits = omega (arith, length-append c.send (m ∷ []), room);
  wanted = Wanted-append c.event_ids c.send m s.wanted (ground (arith, r));
}

sent-Sound :
    (m : Message) (c : Client) (room : Bool)
    → (room ≡ true → length c.send < client_send_buffer_size)
    → is_recipient m c ≡ true
    → Sound c
    → Sound (if room then record c { send = c.send ++ m ∷ [] } else remove c)
sent-Sound m c true k r s = push-Sound m c r (k refl) s
sent-Sound m c false k r s = remove-Sound c s

opened-Sound :
    (m : Message) (c : Client) (b : Bool)
    → b ≡ false
    → is_recipient m c ≡ true
    → Sound c
    → Sound (
        if b
        then record c { broken = true }
        else if ltb (length c.send) client_send_buffer_size
        then record c { send = c.send ++ m ∷ [] }
        else remove c)
opened-Sound m c true e r s = ground arith
opened-Sound m c false e r s =
    sent-Sound m c (ltb (length c.send) client_send_buffer_size) (λ k. ground arith) r s

delivered-Sound :
    (m : Message) (c : Client) (b : Bool)
    → (b ≡ true → is_recipient m c ≡ true)
    → Sound c
    → Sound (if b then send_or_drop m c else c)
delivered-Sound m c true k s = opened-Sound m c c.closed (s.is_open (ground (arith, k))) (k refl) s
delivered-Sound m c false k s = s

pub deliver-Sound : (m : Message) (c : Client) → Sound c → Sound (deliver m c)
deliver-Sound m c s = delivered-Sound m c (is_recipient m c) (λ r. r) s

pub map-AllSound :
    (f : Client → Client) (cs : List Client)
    → ((c : Client) → Sound c → Sound (f c))
    → AllSound cs
    → AllSound (map f cs)
map-AllSound f [] h a = tt
map-AllSound f (c ∷ cs) h a = (h c a.0, map-AllSound f cs h a.1)
