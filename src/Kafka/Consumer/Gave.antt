-- ===== src/Kafka/Consumer/Gave.antt =====
-- What the parts of a round of the consumer add to the fan-out, the dead letters and the commits.
use mathlib.Core.Path.{subst}
use mathlib.Core.List.{append_assoc, append-nil, map-append}
use ticket_master.Prelude.{
  ℕ, ◌≡◌, ◌∙◌, refl, sym, String, Bool, true, false, not, ◌||◌, Option, none, some, List, [], ◌∷◌,
  ◌++◌, if◌then◌else◌, arith, Bool-cases, inl, inr,
}
use ticket_master.Hub.{Message, FanoutMessage, seat_update, broadcast_local, broadcast_seat_update}
use ticket_master.Kafka.{BookingEvent, Codec}
use ticket_master.Kafka.Consumer.{
  Consumer, Consumed, Turn, Inbox, seat_status_for_booking_event, ack, dead_letter, handle_event,
  dead_letter_then_ack, tell, tell_status, ack_after, forget, handle_ids, conclude, consume,
  decoded,
}
use ticket_master.Kafka.Consumer.Expected.{
  IsWired, update_by, update_of_event, envelopes, when_list, is_known, values,
}

-- What came to the fan-out, the dead letters and the commits between two states.
pub record Gave {Raw : Type 0} (st : Inbox Raw) (ts : List FanoutMessage) (ls : List Raw)
    (cs : List (ℕ × ℕ)) (st' : Inbox Raw) : Type 0 where
  pub tells : st'.fanout ≡ st.fanout ++ ts
  pub letters : values st'.dead ≡ values st.dead ++ ls
  pub commits : st'.commits ≡ st.commits ++ cs
  pub same_hub : st'.hub.instance_id ≡ st.hub.instance_id

module _ {Raw : Type 0} where
  pub Gave-nothing : (st : Inbox Raw) → Gave st [] [] [] st
  Gave-nothing st = record {
    tells = sym (append-nil st.fanout);
    letters = sym (append-nil (values st.dead));
    commits = sym (append-nil st.commits);
    same_hub = refl;
  }

  Gave-settle :
      {st u v : Inbox Raw} {a : List FanoutMessage} {b : List Raw} {d : List (ℕ × ℕ)}
      → Gave st a b [] u
      → Gave u [] [] d v
      → Gave st a b d v
  Gave-settle {st} {u} {v} {a} {b} {d} g h = record {
    tells = rw (h.tells, append-nil) g.tells;
    letters = rw (h.letters, append-nil) g.letters;
    commits = rw (h.commits, g.commits, append-nil) refl;
    same_hub = h.same_hub ∙ g.same_hub;
  }

  pub Gave-then :
      {st u v : Inbox Raw} {a a' : List FanoutMessage} {b b' : List Raw} {d d' : List (ℕ × ℕ)}
      → Gave st a b d u
      → Gave u a' b' d' v
      → Gave st (a ++ a') (b ++ b') (d ++ d') v
  Gave-then {st} {u} {v} {a} {a'} {b} {b'} {d} {d'} g h = record {
    tells = rw (h.tells, g.tells) (append_assoc st.fanout a a');
    letters = rw (h.letters, g.letters) (append_assoc (values st.dead) b b');
    commits = rw (h.commits, g.commits) (append_assoc st.commits d d');
    same_hub = h.same_hub ∙ g.same_hub;
  }

  pub Gave-step :
      {st u v : Inbox Raw} {a a' : List FanoutMessage} {b b' : List Raw} {d d' : List (ℕ × ℕ)}
      (x y : Bool)
      → x ≡ y
      → Gave st a b d u
      → Gave u a' b' d' v
      → Gave st
          (a ++ (if y then a' else []))
          (b ++ (if y then b' else []))
          (d ++ (if y then d' else []))
          (if x then v else u)
  Gave-step true true e g h = Gave-then g h
  Gave-step true false e g h = cc
  Gave-step false true e g h = cc
  Gave-step {u} false false e g h = Gave-then g (Gave-nothing u)

module _ {Raw : Type 0} (codec : Codec Raw) (c : Consumer) (wired : IsWired c) where
  ack-Gave :
      (taken : Bool) (m : Consumed Raw) (st : Inbox Raw)
      → Gave st [] [] (when_list taken ((m.partition, m.offset) ∷ [])) (ack codec c taken m st).1
  unfolding ack
  ack-Gave true m st = rw (wired.enabled) (record {
    tells = sym (append-nil st.fanout);
    letters = sym (append-nil (values st.dead));
    commits = refl;
    same_hub = refl;
  })
  ack-Gave false m st = rw (wired.enabled) (Gave-nothing st)

  dead_letter-Gave :
      (written : Bool) (m : Consumed Raw) (st : Inbox Raw)
      → let r = dead_letter codec c written m st in
        (r.0 ≡ written) × Gave st [] (when_list written (m.raw ∷ [])) [] r.1
  unfolding dead_letter
  dead_letter-Gave true m st =
      rw (wired.enabled, wired.has_dlq_writer)
        (
          refl,
          record {
            tells = sym (append-nil st.fanout);
            letters = map-append (λ d. d.value) st.dead _;
            commits = sym (append-nil st.commits);
            same_hub = refl;
          },
        )
  dead_letter-Gave false m st = rw (wired.enabled, wired.has_dlq_writer) (refl, Gave-nothing st)

  ack_after-Gave :
      (taken : Bool) (m : Consumed Raw) (r : Bool × Inbox Raw)
      → Gave r.1 [] []
          (when_list r.0 (when_list taken ((m.partition, m.offset) ∷ [])))
          (ack_after codec c taken m r)
  ack_after-Gave taken m (true, st) = ack-Gave taken m st
  ack_after-Gave taken m (false, st) = Gave-nothing st

  dead_letter_then_ack-Gave :
      (t : Turn Raw) (m : Consumed Raw) (st : Inbox Raw)
      → Gave st []
          (when_list t.written (m.raw ∷ []))
          (when_list t.written (when_list t.committed ((m.partition, m.offset) ∷ [])))
          (dead_letter_then_ack codec c t m st)
  unfolding dead_letter_then_ack
  dead_letter_then_ack-Gave t m st =
      let (e, g) = dead_letter-Gave t.written m st in
      let h = ack_after-Gave t.committed m (dead_letter codec c t.written m st) in
      Gave-settle g (
        subst
          (λ b.
            Gave (dead_letter codec c t.written m st).1 [] []
              (when_list b (when_list t.committed ((m.partition, m.offset) ∷ [])))
              (ack_after codec c t.committed m (dead_letter codec c t.written m st)))
          e h)

  tell-Gave :
      (event_id seat_id : ℕ) (status : String) (st : Inbox Raw)
      → Gave st
          (envelopes st.hub.instance_id (some (seat_update event_id seat_id status)))
          []
          []
          (tell codec c event_id seat_id status st)
  unfolding broadcast_seat_update broadcast_local
  tell-Gave event_id seat_id status st = record {
    tells = refl;
    letters = sym (append-nil (values st.dead));
    commits = sym (append-nil st.commits);
    same_hub = ground arith;
  }

  tell_status-Gave :
      (event_id seat_id : ℕ) (status : Option String) (st : Inbox Raw)
      → let r = tell_status codec c event_id seat_id status st in
        let u = update_by (some event_id) (some seat_id) status in
        (r.0 ≡ is_known u) × Gave st (envelopes st.hub.instance_id u) [] [] r.1
  tell_status-Gave event_id seat_id none st = (refl, Gave-nothing st)
  tell_status-Gave event_id seat_id (some status) st = (refl, tell-Gave event_id seat_id status st)

  forget-Gave : (event_id : ℕ) (st : Inbox Raw) → Gave st [] [] [] (forget codec c event_id st)
  forget-Gave event_id st = elim (Bool-cases c.has_cache_invalidator) [
    | inl yes_cache ↦ rw yes_cache (record {
      tells = sym (append-nil st.fanout);
      letters = sym (append-nil (values st.dead));
      commits = sym (append-nil st.commits);
      same_hub = refl;
    })
    | inr no_cache ↦ rw no_cache (Gave-nothing st)
  ]

  handle_ids-Gave :
      (event_id seat_id : Option ℕ) (e : BookingEvent) (st : Inbox Raw)
      → let r = handle_ids codec c event_id seat_id e st in
        let u = update_by event_id seat_id (seat_status_for_booking_event e.event_type) in
        (r.0 ≡ is_known u) × Gave st (envelopes st.hub.instance_id u) [] [] r.1
  handle_ids-Gave none seat_id e st = (refl, Gave-nothing st)
  handle_ids-Gave (some event_id) none e st = (refl, Gave-nothing st)
  handle_ids-Gave (some event_id) (some seat_id) e st =
      let forgot = forget-Gave event_id st in
      let (known, g) =
        tell_status-Gave event_id seat_id (seat_status_for_booking_event e.event_type)
          (forget codec c event_id st) in
      rw wired.has_hub (known, Gave-then forgot (rw forgot.same_hub at g))

  conclude-Gave :
      (t : Turn Raw) (m : Consumed Raw) (st : Inbox Raw) (u : Option Message) (r : Bool × Inbox Raw)
      → r.0 ≡ is_known u
      → Gave st (envelopes st.hub.instance_id u) [] [] r.1
      → Gave st
          (envelopes st.hub.instance_id u)
          (when_list (not (is_known u)) (when_list t.written (m.raw ∷ [])))
          (when_list
            (is_known u || t.written)
            (when_list t.committed ((m.partition, m.offset) ∷ [])))
          (conclude codec c t m r)
  conclude-Gave t m st none (true, st') e g = cc
  conclude-Gave t m st none (false, st') e g = Gave-then g (dead_letter_then_ack-Gave t m st')
  conclude-Gave t m st (some u) (true, st') e g = Gave-settle g (ack-Gave t.committed m st')
  conclude-Gave t m st (some u) (false, st') e g = cc

  pub decoded-Gave :
      (t : Turn Raw) (partition offset : ℕ) (raw : Raw) (o : Option BookingEvent) (st : Inbox Raw)
      → let r = consume codec c t (decoded codec c partition offset raw o, st) in
        let u = update_of_event codec o in
        (r.0 ≡ true)
        × Gave st
            (envelopes st.hub.instance_id u)
            (when_list (not (is_known u)) (when_list t.written (raw ∷ [])))
            (when_list (is_known u || t.written) (when_list t.committed ((partition, offset) ∷ [])))
            r.1
  unfolding handle_event
  decoded-Gave t partition offset raw none st = (refl, dead_letter_then_ack-Gave t _ st)
  decoded-Gave t partition offset raw (some e) st =
      let (known, g) =
        handle_ids-Gave (codec.uuid_parse e.event_id) (codec.uuid_parse e.seat_id) e st in
      (refl, conclude-Gave t _ st (update_of_event codec (some e)) _ known g)
