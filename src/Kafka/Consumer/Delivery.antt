-- ===== src/Kafka/Consumer/Delivery.antt =====
-- What becomes of the messages of the topic of booking events.
use mathlib.Core.Path.{subst}
use mathlib.Core.List.{append-nil}
use ticket_master.Prelude.{
  ℕ, ◌+◌, ◌≡◌, refl, sym, true, false, Option, none, some, List, [], ◌∷◌, ◌++◌, ◌==◌, if◌then◌else◌,
  Bool-cases, inl, inr, ==_refl,
}
use ticket_master.Hub.{Message}
use ticket_master.Kafka.{Codec}
use ticket_master.Kafka.Consumer.{
  Consumer, Fetched, Turn, Inbox, message, cancelled, end_of_file, fetch_failed, fetch, round, run,
  consume, fetch_enabled,
}
use ticket_master.Kafka.Consumer.Expected.{
  IsWired, update_of, envelopes, told, buried, settled, fetch_goes_on, gather, values,
}
use ticket_master.Kafka.Consumer.Gave.{Gave, Gave-nothing, Gave-step, decoded-Gave}

module _ {Raw : Type 0} (codec : Codec Raw) (c : Consumer) (wired : IsWired c) where
  pub round-live :
      (t : Turn Raw) (f : Fetched Raw) (st : Inbox Raw)
      → t.done ≡ false
      → t.fetched ≡ f
      → round codec c t st ≡ consume codec c t (fetch_enabled codec c f st)
  unfolding round fetch
  round-live t f st d e = simp (d, e, wired.enabled)

  fetched-Gave :
      (t : Turn Raw) (f : Fetched Raw) (st : Inbox Raw)
      → let r = consume codec c t (fetch_enabled codec c f st) in
        (r.0 ≡ fetch_goes_on t.waited f)
        × Gave st (told codec st.hub.instance_id t f) (buried codec t f) (settled codec t f) r.1
  fetched-Gave t (message partition offset raw) st =
      decoded-Gave codec c wired t partition offset raw (codec.unmarshal raw) st
  fetched-Gave t cancelled st = (refl, Gave-nothing st)
  fetched-Gave t end_of_file st = (
    refl,
    record {
      tells = sym (append-nil st.fanout);
      letters = sym (append-nil (values st.dead));
      commits = sym (append-nil st.commits);
      same_hub = refl;
    },
  )
  fetched-Gave t fetch_failed st = (refl, Gave-nothing st)

  pub round-Gave :
      (t : Turn Raw) (st : Inbox Raw)
      → t.done ≡ false
      → let r = round codec c t st in
        (r.0 ≡ fetch_goes_on t.waited t.fetched)
        × Gave st
            (told codec st.hub.instance_id t t.fetched)
            (buried codec t t.fetched)
            (settled codec t t.fetched)
            r.1
  round-Gave t st d =
      subst
        (λ r.
          (r.0 ≡ fetch_goes_on t.waited t.fetched)
          × Gave st (told codec st.hub.instance_id t t.fetched) (buried codec t t.fetched)
              (settled codec t t.fetched) r.1)
        (sym (round-live t t.fetched st d refl)) (fetched-Gave t t.fetched st)

  round-done : (t : Turn Raw) (st : Inbox Raw) → t.done ≡ true → round codec c t st ≡ (false, st)
  unfolding round
  round-done t st d = simp d

  run-Gave :
      (ts : List (Turn Raw)) (st : Inbox Raw)
      → Gave st
          (gather (told codec st.hub.instance_id) ts)
          (gather (buried codec) ts)
          (gather (settled codec) ts)
          (run codec c ts st)
  unfolding run
  run-Gave [] st = Gave-nothing st
  run-Gave (t ∷ ts) st = elim (Bool-cases t.done) [
    | inl done ↦ simp (done, round-done t st done) (Gave-nothing st)
    | inr live ↦
        let (next, g) = round-Gave t st live in
        let rest = rw g.same_hub at (run-Gave ts (round codec c t st).1) in
        simp live (Gave-step (round codec c t st).0 (fetch_goes_on t.waited t.fetched) next g rest)
  ]

  -- The consumer, started with a broker and a hub, loses and invents nothing, whatever Kafka answers:
  -- up to the round that ends its loop, it tells the hubs the seat update of every message that asks
  -- for one, in their order; what it moves to the dead letter topic are the other messages whose
  -- dead letter Kafka took; and it commits those of both kinds whose commit Kafka took.
  pub run-accounts :
      (ts : List (Turn Raw)) (st : Inbox Raw)
      → let st' = run codec c ts st in
        (st'.fanout ≡ st.fanout ++ gather (told codec st.hub.instance_id) ts)
        × (values st'.dead ≡ values st.dead ++ gather (buried codec) ts)
        × (st'.commits ≡ st.commits ++ gather (settled codec) ts)
  run-accounts ts st = let g = run-Gave ts st in (g.tells, g.letters, g.commits)

abbrev later : Option ℕ → Option ℕ → Option ℕ
later (some n) o = some n
later none o = o

-- Where a group goes on after these commits: behind the last one of the partition.
abbrev pub resume_at : ℕ → List (ℕ × ℕ) → Option ℕ
resume_at p [] = none
resume_at p ((q, o) ∷ cs) = later (resume_at p cs) (if q == p then some (o + 1) else none)

resume_at-append : (p o : ℕ) (cs : List (ℕ × ℕ)) → resume_at p (cs ++ (p, o) ∷ []) ≡ some (o + 1)
resume_at-append p o [] = rw (==_refl p) refl
resume_at-append p o (c ∷ cs) = rw (resume_at-append p o cs) refl

-- A message that the consumer can neither handle nor move to the dead letter topic is left without a
-- commit, but the loop goes on: where the next one of its partition is handled and its commit is
-- taken, the group resumes behind that one, and the first message is neither told to the hubs nor dead
-- lettered.
pub unacked_passed_over :
    {Raw : Type 0} (codec : Codec Raw) (c : Consumer) (t u : Turn Raw) (st : Inbox Raw) (p o o' : ℕ)
    (bad good : Raw) (m : Message)
    → IsWired c
    → t.done ≡ false
    → t.fetched ≡ message p o bad
    → update_of codec bad ≡ none
    → t.written ≡ false
    → u.done ≡ false
    → u.fetched ≡ message p o' good
    → update_of codec good ≡ some m
    → u.committed ≡ true
    → let st' = run codec c (t ∷ u ∷ []) st in
      (values st'.dead ≡ values st.dead)
      × (st'.fanout ≡ st.fanout ++ envelopes st.hub.instance_id (some m))
      × (resume_at p st'.commits ≡ some (o' + 1))
unacked_passed_over codec c t u st p o o' bad good m wired td tf tu tw ud uf uu uc =
    let (tells, letters, commits) = run-accounts codec c wired (t ∷ u ∷ []) st in
    let skipped : gather (buried codec) (t ∷ u ∷ []) ≡ [] = simp (td, tf, tu, tw, ud, uf, uu) in
    let one : gather (settled codec) (t ∷ u ∷ []) ≡ (p, o') ∷ [] =
      simp (td, tf, tu, tw, ud, uf, uu, uc) in
    let told_m : gather (told codec st.hub.instance_id) (t ∷ u ∷ [])
        ≡ envelopes st.hub.instance_id (some m) =
      simp (td, tf, tu, ud, uf, uu) in
    (
      rw (letters, skipped) (append-nil (values st.dead)),
      rw (tells, told_m) refl,
      rw (commits, one) (resume_at-append p o' st.commits),
    )
