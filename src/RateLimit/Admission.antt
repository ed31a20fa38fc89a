-- ===== src/RateLimit/Admission.antt =====
-- What the limits of the event admission and of the waiting room guarantee, and what they do to a
-- demand that does not pause.
use ticket_master.Prelude.{
  ℕ, ◌+◌, ◌≤◌, ◌≡◌, refl, Bool, true, false, ◌&&◌, ◌||◌, some, List, [], ◌∷◌, ◌==◌, ltb, leb, arith,
  indicator,
}
use ticket_master.Zset.{Zset, zadd, zrem, insert}
use ticket_master.RateLimit.{
  Counter, Counters, recount, event_admission, check_redis_event_admission, admissions, zcount,
  zremrangebyscore, sliding_window,
}

module _ (window max_event max_client : ℕ) where
  -- The counters stay within their limits.
  pub event_admission_bounds :
      (now : ℕ) (event client : Counter)
      → event.value ≤ max_event
      → client.value ≤ max_client
      → let (_, (event', client')) = event_admission now window max_event max_client event client in
        (event'.value ≤ max_event) × (client'.value ≤ max_client)
  unfolding event_admission
  event_admission_bounds now event client h k = (ground arith, ground arith)

  -- Every request comes less than a window after the one before.
  abbrev pub all_prompt : List (ℕ × ℕ) → Bool
  all_prompt [] = true
  all_prompt ((gap, client_id) ∷ rs) = ltb gap window && all_prompt rs

  refused_again :
      (now : ℕ) (event client : Counter)
      → event.value ≡ max_event
      → event.deadline ≡ some (now + window)
      → (gap : ℕ) → ltb gap window ≡ true
      → event_admission (now + gap) window max_event max_client event client
        ≡ (false, (record { value = max_event; deadline = some (now + gap + window) }, client))
  unfolding event_admission
  refused_again now event client v d gap g = ground arith

abbrev pub any : List Bool → Bool
any [] = false
any (b ∷ bs) = b || any bs

module _ (window max_event max_client : ℕ) where
  refused_check :
      (now client_id : ℕ) (cs : Counters)
      → 1 ≤ max_event
      → 1 ≤ max_client
      → cs.event.value ≡ max_event
      → cs.event.deadline ≡ some (now + window)
      → (gap : ℕ) → ltb gap window ≡ true
      → check_redis_event_admission (now + gap) window max_event max_client client_id cs
        ≡ recount client_id cs (
          false,
          (record { value = max_event; deadline = some (now + gap + window) }, cs.client client_id),
        )
  unfolding check_redis_event_admission
  refused_check now client_id cs p q v d gap g =
      let on : max_event == 0 || max_client == 0 ≡ false = ground arith in
      rw
        (on, refused_again window max_event max_client now cs.event (cs.client client_id) v d gap g)
        refl

  -- Once an event's counter has reached its limit with its deadline a full window away, and as long as
  -- every request comes less than a window after the one before, the first one within a window from
  -- now, no request is admitted, however many windows pass.
  pub admissions_starve :
      (now : ℕ) (rs : List (ℕ × ℕ)) (cs : Counters)
      → 1 ≤ max_event
      → 1 ≤ max_client
      → cs.event.value ≡ max_event
      → cs.event.deadline ≡ some (now + window)
      → all_prompt window max_event max_client rs ≡ true
      → any (admissions window max_event max_client now rs cs) ≡ false
  unfolding admissions
  admissions_starve now [] cs p q v d h = refl
  admissions_starve now ((gap, client_id) ∷ rs) cs p q v d h =
      rw (refused_check now client_id cs p q v d gap (ground arith))
        (admissions_starve (now + gap) rs _ p q refl refl (ground arith))

zcount-insert :
    (lo hi m s : ℕ) (z : Zset)
    → zcount lo hi (insert (m, s) z) ≡ indicator (leb lo s && leb s hi) + zcount lo hi z
unfolding insert
zcount-insert lo hi m s [] = refl
zcount-insert lo hi m s ((j, t) ∷ z) = ground (arith, zcount-insert lo hi m s z)

zcount-zrem : (lo hi m : ℕ) (z : Zset) → zcount lo hi (zrem m z) ≤ zcount lo hi z
unfolding zrem
zcount-zrem lo hi m [] = omega arith
zcount-zrem lo hi m ((j, t) ∷ z) = ground (arith, zcount-zrem lo hi m z)

-- The sliding window never counts more requests than its limit after it admitted one.
pub sliding_window_bound :
    (window_start now member max_requests : ℕ) (z : Zset)
    → (sliding_window window_start now member max_requests z).0 ≡ true
    → zcount window_start now (sliding_window window_start now member max_requests z).1
      ≤ max_requests
unfolding sliding_window zadd
sliding_window_bound start now member max z h = ground (
  arith,
  zcount-insert start now member now (zrem member (zremrangebyscore start z)),
  zcount-zrem start now member (zremrangebyscore start z),
)
