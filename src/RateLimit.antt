-- ===== src/RateLimit.antt =====
-- internal/middleware/rate_limiter.go: the limits that are kept in Redis. A script runs as one step at
-- the time `now`, in seconds; a counter whose deadline has passed is gone.
pub mod Admission
pub mod Handlers
use ticket_master.Prelude.{
  ℕ, ◌+◌, ◌-◌, Bool, true, false, ◌&&◌, ◌||◌, Option, none, some, List, [], ◌∷◌, ◌==◌, ltb, leb,
  if◌then◌else◌, indicator,
}
use ticket_master.Zset.{Zset, zadd}

-- A counter under a key; a key that is not there counts 0.
pub record Counter : Type 0 where
  pub value : ℕ
  pub deadline : Option ℕ

abbrev pub no_counter : Counter
no_counter = record { value = 0; deadline = none }

abbrev pub is_past : ℕ → Option ℕ → Bool
is_past now none = false
is_past now (some d) = leb d now

-- The counter that a command finds.
abbrev pub live : ℕ → Counter → Counter
live now c = if is_past now c.deadline then no_counter else c

abbrev pub lacks_deadline : Option ℕ → Bool
lacks_deadline none = true
lacks_deadline (some d) = false

abbrev pub incr : Counter → Counter
incr c = record c { value = c.value + 1 }

abbrev pub decr : Counter → Counter
decr c = record c { value = c.value - 1 }

module _ (now ttl_seconds : ℕ) where
  abbrev pub expire : Counter → Counter
  expire c = record c { deadline = some (now + ttl_seconds) }

  abbrev pub start_window : Counter → Counter
  start_window c = if c.value == 1 || lacks_deadline c.deadline then expire c else c

  -- incrWithTTL
  abbrev pub incr_with_ttl : Counter → Counter
  incr_with_ttl c = start_window (incr (live now c))

  -- fixedWindowRateLimitScript
  unfoldable pub fixed_window : ℕ → Counter → Bool × Counter
  fixed_window max_requests c =
      let counted = incr_with_ttl c in
      if ltb max_requests counted.value then (false, expire counted) else (true, counted)

  abbrev pub admit_client : ℕ → Counter → Counter → Bool × (Counter × Counter)
  admit_client client_limit event client =
      if ltb client_limit client.value
      then (false, (expire (decr event), expire (decr client)))
      else (true, (event, client))

  -- eventAdmissionScript
  unfoldable pub event_admission : ℕ → ℕ → Counter → Counter → Bool × (Counter × Counter)
  event_admission event_limit client_limit event client =
      let event' = incr_with_ttl event in
      if ltb event_limit event'.value
      then (false, (expire (decr event'), client))
      else admit_client client_limit event' (incr_with_ttl client)

-- The counters of an event: its own, and one for each client.
pub record Counters : Type 0 where
  pub event : Counter
  pub client : ℕ → Counter

abbrev pub set_client : ℕ → Counter → (ℕ → Counter) → ℕ → Counter
set_client k c f j = if j == k then c else f j

abbrev pub recount : ℕ → Counters → Bool × (Counter × Counter) → Bool × Counters
recount client_id cs (allowed, (event, client)) =
    (allowed, record { event = event; client = set_client client_id client cs.client })

-- checkRedisEventAdmission, where Redis answers.
unfoldable pub check_redis_event_admission : ℕ → ℕ → ℕ → ℕ → ℕ → Counters → Bool × Counters
check_redis_event_admission now window max_event max_client client_id cs =
    if max_event == 0 || max_client == 0
    then (true, cs)
    else recount client_id cs
        (event_admission now window max_event max_client cs.event (cs.client client_id))

-- Requests for one event: how long after the one before, and whose.
unfoldable pub admissions : ℕ → ℕ → ℕ → ℕ → List (ℕ × ℕ) → Counters → List Bool
admissions window max_event max_client now [] cs = []
admissions window max_event max_client now ((gap, client_id) ∷ rs) cs =
    let (allowed, cs') =
      check_redis_event_admission (now + gap) window max_event max_client client_id cs in
    allowed ∷ admissions window max_event max_client (now + gap) rs cs'

-- ZCOUNT key min max
abbrev pub zcount : ℕ → ℕ → Zset → ℕ
zcount min max [] = 0
zcount min max ((m, s) ∷ z) = indicator (leb min s && leb s max) + zcount min max z

-- ZREMRANGEBYSCORE key 0 max
abbrev pub zremrangebyscore : ℕ → Zset → Zset
zremrangebyscore max [] = []
zremrangebyscore max ((m, s) ∷ z) =
    let rest = zremrangebyscore max z in if leb s max then rest else (m, s) ∷ rest

-- slidingWindowRateLimitScript
unfoldable pub sliding_window : ℕ → ℕ → ℕ → ℕ → Zset → Bool × Zset
sliding_window window_start now member max_requests z =
    let recent = zremrangebyscore window_start z in
    if leb max_requests (zcount window_start now recent)
    then (false, recent)
    else (true, zadd now member recent)
