-- ===== src/RateLimit/Handlers.antt =====
-- internal/middleware/rate_limiter.go: the handlers that admit or reject a request, and the limit that
-- each process keeps where Redis does not answer. golang.org/x/time/rate is a parameter: `allow`
-- takes from a limiter, `new_limiter` makes one for a number of requests in a window.
use ticket_master.Prelude.{ℕ, ◌-◌, ◌/◌, Bool, true, false, Option, none, some, ◌==◌, if◌then◌else◌}
use ticket_master.Zset.{Zset}
use ticket_master.RateLimit.{
  Counter, Counters, fixed_window, check_redis_event_admission, sliding_window,
}

pub data Verdict : Type 0 where
  proceeds bad_request too_many_requests : Verdict

abbrev second : ℕ
second = 1_000_000_000

-- What the limiter keeps: in Redis for each event and each client, and in the process.
pub record Limits (L : Type 0) : Type 0 where
  pub events : ℕ → Counters
  pub waiting : ℕ → Zset
  pub simple : ℕ → Counter
  pub limiter : L
  pub event_limiters : ℕ → Option L

abbrev pub put {ℓ} : {A : Type ℓ} → ℕ → A → (ℕ → A) → ℕ → A
put k a f j = if j == k then a else f j

abbrev pub verdict : Bool → Verdict
verdict true = proceeds
verdict false = too_many_requests

abbrev pub or_new : {L : Type 0} → Option L → L → L
or_new none l = l
or_new (some found) l = found

module _ {L : Type 0} (allow : ℕ → L → Bool × L) (new_limiter : ℕ → ℕ → L) where
  abbrev pub keep_local : ℕ → Limits L → Bool × L → Bool × Limits L
  keep_local event_id ls (allowed, l) =
      (allowed, record ls { event_limiters = put event_id (some l) ls.event_limiters })

  unfoldable pub allow_local_event : ℕ → ℕ → ℕ → ℕ → Limits L → Bool × Limits L
  allow_local_event now event_id max_event window ls =
      if max_event == 0
      then (true, ls)
      else keep_local event_id ls (
          allow now
            (or_new (ls.event_limiters event_id) (new_limiter (window / max_event) max_event)))

  -- Where Redis does not answer, the limiter of the process decides.
  unfoldable pub allow_local : ℕ → Limits L → Bool × Limits L
  allow_local now ls =
      let (allowed, l) = allow now ls.limiter in (allowed, record ls { limiter = l })

  abbrev pub keep_event : ℕ → Limits L → Bool × Counters → Bool × Limits L
  keep_event event_id ls (allowed, cs) = (allowed, record ls { events = put event_id cs ls.events })

  abbrev pub answer_with : Bool × Limits L → Verdict × Limits L
  answer_with (allowed, ls) = (verdict allowed, ls)

  -- `redis` is whether Redis is there and answers; `none` is a body without an event.
  unfoldable pub event_admission_control :
      Bool → ℕ → ℕ → ℕ → ℕ → Option ℕ → ℕ → Limits L → Verdict × Limits L
  event_admission_control redis now max_event max_client window none client_id ls =
      (bad_request, ls)
  event_admission_control redis now max_event max_client window (some event_id) client_id ls =
      answer_with (
        if redis
        then keep_event event_id ls (
            check_redis_event_admission (now / second) (window / second) max_event max_client
              client_id (ls.events event_id))
        else allow_local_event now event_id max_event window ls)

  abbrev pub keep_waiting : ℕ → Limits L → Bool × Zset → Bool × Limits L
  keep_waiting client_ip ls (allowed, z) =
      (allowed, record ls { waiting = put client_ip z ls.waiting })

  -- The member under which a request is counted is its time.
  unfoldable pub virtual_waiting_room : Bool → ℕ → ℕ → ℕ → ℕ → Limits L → Verdict × Limits L
  virtual_waiting_room redis now max_requests window client_ip ls = answer_with (
      if redis
      then keep_waiting client_ip ls (
          sliding_window ((now - window) / second) (now / second) now max_requests
            (ls.waiting client_ip))
      else allow_local now ls)

  abbrev pub keep_simple : ℕ → Limits L → Bool × Counter → Bool × Limits L
  keep_simple client_ip ls (allowed, c) =
      (allowed, record ls { simple = put client_ip c ls.simple })

  -- 1000 requests in a minute
  unfoldable pub simple_rate_limit : Bool → ℕ → ℕ → Limits L → Verdict × Limits L
  simple_rate_limit redis now client_ip ls = answer_with (
      if redis
      then keep_simple client_ip ls (fixed_window (now / second) 60 1000 (ls.simple client_ip))
      else allow_local now ls)
