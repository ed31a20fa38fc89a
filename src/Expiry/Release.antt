-- ===== src/Expiry/Release.antt =====
-- internal/queue/expiry_queue.go: PollDue, and internal/services/batch_release_worker.go: one round of
-- a worker, which releases what it claimed and acknowledges it. An id that is no uuid is not modelled,
-- since members are ids.
use ticket_master.Prelude.{
  ℕ, ◌+◌, ◌-◌, Option, none, some, List, [], ◌∷◌, ◌==◌, leb, ltb, if◌then◌else◌,
}
use ticket_master.Effects.{Effects}
use ticket_master.Zset.{zrem}
use ticket_master.Exec.{
  Exec, World, Fault, unacknowledged, Result, ok, err, driver, tick, pure, raise, handle, time_now,
  best_effort, ◌>>=◌,
}
use ticket_master.Service.{Service, unix, release_expired_booking_by_id}
use ticket_master.Expiry.{
  Queue, Claim, claim_expiry_script, expiry_poll_batch_size, expiry_claim_visibility_timeout,
}

abbrev pub queue_of : Effects → Queue
queue_of e = record { pending = e.pending; inflight = e.inflight }

abbrev pub with_queue : Queue → Effects → Effects
with_queue q e = record e { pending = q.pending; inflight = q.inflight }

abbrev pub script_answer : Option Fault → List ℕ × Queue → World → Result (List ℕ) × World
script_answer none (ids, q) w = (ok ids, record w { effects = with_queue q w.effects })
script_answer (some unacknowledged) (ids, q) w =
    (err driver, record w { effects = with_queue q w.effects })
script_answer (some f) (ids, q) w = (err driver, w)

-- claimExpiryScript.Run
unfoldable pub run_script : (Queue → List ℕ × Queue) → Exec (List ℕ)
run_script script env w = script_answer (env.fault w.calls) (script (queue_of w.effects)) (tick w)

abbrev pub claim_at : ℕ → ℕ → ℕ → ℕ → Claim
claim_at now limit index count = record {
  now = unix now;
  stale_before = unix (now - expiry_claim_visibility_timeout);
  claim_until = unix (now + expiry_claim_visibility_timeout);
  limit = if limit == 0 then expiry_poll_batch_size else limit;
  partition_index = index;
  partition_count = count;
}

module _ (spell : ℕ → List ℕ) where
  unfoldable pub poll_due : ℕ → ℕ → ℕ → ℕ → Exec (List ℕ)
  poll_due now limit index count =
      if count == 0
      then raise driver
      else if leb count index
      then raise driver
      else run_script (claim_expiry_script spell (claim_at now limit index count))

  module _ (s : Service) where
    -- What an id that was claimed comes to: released, then removed from the queue.
    unfoldable pub release_claimed : List ℕ → Exec (Unit {0})
    release_claimed [] = pure tt
    release_claimed (id ∷ ids) =
        handle (release_expired_booking_by_id s id)
          (λ _.
            best_effort
              λ e. record e { pending = zrem id e.pending; inflight = zrem id e.inflight })
          (λ _. pure tt)
        >>= λ _. release_claimed ids

    unfoldable pub process_due : ℕ → ℕ → Exec (Unit {0})
    process_due index count = do
      now ← time_now
      handle (poll_due now expiry_poll_batch_size index count) release_claimed (λ _. pure tt)

-- A setting of the configuration, an int that may be negative.
pub data Setting : Type 0 where
  natural negative : ℕ → Setting

pub record ExpiryReleasePartitionPlan : Type 0 where
  pub concurrency : ℕ
  pub count : ℕ
  pub offset : ℕ

abbrev pub positive_or : ℕ → Setting → ℕ
positive_or default (natural n) = if n == 0 then default else n
positive_or default (negative n) = default

unfoldable pub plan_at : ℕ → ℕ → Setting → Option ExpiryReleasePartitionPlan
plan_at concurrency count (negative n) = none
plan_at concurrency count (natural offset) =
    if ltb count (offset + concurrency)
    then none
    else some (record { concurrency = concurrency; count = count; offset = offset })

-- The configured concurrency, partition count and partition offset.
unfoldable pub expiry_release_partition_plan :
    Setting → Setting → Setting → Option ExpiryReleasePartitionPlan
expiry_release_partition_plan concurrency count offset =
    let workers = positive_or 4 concurrency in plan_at workers (positive_or workers count) offset
