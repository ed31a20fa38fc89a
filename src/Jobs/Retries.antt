-- ===== src/Jobs/Retries.antt =====
-- What becomes of a job that fails.
use ticket_master.Prelude.{ℕ, ◌+◌}
use ticket_master.Jobs.{BookingJob, Jobs}

-- The job after so many more attempts.
abbrev pub after_attempts : ℕ → BookingJob → BookingJob
after_attempts n job = record job { attempt = job.attempt + n }
