-- ===== src/Tests/Jobs.antt =====
-- A job that always fails, and a consumer whose generation ends.
use ticket_master.Prelude.{◌≡◌, refl, true, false, some, [], ◌∷◌}
use ticket_master.Config.Text.{pos, negsuc}
use ticket_master.Jobs.{BookingJob, Jobs, message, generation_ended, consume}

abbrev job : BookingJob
job = record { id = 0; user_id = 7; event_id = 1; seat_number = "A1"; attempt = 0; created_at = 0 }

abbrev no_jobs : Jobs
no_jobs = record { queued = []; dead = []; statuses = []; depth = 0; dead_depth = 0 }

three_read :
    consume (pos 4) (message 5 true true ∷ message 6 true false ∷ generation_ended ∷ [])
    ≡ some (pos 6)
unfolding consume
three_read = refl

-- The generation ends before a message was read, and the one at the assigned offset is passed over.
none_read : consume (pos 5) (generation_ended ∷ []) ≡ some (pos 6)
unfolding consume
none_read = refl

-- kafkago.FirstOffset, of a group without a committed offset.
first_read : consume (negsuc 1) (generation_ended ∷ []) ≡ some (negsuc 0)
unfolding consume
first_read = refl
