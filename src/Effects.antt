-- ===== src/Effects.antt =====
-- What the services change besides the tables: the sorted sets of the expiry queue in Redis, the
-- cached events, the read-your-writes marks and the published booking events. An entry of Redis whose
-- time to live is over is a fault of the call that reads it.
use ticket_master.Prelude.{ℕ, String, List, [], ◌∷◌, ◌==◌, if◌then◌else◌}
use ticket_master.Model.{Booking, Event}

pub record Effects : Type 0 where
  pub pending : List (ℕ × ℕ)  -- reservation:expiry, a member with its score
  pub inflight : List (ℕ × ℕ)  -- reservation:expiry:inflight
  pub event_cache : List Event  -- event:<id>
  pub read_marks : List (ℕ × ℕ)
  pub published : List (String × Booking)

abbrev pub no_effects : Effects
no_effects = record {
  pending = [];
  inflight = [];
  event_cache = [];
  read_marks = [];
  published = [];
}

-- DEL event:<id>
abbrev pub forget_event : ℕ → List Event → List Event
forget_event k [] = []
forget_event k (e ∷ es) = let rest = forget_event k es in if e.id == k then rest else e ∷ rest
