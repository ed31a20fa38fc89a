-- ===== src/Jobs/Consumer.antt =====
-- Which offset the consumer commits.
use ticket_master.Prelude.{ℕ, suc, ◌+◌, ◌≤◌, ◌<◌, ◌≡◌, true, false, some, List, [], ◌∷◌, arith}
use ticket_master.Config.Text.{pos}
use ticket_master.Jobs.{Read, message, generation_ended, cancelled, read_failed, consume}

-- The messages come one after the other from offset `next` on; how many there are.
abbrev pub Consecutive : ℕ → List Read → Type 0
Consecutive next [] = Unit {0}
Consecutive next (message offset parses handled ∷ rs) = (offset ≡ next) × Consecutive (suc next) rs
Consecutive next (_ ∷ rs) = Consecutive next rs

abbrev pub messages : List Read → ℕ
messages [] = 0
messages (message offset parses handled ∷ rs) = suc (messages rs)
messages (generation_ended ∷ rs) = messages rs
messages (cancelled ∷ rs) = messages rs
messages (read_failed ∷ rs) = messages rs

-- Once a message was read, the consumer commits no offset beyond the messages that it has read: where
-- the next message is at `next` and the current offset is below, what it commits is at most `next`
-- and the number of the messages that are still read.
pub consume_bound :
    (current next committed : ℕ) (rs : List Read)
    → current < next
    → Consecutive next rs
    → consume (pos current) rs ≡ some (pos committed)
    → committed ≤ next + messages rs
unfolding consume
consume_bound current next committed [] h c e = ground arith
consume_bound current next committed (message offset false handled ∷ rs) h c e =
    omega (arith, c.0, consume_bound offset (suc next) committed rs (omega (arith, c.0)) c.1 e)
consume_bound current next committed (message offset true false ∷ rs) h c e =
    omega (arith, consume_bound current (suc next) committed rs (omega arith) c.1 e)
consume_bound current next committed (message offset true true ∷ rs) h c e =
    omega (arith, c.0, consume_bound offset (suc next) committed rs (omega (arith, c.0)) c.1 e)
consume_bound current next committed (generation_ended ∷ rs) h c e = ground arith
consume_bound current next committed (cancelled ∷ rs) h c e = ground arith
consume_bound current next committed (read_failed ∷ rs) h c e =
    consume_bound current next committed rs h c e
