-- ===== src/Expiry/Members.antt =====
-- Which members the sets of the queue have, as `zadd` and `zrem` change them.
use ticket_master.Prelude.{
  ℕ, ◌≡◌, refl, Bool, true, false, ◌||◌, ◌&&◌, not, List, [], ◌∷◌, ◌==◌, arith,
}
use ticket_master.Zset.{Zset, zadd, zrem, insert}
use ticket_master.Expiry.{Queue, Claim, requeue, claim_one}

-- The member is in the set.
abbrev pub is_member : ℕ → Zset → Bool
is_member m [] = false
is_member m ((k, s) ∷ z) = k == m || is_member m z

pub is_member-zrem : (m k : ℕ) (z : Zset) → is_member m (zrem k z) ≡ not (k == m) && is_member m z
unfolding zrem
is_member-zrem m k [] = ground arith
is_member-zrem m k ((j, s) ∷ z) = ground (arith, is_member-zrem m k z)

is_member-insert : (m k s : ℕ) (z : Zset) → is_member m (insert (k, s) z) ≡ k == m || is_member m z
unfolding insert
is_member-insert m k s [] = refl
is_member-insert m k s ((j, t) ∷ z) = ground (arith, is_member-insert m k s z)

pub is_member-zadd : (m s k : ℕ) (z : Zset) → is_member m (zadd s k z) ≡ k == m || is_member m z
unfolding zadd
is_member-zadd m s k z = ground (arith, is_member-insert m k s (zrem k z), is_member-zrem m k z)

-- The queue still knows of the booking.
abbrev pub tracks : ℕ → Queue → Bool
tracks m q = is_member m q.pending || is_member m q.inflight

module _ (spell : ℕ → List ℕ) (c : Claim) (m id : ℕ) (q : Queue) where
  pub tracks-requeue : tracks m q ≡ true → tracks m (requeue spell c id q) ≡ true
  tracks-requeue h =
      ground (arith, is_member-zadd m c.now id q.pending, is_member-zrem m id q.inflight)

  pub tracks-claim_one : tracks m q ≡ true → tracks m (claim_one spell c id q) ≡ true
  tracks-claim_one h =
      ground (arith, is_member-zadd m c.claim_until id q.inflight, is_member-zrem m id q.pending)
