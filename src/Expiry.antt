-- ===== src/Expiry.antt =====
-- internal/queue/expiry_queue.go and expiry_partition.go: the queue of reservations that may expire,
-- two sorted sets in Redis. Members are booking ids; `spell` gives the bytes of an id's text. A Lua
-- script runs as one step.
pub mod Members
pub mod Claims
pub mod Release
pub mod Reaches
use ticket_master.Prelude.{
  ℕ, ◌+◌, ◌-◌, ◌*◌, ◌%◌, Bool, true, false, List, [], ◌∷◌, ◌++◌, ◌==◌, ltb, leb, length, take,
  if◌then◌else◌,
}
use ticket_master.Zset.{Zset, zadd, zrem}

abbrev pub expiry_poll_batch_size : ℕ
expiry_poll_batch_size = 100

-- 2 * time.Minute
abbrev pub expiry_claim_visibility_timeout : ℕ
expiry_claim_visibility_timeout = 120_000_000_000

abbrev pub expiry_claim_scan_multiplier : ℕ
expiry_claim_scan_multiplier = 10

abbrev pub expiry_claim_scan_max : ℕ
expiry_claim_scan_max = 1000

abbrev pub modulus : ℕ
modulus = 2_147_483_647

-- for i := 0; i < len(member); i++ { h = (h*31 + int64(member[i])) % modulus }
unfoldable pub hash_from : ℕ → List ℕ → ℕ
hash_from h [] = h
hash_from h (c ∷ cs) = hash_from ((h * 31 + c) % modulus) cs

-- ExpiryPartitionIndex
unfoldable pub expiry_partition_index : List ℕ → ℕ → ℕ
expiry_partition_index member partition_count =
    if leb partition_count 1 then 0 else hash_from 0 member % partition_count

-- expiry_partition_index of the script
unfoldable pub script_partition_index : List ℕ → ℕ → ℕ
script_partition_index id partition_count = hash_from 0 id % partition_count

-- The two sorted sets.
pub record Queue : Type 0 where
  pub pending : Zset
  pub inflight : Zset

-- What the script is given.
pub record Claim : Type 0 where
  pub now : ℕ
  pub stale_before : ℕ
  pub claim_until : ℕ
  pub limit : ℕ
  pub partition_index : ℕ
  pub partition_count : ℕ

abbrev pub due : ℕ → Zset → List ℕ
due max [] = []
due max ((m, s) ∷ z) = let rest = due max z in if leb s max then m ∷ rest else rest

-- ZRANGEBYSCORE key -inf max LIMIT 0 n
unfoldable pub zrangebyscore : Zset → ℕ → ℕ → List ℕ
zrangebyscore z max n = take n (due max z)

abbrev pub scan_limit : ℕ → ℕ
scan_limit limit =
    let scan = limit * expiry_claim_scan_multiplier in
    let capped = if ltb expiry_claim_scan_max scan then expiry_claim_scan_max else scan in
    if ltb capped limit then limit else capped

module _ (spell : ℕ → List ℕ) (c : Claim) where
  unfoldable pub belongs_to_partition : ℕ → Bool
  belongs_to_partition id = script_partition_index (spell id) c.partition_count == c.partition_index

  abbrev pub requeue : ℕ → Queue → Queue
  requeue id q = record { pending = zadd c.now id q.pending; inflight = zrem id q.inflight }

  -- for _, id in ipairs(stale)
  unfoldable pub requeue_stale : List ℕ → Queue → Queue
  requeue_stale [] q = q
  requeue_stale (id ∷ ids) q =
      requeue_stale ids (if belongs_to_partition id then requeue id q else q)

  abbrev pub claim_one : ℕ → Queue → Queue
  claim_one id q = record {
    pending = zrem id q.pending;
    inflight = zadd c.claim_until id q.inflight;
  }

  -- for _, id in ipairs(candidates)
  unfoldable pub claim_each : List ℕ → List ℕ → Queue → List ℕ × Queue
  claim_each [] claimed q = (claimed, q)
  claim_each (id ∷ ids) claimed q =
      let skipped = claim_each ids claimed q in
      let claimed' = claimed ++ id ∷ [] in
      let rest = claim_each ids claimed' (claim_one id q) in
      if belongs_to_partition id
      then if leb c.limit (length claimed') then (claimed', claim_one id q) else rest
      else skipped

  -- claimExpiryScript
  unfoldable pub claim_expiry_script : Queue → List ℕ × Queue
  claim_expiry_script q =
      let stale = zrangebyscore q.inflight c.stale_before (scan_limit c.limit) in
      let q' = requeue_stale stale q in
      claim_each (zrangebyscore q'.pending c.now (scan_limit c.limit)) [] q'
