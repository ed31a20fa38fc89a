-- ===== src/Expiry/Claims.antt =====
-- What a claim gives: at most as many bookings as asked for, of the poller's own partition, and no
-- booking is lost from the queue.
use ticket_master.Prelude.{
  ℕ, ◌%◌, sym, ◌≤◌, ◌<◌, ◌+◌, ◌≡◌, refl, Bool, true, ◌&&◌, List, [], ◌∷◌, ◌++◌, leb, length,
  length-append, arith, inl, inr, Bool-cases, some,
}
use ticket_master.Expiry.{
  Queue, Claim, hash_from, expiry_partition_index, script_partition_index, requeue_stale, claim_one,
  claim_each, claim_expiry_script, belongs_to_partition,
}
use ticket_master.Expiry.Members.{tracks, tracks-requeue, tracks-claim_one}
use ticket_master.Expiry.Release.{
  Setting, natural, negative, plan_at, ExpiryReleasePartitionPlan, expiry_release_partition_plan,
}

mod_one : (n : ℕ) → n % 1 ≡ 0
mod_one n = omega arith

-- The hash of the Go code and the hash of the script put a booking into the same partition,
-- whatever the positive number of partitions.
pub partition_index_agrees :
    (id : List ℕ) (count : ℕ)
    → 1 ≤ count
    → expiry_partition_index id count ≡ script_partition_index id count
unfolding expiry_partition_index script_partition_index
partition_index_agrees id count h = elim (Bool-cases (leb count 1)) [
  | inl one ↦
      let at_one : count ≡ 1 = ground arith in rw (one, at_one) (sym (mod_one (hash_from 0 id)))
  | inr many ↦ rw many refl
]

module _ (spell : ℕ → List ℕ) (c : Claim) where
  -- Every id of the list is of the claim's partition.
  abbrev pub all_belong : List ℕ → Bool
  all_belong [] = true
  all_belong (id ∷ ids) = belongs_to_partition spell c id && all_belong ids

  all_belong_snoc :
      (ids : List ℕ) (id : ℕ)
      → all_belong ids ≡ true
      → belongs_to_partition spell c id ≡ true
      → all_belong (ids ++ id ∷ []) ≡ true
  all_belong_snoc [] id h b = ground arith
  all_belong_snoc (x ∷ ids) id h b = ground (arith, all_belong_snoc ids id)

  length_snoc : (ids : List ℕ) (id : ℕ) → length (ids ++ id ∷ []) ≡ length ids + 1
  length_snoc ids id = length-append ids (id ∷ [])

  requeue_stale-tracks :
      (m : ℕ) (ids : List ℕ) (q : Queue)
      → tracks m q ≡ true
      → tracks m (requeue_stale spell c ids q) ≡ true
  unfolding requeue_stale
  requeue_stale-tracks m [] q h = h
  requeue_stale-tracks m (id ∷ ids) q h =
      requeue_stale-tracks m ids _ (ground (arith, tracks-requeue spell c m id q))

  claim_each-tracks :
      (m : ℕ) (ids claimed : List ℕ) (q : Queue)
      → tracks m q ≡ true
      → tracks m (claim_each spell c ids claimed q).1 ≡ true
  unfolding claim_each
  claim_each-tracks m [] claimed q h = h
  claim_each-tracks m (id ∷ ids) claimed q h = ground (
    arith,
    tracks-claim_one spell c m id q,
    claim_each-tracks m ids claimed q h,
    claim_each-tracks m ids (claimed ++ id ∷ []) (claim_one spell c id q)
        (tracks-claim_one spell c m id q h),
  )

  claim_each-belong :
      (ids claimed : List ℕ) (q : Queue)
      → all_belong claimed ≡ true
      → all_belong (claim_each spell c ids claimed q).0 ≡ true
  unfolding claim_each
  claim_each-belong [] claimed q h = h
  claim_each-belong (id ∷ ids) claimed q h = ground (
    arith,
    claim_each-belong ids claimed q h,
    all_belong_snoc claimed id h,
    claim_each-belong ids (claimed ++ id ∷ []) (claim_one spell c id q),
  )

  claim_each-length :
      (ids claimed : List ℕ) (q : Queue)
      → length claimed < c.limit
      → length (claim_each spell c ids claimed q).0 ≤ c.limit
  unfolding claim_each
  claim_each-length [] claimed q h = omega arith
  claim_each-length (id ∷ ids) claimed q h = ground (
    arith,
    claim_each-length ids claimed q h,
    length_snoc claimed id,
    claim_each-length ids (claimed ++ id ∷ []) (claim_one spell c id q),
  )

  -- A claim loses no booking: what was pending or in flight is so afterwards.
  pub claim_expiry_script-tracks :
      (m : ℕ) (q : Queue) → tracks m q ≡ true → tracks m (claim_expiry_script spell c q).1 ≡ true
  unfolding claim_expiry_script
  claim_expiry_script-tracks m q h = claim_each-tracks m _ [] _ (requeue_stale-tracks m _ q h)

  -- A claim gives bookings of the poller's own partition only, and at most as many as asked for.
  pub claim_expiry_script_lem :
      (q : Queue)
      → 1 ≤ c.limit
      → (all_belong (claim_expiry_script spell c q).0 ≡ true)
        × (length (claim_expiry_script spell c q).0 ≤ c.limit)
  unfolding claim_expiry_script
  claim_expiry_script_lem q h =
      (claim_each-belong _ [] _ refl, claim_each-length _ [] _ (omega arith))

-- Where the configuration gives a plan, there is a worker, and each worker's partition is one that
-- PollDue accepts.
pub expiry_release_partition_plan_lem :
    (concurrency count offset : Setting) (plan : ExpiryReleasePartitionPlan) (i : ℕ)
    → expiry_release_partition_plan concurrency count offset ≡ some plan
    → i < plan.concurrency
    → (1 ≤ plan.concurrency) × (plan.offset + i < plan.count)
unfolding expiry_release_partition_plan plan_at
expiry_release_partition_plan_lem concurrency count (negative n) plan i e h = ground arith
expiry_release_partition_plan_lem concurrency count (natural n) plan i e h =
    (ground arith, ground arith)
