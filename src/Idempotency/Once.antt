-- ===== src/Idempotency/Once.antt =====
-- When a second request of a key is kept from running: while the lock of the first stands, and once
-- its response is cached.
use ticket_master.Prelude.{
  ℕ, ◌+◌, ◌<◌, ◌≡◌, Bool, true, false, not, ◌&&◌, some, List, [], ◌∷◌, ◌==◌, leb, ltb, arith,
}
use ticket_master.Idempotency.{
  Store, Access, looks, locks, leaves, runs, conflict, lock_entry, leave, access, access_all,
  idempotency_lock_ttl, is_success,
}

-- When a SETNX is made.
abbrev pub is_within : ℕ → Access → Bool
is_within t (locks answers now key) = leb t now && ltb now (t + idempotency_lock_ttl)
is_within t _ = true

-- A request of the key that held the lock succeeds, and Redis takes its response.
abbrev pub caches : ℕ → Access → Bool
caches key (leaves true true deleted now k r) = k == key && is_success r.status_code
caches key _ = false

-- The same, and Redis deletes the lock.
abbrev pub frees : ℕ → Access → Bool
frees key (leaves true true true now k r) = k == key && is_success r.status_code
frees key _ = false

-- Every SETNX comes from `t` on, within thirty seconds, and no request of the key frees the lock.
abbrev pub all_locked : ℕ → ℕ → List Access → Bool
all_locked t key [] = true
all_locked t key (a ∷ rest) = is_within t a && not (frees key a) && all_locked t key rest

abbrev pub none_caches : ℕ → List Access → Bool
none_caches key [] = true
none_caches key (a ∷ rest) = not (caches key a) && none_caches key rest

module _ (t key : ℕ) where
  taken :
      (st : Store)
      → (lock_entry true t key st).0 ≡ runs true
      → (lock_entry true t key st).1.locks key ≡ some (t + idempotency_lock_ttl)
  unfolding lock_entry
  taken st h = ground arith

  access-locks :
      (a : Access) (st : Store)
      → st.locks key ≡ some (t + idempotency_lock_ttl)
      → is_within t a ≡ true
      → frees key a ≡ false
      → (access a st).locks key ≡ some (t + idempotency_lock_ttl)
  unfolding access leave lock_entry
  access-locks (looks now k) st h w f = h
  access-locks (locks true now k) st h w f = ground arith
  access-locks (locks false now k) st h w f = h
  access-locks (leaves false written deleted now k r) st h w f = h
  access-locks (leaves true false deleted now k r) st h w f = ground arith
  access-locks (leaves true true true now k r) st h w f = ground arith
  access-locks (leaves true true false now k r) st h w f = ground arith

  access_all-locks :
      (rest : List Access) (st : Store)
      → st.locks key ≡ some (t + idempotency_lock_ttl)
      → all_locked t key rest ≡ true
      → (access_all rest st).locks key ≡ some (t + idempotency_lock_ttl)
  unfolding access_all
  access_all-locks [] st h k = h
  access_all-locks (a ∷ rest) st h k =
      access_all-locks rest _ (access-locks a st h (ground arith) (ground arith)) (ground arith)

  refused :
      (st : Store) (now : ℕ)
      → st.locks key ≡ some (t + idempotency_lock_ttl)
      → now < t + idempotency_lock_ttl
      → (lock_entry true now key st).0 ≡ conflict
  unfolding lock_entry
  refused st now h l = ground arith

-- For thirty seconds after a request took the lock of its key, whatever requests of any key look into
-- the cache, ask for locks, whether Redis answers or not, and leave: a SETNX of the key that Redis
-- answers is refused, unless a request of the key that held the lock succeeded before, and Redis
-- took its response and deleted the lock.
pub lock_entry-excludes :
    (t key now : ℕ) (rest : List Access) (st : Store)
    → (lock_entry true t key st).0 ≡ runs true
    → all_locked t key rest ≡ true
    → now < t + idempotency_lock_ttl
    → (lock_entry true now key (access_all rest (lock_entry true t key st).1)).0 ≡ conflict
lock_entry-excludes t key now rest st h k l =
    refused t key _ now
      (access_all-locks t key rest (lock_entry true t key st).1 (taken t key st h) k) l
