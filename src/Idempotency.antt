-- ===== src/Idempotency.antt =====
-- internal/middleware/idempotency.go: what happens to a request before its handler runs, and after.
-- Keys are numbers that are only compared; `none` is an empty header. A time counts nanoseconds. The
-- Booleans say whether a call of Redis succeeds; a cached response is read back as it was written.
pub mod Once
use ticket_master.Prelude.{
  ℕ, ◌+◌, String, Bool, true, false, ◌&&◌, Option, none, some, List, [], ◌∷◌, ◌==◌, ltb, leb,
  if◌then◌else◌,
}

pub record Response : Type 0 where
  pub status_code : ℕ
  pub headers : List (String × String)
  pub body : String

-- 24 * time.Hour
abbrev pub idempotency_ttl : ℕ
idempotency_ttl = 86_400_000_000_000

-- 30 * time.Second
abbrev pub idempotency_lock_ttl : ℕ
idempotency_lock_ttl = 30_000_000_000

-- The cached responses and the locks, each with its deadline.
pub record Store : Type 0 where
  pub cached : ℕ → Option (Response × ℕ)
  pub locks : ℕ → Option ℕ

-- What a request comes to: it passes without a key, gets the cached response, is refused, or runs,
-- with the lock or without.
pub data Entry : Type 0 where
  passes conflict : Entry
  replays : Response → Entry
  runs : Bool → Entry

abbrev pub put {ℓ} : {A : Type ℓ} → ℕ → A → (ℕ → A) → ℕ → A
put k a f j = if j == k then a else f j

-- SETNX with a deadline
abbrev pub try_lock : ℕ → ℕ → Option ℕ → Store → Entry × Store
try_lock now key none st =
    (runs true, record st { locks = put key (some (now + idempotency_lock_ttl)) st.locks })
try_lock now key (some d) st =
    if leb d now
    then (runs true, record st { locks = put key (some (now + idempotency_lock_ttl)) st.locks })
    else (conflict, st)

-- The call of SETNX, and what the request comes to.
unfoldable pub lock_entry : Bool → ℕ → ℕ → Store → Entry × Store
lock_entry true now key st = try_lock now key (st.locks key) st
lock_entry false now key st = (runs false, st)

-- How far a request comes with the call of GET: it is settled, or asks for the lock of its key next.
-- Other requests may come between the two calls.
pub data Stage : Type 0 where
  settled : Entry → Stage
  asks_lock : ℕ → Stage

abbrev pub answer_entry : ℕ → ℕ → Option (Response × ℕ) → Stage
answer_entry now key none = asks_lock key
answer_entry now key (some (r, d)) = if leb d now then asks_lock key else settled (replays r)

abbrev pub cached_entry : Bool → ℕ → ℕ → Store → Stage
cached_entry true now key st = answer_entry now key (st.cached key)
cached_entry false now key st = asks_lock key

abbrev pub entry_with : Bool → Bool → ℕ → ℕ → Store → Stage
entry_with true reads_answer now key st = cached_entry reads_answer now key st
entry_with false reads_answer now key st = settled (runs false)

-- Up to the call of GET. The first test is whether the method is POST, PUT or PATCH, the second
-- whether Redis is configured.
unfoldable pub enter : Bool → Bool → Bool → ℕ → Option ℕ → Store → Stage
enter false configured reads_answer now key st = settled passes
enter true configured reads_answer now none st = settled passes
enter true configured reads_answer now (some key) st = entry_with configured reads_answer now key st

abbrev pub is_success : ℕ → Bool
is_success code = leb 200 code && ltb code 300

abbrev pub unlock : Bool → ℕ → Store → Store
unlock true key st = record st { locks = put key none st.locks }
unlock false key st = st

abbrev pub keep_response : Bool → Bool → ℕ → ℕ → Response → Store → Store
keep_response false deleted now key r st = st
keep_response true deleted now key r st =
    unlock deleted key (record st { cached = put key (some (r, now + idempotency_ttl)) st.cached })

-- After the handler of a request that ran, with the lock or without.
unfoldable pub leave : Bool → Bool → Bool → ℕ → ℕ → Response → Store → Store
leave false written deleted now key r st = st
leave true written deleted now key r st =
    if is_success r.status_code then keep_response written deleted now key r st else st

-- What the requests of all servers do to Redis, in any order: the GET of a request changes nothing, a
-- SETNX may take a lock, and a request that ran leaves.
pub data Access : Type 0 where
  looks : ℕ → ℕ → Access
  locks : Bool → ℕ → ℕ → Access
  leaves : Bool → Bool → Bool → ℕ → ℕ → Response → Access

unfoldable pub access : Access → Store → Store
access (looks now key) st = st
access (locks answers now key) st = (lock_entry answers now key st).1
access (leaves locked written deleted now key r) st = leave locked written deleted now key r st

unfoldable pub access_all : List Access → Store → Store
access_all [] st = st
access_all (a ∷ rest) st = access_all rest (access a st)
