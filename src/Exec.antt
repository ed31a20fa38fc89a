-- ===== src/Exec.antt =====
-- Calls of the database and of the clock, as the repositories make them (database/sql, time, uuid).
-- The environment answers the calls in the order in which they are made; it may fail any of them,
-- and other clients may commit before each transaction and each lone statement.
pub mod Rules
pub mod Returns
use ticket_master.Prelude.{ℕ, suc, String, Option, none, some, List, [], ◌∷◌}
use ticket_master.Model.{Db}
use ticket_master.Effects.{Effects}

-- The sentinel errors of internal/services.
pub data ServiceError : Type 0 where
  booking_not_found no_available_seats seat_being_booked seat_not_available : ServiceError
  unauthorized not_reserved booking_expired only_reserved_cancel : ServiceError
  no_seats_requested too_many_seats : ServiceError
  event_not_found venue_not_found : ServiceError
  user_exists invalid_creds already_admin already_regular : ServiceError
  payment_failed payment_declined payment_intent_missing refund_failed : ServiceError

-- The sentinel errors of internal/repository, with `no_rows` for `sql.ErrNoRows`, `lock_not_available`
-- for SQLSTATE 55P03 and `driver` for every other error of the driver.
-- An error wrapped by `%w` is that error: callers tell errors apart by `errors.Is` alone.
pub data Error : Type 0 where
  driver no_rows lock_not_available : Error
  event_not_found no_available_seats venue_not_found : Error
  user_not_found user_exists : Error
  seat_not_found seat_not_available seat_already_booked : Error
  booking_not_found booking_not_reserved booking_not_purchased booking_expired : Error
  service : ServiceError → Error

pub data Result {ℓ} (A : Type ℓ) : Type ℓ where
  ok : A → Result A
  err : Error → Result A

-- A call fails before it takes effect, because a row is locked, or after it took effect.
pub data Fault : Type 0 where
  failed locked unacknowledged : Fault

pub record Env : Type 0 where
  pub clock : ℕ → ℕ  -- time.Now() at a call
  pub db_clock : ℕ → ℕ  -- CURRENT_TIMESTAMP of a transaction that begins at a call
  pub uuid : ℕ → ℕ  -- uuid.New() at a call
  pub fault : ℕ → Option Fault
  pub others : ℕ → Db → Db  -- what other clients commit before a call
  pub replica : ℕ → Db → Db  -- what the read replica shows at a call

pub record World : Type 0 where
  pub db : Db
  pub effects : Effects
  pub tx_time : ℕ  -- CURRENT_TIMESTAMP
  pub calls : ℕ

abbrev pub Exec {ℓ} : Type ℓ → Type ℓ
Exec A = Env → World → Result A × World

abbrev pub tick : World → World
tick w = record w { calls = suc w.calls }

module _ {ℓ κ} {A : Type ℓ} {B : Type κ} where
  abbrev pub continue : Result A → (A → Exec B) → Exec B
  continue (ok a) f = f a
  continue (err e) f = λ env w. (err e, w)

  infixl 10 ◌>>=◌
  unfoldable pub ◌>>=◌ : Exec A → (A → Exec B) → Exec B
  ◌>>=◌ m f env w = let (r, w') = m env w in continue r f env w'

module _ {ℓ κ} {A : Type ℓ} {B : Type κ} where
  abbrev pub branch : Result A → (A → Exec B) → (Error → Exec B) → Exec B
  branch (ok a) f h = f a
  branch (err e) f h = h e

  -- `if err != nil { h } else { f }`, where `h` sees the errors of `m` alone.
  unfoldable pub handle : Exec A → (A → Exec B) → (Error → Exec B) → Exec B
  handle m f h env w = let (r, w') = m env w in branch r f h env w'

module _ {ℓ} {A : Type ℓ} where
  unfoldable pub pure : A → Exec A
  pure a env w = (ok a, w)

  unfoldable pub raise : Error → Exec A
  raise e env w = (err e, w)

  abbrev pub settle : Result A → (Error → Exec A) → Exec A
  settle (ok a) h = λ env w. (ok a, w)
  settle (err e) h = h e

  -- `if err != nil { … }`
  unfoldable pub catch : Exec A → (Error → Exec A) → Exec A
  catch m h env w = let (r, w') = m env w in settle r h env w'

abbrev pub fault_error : Fault → Error
fault_error failed = driver
fault_error locked = lock_not_available
fault_error unacknowledged = driver

unfoldable pub time_now : Exec ℕ
time_now env w = (ok (env.clock w.calls), tick w)

unfoldable pub uuid_new : Exec ℕ
uuid_new env w = (ok (env.uuid w.calls), tick w)

abbrev pub begun : Env → World → World
begun env w = record w {
  db = env.others w.calls w.db;
  tx_time = env.db_clock w.calls;
  calls = suc w.calls;
}

-- The state in which a lone statement runs.
abbrev pub joined : Env → World → World
joined env w = record w { db = env.others w.calls w.db; tx_time = env.db_clock w.calls }

-- A call that an outside service answers, as it likes at that call.
unfoldable pub answers {ℓ} : {A : Type ℓ} → (ℕ → A) → Exec A
answers reply env w = (ok (reply w.calls), tick w)

abbrev pub after_effect : Option Fault → (Effects → Effects) → World → World
after_effect none f w = record w { effects = f w.effects }
after_effect (some unacknowledged) f w = record w { effects = f w.effects }
after_effect (some _) f w = w

-- A call whose error is logged and dropped.
unfoldable pub best_effort : (Effects → Effects) → Exec (Unit {0})
best_effort f env w = (ok tt, after_effect (env.fault w.calls) f (tick w))

module _ {ℓ} {A : Type ℓ} where
  abbrev pub found : Option A → Option Fault → Result A
  found (some a) none = ok a
  found _ _ = err driver

  -- A read of Redis, where an entry that is not there is an error.
  unfoldable pub lookup : (Effects → Option A) → Exec A
  lookup q env w = (found (q w.effects) (env.fault w.calls), tick w)

  abbrev pub answer : Option (A × Db) → Option Fault → World → Result A × World
  answer none none w = (err no_rows, w)
  answer (some (a, db)) none w = (ok a, record w { db = db })
  answer none (some f) w = (err (fault_error f), w)
  answer (some (a, db)) (some failed) w = (err driver, w)
  answer (some (a, db)) (some locked) w = (err lock_not_available, w)
  answer (some (a, db)) (some unacknowledged) w = (err driver, record w { db = db })

  -- A statement that reads and writes the tables at CURRENT_TIMESTAMP; `none` is an empty result.
  unfoldable pub statement : (ℕ → Db → Option (A × Db)) → Exec A
  statement q env w = answer (q w.tx_time w.db) (env.fault w.calls) (tick w)

  abbrev pub selected : Db → Option A → Option (A × Db)
  selected db none = none
  selected db (some a) = some (a, db)

  -- A SELECT.
  abbrev pub select : (ℕ → Db → Option A) → Exec A
  select q = statement λ t db. selected db (q t db)

  -- A query of the read replica (database.GetReadDB).
  unfoldable pub replica_select : (Db → Option A) → Exec A
  replica_select q env w =
      answer (selected w.db (q (env.replica w.calls w.db))) (env.fault w.calls) (tick w)

  -- A statement outside a transaction.
  unfoldable pub lone : Exec A → Exec A
  lone m env w = m env (joined env w)

  abbrev commit : A → Db → Option Fault → World → Result A × World
  commit a old none w = (ok a, w)
  commit a old (some unacknowledged) w = (err driver, w)
  commit a old (some _) w = (err driver, record w { db = old })

  -- `defer tx.Rollback()` undoes what the body wrote when it returns early.
  abbrev finish : Db → Result A × World → Env → Result A × World
  finish old (err e, w) env = (err e, record w { db = old })
  finish old (ok a, w) env = commit a old (env.fault w.calls) (tick w)

  abbrev run_begun : Option Fault → Exec A → Exec A
  run_begun (some f) body env w = (err (fault_error f), w)
  run_begun none body env w = finish w.db (body env w) env

  -- tx := DB.Begin(); body; tx.Commit()
  unfoldable pub transaction : Exec A → Exec A
  transaction body env w = run_begun (env.fault w.calls) body env (begun env w)
