-- ===== src/Startup.antt =====
-- internal/database/migrate.go and cmd/server/main.go: whether the migrations run at start-up, and the
-- connection of PostgreSQL that runs them. An advisory lock belongs to the session: the end of a
-- transaction does not give it back. A statement after the transaction has ended is database/sql's
-- ErrTxDone, and one after a failed statement is refused by the server; neither takes effect.
pub mod Wiring
pub mod Serves
pub mod Pools
use ticket_master.Prelude.{◌≡◌, arith, Bool, true, false, not, ◌&&◌, ◌||◌, if◌then◌else◌, [], ◌∷◌}
use ticket_master.Config.Text.{is_empty}
use ticket_master.Config.{Vars, among}

-- shouldRunStartupMigrations
unfoldable pub should_run_startup_migrations : Vars → Bool
should_run_startup_migrations vars =
    if among (vars "RUN_MIGRATIONS_ON_START") ("true" ∷ "1" ∷ "yes" ∷ "y" ∷ "on" ∷ [])
    then true
    else if among (vars "RUN_MIGRATIONS_ON_START") ("false" ∷ "0" ∷ "no" ∷ "n" ∷ "off" ∷ [])
    then false
    else not (is_empty (vars "RAILWAY_ENVIRONMENT"))
      || not (is_empty (vars "RAILWAY_PROJECT_ID"))
      || not (is_empty (vars "RAILWAY_SERVICE_ID"))

pub data TxState : Type 0 where
  open_tx aborted_tx ended_tx : TxState

-- `written` is what the open transaction has done to the schema, `migrated` what is committed.
pub record Connection : Type 0 where
  pub tx : TxState
  pub locked : Bool
  pub written : Bool
  pub migrated : Bool

abbrev pub exec_in : TxState → Bool → (Connection → Connection) → Connection → Bool × Connection
exec_in open_tx true effect c = (true, effect c)
exec_in open_tx false effect c = (false, record c { tx = aborted_tx })
exec_in aborted_tx taken effect c = (false, c)
exec_in ended_tx taken effect c = (false, c)

-- tx.Exec; the Boolean says whether the server takes the statement.
unfoldable pub tx_exec : Bool → (Connection → Connection) → Connection → Bool × Connection
tx_exec taken effect c = exec_in c.tx taken effect c

-- SELECT pg_advisory_lock($1)
abbrev pub take_lock : Connection → Connection
take_lock c = record c { locked = true }

-- SELECT pg_advisory_unlock($1)
abbrev pub give_lock : Connection → Connection
give_lock c = record c { locked = false }

abbrev pub write_schema : Connection → Connection
write_schema c = record c { written = true }

abbrev pub is_open : TxState → Bool
is_open open_tx = true
is_open _ = false

-- tx.Commit
unfoldable pub tx_commit : Bool → Connection → Bool × Connection
tx_commit taken c =
    if taken && is_open c.tx
    then (true, record c { tx = ended_tx; migrated = c.written || c.migrated; written = false })
    else (false, record c { tx = ended_tx; written = false })

-- tx.Rollback
unfoldable pub tx_rollback : Connection → Connection
tx_rollback c = record c { tx = ended_tx; written = false }

-- Whether the calls of one migration are taken.
pub record Taken : Type 0 where
  pub begin : Bool
  pub lock : Bool
  pub migration : Bool
  pub commit : Bool
  pub unlock : Bool

module _ (t : Taken) where
  -- The deferred calls, the last one first.
  abbrev pub run_deferred : Bool × Connection → Bool × Connection
  run_deferred (done, c) = (done, tx_rollback (tx_exec t.unlock give_lock c).1)

  abbrev pub commit_if : Bool × Connection → Bool × Connection
  commit_if (true, c) = tx_commit t.commit c
  commit_if (false, c) = (false, c)

  abbrev pub migrate_if : Bool × Connection → Bool × Connection
  migrate_if (true, c) = run_deferred (commit_if (tx_exec t.migration write_schema c))
  migrate_if (false, c) = (false, tx_rollback c)

  -- executeMigration; whether it returned nil.
  unfoldable pub execute_migration : Connection → Bool × Connection
  execute_migration c =
      if t.begin
      then migrate_if (tx_exec t.lock take_lock (record c { tx = open_tx; written = false }))
      else (false, c)

-- Once executeMigration has the advisory lock its session never gives it back, whether the migration
-- is committed or fails, although the deferred call is to unlock it: by then the transaction through
-- which it asks has ended or is aborted.
pub execute_migration-locked :
    (t : Taken) (c : Connection)
    → t.begin ≡ true
    → t.lock ≡ true
    → (execute_migration t c).1.locked ≡ true
unfolding execute_migration tx_exec tx_commit tx_rollback
execute_migration-locked t c b l = ground arith
