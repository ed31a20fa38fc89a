-- ===== src/Startup/Pools.antt =====
-- internal/database/database.go: the connections to the primary database and to its read replica, and
-- which of them a read is given.
use ticket_master.Prelude.{
  Bool, true, false, not, ◌&&◌, Option, none, some, if◌then◌else◌, ◌≡◌, arith,
}
use ticket_master.Config.{DatabaseConfig, read_dsn}
use ticket_master.Config.Text.{is_empty}

-- Whether sql.Open and Ping succeed.
pub record Reached : Type 0 where
  pub opened : Bool
  pub pinged : Bool

-- DB and ReadDB; whether they are not nil.
pub record Pools : Type 0 where
  pub primary : Bool
  pub read : Bool

pub data Pool : Type 0 where
  primary_pool replica_pool : Pool

abbrev pub is_reached : Reached → Bool
is_reached r = r.opened && r.pinged

abbrev pub read_pool : DatabaseConfig → Reached → Bool
read_pool d replica = if is_empty (read_dsn d) then false else is_reached replica

-- Connect, from a process that had no connections; none is its error.
unfoldable pub connect : DatabaseConfig → Reached → Reached → Option Pools
connect d primary replica =
    if is_reached primary
    then some (record { primary = true; read = read_pool d replica })
    else none

-- GetReadDB
unfoldable pub get_read_db : Pools → Pool
get_read_db p = if p.read then replica_pool else primary_pool

-- A read goes to the replica exactly if the configuration names one and it was reached at start-up.
pub get_read_db-connect :
    (d : DatabaseConfig) (primary replica : Reached) (p : Pools)
    → connect d primary replica ≡ some p
    → get_read_db p
      ≡ (if not (is_empty (read_dsn d)) && is_reached replica then replica_pool else primary_pool)
unfolding connect get_read_db
get_read_db-connect d primary replica p h = ground arith
