-- ===== src/Repository/Reaches.antt =====
-- Whatever an action returns and whichever of its calls fail, the tables change by steps of
-- `Inventory` alone: one rule for each way to build an action.
pub mod Transactions
pub mod Catalog
use ticket_master.Prelude.{ℕ, ◌≡◌, Bool, true, false, Option, none, some, if◌then◌else◌}
use ticket_master.Model.{Db}
use ticket_master.Effects.{Effects}
use ticket_master.Exec.{
  Error, Result, ok, err, Fault, failed, locked, unacknowledged, Env, World, Exec, pure, raise,
  continue, settle, branch, ◌>>=◌, catch, handle, time_now, answers, best_effort, answer, select,
  selected, statement, replica_select, lookup, uuid_new, lone, joined, tick, after_effect,
}
use ticket_master.Repository.Statements.{◌>>◌, require}
use ticket_master.Repository.Refines.{IsLawful}
use ticket_master.Inventory.{Reach, here}
use ticket_master.Inventory.Preserves.{Reach-trans}

pub record Reaches {ℓ} (env : Env) {A : Type ℓ} (m : Exec A) : Type 0 where
  pub at : (w : World) → Reach w.db (m env w).1.db

answer-Reach {ℓ} :
    {A : Type ℓ} (P : Db → Type 0) (o : Option A) (f : Option Fault) (w : World)
    → P w.db
    → P (answer (selected w.db o) f w).1.db
answer-Reach P none none w h = h
answer-Reach P (some a) none w h = h
answer-Reach P none (some f) w h = h
answer-Reach P (some a) (some failed) w h = h
answer-Reach P (some a) (some locked) w h = h
answer-Reach P (some a) (some unacknowledged) w h = h

-- What a statement did, where its result is not empty.
abbrev pub After {ℓ} : {A : Type ℓ} → Db → Option (A × Db) → Type 0
After old none = Unit {0}
After old (some (a, db)) = Reach old db

written-Reach {ℓ} :
    {A : Type ℓ} (old : Db) (o : Option (A × Db)) (f : Option Fault) (w : World)
    → Reach old w.db
    → After old o
    → Reach old (answer o f w).1.db
written-Reach old none none w h k = h
written-Reach old (some (a, db)) none w h k = k
written-Reach old none (some f) w h k = h
written-Reach old (some (a, db)) (some failed) w h k = h
written-Reach old (some (a, db)) (some locked) w h k = h
written-Reach old (some (a, db)) (some unacknowledged) w h k = k

after_effect-Reach :
    (P : Db → Type 0) (f : Option Fault) (g : Effects → Effects) (w : World)
    → P w.db
    → P (after_effect f g w).db
after_effect-Reach P none g w h = h
after_effect-Reach P (some failed) g w h = h
after_effect-Reach P (some locked) g w h = h
after_effect-Reach P (some unacknowledged) g w h = h

module _ {ℓ} {A : Type ℓ} {env : Env} where
  pub pure-Reaches : (a : A) → Reaches env (pure a)
  unfolding pure
  pure-Reaches a = record { at = λ w. here }

  pub raise-Reaches : (e : Error) → Reaches env (raise {A = A} e)
  unfolding raise
  raise-Reaches e = record { at = λ w. here }

  pub answers-Reaches : (f : ℕ → A) → Reaches env (answers f)
  unfolding answers
  answers-Reaches f = record { at = λ w. here }

  pub if-Reaches :
      (b : Bool) (m n : Exec A) → Reaches env m → Reaches env n → Reaches env (if b then m else n)
  if-Reaches true m n p q = p
  if-Reaches false m n p q = q

  settle-Reaches :
      (r : Result A) (h : Error → Exec A)
      → ((e : Error) → Reaches env (h e))
      → Reaches env (settle r h)
  settle-Reaches (ok a) h k = record { at = λ w. here }
  settle-Reaches (err e) h k = k e

  pub catch-Reaches :
      (m : Exec A) (h : Error → Exec A)
      → Reaches env m
      → ((e : Error) → Reaches env (h e))
      → Reaches env (catch m h)
  unfolding catch
  catch-Reaches m h p k = record {
    at = λ w. let (r, w') = m env w in Reach-trans (p.at w) ((settle-Reaches r h k).at w');
  }

  pub select-Reaches : (q : ℕ → Db → Option A) → Reaches env (select q)
  unfolding statement
  select-Reaches q = record {
    at = λ w. answer-Reach (Reach w.db) (q w.tx_time w.db) (env.fault w.calls) (tick w) here;
  }

  -- A statement whose effect, where it has one, is a sequence of steps.
  pub statement-Reaches :
      (q : ℕ → Db → Option (A × Db))
      → ((t : ℕ) (db : Db) → After db (q t db))
      → Reaches env (statement q)
  unfolding statement
  statement-Reaches q k = record {
    at = λ w.
        written-Reach w.db (q w.tx_time w.db) (env.fault w.calls) (tick w) here (k w.tx_time w.db);
  }

  pub replica_select-Reaches : (q : Db → Option A) → Reaches env (replica_select q)
  unfolding replica_select
  replica_select-Reaches q = record {
    at = λ w.
        answer-Reach (Reach w.db) (q (env.replica w.calls w.db)) (env.fault w.calls) (tick w) here;
  }

  pub lookup-Reaches : (q : Effects → Option A) → Reaches env (lookup q)
  unfolding lookup
  lookup-Reaches q = record { at = λ w. here }

  pub lone-Reaches : (m : Exec A) → IsLawful env → Reaches env m → Reaches env (lone m)
  unfolding lone
  lone-Reaches m lawful p = record {
    at = λ w. Reach-trans (lawful w.calls w.db) (p.at (joined env w));
  }

module _ {ℓ κ} {A : Type ℓ} {B : Type κ} {env : Env} where
  continue-Reaches :
      (r : Result A) (f : A → Exec B) → ((a : A) → Reaches env (f a)) → Reaches env (continue r f)
  continue-Reaches (ok a) f k = k a
  continue-Reaches (err e) f k = record { at = λ w. here }

  pub bind-Reaches :
      (m : Exec A) (f : A → Exec B)
      → Reaches env m
      → ((a : A) → Reaches env (f a))
      → Reaches env (m >>= f)
  unfolding ◌>>=◌
  bind-Reaches m f p k = record {
    at = λ w. let (r, w') = m env w in Reach-trans (p.at w) ((continue-Reaches r f k).at w');
  }

  branch-Reaches :
      (r : Result A) (f : A → Exec B) (h : Error → Exec B)
      → ((a : A) → Reaches env (f a))
      → ((e : Error) → Reaches env (h e))
      → Reaches env (branch r f h)
  branch-Reaches (ok a) f h k l = k a
  branch-Reaches (err e) f h k l = l e

  pub handle-Reaches :
      (m : Exec A) (f : A → Exec B) (h : Error → Exec B)
      → Reaches env m
      → ((a : A) → Reaches env (f a))
      → ((e : Error) → Reaches env (h e))
      → Reaches env (handle m f h)
  unfolding handle
  handle-Reaches m f h p k l = record {
    at = λ w. let (r, w') = m env w in Reach-trans (p.at w) ((branch-Reaches r f h k l).at w');
  }

module _ {env : Env} where
  pub time_now-Reaches : Reaches env time_now
  unfolding time_now
  time_now-Reaches = record { at = λ w. here }

  pub uuid_new-Reaches : Reaches env uuid_new
  unfolding uuid_new
  uuid_new-Reaches = record { at = λ w. here }

  pub require-Reaches : (b : Bool) (e : Error) → Reaches env (require b e)
  unfolding require
  require-Reaches true e = pure-Reaches tt
  require-Reaches false e = raise-Reaches e

  pub best_effort-Reaches : (g : Effects → Effects) → Reaches env (best_effort g)
  unfolding best_effort
  best_effort-Reaches g = record {
    at = λ w. after_effect-Reach (Reach w.db) (env.fault w.calls) g (tick w) here;
  }

pub ruleset reaches_rules = (
  pure-Reaches, raise-Reaches, answers-Reaches, if-Reaches, catch-Reaches, bind-Reaches,
  handle-Reaches, time_now-Reaches, uuid_new-Reaches, replica_select-Reaches, lookup-Reaches,
  require-Reaches, best_effort-Reaches,
)
