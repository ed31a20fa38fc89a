-- ===== src/Exec/Returns.antt =====
-- Reasoning about executions that succeed: a call returns normally, and what holds then.
use ticket_master.Prelude.{ℕ, suc, ◌≡◌, Option, none, some}
use ticket_master.Model.{Db}
use ticket_master.Exec.Rules.{Ensures}
use ticket_master.Exec.{
  Error, Result, ok, err, Env, World, Exec, continue, settle, ◌>>=◌, catch, begun, statement,
  replica_select, lone, tick, transaction, finish,
}

-- The call returned normally, and `Q` holds.
abbrev pub Returns {ℓ} : {A : Type ℓ} → Result A × World → (A → World → Type 0) → Type 0
Returns (ok a, w) Q = Q a w
Returns (err e, w) Q = ⊥

-- No call of the database fails.
abbrev pub IsReliable : Env → Type 0
IsReliable env = (n : ℕ) → env.fault n ≡ none

-- No other client commits anything, and the replica shows the tables as they are.
pub record IsIdle (env : Env) : Type 0 where
  pub alone : (n : ℕ) (db : Db) → env.others n db ≡ db
  pub in_sync : (n : ℕ) (db : Db) → env.replica n db ≡ db

module _ {ℓ} {A : Type ℓ} where
  settle_returns :
      (x : Result A × World) (h : Error → Exec A) (env : Env) (Q : A → World → Type 0)
      → Returns x Q
      → Returns (settle x.0 h env x.1) Q
  settle_returns (ok a, w) h env Q p = p
  settle_returns (err e, w) h env Q p = absurd p

  -- What holds after a normal return holds of a call that returns.
  pub Returns-Ensures :
      (x : Result A × World) (P Q : A → World → Type 0) → Returns x P → Ensures x Q → Returns x Q
  Returns-Ensures (ok a, w) P Q p q = q
  Returns-Ensures (err e, w) P Q p q = absurd p

  pub Returns-mono :
      (x : Result A × World) (P Q : A → World → Type 0)
      → Returns x P
      → ((a : A) (w : World) → P a w → Q a w)
      → Returns x Q
  Returns-mono (ok a, w) P Q p k = k a w p
  Returns-mono (err e, w) P Q p k = absurd p

  pub replica_select_returns :
      (q : Db → Option A) (env : Env) (w : World) (Q : A → World → Type 0) (a : A)
      → IsReliable env
      → q (env.replica w.calls w.db) ≡ some a
      → Q a (tick w)
      → Returns (replica_select q env w) Q
  unfolding replica_select
  replica_select_returns q env w Q a f e h = rw (f w.calls, e) h

  pub idle_lone_returns :
      (m : Exec A) (env : Env) (w : World) (Q : A → World → Type 0)
      → IsIdle env
      → Returns (m env (record w { tx_time = env.db_clock w.calls })) Q
      → Returns (lone m env w) Q
  unfolding lone
  idle_lone_returns m env w Q idle h = rw (idle.alone w.calls w.db) h

  pub catch_returns :
      (m : Exec A) (h : Error → Exec A) (env : Env) (w : World) (Q : A → World → Type 0)
      → Returns (m env w) Q
      → Returns (catch m h env w) Q
  unfolding catch
  catch_returns m h env w Q p = settle_returns (m env w) h env Q p

  pub statement_returns :
      (q : ℕ → Db → Option (A × Db)) (env : Env) (w : World) (Q : A → World → Type 0) (a : A)
      (db : Db)
      → IsReliable env
      → q w.tx_time w.db ≡ some (a, db)
      → Q a (record w { db = db; calls = suc w.calls })
      → Returns (statement q env w) Q
  unfolding statement
  statement_returns q env w Q a db f e h = rw (f w.calls, e) h

  finish_returns :
      (old : Db) (x : Result A × World) (env : Env) (Q : A → Db → Type 0)
      → IsReliable env
      → Returns x (λ b w'. Q b w'.db)
      → Returns (finish old x env) (λ b w'. Q b w'.db)
  finish_returns old (ok a, w) env Q f h = rw (f w.calls) h
  finish_returns old (err e, w) env Q f h = absurd h

  pub transaction_returns :
      (body : Exec A) (env : Env) (w : World) (Q : A → Db → Type 0)
      → IsReliable env
      → Returns (body env (begun env w)) (λ b w'. Q b w'.db)
      → Returns (transaction body env w) (λ b w'. Q b w'.db)
  unfolding transaction
  transaction_returns body env w Q f h =
      rw (f w.calls) (finish_returns _ (body env (begun env w)) env Q f h)

  pub idle_transaction_returns :
      (body : Exec A) (env : Env) (w : World) (Q : A → Db → Type 0)
      → IsReliable env
      → IsIdle env
      → Returns
          (body env (record w { tx_time = env.db_clock w.calls; calls = suc w.calls }))
          (λ b w'. Q b w'.db)
      → Returns (transaction body env w) (λ b w'. Q b w'.db)
  idle_transaction_returns body env w Q f idle h =
      transaction_returns body env w Q f (rw (idle.alone w.calls w.db) h)

module _ {ℓ κ} {A : Type ℓ} {B : Type κ} where
  continue_returns :
      (x : Result A × World) (f : A → Exec B) (env : Env) (Q : B → World → Type 0)
      → Returns x (λ a w. Returns (f a env w) Q)
      → Returns (continue x.0 f env x.1) Q
  continue_returns (ok a, w) f env Q h = h
  continue_returns (err e, w) f env Q h = absurd h

  pub bind_returns :
      (m : Exec A) (f : A → Exec B) (env : Env) (w : World) (Q : B → World → Type 0)
      → Returns (m env w) (λ a w'. Returns (f a env w') Q)
      → Returns ((m >>= f) env w) Q
  unfolding ◌>>=◌
  bind_returns m f env w Q h = continue_returns (m env w) f env Q h
