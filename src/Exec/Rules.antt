-- ===== src/Exec/Rules.antt =====
-- Reasoning about executions: what holds of the state after a normal return.
use ticket_master.Prelude.{ℕ, suc, ◌≡◌, refl, Option, none, some, Bool, true, false, if◌then◌else◌}
use ticket_master.Model.{Db}
use ticket_master.Exec.{
  Error, Result, ok, err, Env, World, Exec, Fault, failed, locked, unacknowledged, continue, settle,
  ◌>>=◌, catch, tick, begun, answer, statement, transaction, commit, finish, run_begun,
}

-- `Q` holds where the call returned normally.
abbrev pub Ensures {ℓ} : {A : Type ℓ} → Result A × World → (A → World → Type 0) → Type 0
Ensures (ok a, w) Q = Q a w
Ensures (err e, w) Q = Unit {0}

module _ {ℓ} {A : Type ℓ} where
  pub Ensures-mono :
      (x : Result A × World) (P Q : A → World → Type 0)
      → Ensures x P
      → ((a : A) (w : World) → P a w → Q a w)
      → Ensures x Q
  Ensures-mono (ok a, w) P Q h k = k a w h
  Ensures-mono (err e, w) P Q h k = tt

  pub Ensures-all :
      (x : Result A × World) (Q : A → World → Type 0) → ((a : A) (w : World) → Q a w) → Ensures x Q
  Ensures-all (ok a, w) Q k = k a w
  Ensures-all (err e, w) Q k = tt

  -- What holds of the state whatever the call returned.
  pub Ensures-state : (x : Result A × World) (P : World → Type 0) → P x.1 → Ensures x (λ _ w. P w)
  Ensures-state (ok a, w) P p = p
  Ensures-state (err e, w) P p = tt

  pub if_rule :
      (b : Bool) (m n : Exec A) (env : Env) (w : World) (Q : A → World → Type 0)
      → Ensures (m env w) Q
      → Ensures (n env w) Q
      → Ensures ((if b then m else n) env w) Q
  if_rule true m n env w Q p q = p
  if_rule false m n env w Q p q = q

  settle_rule :
      (x : Result A × World) (h : Error → Exec A) (env : Env) (Q : A → World → Type 0)
      → Ensures x Q
      → ((e : Error) (w : World) → Ensures (h e env w) Q)
      → Ensures (settle x.0 h env x.1) Q
  settle_rule (ok a, w) h env Q p k = p
  settle_rule (err e, w) h env Q p k = k e w

  pub catch_rule :
      (m : Exec A) (h : Error → Exec A) (env : Env) (w : World) (Q : A → World → Type 0)
      → Ensures (m env w) Q
      → ((e : Error) (w' : World) → Ensures (h e env w') Q)
      → Ensures (catch m h env w) Q
  unfolding catch
  catch_rule m h env w Q p k = settle_rule (m env w) h env Q p k

  answer_rule :
      (r : Option (A × Db)) (f : Option Fault) (w : World) (Q : A → World → Type 0)
      → ((a : A) (db : Db) → r ≡ some (a, db) → Q a (record w { db = db }))
      → Ensures (answer r f w) Q
  answer_rule none none w Q k = tt
  answer_rule (some (a, db)) none w Q k = k a db refl
  answer_rule none (some f) w Q k = tt
  answer_rule (some (a, db)) (some failed) w Q k = tt
  answer_rule (some (a, db)) (some locked) w Q k = tt
  answer_rule (some (a, db)) (some unacknowledged) w Q k = tt

  pub statement_rule :
      (q : ℕ → Db → Option (A × Db)) (env : Env) (w : World) (Q : A → World → Type 0)
      → ((a : A) (db : Db)
          → q w.tx_time w.db ≡ some (a, db)
          → Q a (record w { db = db; calls = suc w.calls }))
      → Ensures (statement q env w) Q
  unfolding statement
  statement_rule q env w Q k = answer_rule (q w.tx_time w.db) (env.fault w.calls) (tick w) Q k

  commit_cases :
      (P : Db → Type 0) (a : A) (old : Db) (f : Option Fault) (w : World)
      → P old
      → P w.db
      → P (commit a old f w).1.db
  commit_cases P a old none w h k = k
  commit_cases P a old (some failed) w h k = h
  commit_cases P a old (some locked) w h k = h
  commit_cases P a old (some unacknowledged) w h k = k

  finish_cases :
      (P : Db → Type 0) (old : Db) (x : Result A × World) (env : Env)
      → P old
      → Ensures x (λ _ w. P w.db)
      → P (finish old x env).1.db
  finish_cases P old (ok a, w) env h k = commit_cases P a old (env.fault w.calls) (tick w) h k
  finish_cases P old (err e, w) env h k = h

  run_begun_cases :
      (P : Db → Type 0) (f : Option Fault) (body : Exec A) (env : Env) (w : World)
      → P w.db
      → Ensures (body env w) (λ _ w'. P w'.db)
      → P (run_begun f body env w).1.db
  run_begun_cases P (some f) body env w h k = h
  run_begun_cases P none body env w h k = finish_cases P w.db (body env w) env h k

  -- After a transaction the tables are as its body left them, or as they were when it began.
  pub transaction_cases :
      (P : Db → Type 0) (body : Exec A) (env : Env) (w : World)
      → P (env.others w.calls w.db)
      → Ensures (body env (begun env w)) (λ _ w'. P w'.db)
      → P (transaction body env w).1.db
  unfolding transaction
  transaction_cases P body env w h k =
      run_begun_cases P (env.fault w.calls) body env (begun env w) h k

  commit_rule :
      (a : A) (old : Db) (f : Option Fault) (w : World) (Q : A → Db → Type 0)
      → Q a w.db
      → Ensures (commit a old f w) (λ b w'. Q b w'.db)
  commit_rule a old none w Q h = h
  commit_rule a old (some failed) w Q h = tt
  commit_rule a old (some locked) w Q h = tt
  commit_rule a old (some unacknowledged) w Q h = tt

  finish_rule :
      (old : Db) (x : Result A × World) (env : Env) (Q : A → Db → Type 0)
      → Ensures x (λ b w'. Q b w'.db)
      → Ensures (finish old x env) (λ b w'. Q b w'.db)
  finish_rule old (ok a, w) env Q h = commit_rule a old (env.fault w.calls) (tick w) Q h
  finish_rule old (err e, w) env Q h = tt

  run_begun_rule :
      (f : Option Fault) (body : Exec A) (env : Env) (w : World) (Q : A → Db → Type 0)
      → Ensures (body env w) (λ b w'. Q b w'.db)
      → Ensures (run_begun f body env w) (λ b w'. Q b w'.db)
  run_begun_rule (some f) body env w Q h = tt
  run_begun_rule none body env w Q h = finish_rule w.db (body env w) env Q h

  -- A transaction that returns normally has the effect of its body.
  pub transaction_rule :
      (body : Exec A) (env : Env) (w : World) (Q : A → Db → Type 0)
      → Ensures (body env (begun env w)) (λ b w'. Q b w'.db)
      → Ensures (transaction body env w) (λ b w'. Q b w'.db)
  unfolding transaction
  transaction_rule body env w Q h = run_begun_rule (env.fault w.calls) body env (begun env w) Q h

module _ {ℓ κ} {A : Type ℓ} {B : Type κ} where
  continue_rule :
      (x : Result A × World) (f : A → Exec B) (env : Env) (Q : B → World → Type 0)
      → Ensures x (λ a w. Ensures (f a env w) Q)
      → Ensures (continue x.0 f env x.1) Q
  continue_rule (ok a, w) f env Q h = h
  continue_rule (err e, w) f env Q h = tt

  pub bind_rule :
      (m : Exec A) (f : A → Exec B) (env : Env) (w : World) (Q : B → World → Type 0)
      → Ensures (m env w) (λ a w'. Ensures (f a env w') Q)
      → Ensures ((m >>= f) env w) Q
  unfolding ◌>>=◌
  bind_rule m f env w Q h = continue_rule (m env w) f env Q h
