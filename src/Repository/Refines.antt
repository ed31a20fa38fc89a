-- ===== src/Repository/Refines.antt =====
-- The transactions of internal/repository implement the steps of `Inventory`: whatever fails on the
-- way, the tables are left as by other clients alone, or by these and one more step.
pub mod Reserve
pub mod Purchase
pub mod Release
use ticket_master.Prelude.{ℕ}
use ticket_master.Model.{Db}
use ticket_master.Exec.{Exec, Env, World, transaction, begun}
use ticket_master.Exec.Rules.{Ensures, Ensures-mono, transaction_cases}
use ticket_master.Inventory.{Reach}
use ticket_master.Inventory.Preserves.{Reach-trans}

-- Other clients change the tables by transactions of this program only.
abbrev pub IsLawful : Env → Type 0
IsLawful env = (n : ℕ) (db : Db) → Reach db (env.others n db)

-- A transaction reaches what its body reaches, whatever fails.
pub transaction-Reach {ℓ} :
    {A : Type ℓ} (body : Exec A) (env : Env) (w : World)
    → IsLawful env
    → ((w' : World) → Ensures (body env w') (λ _ w''. Reach w'.db w''.db))
    → Reach w.db (transaction body env w).1.db
transaction-Reach body env w lawful step =
    transaction_cases (Reach w.db) body env w (lawful w.calls w.db)
      (Ensures-mono _ _ _ (step (begun env w)) λ _ w' r. Reach-trans (lawful w.calls w.db) r)
