-- ===== src/Expiry/Reaches.antt =====
-- A round of the release worker changes the tables by steps of `Inventory` alone.
use ticket_master.Prelude.{ℕ, none, some, List, [], ◌∷◌, Option}
use ticket_master.Exec.{Env, Fault, failed, locked, unacknowledged, World, tick}
use ticket_master.Service.{Service}
use ticket_master.Service.Reaches.{service_rules, release_expired_booking_by_id-Reaches}
use ticket_master.Inventory.{Reach, here}
use ticket_master.Repository.Refines.{IsLawful}
use ticket_master.Repository.Reaches.{
  Reaches, pure-Reaches, bind-Reaches, handle-Reaches, best_effort-Reaches,
}
use ticket_master.Expiry.{Queue}
use ticket_master.Expiry.Release.{
  script_answer, queue_of, run_script, poll_due, release_claimed, process_due,
}

script_answer-Reach :
    (f : Option Fault) (x : List ℕ × Queue) (w : World) → Reach w.db (script_answer f x w).1.db
script_answer-Reach none x w = here
script_answer-Reach (some failed) x w = here
script_answer-Reach (some locked) x w = here
script_answer-Reach (some unacknowledged) x w = here

module _ {env : Env} where
  run_script-Reaches : (script : Queue → List ℕ × Queue) → Reaches env (run_script script)
  unfolding run_script
  run_script-Reaches script = record {
    at = λ w. script_answer-Reach (env.fault w.calls) (script (queue_of w.effects)) (tick w);
  }

  poll_due-Reaches :
      (spell : ℕ → List ℕ) (now limit index count : ℕ)
      → Reaches env (poll_due spell now limit index count)
  unfolding poll_due
  poll_due-Reaches spell now limit index count = search (service_rules, run_script-Reaches) depth 8

module _ {env : Env} (lawful : IsLawful env) (spell : ℕ → List ℕ) (s : Service) where
  release_claimed-Reaches : (ids : List ℕ) → Reaches env (release_claimed spell s ids)
  unfolding release_claimed
  release_claimed-Reaches [] = pure-Reaches tt
  release_claimed-Reaches (id ∷ ids) =
      bind-Reaches _ _
        (handle-Reaches _ _ _ (release_expired_booking_by_id-Reaches lawful s id)
          (λ _. best_effort-Reaches _) (λ _. pure-Reaches tt))
        λ _. release_claimed-Reaches ids

  pub process_due-Reaches : (index count : ℕ) → Reaches env (process_due spell s index count)
  unfolding process_due
  process_due-Reaches index count =
      search (service_rules, poll_due-Reaches, release_claimed-Reaches) depth 8
