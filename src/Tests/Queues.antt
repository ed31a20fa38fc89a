-- ===== src/Tests/Queues.antt =====
-- The expiry queue and the limits on small inputs.
use ticket_master.Prelude.{length, ℕ, ◌+◌, ◌≤◌, ◌≡◌, refl, true, false, some, List, [], ◌∷◌, arith}
use ticket_master.Expiry.{Queue, Claim, claim_expiry_script}
use ticket_master.Expiry.Members.{tracks}
use ticket_master.Expiry.Claims.{all_belong, claim_expiry_script-tracks, claim_expiry_script_lem}
use ticket_master.Expiry.Release.{natural, negative, expiry_release_partition_plan, plan_at}
use ticket_master.RateLimit.{Counters, no_counter, admissions, sliding_window, zcount}
use ticket_master.RateLimit.Admission.{any, admissions_starve, sliding_window_bound}

-- The decimal digits stand for the text of an id.
abbrev spell : ℕ → List ℕ
spell n = (48 + n) ∷ []

abbrev waiting : Queue
waiting = record { pending = (1, 90) ∷ (2, 95) ∷ (3, 200) ∷ []; inflight = (4, 10) ∷ [] }

abbrev claim_now : Claim
claim_now = record {
  now = 100;
  stale_before = 20;
  claim_until = 220;
  limit = 2;
  partition_index = 1;
  partition_count = 2;
}

claim_expiry_script-tracks_example : tracks 4 (claim_expiry_script spell claim_now waiting).1 ≡ true
claim_expiry_script-tracks_example = claim_expiry_script-tracks spell claim_now 4 waiting refl

claim_expiry_script_lem_example :
    (all_belong spell claim_now (claim_expiry_script spell claim_now waiting).0 ≡ true)
    × (length (claim_expiry_script spell claim_now waiting).0 ≤ 2)
claim_expiry_script_lem_example = claim_expiry_script_lem spell claim_now waiting (omega arith)

plan :
    expiry_release_partition_plan (negative 1) (natural 8) (natural 4)
    ≡ some (record { concurrency = 4; count = 8; offset = 4 })
unfolding expiry_release_partition_plan plan_at
plan = refl

abbrev busy : Counters
busy = record { event = record { value = 3; deadline = some 60 }; client = λ _. no_counter }

-- A request every 50 seconds, and a window of 60.
admissions_starve_example :
    any (admissions 60 3 2 0 ((50, 7) ∷ (50, 8) ∷ (50, 9) ∷ []) busy) ≡ false
admissions_starve_example =
    admissions_starve 60 3 2 0 ((50, 7) ∷ (50, 8) ∷ (50, 9) ∷ []) busy (omega arith) (omega arith)
      refl refl refl

admitted : (sliding_window 40 100 9 2 ((7, 30) ∷ (8, 50) ∷ [])).0 ≡ true
unfolding sliding_window
admitted = refl

sliding_window_bound_example :
    zcount 40 100 (sliding_window 40 100 9 2 ((7, 30) ∷ (8, 50) ∷ [])).1 ≤ 2
sliding_window_bound_example = sliding_window_bound 40 100 9 2 ((7, 30) ∷ (8, 50) ∷ []) admitted
