-- ===== src/Reputation/Examples.antt =====
-- The reputation manager at a store with one worker, on exact numbers in twentieths.
use arche_blockchain.Prelude.{
  ◌≡◌, ◌≤◌, ◌⊎◌, refl, text_eq, true, false, none, some, [], ◌∷◌, Text, codes, arith, text_beq,
}
use arche_blockchain.Int.{pos, leb_ℤ}
use arche_blockchain.Dict
use arche_blockchain.Dict.{Dict, get}
use arche_blockchain.Float.{◌≼◌}
use arche_blockchain.Float.Twentieths.{Twentieths, twentieths_float, Twentieths-IsOrdered}
use arche_blockchain.Reputation.{
  ReputationRecord, standard, min_score, min_jobs, max_job_price, max_history, reaches,
  compute_tier, within_tier, can_take_job,
}
use arche_blockchain.Reputation.Events.{timed_out}
use arche_blockchain.Reputation.Bounded.{IsSoundStore}
use arche_blockchain.Reputation.Limits.{
  event, run_reputation, run_reputation-IsSound, can_take_job_earned,
}

-- A worker with a score of 60.5 after six jobs.
abbrev worker : ReputationRecord Twentieths
worker = record {
  address = codes "w";
  score = pos 1210;
  total_jobs = 6;
  successful_jobs = 3;
  failed_jobs = 1;
  disputed_jobs = 1;
  timeouts = 1;
  disputes_won = 0;
  disputes_lost = 1;
  created_at = pos 10;
  updated_at = pos 20;
  last_job_at = some (pos 20);
  tier = standard;
  is_banned = false;
  ban_reason = [];
  history = [];
}

abbrev one_worker : Dict Text (ReputationRecord Twentieths)
one_worker = (codes "w", worker) ∷ []

one_worker-IsSound : IsSoundStore one_worker
unfolding max_history compute_tier reaches min_score min_jobs
one_worker-IsSound = (
  (refl, record { low = refl; high = refl; counted = refl; tiered = refl; recent = ground arith }),
  tt,
)

run_reputation-IsSound_example :
    IsSoundStore
      (run_reputation (event (pos 30) (codes "e") (codes "w") timed_out none [] none) one_worker)
run_reputation-IsSound_example =
    run_reputation-IsSound (event (pos 30) (codes "e") (codes "w") timed_out none [] none)
      one_worker one_worker-IsSound

can_take_job_earned_example :
    (leb_ℤ (pos 500000) (pos 100000) ≡ true)
    ⊎ ((r : ReputationRecord Twentieths) × (Dict.get (codes "w") one_worker ≡ some r)
        × (r.is_banned ≡ false)
        × (5 ≤ r.total_jobs)
        × pos 1000 ≼ r.score)
unfolding can_take_job within_tier max_job_price Dict.get text_beq
can_take_job_earned_example =
    can_take_job_earned (codes "w") (pos 500000) one_worker one_worker-IsSound refl
