-- ===== src/Reputation.antt =====
-- ai/reputation.py: records of reputation and their manager, over any floating-point type. The time
-- and the fresh event id are arguments.
mod Events
mod Bounded
mod Limits
mod Examples
use arche_blockchain.Prelude.{
  ℕ, suc, ◌+◌, ◌-◌, Bool, true, false, not, ◌&&◌, ◌||◌, Option, none, some, List, [], ◌∷◌, ◌++◌,
  length, drop, leb, ltb, Text, codes, ◌==◌, if◌then◌else◌, text_eq,
}
use arche_blockchain.Int.{ℤ, pos, ◌-ℤ◌, leb_ℤ}
use arche_blockchain.Dict
use arche_blockchain.Dict.{Dict, values}
use arche_blockchain.Float.{Float}

pub data Tier : Type 0 where
  probation : Tier
  standard : Tier
  trusted : Tier
  elite : Tier

-- `TIER_THRESHOLDS`
unfoldable pub min_score : Tier → ℤ
min_score probation = pos 0
min_score standard = pos 50
min_score trusted = pos 70
min_score elite = pos 90

unfoldable pub min_jobs : Tier → ℕ
min_jobs probation = 0
min_jobs standard = 5
min_jobs trusted = 20
min_jobs elite = 50

unfoldable pub max_job_price : Tier → Option ℤ
max_job_price probation = some (pos 100000)
max_job_price standard = some (pos 1000000)
max_job_price trusted = some (pos 10000000)
max_job_price elite = none

-- Whether a price is within what a tier may take.
unfoldable pub within_tier : Tier → ℤ → Bool
within_tier t price = elim (max_job_price t) [ none ↦ true | some most ↦ leb_ℤ price most ]

pub record ScoreEvent (W : Type 0) : Type 0 where
  event_id : Text
  address : Text
  event_type : Text
  delta : W
  score_before : W
  score_after : W
  job_id : Option Text
  timestamp : ℤ
  note : Text

pub record ReputationRecord (W : Type 0) : Type 0 where
  address : Text
  score : W
  total_jobs : ℕ
  successful_jobs : ℕ
  failed_jobs : ℕ
  disputed_jobs : ℕ
  timeouts : ℕ
  disputes_won : ℕ
  disputes_lost : ℕ
  created_at : ℤ
  updated_at : ℤ
  last_job_at : Option ℤ
  tier : Tier
  is_banned : Bool
  ban_reason : Text
  history : List (ScoreEvent W)

unfoldable pub max_history : ℕ
max_history = 100

-- The history with an event at its end, cut to the last `max_history`.
unfoldable pub append_event : {A : Type 0} → A → List A → List A
append_event event history =
    let longer = history ++ (event ∷ []) in
    if ltb max_history (length longer) then drop (length longer - max_history) longer else longer

module _ {W : Type 0} ⦃fl : Float W⦄ where
  unfoldable pub score_min : W
  score_min = fl.of_int (pos 0)

  unfoldable pub score_max : W
  score_max = fl.of_int (pos 100)

  unfoldable pub initial_score : W
  initial_score = fl.of_int (pos 60)

  unfoldable pub ban_threshold : W
  ban_threshold = fl.of_int (pos 10)

  unfoldable pub decay_per_day : W
  decay_per_day = fl.decimal 1 1

  -- `score >= t["min_score"] and total_jobs >= t["min_jobs"]`
  unfoldable pub reaches : W → ℕ → Tier → Bool
  reaches score total_jobs t = fl.le (fl.of_int (min_score t)) score && leb (min_jobs t) total_jobs

  unfoldable pub compute_tier : W → ℕ → Tier
  compute_tier score total_jobs =
      if reaches score total_jobs elite
      then elite
      else if reaches score total_jobs trusted
      then trusted
      else if reaches score total_jobs standard
      then standard
      else probation

  unfoldable pub new_record : ℤ → Text → ReputationRecord W
  new_record now address = record {
    address = address;
    score = initial_score;
    total_jobs = 0;
    successful_jobs = 0;
    failed_jobs = 0;
    disputed_jobs = 0;
    timeouts = 0;
    disputes_won = 0;
    disputes_lost = 0;
    created_at = now;
    updated_at = now;
    last_job_at = none;
    tier = probation;
    is_banned = false;
    ban_reason = [];
    history = [];
  }

  unfoldable pub get_or_create :
      ℤ
      → Text
      → Dict Text (ReputationRecord W)
      → Dict Text (ReputationRecord W) × ReputationRecord W
  get_or_create now address store = elim (Dict.get address store) [
    | some r ↦ (store, r)
    | none ↦ (Dict.put address (new_record now address) store, new_record now address)
  ]

  unfoldable pub unban :
      ℤ
      → Text
      → Dict Text (ReputationRecord W)
      → Dict Text (ReputationRecord W) × ReputationRecord W
  unban now address store =
      let found = get_or_create now address store in
      let r : ReputationRecord W = record found.1 {
        is_banned = false;
        ban_reason = [];
        score = initial_score;
        tier = compute_tier initial_score found.1.total_jobs;
        updated_at = now;
      } in
      (Dict.put r.address r found.0, r)

  unfoldable pub can_take_job : Text → ℤ → Dict Text (ReputationRecord W) → Bool
  can_take_job address job_price store = elim (Dict.get address store) [
    | none ↦ within_tier probation job_price
    | some r ↦ if r.is_banned then false else within_tier r.tier job_price
  ]

  unfoldable pub get_score : Text → Dict Text (ReputationRecord W) → W
  get_score address store = elim (Dict.get address store) [
    | none ↦ initial_score
    | some r ↦ r.score
  ]

  unfoldable pub get_tier : Text → Dict Text (ReputationRecord W) → Tier
  get_tier address store = elim (Dict.get address store) [ none ↦ probation | some r ↦ r.tier ]
