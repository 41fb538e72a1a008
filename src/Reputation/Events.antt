-- ===== src/Reputation/Events.antt =====
-- ai/reputation.py: record_event, the score and the counters after an event, and apply_decay.
use arche_blockchain.Prelude.{
  ℕ, suc, true, ◌&&◌, ◌||◌, Option, none, some, List, [], ◌∷◌, ◌++◌, leb, Text, codes,
  if◌then◌else◌, text_eq,
}
use arche_blockchain.Int.{ℤ, pos, ◌-ℤ◌}
use arche_blockchain.Dict
use arche_blockchain.Dict.{Dict, values}
use arche_blockchain.Encoding.{str}
use arche_blockchain.Float.{Float, max_float, min_float}
use arche_blockchain.Reputation.{
  ReputationRecord, append_event, score_min, score_max, ban_threshold, decay_per_day, compute_tier,
  get_or_create,
}

-- `EventType`
pub data EventType : Type 0 where
  job_success : EventType
  job_failed : EventType
  job_disputed : EventType
  dispute_won : EventType
  dispute_lost : EventType
  challenge_upheld : EventType
  challenge_dismissed : EventType
  fast_response : EventType
  late_response : EventType
  timed_out : EventType
  uptime_bonus : EventType
  -- any other text
  unknown : Text → EventType

unfoldable pub event_text : EventType → Text
event_text job_success = codes "JOB_SUCCESS"
event_text job_failed = codes "JOB_FAILED"
event_text job_disputed = codes "JOB_DISPUTED"
event_text dispute_won = codes "DISPUTE_WON"
event_text dispute_lost = codes "DISPUTE_LOST"
event_text challenge_upheld = codes "CHALLENGE_UPHELD"
event_text challenge_dismissed = codes "CHALLENGE_DISMISSED"
event_text fast_response = codes "FAST_RESPONSE"
event_text late_response = codes "LATE_RESPONSE"
event_text timed_out = codes "TIMEOUT"
event_text uptime_bonus = codes "UPTIME_BONUS"
event_text (unknown t) = t

-- -(n), of a literal n that is not 0
abbrev minus : ℕ → ℤ
minus n = pos 0 -ℤ pos n

module _ {W : Type 0} ⦃fl : Float W⦄ where
  unfoldable pub score_delta : EventType → W
  score_delta job_success = fl.of_int (pos 5)
  score_delta job_failed = fl.of_int (minus 10)
  score_delta job_disputed = fl.of_int (minus 8)
  score_delta dispute_won = fl.of_int (pos 3)
  score_delta dispute_lost = fl.of_int (minus 15)
  score_delta challenge_upheld = fl.of_int (minus 20)
  score_delta challenge_dismissed = fl.of_int (pos 2)
  score_delta fast_response = fl.of_int (pos 1)
  score_delta late_response = fl.of_int (minus 2)
  score_delta timed_out = fl.of_int (minus 25)
  score_delta uptime_bonus = fl.decimal 5 1
  score_delta (unknown t) = fl.of_int (pos 0)

  unfoldable pub count_event : ℤ → EventType → ReputationRecord W → ReputationRecord W
  count_event now job_success r = record r {
    successful_jobs = suc r.successful_jobs;
    total_jobs = suc r.total_jobs;
    last_job_at = some now;
  }
  count_event now job_failed r = record r {
    failed_jobs = suc r.failed_jobs;
    total_jobs = suc r.total_jobs;
  }
  count_event now job_disputed r = record r {
    disputed_jobs = suc r.disputed_jobs;
    total_jobs = suc r.total_jobs;
  }
  count_event now timed_out r = record r {
    timeouts = suc r.timeouts;
    total_jobs = suc r.total_jobs;
  }
  count_event now dispute_won r = record r { disputes_won = suc r.disputes_won }
  count_event now dispute_lost r = record r { disputes_lost = suc r.disputes_lost }
  count_event now _ r = r

  -- `max(SCORE_MIN, min(SCORE_MAX, rec.score + delta))`
  unfoldable pub clamp_score : W → W
  clamp_score x = max_float score_min (min_float score_max x)

  -- The ban of a low score with three timeouts.
  unfoldable pub check_ban : ReputationRecord W → ReputationRecord W
  check_ban r =
      if fl.le r.score ban_threshold && leb 3 r.timeouts
      then record r {
        is_banned = true;
        ban_reason =
            codes "Score "
            ++ fl.format_1f r.score
            ++ codes " with "
            ++ str r.timeouts
            ++ codes " timeouts";
      }
      else r

  -- What an event does to a record that is not banned.
  unfoldable pub apply_event :
      ℤ → Text → Text → EventType → Option Text → Text → W → ReputationRecord W → ReputationRecord W
  apply_event now fresh address event_type job_id note delta r =
      let counted =
        count_event now event_type record r { score = clamp_score (fl.add r.score delta) } in
      let tiered : ReputationRecord W = record counted {
        tier = compute_tier counted.score counted.total_jobs;
      } in
      let judged = check_ban tiered in
      record judged {
        history =
            append_event
              record {
                event_id = fresh;
                address = address;
                event_type = event_text event_type;
                delta = delta;
                score_before = r.score;
                score_after = judged.score;
                job_id = job_id;
                timestamp = now;
                note = note;
              }
              judged.history;
        updated_at = now;
      }

  unfoldable pub record_event :
      ℤ
      → Text
      → Text
      → EventType
      → Option Text
      → Text
      → Option W
      → Dict Text (ReputationRecord W)
      → Dict Text (ReputationRecord W) × ReputationRecord W
  record_event now fresh address event_type job_id note custom_delta store =
      let found = get_or_create now address store in
      let delta : W = elim custom_delta [ none ↦ score_delta event_type | some d ↦ d ] in
      let r = apply_event now fresh address event_type job_id note delta found.1 in
      if found.1.is_banned then found else (Dict.put r.address r found.0, r)

  -- The decay of a record, or `none` where the loop continues.
  unfoldable pub find_decay : ℤ → ReputationRecord W → Option W
  find_decay now r = elim r.last_job_at [
    | none ↦ none
    | some last ↦
        let days_inactive = fl.quot (now -ℤ last) 86400 in
        let decay = fl.mul decay_per_day days_inactive in
        if r.is_banned || fl.lt days_inactive (fl.of_int (pos 1)) || fl.lt decay (fl.decimal 1 1)
        then none
        else some decay
  ]

  unfoldable pub decayed : ℤ → W → ReputationRecord W → ReputationRecord W
  decayed now decay r =
      let score = max_float score_min (fl.sub r.score decay) in
      record r { score = score; tier = compute_tier score r.total_jobs; updated_at = now }

  -- The loop of `apply_decay` over the records as they were before it.
  unfoldable pub decay_all :
      ℤ
      → List (ReputationRecord W)
      → Dict Text (ReputationRecord W)
      → Dict Text (ReputationRecord W) × List Text
  decay_all now [] store = (store, [])
  decay_all now (r ∷ rs) store = elim (find_decay now r) [
    | none ↦ decay_all now rs store
    | some decay ↦
        let rest = decay_all now rs (Dict.put r.address (decayed now decay r) store) in
        (rest.0, r.address ∷ rest.1)
  ]

  unfoldable pub apply_decay :
      ℤ → Dict Text (ReputationRecord W) → Dict Text (ReputationRecord W) × List Text
  apply_decay now store = decay_all now (values store) store
