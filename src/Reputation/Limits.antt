-- ===== src/Reputation/Limits.antt =====
-- The calls of the reputation manager of ai/reputation.py: what every one keeps, and which jobs an
-- address may take then.
use arche_blockchain.Prelude.{
  ℕ, ◌≤◌, ◌≡◌, ◌⊎◌, refl, true, false, Option, some, Text, Bool-cases, Option-cases, inl, inr,
  arith, text_eq,
}
use arche_blockchain.Int.{ℤ, pos, leb_ℤ}
use arche_blockchain.Dict
use arche_blockchain.Dict.{Dict, values}
use arche_blockchain.Dict.Entries.{All-get}
use arche_blockchain.Float.{Float, IsOrdered, ◌≼◌}
use arche_blockchain.Reputation.{
  ReputationRecord, probation, get_or_create, unban, can_take_job, within_tier, max_job_price,
  compute_tier, reaches, min_jobs, min_score, initial_score,
}
use arche_blockchain.Reputation.Events.{EventType, record_event, apply_decay}
use arche_blockchain.Reputation.Bounded.{
  IsSoundEntry, IsSoundStore, apply_event-IsSound, put-IsSoundStore, get_or_create-IsSound,
  values-IsSound, decay_all-IsSound,
}

-- The calls that write, with the time and the fresh id each one reads.
pub data ReputationCall (W : Type 0) : Type 0 where
  create : ℤ → Text → ReputationCall W
  event : ℤ → Text → Text → EventType → Option Text → Text → Option W → ReputationCall W
  decay : ℤ → ReputationCall W
  pardon : ℤ → Text → ReputationCall W

module _ {W : Type 0} ⦃fl : Float W⦄ where
  -- The store after a call.
  unfoldable pub run_reputation :
      ReputationCall W → Dict Text (ReputationRecord W) → Dict Text (ReputationRecord W)
  run_reputation (create now address) s = (get_or_create now address s).0
  run_reputation (event now id address e job note custom) s =
      (record_event now id address e job note custom s).0
  run_reputation (decay now) s = (apply_decay now s).0
  run_reputation (pardon now address) s = (unban now address s).0

  module _ ⦃ord : IsOrdered W⦄ where
    record_event-IsSound :
        (now : ℤ) (id address : Text) (e : EventType) (job : Option Text) (note : Text)
        (custom : Option W) (s : Dict Text (ReputationRecord W))
        → IsSoundStore s
        → IsSoundStore (record_event now id address e job note custom s).0
    unfolding record_event
    record_event-IsSound now id address e job note custom s h =
        let (kept, sound) = get_or_create-IsSound now address s h in
        elim (Bool-cases (get_or_create now address s).1.is_banned) [
          | inl banned ↦ rw (record_event, banned) kept
          | inr free ↦
              rw (record_event, free)
                (put-IsSoundStore _ _ (apply_event-IsSound now id address e job note _ _ sound).0
                  kept)
        ]

    unban-IsSound :
        (now : ℤ) (address : Text) (s : Dict Text (ReputationRecord W))
        → IsSoundStore s
        → IsSoundStore (unban now address s).0
    unfolding unban initial_score
    unban-IsSound now address s h =
        let (kept, sound) = get_or_create-IsSound now address s h in
        put-IsSoundStore _ _
          (record {
            low = ord.of_int_mono (pos 0) (pos 60) refl;
            high = ord.of_int_mono (pos 60) (pos 100) refl;
            counted = sound.counted;
            tiered = refl;
            recent = sound.recent;
          })
          kept

    -- From a sound store, every call of the reputation manager leads to a sound one: each record
    -- stands under its address, its score is between 0 and 100, its jobs are the successful, failed,
    -- disputed and timed out ones, its tier is that of its score and jobs, and its history has at
    -- most 100 events. The floating-point numbers satisfy the laws of IsOrdered.
    pub run_reputation-IsSound :
        (call : ReputationCall W) (s : Dict Text (ReputationRecord W))
        → IsSoundStore s
        → IsSoundStore (run_reputation call s)
    unfolding run_reputation apply_decay
    run_reputation-IsSound (create now address) s h = (get_or_create-IsSound now address s h).0
    run_reputation-IsSound (event now id address e job note custom) s h =
        record_event-IsSound now id address e job note custom s h
    run_reputation-IsSound (decay now) s h =
        decay_all-IsSound now (values s) s (values-IsSound s h) h
    run_reputation-IsSound (pardon now address) s h = unban-IsSound now address s h

    -- A tier above probation takes five jobs and a score of 50.
    tier_earned :
        (score : W) (jobs : ℕ)
        → (compute_tier score jobs ≡ probation) ⊎ ((5 ≤ jobs) × fl.of_int (pos 50) ≼ score)
    unfolding compute_tier reaches min_score min_jobs
    tier_earned score jobs = ground (
      arith,
      ord.le_trans (fl.of_int (pos 50)) (fl.of_int (pos 70)) score,
      ord.le_trans (fl.of_int (pos 50)) (fl.of_int (pos 90)) score,
      ord.of_int_mono (pos 50) (pos 70) refl,
      ord.of_int_mono (pos 50) (pos 90) refl,
    )

    -- In a sound store, an address may take a job only if the price is at most 100000, or if it is
    -- not banned and has at least five jobs and a score of at least 50. The floating-point numbers
    -- satisfy the laws of IsOrdered.
    pub can_take_job_earned :
        (address : Text) (price : ℤ) (s : Dict Text (ReputationRecord W))
        → IsSoundStore s
        → can_take_job address price s ≡ true
        → (leb_ℤ price (pos 100000) ≡ true)
          ⊎ ((r : ReputationRecord W) × (Dict.get address s ≡ some r)
              × (r.is_banned ≡ false)
              × (5 ≤ r.total_jobs)
              × fl.of_int (pos 50) ≼ r.score)
    unfolding can_take_job within_tier max_job_price
    can_take_job_earned address price s h able = elim (Option-cases (Dict.get address s)) [
      | inl new ↦ inl (ground (arith, new, able))
      | inr (r, found) ↦ elim (tier_earned r.score r.total_jobs) [
        | inl low ↦
            inl (
              ground (arith, found, able, low, (All-get IsSoundEntry address r s found h).1.tiered))
        | inr (jobs, score) ↦ inr (r, found, (ground (arith, found, able)), jobs, score)
      ]
    ]
