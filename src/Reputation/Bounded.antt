-- ===== src/Reputation/Bounded.antt =====
-- What every record of reputation satisfies, whatever calls of ai/reputation.py came before.
use arche_blockchain.Prelude.{
  ℕ, zero, suc, ◌+◌, ◌-◌, ◌≤◌, ◌≡◌, ◌⊎◌, refl, ◌∙◌, true, ◌&&◌, Option, some, List, [], ◌∷◌, ◌++◌,
  length, drop, leb, Text, All, Bool-cases, Option-cases, inl, inr, arith, text_eq,
}
use arche_blockchain.Int.{ℤ, pos}
use arche_blockchain.Dict
use arche_blockchain.Dict.{Dict, values}
use arche_blockchain.Dict.Entries.{All-put, All-get}
use arche_blockchain.Float.{
  Float, IsOrdered, ◌≼◌, min_float, max_float_lower, max_float_upper, min_float_upper,
}
use arche_blockchain.Reputation.{
  ReputationRecord, score_min, score_max, initial_score, max_history, append_event, compute_tier,
  new_record, ban_threshold, get_or_create, reaches, min_jobs,
}
use arche_blockchain.Reputation.Events.{
  EventType, count_event, clamp_score, check_ban, apply_event, find_decay, decayed, decay_all,
}

module _ {A : Type 0} where
  length-drop : (n : ℕ) (xs : List A) → length (drop n xs) ≡ length xs - n
  unfolding drop
  length-drop zero xs = ground arith
  length-drop (suc n) [] = ground arith
  length-drop (suc n) (x ∷ xs) = ground (arith, length-drop n xs)

  length-append_event : (x : A) (xs : List A) → length (append_event x xs) ≤ max_history
  unfolding append_event max_history
  length-append_event x xs =
      ground (arith, length-drop (length (xs ++ (x ∷ [])) - 100) (xs ++ (x ∷ [])))

module _ {W : Type 0} ⦃fl : Float W⦄ where
  -- The score is between 0 and 100, every job is counted as one of four kinds, the tier is that of
  -- the score and the jobs, and the history has at most 100 events.
  pub record IsSoundRecord (r : ReputationRecord W) : Type 0 where
    pub low : fl.of_int (pos 0) ≼ r.score
    pub high : r.score ≼ fl.of_int (pos 100)
    pub counted : r.total_jobs ≡ r.successful_jobs + r.failed_jobs + r.disputed_jobs + r.timeouts
    pub tiered : r.tier ≡ compute_tier r.score r.total_jobs
    pub recent : length r.history ≤ max_history

  abbrev pub IsSoundEntry : Text × ReputationRecord W → Type 0
  IsSoundEntry e = (e.0 ≡ e.1.address) × IsSoundRecord e.1

  abbrev pub IsSoundStore : Dict Text (ReputationRecord W) → Type 0
  IsSoundStore s = All IsSoundEntry s

  count_event_total :
      (now : ℤ) (e : EventType) (r : ReputationRecord W)
      → r.total_jobs ≡ r.successful_jobs + r.failed_jobs + r.disputed_jobs + r.timeouts
      → (count_event now e r).total_jobs
        ≡ (count_event now e r).successful_jobs
          + (count_event now e r).failed_jobs
          + (count_event now e r).disputed_jobs
          + (count_event now e r).timeouts
  unfolding count_event
  count_event_total now e r h = ground (arith, h)

  count_event_rest :
      (now : ℤ) (e : EventType) (r : ReputationRecord W)
      → ((count_event now e r).score ≡ r.score)
        × ((count_event now e r).address ≡ r.address)
        × ((count_event now e r).history ≡ r.history)
  unfolding count_event
  count_event_rest now e r = ground arith

  -- The verdict on a ban touches neither the score nor the counters.
  check_ban_rest :
      (r : ReputationRecord W)
      → (check_ban r ≡ r)
        ⊎ ((reason : Text) × (check_ban r ≡ record r { is_banned = true; ban_reason = reason }))
  unfolding check_ban
  check_ban_rest r = elim (Bool-cases (fl.le r.score ban_threshold && leb 3 r.timeouts)) [
    | inl low ↦ rw low (inr (_, refl))
    | inr high ↦ rw high (inl refl)
  ]

  module _ ⦃ord : IsOrdered W⦄ where
    clamp_low : (x : W) → fl.of_int (pos 0) ≼ clamp_score x
    unfolding clamp_score score_min
    clamp_low x = max_float_lower (fl.of_int (pos 0)) (min_float score_max x)

    clamp_high : (x : W) → clamp_score x ≼ fl.of_int (pos 100)
    unfolding clamp_score score_min score_max
    clamp_high x =
        max_float_upper (fl.of_int (pos 0)) (min_float score_max x) (fl.of_int (pos 100))
          (ord.of_int_mono (pos 0) (pos 100) refl) (min_float_upper (fl.of_int (pos 100)) x)

    pub new_record-IsSound : (now : ℤ) (address : Text) → IsSoundRecord (new_record now address)
    unfolding new_record initial_score compute_tier reaches min_jobs max_history
    new_record-IsSound now address = record {
      low = ord.of_int_mono _ _ refl;
      high = ord.of_int_mono _ _ refl;
      counted = refl;
      tiered = ground arith;
      recent = ground arith;
    }

    check_ban-IsSound :
        (r : ReputationRecord W)
        → IsSoundRecord r
        → IsSoundRecord (check_ban r) × ((check_ban r).address ≡ r.address)
    check_ban-IsSound r h = elim (check_ban_rest r) [
      | inl q ↦ rw q (h, refl)
      | inr (reason, q) ↦ rw q (
        record {
          low = h.low;
          high = h.high;
          counted = h.counted;
          tiered = h.tiered;
          recent = h.recent;
        },
        refl,
      )
    ]

    -- The record after the counters and the tier, with its new score.
    tier_event-IsSound :
        (now : ℤ) (e : EventType) (x : W) (r : ReputationRecord W)
        → IsSoundRecord r
        → IsSoundRecord record (count_event now e record r { score = clamp_score x }) {
          tier =
              compute_tier
                (count_event now e record r { score = clamp_score x }).score
                (count_event now e record r { score = clamp_score x }).total_jobs;
        }
    tier_event-IsSound now e x r h =
        let (p, q, t) = count_event_rest now e record r { score = clamp_score x } in
        record {
          low = rw p (clamp_low x);
          high = rw p (clamp_high x);
          counted = count_event_total now e record r { score = clamp_score x } h.counted;
          tiered = refl;
          recent = rw t h.recent;
        }

    pub apply_event-IsSound :
        (now : ℤ) (fresh address : Text) (e : EventType) (job : Option Text) (note : Text)
        (delta : W) (r : ReputationRecord W)
        → IsSoundRecord r
        → IsSoundRecord (apply_event now fresh address e job note delta r)
          × ((apply_event now fresh address e job note delta r).address ≡ r.address)
    unfolding apply_event
    apply_event-IsSound now fresh address e job note delta r h =
        let x = fl.add r.score delta in
        let (p, q, t) = count_event_rest now e record r { score = clamp_score x } in
        let (judged, own) = check_ban-IsSound _ (tier_event-IsSound now e x r h) in
        (
          record {
            low = judged.low;
            high = judged.high;
            counted = judged.counted;
            tiered = judged.tiered;
            recent = length-append_event _ _;
          },
          own ∙ q,
        )

    decayed-IsSound :
        (now : ℤ) (d : W) (r : ReputationRecord W)
        → fl.of_int (pos 0) ≼ d
        → IsSoundRecord r
        → IsSoundRecord (decayed now d r)
    unfolding decayed score_min
    decayed-IsSound now d r nonneg h = record {
      low = max_float_lower (fl.of_int (pos 0)) (fl.sub r.score d);
      high =
          max_float_upper (fl.of_int (pos 0)) (fl.sub r.score d) (fl.of_int (pos 100))
            (ord.of_int_mono (pos 0) (pos 100) refl)
            (ord.le_trans _ _ _ (ord.sub_le r.score d nonneg) h.high);
      counted = h.counted;
      tiered = refl;
      recent = h.recent;
    }

    -- What decays is not negative.
    find_decay_nonneg :
        (now : ℤ) (r : ReputationRecord W) (d : W)
        → find_decay now r ≡ some d
        → fl.of_int (pos 0) ≼ d
    unfolding find_decay
    find_decay_nonneg now r d found = elim (Option-cases r.last_job_at) [
      | inl idle ↦ ground (arith, idle, found)
      | inr (last, worked) ↦ ground (
        arith,
        worked,
        found,
        ord.lt-eq d (fl.decimal 1 1),
        ord.decimal_nonneg 1 1,
        ord.le_trans (fl.of_int (pos 0)) (fl.decimal 1 1) d,
      )
    ]

    pub put-IsSoundStore :
        (r : ReputationRecord W) (s : Dict Text (ReputationRecord W))
        → IsSoundRecord r
        → IsSoundStore s
        → IsSoundStore (Dict.put r.address r s)
    put-IsSoundStore r s h k = All-put IsSoundEntry r.address r s (refl, h) k

    pub get_or_create-IsSound :
        (now : ℤ) (address : Text) (s : Dict Text (ReputationRecord W))
        → IsSoundStore s
        → IsSoundStore (get_or_create now address s).0
          × IsSoundRecord (get_or_create now address s).1
    unfolding get_or_create new_record
    get_or_create-IsSound now address s h = elim (Option-cases (Dict.get address s)) [
      | inl missing ↦
          rw (get_or_create, missing)
            (
              put-IsSoundStore (new_record now address) s (new_record-IsSound now address) h,
              new_record-IsSound now address,
            )
      | inr (r, found) ↦ rw (get_or_create, found) (h, (All-get IsSoundEntry address r s found h).1)
    ]

    pub values-IsSound :
        (s : Dict Text (ReputationRecord W)) → IsSoundStore s → All IsSoundRecord (values s)
    values-IsSound [] h = tt
    values-IsSound ((k, r) ∷ s) ((own, sound), h) = (sound, values-IsSound s h)

    pub decay_all-IsSound :
        (now : ℤ) (rs : List (ReputationRecord W)) (s : Dict Text (ReputationRecord W))
        → All IsSoundRecord rs
        → IsSoundStore s
        → IsSoundStore (decay_all now rs s).0
    unfolding decay_all
    decay_all-IsSound now [] s hs h = h
    decay_all-IsSound now (r ∷ rs) s (hr, hs) h = elim (Option-cases (find_decay now r)) [
      | inl skip ↦ rw (decay_all, skip) (decay_all-IsSound now rs s hs h)
      | inr (d, due) ↦
          rw (decay_all, due)
            (decay_all-IsSound now rs (Dict.put r.address (decayed now d r) s) hs (
              unfold decayed in
              put-IsSoundStore (decayed now d r) s
                (decayed-IsSound now d r (find_decay_nonneg now r d due) hr) h))
    ]
