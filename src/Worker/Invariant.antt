-- ===== src/Worker/Invariant.antt =====
-- What every stored worker satisfies, whatever calls of the manager of ai/worker.py came before.
use arche_blockchain.Prelude.{
  ◌≡◌, refl, subst, Bool, true, false, not, ◌&&◌, ◌||◌, none, some, List, [], ◌∷◌, Text, All,
  Bool-cases, Option-cases, inl, inr, arith, text_eq, ◌==◌,
}
use arche_blockchain.Int.{ℤ, pos, leb_ℤ, +ℤ_parts}
use arche_blockchain.Dict.{values}
use arche_blockchain.Dict.Entries.{All-put}
use arche_blockchain.Float.{
  Float, IsOrdered, ◌≼◌, max_float_lower, max_float_upper, min_float_lower, min_float_upper,
}
use arche_blockchain.Job.{ComputeRequirement}
use arche_blockchain.Manager.{Outcome}
use arche_blockchain.Manager.Keeps.{Keeps, raise_if-Keeps, save-Keeps, with_entry-Keeps}
use arche_blockchain.Worker.{
  AiWorker, WorkerStatus, active, busy, inactive, WorkerStore, WorkerCapability, is_idle,
  is_inactive, is_available, get_by_address, heartbeat, deactivate, assign_job, update_reputation,
  new_worker, register, finish, complete_job,
}
use arche_blockchain.Worker.Search.{available, is_stale, find_each, find_suitable_workers, suits}

-- The calls of the manager, with the time and the fresh id each one reads.
pub data WorkerCall (W : Type 0) : Type 0 where
  enrol : ℤ → Text → Text → Text → Text → WorkerCapability W → ℤ → WorkerCall W
  beat : ℤ → Text → WorkerCall W
  leave : Text → WorkerCall W
  assign : Text → Text → WorkerCall W
  complete : Text → Bool → ℤ → WorkerCall W
  find : ℤ → ComputeRequirement → ℤ → W → WorkerCall W

unfoldable pub is_busy : WorkerStatus → Bool
is_busy busy = true
is_busy _ = false

module _ {W : Type 0} ⦃fl : Float W⦄ where
  -- The store after a call.
  unfoldable pub run_worker : WorkerCall W → WorkerStore W → WorkerStore W
  run_worker (enrol now id address key endpoint cap price) s =
      (register now id address key endpoint cap price s).0
  run_worker (beat now id) s = (heartbeat now id s).0
  run_worker (leave id) s = (deactivate id s).0
  run_worker (assign id job) s = (assign_job id job s).0
  run_worker (complete id success earned) s = (complete_job id success earned s).0
  run_worker (find now req price least) s = (find_suitable_workers now req price least s).0

  -- A busy worker has a job, its reputation is between 0 and 100, and its earnings are not negative.
  pub record IsSoundWorker (w : AiWorker W) : Type 0 where
    pub employed : not (is_busy w.status) || not (is_idle w.current_job) ≡ true
    pub low : fl.of_int (pos 0) ≼ w.reputation_score
    pub high : w.reputation_score ≼ fl.of_int (pos 100)
    pub earned : leb_ℤ (pos 0) w.total_earned ≡ true

  abbrev pub IsSoundEntry : Text × AiWorker W → Type 0
  IsSoundEntry e = (e.0 ≡ e.1.worker_id) × IsSoundWorker e.1

  abbrev pub IsSound : WorkerStore W → Type 0
  IsSound s = All IsSoundEntry s

  abbrev Kept : Outcome (AiWorker W) → Type 0
  Kept = Keeps IsSoundEntry

  get_by_address-IsSound :
      (address : Text) (w : AiWorker W) (s : WorkerStore W)
      → get_by_address address s ≡ some w
      → IsSound s
      → IsSoundWorker w
  unfolding get_by_address
  get_by_address-IsSound address w [] found h = ground arith
  get_by_address-IsSound address w ((k, v) ∷ s) found ((own, sound), h) =
      elim (Bool-cases (v.address == address)) [
        | inl here ↦ let q : v ≡ w = ground (arith, here, found) in subst IsSoundWorker q sound
        | inr there ↦ get_by_address-IsSound address w s (ground (arith, there, found)) h
      ]

  module _ ⦃ord : IsOrdered W⦄ where
    update_reputation-IsSound :
        (success : Bool) (w : AiWorker W)
        → IsSoundWorker w
        → IsSoundWorker (update_reputation success w)
    unfolding update_reputation
    update_reputation-IsSound true w h = record {
      employed = h.employed;
      low = min_float_lower _ _ (fl.of_int (pos 0)) (ord.of_int_mono (pos 0) (pos 100) refl) (
          ord.add_nonneg _ _ h.low
            (ord.mul_nonneg _ _ (ord.sub_nonneg _ _ h.high) (ord.decimal_nonneg 5 2)));
      high = min_float_upper (fl.of_int (pos 100)) _;
      earned = h.earned;
    }
    update_reputation-IsSound false w h = record {
      employed = h.employed;
      low = max_float_lower (fl.of_int (pos 0)) _;
      high =
          max_float_upper (fl.of_int (pos 0)) _ (fl.of_int (pos 100))
            (ord.of_int_mono (pos 0) (pos 100) refl)
            (ord.le_trans _ _ _ (ord.mul_le _ _ h.low (ord.decimal_le_one 85 2 (ground arith)))
              h.high);
      earned = h.earned;
    }

    finish-IsSound :
        (success : Bool) (earned : ℤ) (w : AiWorker W)
        → IsSoundWorker w
        → IsSoundWorker (finish success earned w)
    unfolding finish is_busy update_reputation
    finish-IsSound success earned w h =
        let free : IsSoundWorker record w { current_job = none; status = active } = record {
          employed = refl;
          low = h.low;
          high = h.high;
          earned = h.earned;
        } in
        paid success (update_reputation-IsSound success _ free)
      where
        paid :
            (b : Bool)
            → IsSoundWorker (update_reputation b record w { current_job = none; status = active })
            → IsSoundWorker (finish b earned w)
        paid true k = record {
          employed = refl;
          low = k.low;
          high = k.high;
          earned = ground (arith, h.earned, +ℤ_parts w.total_earned earned);
        }
        paid false k = record { employed = refl; low = k.low; high = k.high; earned = h.earned }

    finish_id :
        (success : Bool) (earned : ℤ) (w : AiWorker W)
        → w.worker_id ≡ (finish success earned w).worker_id
    unfolding finish update_reputation
    finish_id true earned w = refl
    finish_id false earned w = refl

    module _ (s : WorkerStore W) (h : IsSound s) where
      heartbeat-IsSound : (now : ℤ) (id : Text) → Kept (heartbeat now id s)
      unfolding heartbeat is_inactive is_busy
      heartbeat-IsSound now id = with_entry-Keeps IsSoundEntry s h id _ λ w (e, ok).
          save-Keeps IsSoundEntry s h _ _ (
            refl,
            record {
              employed = (ground (arith, ok.employed));
              low = ok.low;
              high = ok.high;
              earned = ok.earned;
            },
          )

      deactivate-IsSound : (id : Text) → Kept (deactivate id s)
      unfolding deactivate is_busy
      deactivate-IsSound id = with_entry-Keeps IsSoundEntry s h id _ λ w (e, ok).
          save-Keeps IsSoundEntry s h _ _
            (refl, record { employed = refl; low = ok.low; high = ok.high; earned = ok.earned })

      assign_job-IsSound : (id job : Text) → Kept (assign_job id job s)
      unfolding assign_job is_busy is_idle
      assign_job-IsSound id job = with_entry-Keeps IsSoundEntry s h id _ λ w (e, ok).
          raise_if-Keeps IsSoundEntry s h _ _ λ free.
            save-Keeps IsSoundEntry s h _ _
              (refl, record { employed = refl; low = ok.low; high = ok.high; earned = ok.earned })

      complete_job-IsSound :
          (id : Text) (success : Bool) (earned : ℤ) → Kept (complete_job id success earned s)
      unfolding complete_job
      complete_job-IsSound id success earned = with_entry-Keeps IsSoundEntry s h id _ λ w (e, ok).
          save-Keeps IsSoundEntry s h _ _
            (finish_id success earned w, finish-IsSound success earned w ok)

      register-IsSound :
          (now : ℤ) (id address key endpoint : Text) (cap : WorkerCapability W) (price : ℤ)
          → Kept (register now id address key endpoint cap price s)
      unfolding register new_worker is_busy
      register-IsSound now id address key endpoint cap price =
          elim (Option-cases (get_by_address address s)) [
            | inl new ↦
                rw (register, new)
                  (save-Keeps IsSoundEntry s h _ _ (
                    refl,
                    record {
                      employed = refl;
                      low = ord.of_int_mono (pos 0) (pos 100) refl;
                      high = ord.of_int_mono (pos 100) (pos 100) refl;
                      earned = refl;
                    },
                  ))
            | inr (w, found) ↦
                let ok = get_by_address-IsSound address w s found h in
                rw (register, found)
                  (save-Keeps IsSoundEntry s h _ _ (
                    refl,
                    record { employed = refl; low = ok.low; high = ok.high; earned = ok.earned },
                  ))
          ]

    available-IsSound : (s : WorkerStore W) → IsSound s → All IsSoundWorker (available (values s))
    unfolding available
    available-IsSound [] h = tt
    available-IsSound ((k, w) ∷ s) ((own, sound), h) = elim (Bool-cases (is_available w)) [
      | inl free ↦ rw free (sound, available-IsSound s h)
      | inr taken ↦ rw taken (available-IsSound s h)
    ]

    find_each-IsSound :
        (now : ℤ) (suitable : AiWorker W → Bool) (ws : List (AiWorker W)) (s : WorkerStore W)
        → All IsSoundWorker ws
        → IsSound s
        → IsSound (find_each now suitable ws s).0
    unfolding find_each is_busy
    find_each-IsSound now suitable [] s hs h = h
    find_each-IsSound now suitable (w ∷ ws) s (ok, hs) h =
        elim (Bool-cases (suitable w && is_stale now w)) [
          | inl stale ↦ rw stale (
              find_each-IsSound now suitable ws _ hs (
                All-put IsSoundEntry w.worker_id record w { status = inactive } s
                  (
                    refl,
                    record { employed = refl; low = ok.low; high = ok.high; earned = ok.earned },
                  )
                  h))
          | inr fresh ↦ rw fresh (find_each-IsSound now suitable ws s hs h)
        ]

    -- From a sound store, every call of the worker manager, refused ones included, leads to a sound
    -- store: each worker stands under its own id, a busy one has a job, its reputation is between 0
    -- and 100, and its earnings are not negative. The floating-point numbers satisfy the laws of
    -- IsOrdered.
    pub run_worker-IsSound :
        (c : WorkerCall W) (s : WorkerStore W) → IsSound s → IsSound (run_worker c s)
    unfolding run_worker Keeps find_suitable_workers
    run_worker-IsSound (enrol now id address key endpoint cap price) s h =
        register-IsSound s h now id address key endpoint cap price
    run_worker-IsSound (beat now id) s h = heartbeat-IsSound s h now id
    run_worker-IsSound (leave id) s h = deactivate-IsSound s h id
    run_worker-IsSound (assign id job) s h = assign_job-IsSound s h id job
    run_worker-IsSound (complete id success earned) s h = complete_job-IsSound s h id success earned
    run_worker-IsSound (find now req price least) s h =
        find_each-IsSound now (suits req price least) (available (values s)) s
          (available-IsSound s h) h
