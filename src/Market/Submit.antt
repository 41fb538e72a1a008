-- ===== src/Market/Submit.antt =====
-- What submit_job (ai/marketplace.py) does with the stores of models, workers and jobs.
use arche_blockchain.Prelude.{
  ◌≡◌, ◌⊎◌, refl, subst, true, false, Option, none, some, List, [], ◌∷◌, Text, All, Option-cases,
  inl, inr, arith, text_eq, ==_refl,
}
use arche_blockchain.Int.{ℤ, pos, leb_ℤ, ◌+ℤ◌}
use arche_blockchain.Dict
use arche_blockchain.Dict.{Dict, get-put}
use arche_blockchain.Dict.Keys.{All-found}
use arche_blockchain.Float.{Float}
use arche_blockchain.Job.{AiJob, pending, assigned, is_hash}
use arche_blockchain.Job.Fresh.{IsNew, taken_job, assign_job_new, create-IsNew}
use arche_blockchain.Model.{AiModel}
use arche_blockchain.Worker.{AiWorker, WorkerStore, busy, is_available, get_by_address}
use arche_blockchain.Worker.Search.{find_suitable_workers}
use arche_blockchain.Worker.Found.{
  IsFiled, IsReady, hired_worker, assign_ready, get_by_address-IsReady,
  find_suitable_workers-IsReady,
}
use arche_blockchain.Market.{
  Marketplace, min_ℤ, given, first, find_preferred, choose_worker, hire, place, submit_job,
}

-- A worker is busy with the job, which is assigned to its address at a price within the maximum.
pub record IsHired {W : Type 0} (id : Text) (max_price : ℤ) (m : Marketplace W) (job : AiJob)
    : Type 0 where
  pub worker : AiWorker W
  pub price : ℤ
  pub in_store : Dict.get worker.worker_id m.workers ≡ some worker
  pub is_busy : worker.status ≡ busy
  pub works_on : worker.current_job ≡ some id
  pub job_taken : job.status ≡ assigned
  pub job_worker : job.assigned_worker ≡ some worker.address
  pub job_price : job.agreed_price ≡ some price
  pub affordable : leb_ℤ price max_price ≡ true

-- The job is in the store and returned; it waits without a worker, or a worker is hired for it.
abbrev pub IsPlaced : {W : Type 0} → Text → ℤ → Marketplace W × Option AiJob → Type 0
IsPlaced id max_price o =
    (job : AiJob) × (o.1 ≡ some job)
    × (Dict.get id o.0.jobs ≡ some job)
    × (((job.status ≡ pending) × (job.assigned_worker ≡ none)) ⊎ IsHired id max_price o.0 job)

min_ℤ_le : (a b : ℤ) → leb_ℤ (min_ℤ a b) b ≡ true
unfolding min_ℤ
min_ℤ_le a b = ground arith

module _ {W : Type 0} ⦃fl : Float W⦄ where
  first-All :
      (s : WorkerStore W) (w : AiWorker W) (ws : List (AiWorker W))
      → All (IsReady s) ws
      → first ws ≡ some w
      → IsReady s w
  unfolding first
  first-All s w [] h p = ground (arith, p)
  first-All s w (v ∷ ws) (ready, h) p =
      let q : v ≡ w = ground (arith, p) in subst (IsReady s) q ready

  pub find_preferred-IsReady :
      (preferred : Option Text) (model : AiModel) (s : WorkerStore W) (w : AiWorker W)
      → IsFiled s
      → find_preferred preferred model s ≡ some w
      → IsReady s w
  unfolding find_preferred given
  find_preferred-IsReady none model s w filed found = ground (arith, found)
  find_preferred-IsReady (some address) model s w filed found =
      elim (Option-cases (get_by_address address s)) [
        | inl missing ↦ ground (arith, missing, found)
        | inr (v, here) ↦
            let q : v ≡ w = ground (arith, here, found) in
            let free : is_available v ≡ true = ground (arith, here, found) in
            subst (IsReady s) q
              (get_by_address-IsReady s address v s filed.own (All-found s filed.unique) here free)
      ]

  choose_worker-IsReady :
      (now : ℤ) (preferred : Option Text) (model : AiModel) (max_price : ℤ) (s : WorkerStore W)
      (w : AiWorker W)
      → IsFiled s
      → (choose_worker now preferred model max_price s).1 ≡ some w
      → IsReady (choose_worker now preferred model max_price s).0 w
  unfolding choose_worker
  choose_worker-IsReady now preferred model max_price s w filed chosen =
      elim (Option-cases (find_preferred preferred model s)) [
        | inl nobody ↦
            let q : first
                  (find_suitable_workers now model.requirements max_price (fl.of_int (pos 0)) s).1
                ≡ some w =
              ground (arith, nobody, chosen) in
            rw (choose_worker, nobody)
              (first-All _ w _
                (find_suitable_workers-IsReady now model.requirements max_price (fl.of_int (pos 0))
                  s filed)
                q)
        | inr (v, found) ↦
            let q : v ≡ w = ground (arith, found, chosen) in
            rw (choose_worker, found)
              (subst (IsReady s) q (find_preferred-IsReady preferred model s v filed found))
      ]

  hire-IsPlaced :
      (now : ℤ) (id : Text) (model : AiModel) (max_price : ℤ) (w : AiWorker W) (m : Marketplace W)
      (job : AiJob)
      → IsNew now id max_price m.jobs job
      → IsReady m.workers w
      → ((hire now id model max_price w m).1 ≡ false)
        × ((job' : AiJob) × (Dict.get id (hire now id model max_price w m).0.jobs ≡ some job')
            × IsHired id max_price (hire now id model max_price w m).0 job')
  unfolding hire
  hire-IsPlaced now id model max_price w m job new ready =
      let price = min_ℤ (w.price_per_job +ℤ model.price_per_call) max_price in
      let within = min_ℤ_le (w.price_per_job +ℤ model.price_per_call) max_price in
      let taken = assign_job_new now id w.address price max_price m.jobs job new within in
      let hired = assign_ready id w m.workers ready in
      rw (hire, taken, hired)
        (
          refl,
          (
            taken_job now w.address price job,
            (rw (taken, get-put id id (taken_job now w.address price job) m.jobs, ==_refl id) refl),
            record {
              worker = hired_worker id w;
              price = price;
              in_store =
                  rw
                    (
                      get-put w.worker_id w.worker_id (hired_worker id w) m.workers,
                      ==_refl w.worker_id,
                    )
                    refl;
              is_busy = refl;
              works_on = refl;
              job_taken = refl;
              job_worker = refl;
              job_price = refl;
              affordable = within;
            },
          ),
        )

  place-IsPlaced :
      (now : ℤ) (id : Text) (model : AiModel) (max_price : ℤ) (preferred : Option Text)
      (m : Marketplace W) (job : AiJob)
      → IsNew now id max_price m.jobs job
      → IsFiled m.workers
      → IsPlaced id max_price (place now id model max_price preferred m)
  unfolding place
  place-IsPlaced now id model max_price preferred m job new filed =
      elim (Option-cases (choose_worker now preferred model max_price m.workers).1) [
        | inl nobody ↦
            rw (place, nobody) (job, new.stored, new.stored, inl (new.waits, new.unassigned))
        | inr (w, chosen) ↦
            let ready =
              choose_worker-IsReady now preferred model max_price m.workers w filed chosen in
            let (kept, (job', stored, hired)) =
              hire-IsPlaced now id model max_price w
                record m { workers = (choose_worker now preferred model max_price m.workers).0 } job
                new ready in
            rw (place, chosen, kept) (job', stored, stored, inr hired)
      ]

  -- A job for an active model, with a positive maximum price, a deadline that is not over and a
  -- 64-digit input hash, is never refused: it is stored and returned, and either waits without a
  -- worker, or one worker of the store is busy with it, is the one it is assigned to, and is paid at
  -- most the maximum. Every worker stands once in the store, under its own id.
  pub submit_job-IsPlaced :
      (now : ℤ) (fresh requester model_id input_hash input_reference : Text)
      (max_price deadline : ℤ) (preferred : Option Text) (model : AiModel) (m : Marketplace W)
      → Dict.get model_id m.models ≡ some model
      → model.is_active ≡ true
      → leb_ℤ max_price (pos 0) ≡ false
      → leb_ℤ deadline now ≡ false
      → is_hash input_hash ≡ true
      → IsFiled m.workers
      → IsPlaced fresh max_price (
          submit_job now fresh requester model_id input_hash input_reference max_price deadline
            preferred m)
  unfolding submit_job
  submit_job-IsPlaced now fresh requester model_id input_hash input_reference max_price deadline
        preferred model m found offered paid open_yet hashed filed =
      let (job, created, new) =
        create-IsNew now fresh requester model_id input_hash input_reference model.requirements
          max_price deadline m.jobs paid open_yet hashed in
      rw (submit_job, found, offered, created, new.own)
        (place-IsPlaced now fresh model max_price preferred _ job new filed)
