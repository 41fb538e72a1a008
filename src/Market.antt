-- ===== src/Market.antt =====
-- ai/marketplace.py: AIMarketplace over the stores of models, workers and jobs. The time and the
-- fresh job id are arguments.
mod Submit
mod Underpaid
mod Examples
use arche_blockchain.Prelude.{
  Bool, true, false, not, ◌&&◌, Option, none, some, List, [], ◌∷◌, length, leb, Text, ◌==◌,
  if◌then◌else◌, text_eq,
}
use arche_blockchain.Prelude.Sort.{sort_by}
use arche_blockchain.Int.{ℤ, pos, ◌+ℤ◌, ltb_ℤ}
use arche_blockchain.Dict
use arche_blockchain.Float.{Float, float_beq}
use arche_blockchain.Job.{AiJob, JobStore, create_job}
use arche_blockchain.Job
use arche_blockchain.Model.{AiModel, ModelStore}
use arche_blockchain.Worker
use arche_blockchain.Worker.{AiWorker, WorkerStore, is_available, can_handle, get_by_address}
use arche_blockchain.Worker.Search.{find_suitable_workers}

-- The three managers' stores.
pub record Marketplace (W : Type 0) : Type 0 where
  pub models : ModelStore
  pub workers : WorkerStore W
  pub jobs : JobStore

pub record JobQuote (W : Type 0) : Type 0 where
  pub worker : AiWorker W
  pub model : AiModel
  pub price : ℤ
  pub reputation_score : W

-- `min(a, b)`
unfoldable pub min_ℤ : ℤ → ℤ → ℤ
min_ℤ a b = if ltb_ℤ b a then b else a

-- `if text:`, of an optional text, with the rest of the expression
unfoldable pub given : {A : Type 0} → Option Text → (Text → Option A) → Option A
given none rest = none
given (some t) rest = if leb 1 (length t) then rest t else none

unfoldable pub first : {A : Type 0} → List A → Option A
first [] = none
first (x ∷ xs) = some x

module _ {W : Type 0} ⦃fl : Float W⦄ where
  -- The quotes of the workers whose total price is within the maximum.
  unfoldable pub quote_all : AiModel → ℤ → List (AiWorker W) → List (JobQuote W)
  quote_all model max_price [] = []
  quote_all model max_price (w ∷ ws) =
      let rest = quote_all model max_price ws in
      let total_price = w.price_per_job +ℤ model.price_per_call in
      if ltb_ℤ max_price total_price
      then rest
      else record {
        worker = w;
        model = model;
        price = total_price;
        reputation_score = w.reputation_score;
      }
        ∷ rest

  unfoldable pub quote_before : JobQuote W → JobQuote W → Bool
  quote_before a b =
      if float_beq a.reputation_score b.reputation_score
      then ltb_ℤ a.price b.price
      else fl.lt b.reputation_score a.reputation_score

  -- An unknown model raises.
  unfoldable pub get_quotes :
      ℤ → Text → ℤ → W → Marketplace W → Marketplace W × Option (List (JobQuote W))
  get_quotes now model_id max_price min_reputation m = elim (Dict.get model_id m.models) [
    | none ↦ (m, none)
    | some model ↦
        let found =
          find_suitable_workers now model.requirements max_price min_reputation m.workers in
        (
          record m { workers = found.0 },
          some (sort_by quote_before (quote_all model max_price found.1)),
        )
  ]

  -- The preferred worker, if there is one that is free and able.
  unfoldable pub find_preferred : Option Text → AiModel → WorkerStore W → Option (AiWorker W)
  find_preferred preferred_worker model workers = given preferred_worker λ address.
      elim (get_by_address address workers) [
        | none ↦ none
        | some w ↦ if is_available w && can_handle w model.requirements then some w else none
      ]

  -- The worker for a job: the preferred one, or else the best of the suitable ones.
  unfoldable pub choose_worker :
      ℤ → Option Text → AiModel → ℤ → WorkerStore W → WorkerStore W × Option (AiWorker W)
  choose_worker now preferred_worker model max_price workers =
      elim (find_preferred preferred_worker model workers) [
        | some w ↦ (workers, some w)
        | none ↦
            let found =
              find_suitable_workers now model.requirements max_price (fl.of_int (pos 0)) workers in
            (found.0, first found.1)
      ]

  -- The rest of `submit_job` for a worker. The flag tells whether it raises.
  unfoldable pub hire : ℤ → Text → AiModel → ℤ → AiWorker W → Marketplace W → Marketplace W × Bool
  hire now job_id model max_price w m =
      let agreed_price = min_ℤ (w.price_per_job +ℤ model.price_per_call) max_price in
      let (jobs, taken) = Job.assign_job now job_id w.address agreed_price m.jobs in
      elim taken [
        | none ↦ (record m { jobs = jobs }, true)
        | some job ↦
            let (workers, hired) = Worker.assign_job w.worker_id job_id m.workers in
            (
              record m { jobs = jobs; workers = workers },
              (elim hired [ none ↦ true | some w' ↦ false ]),
            )
      ]

  -- The rest of `submit_job` once the job is stored.
  unfoldable pub place :
      ℤ → Text → AiModel → ℤ → Option Text → Marketplace W → Marketplace W × Option AiJob
  place now job_id model max_price preferred_worker m =
      let (workers, chosen) = choose_worker now preferred_worker model max_price m.workers in
      let searched : Marketplace W = record m { workers = workers } in
      elim chosen [
        | none ↦ (searched, Dict.get job_id searched.jobs)
        | some w ↦
            let (placed, raised) = hire now job_id model max_price w searched in
            (placed, if raised then none else Dict.get job_id placed.jobs)
      ]

  unfoldable pub submit_job :
      ℤ
      → Text
      → Text
      → Text
      → Text
      → Text
      → ℤ
      → ℤ
      → Option Text
      → Marketplace W
      → Marketplace W × Option AiJob
  submit_job now fresh requester model_id input_hash input_reference max_price deadline
        preferred_worker m =
      elim (Dict.get model_id m.models) [
        | none ↦ (m, none)
        | some model ↦
            if not model.is_active
            then (m, none)
            else (let (jobs, created) =
                  create_job now fresh requester model_id input_hash input_reference
                    model.requirements max_price deadline m.jobs in
                elim created [
                  | none ↦ (record m { jobs = jobs }, none)
                  | some job ↦
                      place now job.job_id model max_price preferred_worker record m { jobs = jobs }
                ])
      ]
