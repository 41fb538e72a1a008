-- ===== src/Market/Underpaid.antt =====
-- submit_job (ai/marketplace.py) with a preferred worker that asks for more than the maximum.
use arche_blockchain.Prelude.{
  ◌≡◌, refl, true, false, some, Text, length, leb, arith, text_eq, ==_refl,
}
use arche_blockchain.Int.{ℤ, pos, leb_ℤ, ltb_ℤ, ◌+ℤ◌}
use arche_blockchain.Dict
use arche_blockchain.Dict.{get-put}
use arche_blockchain.Float.{Float}
use arche_blockchain.Job
use arche_blockchain.Job.{AiJob, is_hash}
use arche_blockchain.Job.Fresh.{IsNew, taken_job, assign_job_new, create-IsNew}
use arche_blockchain.Model.{AiModel}
use arche_blockchain.Worker.{AiWorker, WorkerStore, is_available, can_handle, get_by_address}
use arche_blockchain.Worker.Found.{IsFiled, IsReady, assign_ready}
use arche_blockchain.Market.{
  Marketplace, min_ℤ, given, find_preferred, choose_worker, hire, place, submit_job,
}
use arche_blockchain.Market.Submit.{find_preferred-IsReady}

cap_price : (a b : ℤ) → ltb_ℤ b a ≡ true → min_ℤ a b ≡ b
unfolding min_ℤ
cap_price a b dear = rw dear refl

module _ {W : Type 0} ⦃fl : Float W⦄ where
  find_preferred_lem :
      (address : Text) (model : AiModel) (w : AiWorker W) (s : WorkerStore W)
      → leb 1 (length address) ≡ true
      → get_by_address address s ≡ some w
      → is_available w ≡ true
      → can_handle w model.requirements ≡ true
      → find_preferred (some address) model s ≡ some w
  unfolding find_preferred given
  find_preferred_lem address model w s named found free able =
      rw (find_preferred, given, named, found, free, able) refl

  hire_price :
      (now : ℤ) (id : Text) (model : AiModel) (max_price : ℤ) (w : AiWorker W) (m : Marketplace W)
      (job : AiJob)
      → IsNew now id max_price m.jobs job
      → IsReady m.workers w
      → ltb_ℤ max_price (w.price_per_job +ℤ model.price_per_call) ≡ true
      → ((hire now id model max_price w m).1 ≡ false)
        × (Dict.get id (hire now id model max_price w m).0.jobs
            ≡ some (taken_job now w.address max_price job))
  unfolding hire
  hire_price now id model max_price w m job new ready dear =
      let cap = cap_price (w.price_per_job +ℤ model.price_per_call) max_price dear in
      let taken =
        assign_job_new now id w.address max_price max_price m.jobs job new (ground arith) in
      let hired = assign_ready id w m.workers ready in
      rw (hire, cap, taken, hired)
        (
          refl,
          (rw (cap, taken, get-put id id (taken_job now w.address max_price job) m.jobs, ==_refl id)
              refl),
        )

  place_preferred :
      (now : ℤ) (id address : Text) (model : AiModel) (max_price : ℤ) (w : AiWorker W)
      (m : Marketplace W) (job : AiJob)
      → IsNew now id max_price m.jobs job
      → IsReady m.workers w
      → find_preferred (some address) model m.workers ≡ some w
      → ltb_ℤ max_price (w.price_per_job +ℤ model.price_per_call) ≡ true
      → (place now id model max_price (some address) m).1
        ≡ some (taken_job now w.address max_price job)
  unfolding place choose_worker
  place_preferred now id address model max_price w m job new ready chosen dear =
      let (kept, stored) = hire_price now id model max_price w m job new ready dear in
      let picked : choose_worker now (some address) model max_price m.workers
          ≡ (m.workers, some w) =
        rw (choose_worker, chosen) refl in
      rw (place, picked, picked, kept, stored) refl

  module _ (now : ℤ) (fresh requester model_id input_hash input_reference address : Text)
      (max_price deadline : ℤ) (model : AiModel) (w : AiWorker W) (m : Marketplace W) where
    -- A preferred worker that is free and able is given the job whatever it asks for: where its price
    -- and the model's are together above the maximum, the job is assigned to it at the maximum,
    -- be that less than its own price. The model is active, the maximum is positive, the
    -- deadline is not over, the input hash has 64 digits, the address is not empty, and every worker
    -- stands once in the store, under its own id.
    pub preferred_underpaid :
        Dict.get model_id m.models ≡ some model
        → model.is_active ≡ true
        → leb_ℤ max_price (pos 0) ≡ false
        → leb_ℤ deadline now ≡ false
        → is_hash input_hash ≡ true
        → IsFiled m.workers
        → leb 1 (length address) ≡ true
        → get_by_address address m.workers ≡ some w
        → is_available w ≡ true
        → can_handle w model.requirements ≡ true
        → ltb_ℤ max_price (w.price_per_job +ℤ model.price_per_call) ≡ true
        → (job : AiJob) × ((submit_job now fresh requester model_id input_hash input_reference
              max_price deadline
              (some address)
              m).1
            ≡ some job)
          × (job.assigned_worker ≡ some w.address)
          × (job.agreed_price ≡ some max_price)
    unfolding submit_job
    preferred_underpaid found offered paid open_yet hashed filed named here free able dear =
        let (job, created, new) =
          create-IsNew now fresh requester model_id input_hash input_reference model.requirements
            max_price deadline m.jobs paid open_yet hashed in
        let chosen = find_preferred_lem address model w m.workers named here free able in
        let ready = find_preferred-IsReady (some address) model m.workers w filed chosen in
        let placed =
          place_preferred now fresh address model max_price w
            record m {
              jobs =
                  (Job.create_job now fresh requester model_id input_hash input_reference
                    model.requirements max_price deadline m.jobs).0;
            }
            job new ready chosen dear in
        rw (submit_job, found, offered, created, new.own, placed)
          (taken_job now w.address max_price job, refl, refl, refl)
