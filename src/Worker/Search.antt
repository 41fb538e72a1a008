-- ===== src/Worker/Search.antt =====
-- ai/worker.py: find_suitable_workers, which also stores workers without a recent heartbeat as
-- inactive.
use arche_blockchain.Prelude.{Bool, not, ◌&&◌, List, [], ◌∷◌, if◌then◌else◌, text_eq}
use arche_blockchain.Prelude.Sort.{sort_by}
use arche_blockchain.Int.{ℤ, pos, ◌-ℤ◌, ltb_ℤ}
use arche_blockchain.Dict
use arche_blockchain.Dict.{values}
use arche_blockchain.Float.{Float, float_beq}
use arche_blockchain.Job.{ComputeRequirement}
use arche_blockchain.Worker.{AiWorker, WorkerStore, inactive, is_available, can_handle}

unfoldable pub heartbeat_timeout : ℤ
heartbeat_timeout = pos 300

module _ {W : Type 0} where
  -- `available()`
  unfoldable pub available : List (AiWorker W) → List (AiWorker W)
  available [] = []
  available (w ∷ ws) = let rest = available ws in if is_available w then w ∷ rest else rest

  -- Without a heartbeat for too long.
  unfoldable pub is_stale : ℤ → AiWorker W → Bool
  is_stale now w = ltb_ℤ heartbeat_timeout (now -ℤ w.last_seen)

module _ {W : Type 0} ⦃fl : Float W⦄ where
  unfoldable pub suits : ComputeRequirement → ℤ → W → AiWorker W → Bool
  suits compute_req max_price min_reputation w =
      can_handle w compute_req
      && not (ltb_ℤ max_price w.price_per_job)
      && not (fl.lt w.reputation_score min_reputation)

  -- `(-a.reputation_score, a.price_per_job) < (-b.reputation_score, b.price_per_job)`
  unfoldable pub ranks_before : AiWorker W → AiWorker W → Bool
  ranks_before a b =
      if float_beq a.reputation_score b.reputation_score
      then ltb_ℤ a.price_per_job b.price_per_job
      else fl.lt b.reputation_score a.reputation_score

  -- The loop over the workers as they were before it.
  unfoldable pub find_each :
      ℤ
      → (AiWorker W → Bool)
      → List (AiWorker W)
      → WorkerStore W
      → WorkerStore W × List (AiWorker W)
  find_each now suitable [] store = (store, [])
  find_each now suitable (w ∷ ws) store =
      let rest = find_each now suitable ws (
        if suitable w && is_stale now w
        then Dict.put w.worker_id record w { status = inactive } store
        else store) in
      (rest.0, if suitable w && not (is_stale now w) then w ∷ rest.1 else rest.1)

  unfoldable pub find_suitable_workers :
      ℤ → ComputeRequirement → ℤ → W → WorkerStore W → WorkerStore W × List (AiWorker W)
  find_suitable_workers now compute_req max_price min_reputation store =
      let found =
        find_each now (suits compute_req max_price min_reputation) (available (values store))
          store in
      (found.0, sort_by ranks_before found.1)
