-- ===== src/Worker.antt =====
-- ai/worker.py: workers and WorkerManager, over any floating-point type. The time and the fresh
-- worker id are arguments.
pub mod Search
mod Invariant
pub mod Found
mod Examples
use arche_blockchain.Prelude.{
  ℕ, suc, Bool, true, false, not, ◌&&◌, ◌||◌, Option, none, some, List, [], ◌∷◌, any, length, leb,
  Text, ◌==◌, if◌then◌else◌, nat_eq, text_eq,
}
use arche_blockchain.Int.{ℤ, pos, ◌+ℤ◌, ltb_ℤ}
use arche_blockchain.Dict.{Dict}
use arche_blockchain.Float.{Float, max_float, min_float}
use arche_blockchain.Job.{ComputeRequirement}
use arche_blockchain.Manager.{Outcome, raise_if, save, with_entry}

pub data WorkerStatus : Type 0 where
  active : WorkerStatus
  inactive : WorkerStatus
  busy : WorkerStatus
  banned : WorkerStatus

pub record WorkerCapability (W : Type 0) : Type 0 where
  pub cpu_cores : ℤ
  pub ram_gb : W
  pub has_gpu : Bool
  pub gpu_name : Option Text
  pub gpu_vram_gb : Option W
  pub supported_frameworks : List Text
  pub supported_models : List Text
  pub max_concurrent_jobs : ℤ
  pub bandwidth_mbps : Option W
  pub os_info : Text

pub record AiWorker (W : Type 0) : Type 0 where
  pub worker_id : Text
  pub address : Text
  pub public_key : Text
  pub endpoint : Text
  pub capability : WorkerCapability W
  pub price_per_job : ℤ
  pub registered_at : ℤ
  pub last_seen : ℤ
  pub status : WorkerStatus
  pub reputation_score : W
  pub completed_jobs : ℕ
  pub failed_jobs : ℕ
  pub total_earned : ℤ
  pub current_job : Option Text

-- The stored `_workers`, by id.
abbrev pub WorkerStore : Type 0 → Type 0
WorkerStore W = Dict Text (AiWorker W)

unfoldable pub is_active : WorkerStatus → Bool
is_active active = true
is_active _ = false

unfoldable pub is_inactive : WorkerStatus → Bool
is_inactive inactive = true
is_inactive _ = false

unfoldable pub is_idle : Option Text → Bool
is_idle none = true
is_idle (some job) = false

-- `framework and framework not in supported`, negated
unfoldable pub supports : Option Text → List Text → Bool
supports none supported = true
supports (some framework) supported = length framework == 0 || any (λ f. f == framework) supported

module _ {W : Type 0} where
  unfoldable pub is_available : AiWorker W → Bool
  is_available w = is_active w.status && is_idle w.current_job

  -- `get_by_address`
  unfoldable pub get_by_address : Text → WorkerStore W → Option (AiWorker W)
  get_by_address address [] = none
  get_by_address address ((k, w) ∷ store) =
      let rest = get_by_address address store in if w.address == address then some w else rest

  unfoldable pub heartbeat : ℤ → Text → WorkerStore W → Outcome (AiWorker W)
  heartbeat now worker_id store = with_entry worker_id store λ w.
      save w.worker_id
        record w { last_seen = now; status = if is_inactive w.status then active else w.status }
        store

  unfoldable pub deactivate : Text → WorkerStore W → Outcome (AiWorker W)
  deactivate worker_id store =
      with_entry worker_id store λ w. save w.worker_id record w { status = inactive } store

  unfoldable pub assign_job : Text → Text → WorkerStore W → Outcome (AiWorker W)
  assign_job worker_id job_id store = with_entry worker_id store λ w.
      raise_if (not (is_available w)) store
        (save w.worker_id record w { status = busy; current_job = some job_id } store)

module _ {W : Type 0} ⦃fl : Float W⦄ where
  unfoldable pub can_handle : AiWorker W → ComputeRequirement → Bool
  can_handle w compute_req =
      not (compute_req.gpu && not w.capability.has_gpu)
      && not (fl.lt w.capability.ram_gb (fl.of_int (pos compute_req.min_ram_gb)))
      && supports compute_req.framework w.capability.supported_frameworks

  unfoldable pub update_reputation : Bool → AiWorker W → AiWorker W
  update_reputation true w = record w {
    completed_jobs = suc w.completed_jobs;
    reputation_score = min_float (fl.of_int (pos 100)) (
        fl.add w.reputation_score
          (fl.mul (fl.sub (fl.of_int (pos 100)) w.reputation_score) (fl.decimal 5 2)));
  }
  update_reputation false w = record w {
    failed_jobs = suc w.failed_jobs;
    reputation_score = max_float (fl.of_int (pos 0)) (fl.mul w.reputation_score (fl.decimal 85 2));
  }

  unfoldable pub new_worker : ℤ → Text → Text → Text → Text → WorkerCapability W → ℤ → AiWorker W
  new_worker now fresh address public_key endpoint capability price_per_job = record {
    worker_id = fresh;
    address = address;
    public_key = public_key;
    endpoint = endpoint;
    capability = capability;
    price_per_job = price_per_job;
    registered_at = now;
    last_seen = now;
    status = active;
    reputation_score = fl.of_int (pos 100);
    completed_jobs = 0;
    failed_jobs = 0;
    total_earned = pos 0;
    current_job = none;
  }

  -- A worker at a known address is brought up to date, and keeps its key.
  unfoldable pub register :
      ℤ → Text → Text → Text → Text → WorkerCapability W → ℤ → WorkerStore W → Outcome (AiWorker W)
  register now fresh address public_key endpoint capability price_per_job store =
      elim (get_by_address address store) [
        | some w ↦
            save w.worker_id
              record w {
                endpoint = endpoint;
                capability = capability;
                price_per_job = price_per_job;
                last_seen = now;
                status = active;
              }
              store
        | none ↦
            save fresh (new_worker now fresh address public_key endpoint capability price_per_job)
              store
      ]

  -- What a finished job leaves of a worker.
  unfoldable pub finish : Bool → ℤ → AiWorker W → AiWorker W
  finish success earned w =
      let judged : AiWorker W =
        update_reputation success record w { current_job = none; status = active } in
      record judged {
        total_earned =
            if success && ltb_ℤ (pos 0) earned
            then judged.total_earned +ℤ earned
            else judged.total_earned;
      }

  unfoldable pub complete_job : Text → Bool → ℤ → WorkerStore W → Outcome (AiWorker W)
  complete_job worker_id success earned store =
      with_entry worker_id store λ w. save w.worker_id (finish success earned w) store
