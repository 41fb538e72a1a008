-- ===== src/Market/Examples.antt =====
-- A marketplace with one model and one worker that asks for 500, on exact numbers in twentieths.
use arche_blockchain.Prelude.{
  ◌≡◌, refl, true, false, none, some, [], ◌∷◌, Text, codes, text_eq, text_beq, any, nat_eq,
}
use arche_blockchain.Int.{pos, ◌+ℤ◌}
use arche_blockchain.Dict
use arche_blockchain.Dict.{get}
use arche_blockchain.Float.Twentieths.{Twentieths, twentieths_float}
use arche_blockchain.Job.{AiJob, ComputeRequirement, is_hash}
use arche_blockchain.Model.{AiModel}
use arche_blockchain.Worker.{
  AiWorker, WorkerCapability, active, is_idle, is_active, is_available, can_handle, supports,
  get_by_address,
}
use arche_blockchain.Worker.Found.{IsFiled}
use arche_blockchain.Market.{Marketplace, submit_job}
use arche_blockchain.Market.Submit.{IsPlaced, submit_job-IsPlaced}
use arche_blockchain.Market.Underpaid.{preferred_underpaid}

abbrev digits : Text
digits = codes "0123456789abcdef0123456789abcdef0123456789abcdef0123456789abcdef"

abbrev needs : ComputeRequirement
needs = record { gpu = false; min_ram_gb = 4; framework = some (codes "onnx") }

abbrev classifier : AiModel
classifier = record {
  model_id = codes "m1";
  name = codes "classifier";
  owner = codes "o";
  model_hash = digits;
  version = codes "1.0.0";
  framework = codes "onnx";
  architecture = codes "cnn";
  task = codes "classification";
  requirements = needs;
  storage_reference = codes "ipfs";
  price_per_call = pos 10;
  registered_at = pos 1;
  updated_at = pos 1;
  is_active = true;
  total_calls = 0;
  tags = [];
}

abbrev machine : WorkerCapability Twentieths
machine = record {
  cpu_cores = pos 4;
  ram_gb = pos 160;
  has_gpu = false;
  gpu_name = none;
  gpu_vram_gb = none;
  supported_frameworks = codes "onnx" ∷ [];
  supported_models = [];
  max_concurrent_jobs = pos 1;
  bandwidth_mbps = none;
  os_info = codes "Linux";
}

abbrev dear_worker : AiWorker Twentieths
dear_worker = record {
  worker_id = codes "w1";
  address = codes "a1";
  public_key = codes "k1";
  endpoint = codes "host:1";
  capability = machine;
  price_per_job = pos 500;
  registered_at = pos 10;
  last_seen = pos 990;
  status = active;
  reputation_score = pos 1800;
  completed_jobs = 3;
  failed_jobs = 1;
  total_earned = pos 150;
  current_job = none;
}

abbrev market : Marketplace Twentieths
market = record {
  models = (codes "m1", classifier) ∷ [];
  workers = (codes "w1", dear_worker) ∷ [];
  jobs = [];
}

market-IsFiled : IsFiled market.workers
unfolding Dict.contains
market-IsFiled = record { unique = (refl, tt); own = (refl, tt) }

submit_job-IsPlaced_example : IsPlaced (codes "j1") (pos 600) (
    submit_job
      (pos 1000)
      (codes "j1")
      (codes "r")
      (codes "m1")
      digits
      (codes "in")
      (pos 600)
      (pos 2000)
      none
      market)
unfolding get text_beq is_hash
submit_job-IsPlaced_example =
    submit_job-IsPlaced (pos 1000) (codes "j1") (codes "r") (codes "m1") digits (codes "in")
      (pos 600) (pos 2000) none classifier market refl refl refl refl refl market-IsFiled

preferred_underpaid_example :
    (job : AiJob) × ((submit_job
        (pos 1000)
        (codes "j1")
        (codes "r")
        (codes "m1")
        digits
        (codes "in")
        (pos 100)
        (pos 2000)
        (some (codes "a1"))
        market).1
      ≡ some job)
    × (job.assigned_worker ≡ some (codes "a1"))
    × (job.agreed_price ≡ some (pos 100))
unfolding get text_beq is_hash get_by_address is_available is_active is_idle can_handle supports any
    ◌+ℤ◌
preferred_underpaid_example =
    preferred_underpaid (pos 1000) (codes "j1") (codes "r") (codes "m1") digits (codes "in")
      (codes "a1") (pos 100) (pos 2000) classifier dear_worker market refl refl refl refl refl
      market-IsFiled refl refl refl refl refl
