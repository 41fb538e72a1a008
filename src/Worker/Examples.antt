-- ===== src/Worker/Examples.antt =====
-- The worker manager at a store with one busy worker, on exact numbers in twentieths.
use arche_blockchain.Prelude.{refl, true, false, none, some, [], ◌∷◌, codes, text_eq}
use arche_blockchain.Int.{pos}
use arche_blockchain.Float.Twentieths.{Twentieths, twentieths_float, Twentieths-IsOrdered}
use arche_blockchain.Worker.{AiWorker, WorkerCapability, WorkerStore, busy, is_idle}
use arche_blockchain.Worker.Invariant.{IsSound, is_busy, complete, run_worker, run_worker-IsSound}

abbrev small_machine : WorkerCapability Twentieths
small_machine = record {
  cpu_cores = pos 4;
  ram_gb = pos 160;
  has_gpu = false;
  gpu_name = none;
  gpu_vram_gb = none;
  supported_frameworks = codes "onnx" ∷ [];
  supported_models = [];
  max_concurrent_jobs = pos 1;
  bandwidth_mbps = none;
  os_info = codes "Linux";
}

abbrev busy_worker : AiWorker Twentieths
busy_worker = record {
  worker_id = codes "w1";
  address = codes "a1";
  public_key = codes "k1";
  endpoint = codes "host:1";
  capability = small_machine;
  price_per_job = pos 50;
  registered_at = pos 10;
  last_seen = pos 20;
  status = busy;
  reputation_score = pos 1800;
  completed_jobs = 3;
  failed_jobs = 1;
  total_earned = pos 150;
  current_job = some (codes "j1");
}

abbrev one_worker : WorkerStore Twentieths
one_worker = (codes "w1", busy_worker) ∷ []

one_worker-IsSound : IsSound one_worker
unfolding is_busy is_idle
one_worker-IsSound =
    ((refl, record { employed = refl; low = refl; high = refl; earned = refl }), tt)

run_worker-IsSound_example : IsSound (run_worker (complete (codes "w1") true (pos 50)) one_worker)
run_worker-IsSound_example =
    run_worker-IsSound (complete (codes "w1") true (pos 50)) one_worker one_worker-IsSound
