-- ===== src/Job/Examples.antt =====
-- The job manager at a store with one completed job.
use arche_blockchain.Prelude.{
  ◌≡◌, refl, Text, codes, [], ◌∷◌, some, none, false, text_beq, nat_eq, text_eq,
}
use arche_blockchain.Int.{pos}
use arche_blockchain.Dict
use arche_blockchain.Dict.{get}
use arche_blockchain.Manager.{Outcome}
use arche_blockchain.Job.{
  AiJob, JobStore, completed, escrowed, released, refunded, verified, is_hash, release_payment,
  refund_payment,
}
use arche_blockchain.Job.Invariant.{
  fail, IsSound, is_sound, in_hand, has_result, is_bargain, run_job, run_job-IsSound,
}
use arche_blockchain.Job.Payment.{paid_as, refund_after_release}

abbrev digits : Text
digits = codes "0123456789abcdef0123456789abcdef0123456789abcdef0123456789abcdef"

abbrev done_job : AiJob
done_job = record {
  job_id = codes "j1";
  requester = codes "r";
  model_id = codes "m";
  input_hash = digits;
  input_reference = codes "in";
  compute_requirement = record { gpu = false; min_ram_gb = 4; framework = some (codes "onnx") };
  max_price = pos 100;
  deadline = pos 2000;
  created_at = pos 1000;
  status = completed;
  assigned_worker = some (codes "w");
  assigned_at = some (pos 1100);
  started_at = some (pos 1200);
  result_hash = some digits;
  result_reference = some (codes "out");
  completed_at = some (pos 1300);
  agreed_price = some (pos 90);
  escrow_txid = some digits;
  payment_txid = none;
  payment_status = escrowed;
  verification_status = verified;
  error_message = none;
  dispute_reason = none;
  verifiers = [];
}

abbrev one_job : JobStore
one_job = (codes "j1", done_job) ∷ []

one_job-IsSound : IsSound one_job
unfolding is_sound in_hand has_result is_bargain is_hash
one_job-IsSound = ((refl, refl), tt)

run_job-IsSound_example : IsSound (run_job (fail (codes "j1") (codes "late")) one_job)
run_job-IsSound_example = run_job-IsSound (fail (codes "j1") (codes "late")) one_job one_job-IsSound

abbrev release_done : Outcome AiJob
release_done = release_payment (codes "j1") (codes "t1") one_job

refund_after_release_example :
    (release_done.1 ≡ some (paid_as released (codes "t1") done_job))
    × (Dict.get (codes "j1") release_done.0 ≡ some (paid_as released (codes "t1") done_job))
    × ((refund_payment (codes "j1") (codes "t2") release_done.0).1
        ≡ some (paid_as refunded (codes "t2") done_job))
    × (Dict.get (codes "j1") (refund_payment (codes "j1") (codes "t2") release_done.0).0
        ≡ some (paid_as refunded (codes "t2") done_job))
unfolding get text_beq
refund_after_release_example =
    refund_after_release (codes "j1") (codes "t1") (codes "t2") done_job one_job refl refl refl
