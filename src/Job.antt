-- ===== src/Job.antt =====
-- ai/job.py: jobs, their store and the operations of the job manager. The time is an argument, the
-- fresh job id too; a ValueError is `none` beside the store as it then is.
pub mod Fresh
mod Invariant
mod Payment
mod Examples
use arche_blockchain.Prelude.{
  ℕ, Bool, true, false, not, ◌&&◌, ◌||◌, Option, none, some, List, [], ◌∷◌, ◌++◌, length, any, Text,
  ◌==◌, if◌then◌else◌, nat_eq, text_eq, codes,
}
use arche_blockchain.Int.{ℤ, pos, ltb_ℤ, leb_ℤ}
use arche_blockchain.Manager.{Outcome, refuse, raise_if, branch, save, with_entry}
use arche_blockchain.Dict
use arche_blockchain.Dict.{Dict, values}

pub data JobStatus : Type 0 where
  pending : JobStatus
  assigned : JobStatus
  running : JobStatus
  verifying : JobStatus
  completed : JobStatus
  failed : JobStatus
  cancelled : JobStatus
  disputed : JobStatus

pub data PaymentStatus : Type 0 where
  unpaid : PaymentStatus
  escrowed : PaymentStatus
  released : PaymentStatus
  refunded : PaymentStatus

pub data VerificationStatus : Type 0 where
  unverified : VerificationStatus
  verified : VerificationStatus
  verification_failed : VerificationStatus
  verification_disputed : VerificationStatus

pub record ComputeRequirement : Type 0 where
  pub gpu : Bool
  pub min_ram_gb : ℕ
  pub framework : Option Text

pub record AiJob : Type 0 where
  pub job_id : Text
  pub requester : Text
  pub model_id : Text
  pub input_hash : Text
  pub input_reference : Text
  pub compute_requirement : ComputeRequirement
  pub max_price : ℤ
  pub deadline : ℤ
  pub created_at : ℤ
  pub status : JobStatus
  pub assigned_worker : Option Text
  pub assigned_at : Option ℤ
  pub started_at : Option ℤ
  pub result_hash : Option Text
  pub result_reference : Option Text
  pub completed_at : Option ℤ
  pub agreed_price : Option ℤ
  pub escrow_txid : Option Text
  pub payment_txid : Option Text
  pub payment_status : PaymentStatus
  pub verification_status : VerificationStatus
  pub error_message : Option Text
  pub dispute_reason : Option Text
  pub verifiers : List Text

-- The stored `_jobs`, by id.
abbrev pub JobStore : Type 0
JobStore = Dict Text AiJob

unfoldable pub is_pending : JobStatus → Bool
is_pending pending = true
is_pending _ = false

unfoldable pub is_assigned : JobStatus → Bool
is_assigned assigned = true
is_assigned _ = false

unfoldable pub is_running : JobStatus → Bool
is_running running = true
is_running _ = false

unfoldable pub is_verifying : JobStatus → Bool
is_verifying verifying = true
is_verifying _ = false

unfoldable pub is_completed : JobStatus → Bool
is_completed completed = true
is_completed _ = false

unfoldable pub is_expired : ℤ → AiJob → Bool
is_expired now job = ltb_ℤ job.deadline now

unfoldable pub can_be_assigned : ℤ → AiJob → Bool
can_be_assigned now job = is_pending job.status && not (is_expired now job)

unfoldable pub can_be_cancelled : AiJob → Bool
can_be_cancelled job = is_pending job.status || is_assigned job.status

-- `job.assigned_worker == worker`
unfoldable pub is_worker : AiJob → Text → Bool
is_worker job worker = elim job.assigned_worker [ none ↦ false | some w ↦ w == worker ]

-- `not h or len(h) != 64`, negated
unfoldable pub is_hash : Text → Bool
is_hash h = length h == 64

unfoldable pub create_job :
    ℤ → Text → Text → Text → Text → Text → ComputeRequirement → ℤ → ℤ → JobStore → Outcome AiJob
create_job now fresh requester model_id input_hash input_reference requirement max_price deadline
      store =
    raise_if (leb_ℤ max_price (pos 0)) store (
      raise_if (leb_ℤ deadline now) store (
        raise_if (not (is_hash input_hash)) store (
          save fresh
            record {
              job_id = fresh;
              requester = requester;
              model_id = model_id;
              input_hash = input_hash;
              input_reference = input_reference;
              compute_requirement = requirement;
              max_price = max_price;
              deadline = deadline;
              created_at = now;
              status = pending;
              assigned_worker = none;
              assigned_at = none;
              started_at = none;
              result_hash = none;
              result_reference = none;
              completed_at = none;
              agreed_price = none;
              escrow_txid = none;
              payment_txid = none;
              payment_status = unpaid;
              verification_status = unverified;
              error_message = none;
              dispute_reason = none;
              verifiers = [];
            }
            store)))

unfoldable pub assign_job : ℤ → Text → Text → ℤ → JobStore → Outcome AiJob
assign_job now job_id worker agreed_price store = with_entry job_id store λ job.
    raise_if (not (can_be_assigned now job)) store (
      raise_if (ltb_ℤ job.max_price agreed_price) store (
        save job.job_id
          record job {
            status = assigned;
            assigned_worker = some worker;
            agreed_price = some agreed_price;
            assigned_at = some now;
          }
          store))

-- A late start is refused, and the job is stored as failed.
unfoldable pub start_job : ℤ → Text → Text → JobStore → Outcome AiJob
start_job now job_id worker store = with_entry job_id store λ job.
    raise_if (not (is_assigned job.status)) store (
      raise_if (not (is_worker job worker)) store (
        branch (is_expired now job)
          (refuse
            (save job.job_id
              record job {
                status = failed;
                error_message = some (codes "Job expired before execution started");
              }
              store).0)
          (save job.job_id record job { status = running; started_at = some now } store)))

unfoldable pub submit_result : Text → Text → Text → Text → JobStore → Outcome AiJob
submit_result job_id worker result_hash result_reference store = with_entry job_id store λ job.
    raise_if (not (is_running job.status)) store (
      raise_if (not (is_worker job worker)) store (
        raise_if (not (is_hash result_hash)) store (
          save job.job_id
            record job {
              status = verifying;
              result_hash = some result_hash;
              result_reference = some result_reference;
            }
            store)))

unfoldable pub note_verifier : Text → AiJob → List Text
note_verifier verifier job =
    if not (any (λ v. v == verifier) job.verifiers) && not (verifier == job.requester)
    then job.verifiers ++ (verifier ∷ [])
    else job.verifiers

unfoldable pub verify_job : ℤ → Text → Text → Bool → Text → JobStore → Outcome AiJob
verify_job now job_id verifier success reason store = with_entry job_id store λ job.
    raise_if (not (is_verifying job.status)) store (
      branch success
        (save job.job_id
          record job {
            verifiers = note_verifier verifier job;
            status = completed;
            verification_status = verified;
            completed_at = some now;
          }
          store)
        (save job.job_id
          record job {
            verifiers = note_verifier verifier job;
            status = disputed;
            verification_status = verification_disputed;
            dispute_reason = some reason;
          }
          store))

unfoldable pub cancel_job : Text → Text → Text → JobStore → Outcome AiJob
cancel_job job_id requester reason store = with_entry job_id store λ job.
    raise_if (not (job.requester == requester)) store (
      raise_if (not (can_be_cancelled job)) store (
        save job.job_id
          record job {
            status = cancelled;
            error_message =
                some (if length reason == 0 then codes "Cancelled by requester" else reason);
          }
          store))

unfoldable pub fail_job : Text → Text → JobStore → Outcome AiJob
fail_job job_id reason store =
    with_entry job_id store
      λ job. save job.job_id record job { status = failed; error_message = some reason } store

unfoldable pub set_escrow : Text → Text → JobStore → Outcome AiJob
set_escrow job_id txid store =
    with_entry job_id store
      λ job. save job.job_id record job { escrow_txid = some txid; payment_status = escrowed } store

unfoldable pub release_payment : Text → Text → JobStore → Outcome AiJob
release_payment job_id payment_txid store = with_entry job_id store λ job.
    raise_if (not (is_completed job.status)) store (
      save job.job_id record job { payment_txid = some payment_txid; payment_status = released }
        store)

unfoldable pub refund_payment : Text → Text → JobStore → Outcome AiJob
refund_payment job_id refund_txid store = with_entry job_id store λ job.
    save job.job_id record job { payment_txid = some refund_txid; payment_status = refunded } store

-- The loop of `expire_jobs` over one status: `jobs` is the list taken before the loop.
unfoldable pub fail_overdue :
    ℤ → (JobStatus → Bool) → Text → List AiJob → JobStore → JobStore × List Text
fail_overdue now wanted reason [] store = (store, [])
fail_overdue now wanted reason (job ∷ jobs) store =
    let overdue = wanted job.status && is_expired now job in
    let rest =
      fail_overdue now wanted reason jobs
        (if overdue then (fail_job job.job_id reason store).0 else store) in
    (rest.0, if overdue then job.job_id ∷ rest.1 else rest.1)

unfoldable pub expire_jobs : ℤ → JobStore → JobStore × List Text
expire_jobs now store =
    let first = fail_overdue now is_pending (codes "Deadline exceeded") (values store) store in
    let second =
      fail_overdue now is_assigned (codes "Deadline exceeded after assignment") (values first.0)
        first.0 in
    (second.0, first.1 ++ second.1)
