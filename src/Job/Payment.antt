-- ===== src/Job/Payment.antt =====
-- The payment fields of a job in ai/job.py: a refund after a release.
use arche_blockchain.Prelude.{◌≡◌, ◌∙◌, refl, ap, some, Text, text_eq}
use arche_blockchain.Dict
use arche_blockchain.Dict.Entries.{get-put_same}
use arche_blockchain.Job.{
  AiJob, JobStore, PaymentStatus, completed, is_completed, released, refunded, release_payment,
  refund_payment,
}
use arche_blockchain.Manager.{Outcome, raise_if, save, with_entry}

-- The job with a payment recorded.
abbrev pub paid_as : PaymentStatus → Text → AiJob → AiJob
paid_as status txid job = record job { payment_txid = some txid; payment_status = status }

module _ (id txid : Text) (job : AiJob) (s : JobStore) where
  released_job :
      Dict.get id s ≡ some job
      → job.status ≡ completed
      → release_payment id txid s ≡ save job.job_id (paid_as released txid job) s
  unfolding release_payment with_entry raise_if is_completed
  released_job found done = rw (release_payment, with_entry, found, raise_if, done) refl

  refunded_job :
      Dict.get id s ≡ some job
      → refund_payment id txid s ≡ save job.job_id (paid_as refunded txid job) s
  unfolding refund_payment with_entry
  refunded_job found = rw (refund_payment, with_entry, found) refl

-- The payment of a completed job that stands under its own id can be released to the worker
-- and then recorded as refunded to the requester: the release is accepted and stored as released
-- under its transaction, and the refund after it is accepted too and overwrites both.
pub refund_after_release :
    (id release_txid refund_txid : Text) (job : AiJob) (s : JobStore)
    → Dict.get id s ≡ some job
    → job.job_id ≡ id
    → job.status ≡ completed
    → ((release_payment id release_txid s).1 ≡ some (paid_as released release_txid job))
      × (Dict.get id (release_payment id release_txid s).0
          ≡ some (paid_as released release_txid job))
      × ((refund_payment id refund_txid (release_payment id release_txid s).0).1
          ≡ some (paid_as refunded refund_txid job))
      × (Dict.get id (refund_payment id refund_txid (release_payment id release_txid s).0).0
          ≡ some (paid_as refunded refund_txid job))
unfolding save
refund_after_release id release_txid refund_txid job s found own done =
    let release = released_job id release_txid job s found done in
    let kept = get-put_same id job.job_id (paid_as released release_txid job) s own in
    let refund =
      refunded_job id refund_txid (paid_as released release_txid job)
        (Dict.put job.job_id (paid_as released release_txid job) s) kept in
    rw release (
      refl,
      kept,
      ap (λ (o : Outcome AiJob). o.1) refund,
      ap (λ (o : Outcome AiJob). Dict.get id o.0) refund
          ∙ get-put_same id job.job_id (paid_as refunded refund_txid job)
              (Dict.put job.job_id (paid_as released release_txid job) s) own,
    )
