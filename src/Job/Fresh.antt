-- ===== src/Job/Fresh.antt =====
-- A job that create_job (ai/job.py) has just stored, and its assignment at once.
use arche_blockchain.Prelude.{◌≡◌, refl, true, false, none, some, Text, arith, text_eq, ==_refl}
use arche_blockchain.Int.{ℤ, pos, leb_ℤ, ltb_ℤ}
use arche_blockchain.Dict
use arche_blockchain.Dict.{get-put}
use arche_blockchain.Manager.{raise_if, save, with_entry}
use arche_blockchain.Job.{
  AiJob, JobStore, ComputeRequirement, pending, assigned, is_pending, is_expired, is_hash,
  can_be_assigned, create_job, assign_job,
}

-- The job is new in the store: it waits, is not late, and has this maximum.
pub record IsNew (now : ℤ) (id : Text) (max_price : ℤ) (jobs : JobStore) (job : AiJob)
    : Type 0 where
  pub stored : Dict.get id jobs ≡ some job
  pub own : job.job_id ≡ id
  pub waits : job.status ≡ pending
  pub unassigned : job.assigned_worker ≡ none
  pub in_time : is_expired now job ≡ false
  pub limit : job.max_price ≡ max_price

-- The job after it was assigned.
abbrev pub taken_job : ℤ → Text → ℤ → AiJob → AiJob
taken_job now address price job = record job {
  status = assigned;
  assigned_worker = some address;
  agreed_price = some price;
  assigned_at = some now;
}

pub assign_job_new :
    (now : ℤ) (id address : Text) (price max_price : ℤ) (jobs : JobStore) (job : AiJob)
    → IsNew now id max_price jobs job
    → leb_ℤ price max_price ≡ true
    → assign_job now id address price jobs
      ≡ (Dict.put id (taken_job now address price job) jobs, some (taken_job now address price job))
unfolding assign_job with_entry raise_if save can_be_assigned is_pending
assign_job_new now id address price max_price jobs job new within =
    let cheap : ltb_ℤ job.max_price price ≡ false = rw new.limit (ground (arith, within)) in
    rw (assign_job, with_entry, new.stored, new.in_time, cheap, new.own, new.waits) refl

pub create-IsNew :
    (now : ℤ) (id requester model_id input_hash input_reference : Text) (req : ComputeRequirement)
    (max_price deadline : ℤ) (jobs : JobStore)
    → leb_ℤ max_price (pos 0) ≡ false
    → leb_ℤ deadline now ≡ false
    → is_hash input_hash ≡ true
    → (job : AiJob) × ((create_job now id requester model_id input_hash input_reference req
          max_price deadline jobs).1
        ≡ some job)
      × IsNew now id max_price
          (create_job now id requester model_id input_hash input_reference req max_price deadline
            jobs).0
          job
unfolding create_job raise_if save is_expired
create-IsNew now id requester model_id input_hash input_reference req max_price deadline jobs paid
      open_yet hashed =
    rw (create_job, paid, open_yet, hashed)
      (
        _,
        refl,
        record {
          stored = rw (get-put id id _ jobs, ==_refl id) refl;
          own = refl;
          waits = refl;
          unassigned = refl;
          in_time = ground (arith, open_yet);
          limit = refl;
        },
      )
