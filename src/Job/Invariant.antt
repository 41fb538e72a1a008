-- ===== src/Job/Invariant.antt =====
-- What every stored job satisfies, whatever calls of the job manager of ai/job.py came before.
use arche_blockchain.Prelude.{
  ◌≡◌, refl, Bool, true, false, not, ◌&&◌, ◌||◌, none, some, List, [], ◌∷◌, Text, All, Bool-cases,
  inl, inr, arith, text_eq,
}
use arche_blockchain.Int.{ℤ, leb_ℤ}
use arche_blockchain.Manager.{Outcome}
use arche_blockchain.Manager.Keeps.{
  Keeps, raise_if-Keeps, refuse_saved-Keeps, save-Keeps, with_entry-Keeps, branch-Keeps,
}
use arche_blockchain.Job.{
  JobStatus, assigned, running, verifying, completed, disputed, AiJob, JobStore, ComputeRequirement,
  is_pending, is_assigned, is_running, is_verifying, is_hash, is_expired, create_job, assign_job,
  start_job, submit_result, verify_job, cancel_job, fail_job, set_escrow, release_payment,
  refund_payment, fail_overdue, expire_jobs,
}

-- The calls of the manager, with the time and the fresh id each one reads.
pub data JobCall : Type 0 where
  create : ℤ → Text → Text → Text → Text → Text → ComputeRequirement → ℤ → ℤ → JobCall
  assign : ℤ → Text → Text → ℤ → JobCall
  start : ℤ → Text → Text → JobCall
  submit : Text → Text → Text → Text → JobCall
  verify : ℤ → Text → Text → Bool → Text → JobCall
  cancel : Text → Text → Text → JobCall
  fail : Text → Text → JobCall
  expire : ℤ → JobCall
  escrow : Text → Text → JobCall
  release : Text → Text → JobCall
  refund : Text → Text → JobCall

-- The store after a call.
unfoldable pub run_job : JobCall → JobStore → JobStore
run_job (create now id r m h ref c price deadline) s =
    (create_job now id r m h ref c price deadline s).0
run_job (assign now id worker price) s = (assign_job now id worker price s).0
run_job (start now id worker) s = (start_job now id worker s).0
run_job (submit id worker h ref) s = (submit_result id worker h ref s).0
run_job (verify now id verifier ok reason) s = (verify_job now id verifier ok reason s).0
run_job (cancel id requester reason) s = (cancel_job id requester reason s).0
run_job (fail id reason) s = (fail_job id reason s).0
run_job (expire now) s = (expire_jobs now s).0
run_job (escrow id txid) s = (set_escrow id txid s).0
run_job (release id txid) s = (release_payment id txid s).0
run_job (refund id txid) s = (refund_payment id txid s).0

-- A worker has taken the job and it did not fail.
unfoldable pub in_hand : JobStatus → Bool
in_hand assigned = true
in_hand running = true
in_hand verifying = true
in_hand completed = true
in_hand disputed = true
in_hand _ = false

-- A result is stored.
unfoldable pub has_result : JobStatus → Bool
has_result verifying = true
has_result completed = true
has_result disputed = true
has_result _ = false

-- Some worker is assigned at an agreed price that the requester's maximum covers.
unfoldable pub is_bargain : AiJob → Bool
is_bargain job =
    (elim job.assigned_worker [ none ↦ false | some w ↦ true ])
    && (elim job.agreed_price [ none ↦ false | some p ↦ leb_ℤ p job.max_price ])

unfoldable pub is_sound : AiJob → Bool
is_sound job =
    (not (in_hand job.status) || is_bargain job)
    && (not (has_result job.status) || (elim job.result_hash [ none ↦ false | some h ↦ is_hash h ]))

-- Every entry stands under its job's id, a job in hand has its worker and a covered price, and a job
-- whose result was submitted has a 64-digit result hash.
abbrev pub IsSoundEntry : Text × AiJob → Type 0
IsSoundEntry e = (e.0 ≡ e.1.job_id) × (is_sound e.1 ≡ true)

abbrev pub IsSound : JobStore → Type 0
IsSound s = All IsSoundEntry s

abbrev Kept : Outcome AiJob → Type 0
Kept = Keeps IsSoundEntry

module _ (s : JobStore) (h : IsSound s) where
  create_job-IsSound :
      (now : ℤ) (id r m i ref : Text) (c : ComputeRequirement) (price deadline : ℤ)
      → Kept (create_job now id r m i ref c price deadline s)
  unfolding create_job is_sound in_hand has_result
  create_job-IsSound now id r m i ref c price deadline = raise_if-Keeps IsSoundEntry s h _ _ λ _.
      raise_if-Keeps IsSoundEntry s h _ _
        λ _. raise_if-Keeps IsSoundEntry s h _ _ λ _. save-Keeps IsSoundEntry s h _ _ (refl, refl)

  assign_job-IsSound :
      (now : ℤ) (id worker : Text) (price : ℤ) → Kept (assign_job now id worker price s)
  unfolding assign_job is_sound in_hand has_result is_bargain
  assign_job-IsSound now id worker price = with_entry-Keeps IsSoundEntry s h id _ λ job (e, ok).
      raise_if-Keeps IsSoundEntry s h _ _ λ _.
        raise_if-Keeps IsSoundEntry s h _ _
          λ covered. save-Keeps IsSoundEntry s h _ _ (refl, (ground (arith, covered)))

  start_job-IsSound : (now : ℤ) (id worker : Text) → Kept (start_job now id worker s)
  unfolding start_job is_sound in_hand has_result is_bargain is_assigned
  start_job-IsSound now id worker = with_entry-Keeps IsSoundEntry s h id _ λ job (e, ok).
      raise_if-Keeps IsSoundEntry s h _ _ λ taken. raise_if-Keeps IsSoundEntry s h _ _ λ _.
        branch-Keeps IsSoundEntry _ _ _ (λ _. refuse_saved-Keeps IsSoundEntry s h _ _ (refl, refl))
          λ _. save-Keeps IsSoundEntry s h _ _ (refl, (ground (arith, taken, ok)))

  submit_result-IsSound : (id worker hash ref : Text) → Kept (submit_result id worker hash ref s)
  unfolding submit_result is_sound in_hand has_result is_bargain is_running
  submit_result-IsSound id worker hash ref = with_entry-Keeps IsSoundEntry s h id _ λ job (e, ok).
      raise_if-Keeps IsSoundEntry s h _ _ λ taken. raise_if-Keeps IsSoundEntry s h _ _ λ _.
        raise_if-Keeps IsSoundEntry s h _ _
          λ good. save-Keeps IsSoundEntry s h _ _ (refl, (ground (arith, taken, good, ok)))

  verify_job-IsSound :
      (now : ℤ) (id verifier : Text) (success : Bool) (reason : Text)
      → Kept (verify_job now id verifier success reason s)
  unfolding verify_job is_sound in_hand has_result is_bargain is_verifying
  verify_job-IsSound now id verifier success reason =
      with_entry-Keeps IsSoundEntry s h id _ λ job (e, ok).
        raise_if-Keeps IsSoundEntry s h _ _ λ taken.
          branch-Keeps IsSoundEntry _ _ _
            (λ _. save-Keeps IsSoundEntry s h _ _ (refl, (ground (arith, taken, ok))))
            λ _. save-Keeps IsSoundEntry s h _ _ (refl, (ground (arith, taken, ok)))

  cancel_job-IsSound : (id who reason : Text) → Kept (cancel_job id who reason s)
  unfolding cancel_job is_sound in_hand has_result
  cancel_job-IsSound id who reason = with_entry-Keeps IsSoundEntry s h id _ λ job (e, ok).
      raise_if-Keeps IsSoundEntry s h _ _
        λ _. raise_if-Keeps IsSoundEntry s h _ _ λ _. save-Keeps IsSoundEntry s h _ _ (refl, refl)

  fail_job-IsSound : (id reason : Text) → Kept (fail_job id reason s)
  unfolding fail_job is_sound in_hand has_result
  fail_job-IsSound id reason =
      with_entry-Keeps IsSoundEntry s h id _
        λ job (e, ok). save-Keeps IsSoundEntry s h _ _ (refl, refl)

  set_escrow-IsSound : (id txid : Text) → Kept (set_escrow id txid s)
  unfolding set_escrow is_sound is_bargain
  set_escrow-IsSound id txid =
      with_entry-Keeps IsSoundEntry s h id _
        λ job (e, ok). save-Keeps IsSoundEntry s h _ _ (refl, ok)

  release_payment-IsSound : (id txid : Text) → Kept (release_payment id txid s)
  unfolding release_payment is_sound is_bargain
  release_payment-IsSound id txid = with_entry-Keeps IsSoundEntry s h id _ λ job (e, ok).
      raise_if-Keeps IsSoundEntry s h _ _ λ _. save-Keeps IsSoundEntry s h _ _ (refl, ok)

  refund_payment-IsSound : (id txid : Text) → Kept (refund_payment id txid s)
  unfolding refund_payment is_sound is_bargain
  refund_payment-IsSound id txid =
      with_entry-Keeps IsSoundEntry s h id _
        λ job (e, ok). save-Keeps IsSoundEntry s h _ _ (refl, ok)

fail_overdue-IsSound :
    (now : ℤ) (wanted : JobStatus → Bool) (reason : Text) (jobs : List AiJob) (s : JobStore)
    → IsSound s
    → IsSound (fail_overdue now wanted reason jobs s).0
unfolding fail_overdue Keeps
fail_overdue-IsSound now wanted reason [] s h = h
fail_overdue-IsSound now wanted reason (job ∷ jobs) s h =
    elim (Bool-cases (wanted job.status && is_expired now job)) [
      | inl late ↦
          rw late
            (fail_overdue-IsSound now wanted reason jobs _ (fail_job-IsSound s h job.job_id reason))
      | inr early ↦ rw early (fail_overdue-IsSound now wanted reason jobs s h)
    ]

-- From a sound store, every call of the job manager, refused ones included, leads to a sound store:
-- each job that is assigned, running, verifying, completed or disputed has a worker and an agreed
-- price of at most its maximum, and a submitted result has a 64-digit hash.
pub run_job-IsSound : (c : JobCall) (s : JobStore) → IsSound s → IsSound (run_job c s)
unfolding run_job expire_jobs Keeps
run_job-IsSound (create now id r m i ref c price deadline) s h =
    create_job-IsSound s h now id r m i ref c price deadline
run_job-IsSound (assign now id worker price) s h = assign_job-IsSound s h now id worker price
run_job-IsSound (start now id worker) s h = start_job-IsSound s h now id worker
run_job-IsSound (submit id worker hash ref) s h = submit_result-IsSound s h id worker hash ref
run_job-IsSound (verify now id verifier ok reason) s h =
    verify_job-IsSound s h now id verifier ok reason
run_job-IsSound (cancel id who reason) s h = cancel_job-IsSound s h id who reason
run_job-IsSound (fail id reason) s h = fail_job-IsSound s h id reason
run_job-IsSound (expire now) s h =
    fail_overdue-IsSound now is_assigned _ _ _ (fail_overdue-IsSound now is_pending _ _ s h)
run_job-IsSound (escrow id txid) s h = set_escrow-IsSound s h id txid
run_job-IsSound (release id txid) s h = release_payment-IsSound s h id txid
run_job-IsSound (refund id txid) s h = refund_payment-IsSound s h id txid
