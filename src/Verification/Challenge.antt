-- ===== src/Verification/Challenge.antt =====
-- ai/verification.py: Challenge and ChallengeVerifier. The caller's challenge object is changed in
-- place, so a call returns it as it then is; a response that raises is paired with `true`.
use arche_blockchain.Prelude.{
  Bool, true, false, not, ◌&&◌, Option, none, some, Text, ◌==◌, if◌then◌else◌, text_eq, codes,
}
use arche_blockchain.Int.{ℤ, pos, ◌+ℤ◌, ltb_ℤ}
use arche_blockchain.Verification.{
  VerificationRecord, verified, failed, challenge_level, challenge_details,
}

pub data ChallengeStatus : Type 0 where
  opened : ChallengeStatus
  responded : ChallengeStatus
  resolved : ChallengeStatus
  timeout : ChallengeStatus

pub data Resolution : Type 0 where
  upheld : Resolution
  dismissed : Resolution

-- `Proof` stands for the dict that a worker responds with, which no code reads.
pub record Challenge (Proof : Type 0) : Type 0 where
  pub challenge_id : Text
  pub job_id : Text
  pub challenger : Text
  pub challenged : Text
  pub reason : Text
  pub status : ChallengeStatus
  pub created_at : ℤ
  pub deadline : ℤ
  pub response : Option Proof
  pub resolved_at : Option ℤ
  pub resolution : Option Resolution

unfoldable pub is_open : ChallengeStatus → Bool
is_open opened = true
is_open _ = false

unfoldable pub challenge_response_window : ℤ
challenge_response_window = pos 3600

module _ {Proof : Type 0} where
  unfoldable pub open_challenge : ℤ → Text → Text → Text → Text → Text → Challenge Proof
  open_challenge now fresh job_id challenger challenged_worker reason = record {
    challenge_id = fresh;
    job_id = job_id;
    challenger = challenger;
    challenged = challenged_worker;
    reason = reason;
    status = opened;
    created_at = now;
    deadline = now +ℤ challenge_response_window;
    response = none;
    resolved_at = none;
    resolution = none;
  }

  -- A late response raises too, and leaves the challenge timed out.
  unfoldable pub respond_to_challenge : ℤ → Challenge Proof → Text → Proof → Challenge Proof × Bool
  respond_to_challenge now c worker proof =
      if not (c.challenged == worker)
      then (c, true)
      else if not (is_open c.status)
      then (c, true)
      else if ltb_ℤ c.deadline now
      then (record c { status = timeout }, true)
      else (record c { response = some proof; status = responded }, false)

  -- `challenge.status == OPEN and now > challenge.deadline`
  unfoldable pub is_unanswered : ℤ → Challenge Proof → Bool
  is_unanswered now c = is_open c.status && ltb_ℤ c.deadline now

  unfoldable pub has_response : Challenge Proof → Bool
  has_response c = elim c.response [ none ↦ false | some proof ↦ true ]

  -- The rest of `resolve_challenge`, after an unanswered challenge was found for the challenger.
  unfoldable pub resolve_as :
      ℤ → Text → Challenge Proof → Text → Bool → Text → Challenge Proof × VerificationRecord
  resolve_as now fresh c arbiter is_upheld reasoning = (
    record c {
      resolution = some (if is_upheld then upheld else dismissed);
      resolved_at = some now;
      status = resolved;
    },
    record {
      verification_id = fresh;
      job_id = c.job_id;
      level = challenge_level;
      result = if is_upheld then failed else verified;
      verifier = arbiter;
      created_at = now;
      completed_at = some now;
      details =
          challenge_details c.challenge_id c.challenger c.challenged is_upheld reasoning
            (has_response c);
      error = none;
    },
  )

  unfoldable pub resolve_challenge :
      ℤ → Text → Challenge Proof → Text → Bool → Text → Challenge Proof × VerificationRecord
  resolve_challenge now fresh c arbiter is_upheld reasoning =
      let late = is_unanswered now c in
      resolve_as now fresh c arbiter (if late then true else is_upheld)
        (if late then codes "Worker did not respond within deadline" else reasoning)
