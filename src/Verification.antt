-- ===== src/Verification.antt =====
-- ai/verification.py: the records of a verification, the hash verifier, the vote of the redundant
-- verifier, challenges, and the choice of a level. The time and the fresh id are arguments, as is
-- `lower`, Python's str.lower.
mod Vote
mod Majority
mod Challenge
mod Late
mod Examples
use arche_blockchain.Prelude.{
  ℕ, Bool, true, false, Option, none, some, List, [], length, leb, Text, ◌==◌, if◌then◌else◌,
  text_eq, codes,
}
use arche_blockchain.Int.{ℤ}
use arche_blockchain.Dict.{Dict}

pub data VerificationLevel : Type 0 where
  hash_level : VerificationLevel
  redundant_level : VerificationLevel
  challenge_level : VerificationLevel
  proof_logits_level : VerificationLevel
  zkml_level : VerificationLevel

pub data VerificationResult : Type 0 where
  verified : VerificationResult
  failed : VerificationResult
  pending : VerificationResult
  disputed : VerificationResult
  skipped : VerificationResult

-- The `details` of a record, a constructor for each set of keys that the verifiers write. The
-- constant texts among them are left out.
pub data Details : Type 0 where
  -- result_hash, expected_hash, matched
  hash_details : Text → Text → Bool → Details
  -- submissions, required
  waiting_details : ℕ → ℕ → Details
  -- total_submissions, majority_hash, majority_count, has_majority, vote_distribution,
  -- dishonest_workers
  vote_details : ℕ → Option Text → ℕ → Bool → Dict Text ℕ → List Text → Details
  -- challenge_id, challenger, challenged, upheld, reasoning, had_response
  challenge_details : Text → Text → Text → Bool → Text → Bool → Details
  -- status, reason: constant texts
  stub_details : Details

pub record VerificationRecord : Type 0 where
  verification_id : Text
  job_id : Text
  level : VerificationLevel
  result : VerificationResult
  verifier : Text
  created_at : ℤ
  completed_at : Option ℤ
  details : Details
  error : Option Text

-- `HashVerifier.verify`
unfoldable pub verify_hash :
    (Text → Text) → ℤ → Text → Text → Text → Text → Text → VerificationRecord
verify_hash lower now fresh job_id result_hash expected_hash verifier =
    let matched = lower result_hash == lower expected_hash in
    record {
      verification_id = fresh;
      job_id = job_id;
      level = hash_level;
      result = if matched then verified else failed;
      verifier = verifier;
      created_at = now;
      completed_at = some now;
      details = hash_details result_hash expected_hash matched;
      error = none;
    }

-- `ZKMLVerifier.verify_proof`, which reads no proof.
unfoldable pub verify_proof : ℤ → Text → Text → Text → VerificationRecord
verify_proof now fresh job_id verifier = record {
  verification_id = fresh;
  job_id = job_id;
  level = zkml_level;
  result = skipped;
  verifier = verifier;
  created_at = now;
  completed_at = some now;
  details = stub_details;
  error = some (codes "ZKML not implemented");
}

unfoldable pub min_workers : ℕ
min_workers = 3

-- `if text:`, of an optional text
unfoldable pub is_given : Option Text → Bool
is_given none = false
is_given (some t) = leb 1 (length t)

-- `select_level` on the expected hash and the verifiers of the job.
unfoldable pub select_level : VerificationLevel → Option Text → List Text → VerificationLevel
select_level min_level expected_result_hash verifiers =
    if is_given expected_result_hash
    then hash_level
    else if leb min_workers (length verifiers)
    then redundant_level
    else min_level
