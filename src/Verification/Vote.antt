-- ===== src/Verification/Vote.antt =====
-- ai/verification.py: the submissions of workers for one job and RedundantVerifier.evaluate, a vote
-- among them. A refused submission is `none`.
use arche_blockchain.Prelude.{
  ℕ, ◌*◌, Option, none, some, List, [], ◌∷◌, ◌++◌, any, length, ltb, Text, ◌==◌, if◌then◌else◌,
  text_eq,
}
use arche_blockchain.Int.{ℤ}
use arche_blockchain.Dict
use arche_blockchain.Dict.{Dict, contains, put}
use arche_blockchain.Verification.{
  VerificationRecord, verified, pending, disputed, redundant_level, waiting_details, vote_details,
  min_workers, is_given,
}

pub record WorkerSubmission : Type 0 where
  pub worker_address : Text
  pub result_hash : Text
  pub submitted_at : ℤ

unfoldable pub add_submission :
    ℤ → List WorkerSubmission → Text → Text → Option (List WorkerSubmission)
add_submission now submissions worker result_hash =
    if any (λ (s : WorkerSubmission). s.worker_address == worker) submissions
    then none
    else some (
        submissions
        ++ (record { worker_address = worker; result_hash = result_hash; submitted_at = now } ∷ []))

-- `votes`: the workers that submitted each hash.
abbrev pub Votes : Type 0
Votes = Dict Text (List Text)

-- `votes[h]`, the empty list if there is none
unfoldable pub votes_of : Text → Votes → List Text
votes_of h votes = elim (Dict.get h votes) [ none ↦ [] | some workers ↦ workers ]

unfoldable pub add_vote : Text → Text → Votes → Votes
add_vote h worker votes =
    let opened = if contains h votes then votes else put h [] votes in
    put h (votes_of h opened ++ (worker ∷ [])) opened

-- The scan for the first hash with the most votes, from the best so far.
unfoldable pub find_majority : Option Text → ℕ → Votes → Option Text × ℕ
find_majority best count [] = (best, count)
find_majority best count ((h, workers) ∷ votes) =
    let more = ltb count (length workers) in
    find_majority (if more then some h else best) (if more then length workers else count) votes

-- `{h: len(w) for h, w in votes.items()}`
unfoldable pub distribution : Votes → Dict Text ℕ
distribution [] = []
distribution ((h, workers) ∷ votes) = (h, length workers) ∷ distribution votes

module _ (lower : Text → Text) where
  unfoldable pub count_votes : List WorkerSubmission → Votes → Votes
  count_votes [] votes = votes
  count_votes (s ∷ ss) votes =
      count_votes ss (add_vote (lower s.result_hash) s.worker_address votes)

  -- The workers whose hash is another one.
  unfoldable pub others : Text → List WorkerSubmission → List Text
  others h [] = []
  others h (s ∷ ss) =
      let rest = others h ss in if lower s.result_hash == h then rest else s.worker_address ∷ rest

  unfoldable pub find_dishonest : Option Text → List WorkerSubmission → List Text
  find_dishonest none ss = []
  find_dishonest (some h) ss = if is_given (some h) then others h ss else []

  unfoldable pub evaluate_votes :
      ℤ
      → Text
      → Text
      → List WorkerSubmission
      → Text
      → Votes
      → Option Text × ℕ
      → VerificationRecord × Option Text
  evaluate_votes now fresh job_id ss verifier votes (majority_hash, majority_count) =
      let has_majority = ltb (length ss) (2 * majority_count) in
      (
        record {
          verification_id = fresh;
          job_id = job_id;
          level = redundant_level;
          result = if has_majority then verified else disputed;
          verifier = verifier;
          created_at = now;
          completed_at = some now;
          details =
              vote_details (length ss) majority_hash majority_count has_majority
                (distribution votes) (find_dishonest majority_hash ss);
          error = none;
        },
        if has_majority then majority_hash else none,
      )

  unfoldable pub evaluate :
      ℤ → Text → Text → List WorkerSubmission → Text → VerificationRecord × Option Text
  evaluate now fresh job_id ss verifier =
      if ltb (length ss) min_workers
      then (
        record {
          verification_id = fresh;
          job_id = job_id;
          level = redundant_level;
          result = pending;
          verifier = verifier;
          created_at = now;
          completed_at = none;
          details = waiting_details (length ss) min_workers;
          error = none;
        },
        none,
      )
      else (let votes = count_votes ss [] in
          evaluate_votes now fresh job_id ss verifier votes (find_majority none 0 votes))
