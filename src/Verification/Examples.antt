-- ===== src/Verification/Examples.antt =====
-- Votes and challenges of result verification at concrete inputs.
use arche_blockchain.Prelude.{
  ◌≡◌, refl, true, false, none, some, List, [], ◌∷◌, Text, codes, arith, text_beq, ℕ,
}
use arche_blockchain.Int.{pos}
use arche_blockchain.Verification.{min_workers, verified, failed}
use arche_blockchain.Verification.Vote.{WorkerSubmission, evaluate}
use arche_blockchain.Verification.Majority.{tally, evaluate_iff}
use arche_blockchain.Verification.Challenge.{
  Challenge, opened, timeout, respond_to_challenge, resolve_challenge, has_response,
}
use arche_blockchain.Verification.Late.{
  ChallengeCall, respond, resolve, agrees, is_consistent, run_challenges, run_challenges-consistent,
  late_response_dismisses,
}

-- Texts without capitals.
abbrev as_is : Text → Text
as_is t = t

abbrev three_votes : List WorkerSubmission
three_votes =
    record { worker_address = codes "w1"; result_hash = codes "aa"; submitted_at = pos 1 }
    ∷ (record { worker_address = codes "w2"; result_hash = codes "bb"; submitted_at = pos 2 }
        ∷ (record { worker_address = codes "w3"; result_hash = codes "aa"; submitted_at = pos 3 }
            ∷ []))

evaluate_iff_example :
    (evaluate as_is (pos 9) (codes "v") (codes "j") three_votes (codes "system")).1
    ≡ some (codes "aa")
unfolding min_workers tally text_beq
evaluate_iff_example =
    (evaluate_iff as_is three_votes (pos 9) (codes "v") (codes "j") (codes "system") (codes "aa")).1
      (ground arith, ground arith)

abbrev challenge : Challenge ℕ
challenge = record {
  challenge_id = codes "c";
  job_id = codes "j";
  challenger = codes "r";
  challenged = codes "w";
  reason = codes "wrong";
  status = opened;
  created_at = pos 100;
  deadline = pos 3700;
  response = none;
  resolved_at = none;
  resolution = none;
}

abbrev calls : List (ChallengeCall ℕ)
calls = respond (pos 200) (codes "w") 7 ∷ (resolve (pos 300) (codes "v") (codes "a") true [] ∷ [])

run_challenges-consistent_example : is_consistent (run_challenges calls challenge) ≡ true
unfolding is_consistent agrees has_response
run_challenges-consistent_example = run_challenges-consistent calls challenge refl

late_response_dismisses_example :
    ((resolve_challenge (pos 4000) (codes "v") challenge (codes "a") false []).1.result ≡ failed)
    × ((respond_to_challenge (pos 3800) challenge (codes "w") 7).1 ≡ true)
    × ((respond_to_challenge (pos 3800) challenge (codes "w") 7).0.status ≡ timeout)
    × ((respond_to_challenge (pos 3800) challenge (codes "w") 7).0.response ≡ none)
    × ((resolve_challenge
          (pos 4000)
          (codes "v")
          (respond_to_challenge (pos 3800) challenge (codes "w") 7).0
          (codes "a")
          false
          []).1.result
        ≡ verified)
late_response_dismisses_example =
    late_response_dismisses challenge (pos 3800) (pos 4000) (codes "v") (codes "a") [] 7 refl refl
      refl
