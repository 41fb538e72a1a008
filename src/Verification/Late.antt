-- ===== src/Verification/Late.antt =====
-- Challenges (ai/verification.py): what every sequence of calls keeps, and what a late response does.
use arche_blockchain.Prelude.{
  ◌≡◌, refl, Bool, true, false, not, ◌&&◌, none, some, List, [], ◌∷◌, Text, ==_refl, text_eq, arith,
}
use arche_blockchain.Int.{ℤ, ltb_ℤ}
use arche_blockchain.Verification.{verified, failed}
use arche_blockchain.Verification.Challenge.{
  Challenge, ChallengeStatus, opened, responded, resolved, timeout, is_open, respond_to_challenge,
  is_unanswered, has_response, resolve_as, resolve_challenge,
}

-- A worker's response or an arbiter's verdict, with the time and the fresh id that the call reads.
pub data ChallengeCall (Proof : Type 0) : Type 0 where
  respond : ℤ → Text → Proof → ChallengeCall Proof
  resolve : ℤ → Text → Text → Bool → Text → ChallengeCall Proof

-- Whether a status goes with a response, a resolution and the time of one: the last two stand exactly
-- on a resolved challenge, a responded one has a response, an open or timed out one has none.
unfoldable pub agrees : ChallengeStatus → Bool → Bool → Bool → Bool
agrees opened answered decided dated = not answered && not decided && not dated
agrees timeout answered decided dated = not answered && not decided && not dated
agrees responded answered decided dated = answered && not decided && not dated
agrees resolved answered decided dated = decided && dated

module _ {Proof : Type 0} where
  unfoldable pub run_challenge : ChallengeCall Proof → Challenge Proof → Challenge Proof
  run_challenge (respond now worker proof) c = (respond_to_challenge now c worker proof).0
  run_challenge (resolve now fresh arbiter is_upheld reasoning) c =
      (resolve_challenge now fresh c arbiter is_upheld reasoning).0

  -- The calls in their order.
  unfoldable pub run_challenges : List (ChallengeCall Proof) → Challenge Proof → Challenge Proof
  run_challenges [] c = c
  run_challenges (call ∷ calls) c = run_challenges calls (run_challenge call c)

  unfoldable pub is_consistent : Challenge Proof → Bool
  is_consistent c =
      agrees c.status (has_response c) (elim c.resolution [ none ↦ false | some r ↦ true ])
        (elim c.resolved_at [ none ↦ false | some t ↦ true ])

  run_challenge-consistent :
      (call : ChallengeCall Proof) (c : Challenge Proof)
      → is_consistent c ≡ true
      → is_consistent (run_challenge call c) ≡ true
  unfolding run_challenge respond_to_challenge resolve_challenge resolve_as is_consistent agrees
      has_response is_open
  run_challenge-consistent (respond now worker proof) c ok = ground (arith, ok)
  run_challenge-consistent (resolve now fresh arbiter is_upheld reasoning) c ok = refl

  -- From a consistent challenge, every sequence of responses and verdicts, refused and late ones
  -- included, leads to a consistent one: a resolution and its time stand exactly on a resolved
  -- challenge, one that counts as responded to has a response, and an open or timed out one has none.
  pub run_challenges-consistent :
      (calls : List (ChallengeCall Proof)) (c : Challenge Proof)
      → is_consistent c ≡ true
      → is_consistent (run_challenges calls c) ≡ true
  unfolding run_challenges
  run_challenges-consistent [] c ok = ok
  run_challenges-consistent (call ∷ calls) c ok =
      run_challenges-consistent calls (run_challenge call c) (run_challenge-consistent call c ok)

  module _ (c : Challenge Proof) (now later : ℤ) (fresh arbiter reasoning : Text)
      (proof : Proof) where
    -- An open challenge past its deadline: a verdict for the worker is turned into one against it,
    -- unless the worker sends a response first. That response raises and is not kept, but the challenge
    -- is then timed out, and the verdict for the worker stands.
    pub late_response_dismisses :
        c.status ≡ opened
        → ltb_ℤ c.deadline now ≡ true
        → ltb_ℤ c.deadline later ≡ true
        → ((resolve_challenge later fresh c arbiter false reasoning).1.result ≡ failed)
          × ((respond_to_challenge now c c.challenged proof).1 ≡ true)
          × ((respond_to_challenge now c c.challenged proof).0.status ≡ timeout)
          × ((respond_to_challenge now c c.challenged proof).0.response ≡ c.response)
          × ((resolve_challenge later fresh
                (respond_to_challenge now c c.challenged proof).0
                arbiter
                false
                reasoning).1.result
              ≡ verified)
    unfolding respond_to_challenge resolve_challenge resolve_as is_unanswered is_open
    late_response_dismisses open_status late after =
        rw (open_status, late, after, ==_refl c.challenged) (refl, refl, refl, refl, refl)
