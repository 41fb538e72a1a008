-- ===== src/Verification/Majority.antt =====
-- The vote of the redundant verifier (ai/verification.py) against a count of the submissions.
use arche_blockchain.Prelude.{
  ℕ, suc, ◌+◌, ◌*◌, ◌≤◌, ◌<◌, ◌≡◌, ◌⊎◌, ◌↔◌, refl, false, Option, none, some, List, [], ◌∷◌, ◌++◌,
  length, ltb, Text, ◌==◌, ==_iff, ==_refl, if◌then◌else◌, text_eq, arith, inl, inr, Bool-cases,
  Option-cases,
}
use arche_blockchain.Int.{ℤ}
use arche_blockchain.Dict
use arche_blockchain.Dict.{Dict, contains, put, get-put, contains-get}
use arche_blockchain.Dict.Keys.{IsDict, put-IsDict}
use arche_blockchain.Verification.{min_workers}
use arche_blockchain.Verification.Vote.{
  WorkerSubmission, Votes, votes_of, add_vote, find_majority, count_votes, evaluate_votes, evaluate,
}

-- How many votes the dictionary has for a hash.
abbrev support : Text → Votes → ℕ
support h votes = length (votes_of h votes)

length-snoc : (xs : List Text) (x : Text) → length (xs ++ (x ∷ [])) ≡ suc (length xs)
length-snoc [] x = refl
length-snoc (y ∷ xs) x = ground (arith, length-snoc xs x)

support_cons :
    (h k : Text) (ws : List Text) (votes : Votes)
    → support h ((k, ws) ∷ votes) ≡ (if k == h then length ws else support h votes)
unfolding votes_of Dict.get
support_cons h k ws votes = elim (Bool-cases (k == h)) [
  | inl same ↦ rw (votes_of, Dict.get, same) refl
  | inr other ↦ rw (votes_of, Dict.get, other) refl
]

support_absent : (h : Text) (votes : Votes) → contains h votes ≡ false → support h votes ≡ 0
unfolding votes_of
support_absent h votes absent = elim (Option-cases (Dict.get h votes)) [
  | inl missing ↦ rw (votes_of, missing) refl
  | inr (ws, found) ↦ ground (arith, contains-get h votes, found, absent)
]

votes_of-put :
    (h k : Text) (ws : List Text) (votes : Votes)
    → votes_of h (put k ws votes) ≡ (if k == h then ws else votes_of h votes)
unfolding votes_of
votes_of-put h k ws votes = elim (Bool-cases (k == h)) [
  | inl same ↦ rw (votes_of, get-put h k ws votes, same) refl
  | inr other ↦ rw (votes_of, get-put h k ws votes, other) refl
]

pushed :
    (h k worker : Text) (votes : Votes)
    → support h (put k (votes_of k votes ++ (worker ∷ [])) votes)
      ≡ (if k == h then suc (support h votes) else support h votes)
pushed h k worker votes = elim (Bool-cases (k == h)) [
  | inl same ↦
      rw
        (
          votes_of-put h k (votes_of k votes ++ (worker ∷ [])) votes,
          same,
          length-snoc (votes_of k votes) worker,
        )
        (cc ((==_iff k h).0 same))
  | inr other ↦ rw (votes_of-put h k (votes_of k votes ++ (worker ∷ [])) votes, other) refl
]

-- A vote counts for its hash and for no other.
support-add_vote :
    (h k worker : Text) (votes : Votes)
    → support h (add_vote k worker votes)
      ≡ (if k == h then suc (support h votes) else support h votes)
unfolding add_vote
support-add_vote h k worker votes = elim (Bool-cases (contains k votes)) [
  | inl old ↦ rw old (pushed h k worker votes)
  | inr new ↦ rw new (
      ground (
        arith,
        pushed h k worker (put k [] votes),
        votes_of-put h k [] votes,
        support_absent h votes,
        ==_iff k h,
        new,
      ))
]

module _ (lower : Text → Text) where
  -- How many submissions have the hash.
  unfoldable pub tally : Text → List WorkerSubmission → ℕ
  tally h [] = 0
  tally h (s ∷ ss) = let rest = tally h ss in if lower s.result_hash == h then suc rest else rest

  support-count_votes :
      (h : Text) (ss : List WorkerSubmission) (votes : Votes)
      → support h (count_votes lower ss votes) ≡ support h votes + tally h ss
  unfolding count_votes tally
  support-count_votes h [] votes = ground arith
  support-count_votes h (s ∷ ss) votes = ground (
    arith,
    support-count_votes h ss (add_vote (lower s.result_hash) s.worker_address votes),
    support-add_vote h (lower s.result_hash) s.worker_address votes,
  )

  support_all :
      (h : Text) (ss : List WorkerSubmission) → support h (count_votes lower ss []) ≡ tally h ss
  unfolding votes_of Dict.get
  support_all h ss = omega (arith, support-count_votes h ss [])

  count_votes-IsDict :
      (ss : List WorkerSubmission) (votes : Votes)
      → IsDict votes
      → IsDict (count_votes lower ss votes)
  unfolding count_votes add_vote
  count_votes-IsDict [] votes h = h
  count_votes-IsDict (s ∷ ss) votes h = elim (Bool-cases (contains (lower s.result_hash) votes)) [
    | inl old ↦ rw old (count_votes-IsDict ss _ (put-IsDict _ _ votes h))
    | inr new ↦ rw new (count_votes-IsDict ss _ (put-IsDict _ _ _ (put-IsDict _ _ votes h)))
  ]

  -- Two hashes share no submission.
  tally_two :
      (h k : Text) (ss : List WorkerSubmission)
      → (h == k) ≡ false
      → tally h ss + tally k ss ≤ length ss
  unfolding tally
  tally_two h k [] other = ground arith
  tally_two h k (s ∷ ss) other = ground (
    arith,
    tally_two h k ss other,
    ==_iff (lower s.result_hash) h,
    ==_iff (lower s.result_hash) k,
    ==_iff h k,
  )

-- What the scan finds.
record Found (best : Option Text) (count : ℕ) (votes : Votes) (r : Option Text × ℕ) : Type 0 where
  most : (h : Text) → support h votes ≤ r.1
  grown : count ≤ r.1
  source :
      (r ≡ (best, count)) ⊎ ((h : Text) × (r.0 ≡ some h) × (r.1 ≡ support h votes) × (count < r.1))

module _ (k : Text) (ws : List Text) (votes : Votes) (new : contains k votes ≡ false) where
  -- A hash with a vote in the rest is another one than the first.
  later : (h : Text) (n : ℕ) → n < support h votes → support h ((k, ws) ∷ votes) ≡ support h votes
  later h n some_vote = elim (Bool-cases (k == h)) [
    | inl same ↦ ground (arith, some_vote, support_absent k votes new, (==_iff k h).0 same)
    | inr other ↦ ground (arith, other, support_cons h k ws votes)
  ]

  module _ (best : Option Text) (count : ℕ) (r : Option Text × ℕ) where
    take_first :
        count < length ws
        → Found (some k) (length ws) votes r
        → Found best count ((k, ws) ∷ votes) r
    take_first more found = record {
      most = λ h. ground (arith, support_cons h k ws votes, found.most h, found.grown);
      grown = omega (arith, found.grown, more);
      source = inr (elim found.source [
        | inl q ↦ rw q (k, refl, (rw (support_cons k k ws votes, ==_refl k) refl), more)
        | inr (h, p, n, above) ↦ (
          h,
          p,
          (ground (arith, n, later h (length ws) (ground (arith, n, above)))),
          omega (arith, more, above),
        )
      ]);
    }

    leave_first :
        length ws ≤ count → Found best count votes r → Found best count ((k, ws) ∷ votes) r
    leave_first less found = record {
      most = λ h. ground (arith, support_cons h k ws votes, found.most h, found.grown);
      grown = found.grown;
      source = elim found.source [
        | inl q ↦ inl q
        | inr (h, p, n, above) ↦
            inr (h, p, (ground (arith, n, later h count (ground (arith, n, above)))), above)
      ];
    }

find_majority-Found :
    (best : Option Text) (count : ℕ) (votes : Votes)
    → IsDict votes
    → Found best count votes (find_majority best count votes)
unfolding find_majority votes_of Dict.get
find_majority-Found best count [] d = record {
  most = λ h. ground arith;
  grown = ground arith;
  source = inl refl;
}
find_majority-Found best count ((k, ws) ∷ votes) (new, d) =
    elim (Bool-cases (ltb count (length ws))) [
      | inl more ↦ rw more (
          take_first k ws votes new best count _ (ground (arith, more))
            (find_majority-Found (some k) (length ws) votes d))
      | inr less ↦ rw less (
          leave_first k ws votes new best count _ (ground (arith, less))
            (find_majority-Found best count votes d))
    ]

module _ (lower : Text → Text) (ss : List WorkerSubmission) where
  -- The scan's result, where the votes count the submissions.
  winner_sound :
      (h : Text) (votes : Votes) (r : Option Text × ℕ)
      → Found none 0 votes r
      → ((k : Text) → support k votes ≡ tally lower k ss)
      → (if ltb (length ss) (2 * r.1) then r.0 else none) ≡ some h
      → length ss < 2 * tally lower h ss
  winner_sound h votes r found counts wins = elim found.source [
    | inl q ↦ ground (arith, q, wins)
    | inr (k, p, n, above) ↦ ground (arith, p, n, above, wins, counts h, counts k)
  ]

  winner_complete :
      (h : Text) (votes : Votes) (r : Option Text × ℕ)
      → Found none 0 votes r
      → ((k : Text) → support k votes ≡ tally lower k ss)
      → length ss < 2 * tally lower h ss
      → (if ltb (length ss) (2 * r.1) then r.0 else none) ≡ some h
  winner_complete h votes r found counts most = elim found.source [
    | inl q ↦ ground (arith, q, most, counts h, found.most h)
    | inr (k, p, n, above) ↦ ground (
      arith,
      p,
      n,
      above,
      most,
      counts h,
      counts k,
      found.most h,
      tally_two lower k h ss,
      ==_iff k h,
    )
  ]

  module _ (now : ℤ) (fresh job_id verifier h : Text) where
    -- The vote returns a hash exactly if there are at least three submissions and more than half of
    -- them have that hash, in lower case. No tie and no order of the submissions changes it.
    pub evaluate_iff :
        ((evaluate lower now fresh job_id ss verifier).1 ≡ some h)
        ↔ ((min_workers ≤ length ss) × (length ss < 2 * tally lower h ss))
    unfolding evaluate evaluate_votes
    evaluate_iff =
        let votes = count_votes lower ss [] in
        let counts = λ (k : Text). support_all lower k ss in
        let found = find_majority-Found none 0 votes (count_votes-IsDict lower ss [] tt) in
        elim (Bool-cases (ltb (length ss) min_workers)) [
          | inl few ↦ ground (arith, few)
          | inr many ↦ rw many (
            λ wins. (ground (arith, many), winner_sound h votes _ found counts wins),
            λ p. winner_complete h votes _ found counts p.1,
          )
        ]
