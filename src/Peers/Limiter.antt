-- ===== src/Peers/Limiter.antt =====
-- The rate limiter of node/p2p.py against the log of the messages it let through.
use arche_blockchain.Prelude.{
  ++_nil, ++_cons, ℕ, ◌+◌, ◌≤◌, ◌&&◌, ◌≡◌, refl, ap, sym, subst, ◌∙◌, true, false, List, [], ◌∷◌,
  ◌++◌, length, leb, Text, ◌==◌, ==_iff, ==_refl, if◌then◌else◌, Bool-cases, inl, inr, arith,
  text_eq,
}
use arche_blockchain.Dict
use arche_blockchain.Dict.{Dict, get-put}
use arche_blockchain.Float.{Float, IsOrdered, ◌≼◌}
use arche_blockchain.Peers.{RateLimiter, new_limiter, times_of, after, check}

module _ {W : Type 0} ⦃fl : Float W⦄ where
  -- The calls of `check` in their order, each with its time and its peer.
  unfoldable pub run_checks : List (W × Text) → RateLimiter W → RateLimiter W
  run_checks [] limiter = limiter
  run_checks ((now, peer) ∷ calls) limiter = run_checks calls (check now peer limiter).0

  -- The times at which the calls let a message of the peer through.
  unfoldable pub passed : Text → List (W × Text) → RateLimiter W → List W
  passed peer [] limiter = []
  passed peer ((now, other) ∷ calls) limiter =
      let rest = passed peer calls (check now other limiter).0 in
      if other == peer && (check now other limiter).1 then now ∷ rest else rest

  -- The clock of the calls never goes back, from a first time on.
  abbrev pub IsTimed : W → List (W × Text) → Type 0
  IsTimed since [] = Unit
  IsTimed since ((now, peer) ∷ calls) = since ≼ now × IsTimed now calls

  -- The time of the last call.
  unfoldable pub last_time : W → List (W × Text) → W
  last_time since [] = since
  last_time since ((now, peer) ∷ calls) = last_time now calls

  after-++ : (c : W) (xs ys : List W) → after c (xs ++ ys) ≡ after c xs ++ after c ys
  unfolding after
  after-++ c [] ys = refl
  after-++ c (x ∷ xs) ys = elim (Bool-cases (fl.lt c x)) [
    | inl late ↦ rw (late, after-++ c xs ys) refl
    | inr early ↦ rw (early, after-++ c xs ys) refl
  ]

  length-++ : (xs ys : List W) → length (xs ++ ys) ≡ length xs + length ys
  length-++ [] ys = ground arith
  length-++ (x ∷ xs) ys = ground (arith, length-++ xs ys)

  length-after : (c : W) (xs : List W) → length (after c xs) ≤ length xs
  unfolding after
  length-after c [] = ground arith
  length-after c (x ∷ xs) = ground (arith, length-after c xs)

  module _ ⦃ord : IsOrdered W⦄ where
    -- A later cutoff keeps less.
    after-after : (c d : W) (xs : List W) → c ≼ d → after d (after c xs) ≡ after d xs
    unfolding after
    after-after c d [] h = refl
    after-after c d (x ∷ xs) h = elim (Bool-cases (fl.lt c x)) [
      | inl late ↦ elim (Bool-cases (fl.lt d x)) [
        | inl later ↦ rw (late, later, after-after c d xs h) refl
        | inr before ↦ rw (late, before, after-after c d xs h) refl
      ]
      | inr early ↦
          let before : fl.lt d x ≡ false =
            ground (arith, early, h, ord.lt-eq c x, ord.lt-eq d x, ord.le_trans x c d) in
          rw (early, before, after-after c d xs h) refl
    ]

    -- With each later cutoff fewer times are left.
    after_shrinks :
        (c d : W) (xs : List W) (n : ℕ) → c ≼ d → length (after c xs) ≤ n → length (after d xs) ≤ n
    after_shrinks c d xs n h few =
        let q : length (after d xs) ≤ length (after c xs) =
          subst (λ ys. length ys ≤ length (after c xs)) (after-after c d xs h)
            (length-after d (after c xs)) in
        omega (arith, q, few)

    module _ (rate : ℕ) (window : W) (peer : Text) where
      abbrev limiter : Dict Text (List W) → RateLimiter W
      limiter counts = record { rate = rate; window = window; counts = counts }

      -- The stored times and the log agree from the cutoff of a time on, and are few there.
      record IsHeld (now : W) (counts : Dict Text (List W)) (log : List W) : Type 0 where
        agree : (c : W) → fl.sub now window ≼ c → after c (times_of peer counts) ≡ after c log
        few : length (after (fl.sub now window) log) ≤ rate

      times_of-put :
          (q : Text) (ts : List W) (counts : Dict Text (List W))
          → times_of peer (Dict.put q ts counts) ≡ (if q == peer then ts else times_of peer counts)
      unfolding times_of
      times_of-put q ts counts = elim (Bool-cases (q == peer)) [
        | inl same ↦ rw (times_of, get-put peer q ts counts, same) refl
        | inr other ↦ rw (times_of, get-put peer q ts counts, other) refl
      ]

      module _ (since now : W) (counts : Dict Text (List W)) (log : List W) (timed : since ≼ now)
          (held : IsHeld since counts log) where
        later : fl.sub since window ≼ fl.sub now window
        later = ord.sub_mono since now window timed

        -- A call for another peer.
        other-IsHeld :
            (q : Text) (ts : List W) → (q == peer) ≡ false → IsHeld now (Dict.put q ts counts) log
        other-IsHeld q ts other = record {
          agree = λ c h.
              rw (times_of-put q ts counts, other) (held.agree c (ord.le_trans _ _ _ later h));
          few = after_shrinks _ _ log rate later held.few;
        }

        abbrev kept : List W
        kept = after (fl.sub now window) (times_of peer counts)

        kept_agree : (c : W) → fl.sub now window ≼ c → after c kept ≡ after c log
        kept_agree c h =
            after-after (fl.sub now window) c (times_of peer counts) h
            ∙ held.agree c (ord.le_trans _ _ _ later h)

        refused-IsHeld : IsHeld now (Dict.put peer kept counts) log
        refused-IsHeld = record {
          agree = λ c h. rw (times_of-put peer kept counts, ==_refl peer) (kept_agree c h);
          few = after_shrinks _ _ log rate later held.few;
        }

        passed-IsHeld :
            leb rate (length kept) ≡ false
            → IsHeld now (Dict.put peer (kept ++ (now ∷ [])) counts) (log ++ (now ∷ []))
        passed-IsHeld free = record {
          agree = λ c h.
              rw
                (
                  times_of-put peer (kept ++ (now ∷ [])) counts,
                  ==_refl peer,
                  after-++ c kept (now ∷ []),
                  after-++ c log (now ∷ []),
                  kept_agree c h,
                )
                refl;
          few =
              let c = fl.sub now window in
              let same : length kept ≡ length (after c log) = ap length (held.agree c later) in
              let one = length-after c (now ∷ []) in
              rw (after-++ c log (now ∷ []))
                (ground (arith, length-++ (after c log) (after c (now ∷ [])), same, one, free));
        }

      -- What one call of `check` stores and tells.
      check_refuses :
          (now : W) (q : Text) (counts : Dict Text (List W))
          → leb rate (length (after (fl.sub now window) (times_of q counts))) ≡ true
          → check now q (limiter counts)
            ≡ (limiter (Dict.put q (after (fl.sub now window) (times_of q counts)) counts), false)
      unfolding check
      check_refuses now q counts full = rw full refl

      check_passes :
          (now : W) (q : Text) (counts : Dict Text (List W))
          → leb rate (length (after (fl.sub now window) (times_of q counts))) ≡ false
          → check now q (limiter counts) ≡ (
            limiter
                (Dict.put q (after (fl.sub now window) (times_of q counts) ++ (now ∷ [])) counts),
            true,
          )
      unfolding check
      check_passes now q counts free = rw free refl

      bounded_from :
          (since : W) (calls : List (W × Text)) (counts : Dict Text (List W)) (log : List W)
          → IsTimed since calls
          → IsHeld since counts log
          → length (
              after
                (fl.sub (last_time since calls) window)
                (log ++ passed peer calls (limiter counts)))
            ≤ rate
      unfolding passed last_time
      bounded_from since [] counts log timed held = rw (++_nil log) held.few
      bounded_from since ((now, q) ∷ calls) counts log (h, timed) held =
          elim (Bool-cases (leb rate (length (after (fl.sub now window) (times_of q counts))))) [
            | inl full ↦ elim (Bool-cases (q == peer)) [
              | inl same ↦
                  rw (check_refuses now q counts full, same)
                    (bounded_from now calls _ log timed (
                      subst
                        (λ i.
                          IsHeld now
                            (Dict.put i (after (fl.sub now window) (times_of i counts)) counts) log)
                        (sym ((==_iff q peer).0 same))
                        (refused-IsHeld since now counts log h held)))
              | inr other ↦
                  rw (check_refuses now q counts full, other)
                    (bounded_from now calls _ log timed
                      (other-IsHeld since now counts log h held q _ other))
            ]
            | inr free ↦ elim (Bool-cases (q == peer)) [
              | inl same ↦
                  rw (check_passes now q counts free, same, ++_cons log now)
                    (bounded_from now calls _ (log ++ (now ∷ [])) timed (
                      subst
                        (λ i.
                          leb rate (length (after (fl.sub now window) (times_of i counts))) ≡ false
                          → IsHeld now
                              (Dict.put i
                                (after (fl.sub now window) (times_of i counts) ++ (now ∷ []))
                                counts)
                              (log ++ (now ∷ [])))
                        (sym ((==_iff q peer).0 same)) (passed-IsHeld since now counts log h held)
                        free))
              | inr other ↦
                  rw (check_passes now q counts free, other)
                    (bounded_from now calls _ log timed
                      (other-IsHeld since now counts log h held q _ other))
            ]
          ]

      -- From an empty limiter and without a cleanup, whatever calls of `check` come for whatever
      -- peers, as long as the clock never goes back: of the messages of one peer that were let
      -- through, at most `rate` lie in the window that ends with the last call. The floating-point
      -- numbers satisfy the laws of IsOrdered.
      pub passed_bounded :
          (since : W) (calls : List (W × Text))
          → IsTimed since calls
          → length (
              after
                (fl.sub (last_time since calls) window)
                (passed peer calls (new_limiter rate window)))
            ≤ rate
      unfolding times_of Dict.get after
      passed_bounded since calls timed =
          bounded_from since calls [] [] timed (record { agree = λ c h. refl; few = ground arith })
