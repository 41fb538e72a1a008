-- ===== src/Worker/Found.antt =====
-- The workers that find_suitable_workers and get_by_address (ai/worker.py) return are in the store,
-- each under its id, and can be assigned.
use arche_blockchain.Prelude.{
  ◌≡◌, refl, subst, Bool, true, false, ◌&&◌, some, List, [], ◌∷◌, Text, All, Bool-cases, inl, inr,
  arith, text_eq, ◌==◌, ==_iff,
}
use arche_blockchain.Prelude.Sort.{All-sort_by}
use arche_blockchain.Int.{ℤ}
use arche_blockchain.Dict
use arche_blockchain.Dict.{Dict, values, contains, get-put}
use arche_blockchain.Dict.Keys.{IsDict, All-found, All-apart}
use arche_blockchain.Float.{Float}
use arche_blockchain.Manager.{raise_if, save, with_entry}
use arche_blockchain.Job.{ComputeRequirement}
use arche_blockchain.Worker.{
  AiWorker, WorkerStore, inactive, busy, assign_job, is_available, get_by_address,
}
use arche_blockchain.Worker.Search.{
  available, is_stale, suits, ranks_before, find_each, find_suitable_workers,
}

module _ {W : Type 0} where
  abbrev OwnId : Text × AiWorker W → Type 0
  OwnId e = e.0 ≡ e.1.worker_id

  -- Every worker stands once, under its own id.
  pub record IsFiled (s : WorkerStore W) : Type 0 where
    pub unique : IsDict s
    pub own : All OwnId s

  -- The worker is in the store and free.
  pub record IsReady (s : WorkerStore W) (w : AiWorker W) : Type 0 where
    pub stored : Dict.get w.worker_id s ≡ some w
    pub free : is_available w ≡ true

  abbrev Apart : AiWorker W → AiWorker W → Type 0
  Apart w v = (w.worker_id == v.worker_id) ≡ false

  abbrev AllApart : List (AiWorker W) → Type 0
  AllApart [] = Unit
  AllApart (w ∷ ws) = All (Apart w) ws × AllApart ws

  Apart-values :
      (k : Text) (w : AiWorker W) (s : WorkerStore W)
      → k ≡ w.worker_id
      → All OwnId s
      → All (λ (e : Text × AiWorker W). (k == e.0) ≡ false) s
      → All (Apart w) (available (values s))
  unfolding available
  Apart-values k w [] own owns h = tt
  Apart-values k w ((j, v) ∷ s) own (o, owns) (p, h) =
      let rest = Apart-values k w s own owns h in
      elim (Bool-cases (is_available v)) [
        | inl free ↦ rw free ((cc (p, own, o)), rest)
        | inr taken ↦ rw taken rest
      ]

  AllApart-available :
      (s : WorkerStore W) → IsDict s → All OwnId s → AllApart (available (values s))
  unfolding available
  AllApart-available [] d own = tt
  AllApart-available ((k, w) ∷ s) (new, d) (o, own) =
      let rest = AllApart-available s d own in
      elim (Bool-cases (is_available w)) [
        | inl free ↦ rw free (Apart-values k w s o own (All-apart k s new), rest)
        | inr taken ↦ rw taken rest
      ]

  IsReady-available :
      (all s : WorkerStore W)
      → All OwnId s
      → All (λ (e : Text × AiWorker W). Dict.get e.0 all ≡ some e.1) s
      → All (IsReady all) (available (values s))
  unfolding available
  IsReady-available all [] own h = tt
  IsReady-available all ((k, w) ∷ s) (o, own) (p, h) =
      let rest = IsReady-available all s own h in
      elim (Bool-cases (is_available w)) [
        | inl free ↦
            rw free
              (record { stored = subst (λ i. Dict.get i all ≡ some w) o p; free = free }, rest)
        | inr taken ↦ rw taken rest
      ]

  -- A write of another worker.
  put-IsReady :
      (w v v' : AiWorker W) (s : WorkerStore W)
      → Apart v w
      → IsReady s w
      → IsReady (Dict.put v.worker_id v' s) w
  put-IsReady w v v' s other h = record {
    stored = rw (get-put w.worker_id v.worker_id v' s, other) h.stored;
    free = h.free;
  }

  put-All-IsReady :
      (v v' : AiWorker W) (ws : List (AiWorker W)) (s : WorkerStore W)
      → All (Apart v) ws
      → All (IsReady s) ws
      → All (IsReady (Dict.put v.worker_id v' s)) ws
  put-All-IsReady v v' [] s other h = tt
  put-All-IsReady v v' (w ∷ ws) s (o, other) (p, h) =
      (put-IsReady w v v' s o p, put-All-IsReady v v' ws s other h)

  pub get_by_address-IsReady :
      (all : WorkerStore W) (address : Text) (w : AiWorker W) (s : WorkerStore W)
      → All OwnId s
      → All (λ (e : Text × AiWorker W). Dict.get e.0 all ≡ some e.1) s
      → get_by_address address s ≡ some w
      → is_available w ≡ true
      → IsReady all w
  unfolding get_by_address
  get_by_address-IsReady all address w [] own h found free = ground (arith, found)
  get_by_address-IsReady all address w ((k, v) ∷ s) (o, own) (p, h) found free =
      elim (Bool-cases (v.address == address)) [
        | inl here ↦
            let q : v ≡ w = ground (arith, here, found) in
            subst (λ x. is_available x ≡ true → IsReady all x) q
              (λ f. record { stored = subst (λ i. Dict.get i all ≡ some v) o p; free = f }) free
        | inr there ↦
            get_by_address-IsReady all address w s own h (ground (arith, there, found)) free
      ]

-- The worker after it was assigned a job.
abbrev pub hired_worker : {W : Type 0} → Text → AiWorker W → AiWorker W
hired_worker id w = record w { status = busy; current_job = some id }

pub assign_ready :
    {W : Type 0} (id : Text) (w : AiWorker W) (s : WorkerStore W)
    → IsReady s w
    → assign_job w.worker_id id s
      ≡ (Dict.put w.worker_id (hired_worker id w) s, some (hired_worker id w))
unfolding assign_job with_entry raise_if save
assign_ready id w s ready = rw (assign_job, with_entry, ready.stored, ready.free) refl

module _ {W : Type 0} ⦃fl : Float W⦄ where
  module _ (now : ℤ) (suitable : AiWorker W → Bool) where
    find_each_keeps :
        (w : AiWorker W) (ws : List (AiWorker W)) (s : WorkerStore W)
        → All (λ (v : AiWorker W). Apart v w) ws
        → IsReady s w
        → IsReady (find_each now suitable ws s).0 w
    unfolding find_each
    find_each_keeps w [] s other h = h
    find_each_keeps w (v ∷ ws) s (o, other) h = elim (Bool-cases (suitable v && is_stale now v)) [
      | inl stale ↦
          rw stale
            (find_each_keeps w ws _ other (put-IsReady w v record v { status = inactive } s o h))
      | inr fresh ↦ rw fresh (find_each_keeps w ws s other h)
    ]

    flip-Apart :
        (w : AiWorker W) (ws : List (AiWorker W))
        → All (Apart w) ws
        → All (λ (v : AiWorker W). Apart v w) ws
    flip-Apart w [] h = tt
    flip-Apart w (v ∷ ws) (o, h) = (
      (ground (arith, o, ==_iff w.worker_id v.worker_id, ==_iff v.worker_id w.worker_id)),
      flip-Apart w ws h,
    )

    find_each-IsReady :
        (ws : List (AiWorker W)) (s : WorkerStore W)
        → AllApart ws
        → All (IsReady s) ws
        → All (IsReady (find_each now suitable ws s).0) (find_each now suitable ws s).1
    unfolding find_each
    find_each-IsReady [] s other h = tt
    find_each-IsReady (w ∷ ws) s (o, other) (p, h) = elim (Bool-cases (suitable w)) [
      | inr unfit ↦ rw unfit (find_each-IsReady ws s other h)
      | inl fit ↦ elim (Bool-cases (is_stale now w)) [
        | inl stale ↦
            rw (fit, stale)
              (find_each-IsReady ws _ other
                (put-All-IsReady w record w { status = inactive } ws s o h))
        | inr fresh ↦
            rw (fit, fresh)
              (find_each_keeps w ws s (flip-Apart w ws o) p, find_each-IsReady ws s other h)
      ]
    ]

  -- The workers found are in the store that the search leaves, and free.
  pub find_suitable_workers-IsReady :
      (now : ℤ) (req : ComputeRequirement) (max_price : ℤ) (min_reputation : W) (s : WorkerStore W)
      → IsFiled s
      → All
          (IsReady (find_suitable_workers now req max_price min_reputation s).0)
          (find_suitable_workers now req max_price min_reputation s).1
  unfolding find_suitable_workers
  find_suitable_workers-IsReady now req max_price min_reputation s filed =
      All-sort_by ranks_before (IsReady _) _ (
        find_each-IsReady now (suits req max_price min_reputation) _ s
          (AllApart-available s filed.unique filed.own)
          (IsReady-available s s filed.own (All-found s filed.unique)))
