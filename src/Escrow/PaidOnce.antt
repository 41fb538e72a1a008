-- ===== src/Escrow/PaidOnce.antt =====
-- No escrow of ai/payment.py is paid twice, whatever calls of the payment manager came before.
use arche_blockchain.Prelude.{
  ◌≡◌, refl, subst, Bool, true, not, ◌&&◌, some, List, [], ◌∷◌, Text, ◌==◌, All, Bool-cases,
  Option-cases, inl, inr, arith, text_eq,
}
use arche_blockchain.Int.{ℤ}
use arche_blockchain.Dict.{values}
use arche_blockchain.Dict.Entries.{All-put}
use arche_blockchain.Escrow.{
  locked, released, refunded, disputed, expired, EscrowRecord, EscrowStore, is_locked,
  is_refundable, is_overdue, is_present, get_by_job, create_escrow, with_escrow, release_to_worker,
  refund_to_requester, open_dispute, expire_all, expire_overdue,
}
use arche_blockchain.Manager.{Outcome, save}
use arche_blockchain.Manager.Keeps.{Keeps, refuse-Keeps, raise_if-Keeps, save-Keeps}

-- The calls of the manager, with the time and the fresh id each one reads.
pub data EscrowCall : Type 0 where
  create : ℤ → Text → Text → Text → Text → ℤ → Text → ℤ → EscrowCall
  release : ℤ → Text → Text → Text → EscrowCall
  refund : ℤ → Text → Text → Text → EscrowCall
  dispute : ℤ → Text → Text → EscrowCall
  expire : ℤ → EscrowCall

-- The store after a call.
unfoldable pub run_escrow : EscrowCall → EscrowStore → EscrowStore
run_escrow (create now id job requester worker amount txid expires) s =
    (create_escrow now id job requester worker amount txid expires s).0
run_escrow (release now job txid by) s = (release_to_worker now job txid by s).0
run_escrow (refund now job txid reason) s = (refund_to_requester now job txid reason s).0
run_escrow (dispute now job reason) s = (open_dispute now job reason s).0
run_escrow (expire now) s = (expire_overdue now s).0

-- A released record has a release and no refund, a refunded one a refund and no release, and the
-- others have neither.
unfoldable pub paid_once : EscrowRecord → Bool
paid_once r = elim r.status [
  | locked ↦ not (is_present r.release_txid) && not (is_present r.refund_txid)
  | released ↦ is_present r.release_txid && not (is_present r.refund_txid)
  | refunded ↦ not (is_present r.release_txid) && is_present r.refund_txid
  | disputed ↦ not (is_present r.release_txid) && not (is_present r.refund_txid)
  | expired ↦ not (is_present r.release_txid) && not (is_present r.refund_txid)
]

abbrev pub IsPaidOnceEntry : Text × EscrowRecord → Type 0
IsPaidOnceEntry e = paid_once e.1 ≡ true

-- Every record of the store is paid at most once.
abbrev pub IsPaidOnce : EscrowStore → Type 0
IsPaidOnce s = All IsPaidOnceEntry s

found-paid_once :
    (job : Text) (r : EscrowRecord) (s : EscrowStore)
    → get_by_job job s ≡ some r
    → IsPaidOnce s
    → paid_once r ≡ true
unfolding get_by_job
found-paid_once job r [] found h = ground arith
found-paid_once job r ((k, v) ∷ s) found (hv, hs) = elim (Bool-cases (v.job_id == job)) [
  | inl same ↦ subst (λ w. paid_once w ≡ true) (ground (arith, same, found)) hv
  | inr other ↦ found-paid_once job r s (ground (arith, other, found)) hs
]

abbrev Kept : Outcome EscrowRecord → Type 0
Kept = Keeps IsPaidOnceEntry

module _ (s : EscrowStore) (h : IsPaidOnce s) where
  with_escrow-IsPaidOnce :
      (job : Text) (rest : EscrowRecord → Outcome EscrowRecord)
      → ((r : EscrowRecord) → paid_once r ≡ true → Kept (rest r))
      → Kept (with_escrow job s rest)
  unfolding with_escrow Keeps
  with_escrow-IsPaidOnce job rest k = elim (Option-cases (get_by_job job s)) [
    | inl missing ↦ rw (with_escrow, missing) (refuse-Keeps IsPaidOnceEntry s h)
    | inr (r, found) ↦ rw (with_escrow, found) (k r (found-paid_once job r s found h))
  ]

  create_escrow-IsPaidOnce :
      (now : ℤ) (id job requester worker : Text) (amount : ℤ) (txid : Text) (expires : ℤ)
      → Kept (create_escrow now id job requester worker amount txid expires s)
  unfolding create_escrow paid_once is_present
  create_escrow-IsPaidOnce now id job requester worker amount txid expires =
      raise_if-Keeps IsPaidOnceEntry s h _ _ λ _.
        raise_if-Keeps IsPaidOnceEntry s h _ _
          λ _. raise_if-Keeps IsPaidOnceEntry s h _ _ λ _. save-Keeps IsPaidOnceEntry s h id _ refl

  release_to_worker-IsPaidOnce :
      (now : ℤ) (job txid by : Text) → Kept (release_to_worker now job txid by s)
  unfolding release_to_worker paid_once is_present is_locked
  release_to_worker-IsPaidOnce now job txid by = with_escrow-IsPaidOnce job _ λ r ok.
      raise_if-Keeps IsPaidOnceEntry s h _ _ λ unpaid. raise_if-Keeps IsPaidOnceEntry s h _ _ λ _.
        raise_if-Keeps IsPaidOnceEntry s h _ _ λ _.
          raise_if-Keeps IsPaidOnceEntry s h _ _
            λ _. save-Keeps IsPaidOnceEntry s h _ _ (ground (arith, ok, unpaid))

  refund_to_requester-IsPaidOnce :
      (now : ℤ) (job txid reason : Text) → Kept (refund_to_requester now job txid reason s)
  unfolding refund_to_requester paid_once is_present is_refundable
  refund_to_requester-IsPaidOnce now job txid reason = with_escrow-IsPaidOnce job _ λ r ok.
      raise_if-Keeps IsPaidOnceEntry s h _ _ λ unpaid. raise_if-Keeps IsPaidOnceEntry s h _ _ λ _.
        raise_if-Keeps IsPaidOnceEntry s h _ _
          λ _. save-Keeps IsPaidOnceEntry s h _ _ (ground (arith, ok, unpaid))

  open_dispute-IsPaidOnce : (now : ℤ) (job reason : Text) → Kept (open_dispute now job reason s)
  unfolding open_dispute paid_once is_present is_locked
  open_dispute-IsPaidOnce now job reason = with_escrow-IsPaidOnce job _ λ r ok.
      raise_if-Keeps IsPaidOnceEntry s h _ _
        λ unpaid. save-Keeps IsPaidOnceEntry s h _ _ (ground (arith, ok, unpaid))

late_entry :
    (now : ℤ) (r : EscrowRecord) (s : EscrowStore)
    → is_overdue now r ≡ true
    → paid_once r ≡ true
    → IsPaidOnce s
    → IsPaidOnce (save r.escrow_id record r { status = expired; updated_at = now } s).0
unfolding is_overdue is_locked paid_once save
late_entry now r s late ok h = All-put IsPaidOnceEntry r.escrow_id _ s (ground (arith, late, ok)) h

expire_all-IsPaidOnce :
    (now : ℤ) (rs : List EscrowRecord) (s : EscrowStore)
    → All (λ r. paid_once r ≡ true) rs
    → IsPaidOnce s
    → IsPaidOnce (expire_all now rs s).0
unfolding expire_all
expire_all-IsPaidOnce now [] s good h = h
expire_all-IsPaidOnce now (r ∷ rs) s good h = elim (Bool-cases (is_overdue now r)) [
  | inl late ↦ rw late (expire_all-IsPaidOnce now rs _ good.1 (late_entry now r s late good.0 h))
  | inr early ↦ rw early (expire_all-IsPaidOnce now rs s good.1 h)
]

IsPaidOnce-values : (s : EscrowStore) → IsPaidOnce s → All (λ r. paid_once r ≡ true) (values s)
IsPaidOnce-values [] h = tt
IsPaidOnce-values (e ∷ s) (he, hs) = (he, IsPaidOnce-values s hs)

-- From a store whose records are paid at most once, every call of the payment manager leads to such
-- a store: a record never holds both a release and a refund, nor either while it is still open.
pub run_escrow-IsPaidOnce :
    (c : EscrowCall) (s : EscrowStore) → IsPaidOnce s → IsPaidOnce (run_escrow c s)
unfolding run_escrow expire_overdue Keeps
run_escrow-IsPaidOnce (create now id job requester worker amount txid expires) s h =
    create_escrow-IsPaidOnce s h now id job requester worker amount txid expires
run_escrow-IsPaidOnce (release now job txid by) s h =
    release_to_worker-IsPaidOnce s h now job txid by
run_escrow-IsPaidOnce (refund now job txid reason) s h =
    refund_to_requester-IsPaidOnce s h now job txid reason
run_escrow-IsPaidOnce (dispute now job reason) s h = open_dispute-IsPaidOnce s h now job reason
run_escrow-IsPaidOnce (expire now) s h = expire_all-IsPaidOnce now _ s (IsPaidOnce-values s h) h
