-- ===== src/Escrow.antt =====
-- ai/payment.py: escrow records, their store and the operations of the payment manager. The time is
-- an argument, the fresh escrow id too.
mod PaidOnce
mod Stuck
mod Examples
use arche_blockchain.Prelude.{
  Bool, true, false, not, ◌&&◌, ◌||◌, Option, none, some, List, [], ◌∷◌, length, Text, codes, ◌==◌,
  if◌then◌else◌, nat_eq, text_eq,
}
use arche_blockchain.Int.{ℤ, pos, ◌+ℤ◌, ltb_ℤ, leb_ℤ}
use arche_blockchain.Dict.{Dict, values}
use arche_blockchain.Manager.{Outcome, refuse, raise_if, save}

pub data EscrowStatus : Type 0 where
  locked : EscrowStatus
  released : EscrowStatus
  refunded : EscrowStatus
  disputed : EscrowStatus
  expired : EscrowStatus

pub record EscrowRecord : Type 0 where
  escrow_id : Text
  job_id : Text
  requester : Text
  worker : Text
  amount : ℤ
  lock_txid : Text
  release_txid : Option Text
  refund_txid : Option Text
  status : EscrowStatus
  created_at : ℤ
  updated_at : ℤ
  expires_at : ℤ
  dispute_reason : Option Text

-- The stored `_records`, by id.
abbrev pub EscrowStore : Type 0
EscrowStore = Dict Text EscrowRecord

unfoldable pub is_locked : EscrowStatus → Bool
is_locked locked = true
is_locked _ = false

unfoldable pub is_released : EscrowStatus → Bool
is_released released = true
is_released _ = false

-- `status in (LOCKED, DISPUTED, EXPIRED)`
unfoldable pub is_refundable : EscrowStatus → Bool
is_refundable locked = true
is_refundable disputed = true
is_refundable expired = true
is_refundable _ = false

unfoldable pub is_overdue : ℤ → EscrowRecord → Bool
is_overdue now r = is_locked r.status && ltb_ℤ r.expires_at now

-- `get_by_job`: the first record of the job.
unfoldable pub get_by_job : Text → EscrowStore → Option EscrowRecord
get_by_job job_id [] = none
get_by_job job_id ((k, r) ∷ store) =
    let rest = get_by_job job_id store in if r.job_id == job_id then some r else rest

-- `not txid or len(txid) != 64`, negated
unfoldable pub is_txid : Text → Bool
is_txid txid = length txid == 64

unfoldable pub is_present : Option Text → Bool
is_present none = false
is_present (some _) = true

-- `existing and existing.status == LOCKED`
unfoldable pub has_lock : Option EscrowRecord → Bool
has_lock none = false
has_lock (some r) = is_locked r.status

unfoldable pub create_escrow :
    ℤ → Text → Text → Text → Text → ℤ → Text → ℤ → EscrowStore → Outcome EscrowRecord
create_escrow now fresh job_id requester worker amount lock_txid expires_at store =
    raise_if (has_lock (get_by_job job_id store)) store (
      raise_if (leb_ℤ amount (pos 0)) store (
        raise_if (not (is_txid lock_txid)) store (
          save fresh
            record {
              escrow_id = fresh;
              job_id = job_id;
              requester = requester;
              worker = worker;
              amount = amount;
              lock_txid = lock_txid;
              release_txid = none;
              refund_txid = none;
              status = locked;
              created_at = now;
              updated_at = now;
              expires_at = expires_at;
              dispute_reason = none;
            }
            store)))

-- `_get_by_job_or_raise`, and the rest of the call.
unfoldable pub with_escrow :
    Text → EscrowStore → (EscrowRecord → Outcome EscrowRecord) → Outcome EscrowRecord
with_escrow job_id store rest = elim (get_by_job job_id store) [
  | none ↦ refuse store
  | some r ↦ rest r
]

unfoldable pub release_to_worker : ℤ → Text → Text → Text → EscrowStore → Outcome EscrowRecord
release_to_worker now job_id release_txid authorized_by store = with_escrow job_id store λ r.
    raise_if (not (is_locked r.status)) store (
      raise_if (not (authorized_by == r.requester || authorized_by == codes "system")) store (
        raise_if (not (is_txid release_txid)) store (
          raise_if (is_present r.release_txid) store (
            save r.escrow_id
              record r { release_txid = some release_txid; status = released; updated_at = now }
              store))))

unfoldable pub refund_to_requester : ℤ → Text → Text → Text → EscrowStore → Outcome EscrowRecord
refund_to_requester now job_id refund_txid reason store = with_escrow job_id store λ r.
    raise_if (not (is_refundable r.status)) store (
      raise_if (is_present r.refund_txid) store (
        raise_if (not (is_txid refund_txid)) store (
          save r.escrow_id
            record r {
              refund_txid = some refund_txid;
              status = refunded;
              updated_at = now;
              dispute_reason = if length reason == 0 then r.dispute_reason else some reason;
            }
            store)))

unfoldable pub open_dispute : ℤ → Text → Text → EscrowStore → Outcome EscrowRecord
open_dispute now job_id reason store = with_escrow job_id store λ r.
    raise_if (not (is_locked r.status)) store (
      save r.escrow_id
        record r { status = disputed; dispute_reason = some reason; updated_at = now } store)

-- The loop of `expire_overdue` over the records taken before it: the store and the expired jobs.
unfoldable pub expire_all : ℤ → List EscrowRecord → EscrowStore → EscrowStore × List Text
expire_all now [] store = (store, [])
expire_all now (r ∷ rs) store =
    let late = is_overdue now r in
    let rest = expire_all now rs (
      if late
      then (save r.escrow_id record r { status = expired; updated_at = now } store).0
      else store) in
    (rest.0, if late then r.job_id ∷ rest.1 else rest.1)

unfoldable pub expire_overdue : ℤ → EscrowStore → EscrowStore × List Text
expire_overdue now store = expire_all now (values store) store

-- `worker_earnings`
unfoldable pub earnings : Text → List EscrowRecord → ℤ
earnings worker [] = pos 0
earnings worker (r ∷ rs) =
    let rest = earnings worker rs in
    if r.worker == worker && is_released r.status then r.amount +ℤ rest else rest

unfoldable pub worker_earnings : Text → EscrowStore → ℤ
worker_earnings worker store = earnings worker (values store)
