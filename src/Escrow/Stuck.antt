-- ===== src/Escrow/Stuck.antt =====
-- A second escrow for a job whose first one is paid out, in ai/payment.py.
use arche_blockchain.Prelude.{none, Text, text_eq}
use arche_blockchain.Int.{ℤ}
use arche_blockchain.Dict
use arche_blockchain.Escrow.{EscrowRecord, EscrowStore, locked}

module _ (now : ℤ) (fresh job requester worker : Text) (amount : ℤ) (lock_txid : Text)
    (expires_at : ℤ) (r : EscrowRecord) (s : EscrowStore) where
  abbrev new_escrow : EscrowRecord
  new_escrow = record {
    escrow_id = fresh;
    job_id = job;
    requester = requester;
    worker = worker;
    amount = amount;
    lock_txid = lock_txid;
    release_txid = none;
    refund_txid = none;
    status = locked;
    created_at = now;
    updated_at = now;
    expires_at = expires_at;
    dispute_reason = none;
  }
