-- ===== src/Escrow/Examples.antt =====
-- The payment manager at a store with one released escrow.
use arche_blockchain.Prelude.{refl, Text, codes, [], ◌∷◌, some, none}
use arche_blockchain.Int.{pos}
use arche_blockchain.Escrow.{EscrowRecord, EscrowStore, released, is_present, create_escrow}
use arche_blockchain.Escrow.PaidOnce.{
  refund, IsPaidOnce, paid_once, run_escrow, run_escrow-IsPaidOnce,
}

abbrev tx_digits : Text
tx_digits = codes "0123456789abcdef0123456789abcdef0123456789abcdef0123456789abcdef"

abbrev paid_record : EscrowRecord
paid_record = record {
  escrow_id = codes "e1";
  job_id = codes "j1";
  requester = codes "r";
  worker = codes "w";
  amount = pos 90;
  lock_txid = tx_digits;
  release_txid = some tx_digits;
  refund_txid = none;
  status = released;
  created_at = pos 1000;
  updated_at = pos 1300;
  expires_at = pos 2000;
  dispute_reason = none;
}

abbrev one_escrow : EscrowStore
one_escrow = (codes "e1", paid_record) ∷ []

one_escrow-IsPaidOnce : IsPaidOnce one_escrow
unfolding paid_once is_present
one_escrow-IsPaidOnce = (refl, tt)

run_escrow-IsPaidOnce_example :
    IsPaidOnce (run_escrow (refund (pos 1400) (codes "j1") tx_digits []) one_escrow)
run_escrow-IsPaidOnce_example =
    run_escrow-IsPaidOnce (refund (pos 1400) (codes "j1") tx_digits []) one_escrow
      one_escrow-IsPaidOnce

abbrev after_second : EscrowStore
after_second =
    (create_escrow (pos 1500) (codes "e2") (codes "j1") (codes "r") (codes "w") (pos 90) tx_digits
      (pos 3000) one_escrow).0
