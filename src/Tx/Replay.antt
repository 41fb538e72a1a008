-- ===== src/Tx/Replay.antt =====
-- Replay protection: the chain id in the unsigned body of node/tx.py.
use arche_blockchain.Prelude.{ℕ, zero, suc, ◌≡◌, ◌∙◌, sym, ap, [], ◌∷◌, ◌++◌, arith, Text, codes}
use arche_blockchain.Encoding.{Bytes, str}
use arche_blockchain.Encoding.Decimal.{read_digits, read-decimal}
use arche_blockchain.Tx.{Transaction, unsigned_body, body_rest}

drop : ℕ → Text → Text
drop zero cs = cs
drop (suc n) [] = []
drop (suc n) (c ∷ cs) = drop n cs

read_chain_id : Bytes → ℕ
read_chain_id body = read_digits 0 (drop 12 body)

read-unsigned_body :
    (chain_id : ℕ) (tx : Transaction) → read_chain_id (unsigned_body chain_id tx) ≡ chain_id
unfolding read_chain_id drop unsigned_body str read_digits
read-unsigned_body chain_id tx =
    read-decimal (suc chain_id) chain_id (codes "," ++ body_rest tx) (omega arith)

-- Two transactions signed for different chains never have the same signed bytes: the bytes
-- determine the chain id.
pub chain_id_of_body : (c d : ℕ) (s t : Transaction) → unsigned_body c s ≡ unsigned_body d t → c ≡ d
chain_id_of_body c d s t e =
    sym (read-unsigned_body c s) ∙ ap read_chain_id e ∙ read-unsigned_body d t
