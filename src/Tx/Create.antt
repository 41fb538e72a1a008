-- ===== src/Tx/Create.antt =====
-- `create_signed_tx` (node/tx.py): the choice of inputs, the outputs with their change, and the
-- signatures.
use arche_blockchain.Prelude.{
  ℕ, suc, ◌≡◌, ◌∙◌, refl, sym, ap, false, Option, none, some, List, [], ◌∷◌, map, subst, arith,
  Text, take, Bool-cases, Option-cases, inl, inr, if◌then◌else◌,
}
use arche_blockchain.Int.{
  ℤ, pos, ◌+ℤ◌, ◌-ℤ◌, ◌≤ℤ◌, ltb_ℤ, leb_ℤ, int_laws, +ℤ_assoc, +ℤ_zero, zero-+ℤ,
}
use arche_blockchain.Encoding.{Bytes, from_hex, to_hex}
use arche_blockchain.Tx.{
  Crypto, TxInput, TxOutput, Transaction, signing_hash, OutPoint, out_point, sum_ℤ, output_sum,
}

-- `coincurve.PrivateKey`: `public_key` is `none` where the constructor raises.
pub record Signer : Type 0 where
  pub public_key : Bytes → Option Bytes
  pub sign : Bytes → Bytes → Bytes

-- A tuple `(txid, index, value, address)` of the sender's outputs.
pub record Coin : Type 0 where
  pub txid : Text
  pub index : ℕ
  pub value : ℤ
  pub address : Text

abbrev coin_value : Coin → ℤ
coin_value c = c.value

abbrev coin_point : Coin → OutPoint
coin_point c = (c.txid, c.index)

abbrev as_input : Text → Coin → TxInput
as_input pubkey c = record { txid = c.txid; index = c.index; signature = []; pubkey = pubkey }

-- The loop that takes outputs until they cover `need`: what it takes, and their sum.
unfoldable pub select : ℤ → ℤ → List Coin → List Coin × ℤ
select need total [] = ([], total)
select need total (c ∷ cs) =
    let rest = select need (total +ℤ c.value) cs in
    if leb_ℤ need (total +ℤ c.value) then (c ∷ [], total +ℤ c.value) else (c ∷ rest.0, rest.1)

unfoldable pub payment_outputs : Text → ℤ → Text → ℤ → List TxOutput
payment_outputs to_addr amount change_addr change =
    let paid : TxOutput = record { value = amount; address = to_addr } in
    if ltb_ℤ (pos 0) change
    then paid ∷ record { value = change; address = change_addr } ∷ []
    else paid ∷ []

unfoldable pub sign_input : Text → TxInput → TxInput
sign_input signature i = record i { signature = signature }

-- The transaction before it is signed; `none` where `ValueError` is raised.
unfoldable pub draft : Text → List Coin → Text → ℤ → Text → ℤ → Option Transaction
unfolding select payment_outputs
draft pubkey utxos to_addr amount change_addr fee =
    let (chosen, total) = select (amount +ℤ fee) (pos 0) utxos in
    if ltb_ℤ total (amount +ℤ fee)
    then none
    else some (record {
      inputs = map (as_input pubkey) chosen;
      outputs = payment_outputs to_addr amount change_addr (total -ℤ amount -ℤ fee);
    })

unfoldable pub sign_all : Crypto → Signer → Bytes → ℕ → Transaction → Transaction
unfolding sign_input
sign_all crypto signer key chain_id tx =
    let signature = to_hex (signer.sign key (signing_hash crypto chain_id tx)) in
    record tx { inputs = map (sign_input signature) tx.inputs }

unfoldable pub create_signed_tx :
    Crypto → Signer → Text → List Coin → Text → ℤ → Text → ℤ → ℕ → Option Transaction
unfolding draft sign_all
create_signed_tx crypto signer privkey utxos to_addr amount change_addr fee chain_id =
    elim (from_hex privkey) [
      | none ↦ none
      | some key ↦ elim (signer.public_key key) [
        | none ↦ none
        | some pubkey ↦ elim (draft (to_hex pubkey) utxos to_addr amount change_addr fee) [
          | none ↦ none
          | some tx ↦ some (sign_all crypto signer key chain_id tx)
        ]
      ]
    ]

-- The loop takes a prefix of the outputs, and returns the sum of their values.
select_prefix :
    (need total : ℤ) (cs : List Coin)
    → (n : ℕ) × ((select need total cs).0 ≡ take n cs)
      × ((select need total cs).1 ≡ total +ℤ sum_ℤ (map coin_value (take n cs)))
unfolding select
select_prefix need total [] = (0, refl, cc (+ℤ_zero total))
select_prefix need total (c ∷ cs) =
    let (n, chosen, sum) = select_prefix need (total +ℤ c.value) cs in
    elim (Bool-cases (leb_ℤ need (total +ℤ c.value))) [
      | inl enough ↦ (1, rw enough, rw enough (ap (λ (v : ℤ). total +ℤ v) (sym (+ℤ_zero c.value))))
      | inr more ↦ (
        suc n,
        rw more (ap (λ (l : List Coin). c ∷ l) chosen),
        rw more (sum ∙ +ℤ_assoc total c.value _),
      )
    ]

points-as_input :
    (pubkey : Text) (cs : List Coin) → map out_point (map (as_input pubkey) cs) ≡ map coin_point cs
points-as_input pubkey [] = refl
points-as_input pubkey (c ∷ cs) =
    ap (λ (l : List OutPoint). coin_point c ∷ l) (points-as_input pubkey cs)

points-sign_input :
    (signature : Text) (is : List TxInput)
    → map out_point (map (sign_input signature) is) ≡ map out_point is
unfolding sign_input
points-sign_input signature [] = refl
points-sign_input signature (i ∷ is) =
    ap (λ (l : List OutPoint). out_point i ∷ l) (points-sign_input signature is)

-- With no change output the change is zero, since the inputs cover the amount and the fee.
outputs_balance :
    (to_addr change_addr : Text) (amount fee total : ℤ)
    → ltb_ℤ total (amount +ℤ fee) ≡ false
    → output_sum (payment_outputs to_addr amount change_addr (total -ℤ amount -ℤ fee)) +ℤ fee
      ≡ total
unfolding payment_outputs output_sum
outputs_balance to_addr change_addr amount fee total h =
    let covered : amount +ℤ fee ≤ℤ total = ground arith in
    elim (Bool-cases (ltb_ℤ (pos 0) (total -ℤ amount -ℤ fee))) [
      | inl change ↦ rw change (omega int_laws)
      | inr none_left ↦
          let small : total -ℤ amount -ℤ fee ≤ℤ pos 0 = ground arith in
          rw none_left (omega int_laws)
    ]

-- The inputs of a transaction are the first `n` coins, and its outputs and the fee are their sum.
pub Balanced : List Coin → ℤ → Transaction → Type 0
Balanced utxos fee tx =
    (n : ℕ) × (map out_point tx.inputs ≡ map coin_point (take n utxos))
    × (output_sum tx.outputs +ℤ fee ≡ sum_ℤ (map coin_value (take n utxos)))

draft-Balanced :
    (pubkey : Text) (utxos : List Coin) (to_addr : Text) (amount : ℤ) (change_addr : Text) (fee : ℤ)
    (tx : Transaction)
    → draft pubkey utxos to_addr amount change_addr fee ≡ some tx
    → Balanced utxos fee tx
unfolding draft Balanced
draft-Balanced pubkey utxos to_addr amount change_addr fee tx h =
    let (n, chosen, sum) = select_prefix (amount +ℤ fee) (pos 0) utxos in
    let total : ℤ = (select (amount +ℤ fee) (pos 0) utxos).1 in
    elim (Bool-cases (ltb_ℤ total (amount +ℤ fee))) [
      | inl short ↦ ground arith
      | inr covered ↦
          let made : Transaction = record {
            inputs = map (as_input pubkey) (select (amount +ℤ fee) (pos 0) utxos).0;
            outputs = payment_outputs to_addr amount change_addr (total -ℤ amount -ℤ fee);
          } in
          let e : made ≡ tx = ground arith in
          subst (Balanced utxos fee) e (
            n,
            points-as_input pubkey (select (amount +ℤ fee) (pos 0) utxos).0
                ∙ ap (map coin_point) chosen,
            outputs_balance to_addr change_addr amount fee total covered ∙ sum ∙ zero-+ℤ _,
          )
    ]

-- A created transaction spends the first coins of the sender, as many as are taken, once each and
-- in order, and its outputs together with the fee are exactly what those coins hold.
pub create-Balanced :
    (crypto : Crypto) (signer : Signer) (privkey : Text) (utxos : List Coin) (to_addr : Text)
    (amount : ℤ) (change_addr : Text) (fee : ℤ) (chain_id : ℕ) (tx : Transaction)
    → create_signed_tx crypto signer privkey utxos to_addr amount change_addr fee chain_id ≡ some tx
    → Balanced utxos fee tx
unfolding create_signed_tx sign_all Balanced
create-Balanced crypto signer privkey utxos to_addr amount change_addr fee chain_id tx h =
    elim (Option-cases (from_hex privkey)) [
      | inl bad_hex ↦ ground arith
      | inr (key, is_hex) ↦ elim (Option-cases (signer.public_key key)) [
        | inl bad_key ↦ ground arith
        | inr (pubkey, is_key) ↦
            elim (Option-cases (draft (to_hex pubkey) utxos to_addr amount change_addr fee)) [
              | inl short ↦ ground arith
              | inr (d, drafted) ↦
                  let (n, points, sum) =
                    draft-Balanced (to_hex pubkey) utxos to_addr amount change_addr fee d drafted in
                  let e : sign_all crypto signer key chain_id d ≡ tx = ground arith in
                  subst (Balanced utxos fee) e (n, points-sign_input _ d.inputs ∙ points, sum)
            ]
      ]
    ]
