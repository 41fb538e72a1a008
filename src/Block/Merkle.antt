-- ===== src/Block/Merkle.antt =====
-- The Merkle root of node/block.py: the loop over the layers ends.
use arche_blockchain.Prelude.{
  ℕ, zero, suc, ◌+◌, ◌≤◌, ◌<◌, ◌≡◌, refl, some, List, [], ◌∷◌, arith, length, Text, Option-cases,
  inl, inr,
}
use arche_blockchain.Encoding.{Bytes, from_hex, to_hex}
use arche_blockchain.Tx.{Crypto}
use arche_blockchain.Block.{next_layer, reduce_layers, leaves, merkle_root}

module _ (crypto : Crypto) where
  length-next_layer :
      (l : List Bytes) → length (next_layer crypto l) + length (next_layer crypto l) ≤ length l + 1
  unfolding next_layer
  length-next_layer [] = omega arith
  length-next_layer (a ∷ []) = omega arith
  length-next_layer (a ∷ b ∷ l) = omega (arith, length-next_layer l)

  next_layer_some : (a : Bytes) (l : List Bytes) → 0 < length (next_layer crypto (a ∷ l))
  unfolding next_layer
  next_layer_some a [] = omega arith
  next_layer_some a (b ∷ l) = omega arith

  -- As many rounds as there are leaves are enough.
  reduce_layers_total :
      (fuel : ℕ) (l : List Bytes)
      → 0 < length l
      → length l ≤ fuel + 1
      → (root : Bytes) × (reduce_layers crypto fuel l ≡ some root)
  unfolding reduce_layers
  reduce_layers_total fuel [] h k = elim h [ ]
  reduce_layers_total fuel (a ∷ []) h k = (a, refl)
  reduce_layers_total zero (a ∷ b ∷ l) h k = absurd (omega arith)
  reduce_layers_total (suc fuel) (a ∷ b ∷ l) h k =
      reduce_layers_total fuel (next_layer crypto (a ∷ b ∷ l)) (next_layer_some a (b ∷ l))
        (omega (arith, length-next_layer (a ∷ b ∷ l)))

  leaves_cons :
      (x : Text) (xs : List Text) (l : List Bytes) → leaves (x ∷ xs) ≡ some l → 0 < length l
  unfolding leaves
  leaves_cons x xs l h = elim (Option-cases (from_hex x)) [
    | inl bad ↦ ground arith
    | inr (b, e) ↦ elim (Option-cases (leaves xs)) [
      | inl bad ↦ ground arith
      | inr (bs, f) ↦ let g : b ∷ bs ≡ l = ground arith in rw (← g) (omega arith)
    ]
  ]

  -- The Merkle root is defined as soon as every txid is hexadecimal: the loop over the layers ends.
  pub merkle_root_total :
      (txids : List Text) (l : List Bytes)
      → leaves txids ≡ some l
      → (root : Text) × (merkle_root crypto txids ≡ some root)
  unfolding merkle_root
  merkle_root_total [] l h = (_, refl)
  merkle_root_total (x ∷ xs) l h =
      let (root, e) = reduce_layers_total (length l) l (leaves_cons x xs l h) (omega arith) in
      (to_hex root, rw (h, e))
