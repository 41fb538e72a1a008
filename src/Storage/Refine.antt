-- ===== src/Storage/Refine.antt =====
-- JSONStore (node/storage.py) against a dictionary of byte strings.
use arche_blockchain.Prelude.{
  ◌≡◌, refl, false, Option, none, some, List, [], ◌∷◌, Text, All, Bool-cases, inl, inr, arith,
  text_eq, ◌==◌, if◌then◌else◌,
}
use arche_blockchain.Dict
use arche_blockchain.Dict.{Dict, put, pop, get}
use arche_blockchain.Dict.Entries.{All-put}
use arche_blockchain.Encoding.{Bytes, from_hex, to_hex}
use arche_blockchain.Encoding.Hex.{IsBytes, from_hex-to_hex, to_hex-==}
use arche_blockchain.Storage.{
  Op, put_op, del_op, WriteBatch, JsonStore, flush, get_value, apply_ops, write_batch, starts_with,
  iter_items, iter_prefix,
}

-- What a batch means for a dictionary of byte strings.
unfoldable pub run_ops : WriteBatch → Dict Bytes Bytes → Dict Bytes Bytes
run_ops [] d = d
run_ops (put_op key value ∷ ops) d = run_ops ops (Dict.put key value d)
run_ops (del_op key ∷ ops) d = run_ops ops (Dict.pop key d)

-- The entries whose keys start with a prefix.
unfoldable pub with_prefix : Bytes → Dict Bytes Bytes → List (Bytes × Bytes)
with_prefix prefix [] = []
with_prefix prefix ((k, v) ∷ d) =
    let rest = with_prefix prefix d in if starts_with prefix k then (k, v) ∷ rest else rest

unfoldable pub hex_dict : Dict Bytes Bytes → Dict Text Text
hex_dict [] = []
hex_dict ((k, v) ∷ d) = (to_hex k, to_hex v) ∷ hex_dict d

-- Keys and values are byte strings.
abbrev pub IsBytesEntry : Bytes × Bytes → Type 0
IsBytesEntry e = IsBytes e.0 × IsBytes e.1

abbrev pub IsBytesOp : Op → Type 0
IsBytesOp (put_op key value) = IsBytes key × IsBytes value
IsBytesOp (del_op key) = IsBytes key

-- The store holds the dictionary, and so does its file unless the store is read-only.
pub record Represents (s : JsonStore) (d : Dict Bytes Bytes) : Type 0 where
  pub in_memory : s.cache ≡ hex_dict d
  pub on_disk : s.readonly ≡ false → s.disk ≡ hex_dict d
  pub bytes : All IsBytesEntry d

put-hex_dict :
    (k v : Bytes) (d : Dict Bytes Bytes)
    → IsBytes k
    → All IsBytesEntry d
    → Dict.put (to_hex k) (to_hex v) (hex_dict d) ≡ hex_dict (Dict.put k v d)
unfolding put hex_dict
put-hex_dict k v [] hk h = refl
put-hex_dict k v ((j, w) ∷ d) hk ((hj, hw), h) = elim (Bool-cases (j == k)) [
  | inl same ↦ rw (to_hex-== j k hj hk, same) refl
  | inr other ↦ rw (to_hex-== j k hj hk, other, put-hex_dict k v d hk h) refl
]

pop-hex_dict :
    (k : Bytes) (d : Dict Bytes Bytes)
    → IsBytes k
    → All IsBytesEntry d
    → Dict.pop (to_hex k) (hex_dict d) ≡ hex_dict (Dict.pop k d)
unfolding pop hex_dict
pop-hex_dict k [] hk h = refl
pop-hex_dict k ((j, w) ∷ d) hk ((hj, hw), h) = elim (Bool-cases (j == k)) [
  | inl same ↦ rw (to_hex-== j k hj hk, same, pop-hex_dict k d hk h) refl
  | inr other ↦ rw (to_hex-== j k hj hk, other, pop-hex_dict k d hk h) refl
]

All-pop : (k : Bytes) (d : Dict Bytes Bytes) → All IsBytesEntry d → All IsBytesEntry (Dict.pop k d)
unfolding pop
All-pop k [] h = tt
All-pop k ((j, w) ∷ d) (e, h) = elim (Bool-cases (j == k)) [
  | inl same ↦ rw same (All-pop k d h)
  | inr other ↦ rw other (e, All-pop k d h)
]

apply_ops_lem :
    (ops : WriteBatch) (d : Dict Bytes Bytes)
    → All IsBytesOp ops
    → All IsBytesEntry d
    → (apply_ops ops (hex_dict d) ≡ hex_dict (run_ops ops d)) × All IsBytesEntry (run_ops ops d)
unfolding apply_ops run_ops
apply_ops_lem [] d hs h = (refl, h)
apply_ops_lem (put_op key value ∷ ops) d ((hk, hv), hs) h =
    rw (put-hex_dict key value d hk h)
      (apply_ops_lem ops (Dict.put key value d) hs (All-put IsBytesEntry key value d (hk, hv) h))
apply_ops_lem (del_op key ∷ ops) d (hk, hs) h =
    rw (pop-hex_dict key d hk h) (apply_ops_lem ops (Dict.pop key d) hs (All-pop key d h))

get-hex_dict :
    (k : Bytes) (d : Dict Bytes Bytes)
    → IsBytes k
    → All IsBytesEntry d
    → (elim (Dict.get (to_hex k) (hex_dict d)) as (λ x. Option (Option Bytes)) [
      | none ↦ some none
      | some v ↦ elim (from_hex v) [ none ↦ none | some value ↦ some (some value) ]
    ])
      ≡ some (Dict.get k d)
unfolding get hex_dict
get-hex_dict k [] hk h = refl
get-hex_dict k ((j, w) ∷ d) hk ((hj, hw), h) = elim (Bool-cases (j == k)) [
  | inl same ↦ rw (to_hex-== j k hj hk, same, from_hex-to_hex w hw) refl
  | inr other ↦ rw (to_hex-== j k hj hk, other) (get-hex_dict k d hk h)
]

iter-hex_dict :
    (prefix : Bytes) (d : Dict Bytes Bytes)
    → All IsBytesEntry d
    → iter_items prefix (hex_dict d) ≡ some (with_prefix prefix d)
unfolding iter_items hex_dict with_prefix
iter-hex_dict prefix [] h = refl
iter-hex_dict prefix ((k, v) ∷ d) ((hk, hv), h) = elim (Bool-cases (starts_with prefix k)) [
  | inl fits ↦
      rw (iter_items, from_hex-to_hex k hk, fits, from_hex-to_hex v hv, iter-hex_dict prefix d h)
        refl
  | inr apart ↦ rw (iter_items, from_hex-to_hex k hk, apart, iter-hex_dict prefix d h) refl
]

module _ (s : JsonStore) (d : Dict Bytes Bytes) (ops : WriteBatch) where
  write_batch-Represents :
      Represents s d → All IsBytesOp ops → Represents (write_batch ops s) (run_ops ops d)
  unfolding write_batch flush
  write_batch-Represents r hs =
      let (p, b) = apply_ops_lem ops d hs r.bytes in
      let q : apply_ops ops s.cache ≡ hex_dict (run_ops ops d) = rw r.in_memory p in
      elim (Bool-cases s.readonly) [
        | inl locked ↦
            rw (write_batch, flush, locked)
              (record { in_memory = q; on_disk = λ free. ground arith; bytes = b })
        | inr free ↦
            rw (write_batch, flush, free) (record { in_memory = q; on_disk = λ _. q; bytes = b })
      ]

  -- A store that holds a dictionary of byte strings holds, after a batch of byte strings, what the
  -- operations of the batch make of that dictionary, in their order: so does its file, unless the
  -- store is read-only; a read of any byte string returns its entry and never raises; and the
  -- iteration over a prefix returns the entries whose keys start with it.
  pub write_batch_refines :
      (key prefix : Bytes)
      → Represents s d
      → All IsBytesOp ops
      → IsBytes key
      → Represents (write_batch ops s) (run_ops ops d)
        × (get_value key (write_batch ops s) ≡ some (Dict.get key (run_ops ops d)))
        × (iter_prefix prefix (write_batch ops s) ≡ some (with_prefix prefix (run_ops ops d)))
  unfolding get_value iter_prefix
  write_batch_refines key prefix r hs hk =
      let after = write_batch-Represents r hs in
      (
        after,
        (rw after.in_memory (get-hex_dict key (run_ops ops d) hk after.bytes)),
        (rw after.in_memory (iter-hex_dict prefix (run_ops ops d) after.bytes)),
      )
