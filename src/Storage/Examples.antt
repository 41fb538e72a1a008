-- ===== src/Storage/Examples.antt =====
-- The JSON store with one key, and a batch that replaces it and adds another.
use arche_blockchain.Prelude.{◌≡◌, refl, false, some, [], ◌∷◌, arith, All, text_eq}
use arche_blockchain.Dict
use arche_blockchain.Encoding.{to_hex}
use arche_blockchain.Storage.{
  put_op, del_op, WriteBatch, JsonStore, get_value, iter_prefix, write_batch,
}
use arche_blockchain.Storage.Refine.{
  Represents, IsBytesOp, hex_dict, run_ops, with_prefix, write_batch_refines,
}

abbrev store : JsonStore
store = record {
  readonly = false;
  cache = ((54 ∷ (49 ∷ [])), (48 ∷ (49 ∷ []))) ∷ [];
  disk = ((54 ∷ (49 ∷ [])), (48 ∷ (49 ∷ []))) ∷ [];
}

abbrev batch : WriteBatch
batch = del_op (97 ∷ []) ∷ (put_op (98 ∷ []) (255 ∷ []) ∷ [])

batch_bytes : All IsBytesOp batch
batch_bytes = (((ground arith), tt), (((((ground arith), tt), ((ground arith), tt))), tt))

store-Represents : Represents store (((97 ∷ []), (1 ∷ [])) ∷ [])
unfolding hex_dict to_hex
store-Represents = record {
  in_memory = refl;
  on_disk = λ _. refl;
  bytes = ((((ground arith), tt), ((ground arith), tt)), tt);
}

write_batch_refines_example :
    Represents (write_batch batch store) (run_ops batch (((97 ∷ []), (1 ∷ [])) ∷ []))
    × (get_value (98 ∷ []) (write_batch batch store)
        ≡ some (Dict.get (98 ∷ []) (run_ops batch (((97 ∷ []), (1 ∷ [])) ∷ []))))
    × (iter_prefix [] (write_batch batch store)
        ≡ some (with_prefix [] (run_ops batch (((97 ∷ []), (1 ∷ [])) ∷ []))))
write_batch_refines_example =
    write_batch_refines store (((97 ∷ []), (1 ∷ [])) ∷ []) batch (98 ∷ []) [] store-Represents
      batch_bytes ((ground arith), tt)
