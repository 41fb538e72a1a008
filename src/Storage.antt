-- ===== src/Storage.antt =====
-- node/storage.py: WriteBatch and JSONStore, a dictionary of hexadecimal texts that each change
-- writes to a file. LevelDB is a library and is not modelled.
mod Refine
mod Examples
use arche_blockchain.Prelude.{
  Bool, true, false, Option, none, some, List, [], ◌∷◌, ◌++◌, Text, nat_beq, ◌&&◌, if◌then◌else◌,
  text_eq,
}
use arche_blockchain.Dict
use arche_blockchain.Dict.{Dict}
use arche_blockchain.Encoding.{Bytes, from_hex, to_hex}

-- An operation of a batch.
pub data Op : Type 0 where
  put_op : Bytes → Bytes → Op
  del_op : Bytes → Op

-- `WriteBatch`: its operations in their order.
abbrev pub WriteBatch : Type 0
WriteBatch = List Op

unfoldable pub batch_put : Bytes → Bytes → WriteBatch → WriteBatch
batch_put key value batch = batch ++ (put_op key value ∷ [])

unfoldable pub batch_delete : Bytes → WriteBatch → WriteBatch
batch_delete key batch = batch ++ (del_op key ∷ [])

-- `disk` is what the file holds.
pub record JsonStore : Type 0 where
  readonly : Bool
  pub cache : Dict Text Text
  pub disk : Dict Text Text

-- `_flush(self._cache)`
unfoldable pub flush : JsonStore → JsonStore
flush s = if s.readonly then s else record s { disk = s.cache }

-- A stored text that is no hexadecimal raises: the outer `none`.
unfoldable pub get_value : Bytes → JsonStore → Option (Option Bytes)
get_value key s = elim (Dict.get (to_hex key) s.cache) [
  | none ↦ some none
  | some v ↦ elim (from_hex v) [ none ↦ none | some value ↦ some (some value) ]
]

unfoldable pub put_value : Bytes → Bytes → JsonStore → JsonStore
put_value key value s = flush record s { cache = Dict.put (to_hex key) (to_hex value) s.cache }

unfoldable pub delete_value : Bytes → JsonStore → JsonStore
delete_value key s = flush record s { cache = Dict.pop (to_hex key) s.cache }

-- The loop of `write_batch` over the operations.
unfoldable pub apply_ops : WriteBatch → Dict Text Text → Dict Text Text
apply_ops [] cache = cache
apply_ops (put_op key value ∷ ops) cache =
    apply_ops ops (Dict.put (to_hex key) (to_hex value) cache)
apply_ops (del_op key ∷ ops) cache = apply_ops ops (Dict.pop (to_hex key) cache)

unfoldable pub write_batch : WriteBatch → JsonStore → JsonStore
write_batch batch s = flush record s { cache = apply_ops batch s.cache }

-- `b.startswith(prefix)`
unfoldable pub starts_with : Bytes → Bytes → Bool
starts_with [] b = true
starts_with (x ∷ xs) [] = false
starts_with (x ∷ xs) (y ∷ ys) = nat_beq x y && starts_with xs ys

-- The pairs of `iter_prefix`; a text that is no hexadecimal raises.
unfoldable pub iter_items : Bytes → Dict Text Text → Option (List (Bytes × Bytes))
iter_items prefix [] = some []
iter_items prefix ((k, v) ∷ items) =
    let rest = iter_items prefix items in
    elim (from_hex k) [
      | none ↦ none
      | some key ↦
          if starts_with prefix key
          then elim (from_hex v) [
            | none ↦ none
            | some value ↦ elim rest [ none ↦ none | some more ↦ some ((key, value) ∷ more) ]
          ]
          else rest
    ]

unfoldable pub iter_prefix : Bytes → JsonStore → Option (List (Bytes × Bytes))
iter_prefix prefix s = iter_items prefix s.cache
