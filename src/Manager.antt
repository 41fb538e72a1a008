-- ===== src/Manager.antt =====
-- What the managers of ai/ share: a store of entries by id, and calls that read one entry, check it,
-- and write it back or raise. A call returns the store as it then is and, unless it raised, an entry.
pub mod Keeps
use arche_blockchain.Prelude.{Bool, Option, none, some, Text, if◌then◌else◌, text_eq}
use arche_blockchain.Dict
use arche_blockchain.Dict.{Dict}

abbrev pub Outcome : Type 0 → Type 0
Outcome V = Dict Text V × Option V

module _ {V : Type 0} where
  -- `raise ValueError(...)`
  unfoldable pub refuse : Dict Text V → Outcome V
  refuse store = (store, none)

  -- `if bad: raise ValueError(...)`, and the rest of the call.
  unfoldable pub raise_if : Bool → Dict Text V → Outcome V → Outcome V
  raise_if bad store rest = if bad then refuse store else rest

  -- `if test: ... else: ...`, where both ways end the call.
  unfoldable pub branch : Bool → Outcome V → Outcome V → Outcome V
  branch test a b = if test then a else b

  -- `self.store.put(v); return v`
  unfoldable pub save : Text → V → Dict Text V → Outcome V
  save id v store = (Dict.put id v store, some v)

  -- `_get_or_raise`, and the rest of the call.
  unfoldable pub with_entry : Text → Dict Text V → (V → Outcome V) → Outcome V
  with_entry id store rest = elim (Dict.get id store) [ none ↦ refuse store | some v ↦ rest v ]
