-- ===== src/Manager/Keeps.antt =====
-- A predicate on the entries of a store that a call keeps, one lemma for each way a call goes on.
use arche_blockchain.Prelude.{
  ◌≡◌, refl, Bool, true, false, Text, All, Option-cases, inl, inr, text_eq,
}
use arche_blockchain.Dict
use arche_blockchain.Dict.{Dict}
use arche_blockchain.Dict.Entries.{All-put, All-get}
use arche_blockchain.Manager.{Outcome, refuse, raise_if, branch, save, with_entry}

module _ {V : Type 0} (P : Text × V → Type 0) where
  -- Every entry of the store after the call satisfies the predicate.
  unfoldable pub Keeps : Outcome V → Type 0
  Keeps o = All P o.0

  module _ (s : Dict Text V) (h : All P s) where
    pub refuse-Keeps : Keeps (refuse s)
    unfolding Keeps refuse
    refuse-Keeps = h

    pub raise_if-Keeps :
        (bad : Bool) (rest : Outcome V) → (bad ≡ false → Keeps rest) → Keeps (raise_if bad s rest)
    unfolding raise_if
    raise_if-Keeps true rest k = refuse-Keeps
    raise_if-Keeps false rest k = k refl

    pub save-Keeps : (id : Text) (v : V) → P (id, v) → Keeps (save id v s)
    unfolding Keeps save
    save-Keeps id v p = All-put P id v s p h

    pub with_entry-Keeps :
        (id : Text) (rest : V → Outcome V)
        → ((v : V) → P (id, v) → Keeps (rest v))
        → Keeps (with_entry id s rest)
    unfolding with_entry Keeps
    with_entry-Keeps id rest k = elim (Option-cases (Dict.get id s)) [
      | inl missing ↦ rw (with_entry, missing) refuse-Keeps
      | inr (v, found) ↦ rw (with_entry, found) (k v (All-get P id v s found h))
    ]

    -- The call writes an entry back and then raises.
    pub refuse_saved-Keeps : (id : Text) (v : V) → P (id, v) → Keeps (refuse (save id v s).0)
    unfolding Keeps refuse save
    refuse_saved-Keeps id v p = All-put P id v s p h

  pub branch-Keeps :
      (test : Bool) (a b : Outcome V)
      → (test ≡ true → Keeps a)
      → (test ≡ false → Keeps b)
      → Keeps (branch test a b)
  unfolding branch
  branch-Keeps true a b f g = f refl
  branch-Keeps false a b f g = g refl
