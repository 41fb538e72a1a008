-- ===== src/Dict.antt =====
-- A Python `dict`: an association list in insertion order. A write to a present key keeps its
-- place, a write to a new key goes to the end, `pop` removes the key.
pub mod Entries
pub mod Keys
use arche_blockchain.Prelude.{
  ◌≡◌, refl, Bool, true, false, Option, none, some, List, [], ◌∷◌, map, arith, HasEq, ◌==◌, ==_iff,
  if◌then◌else◌,
}

abbrev pub Dict {ℓ κ} : Type ℓ → Type κ → Type (ℓ ⊔ κ)
Dict K V = List (K × V)

module _ {ℓ κ} {K : Type ℓ} {V : Type κ} ⦃e : HasEq K⦄ where
  -- `d.get(k)`
  unfoldable pub get : K → Dict K V → Option V
  get k [] = none
  get k ((j, v) ∷ d) = if j == k then some v else get k d

  -- `k in d`
  unfoldable pub contains : K → Dict K V → Bool
  contains k [] = false
  contains k ((j, v) ∷ d) = if j == k then true else contains k d

  -- `d[k] = v`
  unfoldable pub put : K → V → Dict K V → Dict K V
  put k v [] = (k, v) ∷ []
  put k v ((j, w) ∷ d) = let rest = put k v d in if j == k then (j, v) ∷ d else (j, w) ∷ rest

  -- `d.pop(k, None)`
  unfoldable pub pop : K → Dict K V → Dict K V
  pop k [] = []
  pop k ((j, w) ∷ d) = let rest = pop k d in if j == k then rest else (j, w) ∷ rest

  pub get-put :
      (j k : K) (v : V) (d : Dict K V) → get j (put k v d) ≡ (if k == j then some v else get j d)
  unfolding get put
  get-put j k v [] = refl
  get-put j k v ((i, w) ∷ d) = ground (arith, ==_iff i k, ==_iff i j, ==_iff k j, get-put j k v d)

  pub get-pop : (j k : K) (d : Dict K V) → get j (pop k d) ≡ (if k == j then none else get j d)
  unfolding get pop
  get-pop j k [] = ground arith
  get-pop j k ((i, w) ∷ d) = ground (arith, ==_iff i k, ==_iff i j, ==_iff k j, get-pop j k d)

  -- `in` agrees with `get`.
  pub contains-get :
      (k : K) (d : Dict K V) → contains k d ≡ (elim (get k d) [ none ↦ false | some _ ↦ true ])
  unfolding get contains
  contains-get k [] = refl
  contains-get k ((i, w) ∷ d) = ground (arith, contains-get k d)

module _ {ℓ κ} {K : Type ℓ} {V : Type κ} where
  abbrev pub snd : K × V → V
  snd p = p.1

  -- `d.values()`
  abbrev pub values : Dict K V → List V
  values = map snd

pub ruleset dict_laws = (get-put, get-pop)
