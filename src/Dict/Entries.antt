-- ===== src/Dict/Entries.antt =====
-- Predicates on the entries of a dictionary: what a read finds and a write keeps.
use arche_blockchain.Prelude.{
  sym, ap₂, subst, some, [], ◌∷◌, HasEq, ◌==◌, ==_iff, ==_refl, ◌≡◌, refl, All, Bool-cases, inl,
  inr, arith,
}
use arche_blockchain.Dict.{Dict, get, put, pop, get-put}

entry {ℓ κ} :
    {K : Type ℓ} {V : Type κ} (j k : K) (w v : V) → j ≡ k → w ≡ v → ◌≡◌ {A = K × V} (j, w) (k, v)
entry j k w v p q = ap₂ (λ a b. (a, b)) p q

module _ {ℓ κ} {K : Type ℓ} {V : Type κ} ⦃e : HasEq K⦄ where
  -- A value written under an equal key is found again.
  pub get-put_same : (k own : K) (v : V) (d : Dict K V) → own ≡ k → get k (put own v d) ≡ some v
  get-put_same k own v d p = rw (p, get-put k k v d, ==_refl k) refl

module _ {ℓ κ μ} {K : Type ℓ} {V : Type κ} ⦃e : HasEq K⦄ (P : K × V → Type μ) where
  pub All-put : (k : K) (v : V) (d : Dict K V) → P (k, v) → All P d → All P (put k v d)
  unfolding put
  All-put k v [] p h = (p, tt)
  All-put k v ((j, w) ∷ d) p h = elim (Bool-cases (j == k)) [
    | inl same ↦ rw same (subst (λ i. P (i, v)) (sym ((==_iff j k).0 same)) p, h.1)
    | inr other ↦ rw other (h.0, All-put k v d p h.1)
  ]

  pub All-pop : (k : K) (d : Dict K V) → All P d → All P (pop k d)
  unfolding pop
  All-pop k [] h = tt
  All-pop k ((j, w) ∷ d) (p, h) = elim (Bool-cases (j == k)) [
    | inl same ↦ rw same (All-pop k d h)
    | inr other ↦ rw other (p, All-pop k d h)
  ]

  pub All-get : (k : K) (v : V) (d : Dict K V) → get k d ≡ some v → All P d → P (k, v)
  unfolding get
  All-get k v [] found h = ground arith
  All-get k v ((j, w) ∷ d) found h = elim (Bool-cases (j == k)) [
    | inl same ↦ subst P (entry j k w v ((==_iff j k).0 same) (ground (arith, same, found))) h.0
    | inr other ↦ All-get k v d (ground (arith, other, found)) h.1
  ]
