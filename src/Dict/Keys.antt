-- ===== src/Dict/Keys.antt =====
-- The keys of a dictionary: each stands once, and a write keeps it so.
use arche_blockchain.Prelude.{
  false, ◌≡◌, refl, [], ◌∷◌, HasEq, ◌==◌, ==_iff, ==_refl, All, some, Bool-cases, inl, inr, arith,
  ◌||◌,
}
use arche_blockchain.Dict.{Dict, get, contains, put, pop, contains-get}

module _ {ℓ κ} {K : Type ℓ} {V : Type κ} ⦃e : HasEq K⦄ where
  -- No key stands twice.
  abbrev pub IsDict : Dict K V → Type 0
  IsDict [] = Unit
  IsDict ((k, v) ∷ d) = (contains k d ≡ false) × IsDict d

  pub contains-put :
      (j k : K) (v : V) (d : Dict K V) → contains j (put k v d) ≡ (k == j) || contains j d
  unfolding contains put
  contains-put j k v [] = ground arith
  contains-put j k v ((i, w) ∷ d) =
      ground (arith, ==_iff i k, ==_iff i j, ==_iff k j, contains-put j k v d)

  pub put-IsDict : (k : K) (v : V) (d : Dict K V) → IsDict d → IsDict (put k v d)
  unfolding put contains
  put-IsDict k v [] h = (refl, tt)
  put-IsDict k v ((j, w) ∷ d) (new, h) = elim (Bool-cases (j == k)) [
    | inl same ↦ rw same (new, h)
    | inr other ↦ rw other (
      (ground (arith, other, new, contains-put j k v d, ==_iff k j, ==_iff j k)),
      put-IsDict k v d h,
    )
  ]

module _ {ℓ κ} {K : Type ℓ} {V : Type κ} ⦃e : HasEq K⦄ where
  contains-pop : (j k : K) (d : Dict K V) → contains j d ≡ false → contains j (pop k d) ≡ false
  unfolding contains pop
  contains-pop j k [] new = refl
  contains-pop j k ((i, w) ∷ d) new =
      let rest = contains-pop j k d (ground (arith, new)) in ground (arith, new, rest)

  pub pop-IsDict : (k : K) (d : Dict K V) → IsDict d → IsDict (pop k d)
  unfolding pop
  pop-IsDict k [] h = tt
  pop-IsDict k ((j, w) ∷ d) (new, h) = elim (Bool-cases (j == k)) [
    | inl same ↦ rw same (pop-IsDict k d h)
    | inr other ↦ rw other (contains-pop j k d new, pop-IsDict k d h)
  ]

module _ {ℓ κ} {K : Type ℓ} {V : Type κ} ⦃e : HasEq K⦄ where
  abbrev Found : Dict K V → K × V → Type κ
  Found d p = get p.0 d ≡ some p.1

  Found-behind :
      (k : K) (v : V) (d es : Dict K V)
      → contains k d ≡ false
      → All (Found d) es
      → All (Found ((k, v) ∷ d)) es
  unfolding get
  Found-behind k v d [] new h = tt
  Found-behind k v d ((j, w) ∷ es) new (p, h) =
      ((ground (arith, p, new, ==_iff k j, contains-get k d)), Found-behind k v d es new h)

  -- Each entry of a dictionary is what its key finds.
  pub All-found : (d : Dict K V) → IsDict d → All (λ (p : K × V). get p.0 d ≡ some p.1) d
  unfolding get
  All-found [] h = tt
  All-found ((k, v) ∷ d) (new, h) =
      ((rw (==_refl k) refl), Found-behind k v d d new (All-found d h))

  -- A key that is not in a dictionary differs from each of its keys.
  pub All-apart :
      (k : K) (d : Dict K V) → contains k d ≡ false → All (λ (p : K × V). (k == p.0) ≡ false) d
  unfolding contains
  All-apart k [] new = tt
  All-apart k ((j, v) ∷ d) new =
      ((ground (arith, new, ==_iff k j, ==_iff j k)), All-apart k d (ground (arith, new)))
