-- ===== src/Node/Sorted.antt =====
-- The order in which `_handle_tx` of node/node.py sorts a full pool, and what it drops of it.
use arche_blockchain.Prelude.{
  ◌≡◌, true, List, [], ◌∷◌, length, ◌≤◌, All, Bool-cases, inl, inr, arith,
}
use arche_blockchain.Int.{leb_ℤ}
use arche_blockchain.Node.{Pooled, insert_by_fee, sort_by_fee, drop_first}
use mathlib.Core.List.{Perm}
use mathlib.Core.List.Perm

-- The first pays at most what the second pays.
abbrev pub AtMost : Pooled → Pooled → Type 0
AtMost p q = leb_ℤ p.fee_cache q.fee_cache ≡ true

abbrev pub IsSorted : List Pooled → Type 0
IsSorted [] = Unit
IsSorted (p ∷ ps) = All (AtMost p) ps × IsSorted ps

AtMost-trans : (p q r : Pooled) → AtMost p q → AtMost q r → AtMost p r
AtMost-trans p q r h k = ground (arith, h, k)

AtMost-All : (p q : Pooled) (ps : List Pooled) → AtMost p q → All (AtMost q) ps → All (AtMost p) ps
AtMost-All p q [] h a = tt
AtMost-All p q (r ∷ ps) h (k, a) = (AtMost-trans p q r h k, AtMost-All p q ps h a)

AtMost-insert_by_fee :
    (q p : Pooled) (ps : List Pooled)
    → AtMost q p
    → All (AtMost q) ps
    → All (AtMost q) (insert_by_fee p ps)
unfolding insert_by_fee
AtMost-insert_by_fee q p [] h a = (h, tt)
AtMost-insert_by_fee q p (r ∷ ps) h (k, a) = elim (Bool-cases (leb_ℤ p.fee_cache r.fee_cache)) [
  | inl first ↦ rw first (h, (k, a))
  | inr last ↦ rw last (k, AtMost-insert_by_fee q p ps h a)
]

insert_by_fee-IsSorted :
    (p : Pooled) (ps : List Pooled) → IsSorted ps → IsSorted (insert_by_fee p ps)
unfolding insert_by_fee
insert_by_fee-IsSorted p [] h = (tt, tt)
insert_by_fee-IsSorted p (q ∷ ps) (a, h) = elim (Bool-cases (leb_ℤ p.fee_cache q.fee_cache)) [
  | inl first ↦ rw first ((first, AtMost-All p q ps first a), (a, h))
  | inr last ↦
      rw last (AtMost-insert_by_fee q p ps (ground (arith, last)) a, insert_by_fee-IsSorted p ps h)
]

pub sort_by_fee-IsSorted : (ps : List Pooled) → IsSorted (sort_by_fee ps)
unfolding sort_by_fee
sort_by_fee-IsSorted [] = tt
sort_by_fee-IsSorted (p ∷ ps) = insert_by_fee-IsSorted p (sort_by_fee ps) (sort_by_fee-IsSorted ps)

insert_by_fee-Perm : (p : Pooled) (ps : List Pooled) → Perm (insert_by_fee p ps) (p ∷ ps)
unfolding insert_by_fee
insert_by_fee-Perm p [] = Perm.refl (p ∷ [])
insert_by_fee-Perm p (q ∷ ps) = elim (Bool-cases (leb_ℤ p.fee_cache q.fee_cache)) [
  | inl first ↦ rw first (Perm.refl (p ∷ q ∷ ps))
  | inr last ↦ rw last (Perm.trans (Perm.cons q (insert_by_fee-Perm p ps)) (Perm.swap p q ps))
]

pub sort_by_fee-Perm : (ps : List Pooled) → Perm (sort_by_fee ps) ps
unfolding sort_by_fee
sort_by_fee-Perm [] = Perm.refl []
sort_by_fee-Perm (p ∷ ps) =
    Perm.trans (insert_by_fee-Perm p (sort_by_fee ps)) (Perm.cons p (sort_by_fee-Perm ps))

-- What is left of a pool that lost one of its cheapest entries.
abbrev pub LostCheapest : List Pooled → List Pooled → Type 0
LostCheapest pool rest = (p : Pooled) × Perm (p ∷ rest) pool × All (AtMost p) rest

pub dropped :
    (pool ps : List Pooled)
    → 1 ≤ length ps
    → Perm ps pool
    → IsSorted ps
    → LostCheapest pool (drop_first ps)
unfolding drop_first
dropped pool [] some_left same sorted = absurd (omega (arith, some_left))
dropped pool (p ∷ ps) some_left same (a, sorted) = (p, same, a)
