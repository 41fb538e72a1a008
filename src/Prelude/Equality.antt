-- ===== src/Prelude/Equality.antt =====
-- Equality tests: an interface with its law, and the instances for numbers, texts and pairs.
use Prim.Native.Nat.{ℕ}
use mathlib.Core.Path.{◌≡◌, refl}
use mathlib.Core.Logic.{◌↔◌}
use mathlib.Core.Bool.{Bool, true, false, ◌&&◌}
use mathlib.Core.List.{[], ◌∷◌}
use native.Mathlib.Omega.{arith}
use arche_blockchain.Prelude.Tests.{nat_beq}
use arche_blockchain.Prelude.Lists.{Text}

-- Python's `==` on one type: it tells equal values apart from all others.
pub record HasEq {ℓ} (K : Type ℓ) : Type ℓ where
  pub same : K → K → Bool
  pub of_same : (j k : K) → same j k ≡ true → j ≡ k
  pub same_refl : (k : K) → same k k ≡ true

module _ {ℓ} {K : Type ℓ} ⦃keys : HasEq K⦄ where
  infix 50 ◌==◌
  abbrev pub ◌==◌ : K → K → Bool
  j == k = keys.same j k

  pub ==_refl : (k : K) → (k == k) ≡ true
  ==_refl k = keys.same_refl k

  pub ==_iff : (j k : K) → (j == k ≡ true) ↔ (j ≡ k)
  ==_iff j k = (keys.of_same j k, λ p. rw p (keys.same_refl k))

pub nat_of_beq : (m n : ℕ) → nat_beq m n ≡ true → m ≡ n
nat_of_beq m n h = ground arith

pub nat_beq_refl : (n : ℕ) → nat_beq n n ≡ true
nat_beq_refl n = ground arith

unfoldable pub text_beq : Text → Text → Bool
text_beq [] [] = true
text_beq (x ∷ xs) (y ∷ ys) = nat_beq x y && text_beq xs ys
text_beq _ _ = false

pub text_eq_of_beq : (s t : Text) → text_beq s t ≡ true → s ≡ t
unfolding text_beq
text_eq_of_beq [] [] h = refl
text_eq_of_beq [] (y ∷ ys) h = ground arith
text_eq_of_beq (x ∷ xs) [] h = ground arith
text_eq_of_beq (x ∷ xs) (y ∷ ys) h = ground (arith, text_eq_of_beq xs ys)

pub text_beq_refl : (s : Text) → text_beq s s ≡ true
unfolding text_beq
text_beq_refl [] = refl
text_beq_refl (x ∷ xs) = ground (arith, text_beq_refl xs)

instance abbrev pub nat_eq : HasEq ℕ
nat_eq = record { same = nat_beq; of_same = nat_of_beq; same_refl = nat_beq_refl }

instance abbrev pub text_eq : HasEq Text
text_eq = record { same = text_beq; of_same = text_eq_of_beq; same_refl = text_beq_refl }

abbrev pub pair_beq : Text × ℕ → Text × ℕ → Bool
pair_beq p q = text_beq p.0 q.0 && nat_beq p.1 q.1

pub pair_of_beq : (p q : Text × ℕ) → pair_beq p q ≡ true → p ≡ q
pair_of_beq (a, m) (b, n) h = ground (arith, text_eq_of_beq a b)

pub pair_beq_refl : (p : Text × ℕ) → pair_beq p p ≡ true
pair_beq_refl (a, m) = ground (arith, text_beq_refl a)

instance abbrev pub pair_eq : HasEq (Text × ℕ)
pair_eq = record { same = pair_beq; of_same = pair_of_beq; same_refl = pair_beq_refl }
