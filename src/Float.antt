-- ===== src/Float.antt =====
-- Python's float, as an interface: what the sources of ai/ do with scores and sizes, and the laws
-- that hold of finite double-precision numbers as long as no result overflows.
pub mod Twentieths
use arche_blockchain.Prelude.{
  ℕ, ◌+◌, ◌-◌, ◌*◌, ◌/◌, ◌^◌, ◌≤◌, ◌≡◌, refl, Bool, true, false, not, ◌&&◌, arith, Text, codes,
}
use arche_blockchain.Int.{
  ℤ, pos, negsuc, ◌+ℤ◌, ◌-ℤ◌, leb_ℤ, ltb_ℤ, int_laws, sub_ℕ, pos_part, neg_part,
}

pub record Float (W : Type 0) : Type 0 where
  -- `float(n)` and the literals without a fraction
  pub of_int : ℤ → W
  -- the literal m / 10 ^ e
  pub decimal : ℕ → ℕ → W
  pub add : W → W → W
  pub sub : W → W → W
  pub mul : W → W → W
  -- the true division of two integers
  pub quot : ℤ → ℕ → W
  pub le : W → W → Bool
  pub lt : W → W → Bool
  -- `{x:.1f}`
  pub format_1f : W → Text

infix 4 ◌≼◌
abbrev pub ◌≼◌ : {W : Type 0} ⦃fl : Float W⦄ → W → W → Type 0
◌≼◌ ⦃fl⦄ x y = fl.le x y ≡ true

-- Rounding is monotone, so the laws of the real numbers carry over.
pub record IsOrdered (W : Type 0) ⦃fl : Float W⦄ : Type 0 where
  pub le_trans : (x y z : W) → x ≼ y → y ≼ z → x ≼ z
  pub lt-eq : (x y : W) → fl.lt x y ≡ not (fl.le y x)
  pub le_total : (x y : W) → fl.le x y ≡ false → y ≼ x
  pub of_int_mono : (a b : ℤ) → leb_ℤ a b ≡ true → fl.of_int a ≼ fl.of_int b
  pub decimal_nonneg : (m e : ℕ) → fl.of_int (pos 0) ≼ fl.decimal m e
  pub decimal_le_one : (m e : ℕ) → m ≤ 10 ^ e → fl.decimal m e ≼ fl.of_int (pos 1)
  pub mul_le : (x y : W) → fl.of_int (pos 0) ≼ x → y ≼ fl.of_int (pos 1) → fl.mul x y ≼ x
  pub add_nonneg :
      (x y : W) → fl.of_int (pos 0) ≼ x → fl.of_int (pos 0) ≼ y → fl.of_int (pos 0) ≼ fl.add x y
  pub sub_nonneg : (x y : W) → y ≼ x → fl.of_int (pos 0) ≼ fl.sub x y
  pub sub_le : (x y : W) → fl.of_int (pos 0) ≼ y → fl.sub x y ≼ x
  pub sub_mono : (x y z : W) → x ≼ y → fl.sub x z ≼ fl.sub y z
  pub mul_nonneg :
      (x y : W) → fl.of_int (pos 0) ≼ x → fl.of_int (pos 0) ≼ y → fl.of_int (pos 0) ≼ fl.mul x y

module _ {W : Type 0} ⦃fl : Float W⦄ where
  -- `max(a, b)` and `min(a, b)`, which return the first unless the second is past it.
  unfoldable pub max_float : W → W → W
  max_float a b = elim (fl.lt a b) [ true ↦ b | false ↦ a ]

  unfoldable pub min_float : W → W → W
  min_float a b = elim (fl.lt b a) [ true ↦ b | false ↦ a ]

  -- `a == b`
  unfoldable pub float_beq : W → W → Bool
  float_beq a b = fl.le a b && fl.le b a

  module _ ⦃ord : IsOrdered W⦄ where
    pub le_refl : (x : W) → x ≼ x
    le_refl x = ground (arith, ord.le_total x x)

    pub max_float_lower : (a b : W) → a ≼ max_float a b
    unfolding max_float
    max_float_lower a b = ground (arith, ord.lt-eq a b, ord.le_total b a, le_refl a)

    pub max_float_upper : (a b c : W) → a ≼ c → b ≼ c → max_float a b ≼ c
    unfolding max_float
    max_float_upper a b c p q = ground (arith, p, q)

    pub min_float_upper : (a b : W) → min_float a b ≼ a
    unfolding min_float
    min_float_upper a b = ground (arith, ord.lt-eq b a, ord.le_total a b, le_refl a)

    pub min_float_lower : (a b c : W) → c ≼ a → c ≼ b → c ≼ min_float a b
    unfolding min_float
    min_float_lower a b c p q = ground (arith, p, q)
