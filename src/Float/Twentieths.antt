-- ===== src/Float/Twentieths.antt =====
-- The laws of Float can be met: exact numbers in twentieths, which hold the literals of
-- ai/worker.py and ai/reputation.py. Products and quotients are of numbers that are not negative.
use arche_blockchain.Prelude.{ℕ, ◌+◌, ◌*◌, ◌/◌, ◌^◌, ◌≤◌, ◌≡◌, true, arith, []}
use native.Mathlib.Nat.{div-le_of_le-mul, mul-le-mul_left}
use arche_blockchain.Int.{ℤ, pos, negsuc, ◌+ℤ◌, ◌-ℤ◌, leb_ℤ, ltb_ℤ, pos_part, -ℤ_parts, +ℤ_parts}
use arche_blockchain.Float.{Float, IsOrdered}

abbrev pub Twentieths : Type 0
Twentieths = ℤ

abbrev pub twenty_times : ℤ → Twentieths
twenty_times (pos n) = pos (20 * n)
twenty_times (negsuc n) = negsuc (20 * n + 19)

instance abbrev pub twentieths_float : Float Twentieths
twentieths_float = record {
  of_int = twenty_times;
  decimal = λ m e. pos (20 * m / 10 ^ e);
  add = λ a b. a +ℤ b;
  sub = λ a b. a -ℤ b;
  mul = λ a b. pos (pos_part a * pos_part b / 20);
  quot = λ a n. pos (20 * pos_part a / n);
  le = leb_ℤ;
  lt = ltb_ℤ;
  format_1f = λ a. [];
}

sub_le : (x y : ℤ) → leb_ℤ (pos 0) y ≡ true → leb_ℤ (x -ℤ y) x ≡ true
sub_le x y h = ground (arith, h, -ℤ_parts x y)

decimal_le_one : (m e : ℕ) → m ≤ 10 ^ e → leb_ℤ (pos (20 * m / 10 ^ e)) (pos 20) ≡ true
decimal_le_one m e h =
    let q : 20 * m / 10 ^ e ≤ 20 = div-le_of_le-mul (10 ^ e) (omega (arith, h)) in ground (arith, q)

mul_le :
    (x y : ℤ)
    → leb_ℤ (pos 0) x ≡ true
    → leb_ℤ y (pos 20) ≡ true
    → leb_ℤ (pos (pos_part x * pos_part y / 20)) x ≡ true
mul_le x y p q =
    let grown : pos_part x * pos_part y ≤ pos_part x * 20 =
      mul-le-mul_left (pos_part x) (ground (arith, q)) in
    let small : pos_part x * pos_part y / 20 ≤ pos_part x =
      div-le_of_le-mul 20 (omega (arith, grown)) in
    ground (arith, p, small)

instance pub Twentieths-IsOrdered : IsOrdered Twentieths
Twentieths-IsOrdered = record {
  le_trans = λ x y z p q. ground (arith, p, q);
  lt-eq = λ x y. ground arith;
  le_total = λ x y h. ground (arith, h);
  of_int_mono = ground arith;
  decimal_nonneg = ground arith;
  decimal_le_one = decimal_le_one;
  mul_le = mul_le;
  add_nonneg = λ x y p q. ground (arith, p, q, +ℤ_parts x y);
  sub_nonneg = λ x y p. ground (arith, p, -ℤ_parts x y);
  sub_le = sub_le;
  sub_mono = λ x y z h. ground (arith, h, -ℤ_parts x z, -ℤ_parts y z);
  mul_nonneg = λ x y p q. ground arith;
}
