-- ===== src/Wallet/Digits.antt =====
-- Numbers as digits in base 256 and in base 2048, as wallet/wallet.py writes and reads them.
use native.Mathlib.Nat.{
  div-eq_of_lt-le, div-add-mod', pow-suc, add-mul, mul_assoc, mul_comm, mul-le-mul_right, mod-lt,
  one-le-pow,
}
use arche_blockchain.Prelude.{
  ℕ, zero, suc, ◌+◌, ◌*◌, ◌/◌, ◌%◌, ◌^◌, ◌<◌, ◌≤◌, ◌≡◌, refl, sym, subst, ap, ap₂, ◌∙◌, List, [],
  ◌∷◌, length, arith,
}
use arche_blockchain.Encoding.{Bytes}
use arche_blockchain.Encoding.Hex.{IsBytes}
use arche_blockchain.Target.{from_bytes, to_bytes}
use arche_blockchain.Wallet.Mnemonic.{word_indexes}

-- The quotient and the remainder of a number by the place of its last digits.
pub div_shift : (x p r : ℕ) → r < p → (x * p + r) / p ≡ x
div_shift x p r h =
    div-eq_of_lt-le p (omega arith)
      (subst (λ n. x * p + r < n) (sym (add-mul x 1 p)) (omega (arith, h)))

pub mod_shift : (x p r : ℕ) → r < p → (x * p + r) % p ≡ r
mod_shift x p r h =
    let whole = div-add-mod' (x * p + r) p in
    let q : (x * p + r) / p * p ≡ x * p = ap (λ (n : ℕ). n * p) (div_shift x p r h) in
    omega (arith, whole, q)

-- (acc * b + d) * p, with a digit's place brought together.
place : (acc b d p : ℕ) → (acc * b + d) * p ≡ acc * (p * b) + d * p
place acc b d p =
    add-mul (acc * b) d p
    ∙ ap (λ (n : ℕ). n + d * p) (mul_assoc acc b p ∙ ap (λ (n : ℕ). acc * n) (mul_comm b p))

first_byte : (b : ℕ) (bs : Bytes) → from_bytes 0 (b ∷ bs) ≡ from_bytes b bs
unfolding from_bytes
first_byte b bs = ap (λ (n : ℕ). from_bytes n bs) (omega arith)

pub from_bytes_from :
    (acc : ℕ) (bs : Bytes) → from_bytes acc bs ≡ acc * 256 ^ length bs + from_bytes 0 bs
unfolding from_bytes
from_bytes_from acc [] = omega arith
from_bytes_from acc (b ∷ bs) =
    let one = from_bytes_from (acc * 256 + b) bs in
    let two = from_bytes_from b bs in
    let shift = place acc 256 b (256 ^ length bs) in
    let power : acc * 256 ^ length (b ∷ bs) ≡ acc * (256 ^ length bs * 256) =
      ap (λ (n : ℕ). acc * n) (pow-suc 256 (length bs)) in
    let here : from_bytes acc (b ∷ bs) ≡ from_bytes (acc * 256 + b) bs = refl in
    omega (arith, one, two, shift, power, here, first_byte b bs)

pub from_bytes_below : (bs : Bytes) → IsBytes bs → from_bytes 0 bs < 256 ^ length bs
unfolding from_bytes
from_bytes_below [] h = omega arith
from_bytes_below (b ∷ bs) (small, h) =
    let rest = from_bytes_below bs h in
    let two = from_bytes_from b bs in
    let power : 256 ^ length (b ∷ bs) ≡ 256 ^ length bs * 256 = pow-suc 256 (length bs) in
    let top : b * 256 ^ length bs ≤ 255 * 256 ^ length bs =
      mul-le-mul_right (256 ^ length bs) (omega (arith, small)) in
    omega (arith, rest, two, power, top, first_byte b bs)

-- The bytes of a number with these bytes at its end.
pub to_bytes-from_bytes :
    (acc : ℕ) (bs : Bytes) → IsBytes bs → to_bytes (length bs) (from_bytes acc bs) ≡ bs
unfolding to_bytes from_bytes
to_bytes-from_bytes acc [] h = refl
to_bytes-from_bytes acc (b ∷ bs) (small, h) =
    let p = from_bytes_from (acc * 256 + b) bs in
    let q : from_bytes (acc * 256 + b) bs / 256 ^ length bs ≡ acc * 256 + b =
      ap (λ (n : ℕ). n / 256 ^ length bs) p ∙ div_shift _ _ _ (from_bytes_below bs h) in
    let digit : from_bytes (acc * 256 + b) bs / 256 ^ length bs % 256 ≡ b =
      ap (λ (n : ℕ). n % 256) q ∙ mod_shift acc 256 b small in
    ap₂ (λ x xs. x ∷ xs) digit (to_bytes-from_bytes (acc * 256 + b) bs h)

-- The number of base-2048 digits, continued from an accumulator.
unfoldable pub number_of : ℕ → List ℕ → ℕ
number_of acc [] = acc
number_of acc (i ∷ is) = number_of (acc * 2048 + i) is

-- The remainder by a place, from the digit there and the remainder by the next.
mod_next : (c p : ℕ) → 0 < p → c % (p * 2048) ≡ c / p % 2048 * p + c % p
mod_next c p positive =
    let x = c / p in
    let y = x / 2048 in
    let d = x % 2048 in
    let whole : c ≡ x * p + c % p = sym (div-add-mod' c p) in
    let top : x ≡ y * 2048 + d = sym (div-add-mod' x 2048) in
    let split : x * p ≡ y * (p * 2048) + d * p = ap (λ (n : ℕ). n * p) top ∙ place y 2048 d p in
    let low : c % p < p = mod-lt c positive in
    let dlow : d * p ≤ 2047 * p = mul-le-mul_right p (omega arith) in
    let r = d * p + c % p in
    let below : r < p * 2048 = omega (arith, low, dlow) in
    let all : c ≡ y * (p * 2048) + r = omega (arith, whole, split) in
    ap (λ (n : ℕ). n % (p * 2048)) all ∙ mod_shift y (p * 2048) r below

pub number_of-word_indexes :
    (n acc c : ℕ) → number_of acc (word_indexes n c) ≡ acc * 2048 ^ n + c % 2048 ^ n
unfolding number_of word_indexes
number_of-word_indexes zero acc c = omega arith
number_of-word_indexes (suc n) acc c =
    let p = 2048 ^ n in
    let rest = number_of-word_indexes n (acc * 2048 + c / p % 2048) c in
    let shift = place acc 2048 (c / p % 2048) p in
    let power = pow-suc 2048 n in
    let next = mod_next c p (one-le-pow n 2048 (omega arith)) in
    rest
    ∙ (subst (λ q. (acc * 2048 + c / p % 2048) * p + c % p ≡ acc * q + c % q) (sym power)
        (omega (arith, shift, next)))
