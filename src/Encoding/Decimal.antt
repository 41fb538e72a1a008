-- ===== src/Encoding/Decimal.antt =====
-- Reading back the decimal numbers of Encoding.antt (`str(n)` inside the text of `json.dumps`).
use mathlib.Core.List.{append_assoc}
use arche_blockchain.Prelude.{
  ℕ, zero, suc, ◌+◌, ◌-◌, ◌*◌, ◌/◌, ◌%◌, ◌<◌, ◌≡◌, ◌∙◌, ap, inl, inr, true, ◌&&◌, [], ◌∷◌, ◌++◌,
  arith, Text, leb, ltb, Bool-cases, if◌then◌else◌,
}
use arche_blockchain.Encoding.{decimal}

-- The number that a text starts with, continued from an accumulator.
unfoldable pub read_digits : ℕ → Text → ℕ
read_digits acc [] = acc
read_digits acc (c ∷ cs) =
    let next = read_digits (acc * 10 + (c - b'0')) cs in
    if leb b'0' c && leb c b'9' then next else acc

read_digit :
    (acc d : ℕ) (cs : Text)
    → d < 10
    → read_digits acc ((b'0' + d) ∷ cs) ≡ read_digits (acc * 10 + d) cs
unfolding read_digits
read_digit acc d cs h =
    let e : b'0' + d - b'0' ≡ d = omega arith in
    let t : (leb b'0' (b'0' + d) && leb (b'0' + d) b'9') ≡ true = ground arith in rw (e, t)

pub read-decimal :
    (fuel n : ℕ) (rest : Text)
    → n < fuel
    → read_digits 0 (decimal fuel n ++ rest) ≡ read_digits n rest
unfolding decimal
read-decimal zero n rest h = elim h [ ]
read-decimal (suc fuel) n rest h = elim (Bool-cases (ltb n 10)) [
  | inl small ↦
      let e : 0 * 10 + n ≡ n = omega arith in
      rw small (read_digit 0 n rest (ground arith) ∙ ap (λ (m : ℕ). read_digits m rest) e)
  | inr large ↦
      let e : n / 10 * 10 + n % 10 ≡ n = omega arith in
      rw (large, append_assoc)
        (read-decimal fuel (n / 10) ((b'0' + n % 10) ∷ rest) (ground arith)
          ∙ read_digit (n / 10) (n % 10) rest (omega arith)
          ∙ ap (λ (m : ℕ). read_digits m rest) e)
]
