-- ===== src/Target/Retarget.antt =====
-- What the retarget of node/pow.py may do to the target.
use native.Mathlib.Nat.{mul-le-mul_left}
use arche_blockchain.Prelude.{ℕ, ◌-◌, ◌*◌, ◌/◌, ◌^◌, ◌≤◌, ◌<◌, ◌≡◌, refl, arith, min, max}
use arche_blockchain.Params.{max_target, min_retarget_timespan, max_retarget_timespan}
use arche_blockchain.Target.{calculate_next_bits, bits_to_target, target_to_bits}
use arche_blockchain.Target.Compact.{compact_error, decode_le}

-- The new target before it is encoded, for a timespan that has been clamped.
scaled : (t actual : ℕ) → ℕ
scaled t actual = min (t * actual / 241920) max_target

abbrev clamped : ℕ → ℕ → ℕ
clamped first last = min (max (last - first) min_retarget_timespan) max_retarget_timespan

scaled-le : (t actual : ℕ) → actual ≤ max_retarget_timespan → scaled t actual ≤ 4 * t
unfolding scaled
scaled-le t actual high = let up : t * actual ≤ t * 967680 = mul-le-mul_left t high in omega arith

scaled-ge : (t actual : ℕ) → t < 2 ^ 256 → min_retarget_timespan ≤ actual → t / 4 ≤ scaled t actual
unfolding scaled
scaled-ge t actual h low = let down : t * 60480 ≤ t * actual = mul-le-mul_left t low in omega arith

scaled_fits : (t actual : ℕ) → scaled t actual < 2 ^ 256
unfolding scaled
scaled_fits t actual = omega arith

-- The target after a retarget from the bits of the last block and the first and last timestamps.
abbrev pub next_target : ℕ → ℕ → ℕ → ℕ
next_target bits first last = bits_to_target (calculate_next_bits bits first last)

next_target_lem :
    (bits first last : ℕ)
    → next_target bits first last
      ≡ bits_to_target (target_to_bits (scaled (bits_to_target bits) (clamped first last)))
unfolding calculate_next_bits scaled
next_target_lem bits first last = refl

-- One retarget never makes the target more than four times as easy, whatever the timestamps.
pub retarget_up : (bits first last : ℕ) → next_target bits first last ≤ 4 * bits_to_target bits
retarget_up bits first last =
    let t : ℕ = bits_to_target bits in
    let n : ℕ = scaled t (clamped first last) in
    rw (next_target_lem bits first last) (
      omega (
        arith,
        decode_le n (scaled_fits t (clamped first last)),
        scaled-le t (clamped first last) (omega arith),
      ))

-- From a target between 2 ^ 18 and 2 ^ 256 one retarget never makes it more than four times as
-- hard, up to the rounding of one part in 2 ^ 15 of the compact form, whatever the timestamps.
pub retarget_down :
    (bits first last : ℕ)
    → bits_to_target bits < 2 ^ 256
    → 2 ^ 18 ≤ bits_to_target bits
    → (2 ^ 15 - 1) * (bits_to_target bits / 4) ≤ 2 ^ 15 * next_target bits first last
retarget_down bits first last fits large =
    let t : ℕ = bits_to_target bits in
    let n : ℕ = scaled t (clamped first last) in
    let lower : t / 4 ≤ n = scaled-ge t (clamped first last) fits (omega arith) in
    rw (next_target_lem bits first last) (
      omega
        (arith, lower, compact_error n (scaled_fits t (clamped first last)) (omega (arith, lower))))
