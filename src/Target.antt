-- ===== src/Target.antt =====
-- The compact target (nBits) of node/block.py and the retarget of node/pow.py. A target is a
-- 256-bit number; shifts are written as products and divisions by powers of two, a mask of low
-- bits as `%`, and `|` of operands with no common bit as `+`.
pub mod Compact
pub mod Retarget
mod Examples
use arche_blockchain.Prelude.{
  ℕ, zero, suc, ◌+◌, ◌-◌, ◌*◌, ◌/◌, ◌%◌, ◌^◌, max, min, List, [], ◌∷◌, take, nat_beq, leb,
  if◌then◌else◌,
}
use arche_blockchain.Params.{
  max_target, min_retarget_timespan, max_retarget_timespan, target_block_time, retarget_interval,
}

-- `target.to_bytes(n, "big")`, for a number that fits.
unfoldable pub to_bytes : ℕ → ℕ → List ℕ
to_bytes zero t = []
to_bytes (suc n) t = (t / 256 ^ n % 256) ∷ to_bytes n t

-- `int.from_bytes(bs, "big")`, continued from an accumulator.
unfoldable pub from_bytes : ℕ → List ℕ → ℕ
from_bytes acc [] = acc
from_bytes acc (b ∷ bs) = from_bytes (acc * 256 + b) bs

-- The body of the loop at the first byte that is not zero.
unfoldable pub compact : ℕ → ℕ → ℕ
compact exponent coefficient =
    if nat_beq (coefficient / 2 ^ 23 % 2) 1
    then (exponent + 1) * 2 ^ 24 + coefficient / 256 % 2 ^ 23
    else exponent * 2 ^ 24 + coefficient % 2 ^ 23

-- The loop over the bytes; `exponent` is `32 - i`.
unfoldable pub scan : ℕ → List ℕ → ℕ
scan exponent [] = 0
scan exponent (b ∷ bs) =
    let rest = scan (exponent - 1) bs in
    if nat_beq b 0 then rest else compact exponent (from_bytes 0 (take 3 (b ∷ bs)))

unfoldable pub target_to_bits : ℕ → ℕ
target_to_bits target = if nat_beq target 0 then 0 else scan 32 (to_bytes 32 target)

unfoldable pub bits_to_target : ℕ → ℕ
bits_to_target bits =
    let exponent = bits / 2 ^ 24 % 256 in
    let coefficient = bits % 2 ^ 23 in
    if leb exponent 3
    then coefficient / 2 ^ (8 * (3 - exponent))
    else coefficient * 2 ^ (8 * (exponent - 3))

unfoldable pub difficulty_to_bits : ℕ → ℕ
difficulty_to_bits difficulty =
    if nat_beq difficulty 0
    then 0x200FFFFF
    else target_to_bits ((2 ^ 256 - 1) / 2 ^ (difficulty * 4))

-- `max(actual, MIN)` of a timespan that may be negative is `max` of its truncated difference.
pub calculate_next_bits : ℕ → ℕ → ℕ → ℕ
calculate_next_bits current_bits first_timestamp last_timestamp =
    let actual = last_timestamp - first_timestamp in
    let actual = max actual min_retarget_timespan in
    let actual = min actual max_retarget_timespan in
    let current_target = bits_to_target current_bits in
    let new_target = current_target * actual / (target_block_time * retarget_interval) in
    target_to_bits (min new_target max_target)

-- The work of a block with these bits (`_block_work` of node/chain.py).
unfoldable pub block_work : ℕ → ℕ
block_work bits =
    let target = bits_to_target bits in if nat_beq target 0 then 2 ^ 256 else 2 ^ 256 / (target + 1)
