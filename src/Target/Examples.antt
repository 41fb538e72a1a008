-- ===== src/Target/Examples.antt =====
-- The compact encoding and the retarget at concrete inputs.
use arche_blockchain.Prelude.{ℕ, ◌≡◌, refl, ◌^◌, ◌-◌, ◌*◌, ◌≤◌, ◌<◌, ◌/◌, arith}
use arche_blockchain.Target.{
  target_to_bits, bits_to_target, difficulty_to_bits, scan, to_bytes, compact, from_bytes,
}
use arche_blockchain.Target.Compact.{RoundsDown, compact_error, small_target_lost}
use arche_blockchain.Target.Retarget.{next_target, retarget_up, retarget_down}

-- Difficulty 0 and difficulty 1 ask for the same target.
difficulty_zero_eq_one : difficulty_to_bits 0 ≡ difficulty_to_bits 1
unfolding difficulty_to_bits target_to_bits scan to_bytes compact from_bytes
difficulty_zero_eq_one = refl

max_bits : target_to_bits (2 ^ 256 - 1) ≡ 0x2100FFFF
unfolding target_to_bits scan to_bytes compact from_bytes
max_bits = refl

compact_error_example : RoundsDown 123456789 (bits_to_target (target_to_bits 123456789))
compact_error_example = compact_error 123456789 (omega arith) (omega arith)

small_target_lost_example : bits_to_target (target_to_bits 1000) < 1000
small_target_lost_example = small_target_lost 1000 (omega arith) (omega arith)

-- The bits of a target of 2 ^ 224 at most.
abbrev start_bits : ℕ
start_bits = 0x1D00FFFF

start_fits : bits_to_target start_bits < 2 ^ 256
unfolding bits_to_target
start_fits = omega arith

start_large : 2 ^ 18 ≤ bits_to_target start_bits
unfolding bits_to_target
start_large = omega arith

retarget_up_example : next_target start_bits 1000 9000000 ≤ 4 * bits_to_target start_bits
retarget_up_example = retarget_up start_bits 1000 9000000

retarget_down_example :
    (2 ^ 15 - 1) * (bits_to_target start_bits / 4) ≤ 2 ^ 15 * next_target start_bits 1000 1001
retarget_down_example = retarget_down start_bits 1000 1001 start_fits start_large
