-- ===== src/Target/Compact.antt =====
-- How much of a target survives `target_to_bits` and `bits_to_target` (node/block.py).
use native.Mathlib.Nat.{
  div-add-mod', div-div-eq-div-mul, div-eq_of_lt, div-lt_iff_lt-mul, mod-lt, mul-le-mul_right,
  one-le-pow, pow-le-pow_right, pow-suc,
}
use native.Mathlib.Numerals.{towards_suc}
use arche_blockchain.Prelude.{
  ℕ, zero, suc, ◌+◌, ◌-◌, ◌*◌, ◌/◌, ◌%◌, ◌^◌, ◌≤◌, ◌<◌, ◌≡◌, ◌≢◌, List, ◌∷◌, refl, sym, ◌∙◌, ap,
  inl, inr, arith, take, true, false, nat_beq, leb, if◌then◌else◌, Bool-cases,
}
use arche_blockchain.Target.{to_bytes, from_bytes, compact, scan, target_to_bits, bits_to_target}

div_pow : (t j : ℕ) → t / 256 ^ suc j ≡ t / 256 ^ j / 256
div_pow t j = ap (λ (d : ℕ). t / d) (pow-suc 256 j) ∙ sym (div-div-eq-div-mul t (256 ^ j) 256)

pow_bytes : (j : ℕ) → 2 ^ (8 * j) ≡ 256 ^ j
pow_bytes zero = refl
pow_bytes (suc j) =
    let e : 8 * suc j ≡ 8 * j + 8 = omega arith in
    rw (e, pow-suc 256 j) (simp towards_suc (omega (arith, pow_bytes j)))

-- A number below 256 ^ (j + 3) starts with three bytes that make `t / 256 ^ j`.
top_three :
    (t j : ℕ)
    → t / 256 ^ j < 2 ^ 24
    → from_bytes 0 (take 3 (to_bytes (suc (suc (suc j))) t)) ≡ t / 256 ^ j
unfolding to_bytes from_bytes
top_three t j h = rw (div_pow t (suc j), div_pow t j) (omega (arith, h))

pow_pos : (n : ℕ) → 0 < 256 ^ n
pow_pos n = one-le-pow n 256 (omega arith)

top_byte : (t n : ℕ) → t < 256 ^ suc n → t / 256 ^ n < 256
top_byte t n h =
    let e : 256 ^ suc n ≡ 256 * 256 ^ n = rw pow-suc (omega arith) in
    (div-lt_iff_lt-mul (pow_pos n)).1 (rw e at h)

below_next : (t n : ℕ) → t / 256 ^ n ≡ 0 → t < 256 ^ n
below_next t n h =
    let p : t < 1 * 256 ^ n = (div-lt_iff_lt-mul (pow_pos n)).0 (omega (arith, h)) in
    omega (arith, p)

-- What the loop returns, and for which byte it stops.
Stops : ℕ → ℕ → ℕ → Type 0
Stops n t j =
    (j + 3 ≤ n)
    × (2 ^ 16 ≤ t / 256 ^ j)
    × (t / 256 ^ j < 2 ^ 24)
    × (scan n (to_bytes n t) ≡ compact (j + 3) (t / 256 ^ j))

scan_skip : (m t : ℕ) → t / 256 ^ m ≡ 0 → scan (suc m) (to_bytes (suc m) t) ≡ scan m (to_bytes m t)
unfolding scan to_bytes
scan_skip m t h = let e : suc m - 1 ≡ m = omega arith in rw (h, e)

scan_first :
    (n b : ℕ) (bs : List ℕ)
    → nat_beq b 0 ≡ false
    → scan n (b ∷ bs) ≡ compact n (from_bytes 0 (take 3 (b ∷ bs)))
unfolding scan
scan_first n b bs h = rw h

scan_stop :
    (j t : ℕ)
    → t / 256 ^ j < 2 ^ 24
    → 2 ^ 16 ≤ t / 256 ^ j
    → scan (suc (suc (suc j))) (to_bytes (suc (suc (suc j))) t) ≡ compact (j + 3) (t / 256 ^ j)
unfolding to_bytes
scan_stop j t h k =
    let n : j + 3 ≡ suc (suc (suc j)) = omega arith in
    let top : t / 256 ^ suc (suc j) ≡ t / 256 ^ j / 256 / 256 =
      div_pow t (suc j) ∙ ap (λ (q : ℕ). q / 256) (div_pow t j) in
    let pos : t / 256 ^ suc (suc j) % 256 ≢ 0 = omega (arith, top) in
    scan_first (suc (suc (suc j))) (t / 256 ^ suc (suc j) % 256) (to_bytes (suc (suc j)) t)
      (ground arith)
    ∙ ap (compact (suc (suc (suc j)))) (top_three t j h)
    ∙ ap (λ (m : ℕ). compact m (t / 256 ^ j)) (sym n)

-- The loop stops at the first byte that is not zero, which is followed by two more.
scan-to_bytes : (n t : ℕ) → t < 256 ^ n → 2 ^ 16 ≤ t → (j : ℕ) × Stops n t j
unfolding Stops
scan-to_bytes zero t h k = absurd (omega arith)
scan-to_bytes (suc zero) t h k = absurd (omega arith)
scan-to_bytes (suc (suc zero)) t h k = absurd (omega arith)
scan-to_bytes (suc (suc (suc j))) t h k = elim (Bool-cases (nat_beq (t / 256 ^ suc (suc j)) 0)) [
  | inl skipped ↦
      let z : t / 256 ^ suc (suc j) ≡ 0 = ground arith in
      let (i, (fits, low, high, e)) =
        scan-to_bytes (suc (suc j)) t (below_next t (suc (suc j)) z) k in
      (i, (omega (arith, fits), low, high, scan_skip (suc (suc j)) t z ∙ e))
  | inr first ↦
      let top : t / 256 ^ suc (suc j) < 256 = top_byte t (suc (suc j)) h in
      let e : t / 256 ^ suc (suc j) ≡ t / 256 ^ j / 256 / 256 =
        div_pow t (suc j) ∙ ap (λ (q : ℕ). q / 256) (div_pow t j) in
      let z : 0 < t / 256 ^ suc (suc j) = ground arith in
      (
        j,
        (
          omega arith,
          omega (arith, e),
          omega (arith, e),
          scan_stop j t (omega (arith, e)) (omega (arith, e)),
        ),
      )
]

bits-value :
    (j c : ℕ) → j + 3 < 256 → c < 2 ^ 23 → bits_to_target ((j + 3) * 2 ^ 24 + c) ≡ c * 256 ^ j
unfolding bits_to_target
bits-value j c hj hc =
    let e : ((j + 3) * 2 ^ 24 + c) / 2 ^ 24 % 256 ≡ j + 3 = omega arith in
    let m : ((j + 3) * 2 ^ 24 + c) % 2 ^ 23 ≡ c = omega arith in
    let s : j + 3 - 3 ≡ j = omega arith in rw (e, m, s, pow_bytes j) (branch j)
  where
    branch :
        (i : ℕ) → (if leb (i + 3) 3 then c / 2 ^ (8 * (3 - (i + 3))) else c * 256 ^ i) ≡ c * 256 ^ i
    branch zero = omega arith
    branch (suc i) = ground arith

-- What encoding and decoding may change: it rounds down, and by less than one part in 2 ^ 15.
abbrev pub RoundsDown : ℕ → ℕ → Type 0
RoundsDown t u = (u ≤ t) × ((t - u) * 2 ^ 15 ≤ t)

-- With the sign bit set the last of the three bytes is lost too.
RoundsDown-high :
    (t q d : ℕ) → t ≡ q * d + t % d → t % d < d → 2 ^ 23 ≤ q → RoundsDown t (q / 256 * (d * 256))
RoundsDown-high t q d split small h =
    let e : q * d ≡ (q / 256 * 256 + q % 256) * d = ap (λ (n : ℕ). n * d) (omega arith) in
    let byte : q % 256 * d ≤ 255 * d = mul-le-mul_right d (omega arith) in
    let large : 2 ^ 23 * d ≤ q * d = mul-le-mul_right d h in (omega (arith, e), omega (arith, e))

RoundsDown-plain : (t q d : ℕ) → t ≡ q * d + t % d → t % d < d → 2 ^ 16 ≤ q → RoundsDown t (q * d)
RoundsDown-plain t q d split small h =
    let large : 2 ^ 16 * d ≤ q * d = mul-le-mul_right d h in (omega arith, omega arith)

decode-compact :
    (t j : ℕ)
    → j + 3 ≤ 32
    → 2 ^ 16 ≤ t / 256 ^ j
    → t / 256 ^ j < 2 ^ 24
    → RoundsDown t (bits_to_target (compact (j + 3) (t / 256 ^ j)))
unfolding compact
decode-compact t j fits low high =
    let q : ℕ = t / 256 ^ j in
    let split : t ≡ q * 256 ^ j + t % 256 ^ j = sym (div-add-mod' t (256 ^ j)) in
    let small : t % 256 ^ j < 256 ^ j = mod-lt t (pow_pos j) in
    elim (Bool-cases (nat_beq (q / 2 ^ 23 % 2) 1)) [
      | inl sign ↦
          let e : j + 3 + 1 ≡ suc j + 3 = omega arith in
          let c : q / 256 % 2 ^ 23 ≡ q / 256 = omega arith in
          rw (sign, e, c, bits-value (suc j) (q / 256) (omega arith) (omega arith), pow-suc 256 j)
            (RoundsDown-high t q (256 ^ j) split small (ground arith))
      | inr plain ↦
          let c : q % 2 ^ 23 ≡ q = ground arith in
          rw (plain, c, bits-value j q (omega arith) (ground arith))
            (RoundsDown-plain t q (256 ^ j) split small low)
    ]

nonzero : (t : ℕ) → 0 < t → nat_beq t 0 ≡ false
nonzero t h = ground arith

-- Encoding a target of at least 2 ^ 16 that fits in 256 bits and decoding it again rounds
-- down, and loses at most one part in 2 ^ 15.
pub compact_error :
    (t : ℕ) → t < 2 ^ 256 → 2 ^ 16 ≤ t → RoundsDown t (bits_to_target (target_to_bits t))
unfolding target_to_bits Stops
compact_error t h k =
    let (j, (fits, low, high, e)) = scan-to_bytes 32 t h k in
    rw (nonzero t (omega arith), e) (decode-compact t j fits low high)

scan_two :
    (k t : ℕ) → t < 2 ^ 16 → scan (suc (suc k)) (to_bytes (suc (suc k)) t) ≡ scan 2 (to_bytes 2 t)
scan_two zero t h = refl
scan_two (suc k) t h =
    let fits : 256 ^ 2 ≤ 256 ^ suc (suc k) = pow-le-pow_right (omega arith) {i = 2} (omega arith) in
    let z : t / 256 ^ suc (suc k) ≡ 0 = div-eq_of_lt (omega (arith, fits)) in
    scan_skip (suc (suc k)) t z ∙ scan_two k t h

short-value : (e q : ℕ) → e < 3 → q < 2 ^ 16 → bits_to_target (compact e q) ≡ q / 2 ^ (8 * (3 - e))
unfolding compact bits_to_target
short-value e q he hq =
    let sign : nat_beq (q / 2 ^ 23 % 2) 1 ≡ false = ground arith in
    let c : q % 2 ^ 23 ≡ q = omega arith in
    let x : (e * 2 ^ 24 + q) / 2 ^ 24 % 256 ≡ e = omega arith in
    let y : (e * 2 ^ 24 + q) % 2 ^ 23 ≡ q = omega arith in
    let z : leb e 3 ≡ true = ground arith in rw (sign, c, x, y, z)

two_bytes : (t : ℕ) → 0 < t → t < 2 ^ 16 → bits_to_target (scan 2 (to_bytes 2 t)) < t
unfolding scan to_bytes from_bytes
two_bytes t low high = elim (Bool-cases (nat_beq (t / 256 % 256) 0)) [
  | inl short ↦
      let u : t / 1 % 256 ≡ t = ground arith in
      let v : 0 + t ≡ t = omega arith in
      rw (short, u, nonzero t low, v, short-value 1 t (omega arith) high) (omega arith)
  | inr long ↦
      let u : (0 + t / 256 % 256) * 256 + t / 1 % 256 ≡ t = ground arith in
      rw (long, u, short-value 2 t (omega arith) high) (omega arith)
]

-- A target between 1 and 2 ^ 16 - 1 comes back too small: its coefficient is not moved up on
-- encoding but is moved down on decoding.
pub small_target_lost : (t : ℕ) → 0 < t → t < 2 ^ 16 → bits_to_target (target_to_bits t) < t
unfolding target_to_bits
small_target_lost t low high = rw (nonzero t low, scan_two 30 t high) (two_bytes t low high)

zero_kept : bits_to_target (target_to_bits 0) ≤ 0
unfolding bits_to_target target_to_bits
zero_kept = omega arith

-- Encoding a target that fits in 256 bits never makes it easier.
pub decode_le : (t : ℕ) → t < 2 ^ 256 → bits_to_target (target_to_bits t) ≤ t
decode_le zero h = zero_kept
decode_le (suc t) h = elim (Bool-cases (leb (2 ^ 16) (suc t))) [
  | inl large ↦ (compact_error (suc t) h (ground arith)).0
  | inr small ↦ omega (arith, small_target_lost (suc t) (omega arith) (ground arith))
]
