-- ===== src/Params/Supply.antt =====
-- The emission schedule of `block_subsidy` (coin_params.py): halving, and the cap on the supply.
use native.Mathlib.Nat.{div-div-eq-div-mul, pow-suc}
use arche_blockchain.Prelude.{
  ℕ, zero, suc, ◌+◌, ◌-◌, ◌*◌, ◌/◌, ◌%◌, ◌^◌, ◌≤◌, ◌<◌, ◌≡◌, sym, ◌∙◌, ap, inl, inr, arith,
  Bool-cases, ltb,
}
use arche_blockchain.Params.{initial_subsidy, halving_interval, max_supply, block_subsidy}

-- The coins that the first `n` blocks may create in subsidies.
pub issued : ℕ → ℕ
issued zero = 0
issued (suc n) = issued n + block_subsidy n

-- The subsidy of the era after `k` halvings.
era : ℕ → ℕ
era k = initial_subsidy / 2 ^ k

era_half : (k : ℕ) → era (suc k) * 2 ≤ era k
unfolding era
era_half k =
    let e : initial_subsidy / 2 ^ suc k ≡ initial_subsidy / 2 ^ k / 2 =
      ap (λ (d : ℕ). initial_subsidy / d) (pow-suc 2 k)
      ∙ sym (div-div-eq-div-mul initial_subsidy (2 ^ k) 2) in
    omega (arith, e)

subsidy-le-era : (h : ℕ) → block_subsidy h ≤ era (h / halving_interval)
unfolding block_subsidy era
subsidy-le-era h = ground arith

-- What is left to issue in era `q` after `r` of its blocks, and in all later eras, at most.
left : ℕ → ℕ → ℕ
left q r = (halving_interval - r) * era q + halving_interval * era q

left_in_era : (q r : ℕ) → r < halving_interval → era q + left q (suc r) ≤ left q r
unfolding left
left_in_era q r h =
    let room : ℕ = halving_interval - suc r in
    let e : halving_interval - r ≡ suc room = omega arith in rw e (omega arith)

left_next_era : (q r : ℕ) → suc r ≡ halving_interval → era q + left (suc q) 0 ≤ left q r
unfolding left
left_next_era q r h =
    let e : halving_interval - r ≡ 1 = omega arith in rw e (omega (arith, era_half q))

left_step :
    (h : ℕ)
    → block_subsidy h + left (suc h / halving_interval) (suc h % halving_interval)
      ≤ left (h / halving_interval) (h % halving_interval)
left_step h = elim (Bool-cases (ltb (suc (h % halving_interval)) halving_interval)) [
  | inl inside ↦
      let q : suc h / halving_interval ≡ h / halving_interval = ground arith in
      let r : suc h % halving_interval ≡ suc (h % halving_interval) = ground arith in
      rw (q, r)
        (omega (
          arith,
          subsidy-le-era h,
          left_in_era (h / halving_interval) (h % halving_interval) (omega arith),
        ))
  | inr last ↦
      let q : suc h / halving_interval ≡ suc (h / halving_interval) = ground arith in
      let r : suc h % halving_interval ≡ 0 = ground arith in
      rw (q, r)
        (omega (
          arith,
          subsidy-le-era h,
          left_next_era (h / halving_interval) (h % halving_interval) (ground arith),
        ))
]

issued-left : (n : ℕ) → issued n + left (n / halving_interval) (n % halving_interval) ≤ max_supply
unfolding issued left era
issued-left zero = omega arith
issued-left (suc n) = unfold issued in omega (arith, left_step n, issued-left n)

-- However many blocks are mined, the subsidies together never pass MAX_SUPPLY.
pub issued-le-max_supply : (n : ℕ) → issued n ≤ max_supply
issued-le-max_supply n = omega (arith, issued-left n)

-- One halving interval later the subsidy is at most half of what it was.
pub subsidy_halves : (h : ℕ) → block_subsidy (h + halving_interval) * 2 ≤ block_subsidy h
unfolding block_subsidy era
subsidy_halves h =
    let k : ℕ = h / halving_interval in
    let q : (h + halving_interval) / halving_interval ≡ suc k = omega arith in
    rw q (ground (arith, era_half k))
