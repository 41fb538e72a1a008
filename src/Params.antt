-- ===== src/Params.antt =====
-- The coin parameters (coin_params.py): the constants and the block subsidy.
pub mod Supply
mod Examples
use arche_blockchain.Prelude.{ℕ, ◌-◌, ◌*◌, ◌/◌, ◌^◌, leb, if◌then◌else◌}

abbrev pub coin : ℕ
coin = 100_000_000

abbrev pub target_block_time : ℕ
target_block_time = 120

abbrev pub retarget_interval : ℕ
retarget_interval = 2016

abbrev pub min_retarget_timespan : ℕ
min_retarget_timespan = target_block_time * retarget_interval / 4

abbrev pub max_retarget_timespan : ℕ
max_retarget_timespan = target_block_time * retarget_interval * 4

abbrev pub max_target : ℕ
max_target = 2 ^ 256 - 1

abbrev pub initial_subsidy : ℕ
initial_subsidy = 50 * coin

abbrev pub halving_interval : ℕ
halving_interval = 500_000

abbrev pub max_supply : ℕ
max_supply = 50_000_000 * coin

-- `INITIAL_SUBSIDY >> halvings` is written as a division by a power of two.
unfoldable pub block_subsidy : ℕ → ℕ
block_subsidy height =
    let halvings = height / halving_interval in
    if leb 64 halvings then 0 else initial_subsidy / 2 ^ halvings

abbrev pub coinbase_maturity : ℕ
coinbase_maturity = 100

abbrev pub max_block_size : ℕ
max_block_size = 1_000_000

abbrev pub max_tx_inputs : ℕ
max_tx_inputs = 1_000

abbrev pub max_tx_outputs : ℕ
max_tx_outputs = 1_000

abbrev pub max_mempool_size : ℕ
max_mempool_size = 5_000

abbrev pub max_future_seconds : ℕ
max_future_seconds = 7200
