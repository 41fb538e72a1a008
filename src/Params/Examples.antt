-- ===== src/Params/Examples.antt =====
-- The supply at a concrete height.
use arche_blockchain.Prelude.{◌≤◌}
use arche_blockchain.Params.{max_supply}
use arche_blockchain.Params.Supply.{issued, issued-le-max_supply}

issued-le-max_supply_example : issued 250000 ≤ max_supply
issued-le-max_supply_example = issued-le-max_supply 250000
