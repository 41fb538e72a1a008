-- ===== src/Agent/Examples.antt =====
-- The agent registry at a store with one agent.
use arche_blockchain.Prelude.{none, [], codes, text_eq, arith}
use arche_blockchain.Int.{pos}
use arche_blockchain.Dict.{get}
use arche_blockchain.Agent.Unique.{
  AgentCall, register_agent, request, run_agent, IsUnique, run_agent-IsUnique,
}

abbrev first_call : AgentCall
first_call =
    register_agent (pos 1000) (codes "g1") (codes "o") (codes "bot") (codes "pk") (codes "addr")
      none []

no_agents-IsUnique : IsUnique []
unfolding get
no_agents-IsUnique = record {
  own_id = λ k a h. ground arith;
  one_each = λ j k a b hj hk e. ground arith;
}

one_agent-IsUnique : IsUnique (run_agent first_call [])
one_agent-IsUnique = run_agent-IsUnique [] no_agents-IsUnique first_call

run_agent-IsUnique_example :
    IsUnique (run_agent (request (pos 1100) (codes "g1") (pos 5)) (run_agent first_call []))
run_agent-IsUnique_example =
    run_agent-IsUnique (run_agent first_call []) one_agent-IsUnique
      (request (pos 1100) (codes "g1") (pos 5))
