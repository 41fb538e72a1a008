-- ===== src/Contract/Examples.antt =====
-- The contract engine at a store with one price oracle.
use arche_blockchain.Prelude.{
  ◌≡◌, refl, true, false, none, some, Option, [], ◌∷◌, map, Text, codes, if◌then◌else◌, text_beq,
  text_eq,
}
use arche_blockchain.Int.{ℤ, pos, leb_ℤ, ltb_ℤ}
use arche_blockchain.Dict
use arche_blockchain.Dict.{Dict, get}
use arche_blockchain.Manager.{raise_if, save, with_entry}
use arche_blockchain.Contract.{
  Value, number, AiContract, ContractStore, Conversion, active, waiting_ai, all_hold,
  evaluate_condition, apply_operator, compare_floats, to_float, gt, emit_event, transfer_arc,
  evaluate_conditions, execute_action, is_used_up, is_ready, has_expired, can_execute,
  ExecutionResult,
}
use arche_blockchain.Contract.Engine.{refused_contract, executed_contract, evaluate, trigger}
use arche_blockchain.Contract.Evaluate.{unverified_refused, evaluate_overruns, triggered_within}

-- Floats that hold the integers up to 1000, and no text.
abbrev small : Conversion ℤ
small = record {
  of_number = λ n. if leb_ℤ n (pos 1000) then some n else none;
  of_text = λ t. none;
  less = ltb_ℤ;
  less_eq = leb_ℤ;
}

abbrev oracle : AiContract
oracle = record {
  contract_id = codes "c1";
  name = codes "oracle";
  owner = codes "o";
  model_id = codes "m";
  trigger_description = codes "daily";
  conditions = record { field = codes "score"; operator = gt; value = number (pos 80) } ∷ [];
  on_success =
      record { action_type = transfer_arc; params = (codes "amount", number (pos 5)) ∷ [] } ∷ [];
  on_failure = record { action_type = emit_event; params = [] } ∷ [];
  verification_level = pos 2;
  max_executions = pos 1;
  execution_count = 0;
  created_at = pos 1000;
  expires_at = none;
  status = active;
  last_triggered_at = none;
  last_job_id = none;
  last_result = none;
  last_executed_at = none;
  error_message = none;
}

abbrev used_oracle : AiContract
used_oracle = record oracle { execution_count = 1 }

abbrev high_score : Dict Text Value
high_score = (codes "score", number (pos 90)) ∷ []

abbrev oracles : ContractStore
oracles = (codes "c1", oracle) ∷ []

abbrev used_oracles : ContractStore
used_oracles = (codes "c1", used_oracle) ∷ []

abbrev unverified : ContractStore × Option ExecutionResult
unverified = evaluate small (pos 2000) (codes "x1") (codes "c1") high_score false oracles

unverified_refused_example :
    (r : ExecutionResult) × (unverified.1 ≡ some r)
    × (r.conditions_met ≡ false)
    × (r.actions_executed ≡ [])
    × (Dict.get (codes "c1") unverified.0 ≡ some (refused_contract oracle))
    × (trigger (pos 3000) (codes "c1") (codes "j2") unverified.0 ≡ (unverified.0, none))
unfolding get text_beq
unverified_refused_example =
    unverified_refused small (pos 2000) (codes "x1") (codes "c1") high_score oracles oracle
      (pos 3000) (codes "j2") refl refl

abbrev overrun : ContractStore × Option ExecutionResult
overrun = evaluate small (pos 2000) (codes "x1") (codes "c1") high_score true used_oracles

evaluate_overruns_example :
    (r : ExecutionResult) × (overrun.1 ≡ some r)
    × (r.actions_executed ≡ map (execute_action (pos 2000) used_oracle) used_oracle.on_success)
    × (Dict.get (codes "c1") overrun.0 ≡ some (executed_contract (pos 2000) high_score used_oracle))
    × (ltb_ℤ used_oracle.max_executions
          (pos (executed_contract (pos 2000) high_score used_oracle).execution_count)
        ≡ true)
unfolding get text_beq is_used_up evaluate_conditions all_hold evaluate_condition apply_operator
    compare_floats to_float
evaluate_overruns_example =
    evaluate_overruns small (pos 2000) (codes "x1") (codes "c1") high_score used_oracles used_oracle
      true refl refl refl refl

-- A number that is too large for a float raises, and nothing is stored.
overflow_raises :
    evaluate small
      (pos 2000)
      (codes "x1")
      (codes "c1")
      ((codes "score", number (pos 5000)) ∷ [])
      true
      oracles
    ≡ (oracles, none)
unfolding evaluate get text_beq evaluate_conditions all_hold evaluate_condition apply_operator
    compare_floats to_float
overflow_raises = refl

triggered_within_example :
    (c' : AiContract) × (Dict.get
        (codes "c1")
        (evaluate small
          (pos 2000)
          (codes "x1")
          (codes "c1")
          high_score
          true
          (trigger (pos 1900) (codes "c1") (codes "j1") oracles).0).0
      ≡ some c')
    × (leb_ℤ (pos c'.execution_count) c'.max_executions ≡ true)
unfolding get text_beq is_used_up is_ready has_expired can_execute trigger with_entry raise_if save
triggered_within_example =
    triggered_within small (pos 1900) (pos 2000) (codes "x1") (codes "c1") (codes "j1") high_score
      true oracles oracle
      record oracle {
        status = waiting_ai;
        last_triggered_at = some (pos 1900);
        last_job_id = some (codes "j1");
      }
      refl refl refl refl
