-- ===== src/Contract/Engine.antt =====
-- The contract engine of ai/contracts.py: its operations on the store.
use arche_blockchain.Prelude.{
  suc, Bool, true, false, not, ◌&&◌, Option, none, some, List, [], ◌∷◌, map, Text, codes, ◌==◌,
  if◌then◌else◌, text_eq,
}
use arche_blockchain.Int.{ℤ, pos, leb_ℤ}
use arche_blockchain.Dict
use arche_blockchain.Dict.{Dict, values}
use arche_blockchain.Manager.{Outcome, raise_if, save, with_entry}
use arche_blockchain.Contract.{
  active, waiting_ai, completed, failed, expired, paused, Value, ContractCondition, ContractAction,
  AiContract, ContractStore, Conversion, evaluate_conditions, has_expired, is_active, is_paused,
  is_used_up, can_execute, execute_action, ExecutionResult,
}

unfoldable pub is_level : ℤ → Bool
is_level n = leb_ℤ (pos 1) n && leb_ℤ n (pos 4)

unfoldable pub is_nil {ℓ} : {A : Type ℓ} → List A → Bool
is_nil [] = true
is_nil (_ ∷ _) = false

unfoldable pub deploy :
    ℤ
    → Text
    → Text
    → Text
    → Text
    → Text
    → List ContractCondition
    → List ContractAction
    → List ContractAction
    → ℤ
    → ℤ
    → Option ℤ
    → ContractStore
    → Outcome AiContract
deploy now fresh owner name model_id trigger_description conditions on_success on_failure level most
      expires_at store =
    raise_if (is_nil conditions) store (
      raise_if (is_nil on_success) store (
        raise_if (not (is_level level)) store (
          save fresh
            record {
              contract_id = fresh;
              name = name;
              owner = owner;
              model_id = model_id;
              trigger_description = trigger_description;
              conditions = conditions;
              on_success = on_success;
              on_failure = on_failure;
              verification_level = level;
              max_executions = most;
              execution_count = 0;
              created_at = now;
              expires_at = expires_at;
              status = active;
              last_triggered_at = none;
              last_job_id = none;
              last_result = none;
              last_executed_at = none;
              error_message = none;
            }
            store)))

unfoldable pub trigger : ℤ → Text → Text → ContractStore → Outcome AiContract
trigger now contract_id job_id store = with_entry contract_id store λ c.
    raise_if (not (can_execute now c)) store (
      save c.contract_id
        record c { status = waiting_ai; last_triggered_at = some now; last_job_id = some job_id }
        store)

-- The contract after an evaluation that was not verified.
unfoldable pub refused_contract : AiContract → AiContract
refused_contract c = record c {
  status = failed;
  error_message = some (codes "AI result not verified — contract refused to execute");
}

-- The contract after a verified evaluation, which is first stored as EXECUTING and then as this. No
-- action of the five types raises, so the handler of exceptions is never entered.
unfoldable pub executed_contract : ℤ → Dict Text Value → AiContract → AiContract
executed_contract now ai_result c = record c {
  last_result = some ai_result;
  execution_count = suc c.execution_count;
  last_executed_at = some now;
  status = if is_used_up c.max_executions (suc c.execution_count) then completed else active;
}

-- The rest of a verified evaluation, once the conditions are evaluated.
unfoldable pub evaluate_verified :
    ℤ
    → Text
    → Text
    → Dict Text Value
    → AiContract
    → Bool
    → ContractStore
    → ContractStore × ExecutionResult
evaluate_verified now fresh contract_id ai_result c met store = (
  Dict.put c.contract_id (executed_contract now ai_result c) store,
  record {
    execution_id = fresh;
    contract_id = contract_id;
    job_id = c.last_job_id;
    conditions_met = met;
    actions_executed = map (execute_action now c) (if met then c.on_success else c.on_failure);
    executed_at = now;
    error = none;
  },
)

unfoldable pub evaluate_unverified :
    ℤ → Text → Text → AiContract → ContractStore → ContractStore × ExecutionResult
evaluate_unverified now fresh contract_id c store = (
  Dict.put c.contract_id (refused_contract c) store,
  record {
    execution_id = fresh;
    contract_id = contract_id;
    job_id = c.last_job_id;
    conditions_met = false;
    actions_executed = [];
    executed_at = now;
    error = some (codes "AI result not verified");
  },
)

-- `evaluate`: the store, and the execution unless it raised, which it does where a condition does:
-- the conditions are evaluated before anything is stored.
unfoldable pub evaluate :
    {W : Type 0}
    → Conversion W
    → ℤ
    → Text
    → Text
    → Dict Text Value
    → Bool
    → ContractStore
    → ContractStore × Option ExecutionResult
evaluate float now fresh contract_id ai_result verified store = elim (Dict.get contract_id store) [
  | none ↦ (store, none)
  | some c ↦ elim verified [
    | false ↦
        let refused = evaluate_unverified now fresh contract_id c store in
        (refused.0, some refused.1)
    | true ↦ elim (evaluate_conditions float c ai_result) [
      | none ↦ (store, none)
      | some met ↦
          let done = evaluate_verified now fresh contract_id ai_result c met store in
          (done.0, some done.1)
    ]
  ]
]

unfoldable pub pause : Text → Text → ContractStore → Outcome AiContract
pause contract_id owner store = with_entry contract_id store λ c.
    raise_if (not (c.owner == owner)) store (save c.contract_id record c { status = paused } store)

unfoldable pub resume : Text → Text → ContractStore → Outcome AiContract
resume contract_id owner store = with_entry contract_id store λ c.
    raise_if (not (c.owner == owner)) store (
      raise_if (not (is_paused c.status)) store
        (save c.contract_id record c { status = active } store))

-- The loop of `expire_contracts` over the contracts taken before it.
unfoldable pub expire_each : ℤ → List AiContract → ContractStore → ContractStore × List Text
expire_each now [] store = (store, [])
expire_each now (c ∷ cs) store =
    let late = is_active c.status && has_expired now c in
    let rest =
      expire_each now cs
        (if late then (save c.contract_id record c { status = expired } store).0 else store) in
    (rest.0, if late then c.contract_id ∷ rest.1 else rest.1)

unfoldable pub expire_contracts : ℤ → ContractStore → ContractStore × List Text
expire_contracts now store = expire_each now (values store) store
