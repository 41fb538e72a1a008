-- ===== src/Contract/Evaluate.antt =====
-- What `evaluate` of ai/contracts.py executes and stores, for verified and unverified results, and
-- what `trigger` lets through.
use arche_blockchain.Prelude.{
  ◌≡◌, refl, Bool, true, false, none, some, [], map, Text, arith, Bool-cases, Option-cases, inl,
  inr, if◌then◌else◌, text_eq,
}
use arche_blockchain.Int.{ℤ, pos, leb_ℤ, ltb_ℤ}
use arche_blockchain.Dict
use arche_blockchain.Dict.{Dict}
use arche_blockchain.Dict.Entries.{get-put_same}
use arche_blockchain.Manager.{refuse, raise_if, save, with_entry}
use arche_blockchain.Contract.{
  Value, AiContract, ContractStore, Conversion, evaluate_conditions, is_used_up, is_ready,
  can_execute, execute_action, ExecutionResult, waiting_ai,
}
use arche_blockchain.Contract.Engine.{
  refused_contract, executed_contract, evaluate_verified, evaluate_unverified, evaluate, trigger,
}

abbrev triggered : ℤ → Text → AiContract → AiContract
triggered now job c = record c {
  status = waiting_ai;
  last_triggered_at = some now;
  last_job_id = some job;
}

trigger_accepted :
    (now : ℤ) (id job : Text) (store : ContractStore) (c : AiContract)
    → Dict.get id store ≡ some c
    → can_execute now c ≡ true
    → trigger now id job store ≡ save c.contract_id (triggered now job c) store
unfolding trigger with_entry raise_if
trigger_accepted now id job store c found able =
    rw (trigger, with_entry, found, raise_if, able) refl

trigger_refused :
    (now : ℤ) (id job : Text) (store : ContractStore) (c : AiContract)
    → Dict.get id store ≡ some c
    → can_execute now c ≡ false
    → trigger now id job store ≡ (store, none)
unfolding trigger with_entry raise_if refuse
trigger_refused now id job store c found unable =
    rw (trigger, with_entry, found, raise_if, unable) refl

refused-unable : (now : ℤ) (c : AiContract) → can_execute now (refused_contract c) ≡ false
unfolding can_execute is_ready refused_contract
refused-unable now c = refl

module _ {W : Type 0} (float : Conversion W) (now : ℤ) (fresh id : Text)
    (ai_result : Dict Text Value) (store : ContractStore) (c : AiContract) where
  evaluate-refuses :
      Dict.get id store ≡ some c
      → c.contract_id ≡ id
      → Dict.get id (evaluate float now fresh id ai_result false store).0
        ≡ some (refused_contract c)
  unfolding evaluate evaluate_unverified
  evaluate-refuses found own =
      rw (evaluate, found) (get-put_same id c.contract_id (refused_contract c) store own)

  -- A result that is not verified executes no action, whatever the conditions say: the call returns
  -- an execution without actions and with conditions not met, and stores the contract as it was but
  -- for its status and message. A trigger that comes next, at any time and for any job, is refused
  -- and changes nothing. The contract is found under the id, which is its own.
  pub unverified_refused :
      (later : ℤ) (job : Text)
      → Dict.get id store ≡ some c
      → c.contract_id ≡ id
      → (r : ExecutionResult) × ((evaluate float now fresh id ai_result false store).1 ≡ some r)
        × (r.conditions_met ≡ false)
        × (r.actions_executed ≡ [])
        × (Dict.get id (evaluate float now fresh id ai_result false store).0
            ≡ some (refused_contract c))
        × (trigger later id job (evaluate float now fresh id ai_result false store).0
            ≡ ((evaluate float now fresh id ai_result false store).0, none))
  unfolding evaluate evaluate_unverified
  unverified_refused later job found own =
      let kept = evaluate-refuses found own in
      let next =
        trigger_refused later id job (evaluate float now fresh id ai_result false store).0
          (refused_contract c) kept (refused-unable later c) in
      let ran : (evaluate float now fresh id ai_result false store).1
          ≡ some (evaluate_unverified now fresh id c store).1 =
        rw (evaluate, found) refl in
      ((evaluate_unverified now fresh id c store).1, ran, refl, refl, kept, next)

  evaluate-executes :
      (met : Bool)
      → Dict.get id store ≡ some c
      → evaluate_conditions float c ai_result ≡ some met
      → evaluate float now fresh id ai_result true store ≡ (
        (evaluate_verified now fresh id ai_result c met store).0,
        some (evaluate_verified now fresh id ai_result c met store).1,
      )
  unfolding evaluate
  evaluate-executes met found judged = rw (evaluate, found) (rw judged refl)

  evaluate-raises :
      Dict.get id store ≡ some c
      → evaluate_conditions float c ai_result ≡ none
      → evaluate float now fresh id ai_result true store ≡ (store, none)
  unfolding evaluate
  evaluate-raises found raised = rw (evaluate, found) (rw raised refl)

  -- A verified result executes even where the contract has reached its maximum of executions: where
  -- no condition raises, the call checks neither the status nor the count, runs the actions that the
  -- conditions choose, and stores a count above the maximum. The contract is found under the id,
  -- which is its own.
  pub evaluate_overruns :
      (met : Bool)
      → Dict.get id store ≡ some c
      → c.contract_id ≡ id
      → is_used_up c.max_executions c.execution_count ≡ true
      → evaluate_conditions float c ai_result ≡ some met
      → (r : ExecutionResult) × ((evaluate float now fresh id ai_result true store).1 ≡ some r)
        × (r.actions_executed
            ≡ map (execute_action now c) (if met then c.on_success else c.on_failure))
        × (Dict.get id (evaluate float now fresh id ai_result true store).0
            ≡ some (executed_contract now ai_result c))
        × (ltb_ℤ c.max_executions (pos (executed_contract now ai_result c).execution_count) ≡ true)
  unfolding evaluate_verified executed_contract is_used_up
  evaluate_overruns met found own full judged = rw (evaluate-executes met found judged) (
    _,
    refl,
    refl,
    get-put_same id c.contract_id (executed_contract now ai_result c) store own,
    ground (arith, full),
  )

-- The contract is stored with at most as many executions as it may have.
abbrev IsWithin : Text → ContractStore → Type 0
IsWithin id store =
    (c : AiContract) × (Dict.get id store ≡ some c)
    × (leb_ℤ (pos c.execution_count) c.max_executions ≡ true)

can_execute-within :
    (now : ℤ) (c : AiContract)
    → can_execute now c ≡ true
    → ltb_ℤ (pos 0) c.max_executions ≡ true
    → ltb_ℤ (pos c.execution_count) c.max_executions ≡ true
unfolding can_execute is_used_up
can_execute-within now c able limited = ground (arith, able, limited)

evaluate-IsWithin :
    {W : Type 0} (float : Conversion W) (now : ℤ) (fresh id : Text) (ai_result : Dict Text Value)
    (verified : Bool) (store : ContractStore) (c : AiContract)
    → Dict.get id store ≡ some c
    → c.contract_id ≡ id
    → ltb_ℤ (pos c.execution_count) c.max_executions ≡ true
    → IsWithin id (evaluate float now fresh id ai_result verified store).0
unfolding refused_contract executed_contract evaluate_verified
evaluate-IsWithin float now fresh id ai_result false store c found own below = (
  refused_contract c,
  evaluate-refuses float now fresh id ai_result store c found own,
  ground (arith, below),
)
evaluate-IsWithin float now fresh id ai_result true store c found own below =
    elim (Option-cases (evaluate_conditions float c ai_result)) [
      | inl raised ↦
          rw (evaluate-raises float now fresh id ai_result store c found raised)
            (c, found, ground (arith, below))
      | inr (met, judged) ↦
          rw (evaluate-executes float now fresh id ai_result store c met found judged) (
            executed_contract now ai_result c,
            get-put_same id c.contract_id (executed_contract now ai_result c) store own,
            ground (arith, below),
          )
    ]

-- A contract with a limit that is triggered before it is evaluated stays within its limit: where the
-- trigger is accepted, the contract stored after the evaluation has at most max_executions
-- executions, whether the result is verified or not and whether a condition raises or not. The
-- contract is found under the id, which is its own.
pub triggered_within :
    {W : Type 0} (float : Conversion W) (now later : ℤ) (fresh id job : Text)
    (ai_result : Dict Text Value) (verified : Bool) (store : ContractStore)
    (c accepted : AiContract)
    → Dict.get id store ≡ some c
    → c.contract_id ≡ id
    → ltb_ℤ (pos 0) c.max_executions ≡ true
    → (trigger now id job store).1 ≡ some accepted
    → (c' : AiContract) × (Dict.get id
          (evaluate float later fresh id ai_result verified (trigger now id job store).0).0
        ≡ some c')
      × (leb_ℤ (pos c'.execution_count) c'.max_executions ≡ true)
unfolding save
triggered_within float now later fresh id job ai_result verified store c accepted found own limited
      done =
    elim (Bool-cases (can_execute now c)) [
      | inl able ↦
          let kept = get-put_same id c.contract_id (triggered now job c) store own in
          rw (trigger_accepted now id job store c found able) (
            evaluate-IsWithin float later fresh id ai_result verified _ (triggered now job c) kept
              own (can_execute-within now c able limited))
      | inr unable ↦
          let none_done : none ≡ some accepted =
            rw (trigger_refused now id job store c found unable) at done in
          ground (arith, none_done)
    ]
