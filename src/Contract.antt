-- ===== src/Contract.antt =====
-- ai/contracts.py: conditions, contracts, their store and the contract engine. The time is an
-- argument, the fresh ids too. The numbers in a result or a condition are integers of at most 4300
-- digits; Python's float, to which the conditions convert them, is an argument.
pub mod Engine
mod Evaluate
mod Examples
use arche_blockchain.Prelude.{
  ℕ, suc, Bool, true, false, not, ◌&&◌, ◌||◌, Option, none, some, List, [], ◌∷◌, ◌++◌, map, length,
  Text, codes, ltb, leb, ◌==◌, if◌then◌else◌, nat_beq, nat_eq, text_eq,
}
use arche_blockchain.Int.{ℤ, pos, ltb_ℤ, leb_ℤ, int_beq}
use arche_blockchain.Encoding.{str_ℤ}
use arche_blockchain.Dict
use arche_blockchain.Dict.{Dict, values}
use arche_blockchain.Manager.{Outcome, refuse, raise_if, save, with_entry}

pub data ContractStatus : Type 0 where
  active : ContractStatus
  evaluating : ContractStatus
  waiting_ai : ContractStatus
  executing : ContractStatus
  completed : ContractStatus
  failed : ContractStatus
  expired : ContractStatus
  paused : ContractStatus

pub data ActionType : Type 0 where
  transfer_arc : ActionType
  release_escrow : ActionType
  refund_escrow : ActionType
  emit_event : ActionType
  trigger_job : ActionType

-- A JSON value of a result, a condition or a parameter.
pub data Value : Type 0 where
  null : Value
  number : ℤ → Value
  text : Text → Value

pub data Operator : Type 0 where
  eq : Operator
  gt : Operator
  lt : Operator
  gte : Operator
  lte : Operator
  in_text : Operator
  not_null : Operator
  unknown : Operator

pub record ContractCondition : Type 0 where
  field : Text
  operator : Operator
  value : Value

pub record ContractAction : Type 0 where
  action_type : ActionType
  params : Dict Text Value

pub record AiContract : Type 0 where
  contract_id : Text
  name : Text
  owner : Text
  model_id : Text
  trigger_description : Text
  conditions : List ContractCondition
  on_success : List ContractAction
  on_failure : List ContractAction
  verification_level : ℤ
  max_executions : ℤ
  execution_count : ℕ
  created_at : ℤ
  expires_at : Option ℤ
  status : ContractStatus
  last_triggered_at : Option ℤ
  last_job_id : Option Text
  last_result : Option (Dict Text Value)
  last_executed_at : Option ℤ
  error_message : Option Text

abbrev pub ContractStore : Type 0
ContractStore = Dict Text AiContract

-- `==` between two values; `null` is not equal to a missing one, which is tested before.
unfoldable pub value_beq : Value → Value → Bool
value_beq null null = true
value_beq (number m) (number n) = int_beq m n
value_beq (text s) (text t) = s == t
value_beq _ _ = false

-- What `float` makes of a value: a float, a TypeError or ValueError, or an OverflowError.
pub data Converted (W : Type 0) : Type 0 where
  float_value : W → Converted W
  rejected : Converted W
  overflowed : Converted W

-- Python's float: the conversion of integers and of texts, and the comparisons. An integer that is
-- too large overflows, a text that is no number is rejected.
pub record Conversion (W : Type 0) : Type 0 where
  pub of_number : ℤ → Option W
  pub of_text : Text → Option W
  pub less : W → W → Bool
  pub less_eq : W → W → Bool

module _ {W : Type 0} where
  -- `float(v)`
  unfoldable pub to_float : Conversion W → Value → Converted W
  to_float float null = rejected
  to_float float (number n) = elim (float.of_number n) [
    | none ↦ overflowed
    | some x ↦ float_value x
  ]
  to_float float (text t) = elim (float.of_text t) [ none ↦ rejected | some x ↦ float_value x ]

  -- A comparison of two floats, of which the left one is converted first: False where a conversion
  -- is rejected, `none` where it overflows, which is not caught.
  unfoldable pub compare_floats : (W → W → Bool) → Converted W → Converted W → Option Bool
  compare_floats test rejected w = some false
  compare_floats test overflowed w = none
  compare_floats test (float_value a) rejected = some false
  compare_floats test (float_value a) overflowed = none
  compare_floats test (float_value a) (float_value b) = some (test a b)

unfoldable pub to_str : Value → Text
to_str null = codes "None"
to_str (number n) = str_ℤ n
to_str (text t) = t

unfoldable pub starts_with : Text → Text → Bool
starts_with [] s = true
starts_with (x ∷ xs) [] = false
starts_with (x ∷ xs) (y ∷ ys) = nat_beq x y && starts_with xs ys

-- `needle in s`
unfoldable pub occurs : Text → Text → Bool
occurs needle [] = starts_with needle []
occurs needle (x ∷ xs) = starts_with needle (x ∷ xs) || occurs needle xs

module _ {W : Type 0} where
  -- The operators on a value that is not None.
  unfoldable pub apply_operator : Conversion W → Operator → Value → Value → Option Bool
  apply_operator float eq v w = some (value_beq v w)
  apply_operator float gt v w =
      compare_floats (λ a b. float.less b a) (to_float float v) (to_float float w)
  apply_operator float lt v w = compare_floats float.less (to_float float v) (to_float float w)
  apply_operator float gte v w =
      compare_floats (λ a b. float.less_eq b a) (to_float float v) (to_float float w)
  apply_operator float lte v w = compare_floats float.less_eq (to_float float v) (to_float float w)
  apply_operator float in_text v w = some (occurs (to_str w) (to_str v))
  apply_operator float not_null v w = some true
  apply_operator float unknown v w = some false

  -- `ContractCondition.evaluate`: a missing field and None fail every operator. An OverflowError is
  -- `none`.
  unfoldable pub evaluate_condition :
      Conversion W → Dict Text Value → ContractCondition → Option Bool
  evaluate_condition float ai_result c = elim (Dict.get c.field ai_result) [
    | none ↦ some false
    | some v ↦ elim v [
      | null ↦ some false
      | number n ↦ apply_operator float c.operator (number n) c.value
      | text t ↦ apply_operator float c.operator (text t) c.value
    ]
  ]

  -- `all(...)`, which stops at the first condition that is False.
  unfoldable pub all_hold : Conversion W → Dict Text Value → List ContractCondition → Option Bool
  all_hold float ai_result [] = some true
  all_hold float ai_result (c ∷ cs) =
      let rest = all_hold float ai_result cs in
      elim (evaluate_condition float ai_result c) [
        | none ↦ none
        | some holds ↦ if holds then rest else some false
      ]

  unfoldable pub evaluate_conditions : Conversion W → AiContract → Dict Text Value → Option Bool
  evaluate_conditions float c ai_result = all_hold float ai_result c.conditions

unfoldable pub has_expired : ℤ → AiContract → Bool
has_expired now c = elim c.expires_at [ none ↦ false | some t ↦ ltb_ℤ t now ]

unfoldable pub is_active : ContractStatus → Bool
is_active active = true
is_active _ = false

unfoldable pub is_paused : ContractStatus → Bool
is_paused paused = true
is_paused _ = false

-- `status in (ACTIVE, EVALUATING)`
unfoldable pub is_ready : ContractStatus → Bool
is_ready active = true
is_ready evaluating = true
is_ready _ = false

-- `max_executions > 0 and count >= max_executions`
unfoldable pub is_used_up : ℤ → ℕ → Bool
is_used_up most count = ltb_ℤ (pos 0) most && leb_ℤ most (pos count)

unfoldable pub can_execute : ℤ → AiContract → Bool
can_execute now c =
    is_ready c.status
    && (not (has_expired now c) && not (is_used_up c.max_executions c.execution_count))

-- What an action yields: an event, or an instruction for the node or the wallet.
pub data Instruction : Type 0 where
  emitted : Value → Dict Text Value → ℤ → Instruction
  transfer : Text → Option Value → Option Value → Instruction
  release : Option Value → Instruction
  refund : Option Value → Instruction
  start_model : Option Value → Instruction

pub record Executed : Type 0 where
  action : ContractAction
  result : Instruction

-- `_execute_action`
unfoldable pub execute_action : ℤ → AiContract → ContractAction → Executed
execute_action now c a = record {
  action = a;
  result = elim a.action_type [
    | transfer_arc ↦
        transfer c.owner (Dict.get (codes "to") a.params) (Dict.get (codes "amount") a.params)
    | release_escrow ↦ release (Dict.get (codes "job_id") a.params)
    | refund_escrow ↦ refund (Dict.get (codes "job_id") a.params)
    | emit_event ↦
        emitted
          (elim (Dict.get (codes "event_name") a.params) [
            | none ↦ text (codes "contract_event")
            | some v ↦ v
          ])
          a.params now
    | trigger_job ↦ start_model (Dict.get (codes "model_id") a.params)
  ];
}

pub record ExecutionResult : Type 0 where
  execution_id : Text
  contract_id : Text
  job_id : Option Text
  conditions_met : Bool
  actions_executed : List Executed
  executed_at : ℤ
  error : Option Text
