-- ===== src/Agent.antt =====
-- agents/registry.py: agents, their store and the operations of the registry. The time is an
-- argument, the fresh agent id too.
mod Unique
mod Examples
use arche_blockchain.Prelude.{
  ℕ, suc, Bool, true, false, not, ◌&&◌, Option, none, some, List, [], ◌∷◌, length, Text, ◌==◌,
  if◌then◌else◌, nat_eq, text_eq,
}
use arche_blockchain.Int.{ℤ, pos, ◌+ℤ◌}
use arche_blockchain.Dict.{Dict}
use arche_blockchain.Manager.{Outcome, refuse, raise_if, save, with_entry}

pub data AgentStatus : Type 0 where
  active : AgentStatus
  inactive : AgentStatus
  banned : AgentStatus

pub record AgentCapability : Type 0 where
  can_request_jobs : Bool
  can_execute_jobs : Bool
  can_verify_jobs : Bool
  supported_tasks : List Text
  max_concurrent_requests : ℤ

pub record AgentMemoryRef : Type 0 where
  memory_hash : Text
  timestamp : ℤ
  version : ℕ
  storage_ref : Text

pub record AiAgent : Type 0 where
  agent_id : Text
  name : Text
  owner : Text
  public_key : Text
  address : Text
  capabilities : AgentCapability
  status : AgentStatus
  registered_at : ℤ
  last_active : ℤ
  total_jobs_requested : ℕ
  total_jobs_completed : ℕ
  total_spent : ℤ
  total_earned : ℤ
  memory_ref : Option AgentMemoryRef
  tags : List Text

abbrev pub AgentStore : Type 0
AgentStore = Dict Text AiAgent

-- `get_by_address(address)`, tested as `if existing`
unfoldable pub has_address : Text → AgentStore → Bool
has_address address [] = false
has_address address ((k, a) ∷ store) =
    let rest = has_address address store in if a.address == address then true else rest

-- `capabilities or AgentCapability()`
unfoldable pub default_capability : AgentCapability
default_capability = record {
  can_request_jobs = true;
  can_execute_jobs = false;
  can_verify_jobs = false;
  supported_tasks = [];
  max_concurrent_requests = pos 1;
}

unfoldable pub register :
    ℤ
    → Text
    → Text
    → Text
    → Text
    → Text
    → Option AgentCapability
    → List Text
    → AgentStore
    → Outcome AiAgent
register now fresh owner name public_key address capabilities tags store =
    raise_if (has_address address store) store (
      save fresh
        record {
          agent_id = fresh;
          name = name;
          owner = owner;
          public_key = public_key;
          address = address;
          capabilities = elim capabilities [ none ↦ default_capability | some c ↦ c ];
          status = active;
          registered_at = now;
          last_active = now;
          total_jobs_requested = 0;
          total_jobs_completed = 0;
          total_spent = pos 0;
          total_earned = pos 0;
          memory_ref = none;
          tags = tags;
        }
        store)

-- `not h or len(h) != 64`, negated
unfoldable pub is_memory_hash : Text → Bool
is_memory_hash h = length h == 64

unfoldable pub next_version : Option AgentMemoryRef → ℕ
next_version none = 1
next_version (some m) = suc m.version

unfoldable pub update_memory : ℤ → Text → Text → Text → Text → AgentStore → Outcome AiAgent
update_memory now agent_id owner memory_hash storage_ref store = with_entry agent_id store λ a.
    raise_if (not (a.owner == owner)) store (
      raise_if (not (is_memory_hash memory_hash)) store (
        save a.agent_id
          record a {
            memory_ref = some record {
              memory_hash = memory_hash;
              timestamp = now;
              version = next_version a.memory_ref;
              storage_ref = storage_ref;
            };
            last_active = now;
          }
          store))

unfoldable pub record_job_request : ℤ → Text → ℤ → AgentStore → Outcome AiAgent
record_job_request now agent_id spent store = with_entry agent_id store λ a.
    save a.agent_id
      record a {
        total_jobs_requested = suc a.total_jobs_requested;
        total_spent = a.total_spent +ℤ spent;
        last_active = now;
      }
      store

unfoldable pub record_job_completed : ℤ → Text → ℤ → AgentStore → Outcome AiAgent
record_job_completed now agent_id earned store = with_entry agent_id store λ a.
    save a.agent_id
      record a {
        total_jobs_completed = suc a.total_jobs_completed;
        total_earned = a.total_earned +ℤ earned;
        last_active = now;
      }
      store

unfoldable pub deactivate : Text → Text → AgentStore → Outcome AiAgent
deactivate agent_id owner store = with_entry agent_id store λ a.
    raise_if (not (a.owner == owner)) store (save a.agent_id record a { status = inactive } store)
