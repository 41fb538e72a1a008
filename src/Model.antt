-- ===== src/Model.antt =====
-- ai/registry.py: AIModel, its store and the operations of ModelRegistry. The time and the fresh
-- model id are arguments; `metadata` is read by no code and is left out.
use arche_blockchain.Prelude.{
  ℕ, suc, Bool, true, false, not, ◌||◌, Option, none, some, List, [], ◌∷◌, any, length, Text, ◌==◌,
  if◌then◌else◌, nat_eq, text_eq,
}
use arche_blockchain.Int.{ℤ, pos, ltb_ℤ, leb_ℤ}
use arche_blockchain.Dict.{Dict, values}
use arche_blockchain.Job.{ComputeRequirement}
use arche_blockchain.Manager.{Outcome, raise_if, save, with_entry}

pub record AiModel : Type 0 where
  pub model_id : Text
  pub name : Text
  pub owner : Text
  pub model_hash : Text
  pub version : Text
  pub framework : Text
  pub architecture : Text
  pub task : Text
  pub requirements : ComputeRequirement
  pub storage_reference : Text
  pub price_per_call : ℤ
  pub registered_at : ℤ
  pub updated_at : ℤ
  pub is_active : Bool
  pub total_calls : ℕ
  pub tags : List Text

-- The stored `_models`, by id.
abbrev pub ModelStore : Type 0
ModelStore = Dict Text AiModel

unfoldable pub is_model_hash : Text → Bool
is_model_hash h = length h == 64

unfoldable pub register_model :
    ℤ
    → Text
    → Text
    → Text
    → Text
    → Text
    → Text
    → Text
    → Text
    → ComputeRequirement
    → Text
    → ℤ
    → List Text
    → ModelStore
    → Outcome AiModel
register_model now fresh owner name model_hash version framework architecture task requirements
      storage_reference price_per_call tags store =
    raise_if (not (is_model_hash model_hash)) store (
      raise_if (ltb_ℤ price_per_call (pos 0)) store (
        save fresh
          record {
            model_id = fresh;
            name = name;
            owner = owner;
            model_hash = model_hash;
            version = version;
            framework = framework;
            architecture = architecture;
            task = task;
            requirements = requirements;
            storage_reference = storage_reference;
            price_per_call = price_per_call;
            registered_at = now;
            updated_at = now;
            is_active = true;
            total_calls = 0;
            tags = tags;
          }
          store))

-- A keyword argument of `update`: one of the allowed fields, or another, which is passed over.
pub data Change : Type 0 where
  to_name : Text → Change
  to_version : Text → Change
  to_storage_reference : Text → Change
  to_price_per_call : ℤ → Change
  to_tags : List Text → Change
  to_is_active : Bool → Change
  to_requirements : ComputeRequirement → Change
  ignored : Text → Change

-- `setattr(model, k, v)`
unfoldable pub set_field : Change → AiModel → AiModel
set_field (to_name v) m = record m { name = v }
set_field (to_version v) m = record m { version = v }
set_field (to_storage_reference v) m = record m { storage_reference = v }
set_field (to_price_per_call v) m = record m { price_per_call = v }
set_field (to_tags v) m = record m { tags = v }
set_field (to_is_active v) m = record m { is_active = v }
set_field (to_requirements v) m = record m { requirements = v }
set_field (ignored k) m = m

unfoldable pub set_fields : List Change → AiModel → AiModel
set_fields [] m = m
set_fields (c ∷ cs) m = set_fields cs (set_field c m)

unfoldable pub update_model : ℤ → Text → Text → List Change → ModelStore → Outcome AiModel
update_model now model_id owner changes store = with_entry model_id store λ m.
    raise_if (not (m.owner == owner)) store (
      let changed = set_fields changes m in
      save changed.model_id record changed { updated_at = now } store)

unfoldable pub deactivate_model : ℤ → Text → Text → ModelStore → Outcome AiModel
deactivate_model now model_id owner store = with_entry model_id store λ m.
    raise_if (not (m.owner == owner)) store
      (save m.model_id record m { is_active = false; updated_at = now } store)

unfoldable pub increment_calls : ℤ → Text → ModelStore → Outcome AiModel
increment_calls now model_id store =
    with_entry model_id store
      λ m. save m.model_id record m { total_calls = suc m.total_calls; updated_at = now } store

-- The filters of `search`, each of which an absent or empty argument turns off.
unfoldable pub matches_text : Option Text → Text → Bool
matches_text none value = true
matches_text (some wanted) value = length wanted == 0 || value == wanted

unfoldable pub matches_tags : List Text → List Text → Bool
matches_tags [] tags = true
matches_tags (t ∷ ts) tags = any (λ wanted. any (λ tag. tag == wanted) tags) (t ∷ ts)

unfoldable pub matches_price : Option ℤ → ℤ → Bool
matches_price none price = true
matches_price (some max_price) price = leb_ℤ price max_price

unfoldable pub matches_gpu : Option Bool → Bool → Bool
matches_gpu none gpu = true
matches_gpu (some true) gpu = gpu
matches_gpu (some false) gpu = not gpu

unfoldable pub keep : (AiModel → Bool) → List AiModel → List AiModel
keep test [] = []
keep test (m ∷ ms) = let rest = keep test ms in if test m then m ∷ rest else rest

unfoldable pub search :
    Option Text → Option Text → List Text → Option ℤ → Option Bool → ModelStore → List AiModel
search task framework tags max_price gpu_required store =
    keep (λ m. matches_gpu gpu_required m.requirements.gpu)
      (keep (λ m. matches_price max_price m.price_per_call)
        (keep (λ m. matches_tags tags m.tags)
          (keep (λ m. matches_text framework m.framework)
            (keep (λ m. matches_text task m.task) (keep (λ m. m.is_active) (values store))))))
