-- ===== src/Bench/Bundle.antt =====
-- The redaction check of `hmasync_controller/bench/bundle.py`: `_check_denylist`. Whether a text matches
-- the pattern of an entity is a parameter, as Python's `re` answers it.
pub mod Net
pub mod Build
pub mod Export
pub mod Builds
pub mod Examples
use Prim.Native.String.{◌++◌ as text_append}
use async_energy_controller.Base.{
  ℕ, suc, String, Bool, not, ◌&&◌, Option, none, some, List, [], ◌∷◌, any, str_eq, if◌then◌else◌,
}
use async_energy_controller.Value.{
  Value, null, bool, int, float, str, datetime, list, tuple, dict, model, Items, nil, cons, Fields,
  end, field, PyText,
}
use async_energy_controller.Submission.Redact.{contains, member, element}

abbrev pub denylist_key_substrings : List String
denylist_key_substrings =
    "uuid" ∷ "serial" ∷ "mac" ∷ "hostname" ∷ "entity_id" ∷ "token" ∷ "password" ∷ []

abbrev pub llm_token_field_allowlist : List String
llm_token_field_allowlist =
    "max_tokens" ∷ "joules_per_token" ∷ "total_completion_tokens" ∷ "mean_tokens_per_second"
    ∷ "pooled_tokens_per_second" ∷ "alpha_j_per_prompt_token" ∷ "beta_j_per_completion_token" ∷ []

-- `ExportDenylistViolation`, by what it names: a field, or the path and the text of a value.
pub data ExportDenylistViolation : Type 0 where
  denied_field : String → ExportDenylistViolation
  entity_value : String → String → ExportDenylistViolation

module _ (texts : PyText) (is_entity_id : String → Bool) where
  unfoldable pub is_violation : String → Bool
  unfolding contains
  is_violation key =
      let lowered = texts.lower key in
      not (any (λ name. str_eq name lowered) llm_token_field_allowlist)
      && any (λ term. contains term lowered) denylist_key_substrings

  -- `none` where the value passes.
  unfoldable mutual
    unfolding is_violation

    pub check_denylist : String → Value → Option ExportDenylistViolation
    check_denylist path null = none
    check_denylist path (bool b) = none
    check_denylist path (int n) = none
    check_denylist path (float x) = none
    check_denylist path (str s) = if is_entity_id s then some (entity_value path s) else none
    check_denylist path (datetime t) = none
    check_denylist path (tuple vs) = none
    check_denylist path (model fs) = none
    check_denylist path (dict fs) = check_fields path fs
    check_denylist path (list vs) = check_items path 0 vs

    pub check_items : String → ℕ → Items → Option ExportDenylistViolation
    check_items path index nil = none
    check_items path index (cons v vs) =
        let rest = check_items path (suc index) vs in
        elim (check_denylist (element texts path index) v) [ some e ↦ some e | none ↦ rest ]

    pub check_fields : String → Fields → Option ExportDenylistViolation
    check_fields path end = none
    check_fields path (field k v fs) =
        let value = check_denylist (member texts path k) v in
        let rest = check_fields path fs in
        if is_violation k
        then some (denied_field (member texts path k))
        else elim value [ some e ↦ some e | none ↦ rest ]
