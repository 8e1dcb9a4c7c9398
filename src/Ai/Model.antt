-- ===== src/Ai/Model.antt =====
-- crates/ai/src/model.rs: the model that the agent may use.
use andy.Base.{
  Bool, false, not, ◌&&◌, Option, none, some, map_some, unwrap_or, Text, codes, trim, is_empty,
  starts_with, eq_ignore_ascii_case, if◌then◌else◌,
}
use mathlib.Core.List.{reverse}
use andy.Ai.Fields.{only_if}

abbrev pub default_model_id : Text
default_model_id = codes "openai/gpt-oss-120b:free"

pub record ModelConfig : Type 0 where
  pub model_id : Text

pub data ModelConfigError : Type 0 where
  non_free_model : Text → ModelConfigError
  fallback_models_unsupported : ModelConfigError

pub data ModelConfigResult : Type 0 where
  err : ModelConfigError → ModelConfigResult
  ok : ModelConfig → ModelConfigResult

abbrev pub ends_with : Text → Text → Bool
ends_with suffix s = starts_with (reverse suffix) (reverse s)

-- Whether a chain of fallback models is asked for.
abbrev pub asks_for_fallback : Option Text → Bool
asks_for_fallback none = false
asks_for_fallback (some s) =
    let raw = trim s in
    not (is_empty raw)
    && (not (eq_ignore_ascii_case raw (codes "none"))
        && not (eq_ignore_ascii_case raw (codes "off")))

unfoldable pub resolve_model_config : Option Text → Option Text → ModelConfigResult
resolve_model_config openrouter_model fallback_models =
    let model_id =
      unwrap_or default_model_id
        (only_if (λ value. not (is_empty value)) (map_some trim openrouter_model)) in
    if asks_for_fallback fallback_models
    then ModelConfigResult.err ModelConfigError.fallback_models_unsupported
    else if not (ends_with (codes ":free") model_id)
    then ModelConfigResult.err (ModelConfigError.non_free_model model_id)
    else ModelConfigResult.ok (record { model_id = model_id })
