-- ===== src/Autofill/Form.antt =====
-- apps/backend/app/services/llm/autofill.py, `_normalize`. Each of its tests `if "key" in patch` is a
-- rule: the key, and the value that the field gets from the one proposed, or none.
use innovativeproject_pm_gen.Base.{
  String, true, false, Option, none, some, List, [], ◌∷◌, ◌++◌, if◌then◌else◌,
}
use innovativeproject_pm_gen.Base.Value.{put, ℤ, Value, Fields, end, field, get}
use innovativeproject_pm_gen.Base.Table.{member}
use innovativeproject_pm_gen.Base.Result.{Result, ok, err, ◌>>=◌}
use innovativeproject_pm_gen.Autofill.{llm, Numbers, Failure}
use innovativeproject_pm_gen.Autofill.Fields.{
  bool_field, split_date_field, joint_windows_field, selected_kpis_field, int_field, float_field,
  dataset_type_field, comparison_field, text_field, required_text, model_id_field, dataset_id_field,
}

pub data ProcessType : Type 0 where
  preprocessing_feature_engineering training_dataset generate : ProcessType

-- The keys of `_FIELD_SPECS`.
unfoldable pub field_specs : ProcessType → List String
field_specs preprocessing_feature_engineering =
    "dataset_id" ∷ "dataset_type" ∷ "kpi_definitions_raw_path" ∷ "simple_reports_raw_path"
    ∷ "output_path_prefix" ∷ "kpi_min_global_density" ∷ "kpi_global_min_frac_cells_passing"
    ∷ "kpi_window_coverage_frac" ∷ "min_imputable_gap_frac" ∷ "kpi_min_std_val" ∷ "max_zero_frac"
    ∷ "window_width_hours" ∷ "stride_hours" ∷ "max_gap_hours" ∷ "min_joint_windows_abs" ∷ "impute"
    ∷ []
field_specs training_dataset =
    "dataset_id" ∷ "dataset_type" ∷ "target_column" ∷ "test_size" ∷ "random_seed" ∷ "split_date"
    ∷ "shuffle" ∷ "stratify" ∷ []
field_specs generate =
    "model_id" ∷ "prompt" ∷ "encoder_s3_key" ∷ "config_s3_key" ∷ "comparison_dataset_id"
    ∷ "selected_kpis" ∷ []

-- The fields of `raw` that the form has.
unfoldable pub patch_of : List String → Fields → Fields
patch_of allowed end = end
patch_of allowed (field k v r) =
    let rest = patch_of allowed r in if member k allowed then field k v rest else rest

abbrev pub Rule : Type 0
Rule = String × (Value → Result Failure (Option Value))

unfoldable pub put_value : String → Option Value → Fields → Fields
put_value k none result = result
put_value k (some v) result = put k v result

-- One test of `_normalize`.
unfoldable pub apply_rule : Rule → Option Value → Fields → Result Failure Fields
apply_rule (k, f) none result = ok result
apply_rule (k, f) (some v) result = f v >>= λ w. ok (put_value k w result)

unfoldable pub fill : List Rule → Fields → Fields → Result Failure Fields
fill [] patch result = ok result
fill ((k, f) ∷ rules) patch result =
    apply_rule (k, f) (get patch k) result >>= λ next. fill rules patch next

module _ (n : Numbers) (current : Fields) where
  unfoldable pub dataset_rules : List ℤ → List Rule
  dataset_rules ids =
      ("dataset_id", dataset_id_field n current ids)
      ∷ ("dataset_type", dataset_type_field n current)
      ∷ []

  unfoldable pub preprocessing_rules : List Rule
  preprocessing_rules =
      ("kpi_definitions_raw_path", text_field n current "kpi_definitions_raw_path")
      ∷ ("simple_reports_raw_path", text_field n current "simple_reports_raw_path")
      ∷ ("output_path_prefix", text_field n current "output_path_prefix")
      ∷ (
        "kpi_min_global_density",
        float_field n current "kpi_min_global_density" "0.5" (some "0") (some "1"),
      )
      ∷ (
        "kpi_global_min_frac_cells_passing",
        float_field n current "kpi_global_min_frac_cells_passing" "0.8" (some "0") (some "1"),
      )
      ∷ (
        "kpi_window_coverage_frac",
        float_field n current "kpi_window_coverage_frac" "0.7" (some "0") (some "1"),
      )
      ∷ (
        "min_imputable_gap_frac",
        float_field n current "min_imputable_gap_frac" "0.1" (some "0") (some "1"),
      )
      ∷ ("kpi_min_std_val", float_field n current "kpi_min_std_val" "0.01" (some "0") none)
      ∷ ("max_zero_frac", float_field n current "max_zero_frac" "0.9" (some "0") (some "1"))
      ∷ ("window_width_hours", int_field n current "window_width_hours" 168)
      ∷ ("stride_hours", int_field n current "stride_hours" 24)
      ∷ ("max_gap_hours", int_field n current "max_gap_hours" 6)
      ∷ ("min_joint_windows_abs", joint_windows_field n current)
      ∷ ("impute", bool_field n current "impute" true)
      ∷ []

  unfoldable pub training_rules : List Rule
  training_rules =
      ("target_column", required_text n current "LLM did not return a valid \"target_column\".")
      ∷ ("test_size", float_field n current "test_size" "0.2" (some "0.05") (some "0.5"))
      ∷ ("random_seed", int_field n current "random_seed" 42)
      ∷ ("split_date", split_date_field n current)
      ∷ ("shuffle", bool_field n current "shuffle" true)
      ∷ ("stratify", bool_field n current "stratify" false)
      ∷ []

  unfoldable pub generate_rules : List ℤ → List String → List Rule
  generate_rules ids model_ids =
      ("model_id", model_id_field n current model_ids)
      ∷ ("prompt", required_text n current "LLM did not return a valid generation prompt.")
      ∷ ("encoder_s3_key", text_field n current "encoder_s3_key")
      ∷ ("config_s3_key", text_field n current "config_s3_key")
      ∷ ("comparison_dataset_id", comparison_field n current ids)
      ∷ ("selected_kpis", selected_kpis_field n current)
      ∷ []

  unfoldable pub rules_of : ProcessType → List ℤ → List String → List Rule
  rules_of preprocessing_feature_engineering ids model_ids =
      dataset_rules ids ++ preprocessing_rules
  rules_of training_dataset ids model_ids = dataset_rules ids ++ training_rules
  rules_of generate ids model_ids = generate_rules ids model_ids

  unfoldable pub normalize_patch :
      ProcessType → Fields → List ℤ → List String → Result Failure Fields
  normalize_patch process_type end ids model_ids =
      err (
        llm "Instruction did not map to any form fields. Mention specific parameters to update."
          422)
  normalize_patch process_type (field k v r) ids model_ids =
      fill (rules_of process_type ids model_ids) (field k v r) end

  unfoldable pub normalize : ProcessType → Fields → List ℤ → List String → Result Failure Fields
  normalize process_type raw ids model_ids =
      normalize_patch process_type (patch_of (field_specs process_type) raw) ids model_ids
