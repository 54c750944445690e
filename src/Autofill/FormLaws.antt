-- ===== src/Autofill/FormLaws.antt =====
-- The fields that `_normalize` returns.
use innovativeproject_pm_gen.Base.{
  All-map, none, Option, eq_iff, ℕ, String, true, List, ◌≡◌, some, arith, All, All-append,
}
use innovativeproject_pm_gen.Base.Value.{ℤ, Value, Fields, get, field, end}
use innovativeproject_pm_gen.Base.Result.{Ensures-err, Ensures}
use innovativeproject_pm_gen.Autofill.{Numbers}
use innovativeproject_pm_gen.Autofill.Form.{
  normalize_patch, normalize, field_specs, generate, training_dataset,
  preprocessing_feature_engineering, ProcessType, training_rules, rules_of, preprocessing_rules,
  generate_rules, dataset_rules, Rule, patch_of,
}
use innovativeproject_pm_gen.Autofill.Laws.{fill-Each, RuleFits, Each, OnSome, IsComparison}
use innovativeproject_pm_gen.Base.Table.{lookup, member}
use innovativeproject_pm_gen.Autofill.Kinds.{kind_or_text, text, positive, between, kind_of, Fits}
use innovativeproject_pm_gen.Autofill.Fields.{text_field, int_field, float_field}
use innovativeproject_pm_gen.Autofill.IdLaws.{comparison-listed, model_id-listed, dataset_id-listed}
use innovativeproject_pm_gen.Autofill.FieldLaws.{
  selected_kpis-texts, bool_field-boolean, split_date-text, joint_windows-positive,
  dataset_type-one_of, text_field-text, required_text-text, int_field-positive, float_field-between,
  float_field-at_least,
}

get-patch_of :
    (k : String) (allowed : List String) (raw : Fields) {v : Value}
    → get (patch_of allowed raw) k ≡ some v
    → (member k allowed ≡ true) × (get raw k ≡ some v)
unfolding get patch_of
get-patch_of k allowed end e = cc
get-patch_of k allowed (field j w r) {v} e =
    ground (arith, get-patch_of k allowed r {v = v}, eq_iff j k)

module _ (n : Numbers) (c : IsComparison n) (ids : List ℤ) (model_ids : List String)
    (current : Fields) where
  -- The rule gives its field values of the field's kind only.
  abbrev MakesKind : Rule → Type 0
  MakesKind r = (v : Value) → Ensures (OnSome (Fits n ids model_ids (kind_of r.0))) (r.1 v)

  dataset_rules-MakesKind : All MakesKind (dataset_rules n current ids)
  unfolding dataset_rules kind_of lookup kind_or_text
  dataset_rules-MakesKind = (
    dataset_id-listed n c ids model_ids current,
    (dataset_type-one_of n c ids model_ids current, tt),
  )

  text_rule :
      (key : String) (v : Value)
      → Ensures (OnSome (Fits n ids model_ids text)) (text_field n current key v)
  text_rule key = text_field-text n c ids model_ids current key

  share_rule :
      (key fallback : String) (v : Value)
      → Ensures
          (OnSome (Fits n ids model_ids (between "0" "1")))
          (float_field n current key fallback (some "0") (some "1") v)
  share_rule key fallback =
      float_field-between n c ids model_ids current key fallback "0" "1" c.unit

  hours_rule :
      (key : String) (fallback : ℕ) (v : Value)
      → Ensures (OnSome (Fits n ids model_ids positive)) (int_field n current key fallback v)
  hours_rule key fallback = int_field-positive n c ids model_ids current key fallback

  preprocessing_rules-MakesKind : All MakesKind (preprocessing_rules n current)
  unfolding preprocessing_rules kind_of lookup kind_or_text
  preprocessing_rules-MakesKind = (
    text_rule _,
    (
      text_rule _,
      (
        text_rule _,
        (
          share_rule _ _,
          (
            share_rule _ _,
            (
              share_rule _ _,
              (
                share_rule _ _,
                (
                  float_field-at_least n c ids model_ids current _ _ "0",
                  (
                    share_rule _ _,
                    (
                      hours_rule _ _,
                      (
                        hours_rule _ _,
                        (
                          hours_rule _ _,
                          (
                            joint_windows-positive n c ids model_ids current,
                            (bool_field-boolean n c ids model_ids current _ _, tt),
                          ),
                        ),
                      ),
                    ),
                  ),
                ),
              ),
            ),
          ),
        ),
      ),
    ),
  )

  training_rules-MakesKind : All MakesKind (training_rules n current)
  unfolding training_rules kind_of lookup kind_or_text
  training_rules-MakesKind = (
    required_text-text n c ids model_ids current _,
    (
      float_field-between n c ids model_ids current _ _ "0.05" "0.5" c.test_share,
      (
        hours_rule _ _,
        (
          split_date-text n c ids model_ids current,
          (
            bool_field-boolean n c ids model_ids current _ _,
            (bool_field-boolean n c ids model_ids current _ _, tt),
          ),
        ),
      ),
    ),
  )

  generate_rules-MakesKind : All MakesKind (generate_rules n current ids model_ids)
  unfolding generate_rules kind_of lookup kind_or_text
  generate_rules-MakesKind = (
    model_id-listed n c ids model_ids current,
    (
      required_text-text n c ids model_ids current _,
      (
        text_rule _,
        (
          text_rule _,
          (
            comparison-listed n c ids model_ids current,
            (selected_kpis-texts n c ids model_ids current, tt),
          ),
        ),
      ),
    ),
  )

  rules_of-MakesKind : (p : ProcessType) → All MakesKind (rules_of n current p ids model_ids)
  unfolding rules_of
  rules_of-MakesKind preprocessing_feature_engineering =
      All-append MakesKind (dataset_rules n current ids) (preprocessing_rules n current)
        dataset_rules-MakesKind preprocessing_rules-MakesKind
  rules_of-MakesKind training_dataset =
      All-append MakesKind (dataset_rules n current ids) (training_rules n current)
        dataset_rules-MakesKind training_rules-MakesKind
  rules_of-MakesKind generate = generate_rules-MakesKind

  -- A field of the result is one of the form's, was proposed, and has a value of its kind.
  unfoldable pub IsFormValue : ProcessType → Fields → String → Value → Type 0
  IsFormValue p raw k w =
      (member k (field_specs p) ≡ true)
      × ((v : Value) × (get raw k ≡ some v))
      × Fits n ids model_ids (kind_of k) w

  MakesKind-RuleFits :
      (p : ProcessType) (raw : Fields) (r : Rule)
      → MakesKind r
      → RuleFits (IsFormValue p raw) (patch_of (field_specs p) raw) r
  unfolding OnSome IsFormValue
  MakesKind-RuleFits p raw r makes v e =
      let (listed, proposed) = get-patch_of r.0 (field_specs p) raw e in
      record { at = λ o f. with_proof o ((makes v).at o f) listed (v, proposed) }
    where
      with_proof :
          (o : Option Value)
          → OnSome (Fits n ids model_ids (kind_of r.0)) o
          → member r.0 (field_specs p) ≡ true
          → (v : Value) × (get raw r.0 ≡ some v)
          → OnSome (IsFormValue p raw r.0) o
      with_proof none fits listed proposed = tt
      with_proof (some w) fits listed proposed = (listed, proposed, fits)

  none_yet : (P : String → Value → Type 0) → Each P end
  unfolding get
  none_yet P k w e = cc

  normalize_patch-Each :
      (P : String → Value → Type 0) (p : ProcessType) (patch : Fields)
      → All (RuleFits P patch) (rules_of n current p ids model_ids)
      → Ensures (Each P) (normalize_patch n current p patch ids model_ids)
  unfolding normalize_patch
  normalize_patch-Each P p end fit = Ensures-err _
  normalize_patch-Each P p (field k v r) fit = fill-Each P (field k v r) _ end fit (none_yet P)

  pub normalize-IsFormValue :
      (p : ProcessType) (raw : Fields)
      → Ensures (Each (IsFormValue p raw)) (normalize n current p raw ids model_ids)
  unfolding normalize
  normalize-IsFormValue p raw =
      normalize_patch-Each (IsFormValue p raw) p (patch_of (field_specs p) raw) (
        All-map (MakesKind-RuleFits p raw) (rules_of n current p ids model_ids)
          (rules_of-MakesKind p))
