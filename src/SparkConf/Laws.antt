-- ===== src/SparkConf/Laws.antt =====
-- Where a preprocessing run writes, and which paths it has.
use innovativeproject_pm_gen.Base.{
  subst, String, ◌<>◌, ◌≡◌, ◌∙◌, sym, ◌⊎◌, inl, inr, refl, true, false, Bool-cases,
}
use innovativeproject_pm_gen.Base.Value.{Fields}
use innovativeproject_pm_gen.Base.Text.{strip_of, is_slash}
use innovativeproject_pm_gen.Base.Result.{
  Ensures-ok, Ensures-bind, Ensures-if, Result, ok, ok-injective, >>=-eq-ok, Ensures,
}
use text.Mathlib.TextLemmas.{append_cancel_left, append_cancel_right}
use innovativeproject_pm_gen.SparkConf.{
  resolve_preprocessing_dag_args, missing_paths, is_blank_text, with_prefix, refuse_missing,
  require_paths, DagArgs, dataset_visualization_prefix, Paths, preprocessing_output_prefix,
}
use innovativeproject_pm_gen.Errors.{Exn}

abbrev text_of : String → String → String
text_of base run =
    strip_of is_slash base <> ("/preprocessed/" <> (strip_of is_slash run <> "/final"))

-- Two runs on the same object that are given the same output prefix have the same id, but for
-- slashes at its ends.
preprocessing_output_prefix-injective :
    (paths : Paths) (run other key : String) {prefix : String}
    → preprocessing_output_prefix paths run key ≡ ok prefix
    → preprocessing_output_prefix paths other key ≡ ok prefix
    → strip_of is_slash run ≡ strip_of is_slash other
unfolding preprocessing_output_prefix
preprocessing_output_prefix-injective paths run other key {prefix} e f =
    let (base, first, p) = >>=-eq-ok (dataset_visualization_prefix paths key "RAW") _ e in
    let (base2, second, q) = >>=-eq-ok (dataset_visualization_prefix paths key "RAW") _ f in
    let same = ok-injective (sym second ∙ first) in
    let texts =
      ok-injective p
      ∙ sym (
          ok-injective
            (subst (λ b. ◌≡◌ {A = Result Exn String} (ok (text_of b other)) (ok prefix)) same q)) in
    let mine = strip_of is_slash run in
    let theirs = strip_of is_slash other in
    append_cancel_right mine theirs "/final" (
      append_cancel_left "/preprocessed/" _ _
        (append_cancel_left (strip_of is_slash base) _ _ texts))

no_missing :
    (args : DagArgs)
    → require_paths args ≡ ok tt
    → (is_blank_text args.kpi_definitions_raw_path ≡ false)
      × (is_blank_text args.simple_reports_raw_path ≡ false)
unfolding require_paths refuse_missing missing_paths
no_missing args e = elim (Bool-cases (is_blank_text args.kpi_definitions_raw_path)) [
  | inl a ↦ let c = (rw a at e) in cc
  | inr a ↦ elim (Bool-cases (is_blank_text args.simple_reports_raw_path)) [
    | inl b ↦ let c = (rw (a, b) at e) in cc
    | inr b ↦ (a, b)
  ]
]

-- The prefix of the user, or the run's own where that is blank; the paths as they were.
unfoldable pub IsPlaced : Paths → String → String → DagArgs → DagArgs → Type 0
IsPlaced paths run key read args =
    (args.kpi_definitions_raw_path ≡ read.kpi_definitions_raw_path)
    × (args.simple_reports_raw_path ≡ read.simple_reports_raw_path)
    × (((is_blank_text read.output_path_prefix ≡ false)
          × (args.output_path_prefix ≡ read.output_path_prefix))
        ⊎ ((is_blank_text read.output_path_prefix ≡ true)
            × (preprocessing_output_prefix paths run key ≡ ok args.output_path_prefix)))

with_prefix-IsPlaced :
    (paths : Paths) (run key : String) (read : DagArgs)
    → Ensures (IsPlaced paths run key read) (with_prefix paths run key read)
unfolding with_prefix IsPlaced
with_prefix-IsPlaced paths run key read =
    Ensures-if (is_blank_text read.output_path_prefix)
      (λ blank. Ensures-bind _ _ λ prefix e. Ensures-ok _ (refl, refl, inr (blank, e)))
      (λ given. Ensures-ok read (refl, refl, inl (given, refl)))

-- If the arguments of a preprocessing run are resolved, then the user's were valid, the two paths
-- are theirs and not blank, and the output prefix is theirs, or if that is blank, the one of the
-- run and its object.
pub resolve-IsPlaced :
    (paths : Paths) (run key : String) (user : Fields) {args : DagArgs}
    → resolve_preprocessing_dag_args paths run key user ≡ ok args
    → (read : DagArgs) × (paths.validate user ≡ ok read)
      × IsPlaced paths run key read args
      × (is_blank_text args.kpi_definitions_raw_path ≡ false)
      × (is_blank_text args.simple_reports_raw_path ≡ false)
unfolding resolve_preprocessing_dag_args
resolve-IsPlaced paths run key user {args} e =
    let (read, first, after) = >>=-eq-ok (paths.validate user) _ e in
    let (full, second, last) = >>=-eq-ok (with_prefix paths run key read) _ after in
    let (u, third, same) = >>=-eq-ok (require_paths full) _ last in
    let (a, b) = no_missing full third in
    let full_args = ok-injective same in
    (
      read,
      first,
      subst (IsPlaced paths run key read) full_args
          ((with_prefix-IsPlaced paths run key read).at full second),
      subst (λ x. is_blank_text x.kpi_definitions_raw_path ≡ false) full_args a,
      subst (λ x. is_blank_text x.simple_reports_raw_path ≡ false) full_args b,
    )
