-- ===== src/Pipeline/Laws.antt =====
-- What `create_run` leaves in the database.
use innovativeproject_pm_gen.Base.{
  if◌then◌else◌, ℕ, String, ◌≡◌, refl, ◌⊎◌, inl, inr, Bool, true, false, [], ◌∷◌, ◌++◌, Option,
  none, some,
}
use innovativeproject_pm_gen.Base.Value.{Fault, Fields}
use innovativeproject_pm_gen.Base.Result.{Ensures-ok, Ensures-err, ◌>>=◌, Result, ok, err, Ensures}
use innovativeproject_pm_gen.Store.{find_by_id, Db}
use innovativeproject_pm_gen.Errors.{
  integrity, model_invalid, visualization_storage, visualization_schema, runtime, request_invalid,
  airflow, http, preprocessing_config, python, Exn,
}
use innovativeproject_pm_gen.Pipeline.{
  check_conf, add_run, new_run, create_for, bind_keywords, after_trigger, Deployment,
  trigger_airflow, on_trigger_error, create_run,
}
use innovativeproject_pm_gen.Schemas.{PipelineType, PipelineRunStatus, Dataset, PipelineRun}

-- The trigger never gives a run id: its call lacks a keyword.
NoRun : Result Exn (Option String) → Type 0
NoRun r = (r ≡ ok none) ⊎ ((e : Exn) × (r ≡ err e))

error-NoRun : (e : Exn) → NoRun (on_trigger_error (err e))
unfolding NoRun on_trigger_error
error-NoRun (preprocessing_config message) = inr (http 422 message, refl)
error-NoRun (airflow e) = inl refl
error-NoRun (http status detail) = inr (http status detail, refl)
error-NoRun (request_invalid v) = inr (request_invalid v, refl)
error-NoRun model_invalid = inr (model_invalid, refl)
error-NoRun integrity = inr (integrity, refl)
error-NoRun (runtime message) = inr (runtime message, refl)
error-NoRun (visualization_schema message) = inr (visualization_schema message, refl)
error-NoRun (visualization_storage message) = inr (visualization_storage message, refl)
error-NoRun (python fault) = inr (python fault, refl)

bound-NoRun :
    (r : Result Exn (Unit {0})) (k : Unit {0} → Result Exn (Option String))
    → ((u : Unit {0}) → k u ≡ err (python Fault.type_error))
    → NoRun (on_trigger_error (r >>= k))
unfolding ◌>>=◌
bound-NoRun (ok u) k h = rw (h u) (error-NoRun (python Fault.type_error))
bound-NoRun (err e) k h = error-NoRun e

if-NoRun : (b : Bool) (r : Result Exn (Option String)) → NoRun r → NoRun (if b then r else ok none)
unfolding NoRun
if-NoRun true r h = h
if-NoRun false r h = inl refl

trigger_airflow-NoRun :
    (s : Deployment) (run : PipelineRun) (dataset : Dataset) (args : Fields)
    → NoRun (trigger_airflow s run dataset args)
unfolding trigger_airflow bind_keywords ◌>>=◌
trigger_airflow-NoRun s run dataset args =
    if-NoRun s.service_up _ (bound-NoRun (check_conf s run dataset args) _ (λ u. refl))

-- The database is as before, or has one row more, which is PENDING and has no Airflow run.
unfoldable pub IsLeft : Db → Db → Type 0
IsLeft db after =
    (after ≡ db)
    ⊎ ((row : PipelineRun) × (after.pipeline_runs ≡ db.pipeline_runs ++ (row ∷ []))
        × (row.status ≡ PipelineRunStatus.pending)
        × (row.airflow_run_id ≡ none)
        × (after.datasets ≡ db.datasets))

-- What the call makes of the database, and the run that it returns.
abbrev Leaves : Db → Result Exn PipelineRun × Db → Type 0
Leaves db (result, after) =
    IsLeft db after × Ensures (λ (run : PipelineRun). run.status ≡ PipelineRunStatus.pending) result

after_trigger-Leaves :
    (run : PipelineRun) (r : Result Exn (Option String)) (db : Db)
    → NoRun r
    → run.status ≡ PipelineRunStatus.pending
    → run.airflow_run_id ≡ none
    → Leaves db (after_trigger run r (add_run run db))
unfolding after_trigger NoRun IsLeft add_run
after_trigger-Leaves run (ok none) db h p q = (inr (run, refl, p, q, refl), Ensures-ok run p)
after_trigger-Leaves run (ok (some id)) db (inl e) p q = cc
after_trigger-Leaves run (ok (some id)) db (inr (x, e)) p q = cc
after_trigger-Leaves run (err e) db h p q = (inr (run, refl, p, q, refl), Ensures-err e)

unless-Leaves :
    (b : Bool) (e : Exn) (db : Db) (r : Result Exn PipelineRun × Db)
    → Leaves db r
    → Leaves db (if b then (err e, db) else r)
unfolding IsLeft
unless-Leaves true e db r h = (inl refl, Ensures-err e)
unless-Leaves false e db r h = h

new_run-status :
    (s : Deployment) (db : Db) (i : ℕ) (t : PipelineType)
    → (new_run s db i t).status ≡ PipelineRunStatus.pending
unfolding new_run
new_run-status s db i t = refl

new_run-id :
    (s : Deployment) (db : Db) (i : ℕ) (t : PipelineType) → (new_run s db i t).airflow_run_id ≡ none
unfolding new_run
new_run-id s db i t = refl

create_for-IsLeft :
    (s : Deployment) (pipeline_type : PipelineType) (args : Fields) (found : Option Dataset)
    (dataset_id : ℕ) (db : Db)
    → Leaves db (create_for s pipeline_type args found dataset_id db)
unfolding create_for IsLeft
create_for-IsLeft s pipeline_type args none dataset_id db = (inl refl, Ensures-err _)
create_for-IsLeft s pipeline_type args (some dataset) dataset_id db =
    let run = new_run s db dataset_id pipeline_type in
    unless-Leaves _ _ db _ (
      after_trigger-Leaves run _ db (trigger_airflow-NoRun s run dataset args)
        (new_run-status s db dataset_id pipeline_type) (new_run-id s db dataset_id pipeline_type))

-- Whatever the Airflow service, the dataset and the arguments are, a call of `create_run` leaves the
-- database as it was, or with one row more that is PENDING and has no Airflow run; it never
-- returns a run that is RUNNING.
pub create_run-IsLeft :
    (s : Deployment) (dataset_id : ℕ) (pipeline_type : PipelineType) (args : Fields) (db : Db)
    → let (result, after) = create_run s dataset_id pipeline_type args db in
      IsLeft db after
      × Ensures (λ (run : PipelineRun). run.status ≡ PipelineRunStatus.pending) result
unfolding create_run
create_run-IsLeft s dataset_id pipeline_type args db =
    create_for-IsLeft s pipeline_type args (find_by_id dataset_id db.datasets) dataset_id db
