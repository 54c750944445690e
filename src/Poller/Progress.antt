-- ===== src/Poller/Progress.antt =====
-- How a finished run is brought to its end.
use innovativeproject_pm_gen.Base.{inr, inl, ◌∙◌, Option-cases, String, ◌≡◌, refl, none, some}
use innovativeproject_pm_gen.S3.{existing_row, missing, Storage}
use innovativeproject_pm_gen.Base.Exec.{pure, catch, ◌>>=◌, Exec}
use innovativeproject_pm_gen.Errors.{Exn}
use innovativeproject_pm_gen.Schemas.{Dataset, ProcessRun, DagRunStatus}
use innovativeproject_pm_gen.Poller.{
  resolve_dataset_type, register_output, on_flow, complete, output_key, on_status, on_answer,
  derive_pm_metadata_s3_key, ask, finalize, Backend,
}
use innovativeproject_pm_gen.Base.Result.{ok, Result}
use innovativeproject_pm_gen.S3.Laws.{register-missing, register-visible, IsVisible}
use innovativeproject_pm_gen.Store.{update_run, find_by_key}
use innovativeproject_pm_gen.Poller.Steps.{
  with_id, register_output-link, register_output-add, register_output-later, Inserts, found,
}
use innovativeproject_pm_gen.Store.Laws.{find-snoc}

module _ (st : Storage) {F : Type 0} (get_dag_run : String → String → Exec Exn F DagRunStatus)
    (r : ProcessRun) (s : Backend st F) where
  abbrev flowed : F → Backend st F
  flowed f = record s { flow = f }

  finalize-register :
      {f : F}
      → get_dag_run r.dag_id r.run_id s.flow ≡ (ok DagRunStatus.success, f)
      → finalize st get_dag_run r s ≡ register_output st get_dag_run r (flowed f)
  unfolding finalize ask on_answer on_status ◌>>=◌ catch on_flow pure
  finalize-register h = rw h refl

  visible-Inserts :
      (f : F)
      → missing st r.output_s3_key s.site.objects ≡ none
      → IsVisible (derive_pm_metadata_s3_key r) s.site
      → Inserts st get_dag_run r (flowed f)
  visible-Inserts f seen meta =
      register-visible r.user_uuid r.output_s3_key (some r.output_name) (resolve_dataset_type r)
        (derive_pm_metadata_s3_key r) s.site seen meta

  -- The run is COMPLETED and linked to the dataset that stands under the key of its output.
  pub record IsFinished (after : Result Exn (Unit {0}) × Backend st F) : Type 0 where
    pub returns : after.0 ≡ ok tt
    pub dataset : Dataset
    pub registered : find_by_key (output_key r) after.1.site.db.datasets ≡ some dataset
    pub completed :
        after.1.site.db.process_runs
        ≡ update_run r.id (complete (some dataset.id)) s.site.db.process_runs

  module _ {f : F}
      (success : get_dag_run r.dag_id r.run_id s.flow ≡ (ok DagRunStatus.success, f)) where
    -- A run that Airflow reports as a success, and whose output and metadata can be seen in the object
    -- store, is COMPLETED by the poller's step for it and linked to the dataset of its output, new or
    -- there already.
    pub finalize-IsFinished :
        missing st r.output_s3_key s.site.objects ≡ none
        → IsVisible (derive_pm_metadata_s3_key r) s.site
        → IsFinished (finalize st get_dag_run r s)
    unfolding existing_row
    finalize-IsFinished seen meta = elim (Option-cases (found st get_dag_run r s)) [
      | inl new ↦
          rw
            (
              finalize-register success,
              register_output-add st get_dag_run r (flowed f) (visible-Inserts f seen meta) new,
            )
            (record {
              returns = refl;
              dataset = with_id st get_dag_run r s.site.db;
              registered =
                  find-snoc (output_key r) s.site.db.datasets (with_id st get_dag_run r s.site.db)
                    new refl;
              completed = refl;
            })
      | inr (d, old) ↦
          rw
            (
              finalize-register success,
              register_output-link st get_dag_run r (flowed f) d (visible-Inserts f seen meta) old,
            )
            (record { returns = refl; dataset = d; registered = old; completed = refl })
    ]

    -- While the output cannot be seen, the step for the run leaves the database as it is, without an
    -- exception.
    pub finalize-waits :
        {exc : String}
        → missing st r.output_s3_key s.site.objects ≡ some exc
        → finalize st get_dag_run r s ≡ (ok tt, flowed f)
    finalize-waits h =
        finalize-register success
        ∙ register_output-later st get_dag_run r (flowed f) _ (
            register-missing r.user_uuid r.output_s3_key (some r.output_name)
              (resolve_dataset_type r) (derive_pm_metadata_s3_key r) s.site h)
