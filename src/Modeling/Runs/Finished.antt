-- ===== src/Modeling/Runs/Finished.antt =====
-- From a request to generate to the dataset of its output: the route and the poller together.
use innovativeproject_pm_gen.Base.{
  ℕ, ◌<◌, All, Bool, true, some, String, false, none, List, [], ◌∷◌, ◌++◌, ◌≡◌, refl, sym, ap, ◌∙◌,
  subst, arith,
}
use innovativeproject_pm_gen.Base.Exec.{Exec}
use innovativeproject_pm_gen.Base.Exec.Hoare.{After}
use innovativeproject_pm_gen.Base.Result.{Result, ok}
use innovativeproject_pm_gen.Base.Value.{Fields}
use innovativeproject_pm_gen.Errors.{Exn}
use innovativeproject_pm_gen.Schemas.{DagRunStatus, DatasetType, PipelineRunStatus, ProcessRun}
use innovativeproject_pm_gen.Store.{Db, running_runs}
use innovativeproject_pm_gen.Store.Laws.{running_runs-All}
use innovativeproject_pm_gen.System.Sound.{IsSound}
use innovativeproject_pm_gen.Poller.Returns.{IsHandled}
use innovativeproject_pm_gen.Poller.Whole.{find_run, find_run-append, AreOthers}
use innovativeproject_pm_gen.Poller.Whole.Run.{IsCompleted, poll_once-IsCompleted}
use innovativeproject_pm_gen.Store.Tables.{has_run_id}
use innovativeproject_pm_gen.S3.{Storage, missing}
use innovativeproject_pm_gen.S3.Laws.{IsVisible}
use innovativeproject_pm_gen.Poller.{
  Backend, poll_once, output_key, derive_pm_metadata_s3_key, resolve_dataset_type,
}
use innovativeproject_pm_gen.Modeling.{Call}
use innovativeproject_pm_gen.Modeling.Conf.{Outside, GenerateRunRequest, ModelingRunCreated}
use innovativeproject_pm_gen.Modeling.Runs.{trigger_generate_run}
use innovativeproject_pm_gen.Modeling.Runs.Laws.{Tells, recorded}
use innovativeproject_pm_gen.Modeling.Runs.Started.{IsStarted, trigger_generate_run-Outcome}
use innovativeproject_pm_gen.Autofill.Form.{generate}

running_runs-snoc :
    (rs : List ProcessRun) (r : ProcessRun)
    → r.status ≡ PipelineRunStatus.running
    → running_runs (rs ++ (r ∷ [])) ≡ running_runs rs ++ (r ∷ [])
unfolding running_runs
running_runs-snoc [] r h = ground (arith, h)
running_runs-snoc (x ∷ rs) r h = ground (arith, running_runs-snoc rs r h)

Tells-unique : (conf : Fields) (p q : String) → Tells conf p → Tells conf q → p ≡ q
Tells-unique conf p q (a, ha, pa) (b, hb, qb) = let same : a ≡ b = cc in cc

recorded-running :
    (r : ProcessRun) (db : Db)
    → has_run_id r.run_id db.process_runs ≡ false
    → r.status ≡ PipelineRunStatus.running
    → running_runs (recorded r db).process_runs
      ≡ running_runs db.process_runs ++ (record r { id = db.next_process_id } ∷ [])
unfolding recorded
recorded-running r db new h =
    rw new (running_runs-snoc db.process_runs (record r { id = db.next_process_id }) h)

generated_key :
    (r : ProcessRun)
    → r.process_type ≡ "generate"
    → output_key r ≡ (r.output_s3_key, DatasetType.generated)
unfolding resolve_dataset_type
generated_key r h = rw h refl

no_metadata : (r : ProcessRun) → r.process_type ≡ "generate" → derive_pm_metadata_s3_key r ≡ none
unfolding derive_pm_metadata_s3_key
no_metadata r h = rw h refl

key_under :
    {p q : String}
    → p ≡ q
    → ◌≡◌ {A = String × DatasetType} (p, DatasetType.generated) (q, DatasetType.generated)
key_under e = cc

-- The ids of the rows of a sound database are below the next one.
others-below :
    (n : ℕ) (rs : List ProcessRun) → All (λ (x : ProcessRun). x.id < n) rs → AreOthers n rs
others-below n [] h = tt
others-below n (x ∷ rs) (p, h) = (ground arith, others-below n rs h)

recorded-found :
    (r : ProcessRun) (db : Db)
    → IsSound db
    → has_run_id r.run_id db.process_runs ≡ false
    → find_run db.next_process_id (recorded r db).process_runs
      ≡ some (record r { id = db.next_process_id })
unfolding recorded
recorded-found r db (key, sound) new = rw new (
    find_run-append db.next_process_id db.process_runs (record r { id = db.next_process_id })
      (others-below db.next_process_id db.process_runs sound.runs.below) refl)

module _ (st : Storage) {F : Type 0} (o : Outside F)
    (get_dag_run : String → String → Exec Exn F DagRunStatus)
    (handled : (dag_id run_id : String) (f : F) → IsHandled (get_dag_run dag_id run_id f).0)
    (runtime_up : F → Bool) where
  -- The run is the last of those that the next tick looks at; the tick returns, with the run COMPLETED
  -- and linked to the dataset under the prefix.
  pub record IsDelivered (before later : Backend st F) (run_id prefix : String) : Type 0 where
    pub row : ProcessRun
    pub same_run : row.run_id ≡ run_id
    pub key : output_key row ≡ (prefix, DatasetType.generated)
    pub next :
        running_runs later.site.db.process_runs
        ≡ running_runs before.site.db.process_runs ++ (row ∷ [])
    pub finished :
        IsCompleted st get_dag_run handled row (poll_once st get_dag_run runtime_up later)

  module _ (call : Call) (body : GenerateRunRequest) (before after : Backend st F)
      (c : ModelingRunCreated) (prefix : String) (later : Backend st F) where
    started-IsDelivered :
        IsStarted o call generate before c after
        → IsSound before.site.db
        → has_run_id c.run_id before.site.db.process_runs ≡ false
        → later.site.db ≡ after.site.db
        → Tells c.conf prefix
        → runtime_up later.flow ≡ true
        → ((f : F) → (get_dag_run "generate_pipeline" c.run_id f).0 ≡ ok DagRunStatus.success)
        → missing st prefix later.site.objects ≡ none
        → IsDelivered before later c.run_id prefix
    unfolding resolve_dataset_type
    started-IsDelivered s sound new same told up success visible =
        let row = record s.row { id = before.site.db.next_process_id } in
        let out : s.row.output_s3_key ≡ prefix = Tells-unique c.conf _ _ s.told told in
        let unknown : has_run_id s.row.run_id before.site.db.process_runs ≡ false =
          subst (λ k. has_run_id k before.site.db.process_runs ≡ false) (sym s.run_id) new in
        let stored = same ∙ s.on_record in
        let next =
          ap (λ (db : Db). running_runs db.process_runs) stored
          ∙ recorded-running s.row before.site.db unknown s.running in
        record {
          row = row;
          same_run = s.run_id;
          key = generated_key row s.process_type ∙ key_under out;
          next = next;
          finished =
              poll_once-IsCompleted st get_dag_run handled row (asked s.dag_id s.run_id success)
                runtime_up later (running_runs before.site.db.process_runs) [] up next
                (running_runs-All _ before.site.db.process_runs (
                  others-below before.site.db.next_process_id before.site.db.process_runs
                    sound.1.runs.below))
                tt
                (ap (λ (db : Db). find_run row.id db.process_runs) stored
                  ∙ recorded-found s.row before.site.db sound unknown)
                (subst (λ k. missing st k later.site.objects ≡ none) (sym out) visible)
                (subst (λ k. IsVisible k later.site) (sym (no_metadata row s.process_type)) tt);
        }
      where
        asked :
            {d r : String}
            → d ≡ "generate_pipeline"
            → r ≡ c.run_id
            → ((f : F) → (get_dag_run "generate_pipeline" c.run_id f).0 ≡ ok DagRunStatus.success)
            → (f : F) → (get_dag_run d r f).0 ≡ ok DagRunStatus.success
        asked e k h f = rw (e, k) (h f)

    -- If a request to generate, on a sound database, is answered with a run id that was not on record, and
    -- later, when the database is still the one that the request left and the Airflow runtime is up,
    -- Airflow reports that run as a success whenever it is asked, raises nothing but its own errors for
    -- any run, and the prefix that the run's configuration names can be seen in the object store, then
    -- the run is the last of those that the poller's tick looks at, and the tick returns without an
    -- exception, with the run COMPLETED and linked to a GENERATED dataset with the prefix as its key.
    pub generate-IsDelivered :
        trigger_generate_run o st call body before ≡ (ok c, after)
        → IsSound before.site.db
        → has_run_id c.run_id before.site.db.process_runs ≡ false
        → later.site.db ≡ after.site.db
        → Tells c.conf prefix
        → runtime_up later.flow ≡ true
        → ((f : F) → (get_dag_run "generate_pipeline" c.run_id f).0 ≡ ok DagRunStatus.success)
        → missing st prefix later.site.objects ≡ none
        → IsDelivered before later c.run_id prefix
    generate-IsDelivered answered = started-IsDelivered (
        subst
          (λ (r : Result Exn ModelingRunCreated × Backend st F).
            After (λ x y. IsStarted o call generate before x y) (λ y. y.site ≡ before.site) r)
          answered (trigger_generate_run-Outcome o call body before))
