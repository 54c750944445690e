-- ===== src/Poller/Invariant.antt =====
-- What a tick of the poller keeps true of the database.
use innovativeproject_pm_gen.Poller.Steps.{Step, wait, fail, link, add}
use innovativeproject_pm_gen.Base.{
  Bool, [], ◌∷◌, All-map, All-both, ◌++◌, sym, ◌∙◌, ap, ℕ, String, ◌≡◌, refl, some, List, All,
}
use innovativeproject_pm_gen.Schemas.{
  DagRunStatus, PipelineRunStatus, ProcessRun, DatasetType, Dataset,
}
use innovativeproject_pm_gen.Store.{same_key, update_run, find_by_key, Db}
use innovativeproject_pm_gen.Poller.{
  poll_once, Backend, resolve_dataset_type, set_run_status, complete, output_key,
}
use innovativeproject_pm_gen.Base.Sets.{Distinct}
use innovativeproject_pm_gen.Poller.Steps.{fail, wait, Step}
use innovativeproject_pm_gen.Store.Laws.{
  snoc-Distinct, find-snoc, find-append, keys_of, update_run-All,
}
use innovativeproject_pm_gen.S3.{Storage}
use innovativeproject_pm_gen.Poller.Tick.{poll_once-Holds}
use innovativeproject_pm_gen.Base.Exec.{Exec}
use innovativeproject_pm_gen.Errors.{Exn}

-- A COMPLETED run is linked to the dataset that has the key of its output.
abbrev pub IsLinked : List Dataset → ProcessRun → Type 0
IsLinked ds r =
    r.status ≡ PipelineRunStatus.completed
    → (d : Dataset) × (find_by_key (output_key r) ds ≡ some d)
      × (r.registered_dataset_id ≡ some d.id)

-- The primary key of a run determines the key of its output.
abbrev pub HasKey : (ℕ → String × DatasetType) → ProcessRun → Type 0
HasKey key r = output_key r ≡ key r.id

abbrev pub IsConsistent : (ℕ → String × DatasetType) → Db → Type 0
IsConsistent key db =
    Distinct same_key (keys_of db.datasets)
    × All (IsLinked db.datasets) db.process_runs
    × All (HasKey key) db.process_runs

complete-IsLinked :
    (r : ProcessRun) (ds : List Dataset) (d : Dataset)
    → find_by_key (output_key r) ds ≡ some d
    → (x : ProcessRun) → output_key x ≡ output_key r
    → IsLinked ds (complete (some d.id) x)
unfolding resolve_dataset_type
complete-IsLinked r ds d h x same status = (d, ap (λ k. find_by_key k ds) same ∙ h, refl)

grown-IsLinked : (ds es : List Dataset) (r : ProcessRun) → IsLinked ds r → IsLinked (ds ++ es) r
grown-IsLinked ds es r h status =
    let (d, found, id) = h status in (d, find-append (output_key r) ds es found, id)

module _ (key : ℕ → String × DatasetType) where
  complete-All :
      (r : ProcessRun) (rs : List ProcessRun) (ds : List Dataset) (d : Dataset)
      → find_by_key (output_key r) ds ≡ some d
      → HasKey key r
      → All (IsLinked ds) rs
      → All (HasKey key) rs
      → All (λ x. IsLinked ds x × HasKey key x) (update_run r.id (complete (some d.id)) rs)
  unfolding resolve_dataset_type
  complete-All r rs ds d h own links keys =
      update_run-All (λ x. IsLinked ds x × HasKey key x) r.id (complete (some d.id)) rs
        (λ x p e. (complete-IsLinked r ds d h x (p.1 ∙ ap key e ∙ sym own), p.1))
        (All-both _ _ rs links keys)

  step-IsConsistent :
      (r : ProcessRun) {db db' : Db}
      → Step r db db'
      → HasKey key r
      → IsConsistent key db
      → IsConsistent key db'
  unfolding resolve_dataset_type
  step-IsConsistent r (wait db) own h = h
  step-IsConsistent r (fail db) own (ds, links, keys) = (
    ds,
    update_run-All (IsLinked db.datasets) r.id (set_run_status PipelineRunStatus.failed)
        db.process_runs (λ x p e c. cc) links,
    update_run-All (HasKey key) r.id (set_run_status PipelineRunStatus.failed) db.process_runs
        (λ x p e. p) keys,
  )
  step-IsConsistent r (link db d found) own (ds, links, keys) =
      let both = complete-All r db.process_runs db.datasets d found own links keys in
      (ds, All-map (λ x p. p.0) _ both, All-map (λ x p. p.1) _ both)
  step-IsConsistent r (add db d new same id) own (ds, links, keys) =
      let after = db.datasets ++ (d ∷ []) in
      let both =
        complete-All r db.process_runs after d (find-snoc (output_key r) db.datasets d new same) own
          (All-map (grown-IsLinked db.datasets (d ∷ [])) _ links) keys in
      (
        snoc-Distinct d db.datasets (rw same new) ds,
        All-map (λ x p. p.0) _ both,
        All-map (λ x p. p.1) _ both,
      )

  module _ (st : Storage) {F : Type 0}
      (get_dag_run : String → String → Exec Exn F DagRunStatus) where
    -- A tick of the poller, whatever the object store and Airflow answer and wherever it stops, keeps
    -- the keys of the datasets distinct, and every COMPLETED run linked to the dataset of its output;
    -- the primary key of a run has to determine its output, and goes on doing so.
    pub poll_once-IsConsistent :
        (runtime_up : F → Bool) (s : Backend st F)
        → IsConsistent key s.site.db
        → IsConsistent key (poll_once st get_dag_run runtime_up s).1.site.db
    poll_once-IsConsistent runtime_up s h =
        (poll_once-Holds (IsConsistent key) (HasKey key) (λ db c. c.2)
            (λ r db db' step own c. step-IsConsistent r step own c) st get_dag_run runtime_up).at
          s h
