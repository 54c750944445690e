-- ===== src/Poller/Whole/Run.antt =====
-- What a tick makes of one run among the others that it looks at.
use innovativeproject_pm_gen.Base.{
  String, ◌≡◌, refl, sym, ap, subst, ◌∙◌, Bool, true, Option, none, some, List, [], ◌∷◌, ◌++◌, All,
  Bool-cases, inl, inr,
}
use innovativeproject_pm_gen.Base.Exec.{Exec, bind_ok, ◌>>◌, ◌>>=◌, gets, pure}
use innovativeproject_pm_gen.Base.Result.{Result, ok}
use innovativeproject_pm_gen.Errors.{Exn}
use innovativeproject_pm_gen.Schemas.{DatasetType, Dataset, DagRunStatus, ProcessRun}
use innovativeproject_pm_gen.S3.{Storage, missing}
use innovativeproject_pm_gen.S3.Laws.{IsVisible}
use innovativeproject_pm_gen.Store.{find_by_key, running_runs, is_running}
use innovativeproject_pm_gen.Poller.{
  Backend, output_key, complete, derive_pm_metadata_s3_key, finalize, finalize_all, poll_once,
  poll_running,
}
use innovativeproject_pm_gen.Poller.Steps.{finalize-Step}
use innovativeproject_pm_gen.Poller.Progress.{IsFinished, finalize-IsFinished, finalize-waits}
use innovativeproject_pm_gen.Poller.Returns.{IsHandled, finalize-ok, finalize_all-ok}
use innovativeproject_pm_gen.Poller.Whole.{
  find_run, AreOthers, find_run-update, Step-other, Step-datasets, IsVisible-same, finalize-objects,
  objects_of,
}

abbrev IsRunning : ProcessRun → Type 0
IsRunning x = is_running x.status ≡ true

running_runs-IsRunning : (rs : List ProcessRun) → All IsRunning (running_runs rs)
unfolding running_runs
running_runs-IsRunning [] = tt
running_runs-IsRunning (x ∷ rs) = elim (Bool-cases (is_running x.status)) [
  | inl e ↦ rw e (e, running_runs-IsRunning rs)
  | inr e ↦ rw e (running_runs-IsRunning rs)
]

All-middle :
    (xs : List ProcessRun) (r : ProcessRun) (ys : List ProcessRun)
    → All IsRunning (xs ++ r ∷ ys)
    → IsRunning r
All-middle [] r ys h = h.0
All-middle (x ∷ xs) r ys h = All-middle xs r ys h.1

module _ (st : Storage) {F : Type 0} (get_dag_run : String → String → Exec Exn F DagRunStatus)
    (handled : (dag_id run_id : String) (f : F) → IsHandled (get_dag_run dag_id run_id f).0)
    (r : ProcessRun) where
  abbrev step : ProcessRun → Backend st F → Backend st F
  step x s = (finalize st get_dag_run x s).1

  abbrev all : List ProcessRun → Backend st F → Backend st F
  all rs s = (finalize_all st get_dag_run rs s).1

  -- The row of the run in the database.
  abbrev row_in : Backend st F → Option ProcessRun
  row_in s = find_run r.id s.site.db.process_runs

  all-cons :
      (x : ProcessRun) (rs : List ProcessRun) (s : Backend st F)
      → all (x ∷ rs) s ≡ all rs (step x s)
  unfolding finalize_all ◌>>◌
  all-cons x rs s =
      ap (λ p. p.1)
        (bind_ok (finalize st get_dag_run x) (λ u. finalize_all st get_dag_run rs)
          (ap (λ a. (a, step x s)) (finalize-ok st get_dag_run handled x s)))

  all-append : (xs ys : List ProcessRun) (s : Backend st F) → all (xs ++ ys) s ≡ all ys (all xs s)
  unfolding finalize_all pure
  all-append [] ys s = refl
  all-append (x ∷ xs) ys s =
      all-cons x (xs ++ ys) s ∙ all-append xs ys (step x s) ∙ ap (all ys) (sym (all-cons x xs s))

  -- The steps for other runs.
  others-row :
      (xs : List ProcessRun) (s : Backend st F) → AreOthers r.id xs → row_in (all xs s) ≡ row_in s
  unfolding finalize_all pure
  others-row [] s h = refl
  others-row (x ∷ xs) s (p, h) =
      ap row_in (all-cons x xs s)
      ∙ others-row xs (step x s) h
      ∙ Step-other r.id x p (finalize-Step st get_dag_run x s)

  all-objects :
      (xs : List ProcessRun) (s : Backend st F)
      → objects_of st get_dag_run (all xs s) ≡ s.site.objects
  unfolding finalize_all pure
  all-objects [] s = refl
  all-objects (x ∷ xs) s =
      ap (objects_of st get_dag_run) (all-cons x xs s)
      ∙ all-objects xs (step x s)
      ∙ finalize-objects st get_dag_run x s

  all-datasets :
      (k : String × DatasetType) (xs : List ProcessRun) (s : Backend st F) {d : Dataset}
      → find_by_key k s.site.db.datasets ≡ some d
      → find_by_key k (all xs s).site.db.datasets ≡ some d
  unfolding finalize_all pure
  all-datasets k [] s h = h
  all-datasets k (x ∷ xs) s {d} h =
      ap (λ (t : Backend st F). find_by_key k t.site.db.datasets) (all-cons x xs s)
      ∙ all-datasets k xs (step x s) (Step-datasets k x (finalize-Step st get_dag_run x s) h)

  -- The tick returned, the run is COMPLETED, and it is linked to the dataset under the key of its output.
  pub record IsCompleted (after : Result Exn (Unit {0}) × Backend st F) : Type 0 where
    pub returns : after.0 ≡ ok tt
    pub dataset : Dataset
    pub registered : find_by_key (output_key r) after.1.site.db.datasets ≡ some dataset
    pub completed : row_in after.1 ≡ some (complete (some dataset.id) r)

  module _ (success : (f : F) → (get_dag_run r.dag_id r.run_id f).0 ≡ ok DagRunStatus.success)
      (runtime_up : F → Bool) (s : Backend st F) (xs ys : List ProcessRun)
      (up : runtime_up s.flow ≡ true) (running : running_runs s.site.db.process_runs ≡ xs ++ r ∷ ys)
      (before_it : AreOthers r.id xs) (after_it : AreOthers r.id ys) (row : row_in s ≡ some r) where
    abbrev reached : Backend st F
    reached = all xs s

    abbrev done : Backend st F
    done = step r reached

    answer :
        get_dag_run r.dag_id r.run_id reached.flow
        ≡ (ok DagRunStatus.success, (get_dag_run r.dag_id r.run_id reached.flow).1)
    answer = ap (λ a. (a, (get_dag_run r.dag_id r.run_id reached.flow).1)) (success reached.flow)

    tick-ok : (poll_once st get_dag_run runtime_up s).0 ≡ ok tt
    unfolding poll_once poll_running ◌>>=◌ gets
    tick-ok = rw up (finalize_all-ok st get_dag_run handled _ s)

    tick-all : (poll_once st get_dag_run runtime_up s).1 ≡ all ys done
    unfolding poll_once poll_running ◌>>=◌ gets
    tick-all = rw (up, running) (all-append xs (r ∷ ys) s ∙ all-cons r ys reached)

    row_reached : row_in reached ≡ some r
    row_reached = others-row xs s before_it ∙ row

    seen_there :
        {o : Option String}
        → missing st r.output_s3_key s.site.objects ≡ o
        → missing st r.output_s3_key reached.site.objects ≡ o
    seen_there h = ap (λ x. missing st r.output_s3_key x) (all-objects xs s) ∙ h

    reached-IsCompleted :
        IsFinished st get_dag_run r reached (finalize st get_dag_run r reached)
        → IsCompleted (poll_once st get_dag_run runtime_up s)
    reached-IsCompleted f = record {
      returns = tick-ok;
      dataset = f.dataset;
      registered =
          ap (λ (t : Backend st F). find_by_key (output_key r) t.site.db.datasets) tick-all
          ∙ all-datasets (output_key r) ys done f.registered;
      completed =
          ap row_in tick-all
          ∙ others-row ys done after_it
          ∙ ap (find_run r.id) f.completed
          ∙ find_run-update r.id (complete (some f.dataset.id)) reached.site.db.process_runs
              (λ x. refl) row_reached;
    }

    -- If a RUNNING run is one of those that a tick looks at, and no other of them has its id, Airflow
    -- reports it as a success whenever it is asked, and raises nothing but its own errors for any run,
    -- and the output and metadata of the run can be seen in the object store, then the tick returns
    -- without an exception, with the run COMPLETED and linked to the dataset under the key of its output,
    -- whatever becomes of the runs before it and after it.
    pub poll_once-IsCompleted :
        missing st r.output_s3_key s.site.objects ≡ none
        → IsVisible (derive_pm_metadata_s3_key r) s.site
        → IsCompleted (poll_once st get_dag_run runtime_up s)
    poll_once-IsCompleted seen meta = reached-IsCompleted (
        finalize-IsFinished st get_dag_run r reached answer (seen_there seen) (
          IsVisible-same (derive_pm_metadata_s3_key r) s.site reached.site (all-objects xs s) meta))

    -- If, under the same conditions, the output of the run cannot be seen, then the tick returns without
    -- an exception and the row of the run is what it was, RUNNING, so that the run is looked at again.
    pub poll_once-waits :
        {exc : String}
        → missing st r.output_s3_key s.site.objects ≡ some exc
        → ((poll_once st get_dag_run runtime_up s).0 ≡ ok tt)
          × (row_in (poll_once st get_dag_run runtime_up s).1 ≡ some r)
          × (is_running r.status ≡ true)
    poll_once-waits h = (
      tick-ok,
      ap row_in tick-all
          ∙ others-row ys done after_it
          ∙ ap (λ p. row_in p.1) (finalize-waits st get_dag_run r reached answer (seen_there h))
          ∙ row_reached,
      (All-middle xs r ys
          (subst (All IsRunning) running (running_runs-IsRunning s.site.db.process_runs))),
    )
