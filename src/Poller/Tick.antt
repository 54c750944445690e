-- ===== src/Poller/Tick.antt =====
-- A tick keeps what each of its steps keeps.
use innovativeproject_pm_gen.Base.{Bool, All, Bool-cases, inl, inr, List, [], ◌∷◌, String}
use innovativeproject_pm_gen.Base.Exec.{Exec, gets, pure, ◌>>=◌}
use innovativeproject_pm_gen.Base.Exec.Keeps.{Keeps, Keeps-pure, Keeps-then}
use innovativeproject_pm_gen.Errors.{Exn}
use innovativeproject_pm_gen.Poller.{Backend, finalize, finalize_all, poll_once, poll_running}
use innovativeproject_pm_gen.Poller.Steps.{Step, finalize-Step}
use innovativeproject_pm_gen.S3.{Storage}
use innovativeproject_pm_gen.Schemas.{DagRunStatus, ProcessRun}
use innovativeproject_pm_gen.Store.{Db}
use innovativeproject_pm_gen.Store.Laws.{running_runs-All}

-- `Own` holds of every run of a database with `P`, and lets each step for such a run keep `P`.
module _ (P : Db → Type 0) (Own : ProcessRun → Type 0)
    (owns : (db : Db) → P db → All Own db.process_runs)
    (keep : (r : ProcessRun) (db db' : Db) → Step r db db' → Own r → P db → P db') (st : Storage)
    {F : Type 0} (get_dag_run : String → String → Exec Exn F DagRunStatus) where
  abbrev Holds : Backend st F → Type 0
  Holds s = P s.site.db

  finalize-Keeps : (r : ProcessRun) → Own r → Keeps Holds (finalize st get_dag_run r)
  finalize-Keeps r own = record { at = λ s h. keep r _ _ (finalize-Step st get_dag_run r s) own h }

  finalize_all-Keeps :
      (rs : List ProcessRun) → All Own rs → Keeps Holds (finalize_all st get_dag_run rs)
  unfolding finalize_all
  finalize_all-Keeps [] h = Keeps-pure tt
  finalize_all-Keeps (r ∷ rs) h = Keeps-then _ _ (finalize-Keeps r h.0) (finalize_all-Keeps rs h.1)

  pub poll_once-Holds : (runtime_up : F → Bool) → Keeps Holds (poll_once st get_dag_run runtime_up)
  unfolding poll_once poll_running ◌>>=◌ gets pure
  poll_once-Holds runtime_up = record {
    at = λ s h. elim (Bool-cases (runtime_up s.flow)) [
      | inr down ↦ rw down h
      | inl up ↦ rw up (
          (finalize_all-Keeps _ (running_runs-All Own s.site.db.process_runs (owns s.site.db h))).at
            s h)
    ];
  }
