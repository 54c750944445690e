-- ===== src/Poller/Whole.antt =====
-- What the step for one run leaves to the other runs of a tick.
pub mod Run
use innovativeproject_pm_gen.Base.{
  ℕ, String, ◌≡◌, refl, sym, ap, subst, ◌∙◌, Bool, true, false, Option, none, some, List, [], ◌∷◌,
  ◌++◌, All, eqb, arith, if◌then◌else◌, Option-cases, inl, inr,
}
use innovativeproject_pm_gen.Base.Exec.{
  Exec, bind_ok, ◌>>◌, ◌>>=◌, gets, pure, catch, lift, modify, raise,
}
use innovativeproject_pm_gen.Base.Result.{Result, ok, err}
use innovativeproject_pm_gen.Errors.{Exn, Kind, airflow}
use innovativeproject_pm_gen.Schemas.{DatasetType, Dataset, DagRunStatus, ProcessRun}
use innovativeproject_pm_gen.S3.{Storage, Site, missing}
use innovativeproject_pm_gen.S3.Laws.{IsVisible, register-cases}
use innovativeproject_pm_gen.Store.{Db, find_by_key, update_run, running_runs}
use innovativeproject_pm_gen.Store.Laws.{find-append}
use innovativeproject_pm_gen.Poller.{
  Backend, output_key, complete, derive_pm_metadata_s3_key, finalize, finalize_all, poll_once,
  poll_running, register_output, resolve_dataset_type, unknown_or_later, on_answer, asked, ask,
  on_flow, on_status, update, edit_db,
}
use innovativeproject_pm_gen.Poller.Steps.{
  Step, finalize-Step, register_output-later, register_output-link, register_output-add, found,
}
use innovativeproject_pm_gen.Poller.Progress.{IsFinished, finalize-IsFinished, finalize-waits}
use innovativeproject_pm_gen.Poller.Returns.{IsHandled, finalize-ok, finalize_all-ok}

-- The row with the id.
unfoldable pub find_run : ℕ → List ProcessRun → Option ProcessRun
find_run i [] = none
find_run i (r ∷ rs) = let rest = find_run i rs in if eqb r.id i then some r else rest

-- None of the runs has the id.
abbrev pub AreOthers : ℕ → List ProcessRun → Type 0
AreOthers i rs = All (λ (x : ProcessRun). eqb x.id i ≡ false) rs

pub find_run-other :
    (i j : ℕ) (f : ProcessRun → ProcessRun) (rs : List ProcessRun)
    → ((r : ProcessRun) → (f r).id ≡ r.id)
    → eqb j i ≡ false
    → find_run i (update_run j f rs) ≡ find_run i rs
unfolding find_run update_run
find_run-other i j f [] same h = refl
find_run-other i j f (r ∷ rs) same h = ground (arith, same r, find_run-other i j f rs same h)

pub find_run-update :
    (i : ℕ) (f : ProcessRun → ProcessRun) (rs : List ProcessRun) {r : ProcessRun}
    → ((x : ProcessRun) → (f x).id ≡ x.id)
    → find_run i rs ≡ some r
    → find_run i (update_run i f rs) ≡ some (f r)
unfolding find_run update_run
find_run-update i f [] same h = cc
find_run-update i f (x ∷ rs) {r} same h =
    ground (arith, same x, find_run-update i f rs {r = r} same)

pub find_run-append :
    (i : ℕ) (rs : List ProcessRun) (r : ProcessRun)
    → AreOthers i rs
    → r.id ≡ i
    → find_run i (rs ++ (r ∷ [])) ≡ some r
unfolding find_run
find_run-append i [] r h e = ground arith
find_run-append i (x ∷ rs) r (p, h) e = ground (arith, p, find_run-append i rs r h e)

-- A step for another run leaves the row as it is, and every dataset found stays.
pub Step-other :
    (i : ℕ) (x : ProcessRun) {db db' : Db}
    → eqb x.id i ≡ false
    → Step x db db'
    → find_run i db'.process_runs ≡ find_run i db.process_runs
Step-other i x h (Step.wait db) = refl
Step-other i x h (Step.fail db) = find_run-other i x.id _ db.process_runs (λ r. refl) h
Step-other i x h (Step.link db d e) = find_run-other i x.id _ db.process_runs (λ r. refl) h
Step-other i x h (Step.add db d e k n) = find_run-other i x.id _ db.process_runs (λ r. refl) h

pub Step-datasets :
    (k : String × DatasetType) (x : ProcessRun) {db db' : Db} {d : Dataset}
    → Step x db db'
    → find_by_key k db.datasets ≡ some d
    → find_by_key k db'.datasets ≡ some d
Step-datasets k x (Step.wait db) h = h
Step-datasets k x (Step.fail db) h = h
Step-datasets k x (Step.link db d e) h = h
Step-datasets k x (Step.add db d e q n) h = find-append k db.datasets (d ∷ []) h

pub IsVisible-same :
    {st : Storage} (o : Option String) (s t : Site st)
    → t.objects ≡ s.objects
    → IsVisible o s
    → IsVisible o t
IsVisible-same none s t e h = tt
IsVisible-same {st} (some key) s t e h = subst (λ x. missing st key x ≡ none) (sym e) h

module _ (st : Storage) {F : Type 0} (get_dag_run : String → String → Exec Exn F DagRunStatus) where
  abbrev pub objects_of : Backend st F → st.Objects
  objects_of s = s.site.objects

  register_output-objects :
      (r : ProcessRun) (s : Backend st F)
      → objects_of (register_output st get_dag_run r s).1 ≡ s.site.objects
  register_output-objects r s =
      elim (register-cases r.user_uuid r.output_s3_key (some r.output_name) (resolve_dataset_type r)
        (derive_pm_metadata_s3_key r) s.site) [
          | inr (d, h) ↦ rw (register_output-later st get_dag_run r s d h) refl
          | inl h ↦ elim (Option-cases (found st get_dag_run r s)) [
            | inl k ↦ rw (register_output-add st get_dag_run r s h k) refl
            | inr (d, k) ↦ rw (register_output-link st get_dag_run r s d h k) refl
          ]
        ]

  kind-objects :
      (r : ProcessRun) (s : Backend st F) (k : Kind)
      → objects_of ((unknown_or_later st get_dag_run k >>= on_answer st get_dag_run r) s).1
        ≡ s.site.objects
  unfolding unknown_or_later on_answer on_status ◌>>=◌ pure update edit_db modify
  kind-objects r s Kind.not_found = refl
  kind-objects r s _ = refl

  asked-objects :
      (r : ProcessRun) (s : Backend st F) (a : Result Exn DagRunStatus)
      → objects_of
          ((catch (lift a >>= λ x. pure (some x)) (asked st get_dag_run)
              >>= on_answer st get_dag_run r)
            s).1
        ≡ s.site.objects
  unfolding catch lift asked on_answer on_status ◌>>=◌ pure raise update edit_db modify
  asked-objects r s (ok DagRunStatus.success) = register_output-objects r s
  asked-objects r s (ok DagRunStatus.failed) = refl
  asked-objects r s (ok _) = refl
  asked-objects r s (err (airflow e)) = kind-objects r s e.kind
  asked-objects r s (err _) = refl

  -- The object store is only read.
  pub finalize-objects :
      (r : ProcessRun) (s : Backend st F)
      → objects_of (finalize st get_dag_run r s).1 ≡ s.site.objects
  unfolding finalize ask ◌>>=◌ catch on_flow pure lift
  finalize-objects r s = let (a, flow) = get_dag_run r.dag_id r.run_id s.flow in step a flow refl
    where
      step :
          (a : Result Exn DagRunStatus) (flow : F)
          → get_dag_run r.dag_id r.run_id s.flow ≡ (a, flow)
          → objects_of (finalize st get_dag_run r s).1 ≡ s.site.objects
      step (ok x) flow h = rw h (asked-objects r (record s { flow = flow }) (ok x))
      step (err e) flow h = rw h (asked-objects r (record s { flow = flow }) (err e))
