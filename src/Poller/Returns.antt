-- ===== src/Poller/Returns.antt =====
-- A tick goes through all the runs: no answer of Airflow and no state of the store stops it.
use innovativeproject_pm_gen.Base.{
  String, ◌≡◌, refl, ◌∙◌, ap, some, inl, inr, Option-cases, Bool-cases, List, [], ◌∷◌, Bool,
}
use innovativeproject_pm_gen.Base.Exec.{Exec, ◌>>=◌, ◌>>◌, pure, catch, lift, modify, gets, bind_ok}
use innovativeproject_pm_gen.Base.Result.{Result, ok, err}
use innovativeproject_pm_gen.Errors.{Kind, airflow, AirflowError, Exn}
use innovativeproject_pm_gen.S3.{Storage}
use innovativeproject_pm_gen.Schemas.{ProcessRun, DagRunStatus}
use innovativeproject_pm_gen.Poller.{
  derive_pm_metadata_s3_key, resolve_dataset_type, edit_db, update, register_output, on_status,
  on_flow, poll_running, on_answer, ask, Backend, unknown_or_later, poll_once, finalize_all,
  finalize, asked,
}
use innovativeproject_pm_gen.S3.Laws.{register-cases}
use innovativeproject_pm_gen.Poller.Steps.{
  register_output-link, register_output-add, found, register_output-later,
}

-- A status, or one of the exceptions of the Airflow integration.
pub data IsHandled : Result Exn DagRunStatus → Type 0 where
  answered : (x : DagRunStatus) → IsHandled (ok x)
  refused : (e : AirflowError) → IsHandled (err (airflow e))

module _ (st : Storage) {F : Type 0} (get_dag_run : String → String → Exec Exn F DagRunStatus) where
  register_output-ok :
      (r : ProcessRun) (s : Backend st F) → (register_output st get_dag_run r s).0 ≡ ok tt
  register_output-ok r s =
      elim (register-cases r.user_uuid r.output_s3_key (some r.output_name) (resolve_dataset_type r)
        (derive_pm_metadata_s3_key r) s.site) [
          | inr (d, h) ↦ rw (register_output-later st get_dag_run r s d h) refl
          | inl h ↦ elim (Option-cases (found st get_dag_run r s)) [
            | inl k ↦ rw (register_output-add st get_dag_run r s h k) refl
            | inr (d, k) ↦ rw (register_output-link st get_dag_run r s d h k) refl
          ]
        ]

  kind-ok :
      (r : ProcessRun) (s : Backend st F) (k : Kind)
      → ((unknown_or_later st get_dag_run k >>= on_answer st get_dag_run r) s).0 ≡ ok tt
  unfolding unknown_or_later on_answer on_status ◌>>=◌ pure update edit_db modify
  kind-ok r s Kind.not_found = refl
  kind-ok r s _ = refl

  asked-ok :
      (r : ProcessRun) (s : Backend st F) (a : Result Exn DagRunStatus)
      → IsHandled a
      → ((catch (lift a >>= λ x. pure (some x)) (asked st get_dag_run)
            >>= on_answer st get_dag_run r)
          s).0
        ≡ ok tt
  unfolding catch lift asked on_answer on_status ◌>>=◌ pure update edit_db modify
  asked-ok r s _ (answered DagRunStatus.success) = register_output-ok r s
  asked-ok r s _ (answered DagRunStatus.failed) = refl
  asked-ok r s _ (answered _) = refl
  asked-ok r s _ (refused e) = kind-ok r s e.kind

  module _
      (handled : (dag_id run_id : String) (f : F) → IsHandled (get_dag_run dag_id run_id f).0) where
    pub finalize-ok : (r : ProcessRun) (s : Backend st F) → (finalize st get_dag_run r s).0 ≡ ok tt
    unfolding finalize ask ◌>>=◌ catch on_flow pure lift
    finalize-ok r s =
        let (a, flow) = get_dag_run r.dag_id r.run_id s.flow in
        step a flow refl (handled r.dag_id r.run_id s.flow)
      where
        step :
            (a : Result Exn DagRunStatus) (flow : F)
            → get_dag_run r.dag_id r.run_id s.flow ≡ (a, flow)
            → IsHandled a
            → (finalize st get_dag_run r s).0 ≡ ok tt
        step (ok x) flow h k = rw h (asked-ok r (record s { flow = flow }) (ok x) k)
        step (err e) flow h k = rw h (asked-ok r (record s { flow = flow }) (err e) k)

    pub finalize_all-ok :
        (rs : List ProcessRun) (s : Backend st F) → (finalize_all st get_dag_run rs s).0 ≡ ok tt
    unfolding finalize_all ◌>>◌ pure
    finalize_all-ok [] s = refl
    finalize_all-ok (r ∷ rs) s =
        let t = (finalize st get_dag_run r s).1 in
        ap (λ p. p.0)
          (bind_ok (finalize st get_dag_run r) (λ u. finalize_all st get_dag_run rs)
            (ap (λ x. (x, t)) (finalize-ok r s)))
        ∙ finalize_all-ok rs t

    -- A tick returns without an exception if the Airflow service raises none but its own errors;
    -- no state of the object store and of the database makes it raise.
    pub poll_once-ok :
        (runtime_up : F → Bool) (s : Backend st F)
        → (poll_once st get_dag_run runtime_up s).0 ≡ ok tt
    unfolding poll_once poll_running ◌>>=◌ gets pure
    poll_once-ok runtime_up s = elim (Bool-cases (runtime_up s.flow)) [
      | inr down ↦ rw down refl
      | inl up ↦ rw up (finalize_all-ok _ s)
    ]
