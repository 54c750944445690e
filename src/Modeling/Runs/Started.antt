-- ===== src/Modeling/Runs/Started.antt =====
-- What a request for a run leaves: Airflow was asked, and the run is on record, or nothing is written.
use innovativeproject_pm_gen.Base.{ℕ, String, true, Option, some, ◌≡◌, refl, sym, ap, subst}
use innovativeproject_pm_gen.Base.Exec.Hoare.{
  Hoare, After, Hoare-pure, Hoare-asks, Hoare-lift, Hoare-bind, Hoare-then, Hoare-frame,
}
use innovativeproject_pm_gen.Base.Result.{Result, ok}
use innovativeproject_pm_gen.Base.Value.{Fields}
use innovativeproject_pm_gen.Errors.{Exn}
use innovativeproject_pm_gen.Schemas.{PipelineRunStatus, ProcessRun, TrainedModel}
use innovativeproject_pm_gen.Store.Tables.{refers}
use innovativeproject_pm_gen.S3.{Storage, Site}
use innovativeproject_pm_gen.Airflow.Service.Actions.{ActionResponse, or_text}
use innovativeproject_pm_gen.Poller.{Backend, on_site}
use innovativeproject_pm_gen.Modeling.{Call}
use innovativeproject_pm_gen.Modeling.Conf.{
  Outside, GenerateRunRequest, ModelingRunCreated, dag_id_of, process_name, new_run_id,
  output_prefix_of, comparison_path,
}
use innovativeproject_pm_gen.Modeling.Runs.{
  record_process_run, request, prepare_generate, generated_run, trigger_generate_run,
  new_process_run, created,
}
use innovativeproject_pm_gen.Modeling.Runs.Laws.{
  recorded, Tells, generate_conf-Tells, comparison_path-refers, record_process_run_lem, IsAsked,
  trigger-IsAsked, on_site-Reads,
}
use innovativeproject_pm_gen.Autofill.Form.{ProcessType, generate}

module _ {F : Type 0} (o : Outside F) {st : Storage} where
  -- Airflow was asked for the run that is told of; a row of it that is RUNNING is on record, unless its
  -- id was; and the job was told to write where the row says.
  pub record IsStarted (call : Call) (t : ProcessType) (before : Backend st F)
      (c : ModelingRunCreated) (after : Backend st F) : Type 0 where
    pub action : ActionResponse
    pub row : ProcessRun
    pub asked :
        o.trigger_dag
          (dag_id_of t)
          (request o st t (new_run_id call t) c.conf)
          (some call.identity)
          before.flow
        ≡ (ok action, after.flow)
    pub named : c.run_id ≡ or_text action.run_id (new_run_id call t)
    pub run_id : row.run_id ≡ c.run_id
    pub dag_id : row.dag_id ≡ dag_id_of t
    pub process_type : row.process_type ≡ process_name t
    pub running : row.status ≡ PipelineRunStatus.running
    pub told : Tells c.conf row.output_s3_key
    pub on_record : after.site.db ≡ recorded row before.site.db
    pub objects : after.site.objects ≡ before.site.objects

  -- The outcome of a route: the run, or an exception and a database that is as it was.
  abbrev pub Outcome :
      Call → ProcessType → Backend st F → Result Exn ModelingRunCreated × Backend st F → Type 0
  Outcome call t before =
      After (λ c after. IsStarted call t before c after) (λ after. after.site ≡ before.site)

  -- The checks of `prepare_generate` establish where the output goes, and the reference.
  abbrev Ready : Call → GenerateRunRequest → Site st → TrainedModel × Fields → Type 0
  Ready call body x p =
      Tells p.1 (output_prefix_of (new_run_id call generate))
      × (refers body.comparison_dataset_id x.db.datasets ≡ true)

  prepare_generate-Ready :
      (call : Call) (body : GenerateRunRequest) (x : Site st)
      → Hoare
          (λ y. y ≡ x)
          (λ p y. (y ≡ x) × Ready call body x p)
          (λ y. y ≡ x)
          (prepare_generate o st call body)
  unfolding prepare_generate
  prepare_generate-Ready call body x =
      Hoare-bind {Q = λ m y. y ≡ x} _ _ (Hoare-asks _ (λ y m p e. p) (λ y p. p)) (λ m.
        Hoare-bind {Q = λ path y. Known y} _ _
          (Hoare-asks _
            (λ y path p e. (
              p,
              comparison_path-refers body.comparison_dataset_id x.db
                  (subst (λ z. comparison_path body.comparison_dataset_id z.db ≡ ok path) p e),
            ))
            (λ y p. p))
          (λ path.
            Hoare-then {Q = λ u y. Known y} _ _ (Hoare-asks _ (λ y u p e. p) (λ y p. p.0)) (λ u.
              Hoare-then {Q = λ u y. Known y} _ _ (Hoare-asks _ (λ y u p e. p) (λ y p. p.0)) (λ u.
                Hoare-pure _ (λ y p.
                  (p.0, (generate_conf-Tells body (new_run_id call generate) m path, p.1)))))))
    where
      Known : Site st → Type 0
      Known y = (y ≡ x) × (refers body.comparison_dataset_id x.db.datasets ≡ true)

  -- The row was written, and nothing else since Airflow answered.
  abbrev pub IsWritten :
      Call
      → ProcessType
      → Fields
      → Backend st F
      → ActionResponse
      → ProcessRun
      → Backend st F
      → Type 0
  IsWritten call t conf before action row s =
      (s.site.db ≡ recorded row before.site.db)
      × (s.site.objects ≡ before.site.objects)
      × (o.trigger_dag (dag_id_of t) (request o st t (new_run_id call t) conf) (some call.identity)
            before.flow
          ≡ (ok action, s.flow))

  record_lem :
      (row : ProcessRun) (s : Backend st F)
      → refers row.input_dataset_id s.site.db.datasets ≡ true
      → on_site st (record_process_run o st row) s
        ≡ (ok tt, record s { site = record s.site { db = recorded row s.site.db } })
  unfolding on_site
  record_lem row s h = rw (record_process_run_lem o row s.site h) refl

  pub record-IsWritten :
      (call : Call) (t : ProcessType) (conf : Fields) (before : Backend st F)
      (action : ActionResponse) (row : ProcessRun)
      → refers row.input_dataset_id before.site.db.datasets ≡ true
      → Hoare
          (λ s. IsAsked o call t (new_run_id call t) conf before action s)
          (λ u s. IsWritten call t conf before action row s)
          (λ s. s.site ≡ before.site)
          (on_site st (record_process_run o st row))
  record-IsWritten call t conf before action row h = record {
    at = λ s q.
        rw
          (record_lem row s
            (subst (λ (x : Site st). refers row.input_dataset_id x.db.datasets ≡ true) (sym q.0) h))
          (ap (λ (x : Site st). recorded row x.db) q.0, ap (λ (x : Site st). x.objects) q.0, q.1);
  }

  abbrev pub started :
      (call : Call) (t : ProcessType) (before : Backend st F) (conf : Fields)
      (action : ActionResponse) (uuid : ℕ) (input : Option ℕ) (prefix name : String)
      → Tells conf prefix
      → let run_id = or_text action.run_id (new_run_id call t) in
        (s : Backend st F)
        → IsWritten call t conf before action
            (new_process_run o st call t run_id uuid input prefix name)
            s
        → IsStarted call t before (created o st t run_id action conf) s
  started call t before conf action uuid input prefix name told s w = record {
    action = action;
    row =
        new_process_run o st call t (or_text action.run_id (new_run_id call t)) uuid input prefix
          name;
    asked = w.2;
    named = refl;
    run_id = refl;
    dag_id = refl;
    process_type = refl;
    running = refl;
    told = told;
    on_record = w.0;
    objects = w.1;
  }

  generated_run-IsStarted :
      (call : Call) (body : GenerateRunRequest) (m : TrainedModel) (conf : Fields)
      (action : ActionResponse) (before : Backend st F)
      → Ready call body before.site (m, conf)
      → Hoare
          (λ s. IsAsked o call generate (new_run_id call generate) conf before action s)
          (λ c s. IsStarted call generate before c s)
          (λ s. s.site ≡ before.site)
          (generated_run o st call body m conf action)
  unfolding generated_run
  generated_run-IsStarted call body m conf action before ready =
      Hoare-bind
        {Q = λ (uuid : ℕ) s.
          IsAsked o call generate (new_run_id call generate) conf before action s}
        _ _ (Hoare-lift _ (λ s u p e. p) (λ s p. p.0))
        (λ uuid.
          Hoare-then _ _ (record-IsWritten call generate conf before action _ ready.1)
            (λ u. Hoare-pure _ (started call generate before conf action uuid _ _ _ ready.0)))

  -- A request to generate that is answered has asked Airflow for a run with the configuration in the
  -- answer; unless the run's id was on record, there is one row more, of that id, RUNNING, for that
  -- DAG, whose output key is the prefix under which the configuration tells the job to write. If the
  -- request raises, the database and the object store are as they were.
  pub trigger_generate_run-Outcome :
      (call : Call) (body : GenerateRunRequest) (before : Backend st F)
      → Outcome call generate before (trigger_generate_run o st call body before)
  unfolding trigger_generate_run
  trigger_generate_run-Outcome call body before =
      (Hoare-bind {P = λ s. s ≡ before} _ _
          (on_site-Reads o {Q = Ready call body before.site} _ before
            (prepare_generate-Ready call body before.site))
          (λ p.
            Hoare-bind _ _
              (Hoare-frame (Ready call body before.site p) _
                (trigger-IsAsked o call generate (new_run_id call generate) p.1 before))
              (λ a. record {
                at = λ s q. (generated_run-IsStarted call body p.0 p.1 a before q.1).at s q.0;
              }))).at
        before refl
