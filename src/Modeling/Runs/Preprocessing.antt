-- ===== src/Modeling/Runs/Preprocessing.antt =====
-- What a request for a preprocessing run leaves.
use innovativeproject_pm_gen.Base.{
  List, ℕ, String, true, Option, none, some, ◌≡◌, refl, sym, subst, arith,
}
use innovativeproject_pm_gen.Base.Exec.{gets, ◌>>=◌}
use innovativeproject_pm_gen.Base.Exec.Hoare.{
  Hoare, After, Hoare-pure, Hoare-raise, Hoare-lift, Hoare-bind, Hoare-then, Hoare-frame,
  Hoare-weaken,
}
use innovativeproject_pm_gen.Base.Result.{Result, ok, err}
use innovativeproject_pm_gen.Base.Value.{get}
use innovativeproject_pm_gen.Errors.{Exn, preprocessing_config}
use innovativeproject_pm_gen.Schemas.{Dataset}
use innovativeproject_pm_gen.Store.{find_by_id}
use innovativeproject_pm_gen.Store.Ids.{id-find_by_id}
use innovativeproject_pm_gen.Store.Tables.{refers}
use innovativeproject_pm_gen.S3.{Storage, Site, get_dataset, found_or_404}
use innovativeproject_pm_gen.SparkConf.{DagConf, to_airflow_conf, to_conf_dict}
use innovativeproject_pm_gen.Airflow.Service.Actions.{ActionResponse}
use innovativeproject_pm_gen.Poller.{Backend}
use innovativeproject_pm_gen.Modeling.{Call}
use innovativeproject_pm_gen.Modeling.Conf.{
  Outside, Prepared, ModelingRunRequest, new_run_id, prepare, prepared_or_422,
}
use innovativeproject_pm_gen.Modeling.Runs.{
  prepare_modeling, record_modeling, modeling_run, trigger_modeling_run,
}
use innovativeproject_pm_gen.Modeling.Runs.Laws.{Tells, IsAsked, trigger-IsAsked, on_site-Reads}
use innovativeproject_pm_gen.Modeling.Runs.Started.{IsStarted, Outcome, record-IsWritten, started}
use innovativeproject_pm_gen.Autofill.Form.{preprocessing_feature_engineering}

prepared-Tells :
    (r : Result Exn DagConf) (p : Prepared)
    → prepared_or_422 r ≡ ok p
    → Tells p.conf p.output_prefix
unfolding prepared_or_422 to_airflow_conf to_conf_dict get
prepared-Tells (ok c) p h =
    let same : prepared_of c ≡ p = cc in
    subst (λ (q : Prepared). Tells q.conf q.output_prefix) same
      (to_conf_dict c.dag_args, refl, refl)
  where
    prepared_of : DagConf → Prepared
    prepared_of c = record {
      conf = to_airflow_conf c;
      output_prefix = c.dag_args.output_path_prefix;
    }
prepared-Tells (err (preprocessing_config message)) p h = absurd (ground (arith, h))
prepared-Tells (err e) p h = absurd (ground (arith, h))

-- The dataset of an id that was found can be referred to.
found-refers :
    (i : ℕ) (d : Dataset) (ds : List Dataset)
    → find_by_id i ds ≡ some d
    → refers (some d.id) ds ≡ true
unfolding refers
found-refers i d ds h =
    let own : find_by_id d.id ds ≡ some d =
      subst (λ k. find_by_id k ds ≡ some d) (sym (id-find_by_id i ds h)) h in
    ground (arith, own)

prepare-Tells :
    {F : Type 0} (o : Outside F) (run_id : String) (d : Dataset) (body : ModelingRunRequest)
    (p : Prepared)
    → prepare o run_id preprocessing_feature_engineering d body ≡ ok p
    → Tells p.conf p.output_prefix
unfolding prepare
prepare-Tells o run_id d body p h = prepared-Tells _ p h

module _ {F : Type 0} (o : Outside F) {st : Storage} where
  -- What the checks establish of the dataset and the configuration.
  abbrev Ready : Site st → Dataset × Prepared → Type 0
  Ready x q = Tells q.1.conf q.1.output_prefix × (refers (some q.0.id) x.db.datasets ≡ true)

  found_or_404-refers :
      (i : ℕ) (x : Site st) (found : Option Dataset)
      → find_by_id i x.db.datasets ≡ found
      → Hoare
          (λ y. y ≡ x)
          (λ d y. (y ≡ x) × (refers (some d.id) x.db.datasets ≡ true))
          (λ y. y ≡ x)
          (found_or_404 st i found)
  unfolding found_or_404
  found_or_404-refers i x none h = Hoare-raise _ (λ y p. p)
  found_or_404-refers i x (some d) h = Hoare-pure d (λ y p. (p, found-refers i d x.db.datasets h))

  get_dataset-refers :
      (i : ℕ) (x : Site st)
      → Hoare
          (λ y. y ≡ x)
          (λ d y. (y ≡ x) × (refers (some d.id) x.db.datasets ≡ true))
          (λ y. y ≡ x)
          (get_dataset st i)
  unfolding get_dataset ◌>>=◌ gets
  get_dataset-refers i x = record {
    at = λ y p.
        subst
          (λ z.
            After (λ d y. (y ≡ x) × (refers (some d.id) x.db.datasets ≡ true)) (λ y. y ≡ x)
              (get_dataset st i z))
          (sym p) ((found_or_404-refers i x (find_by_id i x.db.datasets) refl).at x refl);
  }

  prepare_modeling-Ready :
      (call : Call) (body : ModelingRunRequest) (x : Site st)
      → Hoare
          (λ y. y ≡ x)
          (λ q y. (y ≡ x) × Ready x q)
          (λ y. y ≡ x)
          (prepare_modeling o st call preprocessing_feature_engineering body)
  unfolding prepare_modeling
  prepare_modeling-Ready call body x = Hoare-bind _ _ (get_dataset-refers body.dataset_id x) (λ d.
      Hoare-then {Q = λ u y. Known d y} _ _ (Hoare-lift _ (λ y u p e. p) (λ y p. p.0)) (λ u.
        Hoare-then {Q = λ u y. Known d y} _ _ (Hoare-lift _ (λ y u p e. p) (λ y p. p.0)) (λ u.
          Hoare-bind {Q = λ (p : Prepared) y. Known d y × Tells p.conf p.output_prefix} _ _
            (Hoare-lift _ (λ y p q e. (q, prepare-Tells o _ d body p e)) (λ y p. p.0))
            (λ p. Hoare-pure _ (λ y q. (q.0.0, (q.1, q.0.1)))))))
    where
      Known : Dataset → Site st → Type 0
      Known d y = (y ≡ x) × (refers (some d.id) x.db.datasets ≡ true)

  modeling_run-IsStarted :
      (call : Call) (d : Dataset) (p : Prepared) (action : ActionResponse) (before : Backend st F)
      → Ready before.site (d, p)
      → Hoare
          (λ s.
            IsAsked o call preprocessing_feature_engineering
              (new_run_id call preprocessing_feature_engineering)
              p.conf
              before
              action
              s)
          (λ c s. IsStarted o call preprocessing_feature_engineering before c s)
          (λ s. s.site ≡ before.site)
          (modeling_run o st call preprocessing_feature_engineering d p action)
  unfolding modeling_run record_modeling
  modeling_run-IsStarted call d p action before ready =
      Hoare-then _ _
        (Hoare-bind
          {Q = λ (uuid : ℕ) s.
            IsAsked o call preprocessing_feature_engineering
              (new_run_id call preprocessing_feature_engineering) p.conf before action s}
          _ _ (Hoare-lift _ (λ s u q e. q) (λ s q. q.0))
          (λ uuid.
            Hoare-weaken _
              (record-IsWritten o call preprocessing_feature_engineering p.conf before action _
                ready.1)
              (λ u s w.
                started o call preprocessing_feature_engineering before p.conf action uuid _ _ _
                  ready.0 s w)))
        (λ u. Hoare-pure _ (λ s q. q))

  -- A request for a preprocessing run that is answered has asked Airflow for a run with the
  -- configuration in the answer; unless the run's id was on record, there is one row more, of that id,
  -- RUNNING, for that DAG, whose output key is the prefix under which the configuration tells the job to
  -- write. If the request raises, the database and the object store are as they were.
  pub trigger_modeling_run-Outcome :
      (call : Call) (body : ModelingRunRequest) (before : Backend st F)
      → Outcome o call preprocessing_feature_engineering before
          (trigger_modeling_run o st call preprocessing_feature_engineering body before)
  unfolding trigger_modeling_run
  trigger_modeling_run-Outcome call body before =
      (Hoare-bind {P = λ s. s ≡ before} _ _
          (on_site-Reads o {Q = Ready before.site} _ before
            (prepare_modeling-Ready call body before.site))
          (λ p.
            Hoare-bind _ _
              (Hoare-frame (Ready before.site p) _ (
                trigger-IsAsked o call preprocessing_feature_engineering
                  (new_run_id call preprocessing_feature_engineering) p.1.conf before))
              (λ a. record {
                at = λ s q. (modeling_run-IsStarted call p.0 p.1 a before q.1).at s q.0;
              }))).at
        before refl
