-- ===== src/Modeling/Runs/Laws.antt =====
-- What the parts of a route that starts a run do.
use innovativeproject_pm_gen.Base.{
  ℕ, ◌+◌, String, true, Option, none, some, List, [], ◌∷◌, ◌++◌, ◌≡◌, refl, sym, ap, ◌∙◌, arith,
  Option-cases, Bool-cases, inl, inr, if◌then◌else◌, subst,
}
use innovativeproject_pm_gen.Base.Exec.{pure, raise, catch}
use innovativeproject_pm_gen.Base.Exec.Hoare.{Hoare, After}
use innovativeproject_pm_gen.Base.Result.{Result, ok, err}
use innovativeproject_pm_gen.Base.Value.{Fields, get, get-put, get-put_ne, obj, str}
use innovativeproject_pm_gen.Errors.{Exn}
use innovativeproject_pm_gen.Schemas.{ProcessRun, TrainedModel}
use innovativeproject_pm_gen.Store.{Db, find_by_id}
use innovativeproject_pm_gen.Store.Tables.{has_run_id, refers, insert_process_run}
use innovativeproject_pm_gen.S3.{Storage, Site, S3, on_db}
use innovativeproject_pm_gen.Airflow.Service.Actions.{ActionResponse}
use innovativeproject_pm_gen.Poller.{Backend, on_site, on_flow}
use innovativeproject_pm_gen.Modeling.{Call}
use innovativeproject_pm_gen.Modeling.Conf.{
  Outside, GenerateRunRequest, comparison_path, generate_conf, generate_dag_args, put_kpis,
  output_prefix_of, dag_id_of,
}
use innovativeproject_pm_gen.Modeling.Runs.{record_process_run, trigger, request}
use innovativeproject_pm_gen.Autofill.Form.{ProcessType}

-- The database with one row more, unless the run is on record.
unfoldable pub recorded : ProcessRun → Db → Db
recorded r db = if has_run_id r.run_id db.process_runs then db else record db {
  process_runs = db.process_runs ++ (record r { id = db.next_process_id } ∷ []);
  next_process_id = db.next_process_id + 1;
}

-- The configuration tells the job to write its output under the prefix.
abbrev pub Tells : Fields → String → Type 0
Tells conf prefix =
    (args : Fields) × (get conf "dag_args" ≡ some (obj args))
    × (get args "output_path_prefix" ≡ some (str prefix))

put_kpis-prefix :
    (kpis : List String) (d : Fields)
    → get (put_kpis kpis d) "output_path_prefix" ≡ get d "output_path_prefix"
unfolding put_kpis
put_kpis-prefix [] d = refl
put_kpis-prefix (k ∷ ks) d = get-put_ne "output_path_prefix" "kpi_list" _ d refl

pub generate_conf-Tells :
    (body : GenerateRunRequest) (run_id : String) (m : TrainedModel) (comparison : Option String)
    → Tells (generate_conf body run_id m comparison) (output_prefix_of run_id)
unfolding generate_conf generate_dag_args get
generate_conf-Tells body run_id m comparison = (
  generate_dag_args body (output_prefix_of run_id),
  refl,
  put_kpis-prefix body.kpis _ ∙ get-put "output_path_prefix" _ _,
)

pub comparison_path-refers :
    (i : Option ℕ) (db : Db) {path : Option String}
    → comparison_path i db ≡ ok path
    → refers i db.datasets ≡ true
unfolding comparison_path refers
comparison_path-refers none db h = refl
comparison_path-refers (some i) db h = elim (Option-cases (find_by_id i db.datasets)) [
  | inl e ↦ ground (arith, e, h)
  | inr (d, e) ↦ ground (arith, e)
]

module _ {F : Type 0} (o : Outside F) {st : Storage} where
  pub record_process_run_lem :
      (r : ProcessRun) (s : Site st)
      → refers r.input_dataset_id s.db.datasets ≡ true
      → record_process_run o st r s ≡ (ok tt, record s { db = recorded r s.db })
  unfolding record_process_run recorded on_db insert_process_run catch pure
  record_process_run_lem r s h = elim (Bool-cases (has_run_id r.run_id s.db.process_runs)) [
    | inl e ↦ rw e refl
    | inr e ↦ rw (e, h) refl
  ]

  -- The Airflow service was asked, and answered; the database and the object store are untouched.
  abbrev pub IsAsked :
      Call → ProcessType → String → Fields → Backend st F → ActionResponse → Backend st F → Type 0
  IsAsked call t run_id conf before action after =
      (after.site ≡ before.site)
      × (o.trigger_dag (dag_id_of t) (request o st t run_id conf) (some call.identity) before.flow
          ≡ (ok action, after.flow))

  pub trigger-IsAsked :
      (call : Call) (t : ProcessType) (run_id : String) (conf : Fields) (before : Backend st F)
      → Hoare
          (λ s. s ≡ before)
          (λ action s. IsAsked call t run_id conf before action s)
          (λ s. s.site ≡ before.site)
          (trigger o st call t run_id conf)
  unfolding trigger catch on_flow raise
  trigger-IsAsked call t run_id conf before = record {
    at = λ s p.
        subst
          (λ x.
            After (λ action y. IsAsked call t run_id conf before action y)
              (λ y. y.site ≡ before.site) (trigger o st call t run_id conf x))
          (sym p) here;
  }
    where
      split :
          (r : Result Exn ActionResponse) (f : F)
          → o.trigger_dag
              (dag_id_of t)
              (request o st t run_id conf)
              (some call.identity)
              before.flow
            ≡ (r, f)
          → After
              (λ action y. IsAsked call t run_id conf before action y)
              (λ y. y.site ≡ before.site)
              (trigger o st call t run_id conf before)
      split (ok a) f e = rw e (refl, refl)
      split (err x) f e = rw e refl

      here :
          After
            (λ action y. IsAsked call t run_id conf before action y)
            (λ y. y.site ≡ before.site)
            (trigger o st call t run_id conf before)
      here =
          let (r, f) =
            o.trigger_dag (dag_id_of t) (request o st t run_id conf) (some call.identity)
              before.flow in
          split r f refl

  -- A part that only reads the site.
  pub on_site-Reads :
      {A : Type 0} {Q : A → Type 0} (m : S3 st A) (before : Backend st F)
      → Hoare (λ x. x ≡ before.site) (λ a x. (x ≡ before.site) × Q a) (λ x. x ≡ before.site) m
      → Hoare
          (λ s. s ≡ before)
          (λ a s. (s ≡ before) × Q a)
          (λ s. s.site ≡ before.site)
          (on_site st m)
  unfolding on_site
  on_site-Reads {A} {Q} m before h = record {
    at = λ s p.
        subst (λ y. After (λ a s. (s ≡ before) × Q a) (λ s. s.site ≡ before.site) (on_site st m y))
          (sym p) here;
  }
    where
      split :
          (r : Result Exn A) (x : Site st)
          → After (λ (a : A) (y : Site st). (y ≡ before.site) × Q a) (λ y. y ≡ before.site) (r, x)
          → After
              (λ (a : A) (s : Backend st F). (s ≡ before) × Q a)
              (λ s. s.site ≡ before.site)
              (r, record before { site = x })
      split (ok a) x q = (ap (λ (y : Site st). record before { site = y }) q.0, q.1)
      split (err e) x q = q

      here :
          After
            (λ (a : A) (s : Backend st F). (s ≡ before) × Q a)
            (λ s. s.site ≡ before.site)
            (on_site st m before)
      here = let (r, x) = m before.site in split r x (h.at before.site refl)
