-- ===== src/Poller/Steps.antt =====
-- The changes of the database that a tick of the poller makes for one run, as a step relation.
use innovativeproject_pm_gen.Base.{
  Option-cases, inl, inr, ap, ◌+◌, String, ◌≡◌, refl, Option, none, some, ◌++◌, ◌∷◌, [],
}
use innovativeproject_pm_gen.Schemas.{PipelineRunStatus, Dataset, DagRunStatus, ProcessRun}
use innovativeproject_pm_gen.S3.{on_db, register_existing_dataset, existing_row, Storage}
use innovativeproject_pm_gen.Store.{insert_dataset, key_of, find_by_key, update_run, Db}
use innovativeproject_pm_gen.Base.Exec.{lift, raise, modify, gets, pure, ◌>>=◌, catch, Exec}
use innovativeproject_pm_gen.Errors.{airflow, Kind, http, Exn}
use innovativeproject_pm_gen.Poller.{
  edit_db, on_status, on_flow, on_answer, id_of, ask, unknown_or_later, finalize, asked, update,
  on_site, link_existing, on_register_error, register, register_and_complete, output_key,
  derive_pm_metadata_s3_key, resolve_dataset_type, register_output, set_run_status, complete,
  Backend,
}
use innovativeproject_pm_gen.Base.Result.{Result, ok, err}
use innovativeproject_pm_gen.S3.Laws.{register-cases}

-- Airflow's answer to a run and what follows for its row: nothing, FAILED, or COMPLETED with the
-- dataset that has the key of the output, which was there or is appended.
pub data Step (r : ProcessRun) : Db → Db → Type 0 where
  wait : (db : Db) → Step r db db
  fail :
      (db : Db)
      → Step r db (record db {
        process_runs = update_run r.id (set_run_status PipelineRunStatus.failed) db.process_runs;
      })
  link :
      (db : Db) (d : Dataset)
      → find_by_key (output_key r) db.datasets ≡ some d
      → Step r db
          (record db { process_runs = update_run r.id (complete (some d.id)) db.process_runs })
  add :
      (db : Db) (d : Dataset)
      → find_by_key (output_key r) db.datasets ≡ none
      → key_of d ≡ output_key r
      → d.id ≡ db.next_dataset_id
      → Step r db (record db {
        datasets = db.datasets ++ (d ∷ []);
        next_dataset_id = db.next_dataset_id + 1;
        process_runs = update_run r.id (complete (some d.id)) db.process_runs;
      })

module _ (st : Storage) {F : Type 0} (get_dag_run : String → String → Exec Exn F DagRunStatus) where
  abbrev row_of : ProcessRun → Dataset
  row_of r =
      existing_row st r.user_uuid r.output_s3_key (some r.output_name) (resolve_dataset_type r)
        (derive_pm_metadata_s3_key r)

  abbrev pub with_id : ProcessRun → Db → Dataset
  with_id r db = record (row_of r) { id = db.next_dataset_id }

  abbrev with_db : (Db → Db) → Backend st F → Backend st F
  with_db f s = record s { site = record s.site { db = f s.site.db } }

  abbrev linked : ProcessRun → Dataset → Db → Db
  linked r d db = record db {
    process_runs = update_run r.id (complete (some d.id)) db.process_runs;
  }

  abbrev added : ProcessRun → Db → Db
  added r db = record db {
    datasets = db.datasets ++ (with_id r db ∷ []);
    next_dataset_id = db.next_dataset_id + 1;
    process_runs = update_run r.id (complete (some db.next_dataset_id)) db.process_runs;
  }

  module _ (r : ProcessRun) (s : Backend st F) where
    abbrev pub found : Option Dataset
    found = find_by_key (output_key r) s.site.db.datasets

    abbrev pub Inserts : Type 0
    Inserts =
        register_existing_dataset st r.user_uuid r.output_s3_key (some r.output_name)
          (resolve_dataset_type r) (derive_pm_metadata_s3_key r) s.site
        ≡ on_db st (insert_dataset (row_of r)) s.site

    pub register_output-later :
        (detail : String)
        → register_existing_dataset st r.user_uuid r.output_s3_key
            (some r.output_name)
            (resolve_dataset_type r)
            (derive_pm_metadata_s3_key r)
            s.site
          ≡ (err (http 404 detail), s.site)
        → register_output st get_dag_run r s ≡ (ok tt, s)
    unfolding register_output register_and_complete register on_register_error on_site catch ◌>>=◌
        pure
    register_output-later detail h = rw h refl

    pub register_output-link :
        (d : Dataset)
        → Inserts
        → found ≡ some d
        → register_output st get_dag_run r s ≡ (ok tt, with_db (linked r d) s)
    unfolding register_output register_and_complete register on_register_error link_existing on_site
        on_db catch ◌>>=◌ pure gets update modify insert_dataset existing_row
    register_output-link d h k =
        rw (h, k)
          (ap
            (λ o. (
              ok tt,
              with_db
                  (λ db. record db {
                    process_runs = update_run r.id (complete (id_of o)) db.process_runs;
                  })
                  s,
            ))
            k)

    pub register_output-add :
        Inserts → found ≡ none → register_output st get_dag_run r s ≡ (ok tt, with_db (added r) s)
    unfolding register_output register_and_complete register on_register_error on_site on_db catch
        ◌>>=◌ pure update modify insert_dataset existing_row
    register_output-add h k = rw (h, k) refl

    -- Whatever the object store and the database hold, one of the steps is made.
    pub register_output-Step : Step r s.site.db (register_output st get_dag_run r s).1.site.db
    unfolding existing_row
    register_output-Step =
        elim (register-cases r.user_uuid r.output_s3_key (some r.output_name)
          (resolve_dataset_type r) (derive_pm_metadata_s3_key r) s.site) [
            | inr (d, h) ↦ rw (register_output-later d h) (wait s.site.db)
            | inl h ↦ elim (Option-cases found) [
              | inl k ↦
                  rw (register_output-add h k) (add s.site.db (with_id r s.site.db) k refl refl)
              | inr (d, k) ↦ rw (register_output-link d h k) (link s.site.db d k)
            ]
          ]

  after_kind :
      (r : ProcessRun) (s : Backend st F) (k : Kind)
      → Step r s.site.db
          ((unknown_or_later st get_dag_run k >>= on_answer st get_dag_run r) s).1.site.db
  unfolding unknown_or_later on_answer on_status ◌>>=◌ pure update edit_db modify
  after_kind r s Kind.not_found = fail s.site.db
  after_kind r s _ = wait s.site.db

  after_ask :
      (r : ProcessRun) (s : Backend st F) (a : Result Exn DagRunStatus)
      → Step r s.site.db
          ((catch (lift a >>= λ x. pure (some x)) (asked st get_dag_run)
              >>= on_answer st get_dag_run r)
            s).1.site.db
  unfolding catch lift asked on_answer on_status ◌>>=◌ pure raise update edit_db modify
  after_ask r s (ok DagRunStatus.success) = register_output-Step r s
  after_ask r s (ok DagRunStatus.failed) = fail s.site.db
  after_ask r s (ok _) = wait s.site.db
  after_ask r s (err (airflow e)) = after_kind r s e.kind
  after_ask r s (err _) = wait s.site.db

  -- One run of a tick makes one of the steps, whatever Airflow answers and whatever is raised.
  pub finalize-Step :
      (r : ProcessRun) (s : Backend st F) → Step r s.site.db (finalize st get_dag_run r s).1.site.db
  unfolding finalize ask ◌>>=◌ catch on_flow pure lift
  finalize-Step r s = let (a, flow) = get_dag_run r.dag_id r.run_id s.flow in step a flow refl
    where
      step :
          (a : Result Exn DagRunStatus) (flow : F)
          → get_dag_run r.dag_id r.run_id s.flow ≡ (a, flow)
          → Step r s.site.db (finalize st get_dag_run r s).1.site.db
      step (ok x) flow h = rw h (after_ask r (record s { flow = flow }) (ok x))
      step (err e) flow h = rw h (after_ask r (record s { flow = flow }) (err e))
