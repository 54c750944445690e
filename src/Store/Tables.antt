-- ===== src/Store/Tables.antt =====
-- The tables `process_runs` and `trained_models` of apps/backend/app/db/schemas.py: what a commit of
-- a new, a changed or a deleted row does, with the constraints of the tables.
use innovativeproject_pm_gen.Base.{
  ℕ, ◌+◌, String, Bool, true, false, not, ◌&&◌, ◌||◌, Option, none, some, List, [], ◌∷◌, ◌++◌, ◌==◌,
  eqb, if◌then◌else◌,
}
use innovativeproject_pm_gen.Base.Result.{Result, ok, err}
use innovativeproject_pm_gen.Errors.{Exn, integrity}
use innovativeproject_pm_gen.Schemas.{Dataset, ProcessRun, TrainedModel}
use innovativeproject_pm_gen.Store.{Db, find_by_id}

-- `run_id` is unique.
unfoldable pub has_run_id : String → List ProcessRun → Bool
has_run_id k [] = false
has_run_id k (r ∷ rs) = r.run_id == k || has_run_id k rs

-- A foreign key to `datasets` that may be null.
unfoldable pub refers : Option ℕ → List Dataset → Bool
refers none ds = true
refers (some i) ds = elim (find_by_id i ds) [ none ↦ false | some d ↦ true ]

-- `db.add(ProcessRun(…)); db.commit()`; the id in the row is not read.
unfoldable pub insert_process_run : ProcessRun → Db → Result Exn (Unit {0}) × Db
insert_process_run r db =
    if has_run_id r.run_id db.process_runs || not (refers r.input_dataset_id db.datasets)
    then (err integrity, db)
    else (
      ok tt,
      record db {
        process_runs = db.process_runs ++ (record r { id = db.next_process_id } ∷ []);
        next_process_id = db.next_process_id + 1;
      },
    )

-- The attributes that the constructor of a new model is given.
pub record ModelDraft : Type 0 where
  pub user_uuid : ℕ
  pub name : String
  pub s3_key : String
  pub encoder_s3_key : Option String
  pub config_s3_key : Option String
  pub dataset_id : ℕ
  pub created_at : ℕ

-- `query(TrainedModel).filter(TrainedModel.id == …).first()`, and by `s3_key`
unfoldable pub find_model : ℕ → List TrainedModel → Option TrainedModel
find_model i [] = none
find_model i (m ∷ ms) = if eqb m.id i then some m else find_model i ms

unfoldable pub has_model_key : String → List TrainedModel → Bool
has_model_key k [] = false
has_model_key k (m ∷ ms) = m.s3_key == k || has_model_key k ms

-- The row of a draft, if no column that is not nullable is null.
unfoldable pub complete_draft : ℕ → ModelDraft → Option TrainedModel
complete_draft i m = elim m.encoder_s3_key [
  | none ↦ none
  | some encoder ↦ elim m.config_s3_key [
    | none ↦ none
    | some config ↦ some (record {
      id = i;
      user_uuid = m.user_uuid;
      name = m.name;
      s3_key = m.s3_key;
      encoder_s3_key = encoder;
      config_s3_key = config;
      dataset_id = some m.dataset_id;
      created_at = m.created_at;
    })
  ]
]

unfoldable pub commit_model : Option TrainedModel → Db → Result Exn TrainedModel × Db
commit_model none db = (err integrity, db)
commit_model (some m) db =
    if has_model_key m.s3_key db.trained_models || not (refers m.dataset_id db.datasets)
    then (err integrity, db)
    else (
      ok m,
      record db {
        trained_models = db.trained_models ++ (m ∷ []);
        next_model_id = db.next_model_id + 1;
      },
    )

-- `db.add(TrainedModel(…)); db.commit()`
unfoldable pub insert_model : ModelDraft → Db → Result Exn TrainedModel × Db
insert_model m db = commit_model (complete_draft db.next_model_id m) db

-- Has another model the key?
unfoldable pub key_taken : ℕ → String → List TrainedModel → Bool
key_taken i k [] = false
key_taken i k (m ∷ ms) = (m.s3_key == k && not (eqb m.id i)) || key_taken i k ms

unfoldable pub replace_model : TrainedModel → List TrainedModel → List TrainedModel
replace_model m [] = []
replace_model m (x ∷ xs) = let rest = replace_model m xs in (if eqb x.id m.id then m else x) ∷ rest

-- A commit after attributes of a model were set.
unfoldable pub update_model : TrainedModel → Db → Result Exn TrainedModel × Db
update_model m db =
    if key_taken m.id m.s3_key db.trained_models || not (refers m.dataset_id db.datasets)
    then (err integrity, db)
    else (ok m, record db { trained_models = replace_model m db.trained_models })

unfoldable pub remove_model : ℕ → List TrainedModel → List TrainedModel
remove_model i [] = []
remove_model i (m ∷ ms) = let rest = remove_model i ms in if eqb m.id i then rest else m ∷ rest

-- `db.delete(model); db.commit()`
unfoldable pub delete_model_row : ℕ → Db → Db
delete_model_row i db = record db { trained_models = remove_model i db.trained_models }
