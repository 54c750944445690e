-- ===== src/System/Services.antt =====
-- The methods of the dataset service keep the database sound.
use innovativeproject_pm_gen.Base.{ℕ, String, Bool, true, false, Option, none, some, inl, inr}
use innovativeproject_pm_gen.Base.Exec.Keeps.{
  Keeps, Keeps-bind, Keeps-then, Keeps-pure, Keeps-raise, Keeps-gets, Keeps-modify,
}
use innovativeproject_pm_gen.Base.Result.{Result}
use innovativeproject_pm_gen.Errors.{Exn}
use innovativeproject_pm_gen.Schemas.{Dataset, DatasetType, DatasetStatus}
use innovativeproject_pm_gen.Store.{Db, insert_dataset}
use innovativeproject_pm_gen.S3.{
  Storage, Site, on_db, edit_db, new_uuid, register_existing_dataset, create_dataset, get_dataset,
  change_dataset_status, delete_dataset, delete_from_store, delete_object_if, deleted_or_400,
  found_or_404,
}
use innovativeproject_pm_gen.S3.Laws.{register-cases}
use innovativeproject_pm_gen.System.Sound.{IsSound}
use innovativeproject_pm_gen.System.Datasets.{insert_dataset-IsSoundFor}
use innovativeproject_pm_gen.System.Removal.{delete_dataset_row-IsSoundFor}
use innovativeproject_pm_gen.System.Status.{set_status-IsSoundFor}

module _ {st : Storage} where
  abbrev pub Holds : Site st → Type 0
  Holds s = IsSound s.db

  pub on_db-Keeps :
      {A : Type 0} (f : Db → Result Exn A × Db)
      → ((db : Db) → IsSound db → IsSound (f db).1)
      → Keeps Holds (on_db st f)
  unfolding on_db
  on_db-Keeps f h = record { at = λ s p. h s.db p }

  pub edit_db-Keeps :
      (f : Db → Db) → ((db : Db) → IsSound db → IsSound (f db)) → Keeps Holds (edit_db st f)
  unfolding edit_db
  edit_db-Keeps f h = Keeps-modify _ (λ s p. h s.db p)

  insert-Keeps : (d : Dataset) → Keeps Holds (on_db st (insert_dataset d))
  insert-Keeps d =
      on_db-Keeps (insert_dataset d) (λ db p. (p.0, insert_dataset-IsSoundFor p.0 d db p.1))

  pub new_uuid-Keeps : Keeps Holds (new_uuid st)
  unfolding new_uuid
  new_uuid-Keeps = record { at = λ s p. p }

  pub delete_from_store-Keeps : (key : String) → Keeps Holds (delete_from_store st key)
  unfolding delete_from_store
  delete_from_store-Keeps key = record { at = λ s p. p }

  pub register_existing_dataset-Keeps :
      (user : ℕ) (key : String) (name : Option String) (type : DatasetType)
      (metadata : Option String)
      → Keeps Holds (register_existing_dataset st user key name type metadata)
  register_existing_dataset-Keeps user key name type metadata = record {
    at = λ s p. elim (register-cases user key name type metadata s) [
      | inl h ↦ rw h ((insert-Keeps _).at s p)
      | inr (detail, h) ↦ rw h p
    ];
  }

  pub create_dataset-Keeps :
      (user : ℕ) (name key : String) (type : DatasetType) (metadata : Option String)
      → Keeps Holds (create_dataset st user name key type metadata)
  unfolding create_dataset
  create_dataset-Keeps user name key type metadata =
      Keeps-bind _ _ new_uuid-Keeps (λ id. insert-Keeps _)

  found_or_404-Keeps : (i : ℕ) (o : Option Dataset) → Keeps Holds (found_or_404 st i o)
  unfolding found_or_404
  found_or_404-Keeps i none = Keeps-raise _
  found_or_404-Keeps i (some d) = Keeps-pure d

  pub get_dataset-Keeps : (i : ℕ) → Keeps Holds (get_dataset st i)
  unfolding get_dataset
  get_dataset-Keeps i = Keeps-bind _ _ (Keeps-gets _) (found_or_404-Keeps i)

  pub change_dataset_status-Keeps :
      (i : ℕ) (t : DatasetStatus) → Keeps Holds (change_dataset_status st i t)
  unfolding change_dataset_status
  change_dataset_status-Keeps i t = Keeps-bind _ _ (get_dataset-Keeps i) (λ d.
      Keeps-then _ _ (edit_db-Keeps _ (λ db p. (p.0, set_status-IsSoundFor p.0 d.id t db p.1)))
        (Keeps-pure _))

  deleted_or_400-Keeps : (o : Option String) → Keeps Holds (deleted_or_400 st o)
  unfolding deleted_or_400
  deleted_or_400-Keeps none = Keeps-pure tt
  deleted_or_400-Keeps (some exc) = Keeps-raise _

  delete_object_if-Keeps : (b : Bool) (key : String) → Keeps Holds (delete_object_if st b key)
  unfolding delete_object_if
  delete_object_if-Keeps false key = Keeps-pure tt
  delete_object_if-Keeps true key =
      Keeps-bind _ _ (delete_from_store-Keeps key) deleted_or_400-Keeps

  pub delete_dataset-Keeps : (i : ℕ) (b : Bool) → Keeps Holds (delete_dataset st i b)
  unfolding delete_dataset
  delete_dataset-Keeps i b = Keeps-bind _ _ (get_dataset-Keeps i) (λ d.
      Keeps-then _ _ (delete_object_if-Keeps b d.s3_key)
        (edit_db-Keeps _ (λ db p. (p.0, delete_dataset_row-IsSoundFor p.0 d.id db p.1))))
