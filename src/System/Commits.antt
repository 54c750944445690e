-- ===== src/System/Commits.antt =====
-- What the routes on trained models commit.
use innovativeproject_pm_gen.Base.{
  ℕ, String, Bool, true, false, none, some, inl, inr, ◌≡◌, refl, Option-cases,
}
use innovativeproject_pm_gen.Base.Exec.{asks}
use innovativeproject_pm_gen.Base.Exec.Hoare.{
  Hoare, After, Hoare-pure, Hoare-asks, Hoare-lift, Hoare-bind, Hoare-then, Hoare-state,
}
use innovativeproject_pm_gen.Base.Exec.Keeps.{
  Keeps, Keeps-bind, Keeps-then, Keeps-pure, Keeps-asks, Keeps-lift,
}
use innovativeproject_pm_gen.Base.Result.{Result, ok, err}
use innovativeproject_pm_gen.Errors.{Exn, integrity}
use innovativeproject_pm_gen.Store.{Db}
use innovativeproject_pm_gen.Store.Tables.{
  ModelDraft, complete_draft, commit_model, insert_model, delete_model_row,
}
use innovativeproject_pm_gen.S3.{Storage, Site, on_db, edit_db, new_uuid}
use innovativeproject_pm_gen.Modeling.{Call}
use innovativeproject_pm_gen.Modeling.Models.{
  is_weights, TrainedModelCreate, TrainedModelUpdate, ModelUploadInitiateRequest, ModelUpload,
  checked_draft, create_trained_model, update_trained_model, delete_file_if, delete_trained_model,
  upload_draft, initiate_model_upload,
}
use innovativeproject_pm_gen.System.Sound.{IsSound, IsTrainedOn}
use innovativeproject_pm_gen.System.ModelRows.{
  commit_model-IsSoundFor, update_model-IsSoundFor, delete_model_row-IsSoundFor,
}
use innovativeproject_pm_gen.System.Services.{Holds, edit_db-Keeps, delete_from_store-Keeps}
use innovativeproject_pm_gen.Modeling.Models.Laws.{require_weights-ok}
use innovativeproject_pm_gen.System.Models.{changed_model-Ready, require_preprocessed-IsTrainedOn}

-- A draft that may be committed.
abbrev IsFit : ModelDraft → Db → Type 0
IsFit d db = IsSound db × (is_weights d.s3_key ≡ true) × IsTrainedOn db.datasets (some d.dataset_id)

insert_model-none :
    (d : ModelDraft) (db : Db) → d.encoder_s3_key ≡ none → insert_model d db ≡ (err integrity, db)
unfolding insert_model complete_draft commit_model
insert_model-none d db h = rw h refl

insert_model-IsSound : (d : ModelDraft) (db : Db) → IsFit d db → IsSound (insert_model d db).1
unfolding insert_model complete_draft
insert_model-IsSound d db ((key, h), w, t) = elim (Option-cases d.encoder_s3_key) [
  | inl e ↦ rw e (unfold commit_model in (key, h))
  | inr (encoder, e) ↦ elim (Option-cases d.config_s3_key) [
    | inl c ↦ rw (e, c) (unfold commit_model in (key, h))
    | inr (config, c) ↦ rw (e, c) (key, commit_model-IsSoundFor key _ db refl (w, t) h)
  ]
]

module _ {st : Storage} where
  -- A write to the database that is allowed where it is made.
  on_db-Hoare :
      {A : Type 0} {P : Site st → Type 0} (f : Db → Result Exn A × Db)
      → ((s : Site st) → P s → IsSound (f s.db).1)
      → Hoare P (λ a s. Holds s) Holds (on_db st f)
  unfolding on_db
  on_db-Hoare {A} f h = record { at = λ s p. let (r, db) = f s.db in split s r db (h s p) }
    where
      split :
          (s : Site st) (r : Result Exn A) (db : Db)
          → IsSound db
          → After (λ (a : A) s. Holds s) Holds (r, record s { db = db })
      split s (ok a) db p = p
      split s (err e) db p = p

  checked_draft-IsFit :
      (call : Call) (body : TrainedModelCreate)
      → Hoare Holds (λ d s. IsFit d s.db) Holds (checked_draft st call body)
  unfolding checked_draft
  checked_draft-IsFit call body =
      Hoare-then {Q = λ u s. Holds s × Has s} _ _
        (Hoare-asks _ (λ s u p e. (p, require_preprocessed-IsTrainedOn body.dataset_id s.db e))
          (λ s p. p))
        (λ u.
          Hoare-then {Q = λ u s. Fit s} _ _
            (Hoare-lift _ (λ s u p e. (p.0, require_weights-ok body.s3_key e, p.1)) (λ s p. p.0))
            (λ u. Hoare-then {Q = λ u s. Fit s} _ _ (checks _) (λ u.
              Hoare-then {Q = λ u s. Fit s} _ _ (checks _) (λ u.
                Hoare-then {Q = λ u s. Fit s} _ _ (checks _) (λ u.
                  Hoare-then {Q = λ u s. Fit s} _ _ (checks _) (λ u.
                    Hoare-bind {Q = λ u s. Fit s} _ _ (Hoare-lift _ (λ s u p e. p) (λ s p. p.0))
                      (λ uuid. Hoare-pure _ (λ s p. p))))))))
    where
      Has : Site st → Type 0
      Has s = IsTrainedOn s.db.datasets (some body.dataset_id)

      Fit : Site st → Type 0
      Fit s =
          Holds s
          × (is_weights body.s3_key ≡ true)
          × IsTrainedOn s.db.datasets (some body.dataset_id)

      checks : (f : Site st → Result Exn (Unit {0})) → Hoare Fit (λ u s. Fit s) Holds (asks f)
      checks f = Hoare-asks f (λ s u p e. p) (λ s p. p.0)

  pub create_trained_model-Keeps :
      (call : Call) (body : TrainedModelCreate) → Keeps Holds (create_trained_model st call body)
  unfolding create_trained_model
  create_trained_model-Keeps call body = record {
    at = Hoare-state _ (
        Hoare-bind _ _ (checked_draft-IsFit call body) (λ d.
          Hoare-bind _ _ (on_db-Hoare _ (λ s p. insert_model-IsSound d s.db p))
            (λ m. Hoare-pure _ (λ s p. p))));
  }

  pub update_trained_model-Keeps :
      (call : Call) (i : ℕ) (body : TrainedModelUpdate)
      → Keeps Holds (update_trained_model st call i body)
  unfolding update_trained_model
  update_trained_model-Keeps call i body = record {
    at = Hoare-state _ (
        Hoare-bind _ _ (changed_model-Ready i body) (λ m.
          Hoare-bind _ _
            (on_db-Hoare _ (λ s p. (p.0.0, update_model-IsSoundFor p.0.0 m s.db p.1 p.2 p.0.1)))
            (λ u. Hoare-pure _ (λ s p. p))));
  }

  delete-Keeps : (i : ℕ) → Keeps Holds (edit_db st (delete_model_row i))
  delete-Keeps i = edit_db-Keeps _ (λ db p. (p.0, delete_model_row-IsSoundFor p.0 i db p.1))

  delete_file_if-Keeps : (b : Bool) (key : String) → Keeps Holds (delete_file_if st b key)
  unfolding delete_file_if
  delete_file_if-Keeps false key = Keeps-pure tt
  delete_file_if-Keeps true key =
      Keeps-bind _ _ (delete_from_store-Keeps key) (λ answer. Keeps-lift _)

  pub delete_trained_model-Keeps : (i : ℕ) (b : Bool) → Keeps Holds (delete_trained_model st i b)
  unfolding delete_trained_model
  delete_trained_model-Keeps i b =
      Keeps-bind _ _ (Keeps-asks _)
        (λ m. Keeps-then _ _ (delete_file_if-Keeps b m.s3_key) (delete-Keeps m.id))

  -- Before the row is added nothing is written to the database.
  module _ (db : Db) where
    abbrev Same : Site st → Type 0
    Same s = s.db ≡ db

    new_uuid-Same : Hoare Same (λ id s. Same s) Same (new_uuid st)
    unfolding new_uuid
    new_uuid-Same = record { at = λ s p. p }

    upload_draft-Same :
        (call : Call) (body : ModelUploadInitiateRequest)
        → Hoare Same (λ d s. Same s × (d.encoder_s3_key ≡ none)) Same (upload_draft st call body)
    unfolding upload_draft
    upload_draft-Same call body =
        Hoare-then {Q = λ u s. Same s} _ _ (Hoare-asks _ (λ s u p e. p) (λ s p. p)) (λ u.
          Hoare-then {Q = λ u s. Same s} _ _ (Hoare-lift _ (λ s u p e. p) (λ s p. p)) (λ u.
            Hoare-bind {Q = λ u s. Same s} _ _ new_uuid-Same (λ id.
              Hoare-bind {Q = λ u s. Same s} _ _ (Hoare-lift _ (λ s u p e. p) (λ s p. p))
                (λ uuid. Hoare-pure _ (λ s p. (p, refl))))))

    refused :
        (d : ModelDraft)
        → Hoare
            (λ s. Same s × (d.encoder_s3_key ≡ none))
            (λ m s. ⊥)
            Same
            (on_db st (insert_model d))
    unfolding on_db
    refused d = record { at = λ s p. rw (insert_model-none d s.db p.1) p.0 }

    upload-Same :
        (call : Call) (body : ModelUploadInitiateRequest)
        → Hoare Same (λ u s. ⊥) Same (initiate_model_upload st call body)
    unfolding initiate_model_upload
    upload-Same call body =
        Hoare-bind _ _ (upload_draft-Same call body)
          (λ d. Hoare-bind _ _ (refused d) (λ m. record { at = λ s p. absurd p }))

  -- Whatever the request, the database and the object store are, `initiate_model_upload` raises and
  -- leaves the database as it was: its row has no encoder and no configuration, which the table asks
  -- for.
  pub initiate_model_upload-fails :
      (call : Call) (body : ModelUploadInitiateRequest) (s : Site st)
      → (e : Exn) × ((initiate_model_upload st call body s).0 ≡ err e)
        × ((initiate_model_upload st call body s).1.db ≡ s.db)
  initiate_model_upload-fails call body s =
      let (r, t) = initiate_model_upload st call body s in
      split r t ((upload-Same s.db call body).at s refl)
    where
      split :
          (r : Result Exn ModelUpload) (t : Site st)
          → After (λ (u : ModelUpload) (v : Site st). ⊥) (λ (v : Site st). v.db ≡ s.db) (r, t)
          → (e : Exn) × (r ≡ err e) × (t.db ≡ s.db)
      split (ok u) t p = absurd p
      split (err e) t p = (e, refl, p)
