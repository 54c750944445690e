-- ===== src/S3.antt =====
-- apps/backend/app/services/s3/service.py: the methods of `S3Service` that read and write the
-- datasets of the database, over an object store that is handed in.
pub mod Laws
pub mod Multipart
use Prim.Native.Char.{Char, code}
use innovativeproject_pm_gen.Base.{
  ℕ, zero, suc, String, ◌<>◌, Bool, true, false, not, ◌||◌, Option, none, some, List, [], ◌∷◌, ◌==◌,
  eqb, if◌then◌else◌,
}
use innovativeproject_pm_gen.Base.Exec.{Exec, pure, raise, lift, gets, modify, ◌>>=◌, ◌>>◌}
use innovativeproject_pm_gen.Schemas.{type_eq, DatasetType, DatasetStatus, Dataset}
use innovativeproject_pm_gen.Store.{delete_dataset_row, set_status, insert_dataset, find_by_id, Db}
use innovativeproject_pm_gen.Errors.{http, Exn}
use innovativeproject_pm_gen.Base.Text.{is_slash, rstrip, is_empty}
use innovativeproject_pm_gen.Dags.Parse.{is_name_char}
use innovativeproject_pm_gen.Base.Result.{Result, ok}
use innovativeproject_pm_gen.Base.Value.{Value, decimal}

-- The object store, behind `boto3`, and the clock of ids. An error is the text of its exception.
pub record Storage : Type 1 where
  pub Objects : Type 0
  -- `head_object`; `none` where it returns
  pub head_object : String → Objects → Option String
  -- `list_objects_v2` with `MaxKeys=1`: are there contents? `none` where it raises
  pub list_objects : String → Objects → Option Bool
  pub delete_object : String → Objects → Option String × Objects
  -- the id of the new upload
  pub create_multipart_upload : String → Objects → Result String String × Objects
  -- `generate_presigned_url` for a part, by key, upload and number
  pub presigned_part : String → String → ℕ → Objects → Result String String
  -- `generate_presigned_url` for putting an object, and the text that an object holds
  pub presigned_put : String → Objects → Result String String
  pub get_text : String → Objects → Result String String
  -- an upload is completed with its parts (numbers and tags), or aborted
  pub complete_upload :
      String → String → List (ℕ × String) → Objects → Result String Value × Objects
  pub abort_upload : String → String → Objects → Result String (Unit {0}) × Objects
  pub uuid4 : Objects → String × Objects
  -- NFKD, then the ASCII characters
  pub ascii_fold : String → String

pub record Site (st : Storage) : Type 0 where
  pub db : Db
  pub objects : st.Objects

-- The parts of a path between slashes, without empty parts and `.`.
push_part : String → List String → List String
push_part p rest = if is_empty p || p == "." then rest else p ∷ rest

split_parts : String → String → List String
split_parts part String.[] = push_part part []
split_parts part (String.◌∷◌ c s) =
    let here = split_parts "" s in
    let more = split_parts (part <> String.◌∷◌ c String.[]) s in
    if eqb (code c) 47 then push_part part here else more

last_or : String → List String → String
last_or d [] = d
last_or d (x ∷ xs) = last_or x xs

-- `Path(s).name`
unfoldable pub path_name : String → String
unfolding split_parts push_part last_or
path_name s = last_or "" (split_parts "" s)

-- `re.sub(r"[^\w\.\-]", "_", name)`, over ASCII
unfoldable pub safe_name : String → String
safe_name String.[] = String.[]
safe_name (String.◌∷◌ c s) =
    if is_name_char c then String.◌∷◌ c (safe_name s) else "_" <> safe_name s

-- `s.rstrip("/")`
abbrev pub strip_slashes : String → String
strip_slashes = rstrip is_slash

module _ (st : Storage) where
  abbrev pub S3 : Type 0 → Type 0
  S3 A = Exec Exn (Site st) A

  -- A statement on the database alone.
  unfoldable pub on_db : {A : Type 0} → (Db → Result Exn A × Db) → S3 A
  on_db f s = let (r, db) = f s.db in (r, record s { db = db })

  -- Do any objects stand under the prefix? An error counts as none.
  any_under : String → st.Objects → Bool
  any_under prefix o = elim (st.list_objects prefix o) [ none ↦ false | some found ↦ found ]

  -- Neither an object nor a prefix of objects: the text of the error.
  unfoldable pub missing : String → st.Objects → Option String
  unfolding any_under rstrip
  missing key o = elim (st.head_object key o) [
    | none ↦ none
    | some exc ↦ if any_under (strip_slashes key <> "/") o then none else some exc
  ]

  abbrev pub absent_detail : String → String → String
  absent_detail label exc = "[S3] " <> (label <> (" not found on S3 or access denied: " <> exc))

  not_found_if : String → Option String → S3 (Unit {0})
  not_found_if label none = pure tt
  not_found_if label (some exc) = raise (http 404 (absent_detail label exc))

  unfoldable pub require_object : String → String → S3 (Unit {0})
  unfolding not_found_if
  require_object label key = do
    absent ← gets (λ s. missing key s.objects)
    not_found_if label absent

  -- `if pm_metadata_s3_key:`
  unfoldable pub require_metadata : Option String → S3 (Unit {0})
  require_metadata none = pure tt
  require_metadata (some key) = if is_empty key then pure tt else require_object "pm_metadata" key

  -- `if not file_name: file_name = Path(s3_key).name`
  abbrev name_or : Option String → String → String
  name_or none s3_key = path_name s3_key
  name_or (some name) s3_key = if is_empty name then path_name s3_key else name

  -- The row of an object that is there already.
  unfoldable pub existing_row : ℕ → String → Option String → DatasetType → Option String → Dataset
  existing_row user_uuid s3_key file_name type pm_metadata_s3_key = record {
    id = 0;
    user_uuid = user_uuid;
    s3_key = s3_key;
    file_name = safe_name (st.ascii_fold (name_or file_name s3_key));
    pm_metadata_s3_key = pm_metadata_s3_key;
    status = DatasetStatus.completed;
    type = type;
  }

  unfoldable pub register_existing_dataset :
      ℕ → String → Option String → DatasetType → Option String → S3 Dataset
  register_existing_dataset user_uuid s3_key file_name type pm_metadata_s3_key = do
    require_object "Dataset" s3_key
    require_metadata pm_metadata_s3_key
    on_db (insert_dataset (existing_row user_uuid s3_key file_name type pm_metadata_s3_key))

  unfoldable pub new_uuid : S3 String
  new_uuid s = let (id, o) = st.uuid4 s.objects in (ok id, record s { objects = o })

  unfoldable pub create_dataset : ℕ → String → String → DatasetType → Option String → S3 Dataset
  unfolding new_uuid
  create_dataset user_uuid file_name s3_key type pm_metadata_s3_key = do
    unique_id ← new_uuid
    let name = safe_name (st.ascii_fold (path_name file_name))
    on_db (
        insert_dataset (record {
          id = 0;
          user_uuid = user_uuid;
          s3_key = s3_key <> ("/" <> (unique_id <> ("_" <> name)));
          file_name = name;
          pm_metadata_s3_key = pm_metadata_s3_key;
          status = DatasetStatus.pending;
          type = type;
        }))

  unfoldable pub found_or_404 : ℕ → Option Dataset → S3 Dataset
  found_or_404 i none = raise (http 404 ("[S3] Dataset not found: " <> decimal i))
  found_or_404 i (some d) = pure d

  unfoldable pub get_dataset : ℕ → S3 Dataset
  unfolding found_or_404
  get_dataset i = do found ← gets (λ s. find_by_id i s.db.datasets); found_or_404 i found

  unfoldable pub edit_db : (Db → Db) → S3 (Unit {0})
  edit_db f = modify (λ s. record s { db = f s.db })

  unfoldable pub change_dataset_status : ℕ → DatasetStatus → S3 Dataset
  unfolding edit_db
  change_dataset_status i status = do
    d ← get_dataset i
    edit_db (λ db. record db { datasets = set_status d.id status db.datasets })
    pure (record d { status = status })

  unfoldable pub deleted_or_400 : Option String → S3 (Unit {0})
  deleted_or_400 none = pure tt
  deleted_or_400 (some exc) = raise (http 400 ("[S3] Error deleting file from S3: " <> exc))

  unfoldable pub delete_from_store : String → S3 (Option String)
  delete_from_store key s =
      let (answer, o) = st.delete_object key s.objects in (ok answer, record s { objects = o })

  -- `if delete_from_s3:`
  unfoldable pub delete_object_if : Bool → String → S3 (Unit {0})
  delete_object_if false key = pure tt
  delete_object_if true key = do answer ← delete_from_store key; deleted_or_400 answer

  unfoldable pub delete_dataset : ℕ → Bool → S3 (Unit {0})
  unfolding delete_object_if edit_db delete_from_store deleted_or_400
  delete_dataset i delete_from_s3 = do
    d ← get_dataset i
    delete_object_if delete_from_s3 d.s3_key
    edit_db (delete_dataset_row d.id)

  of_type : Option DatasetType → List Dataset → List Dataset
  of_type none ds = ds
  of_type (some t) [] = []
  of_type (some t) (d ∷ ds) =
      let rest = of_type (some t) ds in if type_eq d.type t then d ∷ rest else rest

  unfoldable pub get_datasets : Option DatasetType → S3 (List Dataset)
  unfolding of_type
  get_datasets type = gets (λ s. of_type type s.db.datasets)
