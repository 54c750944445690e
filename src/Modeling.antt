-- ===== src/Modeling.antt =====
-- apps/backend/app/api/v1/modeling.py: what its routes share. The request's user, the clock and the
-- random part of a run's id are arguments.
pub mod Models
pub mod Conf
pub mod Runs
use innovativeproject_pm_gen.Base.{ℕ, String, ◌<>◌, Option, none, some, if◌then◌else◌, ◌==◌}
use innovativeproject_pm_gen.Base.Result.{Result, ok, err}
use innovativeproject_pm_gen.Base.Value.{decimal}
use innovativeproject_pm_gen.Errors.{Exn, http}
use innovativeproject_pm_gen.Schemas.{Dataset, DatasetType, TrainedModel, type_eq}
use innovativeproject_pm_gen.Store.{Db, find_by_id}
use innovativeproject_pm_gen.Store.Tables.{find_model}

-- What a call of a route takes from outside: `user.get_uuid()`, which raises where the user's id is
-- no UUID, `get_user_identity(user)`, `uuid.uuid4().hex[:12]`, the time and the bucket.
pub record Call : Type 0 where
  pub get_uuid : Result Exn ℕ
  pub identity : String
  pub hex : String
  pub now : ℕ
  pub bucket : String

abbrev pub type_name : DatasetType → String
type_name DatasetType.raw = "RAW"
type_name DatasetType.preprocessed = "PREPROCESSED"
type_name DatasetType.generated = "GENERATED"
type_name DatasetType.kpi_definitions = "KPI_DEFINITIONS"
type_name DatasetType.simple_reports = "SIMPLE_REPORTS"

abbrev pub dataset_text : ℕ → String
dataset_text i = "Dataset with ID " <> decimal i

unfoldable pub refuse_type : ℕ → DatasetType → Exn
refuse_type i t =
    http 400 (dataset_text i <> (" is of type " <> (type_name t <> ", must be PREPROCESSED")))

unfoldable pub check_type : ℕ → Option Dataset → Result Exn (Unit {0})
check_type i none = err (http 400 (dataset_text i <> " does not exist"))
check_type i (some d) =
    if type_eq d.type DatasetType.preprocessed then ok tt else err (refuse_type i d.type)

-- A model needs a dataset that is there and PREPROCESSED.
unfoldable pub require_preprocessed : ℕ → Db → Result Exn (Unit {0})
require_preprocessed i db = check_type i (find_by_id i db.datasets)

unfoldable pub model_or_404 : Option TrainedModel → Result Exn TrainedModel
model_or_404 none = err (http 404 "Model not found")
model_or_404 (some m) = ok m

unfoldable pub get_model : ℕ → Db → Result Exn TrainedModel
get_model i db = model_or_404 (find_model i db.trained_models)
