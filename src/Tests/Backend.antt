-- ===== src/Tests/Backend.antt =====
-- The poller, the database and the access rules at concrete inputs.
use text.Mathlib.Text.{starts_with}
use innovativeproject_pm_gen.Base.{
  arith, suc, All, ℕ, String, ◌≡◌, refl, Bool, true, false, none, some, List, [], ◌∷◌,
  if◌then◌else◌,
}
use innovativeproject_pm_gen.Poller.{
  poll_once, output_key, finalize, derive_pm_metadata_s3_key, Backend,
}
use innovativeproject_pm_gen.Schemas.{
  generated, DagRunStatus, PipelineRunStatus, DatasetStatus, ProcessRun, DatasetType, Dataset,
}
use innovativeproject_pm_gen.Store.{is_running, running_runs, Db}
use innovativeproject_pm_gen.Base.Exec.{Exec}
use innovativeproject_pm_gen.Base.Value.{
  get_default, str_of, truthy, or_value, null, put, get_value, end, str, plain_builtins, field,
  Fields,
}
use innovativeproject_pm_gen.Poller.Invariant.{poll_once-IsConsistent, IsConsistent}
use innovativeproject_pm_gen.Handlers.Laws.{handle-IsMasked, IsMasked}
use innovativeproject_pm_gen.Access.{
  candidate_issuer_roots, aud_matches, allowed_issuers, validate_token_claims, claim, Urls,
  TokenPayload, KeycloakSettings,
}
use innovativeproject_pm_gen.Handlers.{envelope, fallback_handler, handle, Request}
use innovativeproject_pm_gen.Poller.Steps.{finalize-Step, Step}
use innovativeproject_pm_gen.S3.{missing, Storage}
use innovativeproject_pm_gen.PmSchema.{present_columns, pm_schema, validate_pm_columns}
use innovativeproject_pm_gen.Access.Token.{
  session_id_of, user_id_of, identified, decoded, found_key, bearer, verify_token_signature, Jwt,
  get_token_payload,
}
use innovativeproject_pm_gen.Access.Token.Admission.{get_token_payload-IsAdmitted, IsAdmitted}
use innovativeproject_pm_gen.Errors.{integrity, Exn}
use innovativeproject_pm_gen.Base.Table.{member}
use innovativeproject_pm_gen.Poller.Whole.{find_run}
use innovativeproject_pm_gen.Poller.Whole.Run.{poll_once-IsCompleted, poll_once-waits, IsCompleted}
use innovativeproject_pm_gen.Base.Result.{◌>>=◌, err, ok}
use innovativeproject_pm_gen.PmSchema.Laws.{validate_pm_columns-HasColumn, HasColumn}
use innovativeproject_pm_gen.Base.Text.{lower, rstrip}
use innovativeproject_pm_gen.Poller.Returns.{answered, poll_once-ok}

unfoldable pub any_starts : String → List String → Bool
any_starts p [] = false
any_starts p (k ∷ ks) = elim (starts_with k p) [ true ↦ true | false ↦ any_starts p ks ]

abbrev pub bucket : Storage
bucket = record {
  Objects = List String;
  head_object = λ k o. if member k o then none else some "404";
  list_objects = λ p o. some (any_starts p o);
  delete_object = λ k o. (none, o);
  create_multipart_upload = λ k o. (ok "up", o);
  presigned_part = λ k u n o. ok "url";
  presigned_put = λ k o. ok "url";
  get_text = λ k o. err "404";
  complete_upload = λ k u ps o. (err "no such upload", o);
  abort_upload = λ k u o. (ok tt, o);
  uuid4 = λ o. ("u1", o);
  ascii_fold = λ s. s;
}

abbrev pub run : ProcessRun
run = record {
  id = 7;
  run_id = "genpm_pp_7";
  dag_id = "preprocessing";
  process_type = "generate";
  user_uuid = 1;
  input_dataset_id = none;
  output_s3_key = "out/7";
  output_name = "seven";
  status = PipelineRunStatus.running;
  registered_dataset_id = none;
  created_at = 0;
}

abbrev pub store : Db
store = record {
  datasets = [];
  next_dataset_id = 1;
  process_runs = run ∷ [];
  pipeline_runs = [];
  next_pipeline_id = 1;
  next_process_id = 8;
  trained_models = [];
  next_model_id = 1;
}

abbrev before : Backend bucket ℕ
before = record { site = record { db = store; objects = "out/7" ∷ [] }; flow = 0 }

abbrev pub succeeded : String → String → Exec Exn ℕ DagRunStatus
succeeded dag_id run_id f = (ok DagRunStatus.success, suc f)

abbrev key : ℕ → String × DatasetType
key i = output_key run

poll_once-IsConsistent_example :
    IsConsistent key (poll_once bucket succeeded (λ f. true) before).1.site.db
poll_once-IsConsistent_example =
    poll_once-IsConsistent key bucket succeeded (λ f. true) before (tt, ((λ e. cc), tt), (refl, tt))

-- A run that stands before it, whose output is not there.
abbrev other : ProcessRun
other = record run { id = 6; output_s3_key = "out/6" }

abbrev busy : List String → Backend bucket ℕ
busy objects = record {
  site = record { db = record store { process_runs = other ∷ run ∷ [] }; objects = objects };
  flow = 0;
}

poll_once-IsCompleted_example :
    IsCompleted bucket succeeded
      (λ d i f. answered DagRunStatus.success)
      run
      (poll_once bucket succeeded (λ f. true) (busy ("out/7" ∷ [])))
unfolding missing derive_pm_metadata_s3_key any_starts running_runs find_run
poll_once-IsCompleted_example =
    poll_once-IsCompleted bucket succeeded (λ d i f. answered DagRunStatus.success) run (λ f. refl)
      (λ f. true) (busy ("out/7" ∷ [])) (other ∷ []) [] refl refl (refl, tt) tt refl refl tt

poll_once-waits_example :
    ((poll_once bucket succeeded (λ f. true) (busy [])).0 ≡ ok tt)
    × (find_run 7 (poll_once bucket succeeded (λ f. true) (busy [])).1.site.db.process_runs
        ≡ some run)
    × (is_running run.status ≡ true)
unfolding missing any_starts running_runs find_run
poll_once-waits_example =
    poll_once-waits bucket succeeded (λ d i f. answered DagRunStatus.success) run (λ f. refl)
      (λ f. true) (busy []) (other ∷ []) [] refl refl (refl, tt) tt refl refl

finalize-Step_example : Step run store (finalize bucket succeeded run before).1.site.db
finalize-Step_example = finalize-Step bucket succeeded run before

abbrev dataset : Dataset
dataset = record {
  id = 0;
  user_uuid = 1;
  s3_key = "out/7";
  file_name = "seven";
  pm_metadata_s3_key = none;
  status = DatasetStatus.completed;
  type = generated;
}

abbrev keycloak : KeycloakSettings
keycloak = record {
  server_url = "http://kc";
  issuer_url = "http://kc";
  realm = "pm";
  client_id = "app";
  required_roles = [];
  admin_role = "admin";
}

abbrev admin : TokenPayload
admin = record { realm_roles = "admin" ∷ []; client_roles = [] }

abbrev urls : Urls
urls = record { with_host_variant = λ base host. base }

abbrev claims : Fields
claims =
    field "iss" (str "http://kc/realms/pm") (field "azp" (str "app") (field "sub" (str "ann") end))

abbrev one_key : Jwt
one_key = record {
  Key = String;
  get_signing_key = λ token. ok "key";
  decode = λ token key. ok claims;
}

abbrev with_user : Fields
with_user = put "session_id" null (put "user_id" (str "ann") claims)

admitted : get_token_payload urls plain_builtins one_key keycloak (some "token") ≡ ok with_user
unfolding get_token_payload verify_token_signature bearer found_key decoded validate_token_claims
    identified user_id_of session_id_of or_value truthy allowed_issuers candidate_issuer_roots
    str_of claim aud_matches ◌>>=◌ put rstrip get_default lower get_value
admitted = refl

get_token_payload-IsAdmitted_example :
    IsAdmitted urls plain_builtins one_key keycloak (some "token") with_user
get_token_payload-IsAdmitted_example =
    get_token_payload-IsAdmitted urls plain_builtins one_key keycloak (some "token") with_user
      admitted

abbrev columns : List String
columns = "kpi_id" ∷ "bts_anon" ∷ " start_time " ∷ "" ∷ []

validate_pm_columns-HasColumn_example :
    ((validate_pm_columns pm_schema columns).0 ≡ true
      → All (HasColumn pm_schema (present_columns columns)) pm_schema.required_columns)
    × All
        (λ c.
          (member c (present_columns columns) ≡ false)
          × (member c pm_schema.required_columns ≡ true))
        (validate_pm_columns pm_schema columns).1
validate_pm_columns-HasColumn_example = validate_pm_columns-HasColumn pm_schema columns

abbrev page : Request
page = record { request_id = some "r-1" }

handle-IsMasked_example : IsMasked integrity (handle page integrity)
unfolding handle fallback_handler envelope
handle-IsMasked_example = handle-IsMasked page integrity (omega arith)

poll_once-ok_example : (poll_once bucket succeeded (λ f. true) before).0 ≡ ok tt
poll_once-ok_example =
    poll_once-ok bucket succeeded (λ d i f. answered DagRunStatus.success) (λ f. true) before
