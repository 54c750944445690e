-- ===== src/Airflow/Service.antt =====
-- apps/backend/app/services/airflow/service.py: the runs of `AirflowService`, with its caches. A cached
-- summary stands as the payload that pydantic validates it from.
pub mod Cache
pub mod Actions
pub mod Effects
use text.Mathlib.Text.{starts_with}
use innovativeproject_pm_gen.Base.{
  ◌-◌, ltb, ◌&&◌, ◌||◌, not, ◌==◌, ◌++◌, if◌then◌else◌, ℕ, String, ◌<>◌, Bool, true, false, Option,
  none, some, List, [], ◌∷◌,
}
use innovativeproject_pm_gen.Base.Exec.{Exec, pure, raise, lift, gets, modify, catch, ◌>>=◌, ◌>>◌}
use innovativeproject_pm_gen.Base.Value.{
  or_value, end, str_of, null, field, as_dict, Fault, str, obj, get_value, Value, Fields,
}
use innovativeproject_pm_gen.Airflow.Http.{World}
use innovativeproject_pm_gen.Base.Text.{strip, is_empty, join}
use innovativeproject_pm_gen.Base.Table.{member, same_pair}
use innovativeproject_pm_gen.Errors.{AirflowError, python, Kind, airflow, Exn}
use innovativeproject_pm_gen.Base.Result.{err, ok, Result}
use innovativeproject_pm_gen.Airflow.Auth.{Session}
use innovativeproject_pm_gen.Airflow.Endpoints.{list_dag_runs, get_dag_run}
use innovativeproject_pm_gen.Airflow.Payload.{find_listed, lookup_ids}

abbrev pub RunKey : Type 0
RunKey = String × String

abbrev pub TaskKey : Type 0
TaskKey = String × String × String

pub record Flow (w : World) : Type 0 where
  pub session : Session w
  pub dag_list_cache : Option (ℕ × List Value)
  pub run_cache : List (RunKey × (ℕ × Value))
  pub task_list_cache : List (RunKey × (ℕ × List Value))
  pub task_cache : List (TaskKey × (ℕ × Value))

-- `cache.get(key)`
unfoldable pub cached_run {ℓ} : {A : Type ℓ} → RunKey → List (RunKey × A) → Option A
cached_run k [] = none
cached_run k ((j, a) ∷ c) = if same_pair j k then some a else cached_run k c

-- `cache.pop(key, None)`
unfoldable pub drop_run {ℓ} : {A : Type ℓ} → RunKey → List (RunKey × A) → List (RunKey × A)
drop_run k [] = []
drop_run k ((j, a) ∷ c) = let rest = drop_run k c in if same_pair j k then rest else (j, a) ∷ rest

abbrev pub of_run : RunKey → TaskKey → Bool
of_run k (dag, run, task) = same_pair (dag, run) k

-- The keys of a run are dropped, one by one.
unfoldable pub drop_tasks {ℓ} : {A : Type ℓ} → RunKey → List (TaskKey × A) → List (TaskKey × A)
drop_tasks k [] = []
drop_tasks k ((j, a) ∷ c) = let rest = drop_tasks k c in if of_run k j then rest else (j, a) ∷ rest

abbrev active_run_ttl : ℕ
active_run_ttl = 5000000

abbrev terminal_run_ttl : ℕ
terminal_run_ttl = 3600000000

abbrev pub is_terminal : String → Bool
is_terminal state = state == "success" || state == "failed"

module _ (w : World) where
  abbrev pub Service : Type 0 → Type 0
  Service A = Exec Exn (Flow w) A

  unfoldable pub on_client : {A : Type 0} → Exec Exn (Session w) A → Service A
  on_client m s = let (r, session) = m s.session in (r, record s { session = session })

  -- An operation on payloads that may raise.
  abbrev pub checked : {A : Type 0} → Result Fault A → Service A
  checked (ok a) = pure a
  checked (err e) = raise (python e)

  abbrev pub clock : Service ℕ
  clock s = (ok (w.monotonic s.session.outside), s)

  unfoldable pub invalidate_dag_list_cache : Service (Unit {0})
  invalidate_dag_list_cache = modify (λ s. record s { dag_list_cache = none })

  unfoldable pub forget_run : RunKey → Flow w → Flow w
  forget_run k s = record s {
    run_cache = drop_run k s.run_cache;
    task_list_cache = drop_run k s.task_list_cache;
    task_cache = drop_tasks k s.task_cache;
  }

  unfoldable pub invalidate_run_caches : String → String → Service (Unit {0})
  invalidate_run_caches dag_id run_id = modify (forget_run (dag_id, run_id))

  not_found_error : String → Fields → AirflowError
  not_found_error message details = record {
    kind = Kind.not_found;
    message = message;
    details = some (obj details);
  }

  optional_text : Option String → Value
  optional_text none = null
  optional_text (some t) = str t

  -- `run_id or genpm_run_id`
  searched_id : String → Option String → String
  searched_id run_id none = if is_empty run_id then "None" else run_id
  searched_id run_id (some genpm) = if is_empty run_id then genpm else run_id

  found_or_raise : String → String → Option String → Option Value → Service Value
  found_or_raise dag_id run_id genpm (some v) = pure v
  found_or_raise dag_id run_id genpm none = raise (
      airflow (
        not_found_error
          ("Dag run '"
            <> (searched_id run_id genpm <> ("' not found for DAG '" <> (dag_id <> "'"))))
          (field "dag_id" (str dag_id)
            (field "run_id" (str run_id) (field "genpm_run_id" (optional_text genpm) end)))))

  -- The scan of the recent runs.
  unfoldable pub search_runs : String → String → Option String → Service Value
  unfolding found_or_raise not_found_error optional_text searched_id
  search_runs dag_id run_id genpm = do
    raw ← on_client (list_dag_runs w dag_id 100 0 "-start_date" none)
    found ← checked (find_listed w.builtins (lookup_ids run_id genpm) raw)
    found_or_raise dag_id run_id genpm found

  only_not_found : AirflowError → Kind → Service (Option Value)
  only_not_found e Kind.not_found = pure none
  only_not_found e k = raise (airflow e)

  on_get_error : Exn → Service (Option Value)
  on_get_error (airflow e) = only_not_found e e.kind
  on_get_error e = raise e

  -- `if run_id: try: return await get_dag_run  except AirflowNotFound`
  by_id : String → String → Service (Option Value)
  by_id dag_id run_id =
      if is_empty run_id
      then pure none
      else catch (do v ← on_client (get_dag_run w dag_id run_id); pure (some v)) on_get_error

  or_search : String → String → Option String → Option Value → Service Value
  or_search dag_id run_id genpm (some v) = pure v
  or_search dag_id run_id genpm none = search_runs dag_id run_id genpm

  -- `_fetch_dag_run_raw`
  unfoldable pub fetch_dag_run_raw : String → String → Option String → Service Value
  unfolding not_found_error by_id or_search only_not_found on_get_error
  fetch_dag_run_raw dag_id run_id genpm = elim (lookup_ids run_id genpm) [
    | [] ↦ raise (
        airflow (
          not_found_error ("No run id provided for DAG '" <> (dag_id <> "'"))
            (field "dag_id" (str dag_id) end)))
    | _ ∷ _ ↦ do v ← by_id dag_id run_id; or_search dag_id run_id genpm v
  ]

  -- `run_id if run_id.startswith("genpm_") else None`
  unfoldable pub genpm_id : String → Option String
  genpm_id run_id = if starts_with run_id "genpm_" then some run_id else none

  unfoldable pub store_run : RunKey → Value → Service (Unit {0})
  store_run k raw = do
    at ← clock
    modify (λ s. record s { run_cache = (k, (at, raw)) ∷ drop_run k s.run_cache })

  unfoldable pub fetch_run : RunKey → Service Value
  fetch_run (dag_id, run_id) = do
    raw ← fetch_dag_run_raw dag_id run_id (genpm_id run_id)
    store_run (dag_id, run_id) raw
    pure raw

  unfoldable pub run_ttl : Fields → ℕ
  run_ttl d =
      if is_terminal (str_of w.builtins (or_value w.builtins (get_value d "state") (str "")))
      then terminal_run_ttl
      else active_run_ttl

  unfoldable pub aged : ℕ → Value → Result Fault Fields → Result Fault (Option Value)
  aged age raw (ok d) = ok (if ltb age (run_ttl d) then some raw else none)
  aged age raw (err e) = err e

  unfoldable pub fresh_entry : ℕ → Option (ℕ × Value) → Result Fault (Option Value)
  fresh_entry now none = ok none
  fresh_entry now (some (at, raw)) = aged (now - at) raw (as_dict raw)

  -- The cached payload while it is fresh; the clock does not go back. One that is no dict raises.
  unfoldable pub fresh_run : RunKey → Flow w → Result Fault (Option Value)
  fresh_run k s = fresh_entry (w.monotonic s.session.outside) (cached_run k s.run_cache)

  unfoldable pub or_fetch : RunKey → Result Fault (Option Value) → Service Value
  or_fetch k (ok (some raw)) = pure raw
  or_fetch k (ok none) = fetch_run k
  or_fetch k (err e) = raise (python e)

  -- The payload of which `get_dag_run` returns the summary.
  unfoldable pub get_dag_run_raw : String → String → Service Value
  get_dag_run_raw dag_id run_id = do
    cached ← gets (fresh_run (dag_id, run_id))
    or_fetch (dag_id, run_id) cached
