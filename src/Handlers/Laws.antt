-- ===== src/Handlers/Laws.antt =====
-- The status of a response, and what it may show.
use innovativeproject_pm_gen.Base.{
  ◌||◌, if◌then◌else◌, inl, inr, Bool-cases, none, ◌⊎◌, ◌≤◌, arith, ℕ, String, ◌≡◌, refl,
}
use innovativeproject_pm_gen.Handlers.{
  request_id_of, Request, http_handler, fallback_handler, envelope, runtime_handler, handle,
  airflow_handler, ErrorResponse,
}
use innovativeproject_pm_gen.Errors.{
  visualization_schema, request_invalid, AirflowError, visualization_storage, runtime, http, Kind,
  http_status_of, airflow, Exn,
}
use innovativeproject_pm_gen.Base.Text.{contains_text}

-- The status that an exception stands for.
abbrev pub status_of : Exn → ℕ
status_of (airflow e) = http_status_of e.kind
status_of (http status detail) = status
status_of (request_invalid errors) = 422
status_of (visualization_schema m) = 400
status_of (runtime m) =
    if contains_text "Airflow runtime not started" m || contains_text "Airflow configuration" m
    then 503
    else 500
status_of _ = 500

status_kind :
    (r : Request) (k : Kind) (e : AirflowError) → (airflow_handler r k e).status ≡ http_status_of k
unfolding airflow_handler envelope
status_kind r Kind.not_found e = refl
status_kind r _ e = refl

request_kind :
    (r : Request) (k : Kind) (e : AirflowError)
    → (airflow_handler r k e).request_id ≡ request_id_of r
unfolding airflow_handler envelope
request_kind r Kind.not_found e = refl
request_kind r _ e = refl

runtime_status :
    (r : Request) (m : String)
    → ((runtime_handler r m).status ≡ status_of (runtime m))
      × ((runtime_handler r m).request_id ≡ request_id_of r)
unfolding runtime_handler envelope
runtime_status r m =
    elim (Bool-cases
      (contains_text "Airflow runtime not started" m || contains_text "Airflow configuration" m)) [
        | inl h ↦ rw h (refl, refl)
        | inr h ↦ rw h (refl, refl)
      ]

-- The response has the status that the exception stands for, and the id of the request.
handle-status :
    (r : Request) (e : Exn)
    → ((handle r e).status ≡ status_of e) × ((handle r e).request_id ≡ request_id_of r)
unfolding handle http_handler runtime_handler fallback_handler envelope
handle-status r (airflow e) = (status_kind r e.kind e, request_kind r e.kind e)
handle-status r (runtime m) = runtime_status r m
handle-status r (http status detail) = (refl, refl)
handle-status r (request_invalid errors) = (refl, refl)
handle-status r _ = (refl, refl)

shown : (r : Request) (k : Kind) (e : AirflowError) → (airflow_handler r k e).message ≡ e.message
unfolding airflow_handler envelope
shown r Kind.not_found e = refl
shown r _ e = refl

runtime_message : (r : Request) (m : String) → (runtime_handler r m).message ≡ m
unfolding runtime_handler envelope
runtime_message r m =
    elim (Bool-cases
      (contains_text "Airflow runtime not started" m || contains_text "Airflow configuration" m)) [
        | inl h ↦ rw h refl
        | inr h ↦ rw h refl
      ]

-- The text of an exception that a response with a status of 500 may show: that of a RuntimeError,
-- of an HTTPException, or of an error of the Airflow integration.
unfoldable pub MayShow : Exn → ErrorResponse → Type 0
MayShow (runtime m) p = p.message ≡ m
MayShow (http status detail) p = p.message ≡ detail
MayShow (airflow e) p = p.message ≡ e.message
MayShow e p = ⊥

abbrev IsFixed : ErrorResponse → Type 0
IsFixed p =
    ((p.message ≡ "An unexpected error occurred.")
      ⊎ (p.message ≡ "An error occurred while accessing visualization storage."))
    × (p.details ≡ none)

abbrev pub IsMasked : Exn → ErrorResponse → Type 0
IsMasked e p = IsFixed p ⊎ MayShow e p

-- A response with a status of 500 or more shows a fixed text and no details, unless the exception is
-- a RuntimeError, an HTTPException or an error of the Airflow integration, whose text it shows.
pub handle-IsMasked : (r : Request) (e : Exn) → 500 ≤ (handle r e).status → IsMasked e (handle r e)
unfolding handle http_handler runtime_handler airflow_handler fallback_handler envelope MayShow
handle-IsMasked r (airflow e) h = inr (shown r e.kind e)
handle-IsMasked r (runtime m) h = inr (runtime_message r m)
handle-IsMasked r (http status detail) h = inr refl
handle-IsMasked r (request_invalid errors) h = ground (arith, h)
handle-IsMasked r (visualization_schema m) h = ground (arith, h)
handle-IsMasked r (visualization_storage m) h = inl (inr refl, refl)
handle-IsMasked r _ h = inl (inl refl, refl)
