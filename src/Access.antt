-- ===== src/Access.antt =====
-- apps/backend/app/core/auth.py and storage_access.py: the claims of a token, roles, and the datasets that
-- a user may see. The signature of a token is checked by PyJWT: its payload is the input here.
pub mod Laws
pub mod Token
use innovativeproject_pm_gen.Base.{
  ◌==◌, ◌++◌, if◌then◌else◌, ℕ, String, ◌<>◌, Bool, true, false, not, ◌||◌, ◌&&◌, Option, none,
  some, List, [], ◌∷◌, map,
}
use innovativeproject_pm_gen.Base.Result.{Result, ok, err, ◌>>=◌, ◌>>◌, guard}
use innovativeproject_pm_gen.Base.Value.{
  nil, get_value, get_default, arr, str_of, str, cons, Fields, Value, Items, Builtins,
}
use innovativeproject_pm_gen.Schemas.{
  generated, preprocessed, simple_reports, type_eq, kpi_definitions, raw, DatasetType, Dataset,
}
use innovativeproject_pm_gen.Errors.{http, Exn}
use innovativeproject_pm_gen.Base.Table.{lookup, member}
use innovativeproject_pm_gen.Base.Text.{lower, is_slash, is_empty, rstrip}
use innovativeproject_pm_gen.Base.Sets.{has}

pub record KeycloakSettings : Type 0 where
  pub server_url : String
  pub issuer_url : String
  pub realm : String
  pub client_id : String
  pub required_roles : List String
  pub admin_role : String

-- The parts of `TokenPayload` that access depends on.
pub record TokenPayload : Type 0 where
  pub realm_roles : List String
  -- `resource_access`, by client
  pub client_roles : List (String × List String)

-- `_with_host_variant`, on `urllib.parse`
pub record Urls : Type 0 where
  pub with_host_variant : String → String → String

unfoldable pub unauthorized : String → Exn
unauthorized detail = http 401 detail

unfoldable forbidden : String → Exn
forbidden detail = http 403 detail

-- `_extract_roles`
unfoldable pub extract_roles : TokenPayload → String → List String
extract_roles p client_id =
    p.realm_roles ++ (elim (lookup client_id p.client_roles) [ none ↦ [] | some roles ↦ roles ])

module _ (u : Urls) where
  root_variants : String → List String
  root_variants root =
      root ∷ u.with_host_variant root "localhost" ∷ u.with_host_variant root "127.0.0.1" ∷ []

  nonempty_roots : List String → List String
  nonempty_roots [] = []
  nonempty_roots (r ∷ rs) =
      let rest = nonempty_roots rs in if is_empty r then rest else rstrip is_slash r ∷ rest

  -- `_candidate_issuer_roots`
  unfoldable pub candidate_issuer_roots : KeycloakSettings → List String
  unfolding root_variants nonempty_roots
  candidate_issuer_roots s =
      nonempty_roots (
        root_variants (rstrip is_slash s.issuer_url)
        ++ root_variants (rstrip is_slash s.server_url))

  -- `_allowed_issuers`
  unfoldable pub allowed_issuers : KeycloakSettings → List String
  allowed_issuers s = map (λ root. root <> ("/realms/" <> s.realm)) (candidate_issuer_roots s)

  -- `token_aud == settings.client_id or (isinstance(token_aud, list) and client_id in token_aud)`
  holds_text : String → Items → Bool
  holds_text t nil = false
  holds_text t (cons (str s) r) = s == t || holds_text t r
  holds_text t (cons v r) = holds_text t r

  unfoldable pub aud_matches : Value → String → Bool
  unfolding holds_text
  aud_matches (str s) client = s == client
  aud_matches (arr xs) client = holds_text client xs
  aud_matches _ client = false

  -- `str(payload.get(key, default))`
  unfoldable pub claim : Builtins → Fields → String → String → String
  claim b p key default = str_of b (get_default p key (str default))

  -- `_validate_token_claims`
  unfoldable pub validate_token_claims :
      Builtins → Fields → KeycloakSettings → Result Exn (Unit {0})
  unfolding unauthorized
  validate_token_claims b p s =
      let azp = claim b p "azp" "" in
      guard (member (rstrip is_slash (claim b p "iss" "")) (allowed_issuers s))
        (unauthorized "Invalid token issuer")
      >> guard (lower (claim b p "typ" "Bearer") == "bearer") (unauthorized "Invalid token type")
      >> guard (is_empty azp || azp == s.client_id) (unauthorized "Invalid token client")
      >> guard (aud_matches (get_value p "aud") s.client_id || azp == s.client_id)
          (unauthorized "Invalid token audience/client")

unfoldable pub roles_missing : List String → List String → Bool
roles_missing [] roles = false
roles_missing (r ∷ rs) roles = not (member r roles) || roles_missing rs roles

unfoldable pub require_auth : KeycloakSettings → TokenPayload → Result Exn TokenPayload
unfolding forbidden
require_auth s p =
    if roles_missing s.required_roles (extract_roles p s.client_id)
    then err (forbidden "Insufficient permissions")
    else ok p

-- `admin_role in roles`: `require_admin`, `assert_modeling_admin` and `is_storage_admin` ask it.
unfoldable pub is_admin : KeycloakSettings → TokenPayload → Bool
is_admin s p = member s.admin_role (extract_roles p s.client_id)

unfoldable pub require_admin : String → KeycloakSettings → TokenPayload → Result Exn TokenPayload
unfolding forbidden
require_admin detail s p = require_auth s p >>= λ q. guard (is_admin s q) (forbidden detail) >> ok q

unfoldable pub visible_storage_types : KeycloakSettings → TokenPayload → List DatasetType
visible_storage_types s p =
    if is_admin s p
    then raw ∷ kpi_definitions ∷ simple_reports ∷ preprocessed ∷ generated ∷ []
    else generated ∷ []

unfoldable pub assert_storage_type_allowed :
    KeycloakSettings → TokenPayload → DatasetType → Result Exn (Unit {0})
unfolding forbidden
assert_storage_type_allowed s p t =
    guard (has type_eq t (visible_storage_types s p))
      (forbidden "You do not have permission to access this dataset category")

unfoldable pub assert_raw_dataset : Dataset → Bool → Result Exn (Unit {0})
assert_raw_dataset d for_status =
    let detail =
      if for_status
      then "Status updates allowed only for RAW datasets"
      else "Multipart upload allowed only for RAW datasets" in
    guard (has type_eq d.type (raw ∷ kpi_definitions ∷ simple_reports ∷ preprocessed ∷ []))
      (http 403 detail)
