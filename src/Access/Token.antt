-- ===== src/Access/Token.antt =====
-- apps/backend/app/core/auth.py, `get_token_payload`: from the credentials of a request to the payload
-- of its user. PyJWT and the client for the signing keys are arguments.
pub mod Admission
use innovativeproject_pm_gen.Base.{
  String, ◌<>◌, Bool, true, false, Option, none, some, if◌then◌else◌,
}
use innovativeproject_pm_gen.Base.Result.{Result, ok, err, ◌>>=◌, ◌>>◌, guard}
use innovativeproject_pm_gen.Base.Text.{is_empty}
use innovativeproject_pm_gen.Base.Value.{
  Fields, Value, Builtins, null, str, str_of, get_value, or_value, put, truthy,
}
use innovativeproject_pm_gen.Errors.{Exn, http}
use innovativeproject_pm_gen.Access.{Urls, KeycloakSettings, unauthorized, validate_token_claims}

-- `PyJWKClientError`, which is caught, or another exception.
pub data KeyError : Type 0 where
  client_error : KeyError
  other : Exn → KeyError

-- `InvalidTokenError` with its text, or another exception.
pub data DecodeError : Type 0 where
  invalid : String → DecodeError
  other : Exn → DecodeError

pub record Jwt : Type 1 where
  pub Key : Type 0
  pub get_signing_key : String → Result KeyError Key
  pub decode : String → Key → Result DecodeError Fields

abbrev pub jwks_url : KeycloakSettings → String
jwks_url s = s.server_url <> ("/realms/" <> (s.realm <> "/protocol/openid-connect/certs"))

unfoldable pub on_key_error : KeycloakSettings → KeyError → Exn
unfolding unauthorized
on_key_error s client_error =
    unauthorized
      ("Invalid bearer token (JWKS/signature key lookup failed at " <> (jwks_url s <> ")"))
on_key_error s (KeyError.other e) = e

unfoldable pub on_decode_error : DecodeError → Exn
unfolding unauthorized
on_decode_error (invalid text) = unauthorized ("Invalid bearer token (" <> (text <> ")"))
on_decode_error (DecodeError.other e) = e

unfoldable pub found_key : {K : Type 0} → KeycloakSettings → Result KeyError K → Result Exn K
found_key s (ok key) = ok key
found_key s (err e) = err (on_key_error s e)

unfoldable pub decoded : Result DecodeError Fields → Result Exn Fields
decoded (ok p) = ok p
decoded (err e) = err (on_decode_error e)

unfoldable pub verify_token_signature : Jwt → String → KeycloakSettings → Result Exn Fields
verify_token_signature jwt token s =
    found_key s (jwt.get_signing_key token) >>= λ key. decoded (jwt.decode token key)

unfoldable pub bearer : Option String → Result Exn String
unfolding unauthorized
bearer none = err (unauthorized "Missing bearer token")
bearer (some token) = ok token

unfoldable pub user_id_of : Builtins → Fields → Value
user_id_of b p = or_value b (get_value p "sub") (get_value p "client_id")

unfoldable pub session_id_of : Builtins → Fields → Value
session_id_of b p =
    let session_id = or_value b (get_value p "sid") (get_value p "session_state") in
    if truthy b session_id then str (str_of b session_id) else null

-- The fields that `TokenPayload` is made of.
unfoldable pub identified : Builtins → Fields → Result Exn Fields
unfolding unauthorized
identified b p =
    guard (truthy b (user_id_of b p))
      (unauthorized "Token payload is missing identification claims (sub/client_id)")
    >> ok (put "session_id" (session_id_of b p) (put "user_id" (str (str_of b (user_id_of b p))) p))

unfoldable pub get_token_payload :
    Urls → Builtins → Jwt → KeycloakSettings → Option String → Result Exn Fields
get_token_payload u b jwt s credentials = bearer credentials >>= λ token.
    verify_token_signature jwt token s >>= λ p. validate_token_claims u b p s >> identified b p
