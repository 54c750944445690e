-- ===== src/Access/Laws.antt =====
-- Who gets in, and what is seen.
use innovativeproject_pm_gen.Schemas.{
  raw, preprocessed, generated, kpi_definitions, simple_reports, DatasetType,
}
use innovativeproject_pm_gen.Base.{◌≡◌, true, ◌↔◌, ◌⊎◌, arith, ◌==◌}
use innovativeproject_pm_gen.Base.Result.{ok, ◌>>=◌}
use innovativeproject_pm_gen.Access.{
  aud_matches, allowed_issuers, is_admin, claim, TokenPayload, validate_token_claims,
  KeycloakSettings, visible_storage_types, assert_storage_type_allowed, Urls,
}
use innovativeproject_pm_gen.Base.Value.{get_value, Fields, Builtins}
use innovativeproject_pm_gen.Base.Table.{member}
use innovativeproject_pm_gen.Base.Text.{is_empty, lower, is_slash, rstrip}

-- A dataset category is open to a user exactly if it is the generated one or the user is an admin.
assert_storage_type_allowed_iff :
    (s : KeycloakSettings) (p : TokenPayload) (t : DatasetType)
    → (assert_storage_type_allowed s p t ≡ ok tt) ↔ ((t ≡ generated) ⊎ (is_admin s p ≡ true))
unfolding assert_storage_type_allowed visible_storage_types
assert_storage_type_allowed_iff s p raw = ground arith
assert_storage_type_allowed_iff s p preprocessed = ground arith
assert_storage_type_allowed_iff s p generated = ground arith
assert_storage_type_allowed_iff s p kpi_definitions = ground arith
assert_storage_type_allowed_iff s p simple_reports = ground arith

module _ (u : Urls) (b : Builtins) where
  -- The claims pass exactly if the issuer is allowed, the type is Bearer, and the token was made for the
  -- client: by the authorized party, or by the audience where no authorized party is named.
  pub validate_token_claims_iff :
      (p : Fields) (s : KeycloakSettings)
      → let azp = claim u b p "azp" "" in
        (validate_token_claims u b p s ≡ ok tt) ↔ (
          (member (rstrip is_slash (claim u b p "iss" "")) (allowed_issuers u s) ≡ true)
          × ((lower (claim u b p "typ" "Bearer") == "bearer") ≡ true)
          × (((azp == s.client_id) ≡ true)
              ⊎ ((is_empty azp ≡ true) × (aud_matches u (get_value p "aud") s.client_id ≡ true))))
  unfolding validate_token_claims ◌>>=◌
  validate_token_claims_iff p s = ground arith
