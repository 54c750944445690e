-- ===== src/Access/Token/Admission.antt =====
-- Whom `get_token_payload` lets in.
use innovativeproject_pm_gen.Base.{
  String, ◌==◌, ◌≡◌, refl, ◌⊎◌, true, Option, none, some, Bool-cases, inl, inr, subst, ◌∙◌,
}
use innovativeproject_pm_gen.Base.Result.{Result, ok, err, ◌>>=◌, >>=-eq-ok, ok-injective}
use innovativeproject_pm_gen.Base.Table.{member}
use innovativeproject_pm_gen.Base.Text.{is_empty, lower, is_slash, rstrip}
use innovativeproject_pm_gen.Base.Value.{
  Fields, Builtins, str, str_of, get, get_value, put, get-put, get-put_ne, truthy,
}
use innovativeproject_pm_gen.Access.{
  Urls, KeycloakSettings, allowed_issuers, claim, aud_matches, validate_token_claims,
}
use innovativeproject_pm_gen.Access.Laws.{validate_token_claims_iff}
use innovativeproject_pm_gen.Access.Token.{
  Jwt, KeyError, DecodeError, bearer, found_key, decoded, verify_token_signature, identified,
  user_id_of, session_id_of, get_token_payload,
}

module _ (u : Urls) (b : Builtins) (jwt : Jwt) (s : KeycloakSettings) where
  -- The credentials are a token that a key of the realm has signed, for this client, and that names
  -- its user, who is the user of the payload.
  pub record IsAdmitted (credentials : Option String) (payload : Fields) : Type 0 where
    pub token : String
    pub key : jwt.Key
    pub claims : Fields
    pub given : credentials ≡ some token
    pub signed_by : jwt.get_signing_key token ≡ ok key
    pub signed : jwt.decode token key ≡ ok claims
    pub issuer : member (rstrip is_slash (claim u b claims "iss" "")) (allowed_issuers u s) ≡ true
    pub is_bearer : (lower (claim u b claims "typ" "Bearer") == "bearer") ≡ true
    pub for_client :
        ((claim u b claims "azp" "" == s.client_id) ≡ true)
        ⊎ ((is_empty (claim u b claims "azp" "") ≡ true)
            × (aud_matches u (get_value claims "aud") s.client_id ≡ true))
    pub has_user : truthy b (user_id_of b claims) ≡ true
    pub user : get payload "user_id" ≡ some (str (str_of b (user_id_of b claims)))

  bearer-ok :
      (credentials : Option String) (t : String) → bearer credentials ≡ ok t → credentials ≡ some t
  unfolding bearer
  bearer-ok none t h = cc
  bearer-ok (some x) t h = cc

  found_key-ok : {K : Type 0} (r : Result KeyError K) (k : K) → found_key s r ≡ ok k → r ≡ ok k
  unfolding found_key
  found_key-ok (ok x) k h = cc
  found_key-ok (err e) k h = cc

  decoded-ok : (r : Result DecodeError Fields) (p : Fields) → decoded r ≡ ok p → r ≡ ok p
  unfolding decoded
  decoded-ok (ok x) p h = cc
  decoded-ok (err e) p h = cc

  -- `session_id` is another key.
  user_put :
      (p : Fields)
      → get
          (put "session_id" (session_id_of b p) (put "user_id" (str (str_of b (user_id_of b p))) p))
          "user_id"
        ≡ some (str (str_of b (user_id_of b p)))
  user_put p = get-put_ne "user_id" "session_id" _ _ refl ∙ get-put "user_id" _ p

  identified-ok :
      (p q : Fields)
      → identified b p ≡ ok q
      → (truthy b (user_id_of b p) ≡ true)
        × (get q "user_id" ≡ some (str (str_of b (user_id_of b p))))
  unfolding identified ◌>>=◌
  identified-ok p q h = elim (Bool-cases (truthy b (user_id_of b p))) [
    | inl e ↦
        let same = ok-injective (rw e at h) in
        (e, subst (λ f. get f "user_id" ≡ some (str (str_of b (user_id_of b p)))) same (user_put p))
    | inr e ↦ let refused = rw e at h in cc
  ]

  -- If a payload is returned, then the credentials are a token whose signature a key of the realm
  -- verifies, the issuer is an allowed one, its type is Bearer, it was made for this client, by the
  -- authorized party or by the audience where no authorized party is named, and it names a user, who
  -- is the user of the payload.
  pub get_token_payload-IsAdmitted :
      (credentials : Option String) (payload : Fields)
      → get_token_payload u b jwt s credentials ≡ ok payload
      → IsAdmitted credentials payload
  unfolding get_token_payload verify_token_signature
  get_token_payload-IsAdmitted credentials payload h =
      let (token, given, h1) = >>=-eq-ok (bearer credentials) _ h in
      let (claims, verified, h2) = >>=-eq-ok (verify_token_signature jwt token s) _ h1 in
      let (key, found, read) = >>=-eq-ok (found_key s (jwt.get_signing_key token)) _ verified in
      let (unit, valid, h3) = >>=-eq-ok (validate_token_claims u b claims s) _ h2 in
      let (issuer, typ, client) = (validate_token_claims_iff u b claims s).0 valid in
      let (has_user, user) = identified-ok claims payload h3 in
      record {
        token = token;
        key = key;
        claims = claims;
        given = bearer-ok credentials token given;
        signed_by = found_key-ok (jwt.get_signing_key token) key found;
        signed = decoded-ok (jwt.decode token key) claims read;
        issuer = issuer;
        is_bearer = typ;
        for_client = client;
        has_user = has_user;
        user = user;
      }
