-- ===== src/Client/Grants.antt =====
-- The handlers `callback` and `refresh` of `create_app` in test-client/app.py, and `render_result`.
use keycloak_oidc4ac_lab.Prelude.{
  zero, suc, String, Bool, true, false, not, Option, none, some, ◌==◌, is_empty, ◌||◌,
  if◌then◌else◌, Result, ◌>>=◌,
}
use keycloak_oidc4ac_lab.Prelude.Dict
use keycloak_oidc4ac_lab.Prelude.Dict.{Dict}
use keycloak_oidc4ac_lab.Json.{
  Value, str, null, JsonText, object, bool, int, pos, negsuc, float, arr, nil, obj, end,
}
use keycloak_oidc4ac_lab.Client.Caches.{Authorization, Grant}
use keycloak_oidc4ac_lab.Client.Discovery.{discovery_metadata}
use keycloak_oidc4ac_lab.Client.Token.{decoded_access_token}
use keycloak_oidc4ac_lab.Client.Pages.{
  Token, Provider, error_page, result_page, Response, Inputs, Site, Outcome, page_at, prune_site,
}

-- Python's truth of a value that is neither None nor a number
abbrev pub is_true : Value → Bool
is_true null = false
is_true (bool b) = b
is_true (int (pos zero)) = false
is_true (int (pos (suc n))) = true
is_true (int (negsuc n)) = true
is_true (float text) = not (text == "0.0" || text == "-0.0")
is_true (str s) = not (is_empty s)
is_true (arr nil) = false
is_true (arr vs) = true
is_true (obj end) = false
is_true (obj fs) = true

-- `d.get(name)` with None for a missing name
abbrev pub get_or_none : String → Dict Value → Value
get_or_none name d = elim (Dict.lookup name d) [ none ↦ null | some v ↦ v ]

-- `AUTHORIZATION_CACHE.pop(context_id, None) if context_id else None`
unfoldable pub take_context : Option String → Dict Authorization → Option Authorization
take_context none cache = none
take_context (some state) cache = if is_empty state then none else Dict.lookup state cache

abbrev pub without_context : Option String → Site → Site
without_context none site = site
without_context (some state) site = if is_empty state then site else record site {
  caches = record { authorizations = Dict.remove state site.authorizations; tokens = site.tokens };
}

abbrev pub description_of : Dict String → String
description_of args = elim (Dict.lookup "error_description" args) [
  | none ↦ "No public description was returned."
  | some text ↦ text
]

abbrev pub reported_error : Dict String → Option String
reported_error args = elim (Dict.lookup "error" args) [
  | none ↦ none
  | some error ↦ if is_empty error then none else some error
]

-- `request.form.get("result_id") or session.get("oidc4ac_result")`
abbrev pub wanted_result : Dict String → Option String → Option String
wanted_result form session = elim (Dict.lookup "result_id" form) [
  | none ↦ session
  | some id ↦ if is_empty id then session else some id
]

-- `TOKEN_CACHE.get(result_id)`, if it has a refresh token
unfoldable pub refreshable : Option String → Dict Grant → Option (String × Grant)
refreshable none cache = none
refreshable (some id) cache = elim (Dict.lookup id cache) [
  | none ↦ none
  | some grant ↦ if is_true grant.refresh_token then some (id, grant) else none
]

-- `token.get("refresh_token", cached["refresh_token"])`
abbrev pub rotated : Token → Grant → Value
rotated token grant = elim (Dict.lookup "refresh_token" token) [
  | none ↦ grant.refresh_token
  | some v ↦ v
]

-- The error pages of the two handlers.
abbrev pub reported : String → Dict String → Result Response
reported error args = page_at 200 (error_page error (description_of args))

abbrev pub missing_context : Result Response
missing_context =
    page_at 400 (error_page "missing_context" "The local relying-party session has expired.")

abbrev pub validation_failed : Result Response
validation_failed =
    page_at 400
      (error_page "token_validation_failed" "The authorization response could not be verified.")

abbrev pub no_refresh_token : Result Response
no_refresh_token =
    page_at 400 (error_page "no_refresh_token" "Start a new authorization request to test refresh.")

abbrev pub refresh_failed : Result Response
refresh_failed =
    page_at 400 (error_page "refresh_failed" "The refreshed token response could not be verified.")

-- The entry that `callback` adds to TOKEN_CACHE.
abbrev pub grant_of : Token → Authorization → Inputs → Grant
grant_of token context inputs = record {
  refresh_token = get_or_none "refresh_token" token;
  claims = context.claims;
  created_at = inputs.stored_at;
}

module _ (json : JsonText) (provider : Provider) where
  unfoldable pub render_result :
      Dict Value → Dict Value → Dict Value → Value → String → String → Result Response
  render_result requested id_token userinfo access_token source result_id = do
    claims ← json.pretty (object requested)
    metadata ← discovery_metadata provider.discovery_document
    discovery ← json.pretty (object metadata)
    id_text ← json.pretty (object id_token)
    payload ← decoded_access_token json access_token
    access_text ← json.pretty (object payload)
    userinfo_text ← json.pretty (object userinfo)
    page_at 200 (
        result_page (record {
          claims = claims;
          discovery = discovery;
          id_token = id_text;
          access_token = access_text;
          userinfo = userinfo_text;
          allow_refresh = true;
          source = source;
          result_id = result_id;
        }))

  -- The body of the `try` of both handlers: the validated claims of a token response.
  unfoldable pub verified : Option Token → Option String → Option (Token × Dict Value × Dict Value)
  verified none expected = none
  verified (some token) expected = elim (provider.parse_id_token token expected) [
    | none ↦ none
    | some id_token ↦ elim (provider.userinfo token) [
      | none ↦ none
      | some userinfo ↦ some (token, id_token, userinfo)
    ]
  ]

  -- The rest of `callback`, once its pending authorization has been taken out of the cache.
  unfoldable pub finish_authorization : Option Authorization → Inputs → Site → Outcome
  unfolding render_result verified
  finish_authorization none inputs site = record { site = site; response = missing_context }
  finish_authorization (some context) inputs site =
      elim (verified provider.authorize_access_token (some context.nonce)) [
        | none ↦ record { site = site; response = validation_failed }
        | some (token, id_token, userinfo) ↦ record {
          site = record {
            caches = record {
              authorizations = site.authorizations;
              tokens = Dict.insert inputs.fresh_id (grant_of token context inputs) site.tokens;
            };
            session = some inputs.fresh_id;
          };
          response =
              render_result context.claims id_token userinfo (get_or_none "access_token" token)
                "Authorization code response" inputs.fresh_id;
        }
      ]

  unfoldable pub callback : Dict String → Inputs → Site → Outcome
  unfolding finish_authorization take_context
  callback args inputs site = elim (reported_error args) [
    | some error ↦ record { site = site; response = reported error args }
    | none ↦
        let state = Dict.lookup "state" args in
        finish_authorization (take_context state site.authorizations) inputs
          (without_context state site)
  ]

  -- The rest of `refresh`. The cached entry is changed in place.
  unfoldable pub finish_refresh : Option (String × Grant) → Inputs → Site → Outcome
  unfolding render_result verified
  finish_refresh none inputs site = record { site = site; response = no_refresh_token }
  finish_refresh (some (id, grant)) inputs site =
      elim (verified (provider.fetch_access_token grant.refresh_token) none) [
        | none ↦ record { site = site; response = refresh_failed }
        | some (token, id_token, userinfo) ↦ record {
          site = record {
            caches = record {
              authorizations = site.authorizations;
              tokens =
                  Dict.insert id
                    (record {
                      refresh_token = rotated token grant;
                      claims = grant.claims;
                      created_at = inputs.stored_at;
                    })
                    site.tokens;
            };
            session = site.session;
          };
          response =
              render_result grant.claims id_token userinfo (get_or_none "access_token" token)
                "Refresh token response" id;
        }
      ]

  unfoldable pub refresh : Dict String → Inputs → Site → Outcome
  unfolding finish_refresh refreshable
  refresh form inputs site =
      let pruned = prune_site inputs site in
      finish_refresh (refreshable (wanted_result form pruned.session) pruned.tokens) inputs pruned
