-- ===== src/Client/Login/Escapes.antt =====
-- Texts on which `json.loads` raises another exception than `JSONDecodeError`, such as an integer of
-- more digits than Python converts or arrays nested too deeply, at `preview` and `login` of
-- test-client/app.py.
use keycloak_oidc4ac_lab.Prelude.{
  ◌≤◌, String, ◌≡◌, false, some, codes, is_blank, utf8_length, ltb, arith, Error, err, ap, ◌∙◌,
  refl,
}
use keycloak_oidc4ac_lab.Prelude.Dict
use keycloak_oidc4ac_lab.Prelude.Dict.{Dict}
use keycloak_oidc4ac_lab.Json.{JsonText, raised}
use keycloak_oidc4ac_lab.Client.Claims.{escaped, parse_claims, size_limit}
use keycloak_oidc4ac_lab.Client.Pages.{Config, Provider, Inputs, Site}
use keycloak_oidc4ac_lab.Client.Login.{login, preview, is_on}

module _ (config : Config) (json : JsonText) (raw : String) (error : Error)
    (text : is_blank (codes raw) ≡ false) (fits : utf8_length (codes raw) ≤ size_limit)
    (loaded : json.loads (codes raw) ≡ raised error) where
  parse_claims-raised : parse_claims json (some raw) ≡ escaped error
  unfolding parse_claims
  parse_claims-raised =
      let short : ltb size_limit (utf8_length (codes raw)) ≡ false = ground arith in
      rw (text, short, loaded, parse_claims) refl

  -- For a text that is not blank and fits, and on which `json.loads` raises an exception that is no
  -- `JSONDecodeError`, neither `preview` nor a `login` that does not omit the claims answers with the
  -- page of a rejected text: both let the exception through, and leave the caches and the session as
  -- they were.
  pub raised_text_escapes :
      (provider : Provider) (form : Dict String) (inputs : Inputs) (site : Site)
      → Dict.lookup "claims_json" form ≡ some raw
      → (preview config json form inputs site ≡ record { site = site; response = err error })
        × (is_on "omit_claims" form ≡ false
            → login config json provider form inputs site
              ≡ record { site = site; response = err error })
  unfolding preview login
  raised_text_escapes provider form inputs site given =
      let parsed = ap (parse_claims json) given ∙ parse_claims-raised in
      (rw (parsed, preview) refl, λ offered. rw (offered, parsed, login) refl)
