-- ===== src/Client/Environment.antt =====
-- What test-client/app.py reads from its environment: its constants and the settings of `create_app`.
use keycloak_oidc4ac_lab.Prelude.{
  ℕ, ◌+◌, String, Bool, true, false, none, some, List, [], ◌∷◌, ◌<>◌, ◌&&◌, if◌then◌else◌, codes,
  leb, nat_eq, rstrip_slashes,
}
use keycloak_oidc4ac_lab.Prelude.Dict
use keycloak_oidc4ac_lab.Prelude.Dict.{Dict}
use keycloak_oidc4ac_lab.Client.Pages.{Config}
use keycloak_oidc4ac_lab.Client.Defaults.{default_claims}

abbrev pub Environment : Type 0
Environment = Dict String

-- `os.environ.get(name, default)`
abbrev pub variable : String → String → Environment → String
variable name default environ = elim (Dict.lookup name environ) [
  | none ↦ default
  | some text ↦ text
]

-- The constants of the module.
pub record Constants : Type 0 where
  pub issuer : String
  pub client_id : String
  pub client_secret : String
  pub smtp4dev_url : String
  pub totp_secret : String
  pub public_url : String

unfoldable pub constants : Environment → Constants
constants environ = record {
  issuer = variable "OIDC_ISSUER" "http://keycloak.localhost:8080/realms/oidc4ac" environ;
  client_id = variable "OIDC_CLIENT_ID" "oidc4ac-test-client" environ;
  client_secret = variable "OIDC_CLIENT_SECRET" "oidc4ac-lab-client-secret" environ;
  smtp4dev_url = variable "SMTP4DEV_URL" "http://localhost:5080" environ;
  totp_secret = variable "OIDC4AC_TOTP_SECRET" "DJmQfC73VGFhw7D4QJ8A" environ;
  public_url = rstrip_slashes (variable "OIDC4AC_PUBLIC_URL" "" environ);
}

-- What the handlers of `login` and `home` use of them, where Flask's `url_for` gives the second.
abbrev pub config_of : Constants → String → Config
config_of c callback_endpoint = record {
  public_url = c.public_url;
  callback_endpoint = callback_endpoint;
  default_claims = default_claims;
}

-- `c.lower()`, for an ASCII letter
abbrev lower : ℕ → ℕ
lower c = if leb 65 c && leb c 90 then c + 32 else c

abbrev same_lower : List ℕ → List ℕ → Bool
same_lower [] [] = true
same_lower [] (d ∷ ds) = false
same_lower (c ∷ cs) [] = false
same_lower (c ∷ cs) (d ∷ ds) = nat_eq (lower c) d && same_lower cs ds

-- `text.lower() == "true"`: no character beyond ASCII is one of its letters in lower case.
unfoldable pub is_true_text : String → Bool
is_true_text text = same_lower (codes text) (codes "true")

-- The settings that `create_app` gives to Flask and to authlib.
pub record AppSettings : Type 0 where
  pub secret_key : String
  pub session_cookie_secure : Bool
  pub server_metadata_url : String
  pub client_id : String
  pub client_secret : String
  pub scope : String

unfoldable pub create_app : Environment → AppSettings
unfolding constants is_true_text
create_app environ =
    let c = constants environ in
    record {
      secret_key = variable "FLASK_SECRET_KEY" "local-development-only-change-me" environ;
      session_cookie_secure = is_true_text (variable "OIDC4AC_PUBLIC_HTTPS" "false" environ);
      server_metadata_url = c.issuer <> "/.well-known/openid-configuration";
      client_id = c.client_id;
      client_secret = c.client_secret;
      scope = "openid profile email";
    }
