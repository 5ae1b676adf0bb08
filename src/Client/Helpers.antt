-- ===== src/Client/Helpers.antt =====
-- The handlers of test-client/app.py that keep no state: /healthz, /otp, /tools and /otp-code.
pub mod Secret
use keycloak_oidc4ac_lab.Prelude.{ℕ, String, List, [], ◌∷◌, ◌<>◌, codes, rstrip_slashes}
use keycloak_oidc4ac_lab.Prelude.Dict.{Dict}
use keycloak_oidc4ac_lab.Base32.{b32encode, rstrip_pads}
use keycloak_oidc4ac_lab.Utf8.{encode}
use keycloak_oidc4ac_lab.Client.Totp.{Code, current_totp}
use keycloak_oidc4ac_lab.Client.Environment.{Constants}

-- What `otp.html` is given; texts as code points.
pub record OtpPage : Type 0 where
  pub username : String
  pub code : List ℕ
  pub remaining : ℕ
  pub secret_base32 : List ℕ

pub record ToolsPage : Type 0 where
  pub smtp4dev_url : String
  pub account_url : String

unfoldable pub healthz : Dict String × ℕ
healthz = (("status", "ok") ∷ [], 200)

-- `TOTP_SECRET.encode()`
abbrev pub secret_of : Constants → List ℕ
secret_of constants = encode (codes constants.totp_secret)

unfoldable pub otp_helper : Constants → ℕ → OtpPage
otp_helper constants now =
    let current = current_totp (secret_of constants) now in
    record {
      username = "alice";
      code = current.digits;
      remaining = current.remaining;
      secret_base32 = rstrip_pads (b32encode (secret_of constants));
    }

unfoldable pub factor_tools : Constants → ToolsPage
factor_tools constants = record {
  smtp4dev_url = constants.smtp4dev_url;
  account_url = rstrip_slashes constants.issuer <> "/account";
}

unfoldable pub otp_code : Constants → ℕ → Code × ℕ
otp_code constants now = (current_totp (secret_of constants) now, 200)
