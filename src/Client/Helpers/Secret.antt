-- ===== src/Client/Helpers/Secret.antt =====
-- The helpers of test-client/app.py beside an authenticator application: what `/otp` shows of the
-- secret is the secret whose codes it shows.
use keycloak_oidc4ac_lab.Prelude.{ℕ, ◌≡◌, refl, true, some, List, codes, All}
use keycloak_oidc4ac_lab.Base32.Roundtrip
use keycloak_oidc4ac_lab.Base32.Roundtrip.{decode-b32encode}
use keycloak_oidc4ac_lab.Utf8.Roundtrip.{is_scalar, encode-AreBytes}
use keycloak_oidc4ac_lab.Client.Totp.{current_totp}
use keycloak_oidc4ac_lab.Client.Environment.{Constants}
use keycloak_oidc4ac_lab.Client.Helpers.{otp_helper, otp_code, secret_of}

-- When the secret is a text without surrogates, the Base32 text that `/otp` shows decodes to bytes
-- whose code at the same second is the one it shows, with the same seconds remaining; and `/otp-code`
-- answers with that code.
pub otp_helper_enrols :
    (constants : Constants) (now : ℕ)
    → All (λ c. is_scalar c ≡ true) (codes constants.totp_secret)
    → let page = otp_helper constants now in
      (secret : List ℕ) × (Roundtrip.decode page.secret_base32 ≡ some secret)
      × (current_totp secret now ≡ record { digits = page.code; remaining = page.remaining })
      × (otp_code constants now ≡ (current_totp secret now, 200))
unfolding otp_helper otp_code
otp_helper_enrols constants now h = (
  secret_of constants,
  decode-b32encode (secret_of constants) (encode-AreBytes (codes constants.totp_secret) h),
  refl,
  refl,
)
