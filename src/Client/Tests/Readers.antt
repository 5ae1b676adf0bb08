-- ===== src/Client/Tests/Readers.antt =====
-- The theorems about what the test client reads, at concrete texts.
use keycloak_oidc4ac_lab.Prelude.{
  ◌/◌, ◌%◌, ◌≤◌, ◌+◌, String, ◌≡◌, refl, none, some, [], ◌∷◌, arith, length, if◌then◌else◌, All,
  ◌↔◌, ◌*◌, ℕ, List, codes, true, ok,
}
use keycloak_oidc4ac_lab.Prelude.Dict
use keycloak_oidc4ac_lab.Prelude.Dict.{Dict, is_member}
use keycloak_oidc4ac_lab.Prelude.Sorting.{le_text}
use keycloak_oidc4ac_lab.Prelude.Sorting.Laws.{IsAscending}
use keycloak_oidc4ac_lab.Json.{null, str, end, field}
use keycloak_oidc4ac_lab.Crypto.Sha1.{hmac_sha1, pack_u64}
use keycloak_oidc4ac_lab.Utf8
use keycloak_oidc4ac_lab.Utf8.{decode}
use keycloak_oidc4ac_lab.Utf8.Roundtrip.{is_scalar, decode-encode}
use keycloak_oidc4ac_lab.Base32.{b32encode, rstrip_pads}
use keycloak_oidc4ac_lab.Base32.Roundtrip
use keycloak_oidc4ac_lab.Base32.Roundtrip.{decode-b32encode}
use keycloak_oidc4ac_lab.Client.Environment.{Constants, constants}
use keycloak_oidc4ac_lab.Client.Helpers.{otp_helper, otp_code}
use keycloak_oidc4ac_lab.Client.Helpers.Secret.{otp_helper_enrols}
use keycloak_oidc4ac_lab.Base64.{urlsafe_b64decode}
use keycloak_oidc4ac_lab.Base64.Roundtrip.{encode, urlsafe_b64decode-encode}
use keycloak_oidc4ac_lab.Client.Claims.{parse_claims, claims}
use keycloak_oidc4ac_lab.Client.Claims.Accepted.{IsRequestObject, parse_claims_accepts}
use keycloak_oidc4ac_lab.Client.Discovery.{Method, list_member, builder_of}
use keycloak_oidc4ac_lab.Client.Discovery.Methods.{IsMethod, mentions, builder_complete}
use keycloak_oidc4ac_lab.Client.Totp.{current_totp, truncation_offset}
use keycloak_oidc4ac_lab.Client.Totp.Rfc.{IsDigit, read, dynamic_truncation, current_totp_rfc}
use keycloak_oidc4ac_lab.Client.Token.{decoded_access_token, pad_segment}
use keycloak_oidc4ac_lab.Client.Token.Payload.{decoded_access_token_payload}
use keycloak_oidc4ac_lab.Client.Tests.Samples.{requested, json, advertised, test_secret}

parse_claims_accepts_example :
    (parse_claims json (some "{}") ≡ claims requested) ↔ IsRequestObject json "{}" requested
parse_claims_accepts_example = parse_claims_accepts json "{}" requested

builder_complete_example :
    let names = list_member advertised "amr_identifiers_supported" in
    ((j : String)
      → (m : Method) × IsMethod advertised j m
        × (Dict.lookup j (builder_of advertised).methods
            ≡ (if mentions j names then some m else none)))
    × ((j : String) → is_member j (builder_of advertised).identifiers ≡ mentions j names)
    × IsAscending le_text (builder_of advertised).identifiers
builder_complete_example = builder_complete advertised

current_totp_rfc_example :
    let code = current_totp test_secret 59 in
    let digest = hmac_sha1 test_secret (pack_u64 (59 / 30)) in
    let offset = truncation_offset digest in
    (length code.digits ≡ 6)
    × All IsDigit code.digits
    × (read 0 code.digits ≡ dynamic_truncation digest offset % 1000000)
    × (offset + 4 ≤ length digest)
    × (59 + code.remaining ≡ (59 / 30 + 1) * 30)
    × (1 ≤ code.remaining)
    × (code.remaining ≤ 30)
current_totp_rfc_example = current_totp_rfc test_secret 59

urlsafe_b64decode-encode_example :
    urlsafe_b64decode (pad_segment (encode (0 ∷ 255 ∷ []))) ≡ some (0 ∷ 255 ∷ [])
urlsafe_b64decode-encode_example = urlsafe_b64decode-encode (0 ∷ 255 ∷ []) (omega arith)

decoded_access_token_payload_example : decoded_access_token json (str "a.e30.s") ≡ ok requested
unfolding decode
decoded_access_token_payload_example =
    decoded_access_token_payload json "a.e30.s" (97 ∷ []) (115 ∷ []) (123 ∷ 125 ∷ [])
      (123 ∷ 125 ∷ []) (field "userinfo" null end) refl (refl, tt) (refl, tt) (omega arith) refl
      refl

-- The secret of the lab's user.
abbrev lab_constants : Constants
lab_constants = constants []

lab_secret_scalar : All (λ c. is_scalar c ≡ true) (codes lab_constants.totp_secret)
unfolding constants Dict.lookup
lab_secret_scalar = (
  refl,
  (
    refl,
    (
      refl,
      (
        refl,
        (
          refl,
          (
            refl,
            (
              refl,
              (
                refl,
                (
                  refl,
                  (
                    refl,
                    (
                      refl,
                      (refl, (refl, (refl, (refl, (refl, (refl, (refl, (refl, (refl, tt))))))))),
                    ),
                  ),
                ),
              ),
            ),
          ),
        ),
      ),
    ),
  ),
)

otp_helper_enrols_example :
    let page = otp_helper lab_constants 59 in
    (secret : List ℕ) × (Roundtrip.decode page.secret_base32 ≡ some secret)
    × (current_totp secret 59 ≡ record { digits = page.code; remaining = page.remaining })
    × (otp_code lab_constants 59 ≡ (current_totp secret 59, 200))
otp_helper_enrols_example = otp_helper_enrols lab_constants 59 lab_secret_scalar

-- Texts whose encodings take one to four bytes a character.
abbrev greeting : List ℕ
greeting = 72 ∷ 233 ∷ 8364 ∷ 128274 ∷ []

decode-encode_example : decode (Utf8.encode greeting) ≡ some greeting
decode-encode_example = decode-encode greeting (refl, (refl, (refl, (refl, tt))))

decode-b32encode_example :
    Roundtrip.decode (rstrip_pads (b32encode (102 ∷ 111 ∷ 111 ∷ []))) ≡ some (102 ∷ 111 ∷ 111 ∷ [])
decode-b32encode_example =
    decode-b32encode (102 ∷ 111 ∷ 111 ∷ []) (omega arith, (omega arith, (omega arith, tt)))
