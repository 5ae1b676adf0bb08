-- ===== src/Evaluation/Sizes.antt =====
-- The message sizes that the benchmarks report: `request_bytes` of
-- evaluation/benchmark/browser_flow.py and `sizes_of` of evaluation/benchmark/timing-benchmark.py.
use keycloak_oidc4ac_lab.Prelude.{
  ℕ, ◌+◌, ◌*◌, Bool, List, [], ◌∷◌, none, some, codes, utf8_length, leb, nat_eq, ◌&&◌, ◌||◌,
  if◌then◌else◌, Result, ok, err, attribute_error, ◌>>=◌,
}
use keycloak_oidc4ac_lab.Prelude.Dict
use keycloak_oidc4ac_lab.Prelude.Dict.{Dict}
use keycloak_oidc4ac_lab.Json.{Value, object, as_dict, JsonText}
use keycloak_oidc4ac_lab.E2e.Lab.{Network}
use keycloak_oidc4ac_lab.E2e.Pages.{AuthorizationResult, json_section}
use keycloak_oidc4ac_lab.Evaluation.Requests.{compact_bytes}
use keycloak_oidc4ac_lab.Evaluation.Slots.{Condition}

-- A character that `urllib.parse.quote_plus` writes as one character: a letter, a digit, one of
-- `_.-~`, or a space.
abbrev is_plain : ℕ → Bool
is_plain c =
    leb 48 c && leb c 57
    || leb 65 c && leb c 90
    || leb 97 c && leb c 122
    || nat_eq c 95
    || nat_eq c 46
    || nat_eq c 45
    || nat_eq c 126
    || nat_eq c 32

-- `len(quote_plus(text))`: another character is three characters for each of its bytes.
unfoldable pub quoted_length : List ℕ → ℕ
quoted_length [] = 0
quoted_length (c ∷ cs) = (if is_plain c then 1 else 3 * utf8_length (c ∷ [])) + quoted_length cs

-- `len(urlencode({"claims": compact}))`
unfoldable pub request_bytes : JsonText → Dict Value → ℕ
unfolding quoted_length
request_bytes json request_claims =
    utf8_length (codes "claims=") + quoted_length (codes (json.dumps (object request_claims)))

pub record Sizes : Type 0 where
  pub discovery_response_bytes : ℕ
  pub extension_request_query_bytes : ℕ
  pub id_token_amr_details_bytes : ℕ
  pub userinfo_amr_details_bytes : ℕ
  pub id_token_payload_bytes : ℕ
  pub userinfo_response_bytes : ℕ

-- `compact_bytes(section["amr_details"]) if "amr_details" in section else 0`
abbrev details_bytes : JsonText → Dict Value → ℕ
details_bytes json section = elim (Dict.lookup "amr_details" section) [
  | none ↦ 0
  | some v ↦ compact_bytes json v
]

abbrev as_section : Value → Result (Dict Value)
as_section v = elim (as_dict v) [ none ↦ err attribute_error | some d ↦ ok d ]

module _ {W : Type 0} (net : Network W) where
  unfoldable pub sizes_of : Condition → AuthorizationResult → ℕ → Result Sizes
  unfolding request_bytes compact_bytes
  sizes_of condition result discovery_bytes = do
    id_value ← json_section net result "Verified ID Token"
    userinfo_value ← json_section net result "Access-token-bound UserInfo"
    id_token ← as_section id_value
    userinfo ← as_section userinfo_value
    ok (record {
      discovery_response_bytes = discovery_bytes;
      extension_request_query_bytes =
          if condition.omit_claims then 0 else request_bytes net.json condition.request_claims;
      id_token_amr_details_bytes = details_bytes net.json id_token;
      userinfo_amr_details_bytes = details_bytes net.json userinfo;
      id_token_payload_bytes = compact_bytes net.json (object id_token);
      userinfo_response_bytes = compact_bytes net.json (object userinfo);
    })
