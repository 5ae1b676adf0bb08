-- ===== src/E2e/Pages.antt =====
-- `AuthorizationResult` of e2e/http/run.py: what a result page says.
use keycloak_oidc4ac_lab.Prelude.{
  ℕ, String, Option, none, some, List, ◌==◌, ◌<>◌, contains, after, before, strip, codes, Result,
  ok, err, check_failure, if◌then◌else◌,
}
use keycloak_oidc4ac_lab.Json.{Value, value, decode_error, raised}
use keycloak_oidc4ac_lab.E2e.Lab.{Reply, Network}

pub record AuthorizationResult : Type 0 where
  pub session : ℕ
  pub response : Reply
  pub forms : List String

-- `re.search(prefix + "(.*?)" + suffix, text, re.DOTALL)`, for a constant prefix and suffix
unfoldable pub enclosed : String → String → String → Option String
unfolding after before
enclosed prefix suffix text = elim (after prefix text) [
  | none ↦ none
  | some rest ↦ before suffix rest
]

module _ {W : Type 0} (net : Network W) where
  unfoldable pub json_section : AuthorizationResult → String → Result Value
  unfolding enclosed
  json_section result heading =
      elim (enclosed ("<h2>" <> heading <> "</h2><pre>") "</pre>" result.response.text) [
        | none ↦ err (check_failure "Result page does not contain the JSON section.")
        | some raw ↦ elim (net.json.loads (codes (net.unescape raw))) [
          | value v ↦ ok v
          | decode_error line column ↦ err (check_failure "was not valid JSON")
          | raised error ↦ err error
        ]
      ]

  -- `error`, the heading of an error page
  unfoldable pub error_of : AuthorizationResult → Option String
  unfolding enclosed after
  error_of result = elim (after "<section class=\"error-page\">" result.response.text) [
    | none ↦ none
    | some rest ↦ elim (enclosed "<h1>" "</h1>" rest) [
      | none ↦ none
      | some raw ↦ some (strip (net.unescape raw))
    ]
  ]

  unfoldable pub require_success : AuthorizationResult → Result AuthorizationResult
  unfolding error_of
  require_success result = elim (error_of result) [
    | some actual ↦ err (check_failure "Expected authorization success.")
    | none ↦
        if contains "Verified authentication context" result.response.text
        then ok result
        else err (check_failure "Test client did not render an authorization result.")
  ]

  unfoldable pub require_error : String → AuthorizationResult → Result AuthorizationResult
  unfolding error_of
  require_error expected result = elim (error_of result) [
    | none ↦ err (check_failure "Expected public error.")
    | some actual ↦
        if actual == expected then ok result else err (check_failure "Expected public error.")
  ]
