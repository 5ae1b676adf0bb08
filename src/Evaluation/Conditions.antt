-- ===== src/Evaluation/Conditions.antt =====
-- `CONDITIONS` of evaluation/benchmark/timing-benchmark.py.
use keycloak_oidc4ac_lab.Prelude.{String, true, false, none, List, [], ◌∷◌}
use keycloak_oidc4ac_lab.E2e.Requests
use keycloak_oidc4ac_lab.Evaluation.Slots.{Condition}

-- A condition without a request.
abbrev plain_condition : String → String → String → String → Condition
plain_condition name client issuer metrics = record {
  name = name;
  client = client;
  issuer = issuer;
  metrics = metrics;
  request_claims = [];
  omit_claims = true;
  expects_details = false;
  login = true;
}

abbrev pub without_request : Condition
without_request =
    plain_condition "oidc4ac_without_request" "http://localhost:5003"
      "http://localhost:8186/realms/oidc4ac" "http://localhost:9186/metrics"

unfoldable pub conditions : List Condition
unfolding Requests.claims Requests.method
conditions =
    plain_condition "keycloak_official" "http://localhost:5007"
      "http://localhost:8188/realms/oidc4ac" "http://localhost:9188/metrics"
    ∷ plain_condition "fork_feature_disabled" "http://localhost:5006"
        "http://localhost:8187/realms/oidc4ac" "http://localhost:9187/metrics"
    ∷ plain_condition "fork_realm_disabled" "http://localhost:5005"
        "http://localhost:8186/realms/oidc4ac-off" "http://localhost:9186/metrics"
    ∷ without_request
    ∷ record without_request {
      name = "oidc4ac_with_request";
      request_claims = Requests.claims (Requests.method "pwd" none none) true true true;
      omit_claims = false;
      expects_details = true;
    }
    ∷ record without_request {
      name = "oidc4ac_with_full_request";
      omit_claims = false;
      expects_details = true;
      login = false;
    }
    ∷ []
