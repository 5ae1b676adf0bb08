-- ===== src/Evaluation/Tests.antt =====
-- Concrete fixtures, an admin API and samples, and the theorems about the evaluation at them.
use keycloak_oidc4ac_lab.Prelude.{
  Bool, true, false, ◌*◌, ◌≤◌, ℕ, suc, String, ◌≡◌, refl, List, [], ◌∷◌, ok, some, none, Error, err,
  ◌-◌,
}
use keycloak_oidc4ac_lab.Prelude.Dict
use keycloak_oidc4ac_lab.Prelude.Dict.{Dict, same_set}
use keycloak_oidc4ac_lab.Json.{Value, str, object, array}
use keycloak_oidc4ac_lab.Evaluation.Fixtures.{without_ids}
use keycloak_oidc4ac_lab.Evaluation.Fixtures.Ids.{HasNoIds, without_ids_lem}
use keycloak_oidc4ac_lab.Evaluation.Slots.{Condition, Kind, Slot, balanced_slots}
use keycloak_oidc4ac_lab.Evaluation.Slots.Balanced.{IsBalanced, balanced_slots-IsBalanced}
use keycloak_oidc4ac_lab.Evaluation.Admin
use keycloak_oidc4ac_lab.Evaluation.Admin.{
  AdminApi, State, IssuedToken, TokenAnswer, headers, renewed,
}
use keycloak_oidc4ac_lab.Evaluation.Admin.Tokens.{IsStale, header, headers_hold}
use keycloak_oidc4ac_lab.E2e.Totp.{second}
use keycloak_oidc4ac_lab.Json.{as_dict}

abbrev realm : Value
realm = object (("id", str "0f1e") ∷ ("clients", array (object (("id", str "77") ∷ []) ∷ [])) ∷ [])

without_ids_lem_example :
    HasNoIds (without_ids realm) × (HasNoIds realm → without_ids realm ≡ realm)
without_ids_lem_example = without_ids_lem realm

-- An admin API a minute after the start of its machine.
abbrev api : AdminApi ℕ
api = record {
  monotonic = λ n. (ok 60000000, n);
  text_of = λ v. elim v [ str text ↦ text | _ ↦ "" ];
  request_token = λ base n. (
    ok (record { raised = ok tt; body = ok (object (("access_token", str "token-1") ∷ [])) }),
    suc n,
  );
  find_user = λ authorization base name n. (ok "user-1", n);
  end_sessions = λ authorization base name user n. (ok tt, n);
}

abbrev admin_state : State ℕ
admin_state = record { admin = Admin.init; world = 0 }

-- A token is asked for, and used again at the same time.
headers_run :
    (headers api "http://localhost:8080" admin_state).0
    ≡ ok (("Authorization", "Bearer token-1") ∷ [])
unfolding headers renewed Dict.lookup Dict.insert
headers_run = refl

abbrev base : String
base = "http://localhost:8080"

headers_hold_example :
    ((t : IssuedToken)
      → Dict.lookup base admin_state.admin.tokens ≡ some t
      → 60000000 - t.issued ≤ 45 * second
      → headers api base admin_state ≡ (ok (header api t.token), record admin_state { world = 0 }))
    × (Dict.lookup base admin_state.admin.tokens ≡ none
        → 60000000 ≤ 45 * second
        → headers api base admin_state
          ≡ (ok (header api (str "")), record admin_state { world = 0 }))
    × ((answer : TokenAnswer) (w1 : ℕ)
        → IsStale base admin_state 60000000
        → api.request_token base 0 ≡ (ok answer, w1)
        → ((error : Error)
            → answer.raised ≡ err error
            → headers api base admin_state ≡ (err error, record admin_state { world = w1 }))
          × ((body token : Value) (d : Dict Value) (issued : ℕ) (w2 : ℕ)
              → answer.raised ≡ ok tt
              → answer.body ≡ ok body
              → as_dict body ≡ some d
              → Dict.lookup "access_token" d ≡ some token
              → api.monotonic w1 ≡ (ok issued, w2)
              → headers api base admin_state ≡ (
                ok (header api token),
                record {
                  admin = record {
                    tokens =
                        Dict.insert base
                          (record { issued = issued; token = token })
                          admin_state.admin.tokens;
                    users = admin_state.admin.users;
                  };
                  world = w2;
                },
              )))
headers_hold_example = headers_hold api base admin_state 60000000 0 refl

-- Two servers; the second one has two conditions, of which one has no logins.
abbrev condition : String → String → Bool → Condition
condition name metrics login = record {
  name = name;
  client = "http://localhost:5005";
  issuer = "http://localhost:8080/realms/oidc4ac";
  metrics = metrics;
  request_claims = [];
  omit_claims = true;
  expects_details = false;
  login = login;
}

abbrev two_servers : List Condition
two_servers =
    condition "off" "http://localhost:9000" true
    ∷ condition "on" "http://localhost:9001" true
    ∷ condition "full" "http://localhost:9001" false
    ∷ []

balanced_slots-IsBalanced_example :
    (slots : List Slot) × (balanced_slots two_servers ≡ ok slots)
    × ((kind : Kind) → IsBalanced kind two_servers slots)
balanced_slots-IsBalanced_example = balanced_slots-IsBalanced two_servers refl
