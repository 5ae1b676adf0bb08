-- ===== src/E2e/Suite.antt =====
-- `wait_for_lab` and `main` of e2e/http/run.py.
pub mod Verdict
pub mod Ready
use keycloak_oidc4ac_lab.Prelude.{
  ℕ, String, Bool, true, false, Option, none, some, List, [], ◌∷◌, nat_eq, ◌==◌, ◌<>◌,
  if◌then◌else◌, Result, ok, err, check_failure, attribute_error, request_exception,
}
use keycloak_oidc4ac_lab.Prelude.Dict
use keycloak_oidc4ac_lab.Prelude.Action.{Action, pure, raise, lift, gets, ◌>>=◌, ◌>>◌}
use keycloak_oidc4ac_lab.Json.{Value, str, as_dict}
use keycloak_oidc4ac_lab.E2e.Lab.{Reply, Network, Lab, Constants, outside}
use keycloak_oidc4ac_lab.E2e.Polling.{poll_for}

-- `payload.get("status") == "ok"`, which raises where the payload is no dict
unfoldable pub says_ok : Value → Result Bool
says_ok payload = elim (as_dict payload) [
  | none ↦ err attribute_error
  | some d ↦ elim (Dict.lookup "status" d) [
    | some (str status) ↦ ok (status == "ok")
    | _ ↦ ok false
  ]
]

-- `except requests.RequestException`
abbrev pub unanswered : {A : Type 0} → Result (Option A) → Result (Option A)
unanswered (err request_exception) = ok none
unanswered r = r

abbrev pub when : Bool → Option (Unit {0})
when true = some tt
when false = none

module _ {W : Type 0} (net : Network W) (constants : Constants) where
  -- The health check of one round.
  unfoldable pub health : String → Action W (Option (Unit {0}))
  unfolding says_ok
  health client = do
    response ← net.fetch (client <> "/healthz")
    if nat_eq response.status 200
        then (do
          payload ← lift (net.body response)
          is_ok ← lift (says_ok payload)
          pure (when is_ok))
        else pure none

  unfoldable pub probe : String → Action W (Option (Unit {0}))
  unfolding health
  probe client w = let (answer, w') = health client w in (unanswered answer, w')

  abbrev pub not_ready : Action W Unit
  not_ready = raise (check_failure "Test client did not become ready.")

  unfoldable pub wait_for_lab : String → Action W Unit
  unfolding probe poll_for
  wait_for_lab client = poll_for net (probe client) not_ready constants.timeout

-- The loop over the cases, with the exit code: the first case that raises ends the suite.
module _ {S : Type 0} where
  unfoldable pub run_cases : List (String × Action S Unit) → Action S ℕ
  run_cases [] = pure 0
  run_cases ((name, case) ∷ cases) =
      let later = run_cases cases in
      λ s.
        let (verdict, s') = case s in elim verdict [ ok done ↦ later s' | err error ↦ (ok 1, s') ]

unfoldable pub main :
    {W : Type 0} → Network W → Constants → List (String × Action (Lab W) Unit) → Action (Lab W) ℕ
main net constants cases = do
  settings ← gets (λ s. s.settings)
  outside (wait_for_lab net constants settings.client)
  run_cases cases
