-- ===== src/Tests.antt =====
-- Concrete pages and a small network, and the theorems about the suites at them.
use keycloak_oidc4ac_lab.Prelude.{
  All, ◌<>◌, map, after, before, ℕ, zero, suc, String, ◌≡◌, refl, ◌↔◌, true, false, Option, none,
  some, List, [], ◌∷◌, arith, ok, err, Error, check_failure, ◌⊎◌, is_blank, utf8_length, ◌+◌,
  contains, false, ◌==◌, if◌then◌else◌,
}
use keycloak_oidc4ac_lab.Prelude.Dict
use keycloak_oidc4ac_lab.Prelude.Dict.{Dict, same_set}
use keycloak_oidc4ac_lab.Prelude.Dict.Unique.{IsUnique}
use keycloak_oidc4ac_lab.Prelude.Action.{Action, pure, raise}
use keycloak_oidc4ac_lab.Json.{Value, str, obj, end, object, array, value}
use keycloak_oidc4ac_lab.E2e.Details.{detail_map, detail_list}
use keycloak_oidc4ac_lab.E2e.Details.Agreement.{listing, detail_map_agrees}
use keycloak_oidc4ac_lab.E2e.Details.{
  assert_complete_event, amr_matches, same_times, map_details, identified, timed,
}
use keycloak_oidc4ac_lab.E2e.Details.Complete.{
  SameMembers, IsAmr, IsSameTime, assert_complete_event_sound,
}
use keycloak_oidc4ac_lab.E2e.Totp.{Clock}
use keycloak_oidc4ac_lab.E2e.Totp.Reuse.{
  asked_codes, InSequence, IsIncreasing, AreIntervals, counters_increase,
}
use keycloak_oidc4ac_lab.E2e.Forms.{start_tag, end_tag, parse_forms}
use keycloak_oidc4ac_lab.E2e.Forms.Rendered.{Part, Inner, page_tags}
use keycloak_oidc4ac_lab.E2e.Lab.{Constants, Reply, Network, Lab, outside}
use keycloak_oidc4ac_lab.E2e.Authorize.{defaults, authorize, follow, post_form, counted, login_data}
use keycloak_oidc4ac_lab.E2e.Submission.{arriving, IsAsked, login-login_data}
use keycloak_oidc4ac_lab.Client.Claims.Accepted.{IsRequestObject}
use keycloak_oidc4ac_lab.Client.Pages.{Config, Provider, Inputs, Site}
use keycloak_oidc4ac_lab.Client.Login.{login}
use keycloak_oidc4ac_lab.E2e.Authorize.Outcome.{Ends}
use keycloak_oidc4ac_lab.E2e.Pages.{AuthorizationResult}
use keycloak_oidc4ac_lab.Evaluation.Compatibility.{
  enabled, ordinary_success, configure, has_details,
}
use keycloak_oidc4ac_lab.Evaluation.Compatibility.Passed.{Hides, ordinary_success_sound}
use keycloak_oidc4ac_lab.Client.Totp.{totp_code}
use keycloak_oidc4ac_lab.E2e.Pages.{json_section, require_success, error_of, enclosed}
use keycloak_oidc4ac_lab.E2e.Scenarios.Sections.{has_key}
use keycloak_oidc4ac_lab.E2e.Polling.{poll}
use keycloak_oidc4ac_lab.E2e.Suite.{wait_for_lab, main}
use keycloak_oidc4ac_lab.E2e.Suite.Verdict.{Verdict, main-Verdict}
use keycloak_oidc4ac_lab.E2e.Polling.Ends.{IsClock}
use keycloak_oidc4ac_lab.E2e.Smtp.{smtp_verification_code, attempt, late}
use keycloak_oidc4ac_lab.E2e.Smtp.Deadline.{smtp_verification_code_ends}
use keycloak_oidc4ac_lab.Evaluation.Slots.{Condition}
use keycloak_oidc4ac_lab.Evaluation.Cycles.{login_cycle}
use keycloak_oidc4ac_lab.Evaluation.Cycles.Restored.{login_cycle_restores}

-- Keycloak's password form.
abbrev password_fields : Dict (Option String)
password_fields = ("password", some "") ∷ ("credentialId", some "") ∷ []

abbrev page : List Part
page =
    Part.stray (start_tag "div" [])
    ∷ Part.shown "kc-form-login" "/authenticate" (
        Inner.started "label" []
        ∷ Inner.control false "password" (some "")
        ∷ Inner.ended "label"
        ∷ Inner.control true "credentialId" (some "")
        ∷ [])
    ∷ Part.stray (start_tag "input" (("name", some "search") ∷ []))
    ∷ Part.stray (end_tag "form")
    ∷ []

-- A network on which the test client redirects to the password form, and the form to the result.
abbrev result_text : String
result_text =
    "Verified authentication context<h2>Verified ID Token</h2><pre>{}</pre>"
    <> "<h2>Access-token-bound UserInfo</h2><pre>{}</pre>"

abbrev reply_at : ℕ → Reply
reply_at zero = record {
  status = 302;
  url = "/login";
  is_redirect = true;
  location = some "/auth";
  text = "";
}
reply_at (suc zero) = record {
  status = 200;
  url = "/auth";
  is_redirect = false;
  location = none;
  text = "form";
}
reply_at (suc (suc n)) = record {
  status = 200;
  url = "/callback";
  is_redirect = false;
  location = none;
  text = result_text;
}

abbrev answer : Action ℕ Reply
answer n = (ok (reply_at n), suc n)

abbrev net : Network ℕ
net = record {
  new_session = pure 1;
  get = λ session url. answer;
  post = λ session url form. answer;
  post_followed = λ session url form. answer;
  fetch = λ url. answer;
  cookies = λ session. pure [];
  set_cookies = λ session cookies. pure tt;
  json = record { loads = λ text. value (obj end); dumps = λ v. "{}"; pretty = λ v. ok "{}" };
  body = λ reply. ok (obj end);
  url_join = λ base url. base;
  quote = λ text. text;
  tokenise = λ text. if text == "form" then page_tags page else [];
  unescape = λ text. text;
  search = λ text. none;
  text_of = λ v. "";
  dumps_sorted = λ v. "{}";
  dumps_default = λ v. "{}";
  digits_text = λ digits. "000000";
  is_callback = λ url. url == "/callback";
  first_form = λ text. none;
  time = pure 1000000;
  monotonic = pure 1000000;
  pause = λ duration. pure tt;
}

abbrev constants : Constants
constants = record { totp_secret = 49 ∷ []; smtp4dev = "http://smtp4dev:5000"; timeout = 90 }

abbrev lab : Lab ℕ
lab = record {
  settings = record {
    client = "http://client.localhost:5000";
    issuer = "http://keycloak.localhost:8080/realms/oidc4ac";
    alice = "alice";
    password = "Alice-password-123";
    last_totp_counter = none;
  };
  world = 0;
}

-- The run of `authorize` on this network.
authorize_run :
    (authorize net constants [] defaults lab).0
    ≡ ok (record { session = 1; response = reply_at 2; forms = "kc-form-login" ∷ [] })
unfolding authorize follow parse_forms post_form counted Dict.lookup Dict.mem Dict.insert
    Dict.update
authorize_run = refl

abbrev condition : Condition
condition = record {
  name = "off-plain";
  client = "http://localhost:5005";
  issuer = "http://localhost:8080/realms/oidc4ac-off";
  metrics = "http://localhost:9000";
  request_claims = [];
  omit_claims = true;
  expects_details = false;
  login = true;
}

login_cycle_restores_example :
    let after =
      (login_cycle net constants
        ("otp-user", "Otp-user-password-123")
        ("alice", "Alice-password-123")
        condition
        lab).1.settings in
    (after.alice ≡ "alice") × (after.password ≡ "Alice-password-123")
login_cycle_restores_example =
    login_cycle_restores net constants ("otp-user", "Otp-user-password-123")
      ("alice", "Alice-password-123") condition lab

abbrev password_execution : Value
password_execution = object (
    ("amr_identifier", str "pwd")
    ∷ ("amr_metadata", object (("time", str "2026-01-01T00:00:00Z") ∷ []))
    ∷ [])

abbrev id_token : Dict Value
id_token = ("amr_details", array (password_execution ∷ [])) ∷ []

abbrev by_identifier : Dict (Dict Value)
by_identifier = listing (password_execution ∷ [])

detail_map_agrees_example : (detail_map id_token ≡ ok by_identifier) ↔ (
    (details : List Value) × (detail_list id_token ≡ ok details)
    × (listing details ≡ by_identifier)
    × IsUnique by_identifier)
detail_map_agrees_example = detail_map_agrees id_token by_identifier

abbrev complete_token : Dict Value
complete_token = ("amr", array (str "pwd" ∷ [])) ∷ id_token

assert_complete_event_sound_example :
    (detail_map complete_token ≡ ok by_identifier)
    × (detail_map id_token ≡ ok by_identifier)
    × SameMembers (Dict.keys by_identifier) ("pwd" ∷ [])
    × SameMembers (Dict.keys by_identifier) ("pwd" ∷ [])
    × IsAmr complete_token ("pwd" ∷ [])
    × All (IsSameTime by_identifier by_identifier) ("pwd" ∷ [])
unfolding assert_complete_event detail_map map_details identified timed same_times amr_matches
    Dict.lookup Dict.mem Dict.insert Dict.keys
assert_complete_event_sound_example =
    assert_complete_event_sound complete_token id_token ("pwd" ∷ []) by_identifier by_identifier
      refl

-- The second call comes in the interval whose code the first one returned, and waits.
abbrev first_call : Clock
first_call = record { now = 5000000; asleep = 5000001; woken = 30300000 }

abbrev second_call : Clock
second_call = record { now = 31000000; asleep = 31000001; woken = 60300000 }

abbrev calls : List Clock
calls = first_call ∷ second_call ∷ []

abbrev secret : List ℕ
secret = 49 ∷ 50 ∷ []

calls-InSequence : InSequence none calls
calls-InSequence = (
  λ waits. record { asked = omega arith; slept = omega arith },
  omega arith,
  λ waits. record { asked = omega arith; slept = omega arith },
)

counters_increase_example :
    (ks : List ℕ) × (asked_codes secret none calls ≡ map (totp_code secret) ks)
    × IsIncreasing ks
    × AreIntervals calls ks
counters_increase_example = counters_increase secret none calls calls-InSequence

-- The run of `ordinary_success` on this network returns.
ordinary_success_run :
    (ordinary_success net constants enabled none false lab).0
    ≡ ok (record { session = 1; response = reply_at 2; forms = "kc-form-login" ∷ [] })
unfolding ordinary_success authorize follow parse_forms post_form counted has_details json_section
    has_key require_success error_of enclosed after before Dict.lookup Dict.mem Dict.insert
    Dict.update configure
ordinary_success_run = refl

ordinary_success_sound_example :
    let run = ordinary_success net constants enabled none false lab in
    (run.1.settings.client ≡ "http://localhost:5003")
    × (run.1.settings.issuer ≡ "http://localhost:8186/realms/oidc4ac")
    × (run.1.settings.alice ≡ "alice")
    × (run.1.settings.password ≡ "Alice-password-123")
    × ((result : AuthorizationResult)
        → run.0 ≡ ok result
        → Hides net constants result "Verified ID Token"
          × Hides net constants result "Access-token-bound UserInfo"
          × (contains "Verified authentication context" result.response.text ≡ true))
ordinary_success_sound_example = ordinary_success_sound net constants enabled none false lab

-- A network with a clock, whose mailbox stays empty.
abbrev empty_mailbox : Network ℕ
empty_mailbox = record net {
  fetch = λ url now. (ok (reply_at 2), now);
  monotonic = λ now. (ok now, now);
  pause = λ duration now. (ok tt, now + duration);
}

empty_mailbox-IsClock : IsClock empty_mailbox (λ now. now)
empty_mailbox-IsClock = record {
  reading = λ now. refl;
  reads = λ now. omega arith;
  fetches = λ url now. omega arith;
  sleeps = λ duration now. omega arith;
}

smtp_verification_code_ends_example : smtp_verification_code empty_mailbox constants [] 7 ≡ (
    poll empty_mailbox
      (attempt empty_mailbox constants [])
      (late empty_mailbox constants)
      1000
      97
      7)
smtp_verification_code_ends_example =
    smtp_verification_code_ends empty_mailbox constants (λ now. now) empty_mailbox-IsClock 909 [] 7

-- The test client that the runner addresses, and its reader.
abbrev client : Config
client = record {
  public_url = "";
  callback_endpoint = "http://client.localhost:5000/callback";
  default_claims = [];
}

readable : IsRequestObject net.json (net.dumps_default (object [])) []
unfolding is_blank utf8_length
readable = record {
  not_blank = refl;
  fits = omega arith;
  fields = end;
  decoded = refl;
  is_entries = refl;
}

abbrev login_inputs : Inputs
login_inputs = record { pruned_at = 0; stored_at = 1; nonce = "n-1"; fresh_id = "state-1" }

abbrev new_site : Site
new_site = record { caches = record { authorizations = []; tokens = [] }; session = none }

abbrev willing : Provider
willing = record {
  server_metadata = ok tt;
  authorize_access_token = none;
  fetch_access_token = λ refresh_token. none;
  parse_id_token = λ token nonce. none;
  userinfo = λ token. none;
  discovery_document = ok (obj end);
}

login-login_data_example : IsAsked client net.json willing [] defaults login_inputs (
    login client net.json willing
      (arriving (login_data net constants [] defaults))
      login_inputs
      new_site)
login-login_data_example =
    login-login_data net constants client net.json willing [] readable login_inputs new_site
      defaults

-- The second of three cases raises.
abbrev some_cases : List (String × Action (Lab ℕ) Unit)
some_cases =
    ("first", pure tt)
    ∷ ("second", raise (check_failure "The second case failed."))
    ∷ ("third", pure tt)
    ∷ []

main-Verdict_example :
    let waited = outside (wait_for_lab net constants "http://client.localhost:5000") lab in
    let o = main net constants some_cases lab in
    ((e : Error) × (waited.0 ≡ err e) × (o ≡ (err e, waited.1)))
    ⊎ ((waited.0 ≡ ok tt) × Verdict some_cases waited.1 o)
main-Verdict_example = main-Verdict net constants some_cases lab
