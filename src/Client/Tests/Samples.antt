-- ===== src/Client/Tests/Samples.antt =====
-- Concrete requests, providers and caches of the test client.
use keycloak_oidc4ac_lab.Prelude.{
  ℕ, String, ◌≡◌, refl, true, Option, none, some, List, [], ◌∷◌, arith, nat_eq, length,
  if◌then◌else◌, ok, some_inj, sym, ap, ◌==◌, ◌∙◌, is_blank, utf8_length,
}
use keycloak_oidc4ac_lab.Prelude.Dict
use keycloak_oidc4ac_lab.Prelude.Dict.{Dict, is_member}
use keycloak_oidc4ac_lab.Json.{
  Value, null, str, obj, end, field, array, JsonText, value, decode_error,
}
use keycloak_oidc4ac_lab.Client.Claims.{parse_claims}
use keycloak_oidc4ac_lab.Client.Caches.{Authorization, Grant, Caches}
use keycloak_oidc4ac_lab.Client.Caches.Prune.{IsValid}
use keycloak_oidc4ac_lab.Client.Pages.{Config, Provider, Token, Inputs, ResultPage}
use keycloak_oidc4ac_lab.Client.Server.{Route, Event, init}
use keycloak_oidc4ac_lab.Client.Server.Effects.{accepted}
use keycloak_oidc4ac_lab.Client.Server.Invariant.{Holds, Brings}
use keycloak_oidc4ac_lab.Client.Server.Pending.{Spares, DrawsOther}
use keycloak_oidc4ac_lab.Client.Server.Flow.{IsCallback}
use keycloak_oidc4ac_lab.Client.Server.Flow.Verified.{ChecksNonce}
use keycloak_oidc4ac_lab.Client.Server.Renewal.{IsRefresh}

abbrev pub requested : Dict Value
requested = ("userinfo", null) ∷ []

-- A reader of the one text `{}`, which stands for the request above.
abbrev pub json : JsonText
json = record {
  loads = λ text.
      if nat_eq (length text) 2 then value (obj (field "userinfo" null end)) else decode_error 1 1;
  dumps = λ v. "{}";
  pretty = λ v. ok "{}";
}

abbrev pub config : Config
config = record {
  public_url = "";
  callback_endpoint = "http://client.localhost:5000/callback";
  default_claims = [];
}

abbrev pub parse : Token → Option String → Option (Dict Value)
parse token none = some []
parse token (some nonce) = some (("nonce", str nonce) ∷ [])

abbrev pub tokens : Token
tokens = ("refresh_token", str "r-1") ∷ []

abbrev pub willing : Provider
willing = record {
  authorize_access_token = some tokens;
  fetch_access_token = λ refresh_token. some (("refresh_token", str "r-2") ∷ []);
  parse_id_token = parse;
  userinfo = λ token. some [];
  discovery_document = ok (obj end);
  server_metadata = ok tt;
}

abbrev pub failing : Provider
failing = record {
  authorize_access_token = none;
  fetch_access_token = λ refresh_token. none;
  parse_id_token = parse;
  userinfo = λ token. none;
  discovery_document = ok (obj end);
  server_metadata = ok tt;
}

abbrev pub at_time : ℕ → String → Inputs
at_time now id = record { pruned_at = now; stored_at = now; nonce = "n-1"; fresh_id = id }

abbrev pub visit : Route → Provider → ℕ → String → Event
visit route provider now id = record {
  route = route;
  inputs = at_time now id;
  provider = provider;
  session = none;
}

abbrev pub login_form : Dict String
login_form = ("claims_json", "{}") ∷ ("prompt_login", "on") ∷ []

abbrev pub log_in : Event
log_in = visit (Route.login login_form) willing 1000000000 "state-1"

abbrev pub other_login : Event
other_login = visit (Route.login (("omit_claims", "on") ∷ [])) willing 1100000000 "state-2"

abbrev pub return_to : String → Dict String
return_to state = ("state", state) ∷ ("code", "c-1") ∷ []

abbrev pub come_back : Provider → Event
come_back provider = visit (Route.callback (return_to "state-1")) provider 1200000000 "result-1"

abbrev pub pending : Authorization
pending = record { claims = requested; nonce = "n-1"; created_at = 1000000000 }

abbrev pub one_pending : Caches
one_pending = record { authorizations = ("state-1", pending) ∷ []; tokens = [] }

abbrev pub grant : Grant
grant = record { refresh_token = str "r-1"; claims = requested; created_at = 1000000000 }

abbrev pub one_grant : Caches
one_grant = record { authorizations = []; tokens = ("result-1", grant) ∷ [] }

pub init-IsValid : IsValid init
init-IsValid = record { authorizations = tt; tokens = tt }

pub one_pending-IsValid : IsValid one_pending
unfolding Dict.mem
one_pending-IsValid = record { authorizations = (refl, tt); tokens = tt }

pub one_grant-IsValid : IsValid one_grant
unfolding Dict.mem
one_grant-IsValid = record { authorizations = tt; tokens = (refl, tt) }

pub come_back-IsCallback : (provider : Provider) → IsCallback "state-1" (come_back provider)
unfolding Dict.lookup
come_back-IsCallback provider = record {
  args = return_to "state-1";
  route = refl;
  no_error = refl;
  has_state = refl;
  nonempty = refl;
}

pub other_login-Spares : Spares "state-1" pending other_login
other_login-Spares = record {
  in_time = omega arith;
  other_id = λ same. absurd (cc (ap (λ s. s == "state-1") same));
  other_callback = λ args h. absurd (cc h);
}

pub login_accepted : accepted json login_form ≡ some requested
unfolding parse_claims Dict.lookup is_blank utf8_length
login_accepted = refl

pub other_login_draws : DrawsOther "state-1" other_login
other_login_draws = λ same. absurd (cc (ap (λ s. s == "state-1") same))

pub willing-ChecksNonce : ChecksNonce willing
unfolding Dict.lookup
willing-ChecksNonce token nonce d h = ap (Dict.lookup "nonce") (sym (some_inj h))

abbrev pub shown_page : ResultPage
shown_page = record {
  claims = "{}";
  discovery = "{}";
  id_token = "{}";
  access_token = "{}";
  userinfo = "{}";
  allow_refresh = true;
  source = "Authorization code response";
  result_id = "result-1";
}

abbrev pub ask_again : Provider → Event
ask_again provider =
    visit (Route.refresh (("result_id", "result-1") ∷ [])) provider 1200000000 "unused"

pub ask_again-IsRefresh :
    (provider : Provider) → IsRefresh "result-1" grant (ask_again provider) one_grant
unfolding Dict.lookup
ask_again-IsRefresh provider = record {
  form = ("result_id", "result-1") ∷ [];
  route = refl;
  wanted = refl;
  stored = refl;
  in_time = omega arith;
  has_token = refl;
}

-- The claims of every login here ask for UserInfo.
abbrev pub AsksUserinfo : Dict Value → Type 0
AsksUserinfo d = Dict.mem "userinfo" d ≡ true

pub log_in-Brings : Brings json AsksUserinfo log_in
unfolding Dict.mem
log_in-Brings form d route given =
    let same : login_form ≡ form = ground arith in
    ap (Dict.mem "userinfo") (sym (some_inj (sym login_accepted ∙ ap (accepted json) same ∙ given)))

pub come_back-Brings : Brings json AsksUserinfo (come_back willing)
come_back-Brings form d route given = absurd (cc route)

pub init-Holds : Holds AsksUserinfo init
unfolding Dict.lookup
init-Holds = record { pending = λ state a h. absurd (cc h); granted = λ id g h. absurd (cc h) }

-- Two methods are advertised, and one value that is no text.
abbrev pub advertised : Dict Value
advertised = ("amr_identifiers_supported", array (str "pwd" ∷ null ∷ str "otp" ∷ [])) ∷ []

abbrev pub test_secret : List ℕ
test_secret = 49 ∷ 50 ∷ 51 ∷ 52 ∷ []
