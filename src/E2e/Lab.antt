-- ===== src/E2e/Lab.antt =====
-- What the HTTP suite stands on: the module globals of e2e/http/run.py, which other runners change,
-- and the network and the pages, which are not part of the program.
use keycloak_oidc4ac_lab.Prelude.{ℕ, String, Bool, Option, List, Result}
use keycloak_oidc4ac_lab.Prelude.Dict.{Dict}
use keycloak_oidc4ac_lab.Prelude.Action.{Action}
use keycloak_oidc4ac_lab.Json.{ℤ, Value, JsonText}
use keycloak_oidc4ac_lab.E2e.Forms.{Tag, Form}

pub record Settings : Type 0 where
  pub client : String
  pub issuer : String
  pub alice : String
  pub password : String
  pub last_totp_counter : Option ℤ

-- The secret and the timeout are read once, and nothing changes them.
pub record Constants : Type 0 where
  pub totp_secret : List ℕ
  pub smtp4dev : String
  pub timeout : ℕ

-- A response of `requests`.
pub record Reply : Type 0 where
  pub status : ℕ
  pub url : String
  pub is_redirect : Bool
  pub location : Option String
  pub text : String

pub record Cookie : Type 0 where
  pub domain : String
  pub path : String
  pub name : String
  pub secure : Bool

-- A `requests.Session` is a number; `W` is the state of the sessions and of the servers. `get` and
-- `post` follow no redirect, `post_followed` and `fetch` do.
-- `tokenise` is what `html.parser` reports of a page, `unescape` is `html.unescape`, and `search`
-- is the search for an emailed code by a regular expression, `first_form` is the
-- search for a consent form by regular expressions, and `is_callback` says whether the path of a URL
-- ends in /callback. The clocks are in microseconds.
pub record Network (W : Type 0) : Type 0 where
  pub new_session : Action W ℕ
  pub get : ℕ → String → Action W Reply
  pub post : ℕ → String → Dict (Option String) → Action W Reply
  pub post_followed : ℕ → String → Dict (Option String) → Action W Reply
  pub fetch : String → Action W Reply
  pub cookies : ℕ → Action W (List Cookie)
  pub set_cookies : ℕ → List Cookie → Action W Unit
  pub json : JsonText
  pub body : Reply → Result Value
  pub url_join : String → Option String → String
  pub quote : String → String
  pub tokenise : String → List Tag
  pub unescape : String → String
  pub search : String → Option String
  pub text_of : Value → String
  pub dumps_sorted : Value → String
  pub dumps_default : Value → String
  pub digits_text : List ℕ → String
  pub is_callback : String → Bool
  pub first_form : String → Option Form
  pub time : Action W ℕ
  pub monotonic : Action W ℕ
  pub pause : ℕ → Action W Unit

pub record Lab (W : Type 0) : Type 0 where
  pub settings : Settings
  pub world : W

-- An action of the outside on the state of the suite.
abbrev pub outside : {W A : Type 0} → Action W A → Action (Lab W) A
outside m s = let (r, w) = m s.world in (r, record s { world = w })
