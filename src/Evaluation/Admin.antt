-- ===== src/Evaluation/Admin.antt =====
-- `Admin` of evaluation/benchmark/timing-benchmark.py: admin tokens, kept for 45 seconds.
pub mod Tokens
use keycloak_oidc4ac_lab.Prelude.{
  [], ◌∷◌, Result, ℕ, ◌-◌, ◌*◌, String, Bool, Option, none, some, ltb, if◌then◌else◌, ◌<>◌,
}
use keycloak_oidc4ac_lab.Prelude.Dict
use keycloak_oidc4ac_lab.Prelude.Dict.{Dict}
use keycloak_oidc4ac_lab.Json.{Value, str}
use keycloak_oidc4ac_lab.E2e.Scenarios.Sections.{indexed}
use keycloak_oidc4ac_lab.Prelude.Action.{Action, pure, lift, ◌>>=◌, ◌>>◌}
use keycloak_oidc4ac_lab.E2e.Totp.{second}

pub record IssuedToken : Type 0 where
  pub issued : ℕ
  pub token : Value

pub record Admin : Type 0 where
  pub tokens : Dict IssuedToken
  pub users : Dict String

abbrev pub init : Admin
init = record { tokens = []; users = [] }

-- The answer to a request for a token: what `raise_for_status` and `json` do.
pub record TokenAnswer : Type 0 where
  pub raised : Result (Unit {0})
  pub body : Result Value

-- The admin API of an instance, which is not part of the program; `text_of` is `str`.
pub record AdminApi (W : Type 0) : Type 0 where
  pub monotonic : Action W ℕ
  pub text_of : Value → String
  pub request_token : String → Action W TokenAnswer
  pub find_user : Dict String → String → String → Action W String
  pub end_sessions : Dict String → String → String → String → Action W Unit

pub record State (W : Type 0) : Type 0 where
  pub admin : Admin
  pub world : W

abbrev pub outside : {W A : Type 0} → Action W A → Action (State W) A
outside m s = let (r, w) = m s.world in (r, record s { world = w })

abbrev admin_of : {W : Type 0} → Action (State W) Admin
admin_of s = (Result.ok s.admin, s)

abbrev pub put_admin : {W : Type 0} → Admin → Action (State W) Unit
put_admin admin s = (Result.ok tt, record s { admin = admin })

-- `self.tokens.get(base, (0.0, ""))`
abbrev pub held : String → Admin → IssuedToken
held base admin = elim (Dict.lookup base admin.tokens) [
  | none ↦ record { issued = 0; token = str "" }
  | some t ↦ t
]

-- `raise_for_status()` and `json()["access_token"]`
abbrev pub granted : TokenAnswer → Result Value
granted answer = elim answer.raised [
  | Result.err error ↦ Result.err error
  | Result.ok done ↦ elim answer.body [
    | Result.err error ↦ Result.err error
    | Result.ok body ↦ indexed "access_token" body
  ]
]

abbrev pub lifetime : ℕ
lifetime = 45 * second

module _ {W : Type 0} (api : AdminApi W) where
  abbrev pub bearer : Value → Dict String
  bearer token = ("Authorization", "Bearer " <> api.text_of token) ∷ []

  -- `self.tokens[base] = (time.monotonic(), token)`, with the headers.
  abbrev pub store : String → Admin → Value → Action (State W) (Dict String)
  store base admin token = do
    issued ← outside api.monotonic
    put_admin (record admin {
      tokens = Dict.insert base (record { issued = issued; token = token }) admin.tokens;
    })
    pure (bearer token)

  -- A new token is asked for, and held for the instance.
  unfoldable pub renewed : String → Admin → Action (State W) (Dict String)
  renewed base admin =
      outside (api.request_token base) >>= λ answer. lift (granted answer) >>= store base admin

  -- The headers with a token that was issued at most 45 seconds ago, or with a new one.
  unfoldable pub headers : String → Action (State W) (Dict String)
  unfolding renewed
  headers base = admin_of >>= λ admin. outside api.monotonic >>= λ now.
      if ltb lifetime (now - (held base admin).issued)
      then renewed base admin
      else pure (bearer (held base admin).token)

  -- The id of the login user, asked for once for each issuer.
  user_id : String → String → String → Action (State W) String
  unfolding headers
  user_id base realm issuer = admin_of >>= λ admin. elim (Dict.lookup issuer admin.users) [
    | some user ↦ pure user
    | none ↦ (do
      authorization ← headers base
      user ← outside (api.find_user authorization base realm)
      later ← admin_of
      put_admin (record later { users = Dict.insert issuer user later.users })
      pure user)
  ]

  unfoldable pub logout : String → String → String → Action (State W) Unit
  unfolding user_id headers
  logout base realm issuer = user_id base realm issuer >>= λ user.
      headers base >>= λ authorization. outside (api.end_sessions authorization base realm user)
