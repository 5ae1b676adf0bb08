-- ===== src/Evaluation/Admin/Tokens.antt =====
-- Which token `Admin.headers` of evaluation/benchmark/timing-benchmark.py uses.
use keycloak_oidc4ac_lab.Prelude.{
  ℕ, ◌-◌, ◌*◌, ◌≤◌, ◌<◌, String, ◌≡◌, refl, ap, ◌∙◌, none, some, [], ◌∷◌, ◌<>◌, Error, Result, ok,
  err, arith, ltb, if◌then◌else◌, true, false, Option-cases, inl, inr,
}
use keycloak_oidc4ac_lab.Prelude.Dict
use keycloak_oidc4ac_lab.Prelude.Dict.{Dict}
use keycloak_oidc4ac_lab.Prelude.Action.{Action, pure, lift, ◌>>=◌, ◌>>◌}
use keycloak_oidc4ac_lab.Json.{Value, str, as_dict}
use keycloak_oidc4ac_lab.E2e.Totp.{second}
use keycloak_oidc4ac_lab.E2e.Scenarios.Sections.{indexed}
use keycloak_oidc4ac_lab.Evaluation.Admin.{
  AdminApi, State, IssuedToken, TokenAnswer, headers, held, lifetime, granted, bearer, renewed,
  outside, store, put_admin,
}

-- An action that has returned is followed by the next one.
then-ok :
    {S A B : Type 0} (m : Action S A) (f : A → Action S B) (s : S) {a : A} {s' : S}
    → m s ≡ (ok a, s')
    → (m >>= f) s ≡ f a s'
then-ok m f s h = ap (λ r. elim r.0 [ ok a ↦ f a r.1 | err e ↦ (err e, r.1) ]) h

outside-ok :
    {W A : Type 0} (m : Action W A) (s : State W) {r : Result A} {w : W}
    → m s.world ≡ (r, w)
    → outside m s ≡ (r, record s { world = w })
outside-ok m s h = ap (λ o. (o.0, record s { world = o.1 })) h

-- The instance's token is older than 45 seconds, or the machine has run for longer without one.
pub record IsStale {W : Type 0} (base : String) (s : State W) (now : ℕ) : Type 0 where
  pub old :
      (t : IssuedToken) → Dict.lookup base s.admin.tokens ≡ some t → 45 * second < now - t.issued
  pub missing : Dict.lookup base s.admin.tokens ≡ none → 45 * second < now

abbrev pub header : {W : Type 0} → AdminApi W → Value → Dict String
header api token = ("Authorization", "Bearer " <> api.text_of token) ∷ []

module _ {W : Type 0} (api : AdminApi W) (base : String) (s : State W) (now : ℕ) (w : W)
    (read : api.monotonic s.world ≡ (ok now, w)) where
  stale_held : IsStale base s now → lifetime < now - (held base s.admin).issued
  stale_held stale = elim (Option-cases (Dict.lookup base s.admin.tokens)) [
    | inl gone ↦ let late = stale.missing gone in rw (gone, held) (omega arith)
    | inr (t, found) ↦ rw (found, held) (stale.old t found)
  ]

  -- `headers`, once the clock is read.
  abbrev at_time : ℕ → Action (State W) (Dict String)
  at_time reading =
      if ltb lifetime (reading - (held base s.admin).issued)
      then renewed api base s.admin
      else pure (bearer api (held base s.admin).token)

  clock_read : headers api base s ≡ at_time now (record s { world = w })
  unfolding headers
  clock_read = then-ok (outside api.monotonic) at_time s (outside-ok api.monotonic s read)

  asked_answer :
      (answer : TokenAnswer) (w1 : W)
      → api.request_token base w ≡ (ok answer, w1)
      → renewed api base s.admin (record s { world = w })
        ≡ (lift (granted answer) >>= store api base s.admin) (record s { world = w1 })
  unfolding renewed
  asked_answer answer w1 asked =
      then-ok (outside (api.request_token base))
        (λ answer. lift (granted answer) >>= store api base s.admin) (record s { world = w })
        (outside-ok (api.request_token base) (record s { world = w }) asked)

  stored :
      (token : Value) (issued : ℕ) (w1 w2 : W)
      → api.monotonic w1 ≡ (ok issued, w2)
      → store api base s.admin token (record s { world = w1 }) ≡ (
        ok (bearer api token),
        record {
          admin = record {
            tokens = Dict.insert base (record { issued = issued; token = token }) s.admin.tokens;
            users = s.admin.users;
          };
          world = w2;
        },
      )
  stored token issued w1 w2 clock =
      then-ok (outside api.monotonic)
        (λ issued.
          put_admin (record s.admin {
            tokens = Dict.insert base (record { issued = issued; token = token }) s.admin.tokens;
          })
          >> pure (bearer api token))
        (record s { world = w1 }) (outside-ok api.monotonic (record s { world = w1 }) clock)

  held-some : (t : IssuedToken) → Dict.lookup base s.admin.tokens ≡ some t → held base s.admin ≡ t
  held-some t found = rw (found, held) refl

  held-none :
      Dict.lookup base s.admin.tokens ≡ none
      → held base s.admin ≡ record { issued = 0; token = str "" }
  held-none gone = rw (gone, held) refl

  granted_raised :
      (answer : TokenAnswer) (error : Error)
      → answer.raised ≡ err error
      → granted answer ≡ err error
  granted_raised answer error raised = rw (raised, granted) refl

  granted_token :
      (answer : TokenAnswer) (body token : Value) (d : Dict Value)
      → answer.raised ≡ ok tt
      → answer.body ≡ ok body
      → as_dict body ≡ some d
      → Dict.lookup "access_token" d ≡ some token
      → granted answer ≡ ok token
  granted_token answer body token d fine read_body is_dict found =
      rw (fine, read_body, is_dict, found, granted, indexed) refl

  -- A token that was issued at most 45 seconds ago is used again, without a request. With no token,
  -- in the first 45 seconds of the machine's clock, the headers carry an empty one. Otherwise a token
  -- is asked for: if the answer has one, the headers carry it, and it is held for the instance with
  -- the time after the answer; if the status of the answer is an error, that is raised and no token
  -- changes.
  pub headers_hold :
      ((t : IssuedToken)
        → Dict.lookup base s.admin.tokens ≡ some t
        → now - t.issued ≤ 45 * second
        → headers api base s ≡ (ok (header api t.token), record s { world = w }))
      × (Dict.lookup base s.admin.tokens ≡ none
          → now ≤ 45 * second
          → headers api base s ≡ (ok (header api (str "")), record s { world = w }))
      × ((answer : TokenAnswer) (w1 : W)
          → IsStale base s now
          → api.request_token base w ≡ (ok answer, w1)
          → ((error : Error)
              → answer.raised ≡ err error
              → headers api base s ≡ (err error, record s { world = w1 }))
            × ((body token : Value) (d : Dict Value) (issued : ℕ) (w2 : W)
                → answer.raised ≡ ok tt
                → answer.body ≡ ok body
                → as_dict body ≡ some d
                → Dict.lookup "access_token" d ≡ some token
                → api.monotonic w1 ≡ (ok issued, w2)
                → headers api base s ≡ (
                  ok (header api token),
                  record {
                    admin = record {
                      tokens =
                          Dict.insert base
                            (record { issued = issued; token = token })
                            s.admin.tokens;
                      users = s.admin.users;
                    };
                    world = w2;
                  },
                )))
  unfolding headers
  headers_hold = (
    λ t found fresh.
        let short : ltb lifetime (now - t.issued) ≡ false = ground arith in
        clock_read ∙ rw (held-some t found) (rw short refl),
    λ gone early.
        let short : ltb lifetime (now - 0) ≡ false = ground arith in
        clock_read ∙ rw (held-none gone) (rw short refl),
    λ answer w1 stale asked.
        let late = stale_held stale in
        let long : ltb lifetime (now - (held base s.admin).issued) ≡ true = ground arith in
        let on_time : at_time now (record s { world = w })
            ≡ renewed api base s.admin (record s { world = w }) =
          rw long refl in
        let sent = clock_read ∙ on_time ∙ asked_answer answer w1 asked in
        (
          λ error raised. sent ∙ rw (granted_raised answer error raised) refl,
          λ body token d issued w2 fine read_body is_dict found clock.
              sent
              ∙ rw (granted_token answer body token d fine read_body is_dict found)
                  (stored token issued w1 w2 clock),
        ),
  )
