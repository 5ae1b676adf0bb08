-- ===== src/Client/Server/Answers/Escaping.antt =====
-- The exceptions that the readers of JSON texts and `render_result` of test-client/app.py let through.
use keycloak_oidc4ac_lab.Prelude.{
  ℕ, String, List, ◌≡◌, ◌≢◌, refl, ◌⊎◌, Option, none, some, inl, inr, codes, is_blank, utf8_length,
  ltb, arith, Result, ok, err, Error, value_error, ◌>>=◌, Bool-cases, Option-cases,
}
use keycloak_oidc4ac_lab.Prelude.Dict.{Dict}
use keycloak_oidc4ac_lab.Json.{Value, JsonText, Decoded, value, decode_error, raised, object, str}
use keycloak_oidc4ac_lab.Base64.{urlsafe_b64decode}
use keycloak_oidc4ac_lab.Utf8.{decode}
use keycloak_oidc4ac_lab.Client.Claims.{parse_claims, escaped, checked, size_limit}
use keycloak_oidc4ac_lab.Client.Discovery.{discovery_metadata}
use keycloak_oidc4ac_lab.Client.Token.{
  as_object, decoded_access_token, decoded_payload, payload_of, split_dots, pad_segment,
}
use keycloak_oidc4ac_lab.Client.Pages.{Response, page_at, result_page, ResultPage}
use keycloak_oidc4ac_lab.Client.Grants.{render_result}
use keycloak_oidc4ac_lab.Client.Server.{Event}
use keycloak_oidc4ac_lab.Client.Server.Answers.{ShowsResult, Raises}

checked-escaped : (r : Decoded) (error : Error) → checked r ≡ escaped error → r ≡ raised error
checked-escaped (value v) error h = ground arith
checked-escaped (decode_error line column) error h = cc
checked-escaped (raised x) error h = cc

as_object-err :
    (r : Decoded) (error : Error)
    → as_object r ≡ err error
    → (r ≡ raised error) × (error ≢ value_error)
as_object-err (value v) error h = absurd (ground arith)
as_object-err (decode_error line column) error h = absurd (cc h)
as_object-err (raised value_error) error h = absurd (cc h)
as_object-err (raised x) error h = (cc, λ e. cc)

module _ (json : JsonText) where
  -- The exceptions of the two readers of JSON texts.
  pub parse_claims-escaped :
      (o : Option String) (error : Error)
      → parse_claims json o ≡ escaped error
      → (raw : String) × (o ≡ some raw) × (json.loads (codes raw) ≡ raised error)
  unfolding parse_claims
  parse_claims-escaped none error h = absurd (cc h)
  parse_claims-escaped (some raw) error h = elim (Bool-cases (is_blank (codes raw))) [
    | inl blank ↦ absurd (cc (rw (blank, parse_claims) at h))
    | inr text ↦ elim (Bool-cases (ltb size_limit (utf8_length (codes raw)))) [
      | inl long ↦ absurd (cc (rw (text, long, parse_claims) at h))
      | inr short ↦ (raw, refl, checked-escaped _ error (rw (text, short, parse_claims) at h))
    ]
  ]

  decoded_payload-err :
      (segment : List ℕ) (error : Error)
      → decoded_payload json segment ≡ err error
      → (text : List ℕ) × (json.loads text ≡ raised error) × (error ≢ value_error)
  unfolding decoded_payload
  decoded_payload-err segment error h =
      elim (Option-cases (urlsafe_b64decode (pad_segment segment))) [
        | inl e ↦ absurd (cc (rw (e, decoded_payload) at h))
        | inr (bytes, e) ↦ elim (Option-cases (decode bytes)) [
          | inl u ↦ absurd (cc (rw (e, u, decoded_payload) at h))
          | inr (text, u) ↦
              let r = as_object-err (json.loads text) error (rw (e, u, decoded_payload) at h) in
              (text, r.0, r.1)
        ]
      ]

  decoded_access_token-err :
      (token : Value) (error : Error)
      → decoded_access_token json token ≡ err error
      → (text : List ℕ) × (json.loads text ≡ raised error) × (error ≢ value_error)
  unfolding decoded_access_token
  decoded_access_token-err (str token) error h =
      elim (Option-cases (payload_of (split_dots (codes token)))) [
        | inl e ↦ absurd (cc (rw (e, decoded_access_token) at h))
        | inr (segment, e) ↦ decoded_payload-err segment error (rw (e, decoded_access_token) at h)
      ]
  decoded_access_token-err _ error h = absurd (cc h)

  -- The result page, or an exception on the way to it.
  abbrev pub Shown : Event → Result Response → Type 0
  Shown e r =
      ((p : ResultPage) × (r ≡ page_at 200 (result_page p)))
      ⊎ ((error : Error) × (r ≡ err error) × Raises json e error)

  -- A chain of steps shows the page if the rest does, and each step raises only what may escape.
  then_Shown :
      {A : Type 0} (e : Event) (m : Result A)
      → ((error : Error) → m ≡ err error → Raises json e error)
      → (next : A → Result Response) → ((a : A) → Shown e (next a))
      → Shown e (m >>= next)
  then_Shown e (ok a) raises next shows = shows a
  then_Shown e (err error) raises next shows = inr (error, refl, raises error refl)

  printed :
      (e : Event) (d : Dict Value) (next : String → Result Response)
      → ((text : String) → Shown e (next text))
      → Shown e (json.pretty (object d) >>= next)
  printed e d = then_Shown e (json.pretty (object d)) (λ x h. Raises.printing (object d) h)

  pub render_result-Shown :
      (e : Event) (requested id_token userinfo : Dict Value) (access_token : Value)
      (source result_id : String)
      → ShowsResult e.route
      → Shown e
          (render_result json e.provider requested id_token userinfo access_token source result_id)
  unfolding render_result
  render_result-Shown e requested id_token userinfo access_token source result_id shows =
      printed e requested _ λ claims.
        then_Shown e (discovery_metadata e.provider.discovery_document)
          (λ x h. Raises.discovering shows h) _
          λ metadata. printed e metadata _ λ discovery. printed e id_token _ λ id_text.
            then_Shown e (decoded_access_token json access_token)
              (λ x h. from_token x (decoded_access_token-err access_token x h)) _
              λ payload.
                printed e payload _
                  λ access_text. printed e userinfo _ λ userinfo_text. inl (_, refl)
    where
      from_token :
          (x : Error)
          → (text : List ℕ) × (json.loads text ≡ raised x) × (x ≢ value_error)
          → Raises json e x
      from_token x (text, loaded, other) = Raises.token_text text shows loaded other
