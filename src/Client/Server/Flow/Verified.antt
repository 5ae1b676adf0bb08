-- ===== src/Client/Server/Flow/Verified.antt =====
-- What a result page of a callback shows has been verified.
use keycloak_oidc4ac_lab.Prelude.{
  String, ◌≡◌, Option, none, some, arith, Option-cases, inl, inr, sym, ◌∙◌, ap, ok,
}
use keycloak_oidc4ac_lab.Prelude.Dict
use keycloak_oidc4ac_lab.Prelude.Dict.{Dict, lookup-insert, lookup-remove}
use keycloak_oidc4ac_lab.Json.{Value, str, JsonText, object}
use keycloak_oidc4ac_lab.Client.Caches.{Authorization, Caches}
use keycloak_oidc4ac_lab.Client.Grants.{finish_authorization, verified, render_result, get_or_none}
use keycloak_oidc4ac_lab.Client.Pages.{Config, Provider, result_page, Token, ResultPage}
use keycloak_oidc4ac_lab.Client.Server.{Event, handle}
use keycloak_oidc4ac_lab.Client.Server.Flow.{IsCallback, handle-callback}

-- `authlib` accepts an ID Token for a nonce only if the token carries that nonce.
abbrev pub ChecksNonce : Provider → Type 0
ChecksNonce provider =
    (token : Token) (nonce : String) (d : Dict Value)
    → provider.parse_id_token token (some nonce) ≡ some d
    → Dict.lookup "nonce" d ≡ some (str nonce)

module _ (json : JsonText) where
  verified_parsed :
      (provider : Provider) (o : Option Token) (expected : Option String) (token : Token)
      (id_token userinfo : Dict Value)
      → verified json provider o expected ≡ some (token, id_token, userinfo)
      → provider.parse_id_token token expected ≡ some id_token
  unfolding verified
  verified_parsed provider none expected token id_token userinfo h = cc
  verified_parsed provider (some t) expected token id_token userinfo h = ground arith

  pub rendered :
      (provider : Provider) (requested id_token userinfo : Dict Value) (access_token : Value)
      (source result_id : String) (p : ResultPage)
      → render_result json provider requested id_token userinfo access_token source result_id
        ≡ ok (record { page = result_page p; status = 200 })
      → (json.pretty (object requested) ≡ ok p.claims)
        × (json.pretty (object id_token) ≡ ok p.id_token)
  unfolding render_result
  rendered provider requested id_token userinfo access_token source result_id p h = ground arith

module _ (config : Config) (json : JsonText) where
  -- If authlib checks nonces, a callback for a pending authorization that ends in a result page shows the claims that its login was given, and an ID
  -- Token that carries the nonce of that login.
  pub result_page_verified :
      (state : String) (a : Authorization) (c : Event) (caches : Caches) (p : ResultPage)
      → ChecksNonce c.provider
      → IsCallback state c
      → Dict.lookup state caches.authorizations ≡ some a
      → (handle config json c caches).response ≡ ok (record { page = result_page p; status = 200 })
      → (json.pretty (object a.claims) ≡ ok p.claims)
        × ((id_token : Dict Value) × (json.pretty (object id_token) ≡ ok p.id_token)
            × (Dict.lookup "nonce" id_token ≡ some (str a.nonce)))
  result_page_verified state a c caches p checks back pending shown =
      let response =
        sym
          (ap (λ o. o.response) (handle-callback config json state c caches (some a) back pending))
        ∙ shown in
      elim (Option-cases
        (verified json c.provider c.provider.authorize_access_token (some a.nonce))) [
          | inl refused ↦
              absurd
                (unfold finish_authorization in cc (rw (refused, finish_authorization) at response))
          | inr ((token, id_token, userinfo), valid) ↦
              let page =
                rendered json c.provider a.claims id_token userinfo
                  (get_or_none "access_token" token) "Authorization code response" c.inputs.fresh_id
                  p (unfold finish_authorization in rw (valid, finish_authorization) at response) in
              (
                page.0,
                (
                  id_token,
                  page.1,
                  checks token a.nonce id_token (
                      verified_parsed json c.provider c.provider.authorize_access_token
                        (some a.nonce) token id_token userinfo valid),
                ),
              )
        ]
