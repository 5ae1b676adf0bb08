-- ===== src/E2e/Authorize/Direct.antt =====
-- `direct_authorization` of e2e/http/run.py: an authorization request that is not the test client's.
use keycloak_oidc4ac_lab.Prelude.{
  ℕ, zero, suc, String, Bool, false, Option, none, some, [], ◌∷◌, nat_eq, contains, ◌&&◌,
  check_failure, if◌then◌else◌,
}
use keycloak_oidc4ac_lab.Prelude.Dict
use keycloak_oidc4ac_lab.Prelude.Dict.{Dict, is_member}
use keycloak_oidc4ac_lab.Prelude.Action.{Action, pure, raise, ◌>>=◌, ◌>>◌}
use keycloak_oidc4ac_lab.E2e.Forms.{parse_forms}
use keycloak_oidc4ac_lab.E2e.Lab.{Reply, Network, Settings}
use keycloak_oidc4ac_lab.E2e.Authorize.{
  allow_loopback_secure_cookies, post_form, follow, credentials,
}

module _ {W : Type 0} (net : Network W) where
  abbrev at_callback : Reply → Option String → Bool
  at_callback reply none = false
  at_callback reply (some location) = net.is_callback (net.url_join reply.url (some location))

  abbrev is_posted_error : Reply → Bool
  is_posted_error reply =
      nat_eq reply.status 200 && contains "error" reply.text && contains "/callback" reply.text

  -- A page that is no redirect and no login form: the consent form, or an error that is posted.
  unfoldable pub last_page : Bool → ℕ → Reply → Action W Reply
  unfolding post_form
  last_page cancel_consent session reply =
      if cancel_consent && contains "kc-oauth" reply.text
      then elim (net.first_form reply.text) [
        | none ↦ raise (check_failure "Keycloak displayed a page without a usable form.")
        | some form ↦ post_form net session reply form (("cancel", some "") ∷ [])
      ]
      else if is_posted_error reply
      then pure reply
      else raise (check_failure "Unexpected direct authorization page.")

  unfoldable pub direct : Bool → Settings → ℕ → ℕ → Reply → Action W Reply
  unfolding last_page follow allow_loopback_secure_cookies post_form
  direct cancel_consent settings session zero reply =
      raise (check_failure "Direct authorization did not reach a terminal response.")
  direct cancel_consent settings session (suc transitions) reply =
      let again : Reply → Action W Reply = direct cancel_consent settings session transitions in
      let forms = parse_forms (net.tokenise reply.text) in
      let redirected : Action W Reply =
        if at_callback reply reply.location
        then pure reply
        else (follow net session reply >>= again) in
      let page : Action W Reply = elim (Dict.lookup "kc-form-login" forms) [
        | some form ↦ (post_form net session reply form (credentials settings form) >>= again)
        | none ↦ last_page cancel_consent session reply
      ] in
      allow_loopback_secure_cookies net session >> (if reply.is_redirect then redirected else page)
