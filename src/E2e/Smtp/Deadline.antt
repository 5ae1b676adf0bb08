-- ===== src/E2e/Smtp/Deadline.antt =====
-- The loop of `smtp_verification_code` in e2e/http/run.py ends: the bound on its rounds in the model
-- is never what ends it.
use keycloak_oidc4ac_lab.Prelude.{
  ℕ, ◌+◌, String, ◌<>◌, Option, none, some, List, [], ◌∷◌, ◌≡◌, arith, contains, if◌then◌else◌,
}
use keycloak_oidc4ac_lab.Prelude.Dict.{Dict, is_member}
use keycloak_oidc4ac_lab.Prelude.Action.{Action, ◌>>=◌}
use keycloak_oidc4ac_lab.Json.{Value, object, null}
use keycloak_oidc4ac_lab.Client.Grants.{get_or_none}
use keycloak_oidc4ac_lab.E2e.Lab.{Network, Constants}
use keycloak_oidc4ac_lab.E2e.Polling.{poll}
use keycloak_oidc4ac_lab.E2e.Polling.Ends.{
  IsClock, Onward, bind-Onward, if-Onward, stays, poll_for_settles,
}
use keycloak_oidc4ac_lab.E2e.Smtp.{
  api, or_else, or_next, smtp_messages, smtp_message_key, raw_code, detail_of, replaced, code_in,
  message_code, code_by_id, first_code, attempt, late, smtp_verification_code,
}

module _ {W : Type 0} (time : W → ℕ) where
  or_next-Onward :
      (next : Action W (Option String))
      → Onward time next
      → (found : Option String) → Onward time (or_next next found)
  or_next-Onward next h (some code) w = omega arith
  or_next-Onward next h none w = h w

module _ {W : Type 0} (net : Network W) (constants : Constants) (time : W → ℕ)
    (clock : IsClock net time) where
  smtp_messages-Onward : Onward time (smtp_messages net constants)
  unfolding smtp_messages
  smtp_messages-Onward w = let fetched = clock.fetches (api net constants "") w in ground arith

  raw_code-Onward : (id : String) → Onward time (raw_code net constants id)
  unfolding raw_code
  raw_code-Onward id w =
      let fetched = clock.fetches (api net constants ("/" <> id <> "/raw")) w in ground arith

  detail_of-Onward :
      (message : Dict Value) (id : String) → Onward time (detail_of net constants message id)
  unfolding detail_of replaced
  detail_of-Onward message id w =
      let fetched = clock.fetches (api net constants ("/" <> id)) w in ground arith

  detail_code-Onward :
      (message : Dict Value) (id : String)
      → Onward time (detail_of net constants message id >>= code_in net constants)
  detail_code-Onward message id =
      bind-Onward time (detail_of net constants message id) (code_in net constants)
        (detail_of-Onward message id) (λ detail. unfold code_in in stays time)

  served-Onward :
      (message : Dict Value) (id : String)
      → Onward time (
          raw_code net constants id
          >>= or_next (detail_of net constants message id >>= code_in net constants))
  served-Onward message id =
      let detail = detail_of net constants message id >>= code_in net constants in
      bind-Onward time (raw_code net constants id) (or_next detail) (raw_code-Onward id)
        (or_next-Onward time detail (detail_code-Onward message id))

  code_by_id-Onward :
      (message : Dict Value) (id : Value) → Onward time (code_by_id net constants message id)
  unfolding code_by_id
  code_by_id-Onward message null = unfold code_in in stays time
  code_by_id-Onward message id = served-Onward message (net.quote (net.text_of id))

  message_code-Onward : (message : Dict Value) → Onward time (message_code net constants message)
  unfolding message_code
  message_code-Onward message =
      code_by_id-Onward message (or_else (get_or_none "id" message) (get_or_none "guid" message))

  first_code-Onward :
      (previous : List String) (messages : List (Dict Value))
      → Onward time (first_code net constants previous messages)
  unfolding first_code
  first_code-Onward previous [] = stays time
  first_code-Onward previous (m ∷ ms) =
      let rest = first_code-Onward previous ms in
      let later = first_code net constants previous ms in
      let search : Action W (Option String) = message_code net constants m >>= or_next later in
      let is_code = contains "OIDC4AC verification code" (net.dumps_default (object m)) in
      if-Onward time (is_member (smtp_message_key net constants m) previous) later
        (if is_code then search else later) rest
        (if-Onward time is_code search later
          (bind-Onward time (message_code net constants m) (or_next later) (message_code-Onward m)
            (or_next-Onward time later rest))
          rest)

  attempt-Onward : (previous : List String) → Onward time (attempt net constants previous)
  unfolding attempt
  attempt-Onward previous =
      bind-Onward time (smtp_messages net constants) (first_code net constants previous)
        smtp_messages-Onward (first_code-Onward previous)

  -- On a clock that never goes back and that `time.sleep` advances by what it is asked to, more rounds
  -- than `smtp_verification_code` has change nothing, whatever the mailbox answers: the loop ends by a
  -- code, by an exception or by its deadline.
  pub smtp_verification_code_ends :
      (extra : ℕ) (previous : List String) (w : W)
      → let looks = attempt net constants previous in
        let timeout = constants.timeout in
        smtp_verification_code net constants previous w
        ≡ (net.monotonic >>= λ now.
              poll net looks (late net constants) (timeout + 1 + extra) (now + timeout))
            w
  unfolding smtp_verification_code
  smtp_verification_code_ends extra previous w =
      poll_for_settles net (attempt net constants previous) (late net constants) time clock
        (attempt-Onward previous) constants.timeout extra w
