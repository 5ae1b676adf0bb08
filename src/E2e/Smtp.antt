-- ===== src/E2e/Smtp.antt =====
-- The mailbox of smtp4dev, as e2e/http/run.py polls it for an emailed code.
pub mod Deadline
use keycloak_oidc4ac_lab.Prelude.{
  ℕ, zero, suc, ◌+◌, String, Option, none, some, List, [], ◌∷◌, nat_eq, ltb, contains, ◌<>◌,
  check_failure, if◌then◌else◌,
}
use keycloak_oidc4ac_lab.Prelude.Dict.{Dict, is_member}
use keycloak_oidc4ac_lab.Prelude.Action.{Action, pure, raise, lift, ◌>>=◌, ◌>>◌}
use keycloak_oidc4ac_lab.Json.{Value, null, object, as_dict, as_list, arr, obj, items, entries, nil}
use keycloak_oidc4ac_lab.Client.Grants.{is_true, get_or_none}
use keycloak_oidc4ac_lab.E2e.Polling.{poll_for}
use keycloak_oidc4ac_lab.E2e.Lab.{Reply, Network, Constants}

-- `a or b`
abbrev pub or_else : Value → Value → Value
or_else a b = if is_true a then a else b

-- The list of messages in one of the payloads that smtp4dev is known to answer with.
unfoldable pub listed : Value → Option (List Value)
listed (arr vs) = some (items vs)
listed (obj fs) =
    let d = entries fs in
    as_list (
      or_else (or_else (get_or_none "results" d) (get_or_none "messages" d))
        (or_else (get_or_none "items" d) (arr nil)))
listed _ = some []

abbrev dicts : List Value → List (Dict Value)
dicts [] = []
dicts (v ∷ vs) = elim (as_dict v) [ none ↦ dicts vs | some d ↦ d ∷ dicts vs ]

-- `if code: return code`, and what follows.
abbrev pub or_next :
    {W : Type 0} → Action W (Option String) → Option String → Action W (Option String)
or_next next (some code) = pure (some code)
or_next next none = next

module _ {W : Type 0} (net : Network W) (constants : Constants) where
  abbrev api : String → String
  api path = constants.smtp4dev <> "/api/messages" <> path

  unfoldable pub smtp_messages : Action W (List (Dict Value))
  unfolding listed
  smtp_messages = do
    response ← net.fetch (api "")
    if nat_eq response.status 200
        then pure tt
        else raise (check_failure "smtp4dev message API returned an error.")
    payload ← lift (net.body response)
    elim (listed payload) [
      | none ↦ raise (check_failure "smtp4dev message API did not return a message list.")
      | some messages ↦ pure (dicts messages)
    ]

  unfoldable pub smtp_message_key : Dict Value → String
  smtp_message_key message =
      let id = or_else (get_or_none "id" message) (get_or_none "guid" message) in
      if is_true id then net.text_of id else net.dumps_sorted (object message)

  -- The raw message, if it is served.
  pub raw_code : String → Action W (Option String)
  raw_code id = do
    response ← net.fetch (api ("/" <> id <> "/raw"))
    pure (if nat_eq response.status 200 then net.search response.text else none)

  pub replaced : Dict Value → Reply → Action W (Dict Value)
  replaced message response = do
    candidate ← lift (net.body response)
    pure (elim (as_dict candidate) [ none ↦ message | some d ↦ d ])

  -- The message's details, or the message itself.
  pub detail_of : Dict Value → String → Action W (Dict Value)
  unfolding replaced
  detail_of message id = do
    response ← net.fetch (api ("/" <> id))
    if nat_eq response.status 200 then replaced message response else pure message

  pub code_in : Dict Value → Action W (Option String)
  code_in detail = pure (net.search (net.dumps_default (object detail)))

  -- The code by the message's id, where None is no id.
  pub code_by_id : Dict Value → Value → Action W (Option String)
  unfolding raw_code detail_of code_in
  code_by_id message null = code_in message
  code_by_id message id =
      raw_code (net.quote (net.text_of id))
      >>= or_next (detail_of message (net.quote (net.text_of id)) >>= code_in)

  -- One message that is new and is of this laboratory.
  pub message_code : Dict Value → Action W (Option String)
  unfolding code_by_id
  message_code message =
      code_by_id message (or_else (get_or_none "id" message) (get_or_none "guid" message))

  pub first_code : List String → List (Dict Value) → Action W (Option String)
  unfolding message_code smtp_message_key
  first_code previous [] = pure none
  first_code previous (m ∷ ms) =
      let later = first_code previous ms in
      if is_member (smtp_message_key m) previous
      then later
      else if contains "OIDC4AC verification code" (net.dumps_default (object m))
      then (message_code m >>= or_next later)
      else later

  -- One look into the mailbox.
  pub attempt : List String → Action W (Option String)
  unfolding first_code smtp_messages
  attempt previous = smtp_messages >>= λ messages. first_code previous messages

  abbrev pub late : Action W String
  late = raise (check_failure "smtp4dev did not receive a code.")

  unfoldable pub smtp_verification_code : List String → Action W String
  unfolding attempt poll_for
  smtp_verification_code previous = poll_for net (attempt previous) late constants.timeout
