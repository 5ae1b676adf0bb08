-- ===== src/E2e/Details.antt =====
-- What the suites read out of a token: `detail_map`, `detail_list` and `assert_complete_event` of
-- e2e/http/run.py, and `detail_map` of e2e/browser/run.py.
pub mod Agreement
pub mod Complete
use keycloak_oidc4ac_lab.Prelude.{
  String, Bool, true, false, Option, none, some, List, [], ◌∷◌, ◌==◌, Result, ok, err,
  check_failure, type_error, key_error, ◌>>=◌, ◌>>◌, if◌then◌else◌,
}
use keycloak_oidc4ac_lab.Prelude.Dict
use keycloak_oidc4ac_lab.Prelude.Dict.{Dict, is_member, same_set}
use keycloak_oidc4ac_lab.Json.{Value, str, arr, obj, as_dict, as_list, as_str, object}

-- `check(condition, message)`
unfoldable pub check : Bool → String → Result (Unit {0})
check true message = ok tt
check false message = err (check_failure message)

-- `check(isinstance(…), message)`, which hands on what was found.
abbrev pub found {ℓ} : {A : Type ℓ} → Option A → String → Result A
found none message = err (check_failure message)
found (some a) message = ok a

abbrev pub as_dict? : Option Value → Option (Dict Value)
as_dict? none = none
as_dict? (some v) = as_dict v

abbrev pub as_list? : Option Value → Option (List Value)
as_list? none = none
as_list? (some v) = as_list v

abbrev pub as_str? : Option Value → Option String
as_str? none = none
as_str? (some v) = as_str v

-- `metadata.get("time")`, if both are of the right type
abbrev pub time_in : Dict Value → Option String
time_in detail = elim (as_dict? (Dict.lookup "amr_metadata" detail)) [
  | none ↦ none
  | some metadata ↦ as_str? (Dict.lookup "time" metadata)
]

abbrev pub details_of : Dict Value → Result (List Value)
details_of token =
    found (as_list? (Dict.lookup "amr_details" token)) "Token did not contain an amr_details array."

-- The checks of one execution that all three functions make.
unfoldable pub identified : Value → Result (String × Dict Value)
identified v = do
  detail ← found (as_dict v) "amr_details contains a non-object execution."
  identifier ←
      found (as_str? (Dict.lookup "amr_identifier" detail))
        "An execution did not contain amr_identifier."
  ok (identifier, detail)

unfoldable pub timed : Dict Value → Result String
timed detail = found (time_in detail) "did not retain mandatory amr_metadata.time."

unfoldable pub map_details : Dict (Dict Value) → List Value → Result (Dict (Dict Value))
map_details mapped [] = ok mapped
map_details mapped (v ∷ vs) = identified v >>= λ (identifier, detail).
    (if Dict.mem identifier mapped
      then err (check_failure "Duplicate execution in this lab event.")
      else timed detail)
    >>= λ _. map_details (Dict.insert identifier detail mapped) vs

unfoldable pub detail_map : Dict Value → Result (Dict (Dict Value))
detail_map token = details_of token >>= map_details []

-- The browser suite keeps the last of two executions with one identifier.
unfoldable pub browser_map_details : Dict (Dict Value) → List Value → Result (Dict (Dict Value))
browser_map_details mapped [] = ok mapped
browser_map_details mapped (v ∷ vs) = identified v >>= λ (identifier, detail).
    timed detail >>= λ _. browser_map_details (Dict.insert identifier detail mapped) vs

unfoldable pub browser_detail_map : Dict Value → Result (Dict (Dict Value))
browser_detail_map token = details_of token >>= browser_map_details []

unfoldable pub check_details : List Value → Result (Unit {0})
check_details [] = ok tt
check_details (v ∷ vs) =
    identified v >>= λ (identifier, detail). timed detail >>= λ _. check_details vs

unfoldable pub detail_list : Dict Value → Result (List Value)
detail_list token = details_of token >>= λ details. check_details details >> ok details

-- `set(amr)` for a list of JSON values: lists and dicts cannot be hashed. What is no text is in no
-- set of expected identifiers: `none`.
unfoldable pub text_set : List Value → Result (Option (List String))
text_set [] = ok (some [])
text_set (arr vs ∷ rest) = err type_error
text_set (obj fs ∷ rest) = err type_error
text_set (str s ∷ rest) =
    text_set rest >>= λ texts. ok (elim texts [ none ↦ none | some ts ↦ some (s ∷ ts) ])
text_set (_ ∷ rest) = text_set rest >>= λ texts. ok none

abbrev is_complete : Option (List String) → List String → Bool
is_complete none expected = false
is_complete (some texts) expected = same_set texts expected

-- `isinstance(amr, list) and set(amr) == expected`
unfoldable pub amr_matches : Dict Value → List String → Result Bool
unfolding text_set
amr_matches token expected = elim (as_list? (Dict.lookup "amr" token)) [
  | none ↦ ok false
  | some amr ↦ (text_set amr >>= λ texts. ok (is_complete texts expected))
]

-- `details[identifier]["amr_metadata"]["time"]`, a text in every result of `detail_map`
unfoldable pub time_at : Dict (Dict Value) → String → Result String
time_at details identifier = elim (Dict.lookup identifier details) [
  | none ↦ err (key_error identifier)
  | some detail ↦ elim (time_in detail) [ none ↦ err type_error | some time ↦ ok time ]
]

unfoldable pub same_times : Dict (Dict Value) → Dict (Dict Value) → List String → Result (Unit {0})
unfolding time_at check
same_times id_details userinfo_details [] = ok tt
same_times id_details userinfo_details (identifier ∷ expected) = do
  id_time ← time_at id_details identifier
  userinfo_time ← time_at userinfo_details identifier
  check (id_time == userinfo_time) "was not delivered from the same immutable event snapshot."
  same_times id_details userinfo_details expected

unfoldable pub assert_complete_event :
    Dict Value → Dict Value → List String → Result (Dict (Dict Value) × Dict (Dict Value))
unfolding detail_map same_times amr_matches
assert_complete_event id_token userinfo expected = do
  id_details ← detail_map id_token
  userinfo_details ← detail_map userinfo
  check (same_set (Dict.keys id_details) expected) "ID Token executions differ from the expected."
  check (same_set (Dict.keys userinfo_details) expected)
      "UserInfo executions differ from the expected."
  matches ← amr_matches id_token expected
  check matches "Standard amr is not the complete execution identifiers."
  same_times id_details userinfo_details expected
  ok (id_details, userinfo_details)
