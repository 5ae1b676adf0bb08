-- ===== src/Json/Codec.antt =====
-- Python's `json` module as the program calls it, an interface: texts are code points.
use keycloak_oidc4ac_lab.Prelude.{ℕ, String, List, Result, ok, Error, codes, ◌≡◌}
use keycloak_oidc4ac_lab.Json.Defs.{Value}

-- What `json.loads` does: a value, or `JSONDecodeError` with its line and column. A text of valid
-- JSON may also raise: a plain ValueError for an integer of more digits than Python converts, and
-- RecursionError for one that is nested too deeply.
pub data Decoded : Type 0 where
  value : Value → Decoded
  decode_error : ℕ → ℕ → Decoded
  raised : Error → Decoded

pub record JsonText : Type 0 where
  pub loads : List ℕ → Decoded
  -- `json.dumps(value, separators=(",", ":"))`, of a value that `loads` gave or the program built
  pub dumps : Value → String
  -- `pretty_json`: `json.dumps(value, indent=2, ensure_ascii=False, sort_keys=False)`,
  -- which with an indent recurs in Python, and raises for a value that is nested too deeply
  pub pretty : Value → Result String

-- What is written of a value that was read is read as that value again.
pub record IsFaithful (json : JsonText) : Type 0 where
  pub dumps_read :
      (text : List ℕ) (v : Value)
      → json.loads text ≡ value v
      → json.loads (codes (json.dumps v)) ≡ value v
  pub pretty_read :
      (text : List ℕ) (v : Value) (printed : String)
      → json.loads text ≡ value v
      → json.pretty v ≡ ok printed
      → json.loads (codes printed) ≡ value v
