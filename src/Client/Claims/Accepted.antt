-- ===== src/Client/Claims/Accepted.antt =====
-- What `parse_claims` accepts, and which of its messages the rest gets.
use keycloak_oidc4ac_lab.Prelude.{
  ◌≤◌, String, ◌≡◌, refl, ◌↔◌, false, some, arith, codes, is_blank, utf8_length, ltb, Bool-cases,
  inl, inr, ap,
}
use keycloak_oidc4ac_lab.Prelude.Dict.{Dict}
use keycloak_oidc4ac_lab.Json.{Value, obj, entries, Decoded, value, JsonText, Fields}
use keycloak_oidc4ac_lab.Client.Claims.{claims, parse_claims, size_limit, checked}

-- The text is not blank, fits in 64 KB, and is the JSON text of the object `d`.
pub record IsRequestObject (json : JsonText) (raw : String) (d : Dict Value) : Type 0 where
  pub not_blank : is_blank (codes raw) ≡ false
  pub fits : utf8_length (codes raw) ≤ size_limit
  pub fields : Fields
  pub decoded : json.loads (codes raw) ≡ value (obj fields)
  pub is_entries : entries fields ≡ d

checked_claims :
    (r : Decoded) (d : Dict Value)
    → checked r ≡ claims d
    → (fs : Fields) × (r ≡ value (obj fs)) × (entries fs ≡ d)
checked_claims (value (obj fs)) d h = (fs, refl, cc)
checked_claims _ d h = cc

module _ (json : JsonText) (raw : String) (d : Dict Value) where
  accepted_object : parse_claims json (some raw) ≡ claims d → IsRequestObject json raw d
  unfolding parse_claims
  accepted_object h = elim (Bool-cases (is_blank (codes raw))) [
    | inl blank ↦ absurd (cc (rw (blank, parse_claims) at h))
    | inr text ↦ elim (Bool-cases (ltb size_limit (utf8_length (codes raw)))) [
      | inl long ↦ absurd (cc (rw (text, long, parse_claims) at h))
      | inr short ↦
          let c = checked_claims (json.loads (codes raw)) d (rw (text, short, parse_claims) at h) in
          record {
            not_blank = text;
            fits = ground arith;
            fields = c.0;
            decoded = c.1;
            is_entries = c.2;
          }
    ]
  ]

  object_accepted : IsRequestObject json raw d → parse_claims json (some raw) ≡ claims d
  unfolding parse_claims
  object_accepted h =
      let short : ltb size_limit (utf8_length (codes raw)) ≡ false =
        (let f = h.fits in ground arith) in
      rw (h.not_blank, short, h.decoded, parse_claims) (ap claims h.is_entries)

  -- A submitted text is accepted with the claims `d` exactly when it is not blank, is at most
  -- 64,000 bytes long in UTF-8 and is the JSON text of the object `d`.
  pub parse_claims_accepts : (parse_claims json (some raw) ≡ claims d) ↔ IsRequestObject json raw d
  parse_claims_accepts = (accepted_object, object_accepted)
