-- ===== src/Client/Discovery/Methods.antt =====
-- What the visual builder is given, whatever the shape of the discovery document.
use keycloak_oidc4ac_lab.Prelude.{
  String, ◌≡◌, refl, Bool, true, false, none, some, List, [], ◌∷◌, arith, eq_iff, ◌==◌, ◌||◌, ◌<>◌,
  if◌then◌else◌, ◌∙◌,
}
use keycloak_oidc4ac_lab.Prelude.Dict
use keycloak_oidc4ac_lab.Prelude.Dict.{Dict, lookup-insert, is_member, keys}
use keycloak_oidc4ac_lab.Prelude.Dict.Unique.{mem-insert, is_member-keys}
use keycloak_oidc4ac_lab.Prelude.Sorting.{le_text}
use keycloak_oidc4ac_lab.Prelude.Sorting.Laws.{
  IsAscending, sorted-IsAscending, is_member-sorted, le_text_total,
}
use keycloak_oidc4ac_lab.Json.{Value, str}
use keycloak_oidc4ac_lab.Client.Discovery.{
  Suggestions, suggestions, list_member, Method, method_of, methods_from, builder_of,
}

-- The text is one of the values.
abbrev pub mentions : String → List Value → Bool
mentions name [] = false
mentions name (str s ∷ vs) = if s == name then true else mentions name vs
mentions name (_ ∷ vs) = mentions name vs

module _ (document : Dict Value) (j : String) where
  lookup-suggestions_from :
      (acc : Suggestions) (names : List Value)
      → Dict.lookup j (suggestions document acc names) ≡ (
          if mentions j names
          then some (list_member document (j <> "_values_supported"))
          else Dict.lookup j acc)
  unfolding suggestions
  lookup-suggestions_from acc [] = refl
  lookup-suggestions_from acc (str s ∷ names) =
      let value = list_member document (s <> "_values_supported") in
      ground (
        arith,
        lookup-suggestions_from (Dict.insert s value acc) names,
        lookup-insert s j value acc,
        eq_iff s j,
      )
  lookup-suggestions_from acc (_ ∷ names) = lookup-suggestions_from acc names

  -- Each text among the advertised names is a suggestion with the values advertised for it, and
  -- nothing else is one.
  pub lookup-suggestions :
      (names : List Value)
      → Dict.lookup j (suggestions document [] names) ≡ (
          if mentions j names then some (list_member document (j <> "_values_supported")) else none)
  unfolding Dict.lookup
  lookup-suggestions names = lookup-suggestions_from [] names

  lookup-methods_from :
      (acc : Dict Method) (names : List Value)
      → Dict.lookup j (methods_from document acc names)
        ≡ (if mentions j names then some (method_of document j) else Dict.lookup j acc)
  unfolding methods_from
  lookup-methods_from acc [] = refl
  lookup-methods_from acc (str s ∷ names) = ground (
    arith,
    lookup-methods_from (Dict.insert s (method_of document s) acc) names,
    lookup-insert s j (method_of document s) acc,
    eq_iff s j,
  )
  lookup-methods_from acc (_ ∷ names) = lookup-methods_from acc names

  mem-methods_from :
      (acc : Dict Method) (names : List Value)
      → Dict.mem j (methods_from document acc names) ≡ (mentions j names || Dict.mem j acc)
  unfolding methods_from
  mem-methods_from acc [] = refl
  mem-methods_from acc (str s ∷ names) = ground (
    arith,
    mem-methods_from (Dict.insert s (method_of document s) acc) names,
    mem-insert s j (method_of document s) acc,
  )
  mem-methods_from acc (_ ∷ names) = mem-methods_from acc names

-- The suggestions are the texts among the advertised names, each with the values advertised for it.
abbrev pub AreSuggestions : Dict Value → String → Suggestions → Type 0
AreSuggestions document member found =
    (k : String)
    → Dict.lookup k found ≡ (
        if mentions k (list_member document member)
        then some (list_member document (k <> "_values_supported"))
        else none)

-- What the document says of a method: its metadata and its properties.
pub record IsMethod (document : Dict Value) (identifier : String) (m : Method) : Type 0 where
  pub has_metadata : AreSuggestions document (identifier <> "_metadata_supported") m.metadata
  pub has_properties : AreSuggestions document (identifier <> "_properties_supported") m.properties

method_of-IsMethod :
    (document : Dict Value) (j : String) → IsMethod document j (method_of document j)
unfolding method_of
method_of-IsMethod document j = record {
  has_metadata =
      λ k. lookup-suggestions document k (list_member document (j <> "_metadata_supported"));
  has_properties =
      λ k. lookup-suggestions document k (list_member document (j <> "_properties_supported"));
}

-- For any document that is a JSON object, the methods are exactly the texts among
-- `amr_identifiers_supported`, each with the suggestions that the document advertises for its metadata
-- and for its properties, and `identifiers` lists the same texts in ascending order.
pub builder_complete :
    (document : Dict Value)
    → let names = list_member document "amr_identifiers_supported" in
      ((j : String)
        → (m : Method) × IsMethod document j m
          × (Dict.lookup j (builder_of document).methods
              ≡ (if mentions j names then some m else none)))
      × ((j : String) → is_member j (builder_of document).identifiers ≡ mentions j names)
      × IsAscending le_text (builder_of document).identifiers
unfolding builder_of Dict.lookup Dict.mem
builder_complete document =
    let names = list_member document "amr_identifiers_supported" in
    let methods = methods_from document [] names in
    (
      λ j. (
        method_of document j,
        method_of-IsMethod document j,
        lookup-methods_from document j [] names,
      ),
      λ j.
          is_member-sorted le_text j (keys methods)
          ∙ is_member-keys j methods
          ∙ ground (arith, mem-methods_from document j [] names),
      sorted-IsAscending le_text le_text_total (keys methods),
    )
