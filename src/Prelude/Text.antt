-- ===== src/Prelude/Text.antt =====
-- Python's `str` as the native text: its code points, and the tests of the source.
use Prim.Native.Nat.{ℕ, ◌+◌}
use Prim.Native.Char.{Char, code}
use Prim.Native.String
use Prim.Native.String.{String}
use mathlib.Core.Bool.{Bool, true, ◌&&◌, ◌||◌}
use mathlib.Core.Option.{Option, none, some}
use mathlib.Core.List.{List, [], ◌∷◌}
use text.Mathlib.Text.{◌==◌, starts_with}
use keycloak_oidc4ac_lab.Prelude.Tests.{leb, ltb, nat_eq, if◌then◌else◌}

abbrev pub codes : String → List ℕ
codes String.[] = []
codes (String.◌∷◌ c s) = code c ∷ codes s

-- `s + t`
infixr 65 ◌<>◌
abbrev pub ◌<>◌ : String → String → String
s <> t = String.◌++◌ s t

abbrev pub is_empty : String → Bool
is_empty s = s == ""

-- `part in s`
abbrev pub contains : String → String → Bool
contains part String.[] = part == ""
contains part (String.◌∷◌ c s) = starts_with (String.◌∷◌ c s) part || contains part s

-- What follows the first occurrence of a text, and what precedes it.
abbrev drop_chars : String → String → String
drop_chars String.[] s = s
drop_chars (String.◌∷◌ p ps) String.[] = String.[]
drop_chars (String.◌∷◌ p ps) (String.◌∷◌ c s) = drop_chars ps s

unfoldable pub after : String → String → Option String
after part String.[] = if part == "" then some String.[] else none
after part (String.◌∷◌ c s) =
    let later = after part s in
    if starts_with (String.◌∷◌ c s) part then some (drop_chars part (String.◌∷◌ c s)) else later

abbrev consed : Char → Option String → Option String
consed c none = none
consed c (some s) = some (String.◌∷◌ c s)

unfoldable pub before : String → String → Option String
before part String.[] = if part == "" then some String.[] else none
before part (String.◌∷◌ c s) =
    let later = consed c (before part s) in
    if starts_with (String.◌∷◌ c s) part then some String.[] else later

-- `s.rsplit(part, 1)[0]`: what precedes the last occurrence of a text, or the whole.
unfoldable pub before_last : String → String → Option String
before_last part String.[] = if part == "" then some String.[] else none
before_last part (String.◌∷◌ c s) =
    let here = if starts_with (String.◌∷◌ c s) part then some String.[] else none in
    elim (before_last part s) [ some t ↦ some (String.◌∷◌ c t) | none ↦ here ]

abbrev pub rsplit_head : String → String → String
rsplit_head part s = elim (before_last part s) [ none ↦ s | some t ↦ t ]

-- `char.isspace()`, for one code point
unfoldable pub is_space : ℕ → Bool
is_space c =
    (leb 9 c && leb c 13)
    || (leb 28 c && leb c 32)
    || nat_eq c 133
    || nat_eq c 160
    || nat_eq c 5760
    || (leb 8192 c && leb c 8202)
    || nat_eq c 8232
    || nat_eq c 8233
    || nat_eq c 8239
    || nat_eq c 8287
    || nat_eq c 12288

-- `not s.strip()`: there is nothing but white space.
unfoldable pub is_blank : List ℕ → Bool
unfolding is_space
is_blank [] = true
is_blank (c ∷ s) = is_space c && is_blank s

-- `len(s.encode("utf-8"))`
unfoldable pub utf8_length : List ℕ → ℕ
utf8_length [] = 0
utf8_length (c ∷ s) =
    (if ltb c 128 then 1 else if ltb c 2048 then 2 else if ltb c 65536 then 3 else 4)
    + utf8_length s

-- `s.strip()`
abbrev lstrip : String → String
lstrip String.[] = String.[]
lstrip (String.◌∷◌ c s) = let rest = lstrip s in if is_space (code c) then rest else String.◌∷◌ c s

abbrev rstrip : String → String
rstrip String.[] = String.[]
rstrip (String.◌∷◌ c s) =
    let rest = rstrip s in if rest == "" && is_space (code c) then String.[] else String.◌∷◌ c rest

abbrev pub strip : String → String
strip s = lstrip (rstrip s)

-- `text.rstrip("/")`
abbrev pub rstrip_slashes : String → String
rstrip_slashes String.[] = String.[]
rstrip_slashes (String.◌∷◌ c s) =
    let rest = rstrip_slashes s in
    if rest == "" && nat_eq (code c) 47 then String.[] else String.◌∷◌ c rest
