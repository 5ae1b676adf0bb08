-- ===== src/E2e/Details/Complete.antt =====
-- What `assert_complete_event` of e2e/http/run.py has established when it returns.
use keycloak_oidc4ac_lab.Prelude.{
  String, ◌≡◌, refl, Bool, true, false, List, [], ◌∷◌, All, ok, ok_inj, >>=-eq-ok, eq_iff, ◌==◌,
  arith, sym, ◌∙◌, ap, some, none, map, some_inj, Bool-cases, Option-cases, Result-cases, inl, inr,
}
use keycloak_oidc4ac_lab.Prelude.Dict
use keycloak_oidc4ac_lab.Prelude.Dict.{Dict, same_set, is_subset, is_member}
use keycloak_oidc4ac_lab.Json.{Value, str, arr, obj}
use keycloak_oidc4ac_lab.E2e.Details.{
  check, detail_map, amr_matches, text_set, as_list?, time_in, time_at, same_times,
  assert_complete_event,
}

-- The execution is in both dicts with one text as its time.
abbrev pub IsSameTime : Dict (Dict Value) → Dict (Dict Value) → String → Type 0
IsSameTime id_details userinfo_details identifier =
    (time : String) × (detail : Dict Value) × (delivered : Dict Value) × (Dict.lookup identifier
        id_details
      ≡ some detail)
    × (Dict.lookup identifier userinfo_details ≡ some delivered)
    × (time_in detail ≡ some time)
    × (time_in delivered ≡ some time)

-- Two lists have the same members.
abbrev pub SameMembers : List String → List String → Type 0
SameMembers xs ys = (j : String) → is_member j xs ≡ is_member j ys

member_of_subset :
    (j : String) (xs ys : List String)
    → is_subset xs ys ≡ true
    → is_member j xs ≡ true
    → is_member j ys ≡ true
member_of_subset j [] ys h member = absurd (cc member)
member_of_subset j (x ∷ xs) ys h member = elim (Bool-cases (x == j)) [
  | inl e ↦ let same : x ≡ j = ground (arith, eq_iff x j) in rw (← same) (ground arith)
  | inr e ↦ member_of_subset j xs ys (ground arith) (rw e at member)
]

both_true : (a b : Bool) → (a ≡ true → b ≡ true) → (b ≡ true → a ≡ true) → a ≡ b
both_true true b f g = sym (f refl)
both_true false true f g = g refl
both_true false false f g = refl

same_set-SameMembers : (xs ys : List String) → same_set xs ys ≡ true → SameMembers xs ys
same_set-SameMembers xs ys h j =
    both_true (is_member j xs) (is_member j ys) (member_of_subset j xs ys (ground arith))
      (member_of_subset j ys xs (ground arith))

text_set-texts :
    (amr : List Value) (texts : List String) → text_set amr ≡ ok (some texts) → amr ≡ map str texts
unfolding text_set
text_set-texts [] texts h = ground arith
text_set-texts (str s ∷ amr) texts h = elim (Result-cases (text_set amr)) [
  | inr (e, raised) ↦ absurd (cc (rw (raised, text_set) at h))
  | inl (none, e) ↦ absurd (cc (rw (e, text_set) at h))
  | inl (some later, e) ↦
      let same : (s ∷ later) ≡ texts = some_inj (ok_inj (rw (e, text_set) at h)) in
      ap (λ vs. str s ∷ vs) (text_set-texts amr later e) ∙ ap (map str) same
]
text_set-texts (arr vs ∷ amr) texts h = absurd (cc h)
text_set-texts (obj fs ∷ amr) texts h = absurd (cc h)
text_set-texts (_ ∷ amr) texts h = elim (Result-cases (text_set amr)) [
  | inr (e, raised) ↦ absurd (cc (rw (raised, text_set) at h))
  | inl (later, e) ↦ absurd (cc (rw (e, text_set) at h))
]

-- The standard `amr` is a list of texts with these members.
abbrev pub IsAmr : Dict Value → List String → Type 0
IsAmr token expected =
    (texts : List String) × (as_list? (Dict.lookup "amr" token) ≡ some (map str texts))
    × SameMembers texts expected

amr_matches-IsAmr :
    (token : Dict Value) (expected : List String)
    → amr_matches token expected ≡ ok true
    → IsAmr token expected
unfolding amr_matches
amr_matches-IsAmr token expected h = elim (Option-cases (as_list? (Dict.lookup "amr" token))) [
  | inl gone ↦ absurd (cc (rw (gone, amr_matches) at h))
  | inr (amr, given) ↦ elim (Result-cases (text_set amr)) [
    | inr (e, raised) ↦ absurd (cc (rw (given, raised, amr_matches) at h))
    | inl (none, e) ↦ absurd (cc (rw (given, e, amr_matches) at h))
    | inl (some texts, e) ↦
        let same : same_set texts expected ≡ true = ok_inj (rw (given, e, amr_matches) at h) in
        (
          texts,
          given ∙ ap some (text_set-texts amr texts e),
          same_set-SameMembers texts expected same,
        )
  ]
]

-- What `time_at` has found.
time_at-found :
    (details : Dict (Dict Value)) (identifier time : String)
    → time_at details identifier ≡ ok time
    → (detail : Dict Value) × (Dict.lookup identifier details ≡ some detail)
      × (time_in detail ≡ some time)
unfolding time_at
time_at-found details identifier time h = elim (Option-cases (Dict.lookup identifier details)) [
  | inl gone ↦ absurd (cc (rw (gone, time_at) at h))
  | inr (detail, e) ↦ elim (Option-cases (time_in detail)) [
    | inl no_time ↦ absurd (cc (rw (e, no_time, time_at) at h))
    | inr (found, f) ↦ (detail, e, f ∙ ap some (ok_inj (rw (e, f, time_at) at h)))
  ]
]

checked_true : (b : Bool) (message : String) (u : Unit) → check b message ≡ ok u → b ≡ true
unfolding check
checked_true true message u h = refl
checked_true false message u h = cc

same_times-IsSameTime :
    (id_details userinfo_details : Dict (Dict Value)) (expected : List String) (u : Unit)
    → same_times id_details userinfo_details expected ≡ ok u
    → All (IsSameTime id_details userinfo_details) expected
unfolding same_times
same_times-IsSameTime m n [] u h = tt
same_times-IsSameTime m n (identifier ∷ expected) u h =
    let one = >>=-eq-ok (time_at m identifier) _ h in
    let two = >>=-eq-ok (time_at n identifier) _ one.2 in
    let three = >>=-eq-ok (check (one.0 == two.0) _) _ two.2 in
    let equal : one.0 ≡ two.0 =
      (let c = checked_true _ _ _ three.1 in ground (arith, eq_iff one.0 two.0)) in
    let here = time_at-found m identifier one.0 one.1 in
    let there = time_at-found n identifier one.0 (two.1 ∙ ap ok (sym equal)) in
    (
      (one.0, here.0, there.0, here.1, there.1, here.2, there.2),
      same_times-IsSameTime m n expected u three.2,
    )

-- When `assert_complete_event` returns, it returns the executions that `detail_map` reads of the ID
-- Token and of UserInfo; the expected identifiers, and no others, are those of the executions at
-- both locations and the members of `amr`, a list of texts; and each expected execution has the same
-- time at both.
pub assert_complete_event_sound :
    (id_token userinfo : Dict Value) (expected : List String) (m n : Dict (Dict Value))
    → assert_complete_event id_token userinfo expected ≡ ok (m, n)
    → (detail_map id_token ≡ ok m)
      × (detail_map userinfo ≡ ok n)
      × SameMembers (Dict.keys m) expected
      × SameMembers (Dict.keys n) expected
      × IsAmr id_token expected
      × All (IsSameTime m n) expected
unfolding assert_complete_event
assert_complete_event_sound id_token userinfo expected m n h =
    let first = >>=-eq-ok (detail_map id_token) _ h in
    let second = >>=-eq-ok (detail_map userinfo) _ first.2 in
    let in_token = >>=-eq-ok (check (same_set (Dict.keys first.0) expected) _) _ second.2 in
    let in_userinfo = >>=-eq-ok (check (same_set (Dict.keys second.0) expected) _) _ in_token.2 in
    let standard = >>=-eq-ok (amr_matches id_token expected) _ in_userinfo.2 in
    let matched = >>=-eq-ok (check standard.0 _) _ standard.2 in
    let timed = >>=-eq-ok (same_times first.0 second.0 expected) _ matched.2 in
    let same : Path (Dict (Dict Value) × Dict (Dict Value)) (first.0, second.0) (m, n) =
      ok_inj timed.2 in
    let is_m : first.0 ≡ m = ap (λ r. r.0) same in
    let is_n : second.0 ≡ n = ap (λ r. r.1) same in
    (
      first.1 ∙ ap ok is_m,
      second.1 ∙ ap ok is_n,
      same_set-SameMembers (Dict.keys m) expected
          (ap (λ d. same_set (Dict.keys d) expected) (sym is_m) ∙ checked_true _ _ _ in_token.1),
      same_set-SameMembers (Dict.keys n) expected
          (ap (λ d. same_set (Dict.keys d) expected) (sym is_n) ∙ checked_true _ _ _ in_userinfo.1),
      amr_matches-IsAmr id_token expected (standard.1 ∙ ap ok (checked_true _ _ _ matched.1)),
      rw (← is_m, ← is_n) (same_times-IsSameTime first.0 second.0 expected _ timed.1),
    )
