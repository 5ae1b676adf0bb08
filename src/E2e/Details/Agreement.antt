-- ===== src/E2e/Details/Agreement.antt =====
-- `detail_map` and `detail_list` read the same executions.
use keycloak_oidc4ac_lab.Prelude.{
  String, ◌≡◌, refl, ◌↔◌, false, List, [], ◌∷◌, ◌++◌, arith, ok, err, ok_inj, >>=-eq-ok, Bool-cases,
  inl, inr, eq_iff, ◌==◌, sym, ◌∙◌, ap,
}
use mathlib.Core.List.{append_assoc, append-nil}
use keycloak_oidc4ac_lab.Prelude.Dict
use keycloak_oidc4ac_lab.Prelude.Dict.{Dict}
use keycloak_oidc4ac_lab.Prelude.Dict.Unique.{IsUnique, insert-IsUnique}
use keycloak_oidc4ac_lab.Json.{Value}
use keycloak_oidc4ac_lab.E2e.Details.{
  identified, timed, map_details, detail_map, check_details, detail_list, details_of,
}

-- The executions under their identifiers, in order and with repetitions.
abbrev pub listing : List Value → Dict (Dict Value)
listing [] = []
listing (v ∷ vs) =
    let rest = listing vs in elim (identified v) [ ok item ↦ item ∷ rest | err e ↦ rest ]

insert_new :
    (k : String) (v : Dict Value) (d : Dict (Dict Value))
    → Dict.mem k d ≡ false
    → Dict.insert k v d ≡ d ++ (k, v) ∷ []
unfolding Dict.insert Dict.mem
insert_new k v [] h = refl
insert_new k v ((j, w) ∷ d) h = ground (arith, insert_new k v d)

-- What one successful round of `detail_map` has established.
map_details_step :
    (acc : Dict (Dict Value)) (v : Value) (vs : List Value) (m : Dict (Dict Value))
    → map_details acc (v ∷ vs) ≡ ok m
    → (k : String) × (d : Dict Value) × (t : String) × (identified v ≡ ok (k, d))
      × (Dict.mem k acc ≡ false)
      × (timed d ≡ ok t)
      × (map_details (acc ++ (k, d) ∷ []) vs ≡ ok m)
unfolding map_details
map_details_step acc v vs m h =
    let one = >>=-eq-ok (identified v) _ h in
    elim (Bool-cases (Dict.mem one.0.0 acc)) [
      | inl twice ↦ absurd (cc (rw twice at one.2))
      | inr new ↦
          let two = >>=-eq-ok (timed one.0.1) _ (rw new at one.2) in
          (
            one.0.0,
            one.0.1,
            two.0,
            one.1,
            new,
            two.1,
            rw (← insert_new one.0.0 one.0.1 acc new) two.2,
          )
    ]

check_details_step :
    (v : Value) (vs : List Value) (k : String) (d : Dict Value) (t : String)
    → identified v ≡ ok (k, d)
    → timed d ≡ ok t
    → check_details (v ∷ vs) ≡ check_details vs
unfolding check_details
check_details_step v vs k d t i e = rw i (rw e refl)

listing_step :
    (v : Value) (vs : List Value) (item : String × Dict Value)
    → identified v ≡ ok item
    → listing (v ∷ vs) ≡ item ∷ listing vs
listing_step v vs item i = rw (i, listing) refl

map_details_reads :
    (vs : List Value) (acc m : Dict (Dict Value))
    → map_details acc vs ≡ ok m
    → (check_details vs ≡ ok tt) × (m ≡ acc ++ listing vs)
unfolding map_details check_details
map_details_reads [] acc m h = (refl, sym (ok_inj h) ∙ sym (append-nil acc))
map_details_reads (v ∷ vs) acc m h =
    let s = map_details_step acc v vs m h in
    let ih = map_details_reads vs (acc ++ (s.0, s.1) ∷ []) m s.6 in
    (
      check_details_step v vs s.0 s.1 s.2 s.3 s.5 ∙ ih.0,
      ih.1
          ∙ append_assoc acc ((s.0, s.1) ∷ []) (listing vs)
          ∙ ap (λ l. acc ++ l) (sym (listing_step v vs (s.0, s.1) s.3)),
    )

map_details-IsUnique :
    (vs : List Value) (acc m : Dict (Dict Value))
    → map_details acc vs ≡ ok m
    → IsUnique acc
    → IsUnique m
unfolding map_details
map_details-IsUnique [] acc m h u = rw (← ok_inj h) u
map_details-IsUnique (v ∷ vs) acc m h u =
    let s = map_details_step acc v vs m h in
    map_details-IsUnique vs (acc ++ (s.0, s.1) ∷ []) m s.6
      (rw (← insert_new s.0 s.1 acc s.4) (insert-IsUnique s.0 s.1 acc u))

mem-append_self :
    (acc : Dict (Dict Value)) (j k : String) (d : Dict Value) (rest : Dict (Dict Value))
    → Dict.mem j (acc ++ (k, d) ∷ rest) ≡ false
    → (k == j) ≡ false
unfolding Dict.mem
mem-append_self [] j k d rest h = ground arith
mem-append_self ((i, w) ∷ acc) j k d rest h = ground (arith, mem-append_self acc j k d rest)

-- A key in the middle of a dict without repetitions is not in front of it.
not_before :
    (acc : Dict (Dict Value)) (k : String) (d : Dict Value) (rest : Dict (Dict Value))
    → IsUnique (acc ++ (k, d) ∷ rest)
    → Dict.mem k acc ≡ false
unfolding Dict.mem
not_before [] k d rest u = refl
not_before ((j, w) ∷ acc) k d rest u =
    ground
      (arith, not_before acc k d rest u.1, mem-append_self acc j k d rest, eq_iff j k, eq_iff k j)

check_details_parts :
    (v : Value) (vs : List Value)
    → check_details (v ∷ vs) ≡ ok tt
    → (k : String) × (d : Dict Value) × (t : String) × (identified v ≡ ok (k, d))
      × (timed d ≡ ok t)
      × (check_details vs ≡ ok tt)
unfolding check_details
check_details_parts v vs h =
    let one = >>=-eq-ok (identified v) _ h in
    let two = >>=-eq-ok (timed one.0.1) _ one.2 in (one.0.0, one.0.1, two.0, one.1, two.1, two.2)

map_details_runs :
    (vs : List Value) (acc : Dict (Dict Value))
    → check_details vs ≡ ok tt
    → IsUnique (acc ++ listing vs)
    → map_details acc vs ≡ ok (acc ++ listing vs)
unfolding map_details check_details
map_details_runs [] acc h u = ap ok (sym (append-nil acc))
map_details_runs (v ∷ vs) acc h u =
    let s = check_details_parts v vs h in
    let split = listing_step v vs (s.0, s.1) s.3 in
    let new = not_before acc s.0 s.1 (listing vs) (rw (← split) u) in
    let moved = append_assoc acc ((s.0, s.1) ∷ []) (listing vs) ∙ ap (λ l. acc ++ l) (sym split) in
    rw (s.3, map_details)
      (rw new (
        rw s.4 (
          rw (insert_new s.0 s.1 acc new)
            (map_details_runs vs (acc ++ (s.0, s.1) ∷ []) s.5 (rw moved u) ∙ ap ok moved))))

-- `detail_map` succeeds exactly when `detail_list` does and no identifier is repeated; its result
-- is then the executions of `detail_list`, in their order, under their identifiers.
pub detail_map_agrees :
    (token : Dict Value) (m : Dict (Dict Value))
    → (detail_map token ≡ ok m) ↔ (
        (details : List Value) × (detail_list token ≡ ok details)
        × (listing details ≡ m)
        × IsUnique m)
unfolding detail_map detail_list
detail_map_agrees token m = (to, from)
  where
    to :
        detail_map token ≡ ok m
        → (details : List Value) × (detail_list token ≡ ok details)
          × (listing details ≡ m)
          × IsUnique m
    to h =
        let read = >>=-eq-ok (details_of token) (map_details []) h in
        let same = map_details_reads read.0 [] m read.2 in
        (
          read.0,
          rw (read.1, detail_list) (rw same.0 refl),
          sym same.1,
          map_details-IsUnique read.0 [] m read.2 tt,
        )

    from :
        ((details : List Value) × (detail_list token ≡ ok details)
          × (listing details ≡ m)
          × IsUnique m)
        → detail_map token ≡ ok m
    from (details, listed, entries, unique) =
        let read = >>=-eq-ok (details_of token) _ listed in
        let checked = >>=-eq-ok (check_details read.0) _ read.2 in
        let same = ap listing (ok_inj checked.2) ∙ entries in
        rw (read.1, detail_map) (map_details_runs read.0 [] checked.1 (rw same unique) ∙ ap ok same)
