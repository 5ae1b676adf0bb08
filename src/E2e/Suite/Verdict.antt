-- ===== src/E2e/Suite/Verdict.antt =====
-- What the exit code of e2e/http/run.py says.
use keycloak_oidc4ac_lab.Prelude.{
  ℕ, String, List, [], ◌∷◌, ◌≡◌, refl, ◌⊎◌, inl, inr, ok, err, Error, Result, Result-cases, sym,
}
use mathlib.Core.Path.{subst}
use keycloak_oidc4ac_lab.Prelude.Action.{Action, ◌>>=◌}
use keycloak_oidc4ac_lab.E2e.Lab.{Network, Lab, Constants, outside}
use keycloak_oidc4ac_lab.E2e.Suite.{run_cases, wait_for_lab, main}

module _ {S : Type 0} where
  -- The cases pass one after another, from the one state to the other.
  pub data Passes : List (String × Action S Unit) → S → S → Type 0 where
    all_done : (s : S) → Passes [] s s
    then_next :
        (name : String) (case : Action S Unit) (cases : List (String × Action S Unit)) (s t : S)
        → (case s).0 ≡ ok tt
        → Passes cases (case s).1 t
        → Passes ((name, case) ∷ cases) s t

  -- Some cases pass, and the one after them raises: those behind it do not run.
  pub data Fails : List (String × Action S Unit) → S → S → Type 0 where
    here :
        (name : String) (case : Action S Unit) (cases : List (String × Action S Unit)) (s : S)
        (error : Error)
        → (case s).0 ≡ err error
        → Fails ((name, case) ∷ cases) s (case s).1
    there :
        (name : String) (case : Action S Unit) (cases : List (String × Action S Unit)) (s t : S)
        → (case s).0 ≡ ok tt
        → Fails cases (case s).1 t
        → Fails ((name, case) ∷ cases) s t

  abbrev pub Verdict : List (String × Action S Unit) → S → Result ℕ × S → Type 0
  Verdict cases s o = ((o.0 ≡ ok 0) × Passes cases s o.1) ⊎ ((o.0 ≡ ok 1) × Fails cases s o.1)

  after_pass :
      (name : String) (case : Action S Unit) (cases : List (String × Action S Unit)) (s : S)
      (o : Result ℕ × S)
      → (case s).0 ≡ ok tt
      → Verdict cases (case s).1 o
      → Verdict ((name, case) ∷ cases) s o
  after_pass name case cases s o e (inl (code, p)) =
      inl (code, Passes.then_next name case cases s o.1 e p)
  after_pass name case cases s o e (inr (code, f)) =
      inr (code, Fails.there name case cases s o.1 e f)

  -- The loop ends with code 0 where every case passes, or with code 1 at the first one that raises.
  pub run_cases-Verdict :
      (cases : List (String × Action S Unit)) (s : S) → Verdict cases s (run_cases cases s)
  unfolding run_cases
  run_cases-Verdict [] s = inl (refl, Passes.all_done s)
  run_cases-Verdict ((name, case) ∷ cases) s = elim (Result-cases (case s).0) [
    | inr (error, e) ↦ rw (e, run_cases) (inr (refl, Fails.here name case cases s error e))
    | inl (done, e) ↦
        subst (Verdict ((name, case) ∷ cases) s) (sym (goes_on e))
          (after_pass name case cases s _ e (run_cases-Verdict cases (case s).1))
  ]
    where
      goes_on : (case s).0 ≡ ok tt → run_cases ((name, case) ∷ cases) s ≡ run_cases cases (case s).1
      goes_on e = rw (e, run_cases) refl

module _ {W : Type 0} (net : Network W) (constants : Constants) where
  -- `main` raises where waiting for the lab does. Otherwise it returns 0 if every case passes, each
  -- from the state in which the one before it has left the lab, or 1 if some case raises after all
  -- before it have passed; then no later case has run.
  pub main-Verdict :
      (cases : List (String × Action (Lab W) Unit)) (s : Lab W)
      → let waited = outside (wait_for_lab net constants s.settings.client) s in
        let o = main net constants cases s in
        ((e : Error) × (waited.0 ≡ err e) × (o ≡ (err e, waited.1)))
        ⊎ ((waited.0 ≡ ok tt) × Verdict cases waited.1 o)
  unfolding main
  main-Verdict cases s =
      elim (Result-cases (wait_for_lab net constants s.settings.client s.world).0) [
        | inr (e, h) ↦ inl (e, h, rw (h, main, ◌>>=◌) refl)
        | inl (done, h) ↦
            let after = (outside (wait_for_lab net constants s.settings.client) s).1 in
            let runs : main net constants cases s ≡ run_cases cases after =
              rw (h, main, ◌>>=◌) refl in
            inr (h, subst (Verdict cases after) (sym runs) (run_cases-Verdict cases after))
      ]
