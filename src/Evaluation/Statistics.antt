-- ===== src/Evaluation/Statistics.antt =====
-- The statistics of evaluation/benchmark/analyze.py. A measured duration is a whole number of
-- tenths of a microsecond: the runner rounds milliseconds to four decimals.
pub mod Conserved
use keycloak_oidc4ac_lab.Prelude.{
  ℕ, ◌+◌, ◌-◌, ◌*◌, ◌/◌, ◌%◌, List, [], ◌∷◌, ◌++◌, length, get_or, take, drop, leb, nat_eq,
  if◌then◌else◌,
}
use Prim.Native.Nat.{min}
use keycloak_oidc4ac_lab.Prelude.Sorting.{sorted}

-- `num / den`, exact where the source computes with floats.
pub record Fraction : Type 0 where
  pub num : ℕ
  pub den : ℕ

-- One measured cycle.
pub record Sample : Type 0 where
  pub round : ℕ
  pub client_ms : ℕ
  pub server_ms : ℕ

abbrev pub Groups : Type 0
Groups = List (ℕ × List ℕ)

-- `by_round.setdefault(round, []).append(value)`
unfoldable pub append_to : ℕ → ℕ → Groups → Groups
append_to round value [] = (round, value ∷ []) ∷ []
append_to round value ((r, vs) ∷ groups) =
    if nat_eq r round
    then (r, vs ++ value ∷ []) ∷ groups
    else (r, vs) ∷ append_to round value groups

unfoldable pub group_by_round : (Sample → ℕ) → Groups → List Sample → Groups
unfolding append_to
group_by_round metric groups [] = groups
group_by_round metric groups (s ∷ samples) =
    group_by_round metric (append_to s.round (metric s) groups) samples

abbrev pub sum : List ℕ → ℕ
sum [] = 0
sum (x ∷ xs) = x + sum xs

-- `statistics.mean(values)`
abbrev pub mean : List ℕ → Fraction
mean values = record { num = sum values; den = length values }

abbrev pub means_of : Groups → List (ℕ × Fraction)
means_of [] = []
means_of ((r, vs) ∷ groups) = (r, mean vs) ∷ means_of groups

unfoldable pub round_means : List Sample → (Sample → ℕ) → List (ℕ × Fraction)
unfolding group_by_round
round_means samples metric = means_of (group_by_round metric [] samples)

-- `run[:len(run) // 2]` and `run[len(run) // 2:]` of every run, each joined.
module _ {A : Type 0} where
  unfoldable pub first_halves : List (List A) → List A
  first_halves [] = []
  first_halves (run ∷ runs) = take (length run / 2) run ++ first_halves runs

  unfoldable pub second_halves : List (List A) → List A
  second_halves [] = []
  second_halves (run ∷ runs) = drop (length run / 2) run ++ second_halves runs

  -- The differences are floats, of either sign: `statistics.fmean` and `round(…, 3)` are given.
  unfoldable pub half_means : {F : Type 0} → (List A → F) → (F → F) → List (List A) → F × F
  unfolding first_halves second_halves
  half_means fmean rounded differences =
      (rounded (fmean (first_halves differences)), rounded (fmean (second_halves differences)))
