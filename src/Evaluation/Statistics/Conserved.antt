-- ===== src/Evaluation/Statistics/Conserved.antt =====
-- `round_means` and `half_means` of evaluation/benchmark/analyze.py use every value once.
use keycloak_oidc4ac_lab.Prelude.{
  ℕ, ◌+◌, ◌/◌, ◌≡◌, List, [], ◌∷◌, ◌++◌, map, arith, length, take, drop, length-append,
  take-append-drop, nat_eq, Bool-cases, inl, inr, ap, sym, ◌∙◌,
}
use keycloak_oidc4ac_lab.Evaluation.Statistics.{
  Fraction, Sample, Groups, append_to, group_by_round, sum, means_of, round_means, first_halves,
  second_halves, half_means,
}

sum-append : (xs ys : List ℕ) → sum (xs ++ ys) ≡ sum xs + sum ys
sum-append [] ys = omega arith
sum-append (x ∷ xs) ys = omega (arith, sum-append xs ys)

abbrev pub numerators : List (ℕ × Fraction) → ℕ
numerators [] = 0
numerators ((r, f) ∷ ms) = f.num + numerators ms

abbrev pub denominators : List (ℕ × Fraction) → ℕ
denominators [] = 0
denominators ((r, f) ∷ ms) = f.den + denominators ms

append_to-conserved :
    (round value : ℕ) (groups : Groups)
    → (numerators (means_of (append_to round value groups)) ≡ value + numerators (means_of groups))
      × (denominators (means_of (append_to round value groups))
          ≡ 1 + denominators (means_of groups))
unfolding append_to
append_to-conserved round value [] = (omega arith, omega arith)
append_to-conserved round value ((r, vs) ∷ groups) = elim (Bool-cases (nat_eq r round)) [
  | inl e ↦
      rw (e, append_to)
        (omega (arith, sum-append vs (value ∷ [])), omega (arith, length-append vs (value ∷ [])))
  | inr e ↦
      let rest = append_to-conserved round value groups in
      rw (e, append_to) (omega (arith, rest.0), omega (arith, rest.1))
]

group_by_round-conserved :
    (metric : Sample → ℕ) (groups : Groups) (samples : List Sample)
    → (numerators (means_of (group_by_round metric groups samples))
        ≡ numerators (means_of groups) + sum (map metric samples))
      × (denominators (means_of (group_by_round metric groups samples))
          ≡ denominators (means_of groups) + length samples)
unfolding group_by_round
group_by_round-conserved metric groups [] = (omega arith, omega arith)
group_by_round-conserved metric groups (s ∷ samples) =
    let rest = group_by_round-conserved metric (append_to s.round (metric s) groups) samples in
    let one = append_to-conserved s.round (metric s) groups in
    (omega (arith, rest.0, one.0), omega (arith, rest.1, one.1))

-- The numerators of the means of all rounds add up to the sum of the samples' values, and their
-- denominators to the number of samples.
pub round_means-conserved :
    (samples : List Sample) (metric : Sample → ℕ)
    → (numerators (round_means samples metric) ≡ sum (map metric samples))
      × (denominators (round_means samples metric) ≡ length samples)
unfolding round_means
round_means-conserved samples metric =
    let h = group_by_round-conserved metric [] samples in (omega (arith, h.0), omega (arith, h.1))

-- What the values of a list weigh together.
abbrev pub weigh : {A : Type 0} → (A → ℕ) → List A → ℕ
weigh f [] = 0
weigh f (x ∷ xs) = f x + weigh f xs

abbrev pub joined : {A : Type 0} → List (List A) → List A
joined [] = []
joined (run ∷ runs) = run ++ joined runs

module _ {A : Type 0} (f : A → ℕ) where
  weigh-append : (xs ys : List A) → weigh f (xs ++ ys) ≡ weigh f xs + weigh f ys
  weigh-append [] ys = omega arith
  weigh-append (x ∷ xs) ys = omega (arith, weigh-append xs ys)

  -- Every difference is in one of the two halves, once: whatever the values weigh, the halves weigh
  -- together what all differences do.
  pub half_means-conserved :
      (differences : List (List A))
      → let (first, second) = half_means (weigh f) (λ n. n) differences in
        first + second ≡ weigh f (joined differences)
  unfolding half_means first_halves second_halves
  half_means-conserved [] = omega arith
  half_means-conserved (run ∷ runs) =
      let n = length run / 2 in
      omega (
        arith,
        half_means-conserved runs,
        sym (weigh-append (take n run) (drop n run)) ∙ ap (weigh f) (take-append-drop n run),
        weigh-append (take n run) (first_halves runs),
        weigh-append (drop n run) (second_halves runs),
        weigh-append run (joined runs),
      )
