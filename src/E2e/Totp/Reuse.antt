-- ===== src/E2e/Totp/Reuse.antt =====
-- No code is used twice, across the calls of one runner.
use keycloak_oidc4ac_lab.Prelude.{
  ℕ, ◌+◌, ◌≤◌, ◌<◌, ◌≡◌, refl, Option, some, arith, nat_eq, if◌then◌else◌, Bool-cases, inl, inr,
  List, [], ◌∷◌, map, ap, ◌⊎◌, true,
}
use keycloak_oidc4ac_lab.Json.{ℤ, pos}
use keycloak_oidc4ac_lab.E2e.Totp.{Clock, wait, counter_at, must_wait, used_counter, current_totp}
use keycloak_oidc4ac_lab.Client.Totp.{totp_code}

-- The clock does not go back, and a sleep lasts at least as long as it was asked to.
pub record IsSound (c : Clock) : Type 0 where
  pub asked : c.now ≤ c.asleep
  pub slept : c.asleep + wait c.asleep ≤ c.woken

counter_mono : (s t : ℕ) → s ≤ t → counter_at s ≤ counter_at t
counter_mono s t h = omega arith

-- After the sleep the next interval has begun.
counter_after : (c : Clock) → IsSound c → counter_at c.now < counter_at c.woken
counter_after c h = let a = h.asked in let s = h.slept in omega arith

-- When a call made with this counter returns.
abbrev pub end_of : Option ℤ → Clock → ℕ
end_of last c = if must_wait last (counter_at c.now) then c.woken else c.now

used_counter-end : (last : Option ℤ) (c : Clock) → used_counter last c ≡ counter_at (end_of last c)
unfolding used_counter
used_counter-end last c = elim (Bool-cases (must_wait last (counter_at c.now))) [
  | inl waits ↦ rw (waits, used_counter) refl
  | inr goes ↦ rw (goes, used_counter) refl
]

-- A call that sleeps has a sound clock.
abbrev pub SleepsSoundly : Option ℤ → Clock → Type 0
SleepsSoundly last c = must_wait last (counter_at c.now) ≡ true → IsSound c

later_counter :
    (k : ℕ) (c : Clock)
    → SleepsSoundly (some (pos k)) c
    → k ≤ counter_at c.now
    → k < used_counter (some (pos k)) c
unfolding used_counter
later_counter k c h le = elim (Bool-cases (nat_eq (counter_at c.now) k)) [
  | inl same ↦ rw (same, used_counter) (omega (arith, counter_after c (h same)))
  | inr other ↦ rw (other, used_counter) (ground arith)
]

-- The codes that one call of `current_totp` after another returns, each with the counter that the
-- one before it left.
unfoldable pub asked_codes : List ℕ → Option ℤ → List Clock → List (List ℕ)
unfolding current_totp
asked_codes secret last [] = []
asked_codes secret last (c ∷ cs) =
    let (code, later) = current_totp secret last c in code ∷ asked_codes secret later cs

-- Each call starts after the one before it has returned.
abbrev pub InSequence : Option ℤ → List Clock → Type 0
InSequence last [] = Unit
InSequence last (c ∷ []) = SleepsSoundly last c
InSequence last (c ∷ d ∷ cs) =
    SleepsSoundly last c
    × (end_of last c ≤ d.now)
    × InSequence (some (pos (counter_at (end_of last c)))) (d ∷ cs)

-- Each number is less than the next one.
abbrev pub IsIncreasing : List ℕ → Type 0
IsIncreasing [] = Unit
IsIncreasing (x ∷ []) = Unit
IsIncreasing (x ∷ y ∷ ys) = (x < y) × IsIncreasing (y ∷ ys)

-- Each number is the interval in which its call began or woke.
abbrev pub AreIntervals : List Clock → List ℕ → Type 0
AreIntervals [] [] = Unit
AreIntervals (c ∷ cs) (k ∷ ks) =
    ((k ≡ counter_at c.now) ⊎ (k ≡ counter_at c.woken)) × AreIntervals cs ks
AreIntervals _ _ = ⊥

-- The counters of one call after another.
unfoldable counters : Option ℤ → List Clock → List ℕ
counters last [] = []
counters last (c ∷ cs) = used_counter last c ∷ counters (some (pos (used_counter last c))) cs

first-SleepsSoundly :
    (last : Option ℤ) (c : Clock) (cs : List Clock)
    → InSequence last (c ∷ cs)
    → SleepsSoundly last c
first-SleepsSoundly last c [] h = h
first-SleepsSoundly last c (d ∷ cs) h = h.0

counters-IsIncreasing :
    (last : Option ℤ) (cs : List Clock) → InSequence last cs → IsIncreasing (counters last cs)
unfolding counters
counters-IsIncreasing last [] h = tt
counters-IsIncreasing last (c ∷ []) h = tt
counters-IsIncreasing last (c ∷ d ∷ cs) h =
    let k = used_counter last c in
    let later : InSequence (some (pos k)) (d ∷ cs) = rw (used_counter-end last c) h.2 in
    (
      later_counter k d (first-SleepsSoundly (some (pos k)) d cs later)
          (rw (used_counter-end last c) (counter_mono (end_of last c) d.now h.1)),
      counters-IsIncreasing (some (pos k)) (d ∷ cs) later,
    )

counters-AreIntervals : (last : Option ℤ) (cs : List Clock) → AreIntervals cs (counters last cs)
unfolding counters used_counter
counters-AreIntervals last [] = tt
counters-AreIntervals last (c ∷ cs) = (
  elim (Bool-cases (must_wait last (counter_at c.now))) [
    | inl waits ↦ inr (rw (waits, used_counter) refl)
    | inr goes ↦ inl (rw (goes, used_counter) refl)
  ],
  counters-AreIntervals (some (pos (used_counter last c))) cs,
)

asked_codes-counters :
    (secret : List ℕ) (last : Option ℤ) (cs : List Clock)
    → asked_codes secret last cs ≡ map (totp_code secret) (counters last cs)
unfolding asked_codes counters current_totp
asked_codes-counters secret last [] = refl
asked_codes-counters secret last (c ∷ cs) =
    ap (λ codes. totp_code secret (used_counter last c) ∷ codes)
      (asked_codes-counters secret (some (pos (used_counter last c))) cs)

-- However many codes a runner asks `current_totp` for, one after another, whatever the counter was
-- before, with a clock that does not go back and sleeps that last: the codes are those of strictly
-- increasing intervals, so that no interval's code is used twice, and each interval is the one in
-- which its call began or woke.
pub counters_increase :
    (secret : List ℕ) (last : Option ℤ) (cs : List Clock)
    → InSequence last cs
    → (ks : List ℕ) × (asked_codes secret last cs ≡ map (totp_code secret) ks)
      × IsIncreasing ks
      × AreIntervals cs ks
counters_increase secret last cs h = (
  counters last cs,
  asked_codes-counters secret last cs,
  counters-IsIncreasing last cs h,
  counters-AreIntervals last cs,
)
