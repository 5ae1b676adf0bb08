-- ===== src/E2e/Polling/Ends.antt =====
-- A loop that asks a server once a second ends: the bound on its rounds in the model is never what
-- ends it.
use keycloak_oidc4ac_lab.Prelude.{
  Bool, ℕ, zero, suc, ◌+◌, ◌≤◌, String, Option, none, some, ◌≡◌, refl, sym, ◌∙◌, ap, ok, ok_inj,
  Result-cases, Bool-cases, inl, inr, ltb, true, false, arith, if◌then◌else◌,
}
use keycloak_oidc4ac_lab.Prelude.Action.{Action, ◌>>=◌, ◌>>◌}
use keycloak_oidc4ac_lab.E2e.Totp.{second}
use keycloak_oidc4ac_lab.E2e.Lab.{Network}
use keycloak_oidc4ac_lab.E2e.Polling.{or_again, one_round, poll, poll_for}

-- The monotonic clock of a network: it is read, it never goes back, and `time.sleep` advances it by
-- what it is asked to at least.
pub record IsClock {W : Type 0} (net : Network W) (time : W → ℕ) : Type 0 where
  pub reading : (w : W) → (net.monotonic w).0 ≡ ok (time w)
  pub reads : (w : W) → time w ≤ time (net.monotonic w).1
  pub fetches : (url : String) (w : W) → time w ≤ time (net.fetch url w).1
  pub sleeps : (duration : ℕ) (w : W) → time w + duration ≤ time (net.pause duration w).1

-- Two continuations of one action that agree where it leads.
bind_agree :
    {S A B : Type 0} (m : Action S A) (f g : A → Action S B) (s : S)
    → ((a : A) → (m s).0 ≡ ok a → f a (m s).1 ≡ g a (m s).1)
    → (m >>= f) s ≡ (m >>= g) s
bind_agree m f g s agree = elim (Result-cases (m s).0) [
  | inl (a, e) ↦ rw (e, ◌>>=◌) (agree a e)
  | inr (error, e) ↦ rw (e, ◌>>=◌) refl
]

module _ {W : Type 0} (time : W → ℕ) where
  -- The clock does not go back during an action.
  abbrev pub Onward : {A : Type 0} → Action W A → Type 0
  Onward m = (w : W) → time w ≤ time (m w).1

  pub bind-Onward :
      {A B : Type 0} (m : Action W A) (f : A → Action W B)
      → Onward m
      → ((a : A) → Onward (f a))
      → Onward (m >>= f)
  bind-Onward m f h k w = elim (Result-cases (m w).0) [
    | inl (a, e) ↦ let first = h w in let rest = k a (m w).1 in rw (e, ◌>>=◌) (omega arith)
    | inr (error, e) ↦ rw (e, ◌>>=◌) (h w)
  ]

  pub if-Onward :
      {A : Type 0} (b : Bool) (m n : Action W A) → Onward m → Onward n → Onward (if b then m else n)
  if-Onward true m n h k = h
  if-Onward false m n h k = k

  pub stays : (w : W) → time w ≤ time w
  stays w = omega arith

module _ {W A : Type 0} (net : Network W) (attempt : Action W (Option A)) (late : Action W A)
    (time : W → ℕ) (clock : IsClock net time) (onward : Onward time attempt) where
  abbrev at_time : ℕ → Action W A → ℕ → Action W A
  at_time deadline again now = if ltb now deadline then one_round net attempt late again else late

  -- From a moment on, two continuations agree a second later.
  abbrev Agree : ℕ → Action W A → Action W A → Type 0
  Agree now again other = (w : W) → now + second ≤ time w → again w ≡ other w

  paused-Agree :
      (again other : Action W A) (found : Option A) (now : ℕ) (w : W)
      → now ≤ time w
      → Agree now again other
      → or_again (net.pause second >> again) found w ≡ or_again (net.pause second >> other) found w
  paused-Agree again other (some a) now w h agree = refl
  paused-Agree again other none now w h agree =
      bind_agree (net.pause second) (λ _. again) (λ _. other) w
        λ _ _. let slept = clock.sleeps second w in agree (net.pause second w).1 (omega arith)

  one_round-Agree :
      (again other : Action W A) (w : W)
      → Agree (time w) again other
      → one_round net attempt late again w ≡ one_round net attempt late other w
  unfolding one_round
  one_round-Agree again other w agree =
      bind_agree attempt (or_again (net.pause second >> again))
        (or_again (net.pause second >> other)) w
        λ found _. paused-Agree again other found (time w) (attempt w).1 (onward w) agree

  -- With as many rounds as microseconds that are left until the deadline, or more, it makes no
  -- difference how many more there are.
  poll_settles :
      (n m deadline : ℕ) (w : W)
      → n ≤ m
      → deadline ≤ time w + n
      → poll net attempt late (suc m) deadline w ≡ poll net attempt late (suc n) deadline w
  unfolding poll
  poll_settles zero m deadline w le h =
      bind_agree net.monotonic (at_time deadline (poll net attempt late m deadline))
        (at_time deadline (poll net attempt late zero deadline)) w
        λ now e.
          let read : now ≡ time w = ok_inj (sym e ∙ clock.reading w) in
          let over : ltb now deadline ≡ false = ground arith in rw over refl
  poll_settles (suc n) zero deadline w le h = absurd (omega arith)
  poll_settles (suc n) (suc m) deadline w le h =
      let more = poll net attempt late (suc m) deadline in
      let fewer = poll net attempt late (suc n) deadline in
      bind_agree net.monotonic (at_time deadline more) (at_time deadline fewer) w λ now e.
        elim (Bool-cases (ltb now deadline)) [
          | inr over ↦ rw over refl
          | inl early ↦
              let read = clock.reads w in
              rw early (
                one_round-Agree more fewer (net.monotonic w).1 λ later slept.
                  poll_settles n m deadline later (omega arith) (omega (arith, h, read, slept)))
        ]

  -- More rounds than `poll_for` has change nothing.
  pub poll_for_settles :
      (timeout extra : ℕ) (w : W)
      → poll_for net attempt late timeout w
        ≡ (net.monotonic >>= λ now. poll net attempt late (timeout + 1 + extra) (now + timeout)) w
  unfolding poll_for
  poll_for_settles timeout extra w =
      let polled : ℕ → ℕ → Action W A =
        λ rounds now. poll net attempt late rounds (now + timeout) in
      bind_agree net.monotonic (polled (timeout + 1)) (polled (timeout + 1 + extra)) w λ now e.
        let read : now ≡ time w = ok_inj (sym e ∙ clock.reading w) in
        let after = (net.monotonic w).1 in
        let reads = clock.reads w in
        let deadline = now + timeout in
        let settled =
          poll_settles timeout (timeout + extra) deadline after (omega arith)
            (omega (arith, read, reads)) in
        let less : timeout + 1 ≡ suc timeout = omega arith in
        let more : timeout + 1 + extra ≡ suc (timeout + extra) = omega arith in
        ap (λ n. polled n now after) less ∙ sym settled ∙ sym (ap (λ n. polled n now after) more)
