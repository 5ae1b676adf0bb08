-- ===== src/E2e/Polling.antt =====
-- The loops of e2e/http/run.py that ask a server once a second until a deadline.
pub mod Ends
use keycloak_oidc4ac_lab.Prelude.{ℕ, zero, suc, ◌+◌, Option, none, some, ltb, if◌then◌else◌}
use keycloak_oidc4ac_lab.Prelude.Action.{Action, pure, ◌>>=◌, ◌>>◌}
use keycloak_oidc4ac_lab.E2e.Totp.{second}
use keycloak_oidc4ac_lab.E2e.Lab.{Network}

-- A round returns what it has found, or goes on.
abbrev pub or_again : {W A : Type 0} → Action W A → Option A → Action W A
or_again again (some found) = pure found
or_again again none = again

module _ {W A : Type 0} (net : Network W) (attempt : Action W (Option A)) (late : Action W A) where
  -- A round of the loop, and what follows its pause.
  unfoldable pub one_round : Action W A → Action W A
  one_round again = attempt >>= or_again (net.pause second >> again)

  -- The loop up to the deadline; the fuel bounds the rounds, each of which sleeps a second.
  unfoldable pub poll : ℕ → ℕ → Action W A
  unfolding one_round
  poll zero deadline = late
  poll (suc rounds) deadline =
      let again = poll rounds deadline in
      net.monotonic >>= λ now. if ltb now deadline then one_round again else late

  -- The loop with a deadline that is a timeout from now.
  unfoldable pub poll_for : ℕ → Action W A
  unfolding poll
  poll_for timeout = net.monotonic >>= λ now. poll (timeout + 1) (now + timeout)
