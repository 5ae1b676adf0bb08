-- ===== src/E2e/Suite/Ready.antt =====
-- The loop of `wait_for_lab` in e2e/http/run.py ends.
use keycloak_oidc4ac_lab.Prelude.{ℕ, ◌+◌, String, ◌<>◌, ◌≡◌, arith}
use keycloak_oidc4ac_lab.Prelude.Action.{◌>>=◌}
use keycloak_oidc4ac_lab.E2e.Lab.{Network, Constants}
use keycloak_oidc4ac_lab.E2e.Polling.{poll}
use keycloak_oidc4ac_lab.E2e.Polling.Ends.{IsClock, Onward, poll_for_settles}
use keycloak_oidc4ac_lab.E2e.Suite.{probe, health, not_ready, wait_for_lab}

module _ {W : Type 0} (net : Network W) (constants : Constants) (time : W → ℕ)
    (clock : IsClock net time) where
  probe-Onward : (client : String) → Onward time (probe net constants client)
  unfolding probe health
  probe-Onward client w = let fetched = clock.fetches (client <> "/healthz") w in ground arith

  -- On a clock that never goes back and that `time.sleep` advances by what it is asked to, more rounds
  -- than `wait_for_lab` has change nothing, whatever the client answers: the loop ends by an answer
  -- that the client is ready, by an exception or by its deadline.
  pub wait_for_lab_ends :
      (extra : ℕ) (client : String) (w : W)
      → let timeout = constants.timeout in
        wait_for_lab net constants client w
        ≡ (net.monotonic >>= λ now.
              poll net
                (probe net constants client)
                (not_ready net constants)
                (timeout + 1 + extra)
                (now + timeout))
            w
  unfolding wait_for_lab
  wait_for_lab_ends extra client w =
      poll_for_settles net (probe net constants client) (not_ready net constants) time clock
        (probe-Onward client) constants.timeout extra w
