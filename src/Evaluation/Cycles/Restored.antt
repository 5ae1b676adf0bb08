-- ===== src/Evaluation/Cycles/Restored.antt =====
-- The user of the runner after `login_cycle` of evaluation/benchmark/timing-benchmark.py.
use keycloak_oidc4ac_lab.Prelude.{arith, String, ◌≡◌}
use keycloak_oidc4ac_lab.E2e.Lab.{Network, Lab, Constants}
use keycloak_oidc4ac_lab.Evaluation.Slots.{Condition}
use keycloak_oidc4ac_lab.Evaluation.Cycles.{login_cycle}

module _ {W : Type 0} (net : Network W) (constants : Constants) where
  -- However a login cycle ends, with a result or with an exception, the runner's user is the
  -- usual one again.
  pub login_cycle_restores :
      (login_user alice : String × String) (c : Condition) (s : Lab W)
      → let after = (login_cycle net constants login_user alice c s).1.settings in
        (after.alice ≡ alice.0) × (after.password ≡ alice.1)
  unfolding login_cycle
  login_cycle_restores (user, user_password) (alice, password) c s = ground arith
