-- ===== src/E2e/Totp.antt =====
-- `current_totp` of e2e/http/run.py and of e2e/browser/run.py, with the counter that they share
-- between calls.
pub mod Reuse
use keycloak_oidc4ac_lab.Prelude.{
  ℕ, ◌+◌, ◌-◌, ◌*◌, ◌/◌, ◌%◌, Bool, true, false, Option, none, some, List, nat_eq, if◌then◌else◌,
  ◌&&◌,
}
use keycloak_oidc4ac_lab.Json.{ℤ, pos, negsuc}
use keycloak_oidc4ac_lab.Client.Totp.{totp_code}

-- Times are whole microseconds; the interval of a code is 30 seconds.
abbrev pub second : ℕ
second = 1000000

abbrev pub interval : ℕ
interval = 30 * second

-- `int(time.time()) // 30`
abbrev pub counter_at : ℕ → ℕ
counter_at now = now / second / 30

-- `30 - (time.time() % 30) + 0.25`
abbrev pub wait : ℕ → ℕ
wait now = interval - now % interval + second / 4

-- `LAST_TOTP_COUNTER is None or counter == LAST_TOTP_COUNTER`; the benchmarks set it to -1.
abbrev pub must_wait : Option ℤ → ℕ → Bool
must_wait none counter = true
must_wait (some (pos last)) counter = nat_eq counter last
must_wait (some (negsuc n)) counter = false

-- A call's readings of the clock: at its start, and, if it sleeps, before and after.
pub record Clock : Type 0 where
  pub now : ℕ
  pub asleep : ℕ
  pub woken : ℕ

-- The counter whose code is returned. It becomes LAST_TOTP_COUNTER.
unfoldable pub used_counter : Option ℤ → Clock → ℕ
used_counter last clock =
    if must_wait last (counter_at clock.now) then counter_at clock.woken else counter_at clock.now

unfoldable pub current_totp : List ℕ → Option ℤ → Clock → List ℕ × Option ℤ
unfolding used_counter
current_totp secret last clock =
    let counter = used_counter last clock in (totp_code secret counter, some (pos counter))

-- e2e/browser/run.py: `avoid_reuse` says whether the shared counter is read and written.
unfoldable pub browser_counter : Bool → Option ℤ → Clock → ℕ
browser_counter avoid_reuse last clock =
    if avoid_reuse && must_wait last (counter_at clock.now)
    then counter_at clock.woken
    else counter_at clock.now

unfoldable pub browser_totp : List ℕ → Bool → ℕ → Option ℤ → Clock → List ℕ × Option ℤ
unfolding browser_counter
browser_totp secret avoid_reuse interval_offset last clock =
    let counter = browser_counter avoid_reuse last clock in
    (totp_code secret (counter + interval_offset), if avoid_reuse then some (pos counter) else last)
