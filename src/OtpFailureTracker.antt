-- ===== src/OtpFailureTracker.antt =====
-- apps/api/src/wallet/otp-failure-tracker.ts: failures and lockouts of the one-time password, by
-- user. The clock is an argument, as in the source.
use selfmade_mpc_wallet.Prelude.{
  ℕ, ◌+◌, ◌-◌, ◌/◌, String, Bool, true, false, Option, none, some, [], ltb, leb, eqb, if◌then◌else◌,
}
use selfmade_mpc_wallet.Prelude.Dict.{Dict, lookup, insert, erase}
use selfmade_mpc_wallet.Errors.{plain, otp_locked_for}
use selfmade_mpc_wallet.Exec.{Exec, pure, throw, gets, modify, ◌>>=◌, ◌>>◌}

pub record Failures : Type 0 where
  pub count : ℕ
  pub locked_until_ms : Option ℕ

pub record OtpFailureTracker : Type 0 where
  pub failures : Dict Failures
  pub max_failures : ℕ
  pub lock_ms : ℕ

pub record FailureReport : Type 0 where
  pub remaining_attempts : ℕ
  pub locked : Bool
  pub lock_seconds : Option ℕ

-- `new OtpFailureTracker()`
abbrev pub new_tracker : OtpFailureTracker
new_tracker = record { failures = []; max_failures = 5; lock_ms = 900000 }

-- Math.ceil(ms / 1000)
abbrev pub ceil_seconds : ℕ → ℕ
ceil_seconds ms = (ms + 999) / 1000

unfoldable pub clear : String → Exec OtpFailureTracker (Unit {0})
clear user_id = modify (λ t. record t { failures = erase user_id t.failures })

-- `state?.lockedUntilMs`, whose absence and whose 0 are both false
abbrev pub locked_until : Option Failures → Option ℕ
locked_until none = none
locked_until (some f) = elim f.locked_until_ms [
  | none ↦ none
  | some until ↦ if eqb until 0 then none else some until
]

abbrev pub check_lock : String → ℕ → Option ℕ → Exec OtpFailureTracker (Unit {0})
unfolding clear
check_lock user_id now none = pure tt
check_lock user_id now (some until) =
    if ltb now until
    then throw (plain (otp_locked_for (ceil_seconds (until - now))))
    else clear user_id

unfoldable pub assert_not_locked : String → ℕ → Exec OtpFailureTracker (Unit {0})
unfolding clear
assert_not_locked user_id now = do
  state ← gets (λ t. lookup user_id t.failures)
  check_lock user_id now (locked_until state)

-- `prev?.count ?? 0`
abbrev pub count_of : Option Failures → ℕ
count_of none = 0
count_of (some f) = f.count

abbrev store_failures : String → Failures → OtpFailureTracker → OtpFailureTracker
store_failures user_id f t = record t { failures = insert user_id f t.failures }

unfoldable pub record_failure : String → ℕ → Exec OtpFailureTracker FailureReport
record_failure user_id now = do
  prev ← gets (λ t. lookup user_id t.failures)
  max_failures ← gets (λ t. t.max_failures)
  lock_ms ← gets (λ t. t.lock_ms)
  let count = count_of prev + 1
  if leb max_failures count
      then (modify (
            store_failures user_id
              (record { count = count; locked_until_ms = some (now + lock_ms) }))
          >> pure (record {
            remaining_attempts = 0;
            locked = true;
            lock_seconds = some (ceil_seconds lock_ms);
          }))
      else (modify (store_failures user_id (record { count = count; locked_until_ms = none }))
          >> pure (record {
            remaining_attempts = max_failures - count;
            locked = false;
            lock_seconds = none;
          }))
