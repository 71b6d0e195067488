-- ===== src/EmergencyRecovery/Lockout.antt =====
-- How many guesses at a one-time password are judged before the user is locked out
-- (verifyEmergencyOtp of apps/api/src/wallet/emergency-recovery.service.ts with
-- apps/api/src/wallet/otp-failure-tracker.ts).
use selfmade_mpc_wallet.Prelude.{
  ℕ, ◌+◌, ◌≤◌, ◌<◌, String, ◌≡◌, Bool, true, false, none, some, List, [], ◌∷◌, arith, count,
  count-append,
}
use selfmade_mpc_wallet.Prelude.Dict.{lookup, lookup-insert_self}
use selfmade_mpc_wallet.Errors.{returned}
use selfmade_mpc_wallet.MainDb.{AuditEvent, emergency_otp_failed, WithdrawalAuditLog}
use selfmade_mpc_wallet.Server.{Server}
use selfmade_mpc_wallet.OtpFailureTracker.{locked_until, count_of}
use selfmade_mpc_wallet.EmergencyRecovery.Gate.{time_or_zero}
use selfmade_mpc_wallet.EmergencyRecovery.{VerifyTotp, log_entry, verify_emergency_otp}

abbrev is_otp_failure : AuditEvent → Bool
is_otp_failure emergency_otp_failed = true
is_otp_failure _ = false

abbrev pub log_is_otp_failure : WithdrawalAuditLog → Bool
log_is_otp_failure log = is_otp_failure log.event_type

-- Every guess that is judged wrong writes one such entry.
abbrev pub judged_wrong : Server → ℕ
judged_wrong s = count log_is_otp_failure s.db.audit_logs

-- A guess and the time at which it is made.
pub record Guess : Type 0 where
  pub at : ℕ
  pub otp : String

-- The calls of one user, whatever they answer.
pub guess_all : VerifyTotp → String → String → List Guess → Server → Server
guess_all totp user_id wallet_id [] s = s
guess_all totp user_id wallet_id (g ∷ gs) s =
    guess_all totp user_id wallet_id gs (verify_emergency_otp totp g.at user_id wallet_id g.otp s).1

-- All guesses are wrong, and made in the time of one lockout from `from`.
abbrev pub AreWrong : VerifyTotp → String → ℕ → ℕ → List Guess → Type 0
AreWrong totp user_id from lock [] = Unit
AreWrong totp user_id from lock (g ∷ gs) =
    (from ≤ g.at)
    × (g.at < from + lock)
    × (totp user_id g.otp ≡ returned false)
    × AreWrong totp user_id from lock gs

module _ (totp : VerifyTotp) (user_id wallet_id : String) (from lock max before : ℕ) where
  -- What the tracker and the log say after some wrong guesses.
  record Budget (s : Server) : Type 0 where
    max_eq : s.otp_failures.max_failures ≡ max
    lock_eq : s.otp_failures.lock_ms ≡ lock
    logged : judged_wrong s ≤ before + count_of (lookup user_id s.otp_failures.failures)
    within : count_of (lookup user_id s.otp_failures.failures) ≤ max
    unlocked :
        count_of (lookup user_id s.otp_failures.failures) < max
        → locked_until (lookup user_id s.otp_failures.failures) ≡ none
    locked :
        max ≤ count_of (lookup user_id s.otp_failures.failures)
        → from + lock ≤ time_or_zero (locked_until (lookup user_id s.otp_failures.failures))

  verify-Budget :
      (g : Guess) (s : Server)
      → from ≤ g.at
      → g.at < from + lock
      → totp user_id g.otp ≡ returned false
      → Budget s
      → Budget (verify_emergency_otp totp g.at user_id wallet_id g.otp s).1
  unfolding verify_emergency_otp count
  verify-Budget g s h k w b =
      let n = count_of (lookup user_id s.otp_failures.failures) + 1 in
      ground (
        arith,
        lookup-insert_self user_id
            (record { count = n; locked_until_ms = some (g.at + s.otp_failures.lock_ms) })
            s.otp_failures.failures,
        lookup-insert_self user_id (record { count = n; locked_until_ms = none })
            s.otp_failures.failures,
        count-append log_is_otp_failure s.db.audit_logs
            (log_entry wallet_id user_id emergency_otp_failed ∷ []),
      )

  guess_all-Budget :
      (gs : List Guess) (s : Server)
      → AreWrong totp user_id from lock gs
      → Budget s
      → Budget (guess_all totp user_id wallet_id gs s)
  unfolding guess_all
  guess_all-Budget [] s w b = b
  guess_all-Budget (g ∷ gs) s (h, k, e, w) b =
      guess_all-Budget gs (verify_emergency_otp totp g.at user_id wallet_id g.otp s).1 w
        (verify-Budget g s h k e b)

-- From a user without recorded failures, wrong guesses made within the time of one lockout are
-- judged at most `max_failures` times, however many they are.
pub guesses_bounded :
    (totp : VerifyTotp) (user_id wallet_id : String) (from : ℕ) (gs : List Guess) (s : Server)
    → lookup user_id s.otp_failures.failures ≡ none
    → 0 < s.otp_failures.max_failures
    → AreWrong totp user_id from s.otp_failures.lock_ms gs
    → judged_wrong (guess_all totp user_id wallet_id gs s)
      ≤ judged_wrong s + s.otp_failures.max_failures
guesses_bounded totp user_id wallet_id from gs s fresh some_allowed wrong =
    let b =
      guess_all-Budget totp user_id wallet_id from s.otp_failures.lock_ms
        s.otp_failures.max_failures (judged_wrong s) gs s wrong (ground arith) in
    omega (arith, b.logged, b.within)
