-- ===== src/EmergencyRecovery/Gate.antt =====
-- What the one-time password gate lets through
-- (verifyEmergencyOtp of apps/api/src/wallet/emergency-recovery.service.ts).
use selfmade_mpc_wallet.Prelude.{ℕ, String, ◌≡◌, ◌≤◌, true, Option, none, some, arith}
use selfmade_mpc_wallet.Prelude.Dict.{lookup}
use selfmade_mpc_wallet.Errors.{returned}
use selfmade_mpc_wallet.Server.{Server}
use selfmade_mpc_wallet.OtpFailureTracker.{locked_until}
use selfmade_mpc_wallet.EmergencyRecovery.{VerifyTotp, is_six_digits, verify_emergency_otp}

abbrev pub time_or_zero : Option ℕ → ℕ
time_or_zero none = 0
time_or_zero (some t) = t

-- A password that passes has six digits and the approval of `TotpService.verify`; the
-- user is not locked out, and the database is as it was.
pub verify_emergency_otp-returned :
    (totp : VerifyTotp) (now : ℕ) (user_id wallet_id otp : String) (s : Server)
    → (verify_emergency_otp totp now user_id wallet_id otp s).0 ≡ returned tt
    → (is_six_digits otp ≡ true)
      × (totp user_id otp ≡ returned true)
      × (time_or_zero (locked_until (lookup user_id s.otp_failures.failures)) ≤ now)
      × ((verify_emergency_otp totp now user_id wallet_id otp s).1.db ≡ s.db)
unfolding verify_emergency_otp
verify_emergency_otp-returned totp now user_id wallet_id otp s h = ground arith
