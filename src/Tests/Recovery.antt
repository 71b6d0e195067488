-- ===== src/Tests/Recovery.antt =====
-- The emergency path.
use selfmade_mpc_wallet.Prelude.{◌+◌, ◌≤◌, ◌≡◌, refl, true, [], ◌∷◌, arith, count, ◌==◌}
use selfmade_mpc_wallet.Prelude.Dict.{lookup}
use selfmade_mpc_wallet.Errors.{returned}
use selfmade_mpc_wallet.Exec.Post.{Post}
use selfmade_mpc_wallet.OtpFailureTracker.{locked_until}
use selfmade_mpc_wallet.NormalAb.{is_normal_ab_metadata}
use selfmade_mpc_wallet.EmergencyRecovery.{
  VerifyTotp, is_six_digits, verify_emergency_otp, start_emergency_recovery,
  cancel_emergency_recovery,
}
use selfmade_mpc_wallet.EmergencyRecovery.Gate.{time_or_zero, verify_emergency_otp-returned}
use selfmade_mpc_wallet.EmergencyRecovery.Checks.{SameFunds, Unchanged}
use selfmade_mpc_wallet.EmergencyRecovery.Lockout.{Guess, guess_all, judged_wrong, guesses_bounded}
use selfmade_mpc_wallet.EmergencyRecovery.Start.{Started, start_emergency_recovery-Post}
use selfmade_mpc_wallet.EmergencyRecovery.Cancel.{Cancelled, cancel_emergency_recovery-Post}
use selfmade_mpc_wallet.Tests.Samples.{server, mined_well}

abbrev totp : VerifyTotp
totp user_id otp = returned (otp == "123456")

verify_emergency_otp-returned_example :
    (is_six_digits "123456" ≡ true)
    × (totp "alice" "123456" ≡ returned true)
    × (time_or_zero (locked_until (lookup "alice" server.otp_failures.failures)) ≤ 5)
    × ((verify_emergency_otp totp 5 "alice" "w1" "123456" server).1.db ≡ server.db)
unfolding verify_emergency_otp lookup
verify_emergency_otp-returned_example =
    verify_emergency_otp-returned totp 5 "alice" "w1" "123456" server refl

abbrev wrong : Guess
wrong = record { at = 5; otp = "000000" }

guesses_bounded_example :
    judged_wrong (guess_all totp "alice" "w1" (wrong ∷ wrong ∷ []) server)
    ≤ judged_wrong server + server.otp_failures.max_failures
unfolding lookup
guesses_bounded_example =
    guesses_bounded totp "alice" "w1" 5 (wrong ∷ wrong ∷ []) server refl (omega arith)
      (omega arith, omega arith, refl, (omega arith, omega arith, refl, tt))

start_emergency_recovery-Post_example :
    Post
      (Started "alice" "w1" (totp "alice" "123456" ≡ returned true) server)
      (λ _ s'. SameFunds server s')
      (start_emergency_recovery mined_well totp 5 "alice" "w1" "123456" server)
unfolding is_normal_ab_metadata count
start_emergency_recovery-Post_example =
    start_emergency_recovery-Post mined_well totp 5 "alice" "w1" "123456" server (ground arith)

cancel_emergency_recovery-Post_example :
    Post
      (Cancelled "alice" "w1" server)
      (Unchanged server)
      (cancel_emergency_recovery "alice" "w1" server)
cancel_emergency_recovery-Post_example = cancel_emergency_recovery-Post "alice" "w1" server
