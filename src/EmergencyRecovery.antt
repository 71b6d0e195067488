-- ===== src/EmergencyRecovery.antt =====
-- apps/api/src/wallet/emergency-recovery.service.ts: the one-time password gate of the emergency
-- path, and the moves ACTIVE → RECOVERY_PENDING → ACTIVE. One reading of the clock serves a call. `totp` is
-- `TotpService.verify` (true, false, or an exception); the node answers by `get_receipt`.
pub mod Gate
pub mod Lockout
pub mod Checks
pub mod Start
pub mod Cancel
use selfmade_mpc_wallet.Prelude.{
  ℕ, String, Bool, true, false, not, ◌&&◌, ◌||◌, Option, none, some, List, [], ◌∷◌, ◌==◌, leb, eqb,
  length, truthy, if◌then◌else◌,
}
use Prim.Native.Char.{code}
use selfmade_mpc_wallet.Errors.{
  Error, Result, returned, threw, bad_request, not_found, unauthorized, forbidden, record_not_found,
  plain, otp_locked_for, otp_format, otp_locked, otp_invalid, wallet_not_found,
  emergency_state_invalid, share_b_missing,
}
use selfmade_mpc_wallet.Exec.{Exec, pure, throw, throw_if, or_throw, lift, ◌>>=◌, ◌>>◌}
use selfmade_mpc_wallet.MainDb.{
  WalletStatus, active, recovery_pending, retiring, Wallet, MainDb, WithdrawalAuditLog, is_mpc,
  find_wallet, update_wallet, write_audit, AuditEvent, emergency_otp_failed,
  emergency_recovery_started, emergency_recovery_cancelled,
}
use selfmade_mpc_wallet.Lifecycle.{
  is_active, is_recovery_pending, is_retiring, assert_wallet_not_retired,
}
use selfmade_mpc_wallet.Chain.{GetReceipt}
use selfmade_mpc_wallet.NormalAb.{settle_open_normal_ab_or_throw}
use selfmade_mpc_wallet.OtpFailureTracker.{
  OtpFailureTracker, FailureReport, assert_not_locked, record_failure, clear,
}
use selfmade_mpc_wallet.Server.{Server, on_db, on_otp, db_transaction}

abbrev pub VerifyTotp : Type 0
VerifyTotp = String → String → Result Bool

abbrev digits : String → List Bool
digits String.[] = []
digits (String.◌∷◌ c s) = (leb 48 (code c) && leb (code c) 57) ∷ digits s

abbrev all_true : List Bool → Bool
all_true [] = true
all_true (b ∷ bs) = b && all_true bs

-- /^\d{6}$/.test(otp)
unfoldable pub is_six_digits : String → Bool
is_six_digits otp = eqb (length (digits otp)) 6 && all_true (digits otp)

-- The catch around `assertNotLocked`: the tracker's own error becomes a 401.
abbrev pub as_unauthorized : Error → Error
as_unauthorized (plain (otp_locked_for seconds)) = unauthorized otp_locked
as_unauthorized e = e

abbrev pub catch_locked : Result (Unit {0}) × Server → Result (Unit {0}) × Server
catch_locked (returned u, s) = (returned u, s)
catch_locked (threw e, s) = (threw (as_unauthorized e), s)

abbrev pub guard_not_locked : String → ℕ → Exec Server (Unit {0})
guard_not_locked user_id now s = catch_locked (on_otp (assert_not_locked user_id now) s)

abbrev pub log_entry : String → String → AuditEvent → WithdrawalAuditLog
log_entry wallet_id user_id event = record {
  wallet_id = wallet_id;
  user_id = user_id;
  withdraw_request_id = none;
  event_type = event;
}

abbrev pub refuse_otp : FailureReport → Exec Server (Unit {0})
refuse_otp report =
    if report.locked then throw (unauthorized otp_locked) else throw (unauthorized otp_invalid)

-- The answer of `totp.verify`.
abbrev pub judge_otp : String → String → ℕ → Bool → Exec Server (Unit {0})
judge_otp user_id wallet_id now true = on_otp (clear user_id)
judge_otp user_id wallet_id now false = do
  report ← on_otp (record_failure user_id now)
  on_db (write_audit (log_entry wallet_id user_id emergency_otp_failed))
  refuse_otp report

unfoldable pub verify_emergency_otp :
    VerifyTotp → ℕ → String → String → String → Exec Server (Unit {0})
unfolding is_six_digits assert_not_locked record_failure clear
verify_emergency_otp totp now user_id wallet_id otp = do
  throw_if (not (is_six_digits otp)) (bad_request otp_format)
  guard_not_locked user_id now
  ok ← lift (totp user_id otp)
  judge_otp user_id wallet_id now ok

-- The checks on the wallet row before the password is looked at.
unfoldable pub owned_mpc_wallet : String → String → Exec Server Wallet
owned_mpc_wallet user_id wallet_id = do
  found ← on_db (find_wallet wallet_id)
  wallet ← or_throw found (not_found wallet_not_found)
  throw_if (not (is_mpc wallet.wallet_type)) (not_found wallet_not_found)
  throw_if (not (wallet.user_id == user_id)) forbidden
  pure wallet

-- Both before and inside the transaction: not retired, not retiring, Share B present.
unfoldable pub assert_can_start : Wallet → Exec Server (Unit {0})
assert_can_start wallet = do
  assert_wallet_not_retired wallet.status
  throw_if (is_retiring wallet.status) (bad_request emergency_state_invalid)
  throw_if (not (truthy wallet.encrypted_share_b)) (bad_request share_b_missing)

abbrev pub set_status : WalletStatus → Wallet → Wallet
set_status status w = record w { status = status }

-- The end of the transaction: already RECOVERY_PENDING, ACTIVE, or refused.
unfoldable pub enter_recovery : Wallet → Exec Server Wallet
enter_recovery wallet = if is_recovery_pending wallet.status then pure wallet else do
  throw_if (not (is_active wallet.status)) (bad_request emergency_state_invalid)
  on_db (update_wallet wallet.id (set_status recovery_pending))
  pure (set_status recovery_pending wallet)

-- The function that runs in the transaction of `startEmergencyRecovery`.
unfoldable pub start_locked : GetReceipt → ℕ → String → Exec Server Wallet
start_locked get_receipt now wallet_id = do
  found ← on_db (find_wallet wallet_id)
  locked ← or_throw found (not_found wallet_not_found)
  assert_can_start locked
  on_db (settle_open_normal_ab_or_throw get_receipt now locked.id)
  enter_recovery locked

unfoldable pub start_emergency_recovery :
    GetReceipt → VerifyTotp → ℕ → String → String → String → Exec Server Wallet
start_emergency_recovery get_receipt totp now user_id wallet_id otp = do
  wallet ← owned_mpc_wallet user_id wallet_id
  assert_can_start wallet
  verify_emergency_otp totp now user_id wallet.id otp
  updated ← db_transaction (start_locked get_receipt now wallet.id)
  on_db (write_audit (log_entry wallet.id user_id emergency_recovery_started))
  pure updated

-- After the early return for an ACTIVE wallet.
unfoldable pub leave_recovery : String → Wallet → Exec Server Wallet
leave_recovery user_id wallet = do
  throw_if (is_retiring wallet.status) (bad_request emergency_state_invalid)
  throw_if (not (is_recovery_pending wallet.status)) (bad_request emergency_state_invalid)
  on_db (update_wallet wallet.id (set_status active))
  on_db (write_audit (log_entry wallet.id user_id emergency_recovery_cancelled))
  pure (set_status active wallet)

unfoldable pub cancel_emergency_recovery : String → String → Exec Server Wallet
cancel_emergency_recovery user_id wallet_id = do
  wallet ← owned_mpc_wallet user_id wallet_id
  assert_wallet_not_retired wallet.status
  if is_active wallet.status then pure wallet else leave_recovery user_id wallet
