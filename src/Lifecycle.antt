-- ===== src/Lifecycle.antt =====
-- apps/api/src/wallet/wallet-lifecycle.ts: which wallets are still in use.
use selfmade_mpc_wallet.Prelude.{Bool, true, false}
use selfmade_mpc_wallet.Errors.{bad_request, wallet_retired}
use selfmade_mpc_wallet.Exec.{Exec, throw_if}
use selfmade_mpc_wallet.MainDb.{WalletStatus, active, recovery_pending, retiring, retired}

abbrev pub is_active : WalletStatus → Bool
is_active active = true
is_active _ = false

abbrev pub is_recovery_pending : WalletStatus → Bool
is_recovery_pending recovery_pending = true
is_recovery_pending _ = false

abbrev pub is_retiring : WalletStatus → Bool
is_retiring retiring = true
is_retiring _ = false

abbrev pub is_retired_wallet_status : WalletStatus → Bool
is_retired_wallet_status retired = true
is_retired_wallet_status _ = false

-- `LIVE_WALLET_STATUSES.includes(status)`
abbrev pub is_live_wallet_status : WalletStatus → Bool
is_live_wallet_status active = true
is_live_wallet_status recovery_pending = true
is_live_wallet_status retiring = true
is_live_wallet_status retired = false

abbrev pub assert_wallet_not_retired : {S : Type 0} → WalletStatus → Exec S Unit
assert_wallet_not_retired status =
    throw_if (is_retired_wallet_status status) (bad_request wallet_retired)
