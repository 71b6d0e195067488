-- ===== src/LastWithdraw/Execute.antt =====
-- `executeLastWithdraw` of apps/api/src/wallet/emergency-last-withdraw.service.ts, from the checks
-- to the retirement of the wallet and of Share C.
use selfmade_mpc_wallet.Prelude.{
  ℕ, String, Bool, false, not, ◌&&◌, ◌||◌, Option, none, some, ◌==◌, truthy, is_some, if◌then◌else◌,
}
use selfmade_mpc_wallet.Errors.{
  Code, Error, Result, bad_request, conflict, not_found, plain, invalid_address, wallet_not_found,
  emergency_state_invalid, share_b_missing, transaction_pending, zero_token_balance,
  insufficient_gas, insufficient_gas_balance,
}
use selfmade_mpc_wallet.Exec.{Exec, pure, throw, throw_if, or_throw, catch, lift, ◌>>=◌, ◌>>◌}
use selfmade_mpc_wallet.Assets.{erc20}
use selfmade_mpc_wallet.EthTransfer.{prepare_erc20_full_balance_transfer}
use selfmade_mpc_wallet.MainDb.{
  WithdrawStatus, retiring, retired, Wallet, WithdrawRequest, WithdrawalAuditLog, AuditEvent,
  find_wallet, update_wallet, write_audit, emergency_withdraw_requested,
  emergency_withdraw_completed, wallet_retired,
}
use selfmade_mpc_wallet.Lifecycle.{is_recovery_pending, is_retiring, assert_wallet_not_retired}
use selfmade_mpc_wallet.NormalAb.{settle_open_normal_ab_or_throw}
use selfmade_mpc_wallet.EmergencyBc.{
  EmergencySettleOutcome, clear, rebroadcast, settle_open_emergency_bc_or_throw,
  find_latest_emergency_bc,
}
use selfmade_mpc_wallet.EmergencyRecovery.{
  owned_mpc_wallet, verify_emergency_otp, set_status, log_entry,
}
use selfmade_mpc_wallet.Server.{Server, on_db, db_transaction}
use selfmade_mpc_wallet.SignOrchestrator.Start.{or_blank}
use selfmade_mpc_wallet.RecoveryServer.{RecoveryServer}
use selfmade_mpc_wallet.RecoveryServer.Shares.{SafeShare}
use selfmade_mpc_wallet.RecoveryClient.{request_retire}
use selfmade_mpc_wallet.LastWithdraw.{
  World, LastEnv, on_api, on_recovery, get_configured_test_token_address, hand_over,
}
use selfmade_mpc_wallet.LastWithdraw.Assets.{
  LastRequest, TokenSweep, EthSweep, is_executed, is_broadcasted, is_passed_on, rethrow_mapped,
  sweep_token, sweep_eth,
}

abbrev pub bad_address : Result String → Exec World String
bad_address (Result.returned a) = pure a
bad_address (Result.threw e) = throw (bad_request invalid_address)

-- The state that a last withdrawal asks of the wallet, outside and inside the transaction.
unfoldable pub assert_withdrawable : Wallet → Exec Server Unit
assert_withdrawable wallet = do
  assert_wallet_not_retired wallet.status
  throw_if (not (is_recovery_pending wallet.status) && not (is_retiring wallet.status))
      (bad_request emergency_state_invalid)
  throw_if (not (truthy wallet.encrypted_share_b)) (bad_request share_b_missing)

abbrev pub is_settled_token : Option WithdrawRequest → Bool
is_settled_token none = false
is_settled_token (some row) = is_broadcasted row.status || is_executed row.status

-- Which of the four texts the answer carries.
pub data LastWithdrawMessage : Type 0 where
  token_and_eth token_only eth_only nothing_left : LastWithdrawMessage

unfoldable pub last_withdraw_message : Option String → Option String → LastWithdrawMessage
last_withdraw_message eth_tx_hash token_tx_hash =
    if truthy eth_tx_hash && truthy token_tx_hash
    then token_and_eth
    else if truthy token_tx_hash
    then token_only
    else if truthy eth_tx_hash
    then eth_only
    else nothing_left

abbrev pub retired_wallet : ℕ → Wallet → Wallet
retired_wallet now w = record w {
  status = retired;
  retired_at = some now;
  encrypted_share_b = none;
}

pub record LastWithdrawResult : Type 0 where
  pub wallet_id : String
  pub withdraw_id : String
  pub withdraw_amount : ℕ
  pub withdraw_to : String
  pub withdraw_status : WithdrawStatus
  pub withdraw_tx_hash : Option String
  pub token_withdraw : Option TokenSweep
  pub message : LastWithdrawMessage

abbrev token_part : TokenSweep → Option TokenSweep
token_part t = if truthy t.tx_hash then some t else none

-- `withdraw.id || undefined`
abbrev id_or_none : String → Option String
id_or_none id = if id == "" then none else some id

abbrev pub withdraw_log : String → String → String → AuditEvent → WithdrawalAuditLog
withdraw_log wallet_id user_id request_id event = record {
  wallet_id = wallet_id;
  user_id = user_id;
  withdraw_request_id = id_or_none request_id;
  event_type = event;
}

abbrev pub share_kept : {A : Type 0} → Error → Exec RecoveryServer (Option A)
share_kept e = pure none

-- The end of the transaction.
abbrev pub retiring_or_mark :
    String → Wallet → EmergencySettleOutcome → Exec Server EmergencySettleOutcome
retiring_or_mark wallet_id locked outcome =
    if is_retiring locked.status
    then pure outcome
    else (on_db (update_wallet wallet_id (set_status retiring)) >> pure outcome)

module _ (env : LastEnv) (now : ℕ) (q : LastRequest) where
  unfoldable pub sweep_unready : Error → Exec World Unit
  unfolding rethrow_mapped
  sweep_unready (plain zero_token_balance) = pure tt
  sweep_unready e = rethrow_mapped e

  -- `assertTokenSweepHasGas`: the prepared transfer is dropped.
  unfoldable pub assert_token_sweep_has_gas : Option String → String → String → Exec World Unit
  unfolding sweep_unready
  assert_token_sweep_has_gas none from to = pure tt
  assert_token_sweep_has_gas (some token) from to =
      catch (lift (prepare_erc20_full_balance_transfer env.provider from to token) >> pure tt)
        sweep_unready

  abbrev pub latest_token : Option String → String → Exec World (Option WithdrawRequest)
  latest_token none id = pure none
  latest_token (some token) id = on_api (on_db (find_latest_emergency_bc id erc20))

  -- The function that runs in the transaction.
  unfoldable pub enter_retiring : String → Exec Server EmergencySettleOutcome
  unfolding assert_withdrawable
  enter_retiring wallet_id = do
    found ← on_db (find_wallet wallet_id)
    locked ← or_throw found (not_found wallet_not_found)
    assert_withdrawable locked
    on_db (settle_open_normal_ab_or_throw env.get_receipt now wallet_id)
    outcome ← on_db (settle_open_emergency_bc_or_throw env.get_receipt now wallet_id)
    retiring_or_mark wallet_id locked outcome

  -- `rebroadcastSameRaw`: what the node answers is not looked at.
  abbrev pub stop_at_rebroadcast : EmergencySettleOutcome → Exec World Unit
  stop_at_rebroadcast clear = pure tt
  stop_at_rebroadcast (rebroadcast x) =
      on_api (hand_over x.signed_raw) >> throw (conflict transaction_pending)

  -- The wallet and the destination, all checks passed.
  unfoldable pub checked_request : Exec World (Wallet × String)
  unfolding assert_withdrawable
  checked_request = do
    to ← bad_address (env.provider.get_address q.to_address)
    wallet ← on_api (owned_mpc_wallet q.user_id q.wallet_id)
    on_api (assert_withdrawable wallet)
    from ← lift (env.provider.get_address wallet.address)
    throw_if (from == to) (bad_request invalid_address)
    on_api (verify_emergency_otp env.totp now q.user_id wallet.id q.otp)
    pure (wallet, to)

  -- The wallet row first, then Share C, whose failure is only logged.
  unfoldable pub retire_all : Wallet → EthSweep → TokenSweep → Exec World LastWithdrawResult
  unfolding last_withdraw_message
  retire_all wallet eth_sweep token_sweep = do
    on_api (on_db (update_wallet wallet.id (retired_wallet now)))
    on_recovery (
        catch (request_retire env.relay.recovery now wallet.id >>= λ dto. pure (some dto))
          (share_kept {A = SafeShare}))
    on_api (
        on_db (
          write_audit (withdraw_log wallet.id q.user_id eth_sweep.id emergency_withdraw_completed)))
    on_api (on_db (write_audit (withdraw_log wallet.id q.user_id eth_sweep.id wallet_retired)))
    pure (record {
      wallet_id = wallet.id;
      withdraw_id = eth_sweep.id;
      withdraw_amount = eth_sweep.amount;
      withdraw_to = eth_sweep.to_address;
      withdraw_status = eth_sweep.status;
      withdraw_tx_hash = eth_sweep.row_tx_hash;
      token_withdraw = token_part token_sweep;
      message = last_withdraw_message eth_sweep.tx_hash token_sweep.tx_hash;
    })

  unfoldable pub sweep_and_retire : Wallet → String → Option String → Exec World LastWithdrawResult
  unfolding retire_all
  sweep_and_retire wallet to token = do
    share_b ← lift (env.decrypt_share_b (or_blank wallet.encrypted_share_b))
    token_sweep ← sweep_token env now q wallet to share_b token
    eth_sweep ← sweep_eth env now q wallet to share_b token_sweep.tx_hash
    retire_all wallet eth_sweep token_sweep

  -- The catch around it.
  unfoldable pub last_withdraw_failed : Wallet → Error → Exec World LastWithdrawResult
  last_withdraw_failed wallet (plain insufficient_gas_balance) =
      throw (bad_request insufficient_gas)
  last_withdraw_failed wallet e = if is_passed_on e then throw e else (do
    on_api
        (on_db (write_audit (log_entry wallet.id q.user_id AuditEvent.emergency_withdraw_failed)))
    throw (bad_request Code.emergency_withdraw_failed))

  unfoldable pub execute_last_withdraw : Exec World LastWithdrawResult
  unfolding checked_request assert_token_sweep_has_gas enter_retiring sweep_and_retire
      last_withdraw_failed
  execute_last_withdraw = do
    checked ← checked_request
    let wallet = checked.0
    let token = get_configured_test_token_address env.provider env.token_setting
    existing ← latest_token token wallet.id
    (if is_some token && not (is_settled_token existing)
        then assert_token_sweep_has_gas token wallet.address checked.1
        else pure tt)
    pending ← on_api (db_transaction (enter_retiring wallet.id))
    stop_at_rebroadcast pending
    on_api (on_db (write_audit (log_entry wallet.id q.user_id emergency_withdraw_requested)))
    catch (sweep_and_retire wallet checked.1 token) (last_withdraw_failed wallet)
