-- ===== src/LastWithdraw/Assets.antt =====
-- The two assets of `executeLastWithdraw` (apps/api/src/wallet/emergency-last-withdraw.service.ts):
-- the token first, then what is left of the wallet's ETH.
use selfmade_mpc_wallet.Prelude.{
  ℕ, String, Bool, true, false, Option, none, some, truthy, if◌then◌else◌,
}
use selfmade_mpc_wallet.Errors.{
  Error, conflict, bad_request, forbidden, not_found, plain, transaction_pending, insufficient_gas,
  insufficient_gas_balance, zero_balance, zero_token_balance, balance_below_fee,
}
use selfmade_mpc_wallet.Exec.{Exec, pure, throw, throw_if, catch, lift, ◌>>=◌, ◌>>◌}
use selfmade_mpc_wallet.Json.{Json, end, field, text, boolean, null, object}
use selfmade_mpc_wallet.Assets.{eth, erc20}
use selfmade_mpc_wallet.Texts.{to_decimal}
use selfmade_mpc_wallet.MpcCrypto.Routing.{Bytes}
use selfmade_mpc_wallet.EthTransfer.{
  PreparedTransfer, prepare_full_balance_transfer, prepare_erc20_full_balance_transfer,
}
use selfmade_mpc_wallet.MainDb.{
  WithdrawStatus, broadcasted, executed, WithdrawRequest, Wallet, create_request,
}
use selfmade_mpc_wallet.EmergencyBc.{find_latest_emergency_bc}
use selfmade_mpc_wallet.Server.{on_db}
use selfmade_mpc_wallet.LastWithdraw.{World, LastEnv, on_api}
use selfmade_mpc_wallet.LastWithdraw.Sweep.{SweepParams, sign_persist_broadcast_wait}

pub record LastRequest : Type 0 where
  pub user_id : String
  pub wallet_id : String
  pub to_address : String
  pub otp : String
  pub token_row_id : String
  pub token_session_id : String
  pub eth_row_id : String
  pub eth_session_id : String
  pub skipped_row_id : String

abbrev pub is_executed : WithdrawStatus → Bool
is_executed executed = true
is_executed _ = false

abbrev pub is_broadcasted : WithdrawStatus → Bool
is_broadcasted broadcasted = true
is_broadcasted _ = false

-- `row?.status === 'EXECUTED'`
abbrev pub executed_row : Option WithdrawRequest → Option WithdrawRequest
executed_row none = none
executed_row (some row) = if is_executed row.status then some row else none

-- An exception of NestJS that is passed on as it is.
abbrev pub is_passed_on : Error → Bool
is_passed_on (bad_request c) = true
is_passed_on forbidden = true
is_passed_on (not_found c) = true
is_passed_on (conflict c) = true
is_passed_on _ = false

abbrev pub gas_mapped : Error → Error
gas_mapped (plain insufficient_gas_balance) = bad_request insufficient_gas
gas_mapped e = e

-- `rethrowMappedLastWithdrawError`
unfoldable pub rethrow_mapped : {A : Type 0} → Error → Exec World A
rethrow_mapped e = throw (gas_mapped e)

pub record TokenSweep : Type 0 where
  pub tx_hash : Option String
  pub amount : ℕ

abbrev no_token : TokenSweep
no_token = record { tx_hash = none; amount = 0 }

-- The row that stands for the ETH part, as far as it is read again.
pub record EthSweep : Type 0 where
  pub id : String
  pub amount : ℕ
  pub to_address : String
  pub status : WithdrawStatus
  pub row_tx_hash : Option String
  -- `txHash`
  pub tx_hash : Option String

abbrev pub text_or_null : Option String → Json
text_or_null none = null
text_or_null (some t) = text t

abbrev pub skipped_row : ℕ → LastRequest → String → Option String → String → WithdrawRequest
skipped_row now q to token_tx_hash skipped = record {
  id = q.skipped_row_id;
  wallet_id = q.wallet_id;
  amount = 0;
  to_address = to;
  status = executed;
  created_at = now;
  tx_hash = none;
  failure_reason = none;
  processing_at = none;
  broadcasted_at = none;
  confirmed_at = none;
  finalized_at = some now;
  nonce = none;
  idempotency_key = none;
  metadata = object (
      field "mode" (text "EMERGENCY_BC_RELAY") (
        field "asset" (text "ETH") (
          field "zeroBalance" (boolean true) (
            field "skipped" (text skipped)
              (field "tokenTxHash" (text_or_null token_tx_hash) end)))));
}

abbrev pub eth_of_row : WithdrawRequest → EthSweep
eth_of_row row = record {
  id = row.id;
  amount = row.amount;
  to_address = row.to_address;
  status = row.status;
  row_tx_hash = row.tx_hash;
  tx_hash = row.tx_hash;
}

module _ (env : LastEnv) (now : ℕ) (q : LastRequest) (wallet : Wallet) (to : String) where
  -- `createSkippedEthRow`
  unfoldable pub create_skipped_eth_row : Option String → String → Exec World EthSweep
  create_skipped_eth_row token_tx_hash skipped = do
    on_api (on_db (create_request (skipped_row now q to token_tx_hash skipped)))
    pure (eth_of_row (skipped_row now q to token_tx_hash skipped))

  unfoldable pub token_failed : Error → Exec World TokenSweep
  unfolding rethrow_mapped
  token_failed (plain zero_token_balance) = pure no_token
  token_failed e = rethrow_mapped e

  unfoldable pub token_params : Bytes → String → PreparedTransfer → ℕ → SweepParams
  token_params share_b token prepared token_amount = record {
    share_b = share_b;
    wallet_id = wallet.id;
    expected_address = wallet.address;
    to_address = to;
    tx = prepared.tx;
    amount = token_amount;
    asset = erc20;
    metadata_extra = field "tokenAddress" (text token) (
        field "tokenAmount" (text (to_decimal token_amount)) (
          field "feeWei" (text (to_decimal prepared.fee_wei))
            (field "balanceWei" (text (to_decimal prepared.balance_wei)) end)));
    new_row_id = q.token_row_id;
    new_session_id = q.token_session_id;
  }

  unfoldable pub sweep_new_token : Bytes → String → Exec World TokenSweep
  unfolding token_params
  sweep_new_token share_b token = do
    prepared ← lift (prepare_erc20_full_balance_transfer env.provider wallet.address to token)
    result ← sign_persist_broadcast_wait env now (token_params share_b token prepared.0 prepared.1)
    throw_if (is_broadcasted result.status) (conflict transaction_pending)
    pure (record { tx_hash = some result.tx_hash; amount = prepared.1 })

  unfoldable pub token_by_latest : Bytes → String → Option WithdrawRequest → Exec World TokenSweep
  unfolding token_failed sweep_new_token
  token_by_latest share_b token (some row) =
      pure (record { tx_hash = row.tx_hash; amount = row.amount })
  token_by_latest share_b token none = catch (sweep_new_token share_b token) token_failed

  unfoldable pub sweep_token : Bytes → Option String → Exec World TokenSweep
  unfolding token_by_latest
  sweep_token share_b none = pure no_token
  sweep_token share_b (some token) = do
    row ← on_api (on_db (find_latest_emergency_bc wallet.id erc20))
    token_by_latest share_b token (executed_row row)

  -- The catch around the ETH part.
  unfoldable pub eth_failed : Option String → Error → Exec World EthSweep
  unfolding create_skipped_eth_row rethrow_mapped
  eth_failed token_tx_hash (plain zero_balance) =
      create_skipped_eth_row token_tx_hash "ZERO_BALANCE"
  eth_failed token_tx_hash (plain balance_below_fee) =
      if truthy token_tx_hash
      then create_skipped_eth_row token_tx_hash "ETH_DUST"
      else rethrow_mapped (plain balance_below_fee)
  eth_failed token_tx_hash e = rethrow_mapped e

  unfoldable pub eth_params : Bytes → Option String → PreparedTransfer → SweepParams
  eth_params share_b token_tx_hash prepared = record {
    share_b = share_b;
    wallet_id = wallet.id;
    expected_address = wallet.address;
    to_address = to;
    tx = prepared.tx;
    amount = prepared.value_wei;
    asset = eth;
    metadata_extra = field "feeWei" (text (to_decimal prepared.fee_wei)) (
        field "balanceWei" (text (to_decimal prepared.balance_wei))
          (field "tokenTxHash" (text_or_null token_tx_hash) end));
    new_row_id = q.eth_row_id;
    new_session_id = q.eth_session_id;
  }

  unfoldable pub sweep_new_eth : Bytes → Option String → Exec World EthSweep
  unfolding eth_params
  sweep_new_eth share_b token_tx_hash = do
    prepared ← lift (prepare_full_balance_transfer env.provider wallet.address to)
    result ← sign_persist_broadcast_wait env now (eth_params share_b token_tx_hash prepared)
    throw_if (is_broadcasted result.status) (conflict transaction_pending)
    pure (record {
      id = result.id;
      amount = prepared.value_wei;
      to_address = to;
      status = result.status;
      row_tx_hash = some result.tx_hash;
      tx_hash = some result.tx_hash;
    })

  unfoldable pub eth_by_latest :
      Bytes → Option String → Option WithdrawRequest → Exec World EthSweep
  unfolding eth_failed sweep_new_eth
  eth_by_latest share_b token_tx_hash (some row) = pure (eth_of_row row)
  eth_by_latest share_b token_tx_hash none =
      catch (sweep_new_eth share_b token_tx_hash) (eth_failed token_tx_hash)

  unfoldable pub sweep_eth : Bytes → Option String → Exec World EthSweep
  unfolding eth_by_latest
  sweep_eth share_b token_tx_hash = do
    row ← on_api (on_db (find_latest_emergency_bc wallet.id eth))
    eth_by_latest share_b token_tx_hash (executed_row row)
