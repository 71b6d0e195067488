-- ===== src/LastWithdraw.antt =====
-- apps/api/src/wallet/emergency-last-withdraw.service.ts: the last, full withdrawal of a wallet in
-- emergency, signed by parties B and C, after which the wallet is retired. It works on both servers.
-- A handler is one step here: what other requests do while it waits is not modelled, and one reading
-- of the clock serves a call. New ids (of rows, and of the sessions that the Recovery Server draws) are arguments.
pub mod Sweep
pub mod Assets
pub mod Execute
pub mod OpenRow
pub mod Persist
pub mod Keeps
pub mod Swept
pub mod Retires
pub mod Checks
pub mod Retirement
pub mod Completes
use selfmade_mpc_wallet.Prelude.{
  ℕ, String, Bool, true, false, Option, none, some, List, [], ◌∷◌, ◌++◌, if◌then◌else◌, ◌==◌,
}
use selfmade_mpc_wallet.Errors.{Error, Result, returned, threw}
use selfmade_mpc_wallet.Chained
use selfmade_mpc_wallet.Exec.{Exec, modify, lift, zoom, ◌>>◌, transaction}
use selfmade_mpc_wallet.Json.{Json, Fields, end, field, text, number, object}
use selfmade_mpc_wallet.Assets.{WithdrawAsset, asset_name}
use selfmade_mpc_wallet.Chain.{GetReceipt}
use selfmade_mpc_wallet.EthTransfer.{Provider}
use selfmade_mpc_wallet.TxData.{normalize_tx_data}
use selfmade_mpc_wallet.Texts.{to_decimal, hex_text, trim_text}
use selfmade_mpc_wallet.SignSession.{UnsignedTxFields}
use selfmade_mpc_wallet.MpcCrypto.Routing.{Bytes}
use selfmade_mpc_wallet.MpcCrypto.Ethereum.{MpcEcdsaSignature}
use selfmade_mpc_wallet.EmergencyRecovery.{VerifyTotp}
use selfmade_mpc_wallet.Server.{Server}
use selfmade_mpc_wallet.RecoveryServer.{RecoveryServer}
use selfmade_mpc_wallet.BcSignRelay.{RelayEnv}

-- The two servers.
pub record World : Type 0 where
  pub api : Server
  pub recovery : RecoveryServer

abbrev pub on_api : {A : Type 0} → Exec Server A → Exec World A
on_api = zoom (λ w. w.api) (λ s w. record w { api = s })

abbrev pub on_recovery : {A : Type 0} → Exec RecoveryServer A → Exec World A
on_recovery = zoom (λ w. w.recovery) (λ s w. record w { recovery = s })

-- What the service calls outside the repository, and the configuration it reads.
pub record LastEnv : Type 0 where
  pub relay : RelayEnv
  pub provider : Provider
  pub get_receipt : GetReceipt
  pub totp : VerifyTotp
  -- SEPOLIA_TEST_TOKEN_ADDRESS
  pub token_setting : Option String
  pub decrypt_share_b : String → Result Bytes
  -- `unsignedTxDigest32`
  pub unsigned_digest : UnsignedTxFields → Bytes
  -- `serializeSignedTransfer` and `signedRawTxHash`
  pub serialize_signed : UnsignedTxFields → MpcEcdsaSignature → Result String
  pub signed_raw_tx_hash : String → Result String
  -- `provider.broadcastTransaction(raw)`: the hash, or a throw
  pub broadcast_transaction : String → Result String
  -- `response.wait(1)` for that hash comes back
  pub wait_succeeds : String → Bool
  -- `String(err.message || err).slice(0, 300)`
  pub failure_text : Error → String

abbrev address_or_none : Result String → Option String
address_or_none (returned a) = some a
address_or_none (threw e) = none

abbrev checked_address : Provider → String → Option String
checked_address p trimmed = if trimmed == "" then none else address_or_none (p.get_address trimmed)

-- `getConfiguredTestTokenAddress` of apps/api/src/common (erc20-balance.ts)
unfoldable pub get_configured_test_token_address : Provider → Option String → Option String
get_configured_test_token_address p none = none
get_configured_test_token_address p (some raw) = checked_address p (trim_text raw)

-- A transaction of this model always has a receiver and EIP-1559 fees.
unfoldable pub tx_fields_for_storage : UnsignedTxFields → Result UnsignedTxFields
tx_fields_for_storage tx =
    Chained.◌>>=◌ (normalize_tx_data (some tx.calldata))
      λ normal. returned (record tx { calldata = normal })

abbrev pub tx_json : UnsignedTxFields → Json
tx_json tx = object (
    field "to" (text tx.to) (
      field "value" (text (to_decimal tx.value)) (
        field "nonce" (number tx.nonce) (
          field "gasLimit" (text (to_decimal tx.gas_limit)) (
            field "maxFeePerGas" (text (to_decimal tx.max_fee_per_gas)) (
              field "maxPriorityFeePerGas" (text (to_decimal tx.max_priority_fee_per_gas)) (
                field "chainId" (text (to_decimal tx.chain_id))
                  (field "data" (text (hex_text tx.calldata)) end))))))))

-- `processingMeta`, with the fields that come after `tx`.
abbrev pub processing_meta : WithdrawAsset → UnsignedTxFields → Fields → Json
processing_meta asset stored_tx extra = object (
    field "mode" (text "EMERGENCY_BC_RELAY")
      (field "asset" (text (asset_name asset)) (field "tx" (tx_json stored_tx) extra)))

-- `{ ...processingMeta, signedRaw: raw }`
abbrev pub with_signed_raw : String → Json → Json
with_signed_raw raw (object (field mode m (field asset a fs))) =
    object (field mode m (field asset a (field "signedRaw" (text raw) fs)))
with_signed_raw raw j = j

-- The raw transaction is handed to the node, whatever the node answers.
abbrev pub hand_over : String → Exec Server Unit
hand_over raw = modify (λ s. record s { broadcasts = s.broadcasts ++ raw ∷ [] })

abbrev pub broadcast : LastEnv → String → Exec World String
broadcast env raw = on_api (hand_over raw >> lift (env.broadcast_transaction raw))
