-- ===== src/SignOrchestrator/Begin.antt =====
-- The whole of `start` (apps/api/src/mpc/sign-orchestrator.service.ts), from the checks on the
-- request to the session.
use selfmade_mpc_wallet.Assets.{WithdrawAsset, eth, erc20}
use selfmade_mpc_wallet.Prelude.{ℕ, String, false, not, Option, none, some, ◌==◌, truthy}
use selfmade_mpc_wallet.Errors.{
  Error, Result, returned, threw, bad_request, plain, other, no_code, validation_failed,
  invalid_address, share_b_missing,
}
use selfmade_mpc_wallet.Exec.{Exec, pure, throw, throw_if, lift, ◌>>=◌, ◌>>◌}
use selfmade_mpc_wallet.MainDb.{
  Wallet, WithdrawRequest, WithdrawalAuditLog, processing, withdraw_requested, find_request_by_key,
  write_audit,
}
use selfmade_mpc_wallet.MpcCrypto.Routing.{WireMessage, encode_wire_message}
use selfmade_mpc_wallet.EthTransfer.{
  PreparedTransfer, prepare_amount_transfer, prepare_erc20_amount_transfer,
}
use selfmade_mpc_wallet.SignSession.{wait_msg1a}
use selfmade_mpc_wallet.Texts.{trim_text, to_decimal}
use selfmade_mpc_wallet.Server.{Server, on_db, db_transaction}
use selfmade_mpc_wallet.SignOrchestrator.{gc, set_session}
use selfmade_mpc_wallet.SignOrchestrator.Reuse.{
  metadata_json, StartResult, signing, reuse_or_conflict_existing,
}
use selfmade_mpc_wallet.SignOrchestrator.Start.{
  StartEnv, StartRequest, Opened, reuse, created, or_blank, scoped_idempotency_key,
  parse_withdraw_amount_to_wei, parse_withdraw_asset, gas_or_bad, require_active_mpc_wallet,
  open_locked,
}

-- `try { … } catch { throw e }` around a call outside the state.
abbrev pub or_else : {A : Type 0} → (Error → Error) → Result A → Exec Server A
or_else f (returned a) = pure a
or_else f (threw e) = throw (f e)

abbrev pub requested_log : String → WithdrawRequest → WithdrawalAuditLog
requested_log user_id row = record {
  wallet_id = row.wallet_id;
  user_id = user_id;
  withdraw_request_id = some row.id;
  event_type = withdraw_requested;
}

abbrev pub new_row :
    StartRequest
    → ℕ
    → Wallet
    → String
    → String
    → ℕ
    → WithdrawAsset
    → PreparedTransfer
    → String
    → WireMessage
    → WithdrawRequest
new_row q now wallet key to amount asset prepared digest_b64 msg1b = record {
  id = q.new_row_id;
  wallet_id = wallet.id;
  amount = amount;
  to_address = to;
  status = processing;
  created_at = now;
  tx_hash = none;
  failure_reason = none;
  processing_at = none;
  broadcasted_at = none;
  confirmed_at = none;
  finalized_at = none;
  nonce = none;
  idempotency_key = some key;
  metadata =
      metadata_json
        (record {
          session_id = q.new_session_id;
          fee_wei = to_decimal prepared.fee_wei;
          digest_b64 = digest_b64;
          from_address = wallet.address;
          asset = none;
        })
        msg1b asset;
}

module _ (e : StartEnv) (now : ℕ) (q : StartRequest) where
  unfoldable pub prepare : Wallet → String → ℕ → WithdrawAsset → Result PreparedTransfer
  prepare wallet to amount eth = prepare_amount_transfer e.provider wallet.address to amount
  prepare wallet to amount erc20 = elim e.test_token_address [
    | none ↦ threw (plain other)
    | some token ↦ prepare_erc20_amount_transfer e.provider wallet.address to amount token
  ]

  -- After the transaction: the session for a new row, or the reuse of the row that was there.
  unfoldable pub open_session_for :
      Wallet
      → String
      → ℕ
      → WithdrawAsset
      → PreparedTransfer
      → String
      → WireMessage
      → String
      → Opened
      → Exec Server StartResult
  open_session_for wallet to amount asset prepared digest_b64 msg1b state_b64 (reuse row) =
      reuse_or_conflict_existing e.provider.get_address q.user_id wallet.id row to amount asset
  open_session_for wallet to amount asset prepared digest_b64 msg1b state_b64 (created row) = do
    tx_to ← lift (e.provider.get_address prepared.tx.to)
    let tx = record prepared.tx { to = tx_to }
    set_session q.new_session_id (record {
      session_id = q.new_session_id;
      user_id = q.user_id;
      wallet_id = wallet.id;
      withdraw_request_id = row.id;
      state_b64 = state_b64;
      msg1b = msg1b;
      msg2b = none;
      msg3b = none;
      digest_b64 = digest_b64;
      tx = tx;
      address = wallet.address;
      step = wait_msg1a;
      created_at = now;
    })
    on_db (write_audit (requested_log q.user_id row))
    pure (
        signing (record {
          session_id = q.new_session_id;
          wallet_id = wallet.id;
          digest_b64 = digest_b64;
          msg1b = msg1b;
          amount_wei = amount;
          fee_wei = to_decimal prepared.fee_wei;
          to_address = to;
          from_address = wallet.address;
          tx = tx;
          reused = false;
        }))

  unfoldable pub start_new : Wallet → String → String → ℕ → WithdrawAsset → Exec Server StartResult
  unfolding prepare open_session_for
  start_new wallet key to amount asset = do
    prepared ← or_else gas_or_bad (prepare wallet to amount asset)
    let digest_b64 = e.env.base64.bytes_to_base64 (e.unsigned_digest prepared.tx)
    share ← lift (e.decrypt_share_b (or_blank wallet.encrypted_share_b))
    first ← lift (e.open_session share)
    let msg1b = encode_wire_message e.env.base64 first.0
    let row = new_row q now wallet key to amount asset prepared digest_b64 msg1b
    opened ← db_transaction (open_locked e.get_receipt now wallet.id key row)
    open_session_for wallet to amount asset prepared digest_b64 msg1b
        (e.env.base64.bytes_to_base64 first.1) opened

  unfoldable pub start_or_reuse :
      Wallet
      → String
      → String
      → ℕ
      → WithdrawAsset
      → Option WithdrawRequest
      → Exec Server StartResult
  unfolding start_new
  start_or_reuse wallet key to amount asset (some row) =
      reuse_or_conflict_existing e.provider.get_address q.user_id wallet.id row to amount asset
  start_or_reuse wallet key to amount asset none = start_new wallet key to amount asset

  unfoldable pub start : Exec Server StartResult
  unfolding start_or_reuse
  start = do
    gc now
    let raw_key = trim_text (or_blank q.idempotency_key)
    throw_if (raw_key == "") (bad_request validation_failed)
    to ← or_else (λ _. bad_request invalid_address) (e.provider.get_address q.to_address)
    amount ←
        or_else (λ _. bad_request no_code) (parse_withdraw_amount_to_wei e.parse_ether q.amount)
    asset ← or_else (λ _. bad_request no_code) (parse_withdraw_asset q.asset)
    wallet ← require_active_mpc_wallet q.user_id q.wallet_id
    throw_if (not (truthy wallet.encrypted_share_b)) (bad_request share_b_missing)
    own ← lift (e.provider.get_address wallet.address)
    throw_if (own == to) (bad_request invalid_address)
    let key = scoped_idempotency_key wallet.id raw_key
    existing ← on_db (find_request_by_key key)
    start_or_reuse wallet key to amount asset existing
