-- ===== src/LastWithdraw/Sweep.antt =====
-- `signPersistBroadcastWait` of apps/api/src/wallet/emergency-last-withdraw.service.ts: one asset is
-- signed, recorded, and only then broadcast.
use selfmade_mpc_wallet.Prelude.{ℕ, String, Bool, true, false, Option, none, some, if◌then◌else◌}
use selfmade_mpc_wallet.Errors.{Error, conflict, transaction_pending}
use selfmade_mpc_wallet.Exec.{Exec, pure, throw, catch, lift, ◌>>=◌, ◌>>◌}
use selfmade_mpc_wallet.Json.{Json, Fields}
use selfmade_mpc_wallet.Assets.{WithdrawAsset}
use selfmade_mpc_wallet.SignSession.{UnsignedTxFields}
use selfmade_mpc_wallet.MpcCrypto.Routing.{Bytes}
use selfmade_mpc_wallet.MainDb.{
  WithdrawStatus, processing, broadcasted, executed, WithdrawRequest, find_request, create_request,
  update_request,
}
use selfmade_mpc_wallet.NormalAb.{mark_failed, mark_executed}
use selfmade_mpc_wallet.EmergencyBc.{
  EmergencySettleOutcome, clear, rebroadcast, settle_open_emergency_bc_or_throw,
  find_latest_emergency_bc,
}
use selfmade_mpc_wallet.Server.{Server, on_db, db_transaction}
use selfmade_mpc_wallet.SignOrchestrator.{is_processing}
use selfmade_mpc_wallet.SignOrchestrator.Start.{or_blank}
use selfmade_mpc_wallet.BcSignRelay.{sign_digest_bc_relay}
use selfmade_mpc_wallet.LastWithdraw.{
  World, LastEnv, on_api, on_recovery, tx_fields_for_storage, processing_meta, with_signed_raw,
  broadcast,
}

pub record SweepParams : Type 0 where
  pub share_b : Bytes
  pub wallet_id : String
  pub expected_address : String
  pub to_address : String
  pub tx : UnsignedTxFields
  pub amount : ℕ
  pub asset : WithdrawAsset
  pub metadata_extra : Fields
  pub new_row_id : String
  pub new_session_id : String

pub record SweepResult : Type 0 where
  pub id : String
  pub tx_hash : String
  pub status : WithdrawStatus

-- What the transaction finds or makes.
pub data SweepRow : Type 0 where
  executed_before : WithdrawRequest → SweepRow
  created : WithdrawRequest → SweepRow

abbrev pub refuse_rebroadcast : EmergencySettleOutcome → Exec Server Unit
refuse_rebroadcast clear = pure tt
refuse_rebroadcast (rebroadcast x) = throw (conflict transaction_pending)

abbrev pub new_sweep_row : ℕ → SweepParams → UnsignedTxFields → WithdrawRequest
new_sweep_row now q stored_tx = record {
  id = q.new_row_id;
  wallet_id = q.wallet_id;
  amount = q.amount;
  to_address = q.to_address;
  status = processing;
  created_at = now;
  tx_hash = none;
  failure_reason = none;
  processing_at = some now;
  broadcasted_at = none;
  confirmed_at = none;
  finalized_at = none;
  nonce = some stored_tx.nonce;
  idempotency_key = none;
  metadata = processing_meta q.asset stored_tx q.metadata_extra;
}

abbrev pub create_sweep_row : ℕ → SweepParams → UnsignedTxFields → Exec Server SweepRow
create_sweep_row now q stored_tx = do
  on_db (create_request (new_sweep_row now q stored_tx))
  pure (created (new_sweep_row now q stored_tx))

abbrev pub mark_sent : ℕ → String → Json → WithdrawRequest → WithdrawRequest
mark_sent now hash meta r = record r {
  status = broadcasted;
  tx_hash = some hash;
  broadcasted_at = some now;
  metadata = meta;
}

-- `err instanceof ConflictException`
abbrev pub is_conflict : Error → Bool
is_conflict (conflict c) = true
is_conflict _ = false

abbrev is_row_processing : Option WithdrawRequest → Bool
is_row_processing none = false
is_row_processing (some row) = is_processing row.status

abbrev nothing_done : Error → Exec Server Unit
nothing_done e = pure tt

module _ (env : LastEnv) (now : ℕ) (q : SweepParams) where
  -- By the newest row of the asset, after the settlement.
  abbrev pub by_latest :
      UnsignedTxFields → Option WithdrawRequest → WithdrawStatus → Exec Server SweepRow
  by_latest stored_tx (some row) executed = pure (executed_before row)
  by_latest stored_tx (some row) broadcasted = throw (conflict transaction_pending)
  by_latest stored_tx (some row) processing = throw (conflict transaction_pending)
  by_latest stored_tx _ _ = create_sweep_row now q stored_tx

  abbrev status_or_failed : Option WithdrawRequest → WithdrawStatus
  status_or_failed none = WithdrawStatus.failed
  status_or_failed (some row) = row.status

  -- The function that runs in the transaction.
  unfoldable pub open_sweep : UnsignedTxFields → Exec Server SweepRow
  open_sweep stored_tx = do
    open_rows ← on_db (settle_open_emergency_bc_or_throw env.get_receipt now q.wallet_id)
    refuse_rebroadcast open_rows
    existing ← on_db (find_latest_emergency_bc q.wallet_id q.asset)
    by_latest stored_tx existing (status_or_failed existing)

  -- After the broadcast.
  unfoldable pub await_executed : String → String → String → Exec World SweepResult
  await_executed id hash sent =
      catch
        (if env.wait_succeeds sent
          then (do
            on_api (on_db (update_request id (mark_executed now)))
            pure (record { id = id; tx_hash = hash; status = executed }))
          else throw (conflict transaction_pending))
        (λ _. throw (conflict transaction_pending))

  unfoldable pub send_sweep : String → Json → Exec World SweepResult
  unfolding await_executed
  send_sweep id meta = do
    signature ← on_recovery (
        sign_digest_bc_relay env.relay now q.new_session_id q.share_b (env.unsigned_digest q.tx)
          q.wallet_id q.expected_address)
    raw ← lift (env.serialize_signed q.tx signature)
    hash ← lift (env.signed_raw_tx_hash raw)
    on_api (on_db (update_request id (mark_sent now hash (with_signed_raw raw meta))))
    sent ← broadcast env raw
    await_executed id hash sent

  abbrev fail_if_processing : String → Error → Option WithdrawRequest → Exec Server Unit
  fail_if_processing id e again =
      if is_row_processing again
      then catch (on_db (update_request id (mark_failed (env.failure_text e)))) nothing_done
      else pure tt

  -- The catch around the sending.
  unfoldable pub sweep_failed : String → Error → Exec World SweepResult
  sweep_failed id e = if is_conflict e then throw e else (do
    again ← on_api (on_db (find_request id))
    on_api (fail_if_processing id e again)
    throw e)

  unfoldable pub send_or_done : SweepRow → Exec World SweepResult
  unfolding send_sweep sweep_failed
  send_or_done (executed_before row) =
      pure (record { id = row.id; tx_hash = or_blank row.tx_hash; status = executed })
  send_or_done (created row) = catch (send_sweep row.id row.metadata) (sweep_failed row.id)

  unfoldable pub sign_persist_broadcast_wait : Exec World SweepResult
  unfolding send_or_done open_sweep
  sign_persist_broadcast_wait = do
    stored_tx ← lift (tx_fields_for_storage q.tx)
    opened ← on_api (db_transaction (open_sweep stored_tx))
    send_or_done opened
