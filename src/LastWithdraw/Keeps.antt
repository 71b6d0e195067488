-- ===== src/LastWithdraw/Keeps.antt =====
-- What the sweeps of apps/api/src/wallet/emergency-last-withdraw.service.ts leave alone.
use selfmade_mpc_wallet.Prelude.{ℕ, String, refl, ap, arith, Option, none, some, List}
use selfmade_mpc_wallet.Errors.{Error}
use selfmade_mpc_wallet.Exec.{Exec}
use selfmade_mpc_wallet.Exec.Frame.{Frame, bind-Frame, catch-Frame, transaction-Frame}
use selfmade_mpc_wallet.Json.{Json}
use selfmade_mpc_wallet.MainDb.{
  WithdrawStatus, executed, broadcasted, processing, Wallet, WithdrawRequest, MainDb,
  update_request, create_request,
}
use selfmade_mpc_wallet.Server.{Server, on_db, db_transaction}
use selfmade_mpc_wallet.RecoveryServer.{RecoveryShare}
use selfmade_mpc_wallet.SignSession.{UnsignedTxFields}
use selfmade_mpc_wallet.Exec.{lift}
use selfmade_mpc_wallet.Assets.{WithdrawAsset}
use selfmade_mpc_wallet.BcSignRelay.{sign_digest_bc_relay}
use selfmade_mpc_wallet.BcSignRelay.Laws.{sign_digest_bc_relay-shares}
use selfmade_mpc_wallet.EmergencyBc.{
  EmergencySettleOutcome, clear, rebroadcast, find_latest_emergency_bc,
  settle_open_emergency_bc_or_throw,
}
use selfmade_mpc_wallet.EmergencyBc.Settled.{settle_emergency-OnlyCloses}
use selfmade_mpc_wallet.LastWithdraw.{
  World, LastEnv, on_api, on_recovery, broadcast, with_signed_raw, tx_fields_for_storage,
}
use selfmade_mpc_wallet.LastWithdraw.Sweep.{
  SweepParams, SweepRow, executed_before, created, create_sweep_row, by_latest, refuse_rebroadcast,
  mark_sent, send_or_done, send_sweep, await_executed, sweep_failed, open_sweep,
  sign_persist_broadcast_wait,
}

-- The wallet rows of the main server and the rows of Share C.
abbrev pub keys : World → List Wallet × List RecoveryShare
keys w = (w.api.db.wallets, w.recovery.shares)

abbrev wallets : Server → List Wallet
wallets s = s.db.wallets

abbrev db_wallets : MainDb → List Wallet
db_wallets db = db.wallets

pub on_api-Frame : {A : Type 0} (m : Exec Server A) → Frame wallets m → Frame keys (on_api m)
on_api-Frame m h w = ap (λ x. (x, w.recovery.shares)) (h w.api)

update_request-Frame :
    (id : String) (f : WithdrawRequest → WithdrawRequest) → Frame db_wallets (update_request id f)
update_request-Frame id f db = ground arith

api_update-Frame :
    (id : String) (f : WithdrawRequest → WithdrawRequest)
    → Frame keys (on_api (on_db (update_request id f)))
api_update-Frame id f =
    on_api-Frame (on_db (update_request id f)) (λ s. update_request-Frame id f s.db)

pub create_request-Frame : (row : WithdrawRequest) → Frame db_wallets (create_request row)
create_request-Frame row db = ground arith

pub find_latest-Frame :
    (id : String) (asset : WithdrawAsset)
    → Frame wallets (on_db (find_latest_emergency_bc id asset))
unfolding find_latest_emergency_bc
find_latest-Frame id asset s = refl

module _ (env : LastEnv) (now : ℕ) (q : SweepParams) where
  create_row-Frame :
      (stored_tx : UnsignedTxFields) → Frame wallets (create_sweep_row now q stored_tx)
  create_row-Frame stored_tx s = ground arith

  by_latest-Frame :
      (stored_tx : UnsignedTxFields) (o : Option WithdrawRequest) (st : WithdrawStatus)
      → Frame wallets (by_latest env now q stored_tx o st)
  by_latest-Frame stored_tx none st s = create_row-Frame stored_tx s
  by_latest-Frame stored_tx (some row) executed s = refl
  by_latest-Frame stored_tx (some row) broadcasted s = refl
  by_latest-Frame stored_tx (some row) processing s = refl
  by_latest-Frame stored_tx (some row) _ s = create_row-Frame stored_tx s

  refuse-Frame : (out : EmergencySettleOutcome) → Frame wallets (refuse_rebroadcast out)
  refuse-Frame clear s = refl
  refuse-Frame (rebroadcast x) s = refl

  open_sweep-Frame : (stored_tx : UnsignedTxFields) → Frame wallets (open_sweep env now q stored_tx)
  unfolding open_sweep
  open_sweep-Frame stored_tx =
      bind-Frame wallets (on_db (settle_open_emergency_bc_or_throw env.get_receipt now q.wallet_id))
        _ (λ s. (settle_emergency-OnlyCloses env.get_receipt now q.wallet_id s.db).wallets)
        λ out. bind-Frame wallets (refuse_rebroadcast out) _ (refuse-Frame out) λ _.
          bind-Frame wallets (on_db (find_latest_emergency_bc q.wallet_id q.asset)) _
            (find_latest-Frame q.wallet_id q.asset) λ o. by_latest-Frame stored_tx o _

  await-Frame : (id hash sent : String) → Frame keys (await_executed env now q id hash sent)
  unfolding await_executed
  await-Frame id hash sent w = ground arith

  failed-Frame : (id : String) (e : Error) → Frame keys (sweep_failed env now q id e)
  unfolding sweep_failed
  failed-Frame id e w = ground arith

  send_sweep-Frame : (id : String) (meta : Json) → Frame keys (send_sweep env now q id meta)
  unfolding send_sweep
  send_sweep-Frame id meta =
      bind-Frame keys
        (on_recovery (
          sign_digest_bc_relay env.relay now q.new_session_id q.share_b (env.unsigned_digest q.tx)
            q.wallet_id q.expected_address))
        _
        (λ w.
          ap (λ x. (w.api.db.wallets, x))
            (sign_digest_bc_relay-shares env.relay now q.new_session_id q.share_b
              (env.unsigned_digest q.tx) q.wallet_id q.expected_address w.recovery))
        λ signature.
          bind-Frame keys (lift (env.serialize_signed q.tx signature)) _ (λ _. refl)
            λ raw.
              bind-Frame keys (lift (env.signed_raw_tx_hash raw)) _ (λ _. refl)
                λ hash.
                  bind-Frame keys
                    (on_api
                      (on_db (update_request id (mark_sent now hash (with_signed_raw raw meta)))))
                    _ (api_update-Frame id (mark_sent now hash (with_signed_raw raw meta)))
                    λ _.
                      bind-Frame keys (broadcast env raw) _ (λ _. refl)
                        λ sent. await-Frame id hash sent

  sent-Frame : (row : SweepRow) → Frame keys (send_or_done env now q row)
  unfolding send_or_done
  sent-Frame (executed_before row) w = refl
  sent-Frame (created row) w =
      catch-Frame keys (send_sweep env now q row.id row.metadata) (sweep_failed env now q row.id)
        (send_sweep-Frame row.id row.metadata) (failed-Frame row.id) w

  pub sign_persist-Frame : Frame keys (sign_persist_broadcast_wait env now q)
  unfolding sign_persist_broadcast_wait
  sign_persist-Frame =
      bind-Frame keys (lift (tx_fields_for_storage q.tx)) _ (λ _. refl)
        λ stored_tx.
          bind-Frame keys (on_api (db_transaction (open_sweep env now q stored_tx))) _
            (on_api-Frame (db_transaction (open_sweep env now q stored_tx)) (
              transaction-Frame wallets (λ x. x.db) (λ d x. record x { db = d }) (λ _ _. refl)
                (open_sweep env now q stored_tx) (open_sweep-Frame stored_tx)))
            sent-Frame
