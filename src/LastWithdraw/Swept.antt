-- ===== src/LastWithdraw/Swept.antt =====
-- The sweeps of both assets in `executeLastWithdraw`
-- (apps/api/src/wallet/emergency-last-withdraw.service.ts) leave the wallet rows and Share C alone.
use selfmade_mpc_wallet.Prelude.{ℕ, String, refl, arith, Option, none, some, truthy}
use selfmade_mpc_wallet.Errors.{
  Error, plain, zero_balance, balance_below_fee, conflict, transaction_pending,
}
use selfmade_mpc_wallet.Exec.{throw_if, lift}
use selfmade_mpc_wallet.Exec.Frame.{Frame, bind-Frame, if-Frame, catch-Frame, throw_if-Frame}
use selfmade_mpc_wallet.Assets.{eth, erc20}
use selfmade_mpc_wallet.MpcCrypto.Routing.{Bytes}
use selfmade_mpc_wallet.EthTransfer.{
  prepare_full_balance_transfer, prepare_erc20_full_balance_transfer,
}
use selfmade_mpc_wallet.MainDb.{Wallet, WithdrawRequest, create_request}
use selfmade_mpc_wallet.EmergencyBc.{find_latest_emergency_bc}
use selfmade_mpc_wallet.Server.{on_db}
use selfmade_mpc_wallet.LastWithdraw.{LastEnv, on_api}
use selfmade_mpc_wallet.LastWithdraw.Sweep.{sign_persist_broadcast_wait}
use selfmade_mpc_wallet.LastWithdraw.Keeps.{
  keys, on_api-Frame, find_latest-Frame, create_request-Frame, sign_persist-Frame,
}
use selfmade_mpc_wallet.LastWithdraw.Assets.{
  LastRequest, is_broadcasted, executed_row, skipped_row, create_skipped_eth_row, token_failed,
  token_params, sweep_new_token, token_by_latest, sweep_token, eth_failed, eth_params,
  sweep_new_eth, eth_by_latest, sweep_eth,
}

module _ (env : LastEnv) (now : ℕ) (q : LastRequest) (wallet : Wallet) (to : String) where
  token_failed-Frame : (e : Error) → Frame keys (token_failed env now q wallet to e)
  unfolding token_failed
  token_failed-Frame e w = ground arith

  skipped-Frame :
      (hash : Option String) (skipped : String)
      → Frame keys (create_skipped_eth_row env now q wallet to hash skipped)
  unfolding create_skipped_eth_row
  skipped-Frame hash skipped =
      bind-Frame keys (on_api (on_db (create_request (skipped_row now q to hash skipped)))) _
        (on_api-Frame (on_db (create_request (skipped_row now q to hash skipped)))
          (λ s. create_request-Frame (skipped_row now q to hash skipped) s.db))
        λ _ _. refl

  eth_failed-Frame :
      (hash : Option String) (e : Error) → Frame keys (eth_failed env now q wallet to hash e)
  unfolding eth_failed
  eth_failed-Frame hash (plain zero_balance) w = skipped-Frame hash "ZERO_BALANCE" w
  eth_failed-Frame hash (plain balance_below_fee) w =
      if-Frame keys (truthy hash) _ _ (skipped-Frame hash "ETH_DUST") (λ _. refl) w
  eth_failed-Frame hash e w = refl

  new_token-Frame :
      (share_b : Bytes) (token : String)
      → Frame keys (sweep_new_token env now q wallet to share_b token)
  unfolding sweep_new_token
  new_token-Frame share_b token =
      bind-Frame keys
        (lift (prepare_erc20_full_balance_transfer env.provider wallet.address to token)) _
        (λ _. refl)
        λ prepared.
          bind-Frame keys
            (sign_persist_broadcast_wait env now
              (token_params env now q wallet to share_b token prepared.0 prepared.1))
            _
            (sign_persist-Frame env now
              (token_params env now q wallet to share_b token prepared.0 prepared.1))
            λ result.
              bind-Frame keys
                (throw_if (is_broadcasted result.status) (conflict transaction_pending)) _
                (throw_if-Frame keys (is_broadcasted result.status) (conflict transaction_pending))
                λ _ _. refl

  new_eth-Frame :
      (share_b : Bytes) (hash : Option String)
      → Frame keys (sweep_new_eth env now q wallet to share_b hash)
  unfolding sweep_new_eth
  new_eth-Frame share_b hash =
      bind-Frame keys (lift (prepare_full_balance_transfer env.provider wallet.address to)) _
        (λ _. refl)
        λ prepared.
          bind-Frame keys
            (sign_persist_broadcast_wait env now
              (eth_params env now q wallet to share_b hash prepared))
            _ (sign_persist-Frame env now (eth_params env now q wallet to share_b hash prepared))
            λ result.
              bind-Frame keys
                (throw_if (is_broadcasted result.status) (conflict transaction_pending)) _
                (throw_if-Frame keys (is_broadcasted result.status) (conflict transaction_pending))
                λ _ _. refl

  token_by-Frame :
      (share_b : Bytes) (token : String) (o : Option WithdrawRequest)
      → Frame keys (token_by_latest env now q wallet to share_b token o)
  unfolding token_by_latest
  token_by-Frame share_b token (some row) w = refl
  token_by-Frame share_b token none w =
      catch-Frame keys (sweep_new_token env now q wallet to share_b token)
        (token_failed env now q wallet to) (new_token-Frame share_b token) token_failed-Frame w

  eth_by-Frame :
      (share_b : Bytes) (hash : Option String) (o : Option WithdrawRequest)
      → Frame keys (eth_by_latest env now q wallet to share_b hash o)
  unfolding eth_by_latest
  eth_by-Frame share_b hash (some row) w = refl
  eth_by-Frame share_b hash none w =
      catch-Frame keys (sweep_new_eth env now q wallet to share_b hash)
        (eth_failed env now q wallet to hash) (new_eth-Frame share_b hash) (eth_failed-Frame hash) w

  pub sweep_token-Frame :
      (share_b : Bytes) (token : Option String)
      → Frame keys (sweep_token env now q wallet to share_b token)
  unfolding sweep_token
  sweep_token-Frame share_b none w = refl
  sweep_token-Frame share_b (some token) w =
      bind-Frame keys (on_api (on_db (find_latest_emergency_bc wallet.id erc20))) _
        (on_api-Frame (on_db (find_latest_emergency_bc wallet.id erc20))
          (find_latest-Frame wallet.id erc20))
        (λ row. token_by-Frame share_b token (executed_row row)) w

  pub sweep_eth-Frame :
      (share_b : Bytes) (hash : Option String)
      → Frame keys (sweep_eth env now q wallet to share_b hash)
  unfolding sweep_eth
  sweep_eth-Frame share_b hash =
      bind-Frame keys (on_api (on_db (find_latest_emergency_bc wallet.id eth))) _
        (on_api-Frame (on_db (find_latest_emergency_bc wallet.id eth))
          (find_latest-Frame wallet.id eth))
        λ row. eth_by-Frame share_b hash (executed_row row)
