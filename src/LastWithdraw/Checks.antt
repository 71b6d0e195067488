-- ===== src/LastWithdraw/Checks.antt =====
-- What the checks of `executeLastWithdraw` (apps/api/src/wallet/emergency-last-withdraw.service.ts)
-- let through.
use selfmade_mpc_wallet.Prelude.{ℕ, String, ◌≡◌, refl, ap, true, some, ◌==◌}
use selfmade_mpc_wallet.Errors.{Result, returned, threw, bad_request, invalid_address}
use selfmade_mpc_wallet.Exec.{Exec}
use selfmade_mpc_wallet.Exec.Post.{
  Post, returns, throws, zoom-Post, check-Post, lift-Post, after-Post, same-Post,
}
use selfmade_mpc_wallet.MainDb.{Wallet, mpc}
use selfmade_mpc_wallet.EmergencyRecovery.{owned_mpc_wallet, verify_emergency_otp}
use selfmade_mpc_wallet.EmergencyRecovery.Checks.{owned_mpc_wallet-Post, verify-Post}
use selfmade_mpc_wallet.Server.{Server}
use selfmade_mpc_wallet.Server.Laws.{wallet_at}
use selfmade_mpc_wallet.LastWithdraw.{World, LastEnv, on_api}
use selfmade_mpc_wallet.LastWithdraw.Assets.{LastRequest}
use selfmade_mpc_wallet.LastWithdraw.Execute.{bad_address, assert_withdrawable, checked_request}
use selfmade_mpc_wallet.LastWithdraw.Keeps.{keys}
use selfmade_mpc_wallet.LastWithdraw.Retires.{CanWithdraw, assert_withdrawable-Post}

-- `wallet` is the row that the checks let through.
pub record Checked (env : LastEnv) (q : LastRequest) (w : World) (wallet : Wallet) : Type 0 where
  pub found : wallet_at q.wallet_id w.api ≡ some wallet
  pub owner : wallet.user_id ≡ q.user_id
  pub is_mpc_wallet : wallet.wallet_type ≡ mpc
  pub can_withdraw : CanWithdraw wallet
  pub otp : env.totp q.user_id q.otp ≡ returned true

pub address-Post :
    (r : Result String) (w : World)
    → Post (λ _ w'. (w' ≡ w) × Unit {0}) (λ _ w'. w' ≡ w) (bad_address r w)
address-Post (returned a) w = returns (refl, tt)
address-Post (threw e) w = throws refl

-- A part on the main server that only looks.
pub same_api-Post :
    {A : Type 0} {P : A → Type 0} (m : Exec Server A) (w : World)
    → Post (λ a s'. (s' ≡ w.api) × P a) (λ _ s'. s' ≡ w.api) (m w.api)
    → Post (λ a w'. (w' ≡ w) × P a) (λ _ w'. w' ≡ w) (on_api m w)
same_api-Post m w h =
    zoom-Post (λ x. x.api) (λ s x. record x { api = s }) m w h
      (λ _ _ k. (ap (λ s. record w { api = s }) k.0, k.1))
      (λ _ _ k. ap (λ s. record w { api = s }) k)

module _ (env : LastEnv) (now : ℕ) (q : LastRequest) where
  pub checked_request-Post :
      (w : World)
      → Post
          (λ c w'. (keys w' ≡ keys w) × Checked env q w c.0)
          (λ _ w'. keys w' ≡ keys w)
          (checked_request env now q w)
  unfolding checked_request
  checked_request-Post w =
      same-Post _ (address-Post (env.provider.get_address q.to_address) w) (λ _. refl)
        λ to _.
          same-Post _
            (same_api-Post (owned_mpc_wallet q.user_id q.wallet_id) w
              (owned_mpc_wallet-Post q.user_id q.wallet_id w.api))
            (λ _. refl)
            λ wallet own.
              same-Post _
                (same_api-Post (assert_withdrawable wallet) w
                  (assert_withdrawable-Post wallet w.api))
                (λ _. refl)
                λ _ can.
                  lift-Post (env.provider.get_address wallet.address) _ w (λ _ _. refl)
                    λ from _.
                      check-Post (from == to) (bad_request invalid_address) _ w (λ _. refl)
                        λ _.
                          after-Post
                            {Q = λ _ w'.
                              (keys w' ≡ keys w) × (env.totp q.user_id q.otp ≡ returned true)}
                            _
                            (zoom-Post (λ x. x.api) (λ s x. record x { api = s })
                              (verify_emergency_otp env.totp now q.user_id wallet.id q.otp) w
                              (verify-Post env.totp now q.user_id wallet.id q.otp w.api)
                              (λ _ _ k. (ap (λ x. (x, w.recovery.shares)) k.1.wallets, k.0))
                              (λ _ _ k. ap (λ x. (x, w.recovery.shares)) k.wallets))
                            λ _ w' k. returns (
                              k.0,
                              record {
                                found = own.0;
                                owner = own.1;
                                is_mpc_wallet = own.2;
                                can_withdraw = can;
                                otp = k.1;
                              },
                            )
