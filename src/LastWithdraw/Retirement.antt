-- ===== src/LastWithdraw/Retirement.antt =====
-- The last step of `executeLastWithdraw` (apps/api/src/wallet/emergency-last-withdraw.service.ts): the
-- wallet and Share C are retired.
use selfmade_mpc_wallet.Prelude.{
  ℕ, String, ◌≡◌, refl, ap, ◌∙◌, arith, true, Option, some, ◌==◌, map_option, if◌then◌else◌,
}
use selfmade_mpc_wallet.Exec.{Exec, catch, ◌>>=◌, pure}
use selfmade_mpc_wallet.Exec.Post.{Post, returns, Post-of_parts, zoom-Post, after-Post}
use selfmade_mpc_wallet.MainDb.{Wallet, update_wallet}
use selfmade_mpc_wallet.Server.{on_db}
use selfmade_mpc_wallet.Server.Laws.{wallet_at, update_wallet-Post, WalletUpdated}
use selfmade_mpc_wallet.RecoveryServer.{RecoveryServer}
use selfmade_mpc_wallet.RecoveryServer.Shares.{SafeShare, retire_share}
use selfmade_mpc_wallet.RecoveryServer.History.{retire}
use selfmade_mpc_wallet.RecoveryClient.{
  Delivery, unserved, unanswered, garbled, answered, is_served, request,
}
use selfmade_mpc_wallet.LastWithdraw.{World, LastEnv}
use selfmade_mpc_wallet.LastWithdraw.Assets.{LastRequest, TokenSweep, EthSweep}
use selfmade_mpc_wallet.LastWithdraw.Execute.{retired_wallet, share_kept, retire_all}
use selfmade_mpc_wallet.LastWithdraw.Keeps.{keys}

abbrev pub share_c_call : ℕ → String → Delivery → Exec RecoveryServer (Option SafeShare)
share_c_call now id d =
    catch (request d (retire_share now id) >>= λ dto. pure (some dto)) (share_kept {A = SafeShare})

-- The call that retires Share C throws nothing.
pub retire_request-Post :
    (now : ℕ) (id : String) (d : Delivery) (s : RecoveryServer)
    → Post
        (λ _ s'. is_served d ≡ true → s' ≡ (retire_share now id s).1)
        (λ _ _. ⊥)
        (share_c_call now id d s)
retire_request-Post now id unserved s = returns (λ h. absurd (cc))
retire_request-Post now id unanswered s = returns (λ h. refl)
retire_request-Post now id garbled s = returns (λ h. refl)
retire_request-Post now id answered s =
    Post-of_parts (share_c_call now id answered s) (λ _ e h. ground arith)
      (λ _ e. absurd (ground arith))

module _ (env : LastEnv) (now : ℕ) (q : LastRequest) where
  pub record RetiredIn (wallet : Wallet) (w w' : World) : Type 0 where
    pub at :
        (j : String)
        → wallet_at j w'.api ≡ (
            if wallet.id == j
            then map_option (retired_wallet now) (wallet_at j w.api)
            else wallet_at j w.api)
    pub share_c :
        is_served (env.relay.recovery.delivery (retire wallet.id)) ≡ true
        → w'.recovery ≡ (retire_share now wallet.id w.recovery).1

  pub retire_all-Post :
      (wallet : Wallet) (e : EthSweep) (t : TokenSweep) (w : World)
      → Post
          (λ _ w'. RetiredIn wallet w w')
          (λ _ w'. keys w' ≡ keys w)
          (retire_all env now q wallet e t w)
  unfolding retire_all
  retire_all-Post wallet e t w =
      after-Post
        {Q = λ _ w1.
          WalletUpdated wallet.id (retired_wallet now) w.api w1.api × (w1.recovery ≡ w.recovery)}
        _
        (zoom-Post (λ x. x.api) (λ s x. record x { api = s })
          (on_db (update_wallet wallet.id (retired_wallet now))) w
          (update_wallet-Post wallet.id (retired_wallet now) w.api (λ _. refl))
          (λ _ s' k. (k, refl)) (λ _ s' k. ap (λ x. (x.db.wallets, w.recovery.shares)) k))
        λ _ w1 k.
          let d = env.relay.recovery.delivery (retire wallet.id) in
          after-Post
            {Q = λ _ w2.
              (w2.api ≡ w1.api)
              × (is_served d ≡ true → w2.recovery ≡ (retire_share now wallet.id w1.recovery).1)}
            _
            (zoom-Post (λ x. x.recovery) (λ s x. record x { recovery = s })
              (share_c_call now wallet.id d) w1 (retire_request-Post now wallet.id d w1.recovery)
              (λ _ _ h. (refl, h)) (λ _ _ h. absurd h))
            λ _ w2 h. returns (record {
              at = λ j. ap (λ x. wallet_at j x) h.0 ∙ k.0.at j;
              share_c = λ t. h.1 t ∙ ap (λ x. (retire_share now wallet.id x).1) k.1;
            })
