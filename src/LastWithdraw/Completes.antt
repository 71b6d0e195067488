-- ===== src/LastWithdraw/Completes.antt =====
-- What `executeLastWithdraw` (apps/api/src/wallet/emergency-last-withdraw.service.ts) leaves of the
-- wallet and of Share C, returned or thrown.
use selfmade_mpc_wallet.Prelude.{
  ℕ, String, ◌≡◌, refl, sym, ap, subst, ◌∙◌, inl, inr, arith, true, false, not, ◌&&◌, Option, none,
  some, List, find, update, is_some, ◌==◌, eq_refl, map_option, find-update, if◌then◌else◌,
}
use selfmade_mpc_wallet.Errors.{Error, returned}
use selfmade_mpc_wallet.Exec.{pure}
use selfmade_mpc_wallet.Exec.Post.{
  Post, Post-mono, Post-of_parts, zoom-Post, lift-Post, after-Post, catch-Post,
}
use selfmade_mpc_wallet.Exec.Frame.{Frame, Frame-Post, if-Frame}
use selfmade_mpc_wallet.MainDb.{
  Wallet, mpc, retiring, wallet_has_id, write_audit, emergency_withdraw_requested,
}
use selfmade_mpc_wallet.Assets.{erc20}
use selfmade_mpc_wallet.EmergencyBc.{
  EmergencySettleOutcome, clear, rebroadcast, find_latest_emergency_bc,
}
use selfmade_mpc_wallet.SignOrchestrator.Start.{or_blank}
use selfmade_mpc_wallet.LastWithdraw.Assets.{sweep_token, sweep_eth}
use selfmade_mpc_wallet.EmergencyRecovery.{set_status, log_entry}
use selfmade_mpc_wallet.EmergencyRecovery.Checks.{own_id}
use selfmade_mpc_wallet.Server.{on_db, db_transaction}
use selfmade_mpc_wallet.Server.Laws.{wallet_at}
use selfmade_mpc_wallet.RecoveryServer.{RecoveryShare, share_of}
use selfmade_mpc_wallet.RecoveryServer.Shares.{status_retired, retire_share}
use selfmade_mpc_wallet.RecoveryServer.History.{retire}
use selfmade_mpc_wallet.RecoveryServer.Retired.{retire_share-found}
use selfmade_mpc_wallet.RecoveryClient.{is_served}
use selfmade_mpc_wallet.LastWithdraw.{World, LastEnv, on_api, get_configured_test_token_address}
use selfmade_mpc_wallet.LastWithdraw.Assets.{LastRequest}
use selfmade_mpc_wallet.LastWithdraw.Execute.{
  latest_token, is_settled_token, stop_at_rebroadcast, assert_token_sweep_has_gas, enter_retiring,
  retired_wallet, sweep_and_retire, last_withdraw_failed, execute_last_withdraw,
}
use selfmade_mpc_wallet.LastWithdraw.Keeps.{keys, on_api-Frame, find_latest-Frame}
use selfmade_mpc_wallet.LastWithdraw.Swept.{sweep_token-Frame, sweep_eth-Frame}
use selfmade_mpc_wallet.LastWithdraw.Retires.{
  CanWithdraw, StillAlive, EnteredRetiring, enter_retiring-Entered,
}
use selfmade_mpc_wallet.LastWithdraw.Checks.{Checked, checked_request-Post}
use selfmade_mpc_wallet.LastWithdraw.Retirement.{RetiredIn, retire_all-Post}

-- The wallet is not retired by this call, and no Share C is touched.
pub record NotRetired (id : String) (w w' : World) : Type 0 where
  pub wallets : StillAlive id w.api.db.wallets w'.api.db.wallets
  pub shares : w'.recovery.shares ≡ w.recovery.shares

module _ (env : LastEnv) (now : ℕ) (q : LastRequest) where
  abbrev RetiredAfter : Wallet → World → World → Type 0
  RetiredAfter wallet w w' = (w1 : World) × (keys w1 ≡ keys w) × RetiredIn env now q wallet w1 w'

  sweep_and_retire-Post :
      (wallet : Wallet) (to : String) (token : Option String) (w : World)
      → Post
          (λ _ w'. RetiredAfter wallet w w')
          (λ _ w'. keys w' ≡ keys w)
          (sweep_and_retire env now q wallet to token w)
  unfolding sweep_and_retire
  sweep_and_retire-Post wallet to token w =
      lift-Post (env.decrypt_share_b (or_blank wallet.encrypted_share_b)) _ w (λ _ _. refl)
        λ share_b _.
          after-Post _
            (Frame-Post keys (sweep_token env now q wallet to share_b token) w
              (sweep_token-Frame env now q wallet to share_b token))
            λ t w1 k1.
              after-Post _
                (Post-mono
                  (Frame-Post keys (sweep_eth env now q wallet to share_b t.tx_hash) w1
                    (sweep_eth-Frame env now q wallet to share_b t.tx_hash))
                  (λ _ _ h. h) (λ _ _ h. h ∙ k1))
                λ e w2 k2.
                  Post-mono (retire_all-Post env now q wallet e t w2) (λ _ w3 h. (w2, k2 ∙ k1, h))
                    (λ _ _ h. h ∙ (k2 ∙ k1))

  failed-Post :
      (wallet : Wallet) (e : Error) (w : World)
      → Post
          (λ _ w'. RetiredAfter wallet w w')
          (λ _ w'. keys w' ≡ keys w)
          (last_withdraw_failed env now q wallet e w)
  unfolding last_withdraw_failed
  failed-Post wallet e w =
      Post-of_parts (last_withdraw_failed env now q wallet e w) (λ _ h. absurd (ground arith))
        (λ _ h. ground arith)

  latest_token-Frame :
      (token : Option String) (id : String) → Frame keys (latest_token env now q token id)
  latest_token-Frame none id = λ w. refl
  latest_token-Frame (some token) id =
      on_api-Frame (on_db (find_latest_emergency_bc id erc20)) (find_latest-Frame id erc20)

  gas-Frame :
      (token : Option String) (from to : String)
      → Frame keys (assert_token_sweep_has_gas env now q token from to)
  unfolding assert_token_sweep_has_gas
  gas-Frame none from to w = refl
  gas-Frame (some token) from to w = ground arith

  stop-Frame : (out : EmergencySettleOutcome) → Frame keys (stop_at_rebroadcast env now q out)
  stop-Frame clear w = refl
  stop-Frame (rebroadcast x) w = refl

still_other :
    (id j : String) (rows rows' : List Wallet)
    → StillAlive id rows rows'
    → (id == j) ≡ false
    → find (wallet_has_id j) rows' ≡ find (wallet_has_id j) rows
still_other id j rows rows' (inl h) n = ap (find (wallet_has_id j)) h
still_other id j rows rows' (inr h) n =
    ap (find (wallet_has_id j)) h
    ∙ find-update (λ y. y.id) (set_status retiring) (λ y. refl) id j rows
    ∙ rw n refl

some_injective : (a b : Wallet) → some a ≡ some b → a ≡ b
some_injective a b h = ground arith

-- What a call that returns has found and done.
pub record Completed (env : LastEnv) (now : ℕ) (q : LastRequest) (w w' : World) : Type 0 where
  pub wallet : Wallet
  pub found : wallet_at q.wallet_id w.api ≡ some wallet
  pub owner : wallet.user_id ≡ q.user_id
  pub is_mpc_wallet : wallet.wallet_type ≡ mpc
  pub can_withdraw : CanWithdraw wallet
  pub otp : env.totp q.user_id q.otp ≡ returned true
  pub stored : wallet_at q.wallet_id w'.api ≡ some (retired_wallet now wallet)
  pub others : (j : String) → (q.wallet_id == j) ≡ false → wallet_at j w'.api ≡ wallet_at j w.api
  pub share_c :
      is_served (env.relay.recovery.delivery (retire q.wallet_id)) ≡ true
      → (x : RecoveryShare) → find (share_of q.wallet_id) w.recovery.shares ≡ some x
      → (row : RecoveryShare) × (find (share_of q.wallet_id) w'.recovery.shares ≡ some row)
        × (row.status ≡ status_retired)

module _ (env : LastEnv) (now : ℕ) (q : LastRequest) (w w2 w3 w4 w5 : World) (wallet : Wallet)
    (c : Checked env q w wallet) (k2 : keys w2 ≡ keys w) (own : wallet.id ≡ q.wallet_id) where
  completed :
      (out : EmergencySettleOutcome)
      → EnteredRetiring q.wallet_id w2.api out w3.api
      → w3.recovery ≡ w2.recovery
      → keys w4 ≡ keys w3
      → RetiredIn env now q wallet w4 w5
      → Completed env now q w w5
  completed out e r k4 h =
      let id = q.wallet_id in
      let rows2 = ap (λ x. x.0) k2 in
      let rows4 = ap (λ x. x.0) k4 in
      let same =
        some_injective e.before wallet
          (sym e.found ∙ ap (find (wallet_has_id id)) rows2 ∙ c.found) in
      let shares4 = ap (λ x. x.1) k4 ∙ ap (λ x. x.shares) r ∙ ap (λ x. x.1) k2 in
      record {
        wallet = wallet;
        found = c.found;
        owner = c.owner;
        is_mpc_wallet = c.is_mpc_wallet;
        can_withdraw = c.can_withdraw;
        otp = c.otp;
        stored =
            h.at id
            ∙ rw (ap (λ i. i == id) own ∙ eq_refl id) (
                ap (map_option (retired_wallet now)) (ap (find (wallet_has_id id)) rows4 ∙ e.stored)
                ∙ ap (λ b. some (retired_wallet now b)) same);
        others = λ j n.
            h.at j
            ∙ rw (ap (λ i. i == j) own ∙ n) (
                ap (find (wallet_has_id j)) rows4
                ∙ still_other id j w2.api.db.wallets w3.api.db.wallets e.wallets n
                ∙ ap (find (wallet_has_id j)) rows2);
        share_c = λ served x f.
            let row =
              retire_share-found now id w4.recovery x (ap (find (share_of id)) shares4 ∙ f) in
            let done =
              h.share_c (ap (λ i. is_served (env.relay.recovery.delivery (retire i))) own ∙ served)
              ∙ ap (λ i. (retire_share now i w4.recovery).1) own in
            (row.0, ap (λ y. find (share_of id) y.shares) done ∙ row.1, row.2);
      }

NotRetired-same : (id : String) (w w' : World) → keys w' ≡ keys w → NotRetired id w w'
NotRetired-same id w w' k = record { wallets = inl (ap (λ x. x.0) k); shares = ap (λ x. x.1) k }

entered_alive :
    (id : String) (w w2 w3 w4 : World)
    → keys w2 ≡ keys w
    → StillAlive id w2.api.db.wallets w3.api.db.wallets
    → w3.recovery ≡ w2.recovery
    → keys w4 ≡ keys w3
    → NotRetired id w w4
entered_alive id w w2 w3 w4 k2 (inl h) r k4 = record {
  wallets = inl (ap (λ x. x.0) k4 ∙ h ∙ ap (λ x. x.0) k2);
  shares = ap (λ x. x.1) k4 ∙ ap (λ x. x.shares) r ∙ ap (λ x. x.1) k2;
}
entered_alive id w w2 w3 w4 k2 (inr h) r k4 = record {
  wallets =
      inr (ap (λ x. x.0) k4 ∙ h ∙ ap (λ x. update (wallet_has_id id) (set_status retiring) x.0) k2);
  shares = ap (λ x. x.1) k4 ∙ ap (λ x. x.shares) r ∙ ap (λ x. x.1) k2;
}

abbrev audited : String → String → World → World
audited wallet_id user_id w =
    (on_api (on_db (write_audit (log_entry wallet_id user_id emergency_withdraw_requested))) w).1

entering-Post :
    (env : LastEnv) (now : ℕ) (q : LastRequest) (w w2 : World) (wallet : Wallet)
    → keys w2 ≡ keys w
    → wallet.id ≡ q.wallet_id
    → Post
        (λ out w3. EnteredRetiring q.wallet_id w2.api out w3.api × (w3.recovery ≡ w2.recovery))
        (λ _ w3. NotRetired q.wallet_id w w3)
        (on_api (db_transaction (enter_retiring env now q wallet.id)) w2)
entering-Post env now q w w2 wallet k own =
    zoom-Post (λ x. x.api) (λ s x. record x { api = s })
      (db_transaction (enter_retiring env now q wallet.id)) w2
      (enter_retiring-Entered env now q wallet.id w2.api)
      (λ out s h. (subst (λ i. EnteredRetiring i w2.api out s) own h, refl))
      (λ _ s h. record {
        wallets = inl (ap (λ x. x.wallets) h.0 ∙ ap (λ x. x.0) k);
        shares = ap (λ x. x.1) k;
      })

-- A last withdrawal that returns was the owner's, on an MPC wallet in RECOVERY_PENDING or RETIRING with
-- Share B, with a password that was accepted; the wallet is RETIRED then and without Share B, no other
-- wallet has changed, and Share C is RETIRED too where the call that retires it was served. One that
-- throws leaves all wallet rows as they were, but for that wallet's move to RETIRING, and every Share C.
pub execute_last_withdraw-Completed :
    (env : LastEnv) (now : ℕ) (q : LastRequest) (w : World)
    → Post
        (λ _ w'. Completed env now q w w')
        (λ _ w'. NotRetired q.wallet_id w w')
        (execute_last_withdraw env now q w)
unfolding execute_last_withdraw
execute_last_withdraw-Completed env now q w =
    after-Post _
      (Post-mono (checked_request-Post env now q w) (λ _ _ h. h)
        (λ _ w' k. NotRetired-same q.wallet_id w w' k))
      λ checked w1 c1.
        let id = q.wallet_id in
        let wallet = checked.0 in
        let token = get_configured_test_token_address env.provider env.token_setting in
        let own = own_id id wallet w.api c1.1.found in
        after-Post _
          (Post-mono
            (Frame-Post keys (latest_token env now q token wallet.id) w1
              (latest_token-Frame env now q token wallet.id))
            (λ _ _ k. k ∙ c1.0) (λ _ w' k. NotRetired-same id w w' (k ∙ c1.0)))
          λ existing w1' k1'.
            after-Post _
              (Post-mono
                (Frame-Post keys
                  (if is_some token && not (is_settled_token existing)
                    then assert_token_sweep_has_gas env now q token wallet.address checked.1
                    else pure tt)
                  w1'
                  (if-Frame keys (is_some token && not (is_settled_token existing)) _ _
                    (gas-Frame env now q token wallet.address checked.1) (λ _. refl)))
                (λ _ _ k. k ∙ k1') (λ _ w' k. NotRetired-same id w w' (k ∙ k1')))
              λ _ w2 k2. after-Post _ (entering-Post env now q w w2 wallet k2 own) λ out w3 h3.
                after-Post _
                  (Post-mono
                    (Frame-Post keys (stop_at_rebroadcast env now q out) w3
                      (stop-Frame env now q out))
                    (λ _ _ k. k) (λ _ w' k. entered_alive id w w2 w3 w' k2 h3.0.wallets h3.1 k))
                  λ _ w3' k3'.
                    Post-mono
                      (catch-Post _
                        (sweep_and_retire-Post env now q wallet checked.1 token
                          (audited wallet.id q.user_id w3'))
                        λ e w4 k4.
                          Post-mono (failed-Post env now q wallet e w4)
                            (λ _ w5 h. (h.0, h.1 ∙ k4, h.2)) (λ _ _ k. k ∙ k4))
                      (λ _ w5 h.
                        completed env now q w w2 w3 h.0 w5 wallet c1.1 k2 own out h3.0 h3.1
                          (h.1 ∙ k3') h.2)
                      (λ _ w5 k. entered_alive id w w2 w3 w5 k2 h3.0.wallets h3.1 (k ∙ k3'))
