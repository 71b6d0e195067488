-- ===== src/LastWithdraw/Retires.antt =====
-- How `executeLastWithdraw` (apps/api/src/wallet/emergency-last-withdraw.service.ts) enters RETIRING.
use selfmade_mpc_wallet.Prelude.{
  ℕ, ◌≤◌, String, ◌≡◌, refl, ap, ◌∙◌, ◌⊎◌, inl, inr, arith, true, false, not, ◌&&◌, some, List,
  find, update, truthy, eq_refl, find-update,
}
use selfmade_mpc_wallet.Errors.{
  returned, bad_request, emergency_state_invalid, share_b_missing, wallet_retired, not_found,
  wallet_not_found,
}
use selfmade_mpc_wallet.Exec.Post.{
  Post, returns, Post-mono, Post-of_parts, check-Post, throw_if-Post, need-Post, after-Post,
  branch-Post, same-Post,
}
use selfmade_mpc_wallet.MainDb.{Wallet, WalletStatus, recovery_pending, retiring, wallet_has_id}
use selfmade_mpc_wallet.Lifecycle.{is_recovery_pending, is_retiring, is_retired_wallet_status}
use selfmade_mpc_wallet.NormalAb.Settled.{open_normal_ab}
use selfmade_mpc_wallet.EmergencyBc.{
  EmergencySettleOutcome, clear, settle_open_emergency_bc_or_throw,
}
use selfmade_mpc_wallet.EmergencyBc.Settled.{
  open_emergency, settle_emergency-clear, settle_emergency-OnlyCloses, OnlyCloses,
}
use selfmade_mpc_wallet.EmergencyRecovery.{set_status}
use selfmade_mpc_wallet.Server.{Server, on_db, db_transaction}
use selfmade_mpc_wallet.Server.Laws.{wallet_at, settle-Post, db_transaction-Post}
use selfmade_mpc_wallet.LastWithdraw.{LastEnv}
use selfmade_mpc_wallet.LastWithdraw.Assets.{LastRequest}
use selfmade_mpc_wallet.LastWithdraw.Execute.{assert_withdrawable, retiring_or_mark, enter_retiring}

abbrev pub CanWithdraw : Wallet → Type 0
CanWithdraw w =
    ((w.status ≡ recovery_pending) ⊎ (w.status ≡ retiring)) × (truthy w.encrypted_share_b ≡ true)

withdrawable_status :
    (st : WalletStatus)
    → (not (is_recovery_pending st) && not (is_retiring st)) ≡ false
    → (st ≡ recovery_pending) ⊎ (st ≡ retiring)
withdrawable_status st h = ground arith

pub assert_withdrawable-Post :
    (w : Wallet) (s : Server)
    → Post (λ _ s'. (s' ≡ s) × CanWithdraw w) (λ _ s'. s' ≡ s) (assert_withdrawable w s)
unfolding assert_withdrawable
assert_withdrawable-Post w s =
    check-Post (is_retired_wallet_status w.status) (bad_request wallet_retired) _ s (λ _. refl)
      λ _.
        check-Post (not (is_recovery_pending w.status) && not (is_retiring w.status))
          (bad_request emergency_state_invalid) _ s (λ _. refl)
          λ st.
            throw_if-Post (not (truthy w.encrypted_share_b)) (bad_request share_b_missing) s
              (λ _. refl) λ share. (refl, (withdrawable_status w.status st, ground arith))

-- The wallet rows are as before, or the one wallet is RETIRING now.
abbrev pub StillAlive : String → List Wallet → List Wallet → Type 0
StillAlive id rows rows' =
    (rows' ≡ rows) ⊎ (rows' ≡ update (wallet_has_id id) (set_status retiring) rows)

-- What the transaction has done when it commits.
pub record EnteredRetiring (id : String) (s : Server) (out : EmergencySettleOutcome) (s' : Server)
    : Type 0 where
  pub before : Wallet
  pub found : wallet_at id s ≡ some before
  pub can_withdraw : CanWithdraw before
  pub stored : wallet_at id s' ≡ some (set_status retiring before)
  pub wallets : StillAlive id s.db.wallets s'.db.wallets
  pub normal : open_normal_ab id s.db ≤ 1 → open_normal_ab id s'.db ≡ 0
  pub emergency : out ≡ clear → open_emergency id s'.db ≡ 0
  pub broadcasts : s'.broadcasts ≡ s.broadcasts

was_retiring : (st : WalletStatus) → is_retiring st ≡ true → st ≡ retiring
was_retiring st h = ground arith

module _ (env : LastEnv) (now : ℕ) (q : LastRequest) (id : String) (s : Server) where
  finish-Entered :
      (before : Wallet) (out : EmergencySettleOutcome) (s1 : Server)
      → wallet_at id s ≡ some before
      → CanWithdraw before
      → s1.db.wallets ≡ s.db.wallets
      → s1.broadcasts ≡ s.broadcasts
      → (open_normal_ab id s.db ≤ 1 → open_normal_ab id s1.db ≡ 0)
      → (out ≡ clear → open_emergency id s1.db ≡ 0)
      → Post
          (EnteredRetiring id s)
          (λ _ s'. s'.broadcasts ≡ s.broadcasts)
          (retiring_or_mark id before out s1)
  finish-Entered before out s1 found can rows sent n e =
      let found1 = ap (find (wallet_has_id id)) rows ∙ found in
      branch-Post (is_retiring before.status) _ _ s1
        (λ h.
          let same = ap (λ st. set_status st before) (was_retiring before.status h) in
          returns (record {
            before = before;
            found = found;
            can_withdraw = can;
            stored = found1 ∙ ap some same;
            wallets = inl rows;
            normal = n;
            emergency = e;
            broadcasts = sent;
          }))
        (λ _. rw found1 (
          returns (record {
            before = before;
            found = found;
            can_withdraw = can;
            stored =
                find-update (λ y. y.id) (set_status retiring) (λ y. refl) id id s1.db.wallets
                ∙ rw (eq_refl id) (rw found1 refl);
            wallets = inr (ap (update (wallet_has_id id) (set_status retiring)) rows);
            normal = n;
            emergency = e;
            broadcasts = sent;
          })))

  emergency-Entered :
      (s1 : Server)
      → Post
          (λ out s2.
            OnlyCloses s1.db s2.db
            × (s2.broadcasts ≡ s1.broadcasts)
            × (out ≡ clear → open_emergency id s2.db ≡ 0))
          (λ _ s2. s2.broadcasts ≡ s1.broadcasts)
          (on_db (settle_open_emergency_bc_or_throw env.get_receipt now id) s1)
  emergency-Entered s1 =
      Post-of_parts (on_db (settle_open_emergency_bc_or_throw env.get_receipt now id) s1)
        (λ out h. (
          settle_emergency-OnlyCloses env.get_receipt now id s1.db,
          refl,
          λ t. settle_emergency-clear env.get_receipt now id s1.db (h ∙ ap returned t),
        ))
        (λ _ _. refl)

  -- The transaction of a last withdrawal commits with the wallet RETIRING and, if at most one normal
  -- withdrawal was in flight, with none; if it does not ask for a rebroadcast, no emergency
  -- withdrawal is in flight either. Refused, it leaves the database as it was.
  pub enter_retiring-Entered :
      Post
        (EnteredRetiring id s)
        (λ _ s'. (s'.db ≡ s.db) × (s'.broadcasts ≡ s.broadcasts))
        (db_transaction (enter_retiring env now q id) s)
  unfolding enter_retiring
  enter_retiring-Entered =
      db_transaction-Post {Q = EnteredRetiring id s} {E = λ _ s'. s'.broadcasts ≡ s.broadcasts}
        (enter_retiring env now q id) s
        (need-Post (wallet_at id s) (not_found wallet_not_found) _ s (λ _. refl)
          λ before found.
            same-Post _ (assert_withdrawable-Post before s) (λ _. refl)
              λ _ can.
                after-Post _
                  (Post-mono (settle-Post env.get_receipt now id s) (λ _ _ h. h)
                    (λ _ _ h. h.broadcasts))
                  λ _ s1 h1.
                    after-Post _
                      (Post-mono (emergency-Entered s1) (λ _ _ h. h)
                        (λ _ _ k. k ∙ h1.memory.broadcasts))
                      λ out s2 h2.
                        finish-Entered before out s2 found can (h2.0.wallets ∙ h1.wallets)
                          (h2.1 ∙ h1.memory.broadcasts)
                          (λ few. omega (arith, h1.clears few, h2.0.normal id)) h2.2)
        (λ _ _ h. (refl, h))
