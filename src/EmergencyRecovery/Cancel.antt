-- ===== src/EmergencyRecovery/Cancel.antt =====
-- What `cancelEmergencyRecovery` (apps/api/src/wallet/emergency-recovery.service.ts) does.
use selfmade_mpc_wallet.Prelude.{
  eq_iff, if◌then◌else◌, String, ◌≡◌, refl, ◌⊎◌, inl, inr, true, false, some, arith, ◌==◌, not,
}
use selfmade_mpc_wallet.Errors.{bad_request, wallet_retired, emergency_state_invalid}
use selfmade_mpc_wallet.Exec.Post.{Post, returns, after-Post, same-Post, check-Post, branch-Post}
use selfmade_mpc_wallet.MainDb.{WalletStatus, active, recovery_pending, Wallet}
use selfmade_mpc_wallet.Lifecycle.{
  is_active, is_recovery_pending, is_retiring, is_retired_wallet_status,
}
use selfmade_mpc_wallet.Server.{Server}
use selfmade_mpc_wallet.Server.Laws.{wallet_at, SameMemory, WalletUpdated, update_wallet-Post}
use selfmade_mpc_wallet.EmergencyRecovery.{set_status, cancel_emergency_recovery, leave_recovery}
use selfmade_mpc_wallet.EmergencyRecovery.Checks.{
  Unchanged, owned_mpc_wallet-Post, unchanged-SameMemory, own_id,
}

-- What a cancellation that returns has done.
pub record Cancelled (user_id wallet_id : String) (s : Server) (w' : Wallet) (s' : Server)
    : Type 0 where
  pub before : Wallet
  pub found : wallet_at wallet_id s ≡ some before
  pub owner : before.user_id ≡ user_id
  pub from_status : (before.status ≡ active) ⊎ (before.status ≡ recovery_pending)
  pub result : w' ≡ set_status active before
  pub at : (j : String) → wallet_at j s' ≡ (if wallet_id == j then some w' else wallet_at j s)
  pub withdraw_requests : s'.db.withdraw_requests ≡ s.db.withdraw_requests
  pub memory : SameMemory s s'

module _ (k : String) (w : Wallet) (s s1 : Server) (found : wallet_at k s ≡ some w)
    (f : Wallet → Wallet) (u : WalletUpdated w.id f s s1) where
  at_after : (j : String) → wallet_at j s1 ≡ (if k == j then some (f w) else wallet_at j s)
  at_after j = ground (arith, u.at j, own_id k w s found, eq_iff k j, found)

unchanged_at :
    (k : String) (w : Wallet) (s : Server) (j : String)
    → wallet_at k s ≡ some w
    → wallet_at j s ≡ (if k == j then some w else wallet_at j s)
unchanged_at k w s j found = ground (arith, eq_iff k j)

is_active_sound : (st : WalletStatus) → is_active st ≡ true → st ≡ active
is_active_sound st h = ground arith

is_recovery_pending_sound :
    (st : WalletStatus) → not (is_recovery_pending st) ≡ false → st ≡ recovery_pending
is_recovery_pending_sound st h = ground arith

set_status_self : (w : Wallet) → w.status ≡ active → w ≡ set_status active w
set_status_self w h = ground arith

-- A cancellation that returns was asked for by the owner of an ACTIVE or RECOVERY_PENDING wallet:
-- that wallet's row is now ACTIVE and otherwise as it was, and so are all other wallets, the
-- withdrawals, the sign sessions and what was broadcast. One that throws changes nothing.
pub cancel_emergency_recovery-Post :
    (user_id wallet_id : String) (s : Server)
    → Post
        (Cancelled user_id wallet_id s)
        (Unchanged s)
        (cancel_emergency_recovery user_id wallet_id s)
unfolding cancel_emergency_recovery leave_recovery
cancel_emergency_recovery-Post user_id wallet_id s =
    same-Post _ (owned_mpc_wallet-Post user_id wallet_id s) (λ _. refl)
      λ w o.
        check-Post (is_retired_wallet_status w.status) (bad_request wallet_retired) _ s (λ _. refl)
          λ _.
            branch-Post (is_active w.status) _ _ s
              (λ h. returns (record {
                before = w;
                found = o.0;
                owner = o.1;
                from_status = inl (is_active_sound w.status h);
                result = set_status_self w (is_active_sound w.status h);
                at = λ j. unchanged_at wallet_id w s j o.0;
                withdraw_requests = refl;
                memory = unchanged-SameMemory refl;
              }))
              λ _.
                check-Post (is_retiring w.status) (bad_request emergency_state_invalid) _ s
                  (λ _. refl)
                  λ _.
                    check-Post (not (is_recovery_pending w.status))
                      (bad_request emergency_state_invalid) _ s (λ _. refl)
                      λ pending.
                        after-Post _ (update_wallet-Post w.id (set_status active) s (λ _. refl))
                          λ _ s1 u. returns (record {
                            before = w;
                            found = o.0;
                            owner = o.1;
                            from_status = inr (is_recovery_pending_sound w.status pending);
                            result = refl;
                            at = at_after wallet_id w s s1 o.0 (set_status active) u;
                            withdraw_requests = u.withdraw_requests;
                            memory = record {
                              sign_sessions = u.memory.sign_sessions;
                              broadcasts = u.memory.broadcasts;
                            };
                          })
