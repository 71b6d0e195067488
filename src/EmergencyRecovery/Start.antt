-- ===== src/EmergencyRecovery/Start.antt =====
-- What `startEmergencyRecovery` (apps/api/src/wallet/emergency-recovery.service.ts) does.
use selfmade_mpc_wallet.Prelude.{
  ℕ, ◌≤◌, String, ◌≡◌, refl, sym, ap, subst, ◌∙◌, true, some, arith, eq_refl, not,
}
use selfmade_mpc_wallet.Errors.{bad_request, emergency_state_invalid, returned}
use selfmade_mpc_wallet.Exec.Post.{
  Post, returns, after-Post, same-Post, check-Post, need-Post, branch-Post, Post-mono,
}
use selfmade_mpc_wallet.MainDb.{
  WithdrawalAuditLog, emergency_recovery_started, write_audit, recovery_pending, Wallet, mpc,
}
use selfmade_mpc_wallet.Lifecycle.{is_active, is_recovery_pending}
use selfmade_mpc_wallet.Chain.{GetReceipt}
use selfmade_mpc_wallet.NormalAb.Settled.{open_normal_ab}
use selfmade_mpc_wallet.Server.{Server, on_db}
use selfmade_mpc_wallet.Server.Laws.{
  open_normal_ab-same, db_transaction-Post, wallet_at, SameMemory, update_wallet-Post, SettledFor,
  settle-Post,
}
use selfmade_mpc_wallet.EmergencyRecovery.{
  VerifyTotp, set_status, log_entry, start_locked, enter_recovery, start_emergency_recovery,
}
use selfmade_mpc_wallet.EmergencyRecovery.Checks.{
  SameFunds, CanStart, owned_mpc_wallet-Post, assert_can_start-Post, verify-Post,
  unchanged-SameMemory, own_id, at_own_id,
}

-- What the transaction of a start has done when it commits.
pub record Entered (wallet_id : String) (s : Server) (w' : Wallet) (s' : Server) : Type 0 where
  pub before : Wallet
  pub found : wallet_at wallet_id s ≡ some before
  pub can_start : CanStart before
  pub result : w' ≡ set_status recovery_pending before
  pub stored : wallet_at wallet_id s' ≡ some w'
  pub settled : open_normal_ab wallet_id s.db ≤ 1 → open_normal_ab wallet_id s'.db ≡ 0
  pub memory : SameMemory s s'

record EnteredRow (w : Wallet) (s : Server) (w' : Wallet) (s' : Server) : Type 0 where
  result : w' ≡ set_status recovery_pending w
  stored : wallet_at w.id s' ≡ some w'
  withdraw_requests : s'.db.withdraw_requests ≡ s.db.withdraw_requests
  memory : SameMemory s s'

enter_recovery-Post :
    (w : Wallet) (s : Server)
    → wallet_at w.id s ≡ some w
    → Post (EnteredRow w s) (λ _ s'. SameMemory s s') (enter_recovery w s)
unfolding enter_recovery
enter_recovery-Post w s found =
    branch-Post (is_recovery_pending w.status) _ _ s
      (λ h. returns (record {
        result = ground arith;
        stored = found;
        withdraw_requests = refl;
        memory = ground arith;
      }))
      λ _.
        check-Post (not (is_active w.status)) (bad_request emergency_state_invalid) _ s
          (λ _. ground arith)
          λ _.
            after-Post _
              (Post-mono (update_wallet-Post w.id (set_status recovery_pending) s (λ _. refl))
                (λ _ _ h. h) (λ _ s1 (h : s1 ≡ s). unchanged-SameMemory h))
              λ _ s1 h. returns (record {
                result = refl;
                stored = h.at w.id ∙ rw (eq_refl w.id, found);
                withdraw_requests = h.withdraw_requests;
                memory = h.memory;
              })

open_on_id :
    (k : String) (w : Wallet) (s s1 s2 : Server)
    → wallet_at k s ≡ some w
    → SettledFor w.id s s1
    → s2.db.withdraw_requests ≡ s1.db.withdraw_requests
    → open_normal_ab k s.db ≤ 1
    → open_normal_ab k s2.db ≡ 0
open_on_id k w s s1 s2 found h same =
    subst (λ i. open_normal_ab i s.db ≤ 1 → open_normal_ab i s2.db ≡ 0) (own_id k w s found)
      (λ one. open_normal_ab-same w.id s1 s2 same ∙ h.clears one)

start_locked-Post :
    (g : GetReceipt) (now : ℕ) (wallet_id : String) (s : Server)
    → Post (Entered wallet_id s) (λ _ s'. SameMemory s s') (start_locked g now wallet_id s)
unfolding start_locked
start_locked-Post g now wallet_id s =
    need-Post _ _ _ s (λ _. ground arith)
      λ w found.
        same-Post _ (assert_can_start-Post w s) (λ _. ground arith)
          λ _ can. after-Post _ (settle-Post g now w.id s) λ _ s1 h.
            Post-mono (enter_recovery-Post w s1 (at_own_id wallet_id w s s1 found h.wallets))
              (λ w' s2 k. record {
                before = w;
                found = found;
                can_start = can;
                result = k.result;
                stored = rw (← own_id wallet_id w s found) k.stored;
                settled = open_on_id wallet_id w s s1 s2 found h k.withdraw_requests;
                memory = ground arith;
              })
              (λ e s2 k. ground arith)

-- What a start that returns has done.
pub record Started (user_id wallet_id : String) (approved : Type 0) (s : Server) (w' : Wallet)
    (s' : Server) : Type 0 where
  pub before : Wallet
  pub found : wallet_at wallet_id s ≡ some before
  pub owner : before.user_id ≡ user_id
  pub is_wallet : before.wallet_type ≡ mpc
  pub can_start : CanStart before
  pub otp_approved : approved
  pub result : w' ≡ set_status recovery_pending before
  pub stored : wallet_at wallet_id s' ≡ some w'
  pub settled : open_normal_ab wallet_id s'.db ≡ 0
  pub memory : SameMemory s s'

rolled_back :
    {s s1 s2 : Server} → SameFunds s s1 → SameMemory s1 s2 → SameFunds s (record s2 { db = s1.db })
rolled_back v k = record {
  wallets = v.wallets;
  withdraw_requests = v.withdraw_requests;
  sign_sessions = k.sign_sessions ∙ v.sign_sessions;
  broadcasts = k.broadcasts ∙ v.broadcasts;
}

Started-of_parts :
    (user_id wallet_id : String) (approved : Type 0) (w w' : Wallet) (s s1 s2 : Server)
    (log : WithdrawalAuditLog)
    → (wallet_at wallet_id s ≡ some w) × (w.user_id ≡ user_id) × (w.wallet_type ≡ mpc)
    → CanStart w
    → approved × SameFunds s s1
    → Entered w.id s1 w' s2
    → open_normal_ab wallet_id s.db ≤ 1
    → Started user_id wallet_id approved s w' (on_db (write_audit log) s2).1
Started-of_parts user_id wallet_id approved w w' s s1 s2 log o can v k one =
    let same : k.before ≡ w = cc (k.found, at_own_id wallet_id w s s1 o.0 v.1.wallets) in
    let id : w.id ≡ wallet_id = own_id wallet_id w s o.0 in
    record {
      before = w;
      found = o.0;
      owner = o.1;
      is_wallet = o.2;
      can_start = can;
      otp_approved = v.0;
      result = k.result ∙ ap (set_status recovery_pending) same;
      stored = subst (λ i. wallet_at i s2 ≡ some w') id k.stored;
      settled =
          subst (λ i. open_normal_ab i s2.db ≡ 0) id
            (k.settled (
              subst (λ i. open_normal_ab i s1.db ≤ 1) (sym id)
                (rw (open_normal_ab-same wallet_id s s1 v.1.withdraw_requests) one)));
      memory = record {
        sign_sessions = k.memory.sign_sessions ∙ v.1.sign_sessions;
        broadcasts = k.memory.broadcasts ∙ v.1.broadcasts;
      };
    }

-- For a wallet with at most one normal withdrawal in flight: a start that returns was asked for by
-- the owner of an MPC wallet, ACTIVE or RECOVERY_PENDING, with Share B, and `TotpService.verify`
-- approved the password. The wallet's row is now RECOVERY_PENDING and otherwise as it was, and no
-- normal withdrawal of it is in flight; sign sessions and what was broadcast are as before. A
-- start that throws has changed no wallet, withdrawal or sign session and broadcast nothing.
pub start_emergency_recovery-Post :
    (g : GetReceipt) (totp : VerifyTotp) (now : ℕ) (user_id wallet_id otp : String) (s : Server)
    → open_normal_ab wallet_id s.db ≤ 1
    → Post
        (Started user_id wallet_id (totp user_id otp ≡ returned true) s)
        (λ _ s'. SameFunds s s')
        (start_emergency_recovery g totp now user_id wallet_id otp s)
unfolding start_emergency_recovery
start_emergency_recovery-Post g totp now user_id wallet_id otp s one =
    same-Post _ (owned_mpc_wallet-Post user_id wallet_id s) (λ _. ground arith)
      λ w o.
        same-Post _ (assert_can_start-Post w s) (λ _. ground arith)
          λ _ can. after-Post _ (verify-Post totp now user_id w.id otp s) λ _ s1 v.
            after-Post _
              (db_transaction-Post (start_locked g now w.id) s1 (start_locked-Post g now w.id s1)
                (λ e s2 k. rolled_back v.1 k))
              λ w' s2 k. returns (
                Started-of_parts user_id wallet_id _ w w' s s1 s2
                  (log_entry w.id user_id emergency_recovery_started) o can v k one)
