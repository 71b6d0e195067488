-- ===== src/EmergencyRecovery/Checks.antt =====
-- What the checks of apps/api/src/wallet/emergency-recovery.service.ts let through.
use selfmade_mpc_wallet.Prelude.{
  ℕ, String, ◌≡◌, refl, ap, ◌⊎◌, true, false, some, arith, truthy, eq_iff, find_sound, ◌==◌, not,
}
use selfmade_mpc_wallet.Errors.{returned}
use selfmade_mpc_wallet.Exec.Post.{
  Post, returns, Post-of_parts, throw_if-Post, check-Post, need-Post,
}
use selfmade_mpc_wallet.MainDb.{
  WalletStatus, WalletType, active, recovery_pending, Wallet, mpc, is_mpc, wallet_has_id,
}
use selfmade_mpc_wallet.Lifecycle.{is_retiring, is_retired_wallet_status}
use selfmade_mpc_wallet.Server.{Server}
use selfmade_mpc_wallet.Server.Laws.{wallet_at, SameMemory}
use selfmade_mpc_wallet.EmergencyRecovery.Gate.{verify_emergency_otp-returned}
use selfmade_mpc_wallet.EmergencyRecovery.{
  VerifyTotp, owned_mpc_wallet, assert_can_start, verify_emergency_otp,
}

-- Nothing but the failure tracker and the audit log has changed.
pub record SameFunds (s s' : Server) : Type 0 where
  pub wallets : s'.db.wallets ≡ s.db.wallets
  pub withdraw_requests : s'.db.withdraw_requests ≡ s.db.withdraw_requests
  pub sign_sessions : s'.sign_sessions ≡ s.sign_sessions
  pub broadcasts : s'.broadcasts ≡ s.broadcasts

abbrev pub CanStart : Wallet → Type 0
CanStart w =
    ((w.status ≡ active) ⊎ (w.status ≡ recovery_pending)) × (truthy w.encrypted_share_b ≡ true)

abbrev pub Unchanged : {E : Type 0} → Server → E → Server → Type 0
Unchanged s e s' = s' ≡ s

is_mpc_sound : (t : WalletType) → not (is_mpc t) ≡ false → t ≡ mpc
is_mpc_sound mpc h = refl
is_mpc_sound _ h = absurd (cc)

same_text : (a b : String) → not (a == b) ≡ false → a ≡ b
same_text a b h = ground (arith, eq_iff a b)

-- A wallet that the first checks let through is the caller's MPC wallet.
pub owned_mpc_wallet-Post :
    (user_id wallet_id : String) (s : Server)
    → Post
        (λ w s'.
          (s' ≡ s)
          × ((wallet_at wallet_id s ≡ some w) × (w.user_id ≡ user_id) × (w.wallet_type ≡ mpc)))
        (Unchanged s)
        (owned_mpc_wallet user_id wallet_id s)
unfolding owned_mpc_wallet
owned_mpc_wallet-Post user_id wallet_id s =
    need-Post _ _ _ s (λ _. refl)
      λ w found.
        check-Post _ _ _ s (λ _. refl)
          λ is_wallet.
            check-Post _ _ _ s (λ _. refl)
              λ is_owner. returns (
                refl,
                (found, same_text w.user_id user_id is_owner, is_mpc_sound w.wallet_type is_wallet),
              )

can_start_status :
    (st : WalletStatus)
    → is_retired_wallet_status st ≡ false
    → is_retiring st ≡ false
    → (st ≡ active) ⊎ (st ≡ recovery_pending)
can_start_status st h k = ground arith

pub assert_can_start-Post :
    (w : Wallet) (s : Server)
    → Post (λ _ s'. (s' ≡ s) × CanStart w) (Unchanged s) (assert_can_start w s)
unfolding assert_can_start
assert_can_start-Post w s =
    check-Post _ _ _ s (λ _. refl)
      λ live.
        check-Post _ _ _ s (λ _. refl)
          λ going.
            throw_if-Post _ _ s (λ _. refl)
              λ share. (refl, (can_start_status w.status live going, ground arith))

pub verify-SameFunds :
    (totp : VerifyTotp) (now : ℕ) (user_id wallet_id otp : String) (s : Server)
    → SameFunds s (verify_emergency_otp totp now user_id wallet_id otp s).1
unfolding verify_emergency_otp
verify-SameFunds totp now user_id wallet_id otp s = ground arith

pub verify-Post :
    (totp : VerifyTotp) (now : ℕ) (user_id wallet_id otp : String) (s : Server)
    → Post
        (λ _ s'. (totp user_id otp ≡ returned true) × SameFunds s s')
        (λ _ s'. SameFunds s s')
        (verify_emergency_otp totp now user_id wallet_id otp s)
verify-Post totp now user_id wallet_id otp s =
    Post-of_parts (verify_emergency_otp totp now user_id wallet_id otp s)
      (λ _ h. (
        (verify_emergency_otp-returned totp now user_id wallet_id otp s h).1,
        verify-SameFunds totp now user_id wallet_id otp s,
      ))
      (λ _ _. verify-SameFunds totp now user_id wallet_id otp s)

pub unchanged-SameMemory : {s s' : Server} → s' ≡ s → SameMemory s s'
unchanged-SameMemory h = record {
  sign_sessions = ap (λ (x : Server). x.sign_sessions) h;
  broadcasts = ap (λ (x : Server). x.broadcasts) h;
}

pub own_id : (k : String) (w : Wallet) (s : Server) → wallet_at k s ≡ some w → w.id ≡ k
own_id k w s found = (eq_iff w.id k).0 (find_sound (wallet_has_id k) s.db.wallets w found)

pub at_own_id :
    (k : String) (w : Wallet) (s s' : Server)
    → wallet_at k s ≡ some w
    → s'.db.wallets ≡ s.db.wallets
    → wallet_at w.id s' ≡ some w
at_own_id k w s s' found same = simp (same, own_id k w s found) found
