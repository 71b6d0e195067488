-- ===== src/EmergencyBc/Closing.antt =====
-- How `settleOpenEmergencyBcOrThrow` (apps/api/src/wallet/emergency-bc-withdraw.ts) may rewrite
-- one withdrawal, on what evidence, and to what.
use selfmade_mpc_wallet.Prelude.{
  ℕ, ◌-◌, ◌≤◌, String, ◌≡◌, ◌⊎◌, refl, sym, subst, inl, inr, true, false, some, arith, truthy,
}
use selfmade_mpc_wallet.MainDb.{processing, failed, WithdrawRequest}
use selfmade_mpc_wallet.Chain.{GetReceipt}
use selfmade_mpc_wallet.NormalAb.Outcomes.{Closing, kept, paid, reverted, unsent}
use selfmade_mpc_wallet.EmergencyBc.Settled.{is_open_emergency}

-- As for the normal withdrawals; and one that is PROCESSING without a hash for two minutes is FAILED.
pub data EmergencyClosing (w : String) (g : GetReceipt) (now : ℕ) (r r' : WithdrawRequest)
    : Type 0 where
  by_chain : Closing (is_open_emergency w) g now r r' → EmergencyClosing w g now r r'
  expired :
      is_open_emergency w r ≡ true
      → r.status ≡ processing
      → truthy r.tx_hash ≡ false
      → 120000 ≤ now - r.created_at
      → r'
        ≡ record r { status = failed; failure_reason = some "stale processing without broadcast" }
      → EmergencyClosing w g now r r'

module _ (w : String) (g : GetReceipt) (now : ℕ) where
  abbrev J : WithdrawRequest → WithdrawRequest → Type 0
  J = EmergencyClosing w g now

  pub same : (r : WithdrawRequest) → J r r
  same r = by_chain (kept refl)

  closed_stays : (b c : WithdrawRequest) → is_open_emergency w b ≡ false → J b c → c ≡ b
  closed_stays b c n (by_chain (kept e)) = e
  closed_stays b c n (by_chain (paid hash o s h e k)) = absurd (cc)
  closed_stays b c n (by_chain (reverted hash st o s h e f k)) = absurd (cc)
  closed_stays b c n (by_chain (unsent o s h k)) = absurd (cc)
  closed_stays b c n (expired o s h e k) = absurd (cc)

  closed_or_same : (a b : WithdrawRequest) → J a b → (b ≡ a) ⊎ (is_open_emergency w b ≡ false)
  closed_or_same a b (by_chain (kept e)) = inl e
  closed_or_same a b (by_chain (paid hash o s h e k)) = inr (rw k (ground arith))
  closed_or_same a b (by_chain (reverted hash st o s h e f k)) = inr (rw k (ground arith))
  closed_or_same a b (by_chain (unsent o s h k)) = inr (rw k (ground arith))
  closed_or_same a b (expired o s h e k) = inr (rw k (ground arith))

  pub joins : (a b c : WithdrawRequest) → J a b → J b c → J a c
  joins a b c h k = elim (closed_or_same a b h) [
    | inl e ↦ subst (λ x. J x c) e k
    | inr n ↦ subst (λ x. J a x) (sym (closed_stays b c n k)) h
  ]
