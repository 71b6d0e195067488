-- ===== src/NormalAb/Outcomes.antt =====
-- Which withdrawals `settleOpenNormalAbOrThrow` (apps/api/src/wallet/normal-ab-withdraw.ts) rewrites,
-- on what evidence of the chain, and to what.
use selfmade_mpc_wallet.Prelude.{
  ℕ, String, ◌≡◌, ◌≢◌, refl, subst, inl, inr, Bool, true, false, Option, none, some, arith, ◌==◌,
  truthy, find, find_sound, Option-cases, Bool-cases, All-find, IsFoundIn, HasUniqueKeys-found,
}
use selfmade_mpc_wallet.MainDb.{
  WithdrawStatus, processing, broadcasted, executed, failed, WithdrawRequest, MainDb,
  request_has_id, update_request,
}
use selfmade_mpc_wallet.MainDb.Rewrites.{HasUniqueIds, Rewrites, Rewrites-same, Rewrites-update}
use selfmade_mpc_wallet.Chain.{GetReceipt, ReceiptLookup, lookup_failed, not_mined, mined}
use selfmade_mpc_wallet.NormalAb.{
  is_open_normal_ab, is_success, mark_executed, mark_failed, settle_receipt, settle_broadcasted,
  settle_row, settle_open_normal_ab_or_throw,
}

-- A withdrawal stays as it is, or is closed: EXECUTED for a receipt with status 1, FAILED for a
-- receipt with another status or for want of a hash.
pub data Closing (is_open : WithdrawRequest → Bool) (g : GetReceipt) (now : ℕ)
    (r r' : WithdrawRequest) : Type 0 where
  kept : r' ≡ r → Closing is_open g now r r'
  paid :
      (hash : String)
      → is_open r ≡ true
      → r.status ≡ broadcasted
      → r.tx_hash ≡ some hash
      → g hash ≡ mined (some 1)
      → r' ≡ record r { status = executed; confirmed_at = some now; finalized_at = some now }
      → Closing is_open g now r r'
  reverted :
      (hash : String) (status : Option ℕ)
      → is_open r ≡ true
      → r.status ≡ broadcasted
      → r.tx_hash ≡ some hash
      → g hash ≡ mined status
      → status ≢ some 1
      → r' ≡ record r { status = failed; failure_reason = some "on-chain transaction reverted" }
      → Closing is_open g now r r'
  unsent :
      is_open r ≡ true
      → r.status ≡ broadcasted
      → truthy r.tx_hash ≡ false
      → r' ≡ record r { status = failed; failure_reason = some "broadcasted without txHash" }
      → Closing is_open g now r r'

success_sound : (status : Option ℕ) → is_success status ≡ true → status ≡ some 1
success_sound none h = absurd (cc)
success_sound (some n) h = ground arith

failure_sound : (status : Option ℕ) → is_success status ≡ false → status ≢ some 1
failure_sound none h e = absurd (cc)
failure_sound (some n) h e = ground arith

module _ (is_open : WithdrawRequest → Bool) (g : GetReceipt) (now : ℕ) (r : WithdrawRequest)
    (open_row : is_open r ≡ true) (sent : r.status ≡ broadcasted) where
  pub unsent-Closing :
      truthy r.tx_hash ≡ false
      → Closing is_open g now r (mark_failed "broadcasted without txHash" r)
  unsent-Closing h = unsent open_row sent h refl

  pub paid-Closing :
      (hash : String) (status : Option ℕ)
      → r.tx_hash ≡ some hash
      → g hash ≡ mined status
      → is_success status ≡ true
      → Closing is_open g now r (mark_executed now r)
  paid-Closing hash status h e t =
      paid hash open_row sent h (subst (λ x. g hash ≡ mined x) (success_sound status t) e) refl

  pub reverted-Closing :
      (hash : String) (status : Option ℕ)
      → r.tx_hash ≡ some hash
      → g hash ≡ mined status
      → is_success status ≡ false
      → Closing is_open g now r (mark_failed "on-chain transaction reverted" r)
  reverted-Closing hash status h e t =
      reverted hash status open_row sent h e (failure_sound status t) refl

module _ (g : GetReceipt) (now : ℕ) (w : String) (db : MainDb) (r : WithdrawRequest)
    (open_row : is_open_normal_ab w r ≡ true)
    (here : find (request_has_id r.id) db.withdraw_requests ≡ some r) where
  abbrev J : WithdrawRequest → WithdrawRequest → Type 0
  J = Closing (is_open_normal_ab w) g now

  unchanged : Rewrites J db db
  unchanged = Rewrites-same J (λ x. kept refl) db

  update-Rewrites :
      (f : WithdrawRequest → WithdrawRequest)
      → ((x : WithdrawRequest) → (f x).id ≡ x.id)
      → J r (f r)
      → Rewrites J db (update_request r.id f db).1
  update-Rewrites f keeps j = rw here (Rewrites-update J (λ x. kept refl) f keeps r db here j)

  receipt-Rewrites :
      (hash : String) (found : ReceiptLookup)
      → r.status ≡ broadcasted
      → r.tx_hash ≡ some hash
      → g hash ≡ found
      → Rewrites J db (settle_receipt now r.id found db).1
  unfolding settle_receipt
  receipt-Rewrites hash lookup_failed b h e = unchanged
  receipt-Rewrites hash not_mined b h e = unchanged
  receipt-Rewrites hash (mined status) b h e = elim (Bool-cases (is_success status)) [
    | inl t ↦ rw t (
        update-Rewrites (mark_executed now) (λ x. refl)
          (paid-Closing (is_open_normal_ab w) g now r open_row b hash status h e t))
    | inr t ↦ rw t (
        update-Rewrites (mark_failed "on-chain transaction reverted") (λ x. refl)
          (reverted-Closing (is_open_normal_ab w) g now r open_row b hash status h e t))
  ]

  broadcasted-Rewrites :
      (hash : Option String)
      → r.status ≡ broadcasted
      → r.tx_hash ≡ hash
      → Rewrites J db (settle_broadcasted g now r.id hash db).1
  unfolding settle_broadcasted
  broadcasted-Rewrites none b h =
      update-Rewrites (mark_failed "broadcasted without txHash") (λ x. refl)
        (unsent-Closing (is_open_normal_ab w) g now r open_row b (rw h refl))
  broadcasted-Rewrites (some hash) b h = elim (Bool-cases (hash == "")) [
    | inl e ↦ rw e (
        update-Rewrites (mark_failed "broadcasted without txHash") (λ x. refl)
          (unsent-Closing (is_open_normal_ab w) g now r open_row b (rw h (rw e refl))))
    | inr e ↦ rw e (receipt-Rewrites hash (g hash) b h refl)
  ]

  row-Rewrites : (st : WithdrawStatus) → r.status ≡ st → Rewrites J db (settle_row g now st r db).1
  unfolding settle_row
  row-Rewrites broadcasted b = broadcasted-Rewrites r.tx_hash b refl
  row-Rewrites processing b = unchanged
  row-Rewrites _ b = unchanged

-- Where no two withdrawals have the same id: a settlement for a wallet, returned or thrown, leaves
-- the wallet rows and the audit log alone, and each withdrawal, looked up by its id, as it was,
-- unless that is a BROADCASTED normal A+B withdrawal of this wallet and is then: EXECUTED now, if the
-- receipt of its hash has status 1; FAILED as reverted, if the receipt has another status; FAILED as
-- never broadcast, if it has no hash.
pub settle-Rewrites :
    (g : GetReceipt) (now : ℕ) (w : String) (db : MainDb)
    → HasUniqueIds db
    → Rewrites
        (Closing (is_open_normal_ab w) g now)
        db
        (settle_open_normal_ab_or_throw g now w db).1
unfolding settle_open_normal_ab_or_throw
settle-Rewrites g now w db u =
    elim (Option-cases (find (is_open_normal_ab w) db.withdraw_requests)) [
      | inl e ↦ rw e (Rewrites-same (Closing (is_open_normal_ab w) g now) (λ x. kept refl) db)
      | inr (r, e) ↦ rw e (
          row-Rewrites g now w db r (find_sound (is_open_normal_ab w) db.withdraw_requests r e)
            (All-find (IsFoundIn (λ x. x.id) db.withdraw_requests) (is_open_normal_ab w)
              db.withdraw_requests r (HasUniqueKeys-found (λ x. x.id) db.withdraw_requests u) e)
            r.status refl)
    ]
