-- ===== src/NormalAb/Settled.antt =====
-- What `settleOpenNormalAbOrThrow` (apps/api/src/wallet/normal-ab-withdraw.ts) leaves behind.
use selfmade_mpc_wallet.Prelude.{
  ℕ, ◌+◌, ◌≤◌, String, ◌≡◌, refl, inl, inr, true, false, Option, none, some, arith, ◌==◌,
  Bool-cases, Option-cases, count, find, find-none, find_sound, count-update_lt, count-update_le,
  eq_refl,
}
use selfmade_mpc_wallet.Errors.{Error, Result, returned, threw}
use selfmade_mpc_wallet.MainDb.{
  WithdrawStatus, processing, broadcasted, WithdrawRequest, MainDb, request_has_id, update_request,
}
use selfmade_mpc_wallet.Chain.{GetReceipt, ReceiptLookup, lookup_failed, not_mined, mined}
use selfmade_mpc_wallet.NormalAb.{
  is_open_ab_status, is_open_normal_ab, mark_failed, mark_executed, is_success, settle_receipt,
  settle_broadcasted, settle_row, settle_open_normal_ab_or_throw,
}

-- How many normal A+B withdrawals the wallet has in flight.
abbrev pub open_normal_ab : String → MainDb → ℕ
open_normal_ab wallet_id db = count (is_open_normal_ab wallet_id) db.withdraw_requests

-- A call that began at `db` has taken one of the wallet's withdrawals out of flight, put none of
-- any wallet in flight, or thrown and left the database as it was.
pub record Settles (w : String) (db : MainDb) (out : Result (Unit {0}) × MainDb) : Type 0 where
  pub lowers : out.0 ≡ returned tt → open_normal_ab w out.1 + 1 ≤ open_normal_ab w db
  pub raises_none : (v : String) → open_normal_ab v out.1 ≤ open_normal_ab v db
  pub keeps : (e : Error) → out.0 ≡ threw e → out.1 ≡ db
  pub same_wallets : out.1.wallets ≡ db.wallets

module _ (w : String) (db : MainDb) (r : WithdrawRequest)
    (open_row : find (is_open_normal_ab w) db.withdraw_requests ≡ some r) where
  update-Settles :
      (f : WithdrawRequest → WithdrawRequest)
      → ((v : String) (x : WithdrawRequest) → is_open_normal_ab v (f x) ≡ false)
      → Settles w db (update_request r.id f db)
  update-Settles f h = elim (Option-cases (find (request_has_id r.id) db.withdraw_requests)) [
    | inl missing ↦ rw missing (record {
      lowers = λ e. cc;
      raises_none = λ v. omega arith;
      keeps = λ e t. refl;
      same_wallets = refl;
    })
    | inr (x, e) ↦ rw e (record {
      lowers = λ _.
          count-update_lt (is_open_normal_ab w) (request_has_id r.id) f (h w) db.withdraw_requests r
            open_row (eq_refl r.id);
      raises_none = λ v.
          count-update_le (is_open_normal_ab v) (request_has_id r.id) f
            (λ y _ t. ground (arith, h v y)) db.withdraw_requests;
      keeps = λ e t. cc;
      same_wallets = refl;
    })
  ]

  mark_failed-Settles :
      (reason : String) → Settles w db (update_request r.id (mark_failed reason) db)
  mark_failed-Settles reason = update-Settles (mark_failed reason) (λ v x. ground arith)

  mark_executed-Settles : (now : ℕ) → Settles w db (update_request r.id (mark_executed now) db)
  mark_executed-Settles now = update-Settles (mark_executed now) (λ v x. ground arith)

  throw-Settles : (e : Error) → Settles w db (threw e, db)
  throw-Settles e = record {
    lowers = λ t. cc;
    raises_none = λ v. omega arith;
    keeps = λ _ _. refl;
    same_wallets = refl;
  }

  settle_receipt-Settles :
      (now : ℕ) (found : ReceiptLookup) → Settles w db (settle_receipt now r.id found db)
  unfolding settle_receipt
  settle_receipt-Settles now lookup_failed = throw-Settles _
  settle_receipt-Settles now not_mined = throw-Settles _
  settle_receipt-Settles now (mined status) = elim (Bool-cases (is_success status)) [
    | inl e ↦ rw e (mark_executed-Settles now)
    | inr e ↦ rw e (mark_failed-Settles _)
  ]

  settle_broadcasted-Settles :
      (g : GetReceipt) (now : ℕ) (hash : Option String)
      → Settles w db (settle_broadcasted g now r.id hash db)
  unfolding settle_broadcasted
  settle_broadcasted-Settles g now none = mark_failed-Settles _
  settle_broadcasted-Settles g now (some hash) = elim (Bool-cases (hash == "")) [
    | inl e ↦ rw e (mark_failed-Settles _)
    | inr e ↦ rw e (settle_receipt-Settles now (g hash))
  ]

  settle_row-Settles :
      (g : GetReceipt) (now : ℕ) (st : WithdrawStatus)
      → is_open_ab_status st ≡ true
      → Settles w db (settle_row g now st r db)
  unfolding settle_row
  settle_row-Settles g now processing h = throw-Settles _
  settle_row-Settles g now broadcasted h = settle_broadcasted-Settles g now r.tx_hash
  settle_row-Settles g now _ h = cc

is_open_ab_status_of :
    (w : String) (r : WithdrawRequest)
    → is_open_normal_ab w r ≡ true
    → is_open_ab_status r.status ≡ true
is_open_ab_status_of w r h = ground arith

-- What a settlement for the wallet `w` may do to the database.
pub record Settled (w : String) (db : MainDb) (out : Result (Unit {0}) × MainDb) : Type 0 where
  pub clears : out.0 ≡ returned tt → open_normal_ab w db ≤ 1 → open_normal_ab w out.1 ≡ 0
  pub raises_none : (v : String) → open_normal_ab v out.1 ≤ open_normal_ab v db
  pub keeps : (e : Error) → out.0 ≡ threw e → out.1 ≡ db
  pub same_wallets : out.1.wallets ≡ db.wallets

Settled-of_Settles :
    (w : String) (db : MainDb) (out : Result (Unit {0}) × MainDb)
    → Settles w db out
    → Settled w db out
Settled-of_Settles w db out h = record {
  clears = λ t one. omega (arith, h.lowers t);
  raises_none = h.raises_none;
  keeps = h.keeps;
  same_wallets = h.same_wallets;
}

pub settle-Settled :
    (g : GetReceipt) (now : ℕ) (w : String) (db : MainDb)
    → Settled w db (settle_open_normal_ab_or_throw g now w db)
unfolding settle_open_normal_ab_or_throw
settle-Settled g now w db = elim (Option-cases (find (is_open_normal_ab w) db.withdraw_requests)) [
  | inl e ↦ rw e (record {
    clears = λ _ _. find-none (is_open_normal_ab w) db.withdraw_requests e;
    raises_none = λ v. omega arith;
    keeps = λ _ _. refl;
    same_wallets = refl;
  })
  | inr (r, e) ↦ rw e (
      Settled-of_Settles w db _ (
        settle_row-Settles w db r e g now r.status
          (is_open_ab_status_of w r (find_sound (is_open_normal_ab w) db.withdraw_requests r e))))
]

-- From a database where the wallet has at most one normal A+B withdrawal in flight, a settlement
-- that returns leaves it none, and touches no wallet row.
pub settle-clears :
    (g : GetReceipt) (now : ℕ) (w : String) (db : MainDb)
    → open_normal_ab w db ≤ 1
    → (settle_open_normal_ab_or_throw g now w db).0 ≡ returned tt
    → (open_normal_ab w (settle_open_normal_ab_or_throw g now w db).1 ≡ 0)
      × ((settle_open_normal_ab_or_throw g now w db).1.wallets ≡ db.wallets)
settle-clears g now w db one h =
    let settled = settle-Settled g now w db in (settled.clears h one, settled.same_wallets)

-- A settlement that throws leaves the database as it was.
pub settle-threw :
    (g : GetReceipt) (now : ℕ) (w : String) (db : MainDb) (e : Error)
    → (settle_open_normal_ab_or_throw g now w db).0 ≡ threw e
    → (settle_open_normal_ab_or_throw g now w db).1 ≡ db
settle-threw g now w db = (settle-Settled g now w db).keeps
