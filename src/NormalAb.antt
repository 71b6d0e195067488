-- ===== src/NormalAb.antt =====
-- apps/api/src/wallet/normal-ab-withdraw.ts: the normal A+B withdrawal that a wallet has in
-- flight, and its settlement by one receipt lookup.
pub mod Settled
pub mod Outcomes
use selfmade_mpc_wallet.Prelude.{
  ℕ, String, Bool, true, false, ◌&&◌, Option, none, some, ◌==◌, eqb, truthy, find, if◌then◌else◌,
}
use selfmade_mpc_wallet.Errors.{conflict, sign_session_busy, transaction_pending}
use selfmade_mpc_wallet.Exec.{Exec, pure, throw, gets, ◌>>=◌}
use selfmade_mpc_wallet.Json.{Json, text, object, property}
use selfmade_mpc_wallet.MainDb.{
  WithdrawStatus, processing, broadcasted, executed, failed, WithdrawRequest, MainDb,
  update_request,
}
use selfmade_mpc_wallet.Chain.{GetReceipt, ReceiptLookup, lookup_failed, not_mined, mined}

-- `value === t` for a value that may be missing
abbrev pub is_text : String → Option Json → Bool
is_text t (some (text s)) = s == t
is_text t _ = false

unfoldable pub is_normal_ab_metadata : Json → Bool
is_normal_ab_metadata (object fs) = is_text "NORMAL_AB" (property "mode" fs)
is_normal_ab_metadata _ = false

-- OPEN_AB_STATUSES
abbrev pub is_open_ab_status : WithdrawStatus → Bool
is_open_ab_status processing = true
is_open_ab_status broadcasted = true
is_open_ab_status _ = false

-- The rows that `findOpenNormalAb` selects.
abbrev pub is_open_normal_ab : String → WithdrawRequest → Bool
is_open_normal_ab wallet_id r =
    r.wallet_id == wallet_id && is_open_ab_status r.status && is_normal_ab_metadata r.metadata

unfoldable pub find_open_normal_ab : String → Exec MainDb (Option WithdrawRequest)
find_open_normal_ab wallet_id = gets (λ db. find (is_open_normal_ab wallet_id) db.withdraw_requests)

abbrev pub mark_failed : String → WithdrawRequest → WithdrawRequest
mark_failed reason r = record r { status = failed; failure_reason = some reason }

abbrev pub mark_executed : ℕ → WithdrawRequest → WithdrawRequest
mark_executed now r = record r {
  status = executed;
  confirmed_at = some now;
  finalized_at = some now;
}

-- `receipt.status === 1`
abbrev pub is_success : Option ℕ → Bool
is_success none = false
is_success (some n) = eqb n 1

settle_receipt : ℕ → String → ReceiptLookup → Exec MainDb Unit
settle_receipt now id lookup_failed = throw (conflict transaction_pending)
settle_receipt now id not_mined = throw (conflict transaction_pending)
settle_receipt now id (mined status) =
    if is_success status
    then update_request id (mark_executed now)
    else update_request id (mark_failed "on-chain transaction reverted")

settle_broadcasted : GetReceipt → ℕ → String → Option String → Exec MainDb Unit
unfolding settle_receipt
settle_broadcasted get_receipt now id none =
    update_request id (mark_failed "broadcasted without txHash")
settle_broadcasted get_receipt now id (some hash) =
    if hash == ""
    then update_request id (mark_failed "broadcasted without txHash")
    else settle_receipt now id (get_receipt hash)

settle_row : GetReceipt → ℕ → WithdrawStatus → WithdrawRequest → Exec MainDb Unit
unfolding settle_broadcasted
settle_row get_receipt now processing row = throw (conflict sign_session_busy)
settle_row get_receipt now broadcasted row = settle_broadcasted get_receipt now row.id row.tx_hash
settle_row get_receipt now _ row = pure tt

settle_open : GetReceipt → ℕ → Option WithdrawRequest → Exec MainDb Unit
unfolding settle_row
settle_open get_receipt now none = pure tt
settle_open get_receipt now (some row) = settle_row get_receipt now row.status row

unfoldable pub settle_open_normal_ab_or_throw : GetReceipt → ℕ → String → Exec MainDb Unit
unfolding find_open_normal_ab settle_open
settle_open_normal_ab_or_throw get_receipt now wallet_id = do
  open_row ← find_open_normal_ab wallet_id
  settle_open get_receipt now open_row
