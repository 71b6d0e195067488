-- ===== src/EmergencyBc.antt =====
-- apps/api/src/wallet/emergency-bc-withdraw.ts: the emergency (B+C) withdrawals that a wallet has
-- in flight, and their settlement. Rows with the same creation time come in the order of the table.
pub mod Settled
pub mod Closing
pub mod Outcomes
use selfmade_mpc_wallet.Prelude.{
  ℕ, ◌-◌, String, Bool, true, false, ◌&&◌, Option, none, some, List, [], ◌∷◌, ◌==◌, eqb, leb, ltb,
  find, filter, sort_by, is_some, truthy, if◌then◌else◌,
}
use Prim.Native.Char.{code}
use selfmade_mpc_wallet.Errors.{conflict, sign_session_busy, transaction_pending}
use selfmade_mpc_wallet.Exec.{Exec, pure, throw, gets, ◌>>=◌, ◌>>◌}
use selfmade_mpc_wallet.Json.{Json, Fields, text, object, property}
use selfmade_mpc_wallet.MainDb.{
  WithdrawStatus, processing, broadcasted, WithdrawRequest, MainDb, update_request,
}
use selfmade_mpc_wallet.Assets.{WithdrawAsset, eth, erc20, same_asset}
use selfmade_mpc_wallet.Chain.{GetReceipt, ReceiptLookup, lookup_failed, not_mined, mined}
use selfmade_mpc_wallet.NormalAb.{
  is_text, is_open_ab_status, mark_failed, mark_executed, is_success,
}

abbrev pub stale_emergency_processing_ms : ℕ
stale_emergency_processing_ms = 120000

-- The fields that the code reads back.
pub record EmergencyBcMetadata : Type 0 where
  pub asset : WithdrawAsset
  pub signed_raw : Option Json

abbrev asset_in : Option Json → Option WithdrawAsset
asset_in v = if is_text "ETH" v then some eth else if is_text "ERC20" v then some erc20 else none

abbrev with_asset : Option WithdrawAsset → Fields → Option EmergencyBcMetadata
with_asset none fs = none
with_asset (some a) fs = some (record { asset = a; signed_raw = property "signedRaw" fs })

unfoldable pub as_emergency_bc_metadata : Json → Option EmergencyBcMetadata
as_emergency_bc_metadata (object fs) =
    if is_text "EMERGENCY_BC_RELAY" (property "mode" fs)
    then with_asset (asset_in (property "asset" fs)) fs
    else none
as_emergency_bc_metadata _ = none

-- `value.startsWith('0x')`
abbrev pub starts_0x : String → Bool
starts_0x (String.◌∷◌ a (String.◌∷◌ b s)) = eqb (code a) 48 && eqb (code b) 120
starts_0x _ = false

abbrev signed_text : Option Json → Option String
signed_text (some (text raw)) = if starts_0x raw then some raw else none
signed_text _ = none

abbrev raw_of : Option EmergencyBcMetadata → Option String
raw_of none = none
raw_of (some m) = signed_text m.signed_raw

unfoldable pub signed_raw_from_metadata : Json → Option String
unfolding as_emergency_bc_metadata
signed_raw_from_metadata raw = raw_of (as_emergency_bc_metadata raw)

abbrev pub is_emergency : WithdrawRequest → Bool
is_emergency r = is_some (as_emergency_bc_metadata r.metadata)

abbrev pub is_open_row_of : String → WithdrawRequest → Bool
is_open_row_of wallet_id r = r.wallet_id == wallet_id && is_open_ab_status r.status

abbrev pub created_before : WithdrawRequest → WithdrawRequest → Bool
created_before a b = leb a.created_at b.created_at

abbrev pub created_after : WithdrawRequest → WithdrawRequest → Bool
created_after a b = leb b.created_at a.created_at

abbrev has_asset : WithdrawAsset → Option EmergencyBcMetadata → Bool
has_asset a none = false
has_asset a (some m) = same_asset m.asset a

-- `asEmergencyBcMetadata(row.metadata)?.asset === asset`
unfoldable pub is_emergency_of : WithdrawAsset → WithdrawRequest → Bool
unfolding as_emergency_bc_metadata
is_emergency_of a r = has_asset a (as_emergency_bc_metadata r.metadata)

-- The comparison of `emergency.sort`: token rows first.
abbrev pub token_first : WithdrawRequest → WithdrawRequest → Bool
token_first a b = if is_emergency_of eth a then is_emergency_of eth b else true

unfoldable pub open_emergency_rows : String → List WithdrawRequest → List WithdrawRequest
unfolding is_emergency_of
open_emergency_rows wallet_id rows =
    sort_by token_first
      (filter is_emergency (sort_by created_before (filter (is_open_row_of wallet_id) rows)))

unfoldable pub find_open_emergency_bc : String → Exec MainDb (List WithdrawRequest)
unfolding open_emergency_rows
find_open_emergency_bc wallet_id = gets (λ db. open_emergency_rows wallet_id db.withdraw_requests)

abbrev pub is_row_of : String → WithdrawRequest → Bool
is_row_of wallet_id r = r.wallet_id == wallet_id

unfoldable pub find_latest_emergency_bc :
    String → WithdrawAsset → Exec MainDb (Option WithdrawRequest)
find_latest_emergency_bc wallet_id asset = gets (λ db.
    find (is_emergency_of asset)
      (sort_by created_after (filter (is_row_of wallet_id) db.withdraw_requests)))

pub record Rebroadcast : Type 0 where
  pub id : String
  pub tx_hash : String
  pub signed_raw : String

pub data EmergencySettleOutcome : Type 0 where
  clear : EmergencySettleOutcome
  rebroadcast : Rebroadcast → EmergencySettleOutcome

abbrev to_rebroadcast : String → String → Option String → Exec MainDb (Option Rebroadcast)
to_rebroadcast id hash none = throw (conflict transaction_pending)
to_rebroadcast id hash (some raw) =
    pure (some (record { id = id; tx_hash = hash; signed_raw = raw }))

-- The body of the loop: `continue` gives none.
settle_bc_receipt : ℕ → WithdrawRequest → String → ReceiptLookup → Exec MainDb (Option Rebroadcast)
unfolding signed_raw_from_metadata
settle_bc_receipt now row hash lookup_failed = throw (conflict transaction_pending)
settle_bc_receipt now row hash not_mined =
    to_rebroadcast row.id hash (signed_raw_from_metadata row.metadata)
settle_bc_receipt now row hash (mined status) =
    (if is_success status
      then update_request row.id (mark_executed now)
      else update_request row.id (mark_failed "on-chain transaction reverted"))
    >> pure none

settle_bc_processing : ℕ → WithdrawRequest → Exec MainDb (Option Rebroadcast)
settle_bc_processing now row =
    if truthy row.tx_hash
    then throw (conflict transaction_pending)
    else if ltb (now - row.created_at) stale_emergency_processing_ms
    then throw (conflict sign_session_busy)
    else update_request row.id (mark_failed "stale processing without broadcast") >> pure none

settle_bc_broadcasted :
    GetReceipt → ℕ → WithdrawRequest → Option String → Exec MainDb (Option Rebroadcast)
unfolding settle_bc_receipt
settle_bc_broadcasted get_receipt now row none =
    update_request row.id (mark_failed "broadcasted without txHash") >> pure none
settle_bc_broadcasted get_receipt now row (some hash) =
    if hash == ""
    then update_request row.id (mark_failed "broadcasted without txHash") >> pure none
    else settle_bc_receipt now row hash (get_receipt hash)

unfoldable pub settle_bc_row :
    GetReceipt → ℕ → WithdrawStatus → WithdrawRequest → Exec MainDb (Option Rebroadcast)
unfolding settle_bc_processing settle_bc_broadcasted
settle_bc_row get_receipt now processing row = settle_bc_processing now row
settle_bc_row get_receipt now broadcasted row =
    settle_bc_broadcasted get_receipt now row row.tx_hash
settle_bc_row get_receipt now _ row = pure none

abbrev pub or_next :
    Option Rebroadcast → Exec MainDb EmergencySettleOutcome → Exec MainDb EmergencySettleOutcome
or_next none k = k
or_next (some x) k = pure (rebroadcast x)

unfoldable pub settle_bc_rows :
    GetReceipt → ℕ → List WithdrawRequest → Exec MainDb EmergencySettleOutcome
unfolding settle_bc_row
settle_bc_rows get_receipt now [] = pure clear
settle_bc_rows get_receipt now (row ∷ rows) = do
  found ← settle_bc_row get_receipt now row.status row
  or_next found (settle_bc_rows get_receipt now rows)

unfoldable pub settle_open_emergency_bc_or_throw :
    GetReceipt → ℕ → String → Exec MainDb EmergencySettleOutcome
unfolding find_open_emergency_bc settle_bc_rows
settle_open_emergency_bc_or_throw get_receipt now wallet_id = do
  open_rows ← find_open_emergency_bc wallet_id
  settle_bc_rows get_receipt now open_rows
