-- ===== src/SignOrchestrator/Reuse.antt =====
-- The metadata of a normal A+B withdrawal, and the reuse of an idempotency key
-- (asAbMetadata and reuseOrConflictExisting of apps/api/src/mpc/sign-orchestrator.service.ts).
use selfmade_mpc_wallet.Assets.{WithdrawAsset, eth, erc20, same_asset, asset_name}
use selfmade_mpc_wallet.Prelude.{
  ℕ, String, Bool, true, false, not, ◌&&◌, ◌||◌, Option, none, some, ◌==◌, eqb, if◌then◌else◌, ◌≡◌,
  ◌⊎◌, arith, eq_iff,
}
use selfmade_mpc_wallet.Prelude.Dict.{lookup}
use selfmade_mpc_wallet.Errors.{
  Result, returned, threw, conflict, gone, idempotency_conflict, sign_session_gone,
}
use selfmade_mpc_wallet.Exec.{Exec, pure, gets, or_throw, throw_if, lift, ◌>>=◌, ◌>>◌}
use selfmade_mpc_wallet.Json.{Json, text, number, array, object, field, end, property}
use selfmade_mpc_wallet.MainDb.{WithdrawRequest, processing}
use selfmade_mpc_wallet.Exec.Post.{Post, Post-of_parts}
use selfmade_mpc_wallet.MpcCrypto.Routing.{WireMessage}
use selfmade_mpc_wallet.NormalAb.{is_text}
use selfmade_mpc_wallet.SignSession.{SignSessionState, UnsignedTxFields}
use selfmade_mpc_wallet.Server.{Server}
use selfmade_mpc_wallet.SignOrchestrator.{delete_session, is_processing}
use selfmade_mpc_wallet.SignOrchestrator.Complete.{
  AbWithdrawView, is_terminal_ab_status, to_complete_result,
}

-- The fields that the code reads back.
pub record AbWithdrawMetadata : Type 0 where
  pub session_id : String
  pub fee_wei : String
  pub digest_b64 : String
  pub from_address : String
  pub asset : Option Json

-- `typeof value === 'string'`, and the string
abbrev pub string_of : Option Json → Option String
string_of (some (text s)) = some s
string_of _ = none

-- `value && typeof value === 'object'`
abbrev pub is_object : Option Json → Bool
is_object (some (array items)) = true
is_object (some (object fs)) = true
is_object _ = false

abbrev all_fields :
    Option String
    → Option String
    → Option String
    → Option String
    → Option Json
    → Option AbWithdrawMetadata
all_fields (some session_id) (some digest_b64) (some fee_wei) (some from_address) asset =
    some (record {
      session_id = session_id;
      fee_wei = fee_wei;
      digest_b64 = digest_b64;
      from_address = from_address;
      asset = asset;
    })
all_fields _ _ _ _ _ = none

unfoldable pub as_ab_metadata : Json → Option AbWithdrawMetadata
as_ab_metadata (object fs) =
    if is_text "NORMAL_AB" (property "mode" fs) && is_object (property "msg1B" fs)
    then all_fields (string_of (property "sessionId" fs)) (string_of (property "digestB64" fs))
        (string_of (property "feeWei" fs)) (string_of (property "fromAddress" fs))
        (property "asset" fs)
    else none
as_ab_metadata _ = none

abbrev with_receiver : Option ℕ → Json → Json
with_receiver none (object fs) = object fs
with_receiver (some to) (object fs) = object (field "to" (number to) fs)
with_receiver _ j = j

abbrev pub wire_json : WireMessage → Json
wire_json m =
    with_receiver m.receiver
      (object (field "from" (number m.sender) (field "payloadB64" (text m.payload_b64) end)))

-- The metadata that `start` stores.
abbrev pub metadata_json : AbWithdrawMetadata → WireMessage → WithdrawAsset → Json
metadata_json m msg1b asset = object (
    field "mode" (text "NORMAL_AB") (
      field "sessionId" (text m.session_id) (
        field "feeWei" (text m.fee_wei) (
          field "digestB64" (text m.digest_b64) (
            field "msg1B" (wire_json msg1b) (
              field "fromAddress" (text m.from_address)
                (field "asset" (text (asset_name asset)) end)))))))

-- `meta.asset === 'ERC20' ? 'ERC20' : 'ETH'`
abbrev pub asset_of : AbWithdrawMetadata → WithdrawAsset
asset_of m = if is_text "ERC20" m.asset then erc20 else eth

pub record SigningStartResult : Type 0 where
  pub session_id : String
  pub wallet_id : String
  pub digest_b64 : String
  pub msg1b : WireMessage
  pub amount_wei : ℕ
  pub fee_wei : String
  pub to_address : String
  pub from_address : String
  pub tx : UnsignedTxFields
  pub reused : Bool

pub record TerminalStartResult : Type 0 where
  pub session_id : String
  pub wallet_id : String
  pub amount_wei : ℕ
  pub to_address : String
  pub withdraw : AbWithdrawView

pub data StartResult : Type 0 where
  signing : SigningStartResult → StartResult
  already_broadcast : TerminalStartResult → StartResult

-- `!live || live.userId !== userId || live.walletId !== walletId`
abbrev pub live_for : String → String → Option SignSessionState → Option SignSessionState
live_for user_id wallet_id none = none
live_for user_id wallet_id (some st) =
    if st.user_id == user_id && st.wallet_id == wallet_id then some st else none

abbrev address_or_empty : Result String → String
address_or_empty (returned a) = a
address_or_empty (threw e) = ""

module _ (get_address : String → Result String) where
  unfoldable pub reuse_or_conflict_existing :
      String → String → WithdrawRequest → String → ℕ → WithdrawAsset → Exec Server StartResult
  unfolding as_ab_metadata
  reuse_or_conflict_existing user_id wallet_id row to_address amount asset = do
    throw_if (not (row.wallet_id == wallet_id)) (conflict idempotency_conflict)
    meta ← or_throw (as_ab_metadata row.metadata) (conflict idempotency_conflict)
    row_to ← lift (get_address row.to_address)
    to ← lift (get_address to_address)
    throw_if
        (not (row_to == to)
          || not (eqb row.amount amount)
          || not (same_asset (asset_of meta) asset))
        (conflict idempotency_conflict)
    if is_terminal_ab_status row.status
        then (do
          delete_session meta.session_id
          pure (
              already_broadcast (record {
                session_id = meta.session_id;
                wallet_id = wallet_id;
                amount_wei = amount;
                to_address = to_address;
                withdraw = (to_complete_result row true).withdraw;
              })))
        else (do
          found ← gets (λ s. lookup meta.session_id s.sign_sessions)
          live ← or_throw (live_for user_id wallet_id found) (gone sign_session_gone)
          throw_if (not (is_processing row.status)) (conflict idempotency_conflict)
          pure (
              signing (record {
                session_id = meta.session_id;
                wallet_id = wallet_id;
                digest_b64 = live.digest_b64;
                msg1b = live.msg1b;
                amount_wei = amount;
                fee_wei = meta.fee_wei;
                to_address = to_address;
                from_address = meta.from_address;
                tx = live.tx;
                reused = true;
              })))

  -- Reusing a key, whatever its row, writes nothing to the database and broadcasts nothing; an
  -- answer is given only for the same wallet, receiver and amount, and only for a row that is
  -- BROADCASTED, EXECUTED or PROCESSING. One that throws changes nothing.
  pub reuse_or_conflict_existing-Post :
      (user_id wallet_id : String) (row : WithdrawRequest) (to_address : String) (amount : ℕ)
      (asset : WithdrawAsset) (s : Server)
      → Post
          (λ r s'.
            (s'.db ≡ s.db)
            × (s'.broadcasts ≡ s.broadcasts)
            × (row.wallet_id ≡ wallet_id)
            × (get_address row.to_address ≡ get_address to_address)
            × (row.amount ≡ amount)
            × ((is_terminal_ab_status row.status ≡ true) ⊎ (row.status ≡ processing)))
          (λ _ s'. s' ≡ s)
          (reuse_or_conflict_existing user_id wallet_id row to_address amount asset s)
  unfolding reuse_or_conflict_existing
  reuse_or_conflict_existing-Post user_id wallet_id row to_address amount asset s =
      Post-of_parts (reuse_or_conflict_existing user_id wallet_id row to_address amount asset s)
        (λ a h. ground (
          arith,
          eq_iff row.wallet_id wallet_id,
          eq_iff (address_or_empty (get_address row.to_address))
              (address_or_empty (get_address to_address)),
        ))
        (λ e h. ground arith)
