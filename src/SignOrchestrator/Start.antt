-- ===== src/SignOrchestrator/Start.antt =====
-- `start` of apps/api/src/mpc/sign-orchestrator.service.ts: a normal withdrawal is prepared, its
-- row created in a transaction that settles what is in flight, and a session opened for it. The
-- ids of the session and of the row (createId and the default of the column) are arguments.
use selfmade_mpc_wallet.Assets.{WithdrawAsset, eth, erc20}
use selfmade_mpc_wallet.Prelude.{
  ℕ, ◌+◌, String, Bool, true, false, not, ◌&&◌, ◌||◌, Option, none, some, List, [], ◌∷◌, ◌==◌, eqb,
  ltb, filter, if◌then◌else◌,
}
use Prim.Native.String.{◌++◌}
use selfmade_mpc_wallet.Errors.{
  Error, Result, returned, threw, bad_request, not_found, forbidden, plain, other, unique_violation,
  insufficient_gas_balance, no_code, wallet_not_found, emergency_state_invalid, insufficient_gas,
}
use selfmade_mpc_wallet.Exec.{Exec, pure, throw, gets, or_throw, throw_if, catch, ◌>>=◌, ◌>>◌}
use selfmade_mpc_wallet.Chain.{GetReceipt}
use selfmade_mpc_wallet.MainDb.{
  Wallet, WithdrawRequest, is_mpc, find_wallet, find_request_by_key, create_request, update_request,
}
use selfmade_mpc_wallet.Lifecycle.{is_active, assert_wallet_not_retired}
use selfmade_mpc_wallet.NormalAb.{settle_open_normal_ab_or_throw}
use selfmade_mpc_wallet.MpcCrypto.Routing.{Bytes, MpcMessage}
use selfmade_mpc_wallet.EthTransfer.{Provider}
use selfmade_mpc_wallet.SignSession.{UnsignedTxFields}
use selfmade_mpc_wallet.SignWasm.{SignEnv}
use selfmade_mpc_wallet.Texts.{trim_text, codes, upper}
use selfmade_mpc_wallet.Server.{Server, on_db}
use selfmade_mpc_wallet.SignOrchestrator.{
  delete_session, is_processing, mark_expired, session_ttl_ms,
}
use selfmade_mpc_wallet.SignOrchestrator.Complete.{is_active_wallet}
use selfmade_mpc_wallet.SignOrchestrator.Reuse.{AbWithdrawMetadata, as_ab_metadata}

-- `parseEther`: a number of wei, negative or not, or a throw.
pub data ParsedWei : Type 0 where
  negative wei : ℕ → ParsedWei

-- What `start` calls besides the parameters of the rounds.
pub record StartEnv : Type 0 where
  pub env : SignEnv
  pub provider : Provider
  pub get_receipt : GetReceipt
  pub parse_ether : String → Result ParsedWei
  pub decrypt_share_b : String → Result Bytes
  -- `getConfiguredTestTokenAddress()`
  pub test_token_address : Option String
  -- `unsignedTxDigest32`
  pub unsigned_digest : UnsignedTxFields → Bytes
  -- `new SignSession(Keyshare.fromBytes(share), 'm')`, its first message, and its `toBytes`
  pub open_session : Bytes → Result (MpcMessage × Bytes)

-- What the body of the request holds, and the new ids.
pub record StartRequest : Type 0 where
  pub user_id : String
  pub wallet_id : String
  pub to_address : String
  pub amount : String
  pub idempotency_key : Option String
  pub asset : Option String
  pub new_session_id : String
  pub new_row_id : String

abbrev pub or_blank : Option String → String
or_blank none = ""
or_blank (some s) = s

unfoldable pub scoped_idempotency_key : String → String → String
scoped_idempotency_key wallet_id raw_key = "ab:" ++ wallet_id ++ ":" ++ trim_text raw_key

abbrev pub positive_wei : ParsedWei → Result ℕ
positive_wei (negative n) = threw (plain other)
positive_wei (wei n) = if eqb n 0 then threw (plain other) else returned n

abbrev parse_trimmed : (String → Result ParsedWei) → String → Result ParsedWei
parse_trimmed parse_ether t = if t == "" then threw (plain other) else parse_ether t

abbrev and_positive : Result ParsedWei → Result ℕ
and_positive (returned p) = positive_wei p
and_positive (threw e) = threw (plain other)

unfoldable pub parse_withdraw_amount_to_wei : (String → Result ParsedWei) → String → Result ℕ
parse_withdraw_amount_to_wei parse_ether amount =
    and_positive (parse_trimmed parse_ether (trim_text amount))

abbrev same_codes : List ℕ → List ℕ → Bool
same_codes [] [] = true
same_codes (a ∷ as_) (b ∷ bs) = eqb a b && same_codes as_ bs
same_codes _ _ = false

abbrev upper_all : List ℕ → List ℕ
upper_all [] = []
upper_all (c ∷ cs) = upper c ∷ upper_all cs

unfoldable pub parse_withdraw_asset : Option String → Result WithdrawAsset
parse_withdraw_asset none = returned eth
parse_withdraw_asset (some raw) =
    let value = upper_all (codes (trim_text raw)) in
    if same_codes value [] || same_codes value (codes "ETH")
    then returned eth
    else if same_codes value (codes "ERC20")
    then returned erc20
    else threw (plain other)

-- The catch around the preparation.
abbrev pub gas_or_bad : Error → Error
gas_or_bad (plain insufficient_gas_balance) = bad_request insufficient_gas
gas_or_bad e = bad_request no_code

unfoldable pub require_active_mpc_wallet : String → String → Exec Server Wallet
require_active_mpc_wallet user_id wallet_id = do
  found ← on_db (find_wallet wallet_id)
  wallet ← or_throw found (not_found wallet_not_found)
  throw_if (not (is_mpc wallet.wallet_type)) (not_found wallet_not_found)
  throw_if (not (wallet.user_id == user_id)) forbidden
  assert_wallet_not_retired wallet.status
  throw_if (not (is_active wallet.status)) (bad_request emergency_state_invalid)
  pure wallet

abbrev pub is_stale : String → ℕ → WithdrawRequest → Bool
is_stale wallet_id now r =
    r.wallet_id == wallet_id && is_processing r.status && ltb (r.created_at + session_ttl_ms) now

abbrev pub expire_one : WithdrawRequest → Option AbWithdrawMetadata → Exec Server (Unit {0})
expire_one row none = pure tt
expire_one row (some meta) =
    on_db (update_request row.id mark_expired) >> delete_session meta.session_id

-- The loop over the rows that were found.
unfoldable pub expire_stale : List WithdrawRequest → Exec Server (Unit {0})
expire_stale [] = pure tt
expire_stale (row ∷ rows) = do expire_one row (as_ab_metadata row.metadata); expire_stale rows

pub data Opened : Type 0 where
  reuse created : WithdrawRequest → Opened

-- The catch around the insertion: a key that another request took in between.
abbrev pub raced : String → Error → Exec Server Opened
raced key unique_violation = do
  found ← on_db (find_request_by_key key)
  row ← or_throw found unique_violation
  pure (reuse row)
raced key e = throw e

abbrev pub or_reuse : Option WithdrawRequest → Exec Server Opened → Exec Server Opened
or_reuse (some row) k = pure (reuse row)
or_reuse none k = k

-- The function that runs in the transaction.
unfoldable pub open_locked : GetReceipt → ℕ → String → String → WithdrawRequest → Exec Server Opened
unfolding expire_stale
open_locked get_receipt now wallet_id key row = do
  locked ← on_db (find_wallet wallet_id)
  throw_if (not (is_active_wallet locked)) (bad_request emergency_state_invalid)
  again ← on_db (find_request_by_key key)
  or_reuse again (do
    stale ← gets (λ s. filter (is_stale wallet_id now) s.db.withdraw_requests)
    expire_stale stale
    on_db (settle_open_normal_ab_or_throw get_receipt now wallet_id)
    catch (on_db (create_request row) >> pure (created row)) (raced key))
