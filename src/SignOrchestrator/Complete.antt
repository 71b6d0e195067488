-- ===== src/SignOrchestrator/Complete.antt =====
-- `complete` of apps/api/src/mpc/sign-orchestrator.service.ts: the last round, the broadcast and
-- what is recorded of it. `findFirst` gives the oldest row that fits.
use selfmade_mpc_wallet.Prelude.{
  ℕ, String, Bool, true, false, not, ◌&&◌, Option, none, some, List, [], ◌∷◌, ◌++◌, ◌==◌, ltb,
  length, find, if◌then◌else◌,
}
use selfmade_mpc_wallet.Errors.{
  Error, bad_request, not_found, no_code, emergency_state_invalid, record_not_found,
}
use selfmade_mpc_wallet.Exec.{
  Exec, pure, throw, gets, modify, or_throw, throw_if, lift, catch, ◌>>=◌, ◌>>◌,
}
use selfmade_mpc_wallet.Json.{Json, object, property}
use selfmade_mpc_wallet.MainDb.{
  WithdrawStatus, broadcasted, executed, withdraw_completed, WithdrawRequest, Wallet,
  request_has_id, wallet_has_id, find_request, find_wallet, update_requests, write_audit,
  WithdrawalAuditLog,
}
use selfmade_mpc_wallet.Lifecycle.{is_active}
use selfmade_mpc_wallet.NormalAb.{is_text, mark_failed, mark_executed}
use selfmade_mpc_wallet.MpcCrypto.Routing.{WireMessage}
use selfmade_mpc_wallet.SignSession.{SignSessionState, SignStep, wait_msg4a, completing}
use selfmade_mpc_wallet.SignWasm.{SignEnv}
use selfmade_mpc_wallet.Server.{Server, on_db}
use selfmade_mpc_wallet.SignOrchestrator.{
  gc, owned_session, set_session, delete_session, fail_processing, is_processing,
}
use selfmade_mpc_wallet.SignOrchestrator.Sign.{sign_raw}

pub data TerminalAbStatus : Type 0 where
  was_broadcasted was_executed : TerminalAbStatus

pub record AbWithdrawView : Type 0 where
  pub id : String
  pub amount : ℕ
  pub to_address : String
  pub status : TerminalAbStatus
  pub tx_hash : Option String

-- `retried` chooses between the two messages for a status.
pub record CompleteResult : Type 0 where
  pub withdraw : AbWithdrawView
  pub retried : Bool

abbrev pub is_terminal_ab_status : WithdrawStatus → Bool
is_terminal_ab_status broadcasted = true
is_terminal_ab_status executed = true
is_terminal_ab_status _ = false

abbrev pub terminal_status : WithdrawStatus → TerminalAbStatus
terminal_status executed = was_executed
terminal_status _ = was_broadcasted

abbrev pub to_complete_result : WithdrawRequest → Bool → CompleteResult
to_complete_result row retried = record {
  withdraw = record {
    id = row.id;
    amount = row.amount;
    to_address = row.to_address;
    status = terminal_status row.status;
    tx_hash = row.tx_hash;
  };
  retried = retried;
}

-- `metadata: { path: ['sessionId'], equals: sessionId }`
unfoldable pub has_session : String → Json → Bool
has_session session_id (object fs) = is_text session_id (property "sessionId" fs)
has_session session_id _ = false

abbrev pub is_owner : String → Option Wallet → Bool
is_owner user_id none = false
is_owner user_id (some w) = w.user_id == user_id

abbrev pub is_terminal_row : String → String → List Wallet → WithdrawRequest → Bool
is_terminal_row user_id session_id wallets r =
    is_terminal_ab_status r.status
    && is_owner user_id (find (wallet_has_id r.wallet_id) wallets)
    && has_session session_id r.metadata

unfoldable pub find_terminal_by_session : String → String → Exec Server (Option WithdrawRequest)
find_terminal_by_session user_id session_id =
    gets (λ s. find (is_terminal_row user_id session_id s.db.wallets) s.db.withdraw_requests)

abbrev pub is_terminal_found : Option WithdrawRequest → Bool
is_terminal_found none = false
is_terminal_found (some r) = is_terminal_ab_status r.status

abbrev pub is_at_msg4a : SignStep → Bool
is_at_msg4a wait_msg4a = true
is_at_msg4a _ = false

abbrev pub is_active_wallet : Option Wallet → Bool
is_active_wallet none = false
is_active_wallet (some w) = is_active w.status

-- `withdrawRequest.update({ where: { id }, data })`, which gives the row as it is then.
unfoldable pub update_returning :
    String → (WithdrawRequest → WithdrawRequest) → Exec Server WithdrawRequest
update_returning id f = do
  found ← on_db (find_request id)
  row ← or_throw found record_not_found
  on_db (update_requests (request_has_id id) f)
  pure (f row)

abbrev pub mark_broadcasted : ℕ → String → WithdrawRequest → WithdrawRequest
mark_broadcasted now hash r = record r {
  status = broadcasted;
  tx_hash = some hash;
  broadcasted_at = some now;
}

abbrev pub completed_log : String → SignSessionState → WithdrawalAuditLog
completed_log user_id st = record {
  wallet_id = st.wallet_id;
  user_id = user_id;
  withdraw_request_id = some st.withdraw_request_id;
  event_type = withdraw_completed;
}

-- The raw transaction is handed to the node, whatever the node answers.
abbrev pub broadcast : SignEnv → String → Exec Server String
broadcast env raw = do
  modify (λ s. record s { broadcasts = s.broadcasts ++ raw ∷ [] })
  lift (env.broadcast_transaction raw)

abbrev pub terminal_again :
    Option WithdrawRequest → Exec Server CompleteResult → Exec Server CompleteResult
terminal_again none k = k
terminal_again (some row) k =
    if is_terminal_ab_status row.status then pure (to_complete_result row true) else k

abbrev pub terminal_or :
    Option WithdrawRequest → Exec Server CompleteResult → Exec Server CompleteResult
terminal_or none k = k
terminal_or (some row) k = pure (to_complete_result row true)

-- `if (!again || again.status === 'PROCESSING')`
abbrev pub is_unfinished : Option WithdrawRequest → Bool
is_unfinished none = true
is_unfinished (some row) = is_processing row.status

abbrev pub fail_unfinished : String → String → Option WithdrawRequest → Exec Server (Unit {0})
fail_unfinished id reason again =
    if is_unfinished again
    then on_db (update_requests (request_has_id id) (mark_failed reason))
    else pure tt

module _ (env : SignEnv) (now : ℕ) (user_id session_id : String) where
  -- After the broadcast is recorded: the receipt.
  unfoldable pub await_receipt :
      SignSessionState → String → WithdrawRequest → Exec Server CompleteResult
  unfolding update_returning
  await_receipt st hash row =
      catch
        (if env.wait_succeeds hash
          then (do
            done_row ← update_returning st.withdraw_request_id (mark_executed now)
            on_db (write_audit (completed_log user_id st))
            pure (to_complete_result done_row false))
          else throw (bad_request no_code))
        (λ _. do
          on_db (write_audit (completed_log user_id st))
          pure (to_complete_result row false))

  unfoldable pub sign_and_broadcast :
      SignSessionState → List WireMessage → Exec Server CompleteResult
  unfolding update_returning await_receipt
  sign_and_broadcast st msg4a = do
    raw ← lift (sign_raw env st msg4a)
    hash ← broadcast env raw
    row ← update_returning st.withdraw_request_id (mark_broadcasted now hash)
    delete_session session_id
    await_receipt st hash row

  -- The catch around them.
  unfoldable pub recover_failure : SignSessionState → Error → Exec Server CompleteResult
  recover_failure st e = do
    delete_session session_id
    again ← on_db (find_request st.withdraw_request_id)
    terminal_again again (do
      fail_unfinished st.withdraw_request_id (env.failure_text e) again
      throw (bad_request no_code))

  -- From the test for msg4A on.
  unfoldable pub finish : SignSessionState → List WireMessage → Exec Server CompleteResult
  unfolding sign_and_broadcast recover_failure
  finish st msg4a = do
    throw_if (ltb (length msg4a) 1) (bad_request no_code)
    wallet_now ← on_db (find_wallet st.wallet_id)
    if not (is_active_wallet wallet_now)
        then (do
          delete_session session_id
          fail_processing st.withdraw_request_id "wallet left ACTIVE before A+B broadcast"
          throw (bad_request emergency_state_invalid))
        else (do
          set_session session_id (record st { step = completing })
          catch (sign_and_broadcast st msg4a) (recover_failure st))

  unfoldable pub complete_live : SignSessionState → List WireMessage → Exec Server CompleteResult
  unfolding find_terminal_by_session finish
  complete_live st msg4a =
      if not (is_at_msg4a st.step)
      then (do
        raced ← find_terminal_by_session user_id session_id
        terminal_or raced (throw (bad_request no_code)))
      else finish st msg4a

  unfoldable pub complete_session : List WireMessage → Exec Server CompleteResult
  unfolding complete_live
  complete_session msg4a = do
    found ← gets (owned_session user_id session_id)
    st ← or_throw found (not_found no_code)
    wr ← on_db (find_request st.withdraw_request_id)
    if is_terminal_found wr
        then (do delete_session session_id; terminal_or wr (throw (bad_request no_code)))
        else complete_live st msg4a

  unfoldable pub complete : List WireMessage → Exec Server CompleteResult
  unfolding find_terminal_by_session complete_session
  complete msg4a = do
    gc now
    existing ← find_terminal_by_session user_id session_id
    terminal_or existing (complete_session msg4a)
