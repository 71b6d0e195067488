-- ===== src/SignOrchestrator/Success.antt =====
-- The way through `complete` where nothing fails, and the abort
-- (apps/api/src/mpc/sign-orchestrator.service.ts).
use selfmade_mpc_wallet.Prelude.{
  ℕ, ◌<◌, String, ◌≡◌, refl, ◌∙◌, true, false, Option, none, some, List, [], ◌∷◌, ◌++◌, arith, find,
  find-update, update, length, if◌then◌else◌, eq_refl,
}
use selfmade_mpc_wallet.Prelude.Dict.{lookup, lookup-erase}
use selfmade_mpc_wallet.Errors.{returned}
use selfmade_mpc_wallet.MpcCrypto.Routing.{WireMessage}
use selfmade_mpc_wallet.MainDb.{
  Wallet, WithdrawRequest, active, processing, request_has_id, wallet_has_id,
}
use selfmade_mpc_wallet.SignSession.{SignSessionState, wait_msg4a}
use selfmade_mpc_wallet.SignWasm.{SignEnv}
use selfmade_mpc_wallet.Server.{Server}
use selfmade_mpc_wallet.NormalAb.{mark_executed, mark_failed}
use selfmade_mpc_wallet.SignOrchestrator.{
  collected, owned_session, abort, is_processing, is_processing_row,
}
use selfmade_mpc_wallet.SignOrchestrator.Sign.{sign_raw}
use selfmade_mpc_wallet.SignOrchestrator.Complete.{
  complete, complete_session, complete_live, finish, sign_and_broadcast, await_receipt,
  update_returning, mark_broadcasted, find_terminal_by_session, is_terminal_row, to_complete_result,
  was_executed,
}

-- A session of the caller that is ready to be completed.
pub record Ready (env : SignEnv) (now : ℕ) (user_id id : String) (msg4a : List WireMessage)
    (s : Server) (st : SignSessionState) (row : WithdrawRequest) (wallet : Wallet)
    (raw hash : String) : Type 0 where
  pub session : owned_session user_id id s ≡ some st
  pub at_step : st.step ≡ wait_msg4a
  pub none_terminal : find (is_terminal_row user_id id s.db.wallets) s.db.withdraw_requests ≡ none
  pub row_found : find (request_has_id st.withdraw_request_id) s.db.withdraw_requests ≡ some row
  pub row_processing : row.status ≡ processing
  pub wallet_found : find (wallet_has_id st.wallet_id) s.db.wallets ≡ some wallet
  pub wallet_active : wallet.status ≡ active
  pub some_message : 0 < length msg4a
  pub signed : sign_raw env st msg4a ≡ returned raw
  pub accepted : env.broadcast_transaction raw ≡ returned hash
  pub mined : env.wait_succeeds hash ≡ true

finish-executed :
    (env : SignEnv) (now : ℕ) (user_id id : String) (msg4a : List WireMessage) (s : Server)
    (st : SignSessionState) (row : WithdrawRequest) (wallet : Wallet) (raw hash : String)
    → Ready env now user_id id msg4a s st row wallet raw hash
    → ((finish env now user_id id st msg4a s).0
        ≡ returned (to_complete_result (mark_executed now (mark_broadcasted now hash row)) false))
      × ((finish env now user_id id st msg4a s).1.broadcasts ≡ s.broadcasts ++ raw ∷ [])
unfolding finish sign_and_broadcast await_receipt update_returning
finish-executed env now user_id id msg4a s st row wallet raw hash r = ground (
  arith,
  r.row_found,
  r.wallet_found,
  r.wallet_active,
  r.some_message,
  r.signed,
  r.accepted,
  r.mined,
  find-update (λ x. x.id) (mark_broadcasted now hash) (λ _. refl) st.withdraw_request_id
      st.withdraw_request_id s.db.withdraw_requests,
  eq_refl st.withdraw_request_id,
)

-- Where the caller's session is at WAIT_MSG4A after the removal of old sessions, its wallet is
-- ACTIVE and its withdrawal PROCESSING, party A's message is there, signing succeeds, and the node
-- takes the transaction and mines it, `complete` returns the withdrawal as EXECUTED under the
-- node's hash, not as a retry, and the signed transaction alone is broadcast.
pub complete-executed :
    (env : SignEnv) (now : ℕ) (user_id id : String) (msg4a : List WireMessage) (s : Server)
    (st : SignSessionState) (row : WithdrawRequest) (wallet : Wallet) (raw hash : String)
    → Ready env now user_id id msg4a (collected now s) st row wallet raw hash
    → ((complete env now user_id id msg4a s).0
        ≡ returned (record {
          withdraw = record {
            id = row.id;
            amount = row.amount;
            to_address = row.to_address;
            status = was_executed;
            tx_hash = some hash;
          };
          retried = false;
        }))
      × ((complete env now user_id id msg4a s).1.broadcasts ≡ s.broadcasts ++ raw ∷ [])
unfolding complete complete_session complete_live find_terminal_by_session
complete-executed env now user_id id msg4a s st row wallet raw hash r =
    let h = finish-executed env now user_id id msg4a (collected now s) st row wallet raw hash r in
    ground (arith, h, r.session, r.at_step, r.none_terminal, r.row_found, r.row_processing)

-- What an abort leaves of the withdrawal with a given id.
abbrev pub aborted_row : Option WithdrawRequest → Option WithdrawRequest
aborted_row none = none
aborted_row (some r) = some (if is_processing r.status then mark_failed "aborted" r else r)

pub find-update_processing :
    (id : String) (rows : List WithdrawRequest)
    → find (request_has_id id) (update (is_processing_row id) (mark_failed "aborted") rows)
      ≡ aborted_row (find (request_has_id id) rows)
unfolding find update
find-update_processing id [] = refl
find-update_processing id (r ∷ rows) = ground (arith, find-update_processing id rows)

-- An abort by the owner of a session returns; the session is gone, its withdrawal, if PROCESSING,
-- is FAILED, and nothing is broadcast.
pub abort-owned :
    (user_id id : String) (s : Server) (st : SignSessionState)
    → owned_session user_id id s ≡ some st
    → ((abort user_id id s).0 ≡ returned tt)
      × (lookup id (abort user_id id s).1.sign_sessions ≡ none)
      × (find (request_has_id st.withdraw_request_id) (abort user_id id s).1.db.withdraw_requests
          ≡ aborted_row (find (request_has_id st.withdraw_request_id) s.db.withdraw_requests))
      × ((abort user_id id s).1.broadcasts ≡ s.broadcasts)
unfolding abort
abort-owned user_id id s st h = rw h (
  refl,
  lookup-erase id id s.sign_sessions ∙ rw (eq_refl id) refl,
  find-update_processing st.withdraw_request_id s.db.withdraw_requests,
  refl,
)
