-- ===== src/SignOrchestrator.antt =====
-- apps/api/src/mpc/sign-orchestrator.service.ts: the normal withdrawal, signed by the browser
-- (party A) and the server (party B). A handler is one step here: what other requests do while it
-- waits for the database or the node is not modelled, and one reading of the clock serves a call.
-- This file has the sessions: the removal of old ones, the three rounds and the abort.
pub mod Sign
pub mod Complete
pub mod Rounds
pub mod Reuse
pub mod Start
pub mod Begin
pub mod OneOpen
pub mod StartKeeps
pub mod Budget
pub mod Calls
pub mod Retry
pub mod Guard
pub mod Success
use selfmade_mpc_wallet.Prelude.{
  ℕ, ◌-◌, String, Bool, true, false, not, ◌&&◌, ◌||◌, Option, none, some, List, [], ◌∷◌, ◌++◌, ◌==◌,
  ltb, eqb, update, is_some, if◌then◌else◌,
}
use selfmade_mpc_wallet.Prelude.Dict.{Dict, lookup, insert, erase}
use selfmade_mpc_wallet.Errors.{bad_request, not_found, no_code}
use selfmade_mpc_wallet.Exec.{Exec, pure, gets, modify, or_throw, throw_if, lift, ◌>>=◌, ◌>>◌}
use selfmade_mpc_wallet.MpcCrypto.Routing.{
  MpcMessage, WireMessage, party_a, party_b, filter_messages, select_messages, encode_wire_messages,
  decode_wire_messages,
}
use selfmade_mpc_wallet.MainDb.{
  MainDb, WithdrawStatus, processing, expired, WithdrawRequest, request_has_id, update_requests,
}
use selfmade_mpc_wallet.NormalAb.{mark_failed}
use selfmade_mpc_wallet.SignSession.{
  SignSessionState, SignStep, wait_msg1a, wait_msg2a, wait_msg3a, wait_msg4a,
}
use selfmade_mpc_wallet.SignWasm.{SignEnv}
use selfmade_mpc_wallet.Server.{Server, on_db}

abbrev pub session_ttl_ms : ℕ
session_ttl_ms = 600000

-- `now - s.createdAt > SESSION_TTL_MS`
abbrev pub is_expired : ℕ → SignSessionState → Bool
is_expired now st = ltb session_ttl_ms (now - st.created_at)

abbrev pub is_processing : WithdrawStatus → Bool
is_processing processing = true
is_processing _ = false

-- `where: { id, status: 'PROCESSING' }`
abbrev pub is_processing_row : String → WithdrawRequest → Bool
is_processing_row id r = request_has_id id r && is_processing r.status

abbrev pub mark_expired : WithdrawRequest → WithdrawRequest
mark_expired r = record r { status = expired; failure_reason = some "sign session expired" }

abbrev pub expire_row : String → MainDb → MainDb
expire_row id db = record db {
  withdraw_requests = update (is_processing_row id) mark_expired db.withdraw_requests;
}

-- The loop of `gc`: the sessions that stay, and the rows.
unfoldable pub live_sessions : ℕ → Dict SignSessionState → Dict SignSessionState
live_sessions now [] = []
live_sessions now ((id, st) ∷ m) =
    let rest = live_sessions now m in if is_expired now st then rest else (id, st) ∷ rest

unfoldable pub expire_rows : ℕ → Dict SignSessionState → MainDb → MainDb
expire_rows now [] db = db
expire_rows now ((id, st) ∷ m) db =
    expire_rows now m (if is_expired now st then expire_row st.withdraw_request_id db else db)

abbrev pub collected : ℕ → Server → Server
collected now s = record s {
  db = expire_rows now s.sign_sessions s.db;
  sign_sessions = live_sessions now s.sign_sessions;
}

abbrev pub gc : ℕ → Exec Server (Unit {0})
gc now = modify (collected now)

-- `state && state.userId === userId`
abbrev pub owned : String → Option SignSessionState → Option SignSessionState
owned user_id none = none
owned user_id (some st) = if st.user_id == user_id then some st else none

abbrev pub owned_session : String → String → Server → Option SignSessionState
owned_session user_id session_id s = owned user_id (lookup session_id s.sign_sessions)

unfoldable pub require_owned : ℕ → String → String → Exec Server SignSessionState
require_owned now user_id session_id = do
  gc now
  found ← gets (owned_session user_id session_id)
  or_throw found (not_found no_code)

abbrev pub set_session : String → SignSessionState → Exec Server (Unit {0})
set_session id st = modify (λ s. record s { sign_sessions = insert id st s.sign_sessions })

abbrev pub delete_session : String → Exec Server (Unit {0})
delete_session id = modify (λ s. record s { sign_sessions = erase id s.sign_sessions })

abbrev pub is_at_msg1a : SignStep → Bool
is_at_msg1a wait_msg1a = true
is_at_msg1a _ = false

abbrev pub is_at_msg2a : SignStep → Bool
is_at_msg2a wait_msg2a = true
is_at_msg2a _ = false

abbrev pub is_at_msg3a : SignStep → Bool
is_at_msg3a wait_msg3a = true
is_at_msg3a _ = false

-- `msg1A.length === 1 && msg1A[0].from === MPC_PARTY.A`
abbrev pub is_single_from_a : List WireMessage → Bool
is_single_from_a [] = false
is_single_from_a (m ∷ []) = eqb m.sender party_a
is_single_from_a (m ∷ n ∷ ms) = false

abbrev pub or_nothing : Option (List WireMessage) → List WireMessage
or_nothing none = []
or_nothing (some ms) = ms

module _ (env : SignEnv) where
  -- `SignSession.fromBytes(…).handleMessages(msgs)`, and what `toBytes` gives after it.
  abbrev pub handle : SignSessionState → List MpcMessage → Exec Server (List WireMessage × String)
  handle st msgs = do
    out ← lift (env.wasm.handle_messages (env.base64.base64_to_bytes st.state_b64) msgs)
    pure (encode_wire_messages env.base64 out.0, env.base64.bytes_to_base64 out.1)

  unfoldable pub round1 : ℕ → String → String → List WireMessage → Exec Server (List WireMessage)
  unfolding require_owned
  round1 now user_id session_id msg1a = do
    st ← require_owned now user_id session_id
    throw_if (not (is_at_msg1a st.step)) (bad_request no_code)
    throw_if (not (is_single_from_a msg1a)) (bad_request no_code)
    out ← handle st (filter_messages (decode_wire_messages env.base64 (st.msg1b ∷ msg1a)) party_b)
    set_session session_id (record st { msg2b = some out.0; state_b64 = out.1; step = wait_msg2a })
    pure out.0

  unfoldable pub round2 : ℕ → String → String → List WireMessage → Exec Server (List WireMessage)
  unfolding require_owned
  round2 now user_id session_id msg2a = do
    st ← require_owned now user_id session_id
    throw_if (not (is_at_msg2a st.step) || not (is_some st.msg2b)) (bad_request no_code)
    out ←
        handle st
          (select_messages (decode_wire_messages env.base64 (msg2a ++ or_nothing st.msg2b)) party_b)
    set_session session_id (record st { msg3b = some out.0; state_b64 = out.1; step = wait_msg3a })
    pure out.0

  unfoldable pub round3 : ℕ → String → String → List WireMessage → Exec Server (Unit {0})
  unfolding require_owned
  round3 now user_id session_id msg3a = do
    st ← require_owned now user_id session_id
    throw_if (not (is_at_msg3a st.step) || not (is_some st.msg3b)) (bad_request no_code)
    out ←
        handle st
          (select_messages (decode_wire_messages env.base64 (msg3a ++ or_nothing st.msg3b)) party_b)
    set_session session_id (record st { state_b64 = out.1; step = wait_msg4a })

abbrev pub fail_processing : String → String → Exec Server (Unit {0})
fail_processing id reason = on_db (update_requests (is_processing_row id) (mark_failed reason))

abbrev pub abort_found : String → Option SignSessionState → Exec Server (Unit {0})
abort_found session_id none = pure tt
abort_found session_id (some st) =
    delete_session session_id >> fail_processing st.withdraw_request_id "aborted"

unfoldable pub abort : String → String → Exec Server (Unit {0})
abort user_id session_id = do
  found ← gets (owned_session user_id session_id)
  abort_found session_id found
