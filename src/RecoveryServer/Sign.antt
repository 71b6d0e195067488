-- ===== src/RecoveryServer/Sign.antt =====
-- apps/recovery/src/sign/sign.service.ts: party C's side of an emergency signature. The id of a new
-- session (random bytes) is an argument, and so is the clock.
use selfmade_mpc_wallet.Prelude.{
  ℕ, ◌-◌, String, Bool, true, false, not, ◌||◌, Option, none, some, List, [], ◌∷◌, ◌++◌, eqb, ltb,
  length, is_some, if◌then◌else◌,
}
use selfmade_mpc_wallet.Prelude.Dict.{Dict, lookup, insert, erase}
use selfmade_mpc_wallet.Errors.{bad_request, not_found, no_code}
use selfmade_mpc_wallet.Exec.{Exec, pure, gets, modify, or_throw, throw_if, lift, ◌>>=◌, ◌>>◌}
use selfmade_mpc_wallet.MpcCrypto.Routing.{
  MpcMessage, WireMessage, party_c, filter_messages, select_messages, encode_wire_message,
  encode_wire_messages, decode_wire_messages,
}
use selfmade_mpc_wallet.RecoveryServer.{
  RecoveryServer, RecoveryEnv, SignStateC, SignStepC, wait_msg1b, wait_msg2b, wait_msg3b, wait_last,
}
use selfmade_mpc_wallet.RecoveryServer.Shares.{load_active_share_c_bytes}

abbrev pub session_ttl_ms : ℕ
session_ttl_ms = 600000

-- `now - s.createdAt > SESSION_TTL_MS`
abbrev pub is_expired : ℕ → SignStateC → Bool
is_expired now st = ltb session_ttl_ms (now - st.created_at)

unfoldable pub fresh_sessions : ℕ → Dict SignStateC → Dict SignStateC
fresh_sessions now [] = []
fresh_sessions now ((id, st) ∷ m) =
    let rest = fresh_sessions now m in if is_expired now st then rest else (id, st) ∷ rest

abbrev pub gc : ℕ → Exec RecoveryServer Unit
gc now = modify (λ s. record s { sign_sessions = fresh_sessions now s.sign_sessions })

abbrev pub set_session : String → SignStateC → Exec RecoveryServer Unit
set_session id st = modify (λ s. record s { sign_sessions = insert id st s.sign_sessions })

abbrev pub delete_session : String → Exec RecoveryServer Unit
delete_session id = modify (λ s. record s { sign_sessions = erase id s.sign_sessions })

unfoldable pub require_session : ℕ → String → Exec RecoveryServer SignStateC
require_session now session_id = do
  gc now
  found ← gets (λ s. lookup session_id s.sign_sessions)
  or_throw found (not_found no_code)

abbrev pub is_at_msg1b : SignStepC → Bool
is_at_msg1b wait_msg1b = true
is_at_msg1b _ = false

abbrev pub is_at_msg2b : SignStepC → Bool
is_at_msg2b wait_msg2b = true
is_at_msg2b _ = false

abbrev pub is_at_msg3b : SignStepC → Bool
is_at_msg3b wait_msg3b = true
is_at_msg3b _ = false

abbrev pub is_at_last : SignStepC → Bool
is_at_last wait_last = true
is_at_last _ = false

abbrev pub sent : Option (List WireMessage) → List WireMessage
sent none = []
sent (some ms) = ms

pub record StartedC : Type 0 where
  pub session_id : String
  pub wallet_id : String
  pub party_id : ℕ
  pub msg1c : WireMessage

module _ (env : RecoveryEnv) where
  unfoldable pub start : ℕ → String → String → String → Exec RecoveryServer StartedC
  unfolding load_active_share_c_bytes
  start now new_id wallet_id digest_b64 = do
    gc now
    throw_if (not (eqb (length (env.base64.base64_to_bytes digest_b64)) 32)) (bad_request no_code)
    share_c ← load_active_share_c_bytes env wallet_id
    opened ← lift (env.open_session share_c)
    let msg1c = encode_wire_message env.base64 opened.0
    set_session new_id (record {
      session_id = new_id;
      wallet_id = wallet_id;
      state_b64 = env.base64.bytes_to_base64 opened.1;
      msg1c = msg1c;
      msg2c = none;
      msg3c = none;
      digest_b64 = digest_b64;
      step = wait_msg1b;
      created_at = now;
    })
    pure (record { session_id = new_id; wallet_id = wallet_id; party_id = party_c; msg1c = msg1c })

  -- `SignSession.fromBytes`, `handleMessages`, then `encodeWireMessages` and `toBytes`
  abbrev pub handle : SignStateC → List MpcMessage → Exec RecoveryServer (List WireMessage × String)
  handle st msgs = do
    out ← lift (env.sign_wasm.handle_messages (env.base64.base64_to_bytes st.state_b64) msgs)
    pure (encode_wire_messages env.base64 out.0, env.base64.bytes_to_base64 out.1)

  unfoldable pub round1 : ℕ → String → List WireMessage → Exec RecoveryServer (List WireMessage)
  unfolding require_session
  round1 now session_id msg1b = do
    st ← require_session now session_id
    throw_if (not (is_at_msg1b st.step)) (bad_request no_code)
    throw_if (ltb (length msg1b) 1) (bad_request no_code)
    out ← handle st (filter_messages (decode_wire_messages env.base64 (st.msg1c ∷ msg1b)) party_c)
    set_session session_id (record st { msg2c = some out.0; state_b64 = out.1; step = wait_msg2b })
    pure out.0

  unfoldable pub round2 : ℕ → String → List WireMessage → Exec RecoveryServer (List WireMessage)
  unfolding require_session
  round2 now session_id msg2b = do
    st ← require_session now session_id
    throw_if (not (is_at_msg2b st.step) || not (is_some st.msg2c)) (bad_request no_code)
    out ←
        handle st
          (select_messages (decode_wire_messages env.base64 (msg2b ++ sent st.msg2c)) party_c)
    set_session session_id (record st { msg3c = some out.0; state_b64 = out.1; step = wait_msg3b })
    pure out.0

  unfoldable pub round3 : ℕ → String → List WireMessage → Exec RecoveryServer Unit
  unfolding require_session
  round3 now session_id msg3b = do
    st ← require_session now session_id
    throw_if (not (is_at_msg3b st.step) || not (is_some st.msg3c)) (bad_request no_code)
    out ←
        handle st
          (select_messages (decode_wire_messages env.base64 (msg3b ++ sent st.msg3c)) party_c)
    set_session session_id (record st { state_b64 = out.1; step = wait_last })

  unfoldable pub last_message : ℕ → String → Exec RecoveryServer (List WireMessage)
  unfolding require_session
  last_message now session_id = do
    st ← require_session now session_id
    throw_if (not (is_at_last st.step)) (bad_request no_code)
    out ← lift (
        env.sign_wasm.last_message (env.base64.base64_to_bytes st.state_b64)
          (env.base64.base64_to_bytes st.digest_b64))
    delete_session session_id
    pure (encode_wire_messages env.base64 (out.0 ∷ []))

abbrev pub abort : String → Exec RecoveryServer Unit
abort session_id = delete_session session_id
