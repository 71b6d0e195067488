-- ===== src/Tests/Signing.antt =====
-- A signing session from its first round to its completion.
use selfmade_mpc_wallet.Prelude.{
  ◌≤◌, ◌≡◌, ◌⊎◌, refl, true, false, none, some, List, [], ◌∷◌, arith, find,
}
use selfmade_mpc_wallet.Prelude.Dict.{lookup}
use selfmade_mpc_wallet.Errors.{returned}
use selfmade_mpc_wallet.Exec.Post.{Post}
use selfmade_mpc_wallet.Json.{text, object, field, end}
use selfmade_mpc_wallet.MainDb.{WithdrawRequest, processing, request_has_id}
use selfmade_mpc_wallet.MpcCrypto.Routing.{MpcMessage, WireMessage, bytes_equal}
use selfmade_mpc_wallet.MpcCrypto.Ethereum.{build_ecdsa_signature}
use selfmade_mpc_wallet.EthTransfer.{sepolia_chain_id}
use selfmade_mpc_wallet.TxData.{normalize_tx_data}
use selfmade_mpc_wallet.SignSession.{
  SignSessionState, SignStep, UnsignedTxFields, wait_msg1a, wait_msg2a, wait_msg3a, wait_msg4a,
}
use selfmade_mpc_wallet.SignWasm.{SignEnv}
use selfmade_mpc_wallet.Server.{Server}
use selfmade_mpc_wallet.SignOrchestrator.{
  collected, live_sessions, expire_rows, round1, round2, round3, abort,
}
use selfmade_mpc_wallet.SignOrchestrator.Sign.{sign_raw}
use selfmade_mpc_wallet.SignOrchestrator.Complete.{
  complete, to_complete_result, was_executed, has_session,
}
use selfmade_mpc_wallet.SignOrchestrator.Rounds.{Advanced, round1-Post, round2-Post, round3-Post}
use selfmade_mpc_wallet.SignOrchestrator.Budget.{sent_or_open}
use selfmade_mpc_wallet.SignOrchestrator.Calls.{
  Call, call_round1, call_complete, call_abort, serve_all, serve_all-sent_or_open,
}
use selfmade_mpc_wallet.SignOrchestrator.Guard.{Authorised, complete-Authorised}
use selfmade_mpc_wallet.SignOrchestrator.Retry.{complete-retried}
use selfmade_mpc_wallet.SignOrchestrator.Success.{aborted_row, abort-owned, complete-executed}
use selfmade_mpc_wallet.Tests.Codes.{base64, bytes32, to_text, read}
use selfmade_mpc_wallet.Tests.Samples.{wallet, row, server}

abbrev pub from_b : MpcMessage
from_b = record { from_id = 1; to_id = some 0; payload = 5 ∷ [] }

abbrev pub msg_a : WireMessage
msg_a = record { sender = 0; receiver = some 1; payload_b64 = "aab" }

abbrev pub env : SignEnv
env = record {
  wasm = record {
    handle_messages = λ state msgs. returned (from_b ∷ [], 9 ∷ state);
    last_message = λ state digest. returned (from_b, state);
    combine = λ state msgs. returned (bytes32, bytes32);
  };
  base64 = base64;
  recover = λ digest r s v. some "0xAB";
  serialize_signed = λ tx signature. returned "0xraw";
  broadcast_transaction = λ raw. returned "0xhash2";
  wait_succeeds = λ hash. true;
  failure_text = λ e. "failed";
}

abbrev tx : UnsignedTxFields
tx = record {
  to = "0xCd";
  value = 7;
  nonce = 4;
  gas_limit = 21000;
  max_fee_per_gas = 2;
  max_priority_fee_per_gas = 1;
  chain_id = sepolia_chain_id;
  calldata = 48 ∷ 120 ∷ [];
}

unfoldable session : SignStep → SignSessionState
unfolding to_text
session step = record {
  session_id = "s1";
  user_id = "alice";
  wallet_id = "w1";
  withdraw_request_id = "r2";
  state_b64 = "b";
  msg1b = msg_a;
  msg2b = some (msg_a ∷ []);
  msg3b = some (msg_a ∷ []);
  digest_b64 = to_text bytes32;
  tx = tx;
  address = "0xAb";
  step = step;
  created_at = 10;
}

abbrev waiting : WithdrawRequest
waiting = record row {
  id = "r2";
  status = processing;
  tx_hash = none;
  metadata = object (field "mode" (text "NORMAL_AB") (field "sessionId" (text "s1") end));
}

abbrev signing : SignStep → Server
signing step = record server {
  db = record { wallets = wallet ∷ []; withdraw_requests = waiting ∷ []; audit_logs = [] };
  sign_sessions = ("s1", session step) ∷ [];
}

-- The session is still there, and its withdrawal was broadcast.
abbrev sent_row : WithdrawRequest
sent_row = record row {
  metadata = object (field "mode" (text "NORMAL_AB") (field "sessionId" (text "s1") end));
}

abbrev sent : Server
sent = record (signing wait_msg4a) {
  db = record { wallets = wallet ∷ []; withdraw_requests = sent_row ∷ []; audit_logs = [] };
}

abbrev calls : List Call
calls =
    call_round1 20 "alice" "s1" (msg_a ∷ [])
    ∷ call_complete 30 "alice" "s1" (msg_a ∷ [])
    ∷ call_complete 40 "alice" "s1" (msg_a ∷ [])
    ∷ call_abort "alice" "s1"
    ∷ []

serve_all-sent_or_open_example :
    sent_or_open (serve_all env calls (signing wait_msg4a)) ≤ sent_or_open (signing wait_msg4a)
serve_all-sent_or_open_example = serve_all-sent_or_open env calls (signing wait_msg4a)

complete-Authorised_example :
    ((complete env 20 "alice" "s1" (msg_a ∷ []) (signing wait_msg4a)).1.broadcasts ≡ [])
    ⊎ Authorised env 20 "alice" "s1"
        (msg_a ∷ [])
        (signing wait_msg4a)
        (complete env 20 "alice" "s1" (msg_a ∷ []) (signing wait_msg4a)).1
complete-Authorised_example =
    complete-Authorised env 20 "alice" "s1" (msg_a ∷ []) (signing wait_msg4a)

complete-retried_example :
    complete env 20 "alice" "s1" (msg_a ∷ []) sent
    ≡ (returned (to_complete_result sent_row true), collected 20 sent)
unfolding find has_session
complete-retried_example = complete-retried env 20 "alice" "s1" (msg_a ∷ []) sent sent_row refl

complete-executed_example :
    ((complete env 20 "alice" "s1" (msg_a ∷ []) (signing wait_msg4a)).0
      ≡ returned (record {
        withdraw = record {
          id = "r2";
          amount = 7;
          to_address = "0xCd";
          status = was_executed;
          tx_hash = some "0xhash2";
        };
        retried = false;
      }))
    × ((complete env 20 "alice" "s1" (msg_a ∷ []) (signing wait_msg4a)).1.broadcasts ≡ "0xraw" ∷ [])
unfolding find lookup live_sessions expire_rows has_session session sign_raw build_ecdsa_signature
    bytes_equal normalize_tx_data read
complete-executed_example =
    complete-executed env 20 "alice" "s1" (msg_a ∷ []) (signing wait_msg4a) (session wait_msg4a)
      waiting wallet "0xraw" "0xhash2"
      (record {
        session = refl;
        at_step = refl;
        none_terminal = refl;
        row_found = refl;
        row_processing = refl;
        wallet_found = refl;
        wallet_active = refl;
        some_message = omega arith;
        signed = refl;
        accepted = refl;
        mined = refl;
      })

round1-Post_example :
    Post
      (λ _ s'.
        Advanced 20 "alice" "s1" wait_msg1a wait_msg2a (collected 20 (signing wait_msg1a)) s')
      (λ _ s'. s' ≡ collected 20 (signing wait_msg1a))
      (round1 env 20 "alice" "s1" (msg_a ∷ []) (signing wait_msg1a))
round1-Post_example = round1-Post env 20 "alice" "s1" (msg_a ∷ []) (signing wait_msg1a)

round2-Post_example :
    Post
      (λ _ s'.
        Advanced 20 "alice" "s1" wait_msg2a wait_msg3a (collected 20 (signing wait_msg2a)) s')
      (λ _ s'. s' ≡ collected 20 (signing wait_msg2a))
      (round2 env 20 "alice" "s1" (msg_a ∷ []) (signing wait_msg2a))
round2-Post_example = round2-Post env 20 "alice" "s1" (msg_a ∷ []) (signing wait_msg2a)

round3-Post_example :
    Post
      (λ _ s'.
        Advanced 20 "alice" "s1" wait_msg3a wait_msg4a (collected 20 (signing wait_msg3a)) s')
      (λ _ s'. s' ≡ collected 20 (signing wait_msg3a))
      (round3 env 20 "alice" "s1" (msg_a ∷ []) (signing wait_msg3a))
round3-Post_example = round3-Post env 20 "alice" "s1" (msg_a ∷ []) (signing wait_msg3a)

abort-owned_example :
    ((abort "alice" "s1" (signing wait_msg2a)).0 ≡ returned tt)
    × (lookup "s1" (abort "alice" "s1" (signing wait_msg2a)).1.sign_sessions ≡ none)
    × (find
          (request_has_id (session wait_msg2a).withdraw_request_id)
          (abort "alice" "s1" (signing wait_msg2a)).1.db.withdraw_requests
        ≡ aborted_row (
            find
              (request_has_id (session wait_msg2a).withdraw_request_id)
              (signing wait_msg2a).db.withdraw_requests))
    × ((abort "alice" "s1" (signing wait_msg2a)).1.broadcasts ≡ [])
unfolding lookup session
abort-owned_example = abort-owned "alice" "s1" (signing wait_msg2a) (session wait_msg2a) refl
