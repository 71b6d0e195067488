-- ===== src/DkgOrchestrator/Rounds.antt =====
-- apps/api/src/mpc/dkg-orchestrator.service.ts: `start`, the rounds, and `complete`.
use selfmade_mpc_wallet.Prelude.{
  ℕ, String, Bool, true, false, not, ◌||◌, ◌&&◌, Option, none, some, List, [], ◌∷◌, ◌++◌, ◌==◌, eqb,
  is_some, truthy, find, filter, map, if◌then◌else◌,
}
use selfmade_mpc_wallet.Errors.{bad_request, unique_violation, no_code}
use selfmade_mpc_wallet.Exec.{Exec, pure, modify, throw, throw_if, lift, ◌>>=◌, ◌>>◌}
use selfmade_mpc_wallet.MpcCrypto.Routing.{
  Bytes, MpcMessage, WireMessage, party_a, party_b, filter_messages, select_messages,
  encode_wire_message, encode_wire_messages, decode_wire_messages,
}
use selfmade_mpc_wallet.MainDb.{
  WalletType, mpc, WalletStatus, active, Wallet, MainDb, same_wallet_type, wallet_has_id,
  write_audit, mpc_wallet_created,
}
use selfmade_mpc_wallet.Lifecycle.{is_live_wallet_status}
use selfmade_mpc_wallet.EmergencyRecovery.{log_entry}
use selfmade_mpc_wallet.SignOrchestrator.Start.{or_blank}
use selfmade_mpc_wallet.RecoveryServer.Dkg.{FinalizedC}
use selfmade_mpc_wallet.RecoveryClient.{
  request_dkg_start, request_dkg_round1, request_dkg_p2p, request_dkg_broadcast,
  request_dkg_finalize, request_dkg_abort,
}
use selfmade_mpc_wallet.DkgOrchestrator.{
  KeygenWorld, DkgEnv, DkgStep, wait_round2, wait_round3, wait_round4, wait_final, on_main_db,
  on_party_c, set_session, delete_session, assert_no_live_wallet, gc_sessions, require_owned_dkg,
}

abbrev is_wait_round2 : DkgStep → Bool
is_wait_round2 wait_round2 = true
is_wait_round2 _ = false

abbrev is_wait_round3 : DkgStep → Bool
is_wait_round3 wait_round3 = true
is_wait_round3 _ = false

abbrev is_wait_round4 : DkgStep → Bool
is_wait_round4 wait_round4 = true
is_wait_round4 _ = false

abbrev pub is_wait_final : DkgStep → Bool
is_wait_final wait_final = true
is_wait_final _ = false

-- `messages ?? []`
abbrev or_empty : Option (List WireMessage) → List WireMessage
or_empty none = []
or_empty (some ms) = ms

-- `m.to === MPC_PARTY.A`
abbrev is_to_a : WireMessage → Bool
is_to_a m = addressed m.receiver
  where
    addressed : Option ℕ → Bool
    addressed none = false
    addressed (some p) = eqb p party_a

pub record Round1Answer : Type 0 where
  pub session_id : String
  pub wallet_id : String
  pub party_id : ℕ
  pub peer_round1_messages : List WireMessage

pub record Round3Answer : Type 0 where
  pub messages_for_a : List WireMessage
  pub commitments_b64 : List String

-- What `complete` tells the browser of the new row, with `resolvedAddress` and `partyId`.
pub record KeygenAnswer : Type 0 where
  pub id : String
  pub wallet_type : WalletType
  pub status : WalletStatus
  pub address : String
  pub mpc_public_key : Option String
  pub created_at : ℕ
  pub retired_at : Option ℕ
  pub resolved_address : String
  pub party_id : ℕ

-- The rows that the partial unique index on `userId` and `walletType` puts in the way of a new one
-- (migrations/20260807174106_add_mpc_wallet_status_and_share_b).
abbrev pub is_non_retired_twin : Wallet → Wallet → Bool
is_non_retired_twin row w =
    w.user_id == row.user_id
    && same_wallet_type w.wallet_type row.wallet_type
    && is_live_wallet_status w.status

abbrev pub breaks_index : Wallet → List Wallet → Bool
breaks_index row rows =
    is_live_wallet_status row.status && is_some (find (is_non_retired_twin row) rows)

-- wallet.create({ data }): the primary key is unique, and so is a wallet that is not retired among
-- those of its user and type.
abbrev pub create_wallet : Wallet → Exec MainDb Unit
create_wallet row db =
    (throw_if (is_some (find (wallet_has_id row.id) db.wallets) || breaks_index row db.wallets)
          unique_violation
        >> modify (λ d. record d { wallets = d.wallets ++ row ∷ [] }))
      db

-- The row that `complete` creates; `createdAt` is the database's default.
abbrev pub new_wallet : ℕ → String → String → String → String → String → Wallet
new_wallet now id user_id address public_key_hex encrypted_share_b = record {
  id = id;
  user_id = user_id;
  wallet_type = mpc;
  status = active;
  address = address;
  mpc_public_key = some public_key_hex;
  encrypted_share_b = some encrypted_share_b;
  created_at = now;
  retired_at = none;
}

abbrev keygen_answer : Wallet → KeygenAnswer
keygen_answer w = record {
  id = w.id;
  wallet_type = w.wallet_type;
  status = w.status;
  address = w.address;
  mpc_public_key = w.mpc_public_key;
  created_at = w.created_at;
  retired_at = w.retired_at;
  resolved_address = w.address;
  party_id = party_a;
}

module _ (env : DkgEnv) (now : ℕ) where
  abbrev handle_b :
      String → List MpcMessage → Option (List Bytes) → Exec KeygenWorld (List MpcMessage × Bytes)
  handle_b state_b64 msgs commitments =
      lift (env.keygen.handle_keygen (env.base64.base64_to_bytes state_b64) msgs commitments)

  unfoldable pub start_keygen :
      String → String → String → WireMessage → Exec KeygenWorld Round1Answer
  unfolding gc_sessions assert_no_live_wallet
  start_keygen session_id wallet_id user_id msg1a = do
    gc_sessions env now
    assert_no_live_wallet user_id
    throw_if (not (eqb msg1a.sender party_a)) (bad_request no_code)
    opened ← lift (env.keygen.open_keygen party_b)
    let msg1b = encode_wire_message env.base64 opened.0
    msg1c ← on_party_c (request_dkg_start env.recovery now session_id user_id wallet_id)
    let all_msg1 = msg1a ∷ msg1b ∷ msg1c ∷ []
    out ← lift (
        env.keygen.handle_keygen opened.1
          (filter_messages (decode_wire_messages env.base64 all_msg1) party_b) none)
    commitment_b ← lift (env.keygen.chain_code_commitment out.1)
    round1c ← on_party_c (request_dkg_round1 env.recovery now session_id all_msg1)
    set_session session_id (record {
      session_id = session_id;
      user_id = user_id;
      wallet_id = wallet_id;
      state_b64 = env.base64.bytes_to_base64 out.1;
      msg1a = msg1a;
      msg1b = msg1b;
      msg1c = msg1c;
      msg2b = some (encode_wire_messages env.base64 out.0);
      msg2c = some round1c.0;
      commitment_a = none;
      commitment_b = some (env.base64.bytes_to_base64 commitment_b);
      commitment_c = some round1c.1;
      msg3b = none;
      msg3c = none;
      msg4b = none;
      msg4c = none;
      step = wait_round2;
      created_at = now;
    })
    pure (record {
      session_id = session_id;
      wallet_id = wallet_id;
      party_id = party_a;
      peer_round1_messages = msg1b ∷ msg1c ∷ [];
    })

  -- The session object is written before the Recovery Server is asked, and keeps it if that throws.
  unfoldable pub keygen_round2 :
      String → String → List WireMessage → String → Exec KeygenWorld (List WireMessage)
  unfolding require_owned_dkg
  keygen_round2 user_id session_id msg2a commitment_a = do
    st ← require_owned_dkg env now user_id session_id
    throw_if (not (is_wait_round2 st.step)) (bad_request no_code)
    let st1 = record st { commitment_a = some commitment_a }
    set_session session_id st1
    let all_msg2 = msg2a ++ (or_empty st.msg2b ++ or_empty st.msg2c)
    out ←
        handle_b st.state_b64 (select_messages (decode_wire_messages env.base64 all_msg2) party_b)
          none
    let st2 = record st1 {
      msg3b = some (encode_wire_messages env.base64 out.0);
      state_b64 = env.base64.bytes_to_base64 out.1;
    }
    set_session session_id st2
    round3c ← on_party_c (request_dkg_p2p env.recovery now session_id all_msg2 none)
    set_session session_id (record st2 { msg3c = some round3c; step = wait_round3 })
    pure (filter is_to_a all_msg2)

  unfoldable pub keygen_round3 : String → String → List WireMessage → Exec KeygenWorld Round3Answer
  unfolding require_owned_dkg
  keygen_round3 user_id session_id msg3a = do
    st ← require_owned_dkg env now user_id session_id
    throw_if (not (is_wait_round3 st.step)) (bad_request no_code)
    throw_if
        (not (truthy st.commitment_a)
          || (not (truthy st.commitment_b) || not (truthy st.commitment_c)))
        (bad_request no_code)
    let commitments =
        or_blank st.commitment_a ∷ or_blank st.commitment_b ∷ or_blank st.commitment_c ∷ []
    let all_msg3 = msg3a ++ (or_empty st.msg3b ++ or_empty st.msg3c)
    out ←
        handle_b st.state_b64 (select_messages (decode_wire_messages env.base64 all_msg3) party_b)
          (some (map env.base64.base64_to_bytes commitments))
    let st1 = record st {
      msg4b = some (encode_wire_messages env.base64 out.0);
      state_b64 = env.base64.bytes_to_base64 out.1;
    }
    set_session session_id st1
    round4c ← on_party_c (request_dkg_p2p env.recovery now session_id all_msg3 (some commitments))
    set_session session_id (record st1 { msg4c = some round4c; step = wait_round4 })
    pure (record { messages_for_a = filter is_to_a all_msg3; commitments_b64 = commitments })

  unfoldable pub keygen_round4 :
      String → String → List WireMessage → Exec KeygenWorld (List WireMessage)
  unfolding require_owned_dkg
  keygen_round4 user_id session_id msg4a = do
    st ← require_owned_dkg env now user_id session_id
    throw_if (not (is_wait_round4 st.step)) (bad_request no_code)
    let all_msg4 = msg4a ++ (or_empty st.msg4b ++ or_empty st.msg4c)
    out ←
        handle_b st.state_b64 (filter_messages (decode_wire_messages env.base64 all_msg4) party_b)
          none
    let st1 = record st { state_b64 = env.base64.bytes_to_base64 out.1 }
    set_session session_id st1
    on_party_c (request_dkg_broadcast env.recovery now session_id all_msg4)
    set_session session_id (record st1 { step = wait_final })
    pure (filter (λ m. not (eqb m.sender party_a)) all_msg4)

  -- The two public keys, compared as `toLowerCase()` leaves them; party C forgets a session that fails.
  unfoldable pub assert_same_key : String → String → FinalizedC → Exec KeygenWorld Unit
  assert_same_key session_id public_key_hex final =
      if env.to_lower_case final.mpc_public_key == env.to_lower_case public_key_hex
      then pure tt
      else (on_party_c (request_dkg_abort env.recovery now session_id)
          >> throw (bad_request no_code))

  unfoldable pub complete_keygen : String → String → String → Exec KeygenWorld KeygenAnswer
  unfolding require_owned_dkg assert_no_live_wallet assert_same_key
  complete_keygen share_row_id user_id session_id = do
    st ← require_owned_dkg env now user_id session_id
    throw_if (not (is_wait_final st.step)) (bad_request no_code)
    assert_no_live_wallet user_id
    share_b ← lift (env.keygen.keyshare (env.base64.base64_to_bytes st.state_b64))
    let public_key_hex = env.public_key_to_hex share_b.0
    address ← lift (env.eth_address share_b.0)
    encrypted_share_b ← lift (env.encrypt_share_b share_b.1)
    final ← on_party_c (request_dkg_finalize env.recovery now share_row_id session_id)
    assert_same_key session_id public_key_hex final
    let wallet = new_wallet now st.wallet_id user_id address public_key_hex encrypted_share_b
    on_main_db (create_wallet wallet)
    on_main_db (write_audit (log_entry wallet.id user_id mpc_wallet_created))
    delete_session session_id
    pure (keygen_answer wallet)
