-- ===== src/BcSignRelay.antt =====
-- apps/api/src/mpc/bc-sign-relay.ts: party B's side of an emergency signature, driven against party
-- C on the Recovery Server. A live session object is the bytes of its state. The id of the session,
-- which the Recovery Server draws, is an argument.
pub mod Calls
pub mod Laws
use selfmade_mpc_wallet.Prelude.{ℕ, String, not, List, [], ◌∷◌, ◌++◌, eqb, length, if◌then◌else◌}
use selfmade_mpc_wallet.Errors.{Error, Result, plain, other}
use selfmade_mpc_wallet.Exec.{Exec, pure, throw, throw_if, lift, catch, ◌>>=◌, ◌>>◌}
use selfmade_mpc_wallet.MpcCrypto.Routing.{
  Bytes, MpcMessage, WireMessage, Base64, party_b, filter_messages, select_messages,
  encode_wire_messages, decode_wire_messages,
}
use selfmade_mpc_wallet.MpcCrypto.Ethereum.{
  MpcEcdsaSignature, RecoverAddress, build_ecdsa_signature,
}
use selfmade_mpc_wallet.SignWasm.{SignWasm}
use selfmade_mpc_wallet.RecoveryServer.{RecoveryServer}
use selfmade_mpc_wallet.RecoveryServer.Sign.{StartedC}
use selfmade_mpc_wallet.RecoveryClient.{
  RecoveryClient, request_start, request_round1, request_round2, request_round3, request_last,
  request_abort,
}

pub record RelayEnv : Type 0 where
  pub wasm : SignWasm
  pub base64 : Base64
  pub recover : RecoverAddress
  -- `new SignSession(Keyshare.fromBytes(share), 'm')`, its first message, and its state
  pub open_session : Bytes → Result (MpcMessage × Bytes)
  pub recovery : RecoveryClient

-- What the two parties have at the end of the rounds.
pub record LastMessages : Type 0 where
  pub msg4b : List WireMessage
  pub msg4c : List WireMessage
  pub session_b : Bytes

module _ (env : RelayEnv) (now : ℕ) where
  abbrev pub decode : List WireMessage → List MpcMessage
  decode = decode_wire_messages env.base64

  abbrev pub encode : List MpcMessage → List WireMessage
  encode = encode_wire_messages env.base64

  abbrev handle_b : Bytes → List MpcMessage → Exec RecoveryServer (List MpcMessage × Bytes)
  handle_b session_b msgs = lift (env.wasm.handle_messages session_b msgs)

  -- The part during which `sessionId` is set.
  unfoldable pub relay_rounds : Bytes → Bytes → StartedC → Exec RecoveryServer LastMessages
  relay_rounds share_b digest32 started = do
    opened ← lift (env.open_session share_b)
    let msg1b = encode (opened.0 ∷ [])
    out2 ← handle_b opened.1 (filter_messages (decode (started.msg1c ∷ msg1b)) party_b)
    let msg2b = encode out2.0
    r1 ← request_round1 env.recovery now started.session_id msg1b
    out3 ← handle_b out2.1 (select_messages (decode (msg2b ++ r1)) party_b)
    let msg3b = encode out3.0
    r2 ← request_round2 env.recovery now started.session_id msg2b
    out4 ← handle_b out3.1 (select_messages (decode (msg3b ++ r2)) party_b)
    request_round3 env.recovery now started.session_id msg3b
    last_b ← lift (env.wasm.last_message out4.1 digest32)
    last_c ← request_last env.recovery now started.session_id
    pure (record { msg4b = encode (last_b.0 ∷ []); msg4c = last_c; session_b = last_b.1 })

  abbrev abort_and : {A : Type 0} → String → Error → Exec RecoveryServer A
  abort_and session_id err = request_abort env.recovery now session_id >> throw err

  unfoldable pub combined : Bytes → String → LastMessages → Exec RecoveryServer MpcEcdsaSignature
  combined digest32 expected_address last = do
    halves ← lift (
        env.wasm.combine last.session_b
          (filter_messages (decode (last.msg4b ++ last.msg4c)) party_b))
    lift (build_ecdsa_signature env.recover digest32 halves.0 halves.1 expected_address)

  -- The new session's id, share B, the digest, the wallet and the address that the signature must recover.
  unfoldable pub sign_digest_bc_relay :
      String → Bytes → Bytes → String → String → Exec RecoveryServer MpcEcdsaSignature
  unfolding relay_rounds combined
  sign_digest_bc_relay new_id share_b digest32 wallet_id expected_address = do
    throw_if (not (eqb (length digest32) 32)) (plain other)
    started ← request_start env.recovery now new_id wallet_id (env.base64.bytes_to_base64 digest32)
    last ← catch (relay_rounds share_b digest32 started) (abort_and started.session_id)
    combined digest32 expected_address last
