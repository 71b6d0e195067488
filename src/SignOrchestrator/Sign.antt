-- ===== src/SignOrchestrator/Sign.antt =====
-- How `complete` of apps/api/src/mpc/sign-orchestrator.service.ts makes the signed transaction.
use selfmade_mpc_wallet.Prelude.{String, List, [], ◌∷◌, ◌++◌}
use selfmade_mpc_wallet.Errors.{Result}
use selfmade_mpc_wallet.Chained.{◌>>=◌}
use selfmade_mpc_wallet.MpcCrypto.Routing.{
  WireMessage, party_b, filter_messages, encode_wire_messages, decode_wire_messages,
}
use selfmade_mpc_wallet.MpcCrypto.Ethereum.{build_ecdsa_signature}
use selfmade_mpc_wallet.EthTransfer.{tx_from_stored_fields}
use selfmade_mpc_wallet.SignSession.{SignSessionState}
use selfmade_mpc_wallet.SignWasm.{SignEnv}

unfoldable pub sign_raw : SignEnv → SignSessionState → List WireMessage → Result String
unfolding tx_from_stored_fields
sign_raw env st msg4a = do
  let digest = env.base64.base64_to_bytes st.digest_b64
  last ← env.wasm.last_message (env.base64.base64_to_bytes st.state_b64) digest
  let all = decode_wire_messages env.base64 (msg4a ++ encode_wire_messages env.base64 (last.0 ∷ []))
  halves ← env.wasm.combine last.1 (filter_messages all party_b)
  signature ← build_ecdsa_signature env.recover digest halves.0 halves.1 st.address
  tx ← tx_from_stored_fields st.tx
  env.serialize_signed tx signature
