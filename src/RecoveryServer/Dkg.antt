-- ===== src/RecoveryServer/Dkg.antt =====
-- apps/recovery/src/dkg/dkg.service.ts: party C's side of the key generation. The id of a new row is
-- an argument, and so is the clock.
use selfmade_mpc_wallet.Prelude.{
  ℕ, ◌-◌, String, Bool, Option, none, some, List, [], ◌∷◌, map, ltb, is_some, if◌then◌else◌,
}
use selfmade_mpc_wallet.Prelude.Dict.{Dict, lookup, insert, erase}
use selfmade_mpc_wallet.Errors.{bad_request, not_found, no_code}
use selfmade_mpc_wallet.Exec.{Exec, pure, gets, modify, or_throw, throw_if, lift, ◌>>=◌, ◌>>◌}
use selfmade_mpc_wallet.MpcCrypto.Routing.{
  Bytes, MpcMessage, WireMessage, party_c, filter_messages, select_messages, encode_wire_message,
  encode_wire_messages, decode_wire_messages,
}
use selfmade_mpc_wallet.RecoveryServer.{RecoveryServer, RecoveryEnv, DkgStateC}
use selfmade_mpc_wallet.RecoveryServer.Shares.{
  active_share, find_share, create_share, assert_share_c_insert_allowed,
}

abbrev pub dkg_ttl_ms : ℕ
dkg_ttl_ms = 900000

-- `now - s.createdAt > SESSION_TTL_MS`
abbrev is_old : ℕ → DkgStateC → Bool
is_old now st = ltb dkg_ttl_ms (now - st.created_at)

unfoldable pub recent_sessions : ℕ → Dict DkgStateC → Dict DkgStateC
recent_sessions now [] = []
recent_sessions now ((id, st) ∷ m) =
    let rest = recent_sessions now m in if is_old now st then rest else (id, st) ∷ rest

abbrev pub gc_dkg : ℕ → Exec RecoveryServer Unit
gc_dkg now = modify (λ s. record s { dkg_sessions = recent_sessions now s.dkg_sessions })

abbrev pub set_dkg : String → DkgStateC → Exec RecoveryServer Unit
set_dkg id st = modify (λ s. record s { dkg_sessions = insert id st s.dkg_sessions })

abbrev pub abort_dkg : String → Exec RecoveryServer Unit
abort_dkg id = modify (λ s. record s { dkg_sessions = erase id s.dkg_sessions })

unfoldable pub require_dkg : ℕ → String → Exec RecoveryServer DkgStateC
require_dkg now session_id = do
  gc_dkg now
  found ← gets (λ s. lookup session_id s.dkg_sessions)
  or_throw found (not_found no_code)

pub record FinalizedC : Type 0 where
  pub wallet_id : String
  pub party_id : ℕ
  pub mpc_public_key : String

abbrev decoded_all : (String → Bytes) → Option (List String) → Option (List Bytes)
decoded_all f none = none
decoded_all f (some cs) = some (map f cs)

module _ (env : RecoveryEnv) where
  unfoldable pub start_dkg : ℕ → String → String → String → Exec RecoveryServer WireMessage
  start_dkg now session_id user_id wallet_id = do
    gc_dkg now
    taken ← gets (λ s. is_some (lookup session_id s.dkg_sessions))
    throw_if taken (bad_request no_code)
    opened ← lift (env.keygen_wasm.open_keygen party_c)
    set_dkg session_id (record {
      session_id = session_id;
      user_id = user_id;
      wallet_id = wallet_id;
      state_b64 = env.base64.bytes_to_base64 opened.1;
      commitment_b64 = none;
      created_at = now;
    })
    pure (encode_wire_message env.base64 opened.0)

  abbrev handle_dkg :
      DkgStateC
      → List MpcMessage
      → Option (List Bytes)
      → Exec RecoveryServer (List MpcMessage × Bytes)
  handle_dkg st msgs commitments =
      lift
        (env.keygen_wasm.handle_keygen (env.base64.base64_to_bytes st.state_b64) msgs commitments)

  unfoldable pub handle_round1 :
      ℕ → String → List WireMessage → Exec RecoveryServer (List WireMessage × String)
  unfolding require_dkg
  handle_round1 now session_id all_round1 = do
    st ← require_dkg now session_id
    out ← handle_dkg st (filter_messages (decode_wire_messages env.base64 all_round1) party_c) none
    commitment ← lift (env.keygen_wasm.chain_code_commitment out.1)
    let commitment_b64 = env.base64.bytes_to_base64 commitment
    set_dkg session_id (record st {
      state_b64 = env.base64.bytes_to_base64 out.1;
      commitment_b64 = some commitment_b64;
    })
    pure (encode_wire_messages env.base64 out.0, commitment_b64)

  unfoldable pub handle_p2p :
      ℕ → String → List WireMessage → Option (List String) → Exec RecoveryServer (List WireMessage)
  unfolding require_dkg
  handle_p2p now session_id incoming commitments_b64 = do
    st ← require_dkg now session_id
    out ←
        handle_dkg st (select_messages (decode_wire_messages env.base64 incoming) party_c)
          (decoded_all env.base64.base64_to_bytes commitments_b64)
    set_dkg session_id (record st { state_b64 = env.base64.bytes_to_base64 out.1 })
    pure (encode_wire_messages env.base64 out.0)

  unfoldable pub handle_broadcast : ℕ → String → List WireMessage → Exec RecoveryServer Unit
  unfolding require_dkg
  handle_broadcast now session_id incoming = do
    st ← require_dkg now session_id
    out ← handle_dkg st (filter_messages (decode_wire_messages env.base64 incoming) party_c) none
    set_dkg session_id (record st { state_b64 = env.base64.bytes_to_base64 out.1 })

  unfoldable pub finalize : ℕ → String → String → Exec RecoveryServer FinalizedC
  unfolding require_dkg
  finalize now new_row_id session_id = do
    st ← require_dkg now session_id
    share ← lift (env.keygen_wasm.keyshare (env.base64.base64_to_bytes st.state_b64))
    let public_key_hex = env.public_key_to_hex share.0
    encrypted ← lift (env.encrypt_share_c share.1)
    existing ← find_share st.wallet_id
    assert_share_c_insert_allowed existing
    create_share
        (active_share now new_row_id st.wallet_id st.user_id party_c public_key_hex encrypted)
    abort_dkg session_id
    pure (record { wallet_id = st.wallet_id; party_id = party_c; mpc_public_key = public_key_hex })
