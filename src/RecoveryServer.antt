-- ===== src/RecoveryServer.antt =====
-- The Recovery Server (apps/recovery), which keeps Share C: its table of shares
-- (apps/recovery/prisma/schema.prisma) and the signing and key generation sessions in its memory.
-- It calls the WASM library of the threshold protocol and the cipher of its shares, which are parameters.
pub mod Shares
pub mod Sign
pub mod Dkg
pub mod History
pub mod Untouched
pub mod Retired
pub mod Purposes
pub mod SignedDigest
use selfmade_mpc_wallet.Prelude.{ℕ, String, Bool, Option, List, ◌==◌}
use selfmade_mpc_wallet.Prelude.Dict.{Dict}
use selfmade_mpc_wallet.Errors.{Result}
use selfmade_mpc_wallet.Exec.{Exec, zoom}
use selfmade_mpc_wallet.MpcCrypto.Routing.{Bytes, MpcMessage, WireMessage, Base64}
use selfmade_mpc_wallet.SignWasm.{SignWasm}

-- `MpcRecoveryShare`
pub record RecoveryShare : Type 0 where
  pub id : String
  pub wallet_id : String
  pub user_id : String
  pub party_id : ℕ
  pub mpc_public_key : String
  pub encrypted_share_c : String
  pub status : String
  pub created_at : ℕ
  pub retired_at : Option ℕ

pub data SignStepC : Type 0 where
  wait_msg1b wait_msg2b wait_msg3b wait_last done : SignStepC

-- `SignSessionState` of apps/recovery/src/sign/sign.service.ts
pub record SignStateC : Type 0 where
  pub session_id : String
  pub wallet_id : String
  pub state_b64 : String
  pub msg1c : WireMessage
  pub msg2c : Option (List WireMessage)
  pub msg3c : Option (List WireMessage)
  pub digest_b64 : String
  pub step : SignStepC
  pub created_at : ℕ

-- `DkgSessionState` of apps/recovery/src/dkg/dkg.service.ts
pub record DkgStateC : Type 0 where
  pub session_id : String
  pub user_id : String
  pub wallet_id : String
  pub state_b64 : String
  pub commitment_b64 : Option String
  pub created_at : ℕ

pub record RecoveryServer : Type 0 where
  pub shares : List RecoveryShare
  pub sign_sessions : Dict SignStateC
  pub dkg_sessions : Dict DkgStateC

-- `new KeygenSession(3, 2, party)` with its first message, and the rest of the protocol on the
-- bytes of a session.
pub record KeygenWasm : Type 0 where
  pub open_keygen : ℕ → Result (MpcMessage × Bytes)
  pub handle_keygen :
      Bytes → List MpcMessage → Option (List Bytes) → Result (List MpcMessage × Bytes)
  pub chain_code_commitment : Bytes → Result Bytes
  -- `keyshare()`: its public key and its bytes
  pub keyshare : Bytes → Result (Bytes × Bytes)

pub record RecoveryEnv : Type 0 where
  pub base64 : Base64
  pub sign_wasm : SignWasm
  pub keygen_wasm : KeygenWasm
  -- `new SignSession(Keyshare.fromBytes(share), 'm')`, its first message, and its `toBytes`
  pub open_session : Bytes → Result (MpcMessage × Bytes)
  -- apps/recovery/src/crypto/share-c-encryption.ts, with the key of the process
  pub encrypt_share_c : Bytes → Result String
  pub decrypt_share_c : String → Result Bytes
  -- `publicKeyToHex`
  pub public_key_to_hex : Bytes → String

abbrev pub on_shares : {A : Type 0} → Exec (List RecoveryShare) A → Exec RecoveryServer A
on_shares = zoom (λ s. s.shares) (λ t s. record s { shares = t })

abbrev pub share_of : String → RecoveryShare → Bool
share_of wallet_id row = row.wallet_id == wallet_id
