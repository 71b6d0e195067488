-- ===== src/SignWasm.antt =====
-- What the sign orchestrator (apps/api/src/mpc/sign-orchestrator.service.ts) calls and the
-- repository does not hold: the WASM library of the threshold protocol, the node and ethers.
-- A `SignSession` is the bytes that its `toBytes` gives, from which `fromBytes` makes it
-- again: on those bytes it does not throw, and what may is the call that follows.
use selfmade_mpc_wallet.Prelude.{String, Bool, List}
use selfmade_mpc_wallet.Errors.{Error, Result}
use selfmade_mpc_wallet.MpcCrypto.Routing.{Bytes, MpcMessage, Base64}
use selfmade_mpc_wallet.MpcCrypto.Ethereum.{MpcEcdsaSignature, RecoverAddress}
use selfmade_mpc_wallet.SignSession.{UnsignedTxFields}

pub record SignWasm : Type 0 where
  pub handle_messages : Bytes → List MpcMessage → Result (List MpcMessage × Bytes)
  pub last_message : Bytes → Bytes → Result (MpcMessage × Bytes)
  -- the two halves r and s
  pub combine : Bytes → List MpcMessage → Result (Bytes × Bytes)

pub record SignEnv : Type 0 where
  pub wasm : SignWasm
  pub base64 : Base64
  pub recover : RecoverAddress
  -- `Transaction.from(tx)` with a signature, serialized
  pub serialize_signed : UnsignedTxFields → MpcEcdsaSignature → Result String
  -- `provider.broadcastTransaction(raw)`: the hash, or a throw
  pub broadcast_transaction : String → Result String
  -- `response.wait(1)` for that hash comes back
  pub wait_succeeds : String → Bool
  -- `String(err.message || …).slice(0, 300)`: the text of an exception
  pub failure_text : Error → String
