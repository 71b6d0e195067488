-- ===== src/SignSession.antt =====
-- `SignSessionState` of apps/api/src/mpc/sign-orchestrator.service.ts: a normal A+B signing in
-- progress, party B's side of it. Wei amounts and fees, which the source keeps as decimal texts, are numbers.
use selfmade_mpc_wallet.Prelude.{ℕ, String, Option, List}
use selfmade_mpc_wallet.MpcCrypto.Routing.{WireMessage}

pub record UnsignedTxFields : Type 0 where
  pub to : String
  pub value : ℕ
  pub nonce : ℕ
  pub gas_limit : ℕ
  pub max_fee_per_gas : ℕ
  pub max_priority_fee_per_gas : ℕ
  pub chain_id : ℕ
  -- the characters of the calldata in hexadecimal
  pub calldata : List ℕ

pub data SignStep : Type 0 where
  wait_msg1a wait_msg2a wait_msg3a wait_msg4a completing done : SignStep

pub record SignSessionState : Type 0 where
  pub session_id : String
  pub user_id : String
  pub wallet_id : String
  pub withdraw_request_id : String
  pub state_b64 : String
  pub msg1b : WireMessage
  pub msg2b : Option (List WireMessage)
  pub msg3b : Option (List WireMessage)
  pub digest_b64 : String
  pub tx : UnsignedTxFields
  pub address : String
  pub step : SignStep
  pub created_at : ℕ
