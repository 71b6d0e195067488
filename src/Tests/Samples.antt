-- ===== src/Tests/Samples.antt =====
-- Test data: a user with one MPC wallet that has a broadcasted withdrawal in flight.
use selfmade_mpc_wallet.Prelude.{none, some, [], ◌∷◌}
use selfmade_mpc_wallet.Json.{Json, text, object, field, end}
use selfmade_mpc_wallet.MainDb.{Wallet, WithdrawRequest, MainDb, mpc, active, broadcasted}
use selfmade_mpc_wallet.Chain.{GetReceipt, mined}
use selfmade_mpc_wallet.OtpFailureTracker.{new_tracker}
use selfmade_mpc_wallet.Server.{Server}

abbrev pub wallet : Wallet
wallet = record {
  id = "w1";
  user_id = "alice";
  wallet_type = mpc;
  status = active;
  address = "0xAb";
  mpc_public_key = none;
  encrypted_share_b = some "sealed";
  created_at = 1;
  retired_at = none;
}

abbrev pub normal_ab : Json
normal_ab = object (field "mode" (text "NORMAL_AB") end)

abbrev pub row : WithdrawRequest
row = record {
  id = "r1";
  wallet_id = "w1";
  amount = 7;
  to_address = "0xCd";
  status = broadcasted;
  created_at = 2;
  tx_hash = some "0xhash";
  failure_reason = none;
  processing_at = none;
  broadcasted_at = some 3;
  confirmed_at = none;
  finalized_at = none;
  nonce = none;
  idempotency_key = some "ab:w1:k";
  metadata = normal_ab;
}

abbrev pub db : MainDb
db = record { wallets = wallet ∷ []; withdraw_requests = row ∷ []; audit_logs = [] }

abbrev pub server : Server
server = record { db = db; sign_sessions = []; otp_failures = new_tracker; broadcasts = [] }

abbrev pub mined_well : GetReceipt
mined_well hash = mined (some 1)
