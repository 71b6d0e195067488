-- ===== src/Tests/LastWithdrawals.antt =====
-- The emergency withdrawal of a wallet with a share on each server.
use selfmade_mpc_wallet.Prelude.{
  ◌≡◌, refl, sym, ap, true, some, [], ◌∷◌, ◌==◌, filter, sort_by, insert_by, find, update,
}
use selfmade_mpc_wallet.Errors.{returned, returned-injective}
use selfmade_mpc_wallet.Exec.Post.{Post}
use selfmade_mpc_wallet.Json.{text, object, field, end}
use selfmade_mpc_wallet.MainDb.{MainDb, WithdrawRequest, recovery_pending, executed, broadcasted}
use selfmade_mpc_wallet.Assets.{eth}
use selfmade_mpc_wallet.SignSession.{UnsignedTxFields}
use selfmade_mpc_wallet.EthTransfer.{sepolia_chain_id}
use selfmade_mpc_wallet.EmergencyBc.{
  as_emergency_bc_metadata, starts_0x, settle_open_emergency_bc_or_throw,
}
use selfmade_mpc_wallet.MainDb.Rewrites.{Rewrites}
use selfmade_mpc_wallet.Prelude.{
  count, arith, false, String, ◌+◌, ◌≤◌, if◌then◌else◌, Bool-cases, inl, inr, eq_iff,
}
use selfmade_mpc_wallet.EmergencyBc.Closing.{EmergencyClosing}
use selfmade_mpc_wallet.EmergencyBc.Outcomes.{settle_emergency-Rewrites}
use selfmade_mpc_wallet.EmergencyBc.Settled.{open_emergency, settle_emergency-clear}
use selfmade_mpc_wallet.Server.{db_transaction}
use selfmade_mpc_wallet.LastWithdraw.{World, LastEnv}
use selfmade_mpc_wallet.LastWithdraw.Sweep.{SweepParams, sign_persist_broadcast_wait}
use selfmade_mpc_wallet.LastWithdraw.Assets.{LastRequest}
use selfmade_mpc_wallet.LastWithdraw.Execute.{enter_retiring, execute_last_withdraw}
use selfmade_mpc_wallet.LastWithdraw.Persist.{Recorded, sign_persist_broadcast_wait-Recorded}
use selfmade_mpc_wallet.LastWithdraw.Retires.{EnteredRetiring, enter_retiring-Entered}
use selfmade_mpc_wallet.LastWithdraw.Completes.{
  Completed, NotRetired, execute_last_withdraw-Completed,
}
use selfmade_mpc_wallet.Tests.Samples.{wallet, row, db, server, mined_well}
use selfmade_mpc_wallet.Tests.Codes.{bytes32}
use selfmade_mpc_wallet.Tests.Transfers.{node}
use selfmade_mpc_wallet.Tests.PartyC.{relay_env, with_share_c}

abbrev sweep_row : WithdrawRequest
sweep_row = record row {
  id = "r2";
  metadata = object (field "mode" (text "EMERGENCY_BC_RELAY") (field "asset" (text "ETH") end));
}

abbrev swept_db : MainDb
swept_db = record db { withdraw_requests = row ∷ sweep_row ∷ [] }

settle_emergency-clear_example :
    open_emergency "w1" (settle_open_emergency_bc_or_throw mined_well 9 "w1" swept_db).1 ≡ 0
unfolding settle_open_emergency_bc_or_throw filter sort_by insert_by find update
    as_emergency_bc_metadata
settle_emergency-clear_example = settle_emergency-clear mined_well 9 "w1" swept_db refl

abbrev first_id : String
first_id = "r1"

abbrev second_id : String
second_id = "r2"

not_both :
    (k : String) → (if first_id == k then 1 else 0) + ((if second_id == k then 1 else 0) + 0) ≤ 1
not_both k = elim (Bool-cases (first_id == k)) [
  | inr n ↦ rw n (ground arith)
  | inl e ↦ elim (Bool-cases (second_id == k)) [
    | inr n ↦ rw n (ground arith)
    | inl f ↦
        let same : first_id ≡ second_id =
          ground (arith, e, f, eq_iff first_id k, eq_iff second_id k) in
        let other : (first_id == second_id) ≡ false = refl in
        absurd (ground (arith, same, other, eq_iff first_id second_id))
  ]
]

settle_emergency-Rewrites_example :
    Rewrites
      (EmergencyClosing "w1" mined_well 9)
      swept_db
      (settle_open_emergency_bc_or_throw mined_well 9 "w1" swept_db).1
unfolding count
settle_emergency-Rewrites_example = settle_emergency-Rewrites mined_well 9 "w1" swept_db not_both

abbrev last_env : LastEnv
last_env = record {
  relay = relay_env;
  provider = node;
  get_receipt = mined_well;
  totp = λ user_id otp. returned (otp == "123456");
  token_setting = some " 0xEf ";
  decrypt_share_b = λ sealed. returned (7 ∷ []);
  unsigned_digest = λ tx. bytes32;
  serialize_signed = λ tx signature. returned "0xraw";
  signed_raw_tx_hash = λ raw. returned "0xhash3";
  broadcast_transaction = λ raw. returned "0xhash3";
  wait_succeeds = λ hash. true;
  failure_text = λ e. "failed";
}

abbrev world : World
world = record {
  api = record server {
    db = record db { wallets = record wallet { status = recovery_pending } ∷ [] };
  };
  recovery = with_share_c;
}

abbrev request : LastRequest
request = record {
  user_id = "alice";
  wallet_id = "w1";
  to_address = "0xCd";
  otp = "123456";
  token_row_id = "r7";
  token_session_id = "s7";
  eth_row_id = "r8";
  eth_session_id = "s8";
  skipped_row_id = "r9";
}

execute_last_withdraw-Completed_example :
    Post
      (λ _ w'. Completed last_env 20 request world w')
      (λ _ w'. NotRetired "w1" world w')
      (execute_last_withdraw last_env 20 request world)
execute_last_withdraw-Completed_example = execute_last_withdraw-Completed last_env 20 request world

enter_retiring-Entered_example :
    Post
      (EnteredRetiring "w1" world.api)
      (λ _ s'. (s'.db ≡ world.api.db) × (s'.broadcasts ≡ []))
      (db_transaction (enter_retiring last_env 20 request "w1") world.api)
enter_retiring-Entered_example = enter_retiring-Entered last_env 20 request "w1" world.api

abbrev sweep_tx : UnsignedTxFields
sweep_tx = record {
  to = "0xCd";
  value = 958000;
  nonce = 4;
  gas_limit = 21000;
  max_fee_per_gas = 2;
  max_priority_fee_per_gas = 1;
  chain_id = sepolia_chain_id;
  calldata = 48 ∷ 120 ∷ [];
}

abbrev sweep_params : SweepParams
sweep_params = record {
  share_b = 7 ∷ [];
  wallet_id = "w1";
  expected_address = "0xAb";
  to_address = "0xCd";
  tx = sweep_tx;
  amount = 958000;
  asset = eth;
  metadata_extra = end;
  new_row_id = "r8";
  new_session_id = "s8";
}

sign_persist_broadcast_wait-Recorded_example :
    Post
      (λ res w'. (res.status ≡ executed) × Recorded last_env "r8" executed world.api w'.api)
      (λ _ w'. Recorded last_env "r8" broadcasted world.api w'.api)
      (sign_persist_broadcast_wait last_env 20 sweep_params world)
sign_persist_broadcast_wait-Recorded_example =
    sign_persist_broadcast_wait-Recorded last_env 20 sweep_params
      (λ tx sig raw h. ap starts_0x (sym (returned-injective h))) world
