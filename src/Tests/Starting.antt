-- ===== src/Tests/Starting.antt =====
-- A start of a normal withdrawal while an older one is BROADCASTED and mined.
use selfmade_mpc_wallet.Assets.{eth}
use selfmade_mpc_wallet.Prelude.{◌≡◌, ◌⊎◌, true, none, some, [], ◌∷◌, arith, count, eq_iff}
use selfmade_mpc_wallet.Errors.{returned}
use selfmade_mpc_wallet.Exec.Post.{Post}
use selfmade_mpc_wallet.MainDb.{processing}
use selfmade_mpc_wallet.NormalAb.{is_normal_ab_metadata}
use selfmade_mpc_wallet.SignOrchestrator.Complete.{is_terminal_ab_status}
use selfmade_mpc_wallet.SignOrchestrator.Reuse.{
  reuse_or_conflict_existing, reuse_or_conflict_existing-Post,
}
use selfmade_mpc_wallet.SignOrchestrator.Start.{StartEnv, StartRequest, wei}
use selfmade_mpc_wallet.SignOrchestrator.Begin.{start}
use selfmade_mpc_wallet.SignOrchestrator.OneOpen.{OneOpen}
use selfmade_mpc_wallet.SignOrchestrator.StartKeeps.{start-OneOpen}
use selfmade_mpc_wallet.Tests.Codes.{bytes32}
use selfmade_mpc_wallet.Tests.Samples.{row, server, mined_well}
use selfmade_mpc_wallet.Tests.Signing.{env, from_b}
use selfmade_mpc_wallet.Tests.Transfers.{node}

abbrev start_env : StartEnv
start_env = record {
  env = env;
  provider = node;
  get_receipt = mined_well;
  parse_ether = λ t. returned (wei 7);
  decrypt_share_b = λ t. returned (1 ∷ []);
  test_token_address = none;
  unsigned_digest = λ tx. bytes32;
  open_session = λ share. returned (from_b, share);
}

abbrev request : StartRequest
request = record {
  user_id = "alice";
  wallet_id = "w1";
  to_address = "0xCd";
  amount = "7";
  idempotency_key = some "k2";
  asset = none;
  new_session_id = "s9";
  new_row_id = "r9";
}

server-OneOpen : OneOpen server
unfolding count is_normal_ab_metadata
server-OneOpen v = ground (arith, eq_iff row.wallet_id v)

start-OneOpen_example : OneOpen (start start_env 20 request server).1
start-OneOpen_example = start-OneOpen start_env 20 request server server-OneOpen

reuse_or_conflict_existing-Post_example :
    Post
      (λ _ s'.
        (s'.db ≡ server.db)
        × (s'.broadcasts ≡ server.broadcasts)
        × (row.wallet_id ≡ "w1")
        × (node.get_address row.to_address ≡ node.get_address "0xCd")
        × (row.amount ≡ 7)
        × ((is_terminal_ab_status row.status ≡ true) ⊎ (row.status ≡ processing)))
      (λ _ s'. s' ≡ server)
      (reuse_or_conflict_existing node.get_address "alice" "w1" row "0xCd" 7 eth server)
reuse_or_conflict_existing-Post_example =
    reuse_or_conflict_existing-Post node.get_address "alice" "w1" row "0xCd" 7 eth server
