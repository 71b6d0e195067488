-- ===== src/Tests/Keygen.antt =====
-- The key generation.
use selfmade_mpc_wallet.Prelude.{◌≡◌, refl, none, [], ◌∷◌, map, find}
use selfmade_mpc_wallet.Prelude.Dict.{lookup}
use selfmade_mpc_wallet.Errors.{returned}
use selfmade_mpc_wallet.Exec.Post.{Post}
use selfmade_mpc_wallet.MpcCrypto.Routing.{WireMessage}
use selfmade_mpc_wallet.RecoveryServer.Dkg.{recent_sessions, finalize}
use selfmade_mpc_wallet.RecoveryClient.{answered}
use selfmade_mpc_wallet.DkgOrchestrator.{KeygenWorld, DkgSession, DkgEnv, wait_final}
use selfmade_mpc_wallet.DkgOrchestrator.Rounds.{complete_keygen}
use selfmade_mpc_wallet.DkgOrchestrator.Done.{KeygenDone, complete_keygen-Done}
use selfmade_mpc_wallet.DkgOrchestrator.OneLive.{OneLive}
use selfmade_mpc_wallet.Tests.Codes.{base64}
use selfmade_mpc_wallet.Tests.PartyC.{party_c_env}

abbrev dkg_env : DkgEnv
dkg_env = record {
  keygen = party_c_env.keygen_wasm;
  base64 = base64;
  recovery = record { server = party_c_env; delivery = λ call. answered };
  encrypt_share_b = λ share. returned "sealed b";
  public_key_to_hex = λ key. "0x02";
  eth_address = λ key. returned "0xAb";
  to_lower_case = λ text. text;
}

abbrev wire : WireMessage
wire = record { sender = 0; receiver = none; payload_b64 = "" }

abbrev at_final : DkgSession
at_final = record {
  session_id = "d1";
  user_id = "alice";
  wallet_id = "w1";
  state_b64 = "";
  msg1a = wire;
  msg1b = wire;
  msg1c = wire;
  msg2b = none;
  msg2c = none;
  commitment_a = none;
  commitment_b = none;
  commitment_c = none;
  msg3b = none;
  msg3c = none;
  msg4b = none;
  msg4c = none;
  step = wait_final;
  created_at = 8;
}

abbrev ready : KeygenWorld
ready = record {
  db = record { wallets = []; withdraw_requests = []; audit_logs = [] };
  sessions = ("d1", at_final) ∷ [];
  recovery = record {
    shares = [];
    sign_sessions = [];
    dkg_sessions =
        (
          "d1",
          record {
            session_id = "d1";
            user_id = "alice";
            wallet_id = "w1";
            state_b64 = "";
            commitment_b64 = none;
            created_at = 8;
          },
        )
        ∷ [];
  };
}

-- The run stores Share C under the new wallet.
keygen_run_shares :
    map
      (λ row. row.wallet_id)
      ((complete_keygen dkg_env 9 "c1" "alice" "d1" ready).1.recovery.shares)
    ≡ "w1" ∷ []
unfolding complete_keygen finalize find lookup recent_sessions
keygen_run_shares = refl

complete_keygen-Done_example :
    Post
      (KeygenDone dkg_env "alice" "d1" ready)
      (λ _ w'. w'.db.wallets ≡ [])
      (complete_keygen dkg_env 9 "c1" "alice" "d1" ready)
complete_keygen-Done_example = complete_keygen-Done dkg_env 9 "alice" "d1" "c1" ready
