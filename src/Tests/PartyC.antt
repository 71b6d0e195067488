-- ===== src/Tests/PartyC.antt =====
-- The Recovery Server and the relay.
use selfmade_mpc_wallet.Prelude.{◌≡◌, refl, false, none, some, [], ◌∷◌, find, update}
use selfmade_mpc_wallet.Prelude.Dict.{lookup}
use selfmade_mpc_wallet.Errors.{returned, threw, conflict, no_code}
use selfmade_mpc_wallet.Exec.Post.{Post}
use selfmade_mpc_wallet.MpcCrypto.Routing.{MpcMessage, WireMessage}
use selfmade_mpc_wallet.RecoveryServer.{RecoveryServer, RecoveryEnv, RecoveryShare, share_of}
use selfmade_mpc_wallet.RecoveryServer.Shares.{
  UpsertShareC, SafeShare, insert_share_c, retire_share, load_active_share_c_bytes, status_retired,
}
use selfmade_mpc_wallet.RecoveryServer.Sign.{last_message}
use selfmade_mpc_wallet.RecoveryServer.History.{
  History, insert_share, sign_start, sign_round1, sign_round2, sign_round3, dkg_start, dkg_finalize,
  run, no_shares,
}
use selfmade_mpc_wallet.RecoveryServer.Retired.{retire_share-terminal}
use selfmade_mpc_wallet.RecoveryServer.SignedDigest.{SignedFor, last_message-SignedFor}
use selfmade_mpc_wallet.RecoveryClient.{answered}
use selfmade_mpc_wallet.BcSignRelay.{RelayEnv, sign_digest_bc_relay}
use selfmade_mpc_wallet.BcSignRelay.Laws.{RecoversTo, sign_digest_bc_relay-Closed}
use selfmade_mpc_wallet.BcSignRelay.Calls.{Closed}
use selfmade_mpc_wallet.Tests.Codes.{base64, bytes32, to_text, read}
use selfmade_mpc_wallet.Tests.Signing.{env, from_b}

abbrev from_c : MpcMessage
from_c = record { from_id = 2; to_id = some 1; payload = 6 ∷ [] }

abbrev pub party_c_env : RecoveryEnv
party_c_env = record {
  base64 = base64;
  sign_wasm = record env.wasm {
    handle_messages = λ state msgs. returned (from_c ∷ [], 9 ∷ state);
    last_message = λ state digest. returned (from_c, state);
  };
  keygen_wasm = record {
    open_keygen = λ party. returned (from_c, 1 ∷ []);
    handle_keygen = λ state msgs commitments. returned (from_c ∷ [], state);
    chain_code_commitment = λ state. returned (8 ∷ []);
    keyshare = λ state. returned (2 ∷ [], bytes32);
  };
  open_session = λ share. returned (from_c, 3 ∷ []);
  encrypt_share_c = λ share. returned "sealed";
  decrypt_share_c = λ sealed. returned bytes32;
  public_key_to_hex = λ key. "0x02";
}

unfoldable share_dto : UpsertShareC
unfolding to_text
share_dto = record {
  new_row_id = "c1";
  wallet_id = "w1";
  user_id = "alice";
  mpc_public_key = "0x02";
  share_c_base64 = to_text bytes32;
  party_id = none;
}

abbrev retired_dto : SafeShare
retired_dto = record {
  id = "c1";
  wallet_id = "w1";
  user_id = "alice";
  party_id = 2;
  mpc_public_key = "0x02";
  status = "RETIRED";
  created_at = 5;
  retired_at = some 7;
  has_encrypted_share = false;
}

abbrev past : History
past = (5, insert_share share_dto) ∷ []

abbrev later : History
later =
    (10, insert_share share_dto)
    ∷ (9, dkg_finalize "c2" "d1")
    ∷ (8, dkg_start "d1" "alice" "w1")
    ∷ []

abbrev at_last : RecoveryServer
at_last = run party_c_env later (retire_share 7 "w1" (run party_c_env past no_shares)).1

retire_share-terminal_example :
    (row : RecoveryShare) × (find (share_of "w1") at_last.shares ≡ some row)
    × (row.status ≡ status_retired)
    × (row.encrypted_share_c ≡ "")
    × ((load_active_share_c_bytes party_c_env "w1" at_last).0 ≡ threw (conflict no_code))
unfolding retire_share run insert_share_c share_dto find read update
retire_share-terminal_example = retire_share-terminal party_c_env past later 7 "w1" retired_dto refl

abbrev wire_b : WireMessage
wire_b = record { sender = 1; receiver = some 2; payload_b64 = "aab" }

abbrev rounds : History
rounds =
    (13, sign_round3 "s7" (wire_b ∷ []))
    ∷ (12, sign_round2 "s7" (wire_b ∷ []))
    ∷ (11, sign_round1 "s7" (wire_b ∷ []))
    ∷ (10, sign_start "s7" "w1" (to_text bytes32))
    ∷ (5, insert_share share_dto)
    ∷ []

last_message-SignedFor_example :
    Post
      (λ ms s'. SignedFor party_c_env rounds "s7" ms × (lookup "s7" s'.sign_sessions ≡ none))
      (λ _ _. Unit)
      (last_message party_c_env 14 "s7" (run party_c_env rounds no_shares))
last_message-SignedFor_example = last_message-SignedFor party_c_env rounds 14 "s7"

abbrev pub relay_env : RelayEnv
relay_env = record {
  wasm = env.wasm;
  base64 = base64;
  recover = env.recover;
  open_session = λ share. returned (from_b, 4 ∷ []);
  recovery = record { server = party_c_env; delivery = λ call. answered };
}

abbrev pub with_share_c : RecoveryServer
with_share_c = record {
  shares =
      record {
        id = "c1";
        wallet_id = "w1";
        user_id = "alice";
        party_id = 2;
        mpc_public_key = "0x02";
        encrypted_share_c = "sealed";
        status = "ACTIVE";
        created_at = 5;
        retired_at = none;
      }
      ∷ [];
  sign_sessions = [];
  dkg_sessions = [];
}

sign_digest_bc_relay-Closed_example :
    Post
      (λ sig s'. RecoversTo relay_env bytes32 "0xAb" sig × Closed "s7" with_share_c.shares tt s')
      (Closed "s7" with_share_c.shares)
      (sign_digest_bc_relay relay_env 20 "s7" (7 ∷ []) bytes32 "w1" "0xAb" with_share_c)
unfolding lookup
sign_digest_bc_relay-Closed_example =
    sign_digest_bc_relay-Closed relay_env 20 "s7" (7 ∷ []) bytes32 "w1" "0xAb" with_share_c refl
      refl refl
