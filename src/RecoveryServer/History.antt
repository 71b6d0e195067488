-- ===== src/RecoveryServer/History.antt =====
-- The history of a Recovery Server (apps/recovery/src): the calls that the main server or an
-- operator makes on it, newest first, each with the clock's reading.
use selfmade_mpc_wallet.Prelude.{ℕ, String, Option, List, [], ◌∷◌}
use selfmade_mpc_wallet.MpcCrypto.Routing.{WireMessage}
use selfmade_mpc_wallet.RecoveryServer.{RecoveryServer, RecoveryEnv}
use selfmade_mpc_wallet.RecoveryServer.Shares.{UpsertShareC, insert_share_c, retire_share}
use selfmade_mpc_wallet.RecoveryServer.Sign
use selfmade_mpc_wallet.RecoveryServer.Dkg.{
  start_dkg, handle_round1, handle_p2p, handle_broadcast, finalize, abort_dkg,
}

pub data RecoveryCall : Type 0 where
  insert_share : UpsertShareC → RecoveryCall
  retire : (wallet_id : String) → RecoveryCall
  sign_start : (new_id wallet_id digest_b64 : String) → RecoveryCall
  sign_round1 sign_round2 sign_round3 : (session_id : String) → List WireMessage → RecoveryCall
  sign_last sign_abort : (session_id : String) → RecoveryCall
  dkg_start : (session_id user_id wallet_id : String) → RecoveryCall
  dkg_round1 dkg_broadcast : (session_id : String) → List WireMessage → RecoveryCall
  dkg_p2p : (session_id : String) → List WireMessage → Option (List String) → RecoveryCall
  dkg_finalize : (new_row_id session_id : String) → RecoveryCall
  dkg_abort : (session_id : String) → RecoveryCall

abbrev pub History : Type 0
History = List (ℕ × RecoveryCall)

module _ (env : RecoveryEnv) where
  -- The state that a call leaves, whether it returns or throws.
  unfoldable pub run_call : ℕ → RecoveryCall → RecoveryServer → RecoveryServer
  run_call now (insert_share dto) s = (insert_share_c env now dto s).1
  run_call now (retire wallet_id) s = (retire_share now wallet_id s).1
  run_call now (sign_start new_id wallet_id digest_b64) s =
      (Sign.start env now new_id wallet_id digest_b64 s).1
  run_call now (sign_round1 id msgs) s = (Sign.round1 env now id msgs s).1
  run_call now (sign_round2 id msgs) s = (Sign.round2 env now id msgs s).1
  run_call now (sign_round3 id msgs) s = (Sign.round3 env now id msgs s).1
  run_call now (sign_last id) s = (Sign.last_message env now id s).1
  run_call now (sign_abort id) s = (Sign.abort id s).1
  run_call now (dkg_start id user_id wallet_id) s = (start_dkg env now id user_id wallet_id s).1
  run_call now (dkg_round1 id msgs) s = (handle_round1 env now id msgs s).1
  run_call now (dkg_broadcast id msgs) s = (handle_broadcast env now id msgs s).1
  run_call now (dkg_p2p id msgs commitments) s = (handle_p2p env now id msgs commitments s).1
  run_call now (dkg_finalize row_id id) s = (finalize env now row_id id s).1
  run_call now (dkg_abort id) s = (abort_dkg id s).1

  unfoldable pub run : History → RecoveryServer → RecoveryServer
  unfolding run_call
  run [] s = s
  run ((now, c) ∷ older) s = run_call now c (run older s)

-- The server before its first call.
abbrev pub no_shares : RecoveryServer
no_shares = record { shares = []; sign_sessions = []; dkg_sessions = [] }
