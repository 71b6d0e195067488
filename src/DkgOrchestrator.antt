-- ===== src/DkgOrchestrator.antt =====
-- apps/api/src/mpc/dkg-orchestrator.service.ts: key generation, party B's side of it and its calls
-- of the Recovery Server. A handler is one step here, and one reading of the clock serves a call. A
-- session in the map is one object: what a handler writes to it stays when a later call throws.
-- The ids that a start draws, and that of the row of Share C, are arguments.
pub mod Rounds
pub mod Keeps
pub mod Done
pub mod OneLive
use selfmade_mpc_wallet.Prelude.{
  ℕ, ◌-◌, String, Bool, true, false, not, ◌&&◌, Option, none, some, List, [], ◌∷◌, ◌==◌, ltb, find,
  is_some, if◌then◌else◌,
}
use selfmade_mpc_wallet.Prelude.Dict.{Dict, lookup, insert, erase}
use selfmade_mpc_wallet.Errors.{
  Result, bad_request, conflict, not_found, no_code, live_wallet_exists,
}
use selfmade_mpc_wallet.Exec.{Exec, pure, gets, modify, or_throw, throw_if, zoom, ◌>>=◌, ◌>>◌}
use selfmade_mpc_wallet.MpcCrypto.Routing.{Bytes, WireMessage, Base64}
use selfmade_mpc_wallet.MainDb.{Wallet, MainDb, is_mpc}
use selfmade_mpc_wallet.Lifecycle.{is_live_wallet_status}
use selfmade_mpc_wallet.RecoveryServer.{RecoveryServer, KeygenWasm}
use selfmade_mpc_wallet.RecoveryClient.{RecoveryClient, request_dkg_abort}

pub data DkgStep : Type 0 where
  wait_round1_done wait_round2 wait_round3 wait_round4 wait_final done : DkgStep

pub record DkgSession : Type 0 where
  pub session_id : String
  pub user_id : String
  pub wallet_id : String
  pub state_b64 : String
  pub msg1a : WireMessage
  pub msg1b : WireMessage
  pub msg1c : WireMessage
  pub msg2b : Option (List WireMessage)
  pub msg2c : Option (List WireMessage)
  pub commitment_a : Option String
  pub commitment_b : Option String
  pub commitment_c : Option String
  pub msg3b : Option (List WireMessage)
  pub msg3c : Option (List WireMessage)
  pub msg4b : Option (List WireMessage)
  pub msg4c : Option (List WireMessage)
  pub step : DkgStep
  pub created_at : ℕ

-- The main database, the sessions in memory, and the Recovery Server.
pub record KeygenWorld : Type 0 where
  pub db : MainDb
  pub sessions : Dict DkgSession
  pub recovery : RecoveryServer

pub record DkgEnv : Type 0 where
  pub keygen : KeygenWasm
  pub base64 : Base64
  pub recovery : RecoveryClient
  pub encrypt_share_b : Bytes → Result String
  -- `publicKeyToHex` and `ethAddressFromPublicKey`, which hand over to the platform and to ethers
  pub public_key_to_hex : Bytes → String
  pub eth_address : Bytes → Result String
  -- `toLowerCase`
  pub to_lower_case : String → String

abbrev pub on_main_db : {A : Type 0} → Exec MainDb A → Exec KeygenWorld A
on_main_db = zoom (λ w. w.db) (λ d w. record w { db = d })

abbrev pub on_party_c : {A : Type 0} → Exec RecoveryServer A → Exec KeygenWorld A
on_party_c = zoom (λ w. w.recovery) (λ r w. record w { recovery = r })

abbrev pub set_session : String → DkgSession → Exec KeygenWorld Unit
set_session id st = modify (λ w. record w { sessions = insert id st w.sessions })

abbrev pub delete_session : String → Exec KeygenWorld Unit
delete_session id = modify (λ w. record w { sessions = erase id w.sessions })

abbrev pub dkg_session_ttl_ms : ℕ
dkg_session_ttl_ms = 900000

-- `now - s.createdAt > SESSION_TTL_MS`
abbrev pub is_overdue : ℕ → DkgSession → Bool
is_overdue now st = ltb dkg_session_ttl_ms (now - st.created_at)

-- `where: { userId, walletType: 'MPC', status: { in: LIVE_WALLET_STATUSES } }`
abbrev pub is_live_of : String → Wallet → Bool
is_live_of user_id w =
    w.user_id == user_id && (is_mpc w.wallet_type && is_live_wallet_status w.status)

unfoldable pub assert_no_live_wallet : String → Exec KeygenWorld Unit
assert_no_live_wallet user_id = do
  existing ← gets (λ w. is_some (find (is_live_of user_id) w.db.wallets))
  throw_if existing (conflict live_wallet_exists)

module _ (env : DkgEnv) (now : ℕ) where
  -- The loop of `gc` over the sessions there were; each one that is dropped is aborted on party C.
  unfoldable pub drop_overdue : Dict DkgSession → Exec KeygenWorld Unit
  drop_overdue [] = pure tt
  drop_overdue ((id, st) ∷ m) =
      let rest = drop_overdue m in
      if is_overdue now st
      then (delete_session id >> (on_party_c (request_dkg_abort env.recovery now id) >> rest))
      else rest

  unfoldable pub gc_sessions : Exec KeygenWorld Unit
  unfolding drop_overdue
  gc_sessions = do all ← gets (λ w. w.sessions); drop_overdue all

  unfoldable pub require_owned_dkg : String → String → Exec KeygenWorld DkgSession
  unfolding gc_sessions
  require_owned_dkg user_id session_id = do
    gc_sessions
    found ← gets (λ w. lookup session_id w.sessions)
    st ← or_throw found (not_found no_code)
    throw_if (not (st.user_id == user_id)) (not_found no_code)
    pure st

  abbrev abort_own : String → String → Option DkgSession → Exec KeygenWorld Unit
  abort_own user_id session_id none = pure tt
  abort_own user_id session_id (some st) =
      if st.user_id == user_id
      then (delete_session session_id >> on_party_c (request_dkg_abort env.recovery now session_id))
      else pure tt

  unfoldable pub abort_keygen : String → String → Exec KeygenWorld Unit
  abort_keygen user_id session_id = do
    found ← gets (λ w. lookup session_id w.sessions)
    abort_own user_id session_id found
