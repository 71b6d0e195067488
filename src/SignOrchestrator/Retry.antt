-- ===== src/SignOrchestrator/Retry.antt =====
-- A repeated `complete` (apps/api/src/mpc/sign-orchestrator.service.ts).
use selfmade_mpc_wallet.Prelude.{
  ℕ, String, ◌≡◌, refl, ◌∙◌, true, false, some, List, [], ◌∷◌, arith, find, find-update_other,
  if◌then◌else◌, Bool,
}
use selfmade_mpc_wallet.Prelude.Dict.{Dict}
use selfmade_mpc_wallet.Errors.{returned}
use selfmade_mpc_wallet.MpcCrypto.Routing.{WireMessage}
use selfmade_mpc_wallet.MainDb.{MainDb, Wallet, WithdrawRequest}
use selfmade_mpc_wallet.SignSession.{SignSessionState}
use selfmade_mpc_wallet.SignWasm.{SignEnv}
use selfmade_mpc_wallet.Server.{Server}
use selfmade_mpc_wallet.SignOrchestrator.{
  collected, expire_rows, expire_row, is_expired, is_processing_row, mark_expired,
}
use selfmade_mpc_wallet.SignOrchestrator.Complete.{
  complete, find_terminal_by_session, is_terminal_row, to_complete_result,
}

expire_row-find :
    (user_id id req : String) (ws : List Wallet) (db : MainDb)
    → find (is_terminal_row user_id id ws) (expire_row req db).withdraw_requests
      ≡ find (is_terminal_row user_id id ws) db.withdraw_requests
expire_row-find user_id id req ws db =
    find-update_other (is_terminal_row user_id id ws) (is_processing_row req) mark_expired
      (λ r h. (ground arith, ground arith)) db.withdraw_requests

expire_if-find :
    (b : Bool) (user_id id req : String) (ws : List Wallet) (db : MainDb)
    → find (is_terminal_row user_id id ws) (if b then expire_row req db else db).withdraw_requests
      ≡ find (is_terminal_row user_id id ws) db.withdraw_requests
expire_if-find true user_id id req ws db = expire_row-find user_id id req ws db
expire_if-find false user_id id req ws db = refl

expire_if-wallets :
    (b : Bool) (req : String) (db : MainDb)
    → (if b then expire_row req db else db).wallets ≡ db.wallets
expire_if-wallets true req db = refl
expire_if-wallets false req db = refl

pub expire_rows-find :
    (now : ℕ) (user_id id : String) (ws : List Wallet) (m : Dict SignSessionState) (db : MainDb)
    → find (is_terminal_row user_id id ws) (expire_rows now m db).withdraw_requests
      ≡ find (is_terminal_row user_id id ws) db.withdraw_requests
unfolding expire_rows
expire_rows-find now user_id id ws [] db = refl
expire_rows-find now user_id id ws ((k, st) ∷ m) db =
    expire_rows-find now user_id id ws m _
    ∙ expire_if-find (is_expired now st) user_id id st.withdraw_request_id ws db

pub expire_rows-wallets :
    (now : ℕ) (m : Dict SignSessionState) (db : MainDb)
    → (expire_rows now m db).wallets ≡ db.wallets
unfolding expire_rows
expire_rows-wallets now [] db = refl
expire_rows-wallets now ((k, st) ∷ m) db =
    expire_rows-wallets now m _ ∙ expire_if-wallets (is_expired now st) st.withdraw_request_id db

-- Where a BROADCASTED or EXECUTED withdrawal of the caller carries the session id, `complete`
-- answers with the recorded row, marked as a retry, whatever the session holds: nothing is signed,
-- broadcast or written but the removal of old sessions.
pub complete-retried :
    (env : SignEnv) (now : ℕ) (user_id id : String) (msg4a : List WireMessage) (s : Server)
    (row : WithdrawRequest)
    → find (is_terminal_row user_id id s.db.wallets) s.db.withdraw_requests ≡ some row
    → complete env now user_id id msg4a s
      ≡ (returned (to_complete_result row true), collected now s)
unfolding complete find_terminal_by_session
complete-retried env now user_id id msg4a s row h =
    rw
      (
        expire_rows-wallets now s.sign_sessions s.db,
        expire_rows-find now user_id id s.db.wallets s.sign_sessions s.db,
        h,
      )
      refl
