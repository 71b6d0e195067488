-- ===== src/MainDb.antt =====
-- The main database (apps/api/prisma/schema.prisma) and the queries that the services make on
-- it. A table is the list of its rows, oldest first. Prisma itself is a library: a query is
-- modelled by what it documents (a filter, an update of the rows that fit, P2025 for a missing
-- row, P2002 for a unique key that is taken). A column that holds a wei amount in decimal holds the number here.
pub mod Rewrites
use selfmade_mpc_wallet.Prelude.{
  ℕ, String, Bool, true, false, not, ◌||◌, Option, none, some, List, [], ◌∷◌, ◌++◌, ◌==◌, is_some,
  find, update,
}
use selfmade_mpc_wallet.Errors.{record_not_found, unique_violation}
use selfmade_mpc_wallet.Exec.{Exec, throw_if, gets, modify, ◌>>◌}
use selfmade_mpc_wallet.Json.{Json}

pub data WalletType : Type 0 where
  multisig sss kms backend_sec mpc policy_guard : WalletType

pub data WalletStatus : Type 0 where
  active recovery_pending retiring retired : WalletStatus

pub data WithdrawStatus : Type 0 where
  pending approved queued processing broadcasted executed rejected failed expired : WithdrawStatus

pub record Wallet : Type 0 where
  pub id : String
  pub user_id : String
  pub wallet_type : WalletType
  pub status : WalletStatus
  pub address : String
  pub mpc_public_key : Option String
  pub encrypted_share_b : Option String
  pub created_at : ℕ
  pub retired_at : Option ℕ

pub record WithdrawRequest : Type 0 where
  pub id : String
  pub wallet_id : String
  pub amount : ℕ
  pub to_address : String
  pub status : WithdrawStatus
  pub created_at : ℕ
  pub tx_hash : Option String
  pub failure_reason : Option String
  pub processing_at : Option ℕ
  pub broadcasted_at : Option ℕ
  pub confirmed_at : Option ℕ
  pub finalized_at : Option ℕ
  pub nonce : Option ℕ
  pub idempotency_key : Option String
  pub metadata : Json

pub data AuditEvent : Type 0 where
  mpc_wallet_created recovery_file_created browser_share_recovered : AuditEvent
  withdraw_requested withdraw_completed emergency_otp_failed : AuditEvent
  emergency_recovery_started emergency_recovery_cancelled : AuditEvent
  emergency_withdraw_requested emergency_withdraw_completed emergency_withdraw_failed : AuditEvent
  wallet_retired : AuditEvent

pub record WithdrawalAuditLog : Type 0 where
  pub wallet_id : String
  pub user_id : String
  pub withdraw_request_id : Option String
  pub event_type : AuditEvent

pub record MainDb : Type 0 where
  pub wallets : List Wallet
  pub withdraw_requests : List WithdrawRequest
  pub audit_logs : List WithdrawalAuditLog

abbrev pub is_mpc : WalletType → Bool
is_mpc mpc = true
is_mpc _ = false

abbrev pub same_wallet_type : WalletType → WalletType → Bool
same_wallet_type multisig multisig = true
same_wallet_type sss sss = true
same_wallet_type kms kms = true
same_wallet_type backend_sec backend_sec = true
same_wallet_type mpc mpc = true
same_wallet_type policy_guard policy_guard = true
same_wallet_type _ _ = false

abbrev pub wallet_has_id : String → Wallet → Bool
wallet_has_id k w = w.id == k

abbrev pub request_has_id : String → WithdrawRequest → Bool
request_has_id k r = r.id == k

abbrev pub has_key : String → Option String → Bool
has_key k none = false
has_key k (some j) = j == k

abbrev pub request_has_key : String → WithdrawRequest → Bool
request_has_key k r = has_key k r.idempotency_key

-- wallet.findUnique({ where: { id } })
abbrev pub find_wallet : String → Exec MainDb (Option Wallet)
find_wallet k = gets (λ db. find (wallet_has_id k) db.wallets)

-- wallet.update({ where: { id }, data }). No caller moves a wallet out of RETIRED, so the partial unique
-- index on `userId` and `walletType` is not in its way.
abbrev pub update_wallet : String → (Wallet → Wallet) → Exec MainDb Unit
update_wallet k f db =
    (throw_if (not (is_some (find (wallet_has_id k) db.wallets))) record_not_found
        >> modify (λ d. record d { wallets = update (wallet_has_id k) f d.wallets }))
      db

-- withdrawRequest.findUnique({ where: { id } })
abbrev pub find_request : String → Exec MainDb (Option WithdrawRequest)
find_request k = gets (λ db. find (request_has_id k) db.withdraw_requests)

-- withdrawRequest.findUnique({ where: { idempotencyKey } })
abbrev pub find_request_by_key : String → Exec MainDb (Option WithdrawRequest)
find_request_by_key k = gets (λ db. find (request_has_key k) db.withdraw_requests)

-- withdrawRequest.updateMany({ where, data }): no row that fits is no error.
abbrev pub update_requests :
    (WithdrawRequest → Bool) → (WithdrawRequest → WithdrawRequest) → Exec MainDb Unit
update_requests p f =
    modify (λ db. record db { withdraw_requests = update p f db.withdraw_requests })

-- withdrawRequest.update({ where: { id }, data })
abbrev pub update_request : String → (WithdrawRequest → WithdrawRequest) → Exec MainDb Unit
update_request k f db =
    (throw_if (not (is_some (find (request_has_id k) db.withdraw_requests))) record_not_found
        >> update_requests (request_has_id k) f)
      db

abbrev pub key_taken : Option String → List WithdrawRequest → Bool
key_taken none rows = false
key_taken (some k) rows = is_some (find (request_has_key k) rows)

-- withdrawRequest.create({ data }): the primary key and `idempotencyKey` are unique.
abbrev pub create_request : WithdrawRequest → Exec MainDb Unit
create_request row db =
    (throw_if
          (is_some (find (request_has_id row.id) db.withdraw_requests)
            || key_taken row.idempotency_key db.withdraw_requests)
          unique_violation
        >> modify (λ d. record d { withdraw_requests = d.withdraw_requests ++ row ∷ [] }))
      db

-- `audit.write` (audit.service.ts). It keeps no state but the log.
abbrev pub write_audit : WithdrawalAuditLog → Exec MainDb Unit
write_audit log = modify (λ db. record db { audit_logs = db.audit_logs ++ log ∷ [] })
