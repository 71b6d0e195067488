-- ===== src/Server.antt =====
-- The state that the API server's handlers share: the main database, the sign sessions and the
-- failure tracker in memory, and the raw transactions handed to the node, newest last.
pub mod Laws
use selfmade_mpc_wallet.Prelude.{String, List}
use selfmade_mpc_wallet.Prelude.Dict.{Dict}
use selfmade_mpc_wallet.Exec.{Exec, zoom, transaction}
use selfmade_mpc_wallet.MainDb.{MainDb}
use selfmade_mpc_wallet.OtpFailureTracker.{OtpFailureTracker}
use selfmade_mpc_wallet.SignSession.{SignSessionState}

pub record Server : Type 0 where
  pub db : MainDb
  pub sign_sessions : Dict SignSessionState
  pub otp_failures : OtpFailureTracker
  pub broadcasts : List String

abbrev pub on_db : {A : Type 0} → Exec MainDb A → Exec Server A
on_db = zoom (λ s. s.db) (λ d s. record s { db = d })

abbrev pub on_otp : {A : Type 0} → Exec OtpFailureTracker A → Exec Server A
on_otp = zoom (λ s. s.otp_failures) (λ t s. record s { otp_failures = t })

-- `prisma.$transaction(f)`: a throw gives the database back as it was; memory keeps its writes.
abbrev pub db_transaction : {A : Type 0} → Exec Server A → Exec Server A
db_transaction = transaction (λ s. s.db) (λ d s. record s { db = d })
