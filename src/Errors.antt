-- ===== src/Errors.antt =====
-- The exceptions of the API server (apps/api/src/common/errors/mpc-error-codes.ts and the
-- exception classes of NestJS) and the result of a call that may throw.
-- Texts meant for people are left out; the class is kept, with the code that the program gives.
use selfmade_mpc_wallet.Prelude.{ℕ, ◌≡◌, ap}

pub data Code : Type 0 where
  wallet_retired wallet_not_found otp_invalid otp_locked otp_format : Code
  emergency_state_invalid emergency_withdraw_failed insufficient_gas share_b_missing : Code
  invalid_address live_wallet_exists validation_failed idempotency_conflict : Code
  sign_session_busy sign_session_gone transaction_pending : Code
  -- an exception that carries a message only
  no_code : Code

-- The messages of a plain `Error` that the program tells apart.
pub data Message : Type 0 where
  zero_balance zero_token_balance insufficient_gas_balance balance_below_fee other : Message
  -- `OTP_LOCKED:<seconds>`
  otp_locked_for : ℕ → Message

pub data Error : Type 0 where
  bad_request conflict not_found gone unauthorized : Code → Error
  forbidden service_unavailable : Error
  -- Prisma's refusals: no row to update (P2025), and a unique key taken (P2002)
  record_not_found unique_violation : Error
  -- a plain `Error`, thrown by the program or by a library that it calls
  plain : Message → Error

pub data Result {ℓ} (A : Type ℓ) : Type ℓ where
  returned : A → Result A
  threw : Error → Result A

value_or : {A : Type 0} → A → Result A → A
value_or d (returned a) = a
value_or d (threw e) = d

pub returned-injective : {A : Type 0} {a b : A} → returned a ≡ returned b → a ≡ b
unfolding value_or
returned-injective {a = a} h = ap (value_or a) h
