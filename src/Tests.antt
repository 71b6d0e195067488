-- ===== src/Tests.antt =====
-- The theorems at concrete inputs.
mod Samples
mod Codes
mod Signing
mod Withdrawals
mod Recovery
mod Transfers
mod Starting
mod Messages
mod PartyC
mod Keygen
mod LastWithdrawals
