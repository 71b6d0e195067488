-- ===== src/Chain.antt =====
-- What the code asks of a Sepolia node (ethers' `Provider`, a library): the answers are arguments.
use selfmade_mpc_wallet.Prelude.{ℕ, String, Option}

-- `provider.getTransactionReceipt(hash)`: it throws, finds none, or finds a mined transaction
-- whose status is 1 (success), 0 (reverted) or missing.
pub data ReceiptLookup : Type 0 where
  lookup_failed not_mined : ReceiptLookup
  mined : Option ℕ → ReceiptLookup

abbrev pub GetReceipt : Type 0
GetReceipt = String → ReceiptLookup
