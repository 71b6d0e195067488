-- ===== src/EthTransfer/Prepared.antt =====
-- What a prepared transfer (apps/api/src/mpc/eth-transfer.ts) is worth, and when there is one.
use selfmade_mpc_wallet.Prelude.{ℕ, ◌+◌, ◌-◌, ◌*◌, ◌≤◌, ◌<◌, String, ◌≡◌, ◌≢◌, refl, arith, eq_iff}
use selfmade_mpc_wallet.Errors.{returned}
use selfmade_mpc_wallet.SignSession.{UnsignedTxFields}
use selfmade_mpc_wallet.TxData.Normal.{normalize_tx_data-canonical}
use selfmade_mpc_wallet.EthTransfer.{
  Provider, PreparedTransfer, FeeData, sepolia_chain_id, transfer_gas_limit, zero_x, resolve_fees,
  prepare_full_balance_transfer, prepare_amount_transfer, prepare_erc20_amount_transfer,
}

module _ (p : Provider) (from_address to_address : String) where
  -- A sweep that is prepared sends a positive amount which, with the most that the gas can cost,
  -- is the node's balance of the sender; the transaction is on Sepolia, with a plain transfer's
  -- gas, to the receiver.
  pub prepare_full_balance_transfer-exact :
      (from : String) (t : PreparedTransfer)
      → p.get_address from_address ≡ returned from
      → prepare_full_balance_transfer p from_address to_address ≡ returned t
      → (p.get_balance from ≡ returned (t.tx.value + t.tx.gas_limit * t.tx.max_fee_per_gas))
        × (t.value_wei ≡ t.tx.value)
        × (0 < t.value_wei)
        × (t.tx.gas_limit ≡ transfer_gas_limit)
        × (t.tx.chain_id ≡ sepolia_chain_id)
        × (p.get_address to_address ≡ returned t.tx.to)
  unfolding prepare_full_balance_transfer
  prepare_full_balance_transfer-exact from t f h = ground arith

  -- A partial transfer that is prepared sends the given positive amount, and the node's balance
  -- of the sender covers it with the most that the gas can cost.
  pub prepare_amount_transfer-covered :
      (from : String) (amount : ℕ) (t : PreparedTransfer)
      → p.get_address from_address ≡ returned from
      → prepare_amount_transfer p from_address to_address amount ≡ returned t
      → (t.tx.value ≡ amount)
        × (0 < amount)
        × (p.get_balance from ≡ returned t.balance_wei)
        × (amount + t.tx.gas_limit * t.tx.max_fee_per_gas ≤ t.balance_wei)
        × (t.tx.gas_limit ≡ transfer_gas_limit)
        × (t.tx.chain_id ≡ sepolia_chain_id)
        × (p.get_address to_address ≡ returned t.tx.to)
  unfolding prepare_amount_transfer
  prepare_amount_transfer-covered from amount t f h = ground arith

  -- A token transfer that is prepared, of a positive amount, calls the token contract on Sepolia
  -- with no ether; the sender holds the tokens, and the sender's ether covers the gas, whose limit
  -- is above a plain transfer's.
  pub prepare_erc20_amount_transfer-covered :
      (from token : String) (amount held : ℕ) (token_address : String) (t : PreparedTransfer)
      → p.get_address from_address ≡ returned from
      → p.get_address token_address ≡ returned token
      → p.token_balance_of token from ≡ returned held
      → prepare_erc20_amount_transfer p from_address to_address amount token_address ≡ returned t
      → (t.tx.to ≡ token)
        × (t.tx.value ≡ 0)
        × (0 < amount)
        × (amount ≤ held)
        × (p.get_balance from ≡ returned t.balance_wei)
        × (t.tx.gas_limit * t.tx.max_fee_per_gas ≤ t.balance_wei)
        × (transfer_gas_limit < t.tx.gas_limit)
        × (t.tx.chain_id ≡ sepolia_chain_id)
  unfolding prepare_erc20_amount_transfer
  prepare_erc20_amount_transfer-covered from token amount held token_address t f k b h =
      ground arith

  -- The node answers for two addresses on Sepolia.
  pub record Answers (from to : String) (balance nonce : ℕ) (fee_data : FeeData) : Type 0 where
    pub from_ok : p.get_address from_address ≡ returned from
    pub to_ok : p.get_address to_address ≡ returned to
    pub network : p.get_network ≡ returned sepolia_chain_id
    pub balance_ok : p.get_balance from ≡ returned balance
    pub nonce_ok : p.get_transaction_count from ≡ returned nonce
    pub fees_ok : p.get_fee_data ≡ returned fee_data

  -- Where the node answers for two different addresses on Sepolia and the balance is more than the
  -- most that a plain transfer's gas can cost, a sweep is prepared.
  pub prepare_full_balance_transfer-returns :
      (from to : String) (balance nonce : ℕ) (fee_data : FeeData)
      → Answers from to balance nonce fee_data
      → from ≢ to
      → (resolve_fees fee_data transfer_gas_limit).fee_wei < balance
      → (t : PreparedTransfer) × (prepare_full_balance_transfer p from_address to_address
          ≡ returned t)
  unfolding prepare_full_balance_transfer
  prepare_full_balance_transfer-returns from to balance nonce fee_data a ne enough =
      let fees = resolve_fees fee_data transfer_gas_limit in
      let tx : UnsignedTxFields = record {
        to = to;
        value = balance - fees.fee_wei;
        nonce = nonce;
        gas_limit = transfer_gas_limit;
        max_fee_per_gas = fees.max_fee_per_gas;
        max_priority_fee_per_gas = fees.max_priority_fee_per_gas;
        chain_id = sepolia_chain_id;
        calldata = zero_x;
      } in
      (
        record { tx = tx; balance_wei = balance; fee_wei = fees.fee_wei; value_wei = tx.value },
        ground (
          arith,
          a.from_ok,
          a.to_ok,
          a.network,
          a.balance_ok,
          a.nonce_ok,
          a.fees_ok,
          eq_iff from to,
          normalize_tx_data-canonical zero_x (refl, refl, refl, tt),
        ),
      )
