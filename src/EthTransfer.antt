-- ===== src/EthTransfer.antt =====
-- apps/api/src/mpc/eth-transfer.ts: the unsigned EIP-1559 transactions of a withdrawal. Wei and
-- token amounts are natural numbers. What the ethers library and the node answer are parameters,
-- a `Result` where they may throw; a node's answers do not change within one call.
pub mod Prepared
use selfmade_mpc_wallet.Prelude.{
  ℕ, ◌+◌, ◌-◌, ◌*◌, ◌/◌, String, Bool, true, false, not, ◌&&◌, Option, none, some, List, [], ◌∷◌,
  ◌==◌, eqb, leb, ltb, if◌then◌else◌,
}
use selfmade_mpc_wallet.Errors.{
  Result, returned, threw, plain, other, zero_balance, zero_token_balance, balance_below_fee,
  insufficient_gas_balance,
}
use selfmade_mpc_wallet.Chained.{◌>>=◌, ◌>>◌, refuse_if}
use selfmade_mpc_wallet.SignSession.{UnsignedTxFields}
use selfmade_mpc_wallet.TxData.{normalize_tx_data}

pub record FeeData : Type 0 where
  pub max_priority_fee_per_gas : Option ℕ
  pub max_fee_per_gas : Option ℕ
  pub gas_price : Option ℕ

-- The node, and the parts of ethers that the preparation calls.
pub record Provider : Type 0 where
  -- `getAddress`: the checksummed form, or a throw
  pub get_address : String → Result String
  -- `Interface.encodeFunctionData('transfer', [to, amount])`
  pub encode_transfer : String → ℕ → List ℕ
  pub get_network : Result ℕ
  pub get_balance : String → Result ℕ
  pub get_transaction_count : String → Result ℕ
  pub get_fee_data : Result FeeData
  pub get_code : String → Result (List ℕ)
  pub token_balance_of : String → String → Result ℕ
  pub estimate_gas : String → String → List ℕ → Result ℕ

abbrev pub sepolia_chain_id : ℕ
sepolia_chain_id = 11155111

abbrev pub transfer_gas_limit : ℕ
transfer_gas_limit = 21000

abbrev pub erc20_transfer_gas_fallback : ℕ
erc20_transfer_gas_fallback = 100000

pub record Fees : Type 0 where
  pub max_priority_fee_per_gas : ℕ
  pub max_fee_per_gas : ℕ
  pub fee_wei : ℕ

pub record PreparedTransfer : Type 0 where
  pub tx : UnsignedTxFields
  pub balance_wei : ℕ
  pub fee_wei : ℕ
  pub value_wei : ℕ

abbrev or_default : Option ℕ → ℕ → ℕ
or_default none d = d
or_default (some n) d = n

-- `feeData.gasPrice ? gasPrice * 2n : maxPriorityFeePerGas * 2n`
abbrev doubled_price : Option ℕ → ℕ → ℕ
doubled_price none tip = tip * 2
doubled_price (some price) tip = if eqb price 0 then tip * 2 else price * 2

unfoldable pub resolve_fees : FeeData → ℕ → Fees
resolve_fees fee_data gas_limit =
    let tip = or_default fee_data.max_priority_fee_per_gas 1000000000 in
    let cap = or_default fee_data.max_fee_per_gas (doubled_price fee_data.gas_price tip) in
    record { max_priority_fee_per_gas = tip; max_fee_per_gas = cap; fee_wei = gas_limit * cap }

abbrev pub assert_sepolia : ℕ → Result (Unit {0})
assert_sepolia chain_id = refuse_if (not (eqb chain_id sepolia_chain_id)) (plain other)

abbrev pub zero_x : List ℕ
zero_x = 48 ∷ 120 ∷ []

-- `Transaction.from({ type: 2, … })` keeps the fields.
unfoldable pub eip1559_transfer : String → ℕ → ℕ → Fees → ℕ → List ℕ → ℕ → Result UnsignedTxFields
eip1559_transfer to value nonce fees chain_id calldata gas_limit = do
  normal ← normalize_tx_data (some calldata)
  returned (record {
    to = to;
    value = value;
    nonce = nonce;
    gas_limit = gas_limit;
    max_fee_per_gas = fees.max_fee_per_gas;
    max_priority_fee_per_gas = fees.max_priority_fee_per_gas;
    chain_id = chain_id;
    calldata = normal;
  })

-- A transaction from the fields that were stored, checked again.
unfoldable pub tx_from_stored_fields : UnsignedTxFields → Result UnsignedTxFields
tx_from_stored_fields fields = do
  assert_sepolia fields.chain_id
  normal ← normalize_tx_data (some fields.calldata)
  returned (record fields { calldata = normal })

module _ (p : Provider) where
  unfoldable pub prepare_full_balance_transfer : String → String → Result PreparedTransfer
  unfolding resolve_fees eip1559_transfer
  prepare_full_balance_transfer from_address to_address = do
    from ← p.get_address from_address
    to ← p.get_address to_address
    refuse_if (from == to) (plain other)
    chain_id ← p.get_network
    balance ← p.get_balance from
    nonce ← p.get_transaction_count from
    fee_data ← p.get_fee_data
    let fees = resolve_fees fee_data transfer_gas_limit
    refuse_if (eqb balance 0) (plain zero_balance)
    refuse_if (leb balance fees.fee_wei) (plain balance_below_fee)
    assert_sepolia chain_id
    tx ← eip1559_transfer to (balance - fees.fee_wei) nonce fees chain_id zero_x transfer_gas_limit
    returned (record {
      tx = tx;
      balance_wei = balance;
      fee_wei = fees.fee_wei;
      value_wei = balance - fees.fee_wei;
    })

  unfoldable pub prepare_amount_transfer : String → String → ℕ → Result PreparedTransfer
  unfolding resolve_fees eip1559_transfer
  prepare_amount_transfer from_address to_address amount = do
    from ← p.get_address from_address
    to ← p.get_address to_address
    refuse_if (from == to) (plain other)
    refuse_if (leb amount 0) (plain other)
    chain_id ← p.get_network
    balance ← p.get_balance from
    nonce ← p.get_transaction_count from
    fee_data ← p.get_fee_data
    let fees = resolve_fees fee_data transfer_gas_limit
    refuse_if (ltb balance (amount + fees.fee_wei)) (plain other)
    assert_sepolia chain_id
    tx ← eip1559_transfer to amount nonce fees chain_id zero_x transfer_gas_limit
    returned (record { tx = tx; balance_wei = balance; fee_wei = fees.fee_wei; value_wei = amount })

  unfoldable pub encode_erc20_transfer : String → ℕ → Result (List ℕ)
  encode_erc20_transfer to amount = do
    recipient ← p.get_address to
    normalize_tx_data (some (p.encode_transfer recipient amount))

  -- The padded estimate if it is above a plain transfer's gas; a throw keeps the fallback.
  abbrev pub gas_limit_of : Result ℕ → ℕ
  gas_limit_of (threw e) = erc20_transfer_gas_fallback
  gas_limit_of (returned estimated) =
      if ltb transfer_gas_limit (estimated * 12 / 10)
      then estimated * 12 / 10
      else erc20_transfer_gas_fallback

  -- `!code || code === '0x'`
  abbrev pub is_no_code : List ℕ → Bool
  is_no_code [] = true
  is_no_code (a ∷ b ∷ []) = eqb a 48 && eqb b 120
  is_no_code _ = false

  unfoldable pub prepare_erc20_amount_transfer :
      String → String → ℕ → String → Result PreparedTransfer
  unfolding resolve_fees eip1559_transfer encode_erc20_transfer
  prepare_erc20_amount_transfer from_address to_address amount token_address = do
    from ← p.get_address from_address
    recipient ← p.get_address to_address
    token ← p.get_address token_address
    refuse_if (from == recipient) (plain other)
    refuse_if (recipient == token) (plain other)
    refuse_if (leb amount 0) (plain other)
    chain_id ← p.get_network
    assert_sepolia chain_id
    code ← p.get_code token
    refuse_if (is_no_code code) (plain other)
    calldata ← encode_erc20_transfer recipient amount
    token_balance ← p.token_balance_of token from
    refuse_if (ltb token_balance amount) (plain other)
    let gas_limit = gas_limit_of (p.estimate_gas from token calldata)
    eth_balance ← p.get_balance from
    nonce ← p.get_transaction_count from
    fee_data ← p.get_fee_data
    let fees = resolve_fees fee_data gas_limit
    refuse_if (ltb eth_balance fees.fee_wei) (plain insufficient_gas_balance)
    tx ← eip1559_transfer token 0 nonce fees chain_id calldata gas_limit
    returned (record { tx = tx; balance_wei = eth_balance; fee_wei = fees.fee_wei; value_wei = 0 })

  -- The whole token balance, with the amount that it came to.
  unfoldable pub prepare_erc20_full_balance_transfer :
      String → String → String → Result (PreparedTransfer × ℕ)
  unfolding prepare_erc20_amount_transfer
  prepare_erc20_full_balance_transfer from_address to_address token_address = do
    from ← p.get_address from_address
    token ← p.get_address token_address
    token_amount ← p.token_balance_of token from
    refuse_if (eqb token_amount 0) (plain zero_token_balance)
    prepared ← prepare_erc20_amount_transfer from_address to_address token_amount token_address
    returned (prepared, token_amount)
