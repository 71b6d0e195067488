-- ===== src/Tests/Transfers.antt =====
-- Transfers prepared against a node that always answers the same.
use selfmade_mpc_wallet.Prelude.{
  ℕ, ◌+◌, ◌*◌, ◌≤◌, ◌<◌, String, ◌≡◌, refl, none, some, List, [], ◌∷◌, arith, eq_iff,
}
use selfmade_mpc_wallet.Errors.{returned}
use selfmade_mpc_wallet.SignSession.{UnsignedTxFields}
use selfmade_mpc_wallet.TxData.{normalize_tx_data}
use selfmade_mpc_wallet.TxData.Normal.{IsCanonical, normalize_tx_data_idem}
use selfmade_mpc_wallet.EthTransfer.{
  Provider, PreparedTransfer, FeeData, sepolia_chain_id, transfer_gas_limit, resolve_fees,
  prepare_full_balance_transfer, prepare_amount_transfer, prepare_erc20_amount_transfer,
}
use selfmade_mpc_wallet.EthTransfer.Prepared.{
  prepare_full_balance_transfer-exact, prepare_amount_transfer-covered,
  prepare_erc20_amount_transfer-covered, prepare_full_balance_transfer-returns,
}

abbrev pub fee_data : FeeData
fee_data = record { max_priority_fee_per_gas = some 1; max_fee_per_gas = some 2; gas_price = none }

abbrev pub node : Provider
node = record {
  get_address = returned;
  encode_transfer = λ to amount. 48 ∷ 120 ∷ 97 ∷ 57 ∷ [];
  get_network = returned sepolia_chain_id;
  get_balance = λ a. returned 1000000;
  get_transaction_count = λ a. returned 4;
  get_fee_data = returned fee_data;
  get_code = λ a. returned (48 ∷ 120 ∷ 54 ∷ 48 ∷ []);
  token_balance_of = λ token a. returned 50;
  estimate_gas = λ from to calldata. returned 40000;
}

abbrev plain_tx : String → ℕ → ℕ → List ℕ → UnsignedTxFields
plain_tx to value gas calldata = record {
  to = to;
  value = value;
  nonce = 4;
  gas_limit = gas;
  max_fee_per_gas = 2;
  max_priority_fee_per_gas = 1;
  chain_id = sepolia_chain_id;
  calldata = calldata;
}

abbrev prepared : UnsignedTxFields → PreparedTransfer
prepared tx = record {
  tx = tx;
  balance_wei = 1000000;
  fee_wei = tx.gas_limit * 2;
  value_wei = tx.value;
}

abbrev sweep : PreparedTransfer
sweep = prepared (plain_tx "0xCd" 958000 21000 (48 ∷ 120 ∷ []))

prepare_full_balance_transfer-exact_example :
    (node.get_balance "0xAb"
      ≡ returned (sweep.tx.value + sweep.tx.gas_limit * sweep.tx.max_fee_per_gas))
    × (sweep.value_wei ≡ sweep.tx.value)
    × (0 < sweep.value_wei)
    × (sweep.tx.gas_limit ≡ transfer_gas_limit)
    × (sweep.tx.chain_id ≡ sepolia_chain_id)
    × (node.get_address "0xCd" ≡ returned sweep.tx.to)
unfolding prepare_full_balance_transfer normalize_tx_data
prepare_full_balance_transfer-exact_example =
    prepare_full_balance_transfer-exact node "0xAb" "0xCd" "0xAb" sweep refl refl

abbrev partial : PreparedTransfer
partial = prepared (plain_tx "0xCd" 12 21000 (48 ∷ 120 ∷ []))

prepare_amount_transfer-covered_example :
    (partial.tx.value ≡ 12)
    × (0 < 12)
    × (node.get_balance "0xAb" ≡ returned partial.balance_wei)
    × (12 + partial.tx.gas_limit * partial.tx.max_fee_per_gas ≤ partial.balance_wei)
    × (partial.tx.gas_limit ≡ transfer_gas_limit)
    × (partial.tx.chain_id ≡ sepolia_chain_id)
    × (node.get_address "0xCd" ≡ returned partial.tx.to)
unfolding prepare_amount_transfer normalize_tx_data
prepare_amount_transfer-covered_example =
    prepare_amount_transfer-covered node "0xAb" "0xCd" "0xAb" 12 partial refl refl

abbrev tokens : PreparedTransfer
tokens = prepared (plain_tx "0xEf" 0 48000 (48 ∷ 120 ∷ 97 ∷ 57 ∷ []))

prepare_erc20_amount_transfer-covered_example :
    (tokens.tx.to ≡ "0xEf")
    × (tokens.tx.value ≡ 0)
    × (0 < 12)
    × (12 ≤ 50)
    × (node.get_balance "0xAb" ≡ returned tokens.balance_wei)
    × (tokens.tx.gas_limit * tokens.tx.max_fee_per_gas ≤ tokens.balance_wei)
    × (transfer_gas_limit < tokens.tx.gas_limit)
    × (tokens.tx.chain_id ≡ sepolia_chain_id)
unfolding prepare_erc20_amount_transfer normalize_tx_data
prepare_erc20_amount_transfer-covered_example =
    prepare_erc20_amount_transfer-covered node "0xAb" "0xCd" "0xAb" "0xEf" 12 50 "0xEf" tokens refl
      refl refl refl

prepare_full_balance_transfer-returns_example :
    (t : PreparedTransfer) × (prepare_full_balance_transfer node "0xAb" "0xCd" ≡ returned t)
unfolding resolve_fees
prepare_full_balance_transfer-returns_example =
    prepare_full_balance_transfer-returns node "0xAb" "0xCd" "0xAb" "0xCd" 1000000 4 fee_data
      (record {
        from_ok = refl;
        to_ok = refl;
        network = refl;
        balance_ok = refl;
        nonce_ok = refl;
        fees_ok = refl;
      })
      (λ e. ground (arith, eq_iff "0xAb" "0xCd")) (omega arith)

normalize_tx_data_idem_example :
    IsCanonical (48 ∷ 120 ∷ 97 ∷ 57 ∷ [])
    × (normalize_tx_data (some (48 ∷ 120 ∷ 97 ∷ 57 ∷ [])) ≡ returned (48 ∷ 120 ∷ 97 ∷ 57 ∷ []))
unfolding normalize_tx_data
normalize_tx_data_idem_example =
    normalize_tx_data_idem (some (32 ∷ 48 ∷ 88 ∷ 65 ∷ 57 ∷ [])) (48 ∷ 120 ∷ 97 ∷ 57 ∷ []) refl
