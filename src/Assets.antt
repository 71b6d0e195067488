-- ===== src/Assets.antt =====
-- The assets of a withdrawal: WithdrawAsset of apps/api/src/mpc/eth-transfer.ts, and
-- EmergencyBcAsset of apps/api/src/wallet/emergency-bc-withdraw.ts.
use selfmade_mpc_wallet.Prelude.{String, Bool, true, false}

pub data WithdrawAsset : Type 0 where
  eth erc20 : WithdrawAsset

abbrev pub same_asset : WithdrawAsset → WithdrawAsset → Bool
same_asset eth eth = true
same_asset erc20 erc20 = true
same_asset _ _ = false

abbrev pub asset_name : WithdrawAsset → String
asset_name eth = "ETH"
asset_name erc20 = "ERC20"
