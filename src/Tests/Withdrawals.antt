-- ===== src/Tests/Withdrawals.antt =====
-- The settlement of a withdrawal in flight.
use selfmade_mpc_wallet.Prelude.{◌≡◌, refl, arith, count, find, update}
use selfmade_mpc_wallet.Errors.{conflict, transaction_pending}
use selfmade_mpc_wallet.Chain.{not_mined}
use selfmade_mpc_wallet.NormalAb.{settle_open_normal_ab_or_throw, is_normal_ab_metadata}
use selfmade_mpc_wallet.MainDb.Rewrites.{Rewrites}
use selfmade_mpc_wallet.NormalAb.Outcomes.{Closing, settle-Rewrites}
use selfmade_mpc_wallet.NormalAb.{is_open_normal_ab}
use selfmade_mpc_wallet.Prelude.{count}
use selfmade_mpc_wallet.NormalAb.Settled.{open_normal_ab, settle-clears, settle-threw}
use selfmade_mpc_wallet.Tests.Samples.{db, mined_well}

settle-clears_example :
    (open_normal_ab "w1" (settle_open_normal_ab_or_throw mined_well 9 "w1" db).1 ≡ 0)
    × ((settle_open_normal_ab_or_throw mined_well 9 "w1" db).1.wallets ≡ db.wallets)
unfolding settle_open_normal_ab_or_throw is_normal_ab_metadata find count update
settle-clears_example = settle-clears mined_well 9 "w1" db (ground arith) refl

settle-threw_example : (settle_open_normal_ab_or_throw (λ _. not_mined) 9 "w1" db).1 ≡ db
unfolding settle_open_normal_ab_or_throw is_normal_ab_metadata find
settle-threw_example = settle-threw (λ _. not_mined) 9 "w1" db (conflict transaction_pending) refl

settle-Rewrites_example :
    Rewrites
      (Closing (is_open_normal_ab "w1") mined_well 9)
      db
      (settle_open_normal_ab_or_throw mined_well 9 "w1" db).1
unfolding count
settle-Rewrites_example = settle-Rewrites mined_well 9 "w1" db (λ k. ground arith)
