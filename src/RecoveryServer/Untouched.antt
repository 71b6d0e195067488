-- ===== src/RecoveryServer/Untouched.antt =====
-- The calls of the Recovery Server (apps/recovery/src) that leave the rows of Share C alone.
use selfmade_mpc_wallet.Prelude.{ℕ, String, ◌≡◌, Option, List, arith}
use selfmade_mpc_wallet.MpcCrypto.Routing.{WireMessage}
use selfmade_mpc_wallet.RecoveryServer.{RecoveryServer, RecoveryEnv}
use selfmade_mpc_wallet.RecoveryServer.Shares.{load_active_share_c_bytes}
use selfmade_mpc_wallet.RecoveryServer.Sign
use selfmade_mpc_wallet.RecoveryServer.Dkg.{start_dkg, handle_round1, handle_p2p, handle_broadcast}

module _ (env : RecoveryEnv) (now : ℕ) where
  pub start-shares :
      (a b c : String) (s : RecoveryServer) → (Sign.start env now a b c s).1.shares ≡ s.shares
  unfolding Sign.start load_active_share_c_bytes
  start-shares a b c s = ground arith

module _ (env : RecoveryEnv) (now : ℕ) (a : String) (ms : List WireMessage)
    (s : RecoveryServer) where
  pub round1-shares : (Sign.round1 env now a ms s).1.shares ≡ s.shares
  unfolding Sign.round1
  round1-shares = ground arith

  pub round2-shares : (Sign.round2 env now a ms s).1.shares ≡ s.shares
  unfolding Sign.round2
  round2-shares = ground arith

  pub round3-shares : (Sign.round3 env now a ms s).1.shares ≡ s.shares
  unfolding Sign.round3
  round3-shares = ground arith

  pub last-shares : (Sign.last_message env now a s).1.shares ≡ s.shares
  unfolding Sign.last_message
  last-shares = ground arith

  pub dkg_start-shares : (b c : String) → (start_dkg env now a b c s).1.shares ≡ s.shares
  unfolding start_dkg
  dkg_start-shares b c = ground arith

  pub handle_round1-shares : (handle_round1 env now a ms s).1.shares ≡ s.shares
  unfolding handle_round1
  handle_round1-shares = ground arith

  pub broadcast-shares : (handle_broadcast env now a ms s).1.shares ≡ s.shares
  unfolding handle_broadcast
  broadcast-shares = ground arith

  pub p2p-shares : (c : Option (List String)) → (handle_p2p env now a ms c s).1.shares ≡ s.shares
  unfolding handle_p2p
  p2p-shares c = ground arith
