-- ===== src/DkgOrchestrator/OneLive.antt =====
-- apps/api/src/mpc/dkg-orchestrator.service.ts: the wallets of a user through the key generation.
use selfmade_mpc_wallet.Prelude.{String, ◌≤◌, count}
use selfmade_mpc_wallet.DkgOrchestrator.{KeygenWorld, is_live_of}

abbrev pub OneLive : KeygenWorld → Type 0
OneLive w = (u : String) → count (is_live_of u) w.db.wallets ≤ 1
