-- ===== src/LastWithdraw/OpenRow.antt =====
-- The transaction in which `signPersistBroadcastWait`
-- (apps/api/src/wallet/emergency-last-withdraw.service.ts) makes its row.
use selfmade_mpc_wallet.Prelude.{
  ℕ, ◌≡◌, refl, ◌∙◌, inl, inr, Option, none, some, find, filter, sort_by, Option-cases, eq_refl,
  find-append_new,
}
use selfmade_mpc_wallet.Errors.{Error}
use selfmade_mpc_wallet.Exec.Post.{Post, returns, throws, Post-mono, Post-of_parts, after-Post}
use selfmade_mpc_wallet.MainDb.{
  WithdrawStatus, processing, broadcasted, executed, WithdrawRequest, request_has_id,
}
use selfmade_mpc_wallet.SignSession.{UnsignedTxFields}
use selfmade_mpc_wallet.EmergencyBc.{
  is_emergency_of, created_after, is_row_of, EmergencySettleOutcome, clear, rebroadcast,
  settle_open_emergency_bc_or_throw, find_latest_emergency_bc,
}
use selfmade_mpc_wallet.Server.{Server, on_db}
use selfmade_mpc_wallet.LastWithdraw.{LastEnv}
use selfmade_mpc_wallet.LastWithdraw.Sweep.{
  SweepParams, SweepRow, executed_before, created, new_sweep_row, create_sweep_row, by_latest,
  refuse_rebroadcast, open_sweep,
}

abbrev pub MadeIn : ℕ → SweepParams → UnsignedTxFields → SweepRow → Server → Type 0
MadeIn now q stored_tx (executed_before r) s = Unit
MadeIn now q stored_tx (created r) s =
    (r ≡ new_sweep_row now q stored_tx)
    × (find (request_has_id q.new_row_id) s.db.withdraw_requests ≡ some r)

abbrev pub latest : SweepParams → Server → Option WithdrawRequest
latest q s =
    find (is_emergency_of q.asset)
      (sort_by created_after (filter (is_row_of q.wallet_id) s.db.withdraw_requests))

module _ (env : LastEnv) (now : ℕ) (q : SweepParams) (stored_tx : UnsignedTxFields) where
  abbrev pub OpenedIn : Server → SweepRow → Server → Type 0
  OpenedIn s row s' = (s'.broadcasts ≡ s.broadcasts) × MadeIn now q stored_tx row s'

  abbrev pub Quiet : Server → Error → Server → Type 0
  Quiet s e s' = s'.broadcasts ≡ s.broadcasts

  pub create-Post : (s : Server) → Post (OpenedIn s) (Quiet s) (create_sweep_row now q stored_tx s)
  create-Post s = elim (Option-cases (find (request_has_id q.new_row_id) s.db.withdraw_requests)) [
    | inl e ↦ rw e (
        returns (
          refl,
          (
            refl,
            find-append_new (request_has_id q.new_row_id) s.db.withdraw_requests
                (new_sweep_row now q stored_tx) e (eq_refl q.new_row_id),
          ),
        ))
    | inr (x, e) ↦ rw e (throws refl)
  ]

  pub by_latest-Post :
      (o : Option WithdrawRequest) (st : WithdrawStatus) (s : Server)
      → Post (OpenedIn s) (Quiet s) (by_latest env now q stored_tx o st s)
  by_latest-Post none st s = create-Post s
  by_latest-Post (some row) executed s = returns (refl, tt)
  by_latest-Post (some row) broadcasted s = throws refl
  by_latest-Post (some row) processing s = throws refl
  by_latest-Post (some row) _ s = create-Post s

  pub refuse-Post :
      (out : EmergencySettleOutcome) (s : Server)
      → Post (λ _ s'. s'.broadcasts ≡ s.broadcasts) (Quiet s) (refuse_rebroadcast out s)
  refuse-Post clear s = returns refl
  refuse-Post (rebroadcast x) s = throws refl

  pub open_sweep-Post :
      (s : Server) → Post (OpenedIn s) (Quiet s) (open_sweep env now q stored_tx s)
  unfolding open_sweep find_latest_emergency_bc
  open_sweep-Post s =
      after-Post {Q = λ _ s1. s1.broadcasts ≡ s.broadcasts} _
        (Post-of_parts (on_db (settle_open_emergency_bc_or_throw env.get_receipt now q.wallet_id) s)
          (λ _ _. refl) (λ _ _. refl))
        λ out s1 h1.
          after-Post _ (Post-mono (refuse-Post out s1) (λ _ _ h. h ∙ h1) (λ _ _ h. h ∙ h1))
            λ _ s2 h2.
              Post-mono (by_latest-Post (latest q s2) _ s2) (λ _ _ h. (h.0 ∙ h2, h.1))
                (λ _ _ h. h ∙ h2)
