-- ===== src/SignOrchestrator/OneOpen.antt =====
-- A start (apps/api/src/mpc/sign-orchestrator.service.ts) keeps at most one normal withdrawal in
-- flight for every wallet.
use selfmade_mpc_wallet.Prelude.{
  ℕ, ◌≤◌, String, ◌≡◌, sym, subst, Bool-cases, ◌∙◌, Bool, not, Option, none, some, List, [], ◌∷◌,
  ◌++◌, arith, find, update, filter, count, count-update_le, count-append, Option-cases, inl, inr,
  eq_iff, ◌==◌,
}
use selfmade_mpc_wallet.Errors.{Error, Result, bad_request, emergency_state_invalid}
use selfmade_mpc_wallet.Exec.{Exec, pure, catch, ◌>>◌}
use selfmade_mpc_wallet.Exec.Post.{
  Post, returns, throws, Post-mono, Post-returned, Post-threw, Post-of_parts, check-Post,
  after-Post, catch-Post,
}
use selfmade_mpc_wallet.Chain.{GetReceipt}
use selfmade_mpc_wallet.MainDb.{
  WithdrawRequest, request_has_id, wallet_has_id, request_has_key, create_request,
}
use selfmade_mpc_wallet.NormalAb.{is_open_normal_ab}
use selfmade_mpc_wallet.NormalAb.Settled.{open_normal_ab}
use selfmade_mpc_wallet.Server.{Server, on_db}
use selfmade_mpc_wallet.Server.Laws.{settle-Post}
use selfmade_mpc_wallet.SignOrchestrator.{mark_expired}
use selfmade_mpc_wallet.SignOrchestrator.Complete.{is_active_wallet}
use selfmade_mpc_wallet.SignOrchestrator.Reuse.{AbWithdrawMetadata, as_ab_metadata}
use selfmade_mpc_wallet.SignOrchestrator.Start.{
  expire_one, expire_stale, open_locked, is_stale, raced, Opened, reuse, created, or_reuse,
}

-- No more of the wallet's withdrawals are in flight.
abbrev pub NoMore : String → Server → Server → Type 0
NoMore v s s' = open_normal_ab v s'.db ≤ open_normal_ab v s.db

module _ (v : String) where
  pub mark_expired-NoMore :
      (q : WithdrawRequest → Bool) (rows : List WithdrawRequest)
      → count (is_open_normal_ab v) (update q mark_expired rows) ≤ count (is_open_normal_ab v) rows
  mark_expired-NoMore q rows =
      count-update_le (is_open_normal_ab v) q mark_expired (λ r _ h. ground arith) rows

  expire_one-NoMore :
      (row : WithdrawRequest) (m : Option AbWithdrawMetadata) (s : Server)
      → Post (λ _ s'. NoMore v s s') (λ _ s'. NoMore v s s') (expire_one row m s)
  expire_one-NoMore row none s = returns (omega arith)
  expire_one-NoMore row (some m) s =
      elim (Option-cases (find (request_has_id row.id) s.db.withdraw_requests)) [
        | inl e ↦ rw e (throws (omega arith))
        | inr (x, e) ↦
            rw e (returns (mark_expired-NoMore (request_has_id row.id) s.db.withdraw_requests))
      ]

  expire_stale-NoMore :
      (rows : List WithdrawRequest) (s : Server)
      → Post (λ _ s'. NoMore v s s') (λ _ s'. NoMore v s s') (expire_stale rows s)
  unfolding expire_stale
  expire_stale-NoMore [] s = returns (omega arith)
  expire_stale-NoMore (row ∷ rows) s =
      after-Post _ (expire_one-NoMore row (as_ab_metadata row.metadata) s)
        λ _ s1 (h : NoMore v s s1).
          Post-mono (expire_stale-NoMore rows s1) (λ _ s2 (k : NoMore v s1 s2). omega (arith, h, k))
            (λ _ s2 (k : NoMore v s1 s2). omega (arith, h, k))

-- Every wallet has at most one normal withdrawal in flight.
abbrev pub OneOpen : Server → Type 0
OneOpen s = (v : String) → open_normal_ab v s.db ≤ 1

abbrev pub KeepsOneOpen : {A : Type 0} → Result A × Server → Type 0
KeepsOneOpen = Post (λ _ s. OneOpen s) (λ _ s. OneOpen s)

pub stale-OneOpen :
    (rows : List WithdrawRequest) (s : Server) → OneOpen s → KeepsOneOpen (expire_stale rows s)
stale-OneOpen rows s one =
    Post-of_parts (expire_stale rows s)
      (λ a h v. omega (arith, Post-returned (expire_stale-NoMore v rows s) h, one v))
      (λ e h v. omega (arith, Post-threw (expire_stale-NoMore v rows s) h, one v))

or_reuse-Post :
    {Q : Opened → Server → Type 0} {E : Error → Server → Type 0} (o : Option WithdrawRequest)
    (k : Exec Server Opened) (s : Server)
    → ((row : WithdrawRequest) → Q (reuse row) s)
    → Post Q E (k s)
    → Post Q E (or_reuse o k s)
or_reuse-Post none k s h g = g
or_reuse-Post (some row) k s h g = returns (h row)

added-OneOpen :
    (rows : List WithdrawRequest) (row : WithdrawRequest)
    → ((v : String) → count (is_open_normal_ab v) rows ≤ 1)
    → count (is_open_normal_ab row.wallet_id) rows ≡ 0
    → (v : String) → count (is_open_normal_ab v) (rows ++ row ∷ []) ≤ 1
unfolding count
added-OneOpen rows row one free v = elim (Bool-cases (row.wallet_id == v)) [
  | inl e ↦
      let same : row.wallet_id ≡ v = ground (arith, eq_iff row.wallet_id v) in
      let none_open : count (is_open_normal_ab v) rows ≡ 0 =
        subst (λ w. count (is_open_normal_ab w) rows ≡ 0) same free in
      ground (arith, none_open, count-append (is_open_normal_ab v) rows (row ∷ []))
  | inr e ↦ ground (arith, one v, count-append (is_open_normal_ab v) rows (row ∷ []))
]

raced-Post :
    (key : String) (e : Error) (s : Server) → Post (λ _ s'. s' ≡ s) (λ _ s'. s' ≡ s) (raced key e s)
raced-Post key e s = Post-of_parts (raced key e s) (λ a h. ground arith) (λ a h. ground arith)

create-OneOpen :
    (key : String) (row : WithdrawRequest) (s : Server)
    → OneOpen s
    → open_normal_ab row.wallet_id s.db ≡ 0
    → KeepsOneOpen (catch (on_db (create_request row) >> pure (created row)) (raced key) s)
create-OneOpen key row s one free =
    let added = added-OneOpen s.db.withdraw_requests row one free in
    catch-Post {E = λ _ s'. s' ≡ s} (raced key)
      (Post-of_parts ((on_db (create_request row) >> pure (created row)) s)
        (λ a h v. ground (arith, added v)) (λ e h. ground arith))
      λ e s1 same.
        Post-mono (raced-Post key e s1) (λ _ s2 (h : s2 ≡ s1). subst OneOpen (sym (h ∙ same)) one)
          (λ _ s2 (h : s2 ≡ s1). subst OneOpen (sym (h ∙ same)) one)

pub open_locked-OneOpen :
    (g : GetReceipt) (now : ℕ) (key : String) (row : WithdrawRequest) (s : Server)
    → OneOpen s
    → Post (λ _ s'. OneOpen s') (λ _ _. Unit {0}) (open_locked g now row.wallet_id key row s)
unfolding open_locked
open_locked-OneOpen g now key row s one =
    check-Post (not (is_active_wallet (find (wallet_has_id row.wallet_id) s.db.wallets)))
      (bad_request emergency_state_invalid) _ s (λ _. tt)
      λ _.
        or_reuse-Post (find (request_has_key key) s.db.withdraw_requests) _ s (λ _. one)
          (after-Post _
            (Post-mono
              (stale-OneOpen (filter (is_stale row.wallet_id now) s.db.withdraw_requests) s one)
              (λ _ _ h. h) (λ _ _ _. tt))
            λ _ s1 (one1 : OneOpen s1).
              after-Post _
                (Post-mono (settle-Post g now row.wallet_id s1) (λ _ _ h. h) (λ _ _ _. tt))
                λ _ s2 h.
                  Post-mono
                    (create-OneOpen key row s2 (λ v. omega (arith, h.raises_none v, one1 v))
                      (h.clears (one1 row.wallet_id)))
                    (λ _ _ k. k) (λ _ _ _. tt))
