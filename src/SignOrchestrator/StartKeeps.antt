-- ===== src/SignOrchestrator/StartKeeps.antt =====
-- The invariant of `start` (apps/api/src/mpc/sign-orchestrator.service.ts).
use selfmade_mpc_wallet.Assets.{WithdrawAsset}
use selfmade_mpc_wallet.Prelude.{
  ℕ, ◌≤◌, String, ◌≡◌, sym, subst, not, Bool, true, false, Option, none, some, [], ◌∷◌, arith,
  truthy, ◌==◌, if◌then◌else◌,
}
use selfmade_mpc_wallet.Prelude.Dict.{Dict}
use selfmade_mpc_wallet.Errors.{
  Error, Result, returned, threw, bad_request, no_code, validation_failed, invalid_address,
  share_b_missing,
}
use selfmade_mpc_wallet.Exec.{Exec, after}
use selfmade_mpc_wallet.Exec.Post.{
  Post, returns, throws, Post-mono, Post-state, Post-of_parts, check-Post, after-Post, lift-Post,
  same-Post,
}
use selfmade_mpc_wallet.MainDb.{MainDb, Wallet, WithdrawRequest}
use selfmade_mpc_wallet.NormalAb.Settled.{open_normal_ab}
use selfmade_mpc_wallet.SignSession.{SignSessionState}
use selfmade_mpc_wallet.EthTransfer.{PreparedTransfer}
use selfmade_mpc_wallet.MpcCrypto.Routing.{WireMessage, encode_wire_message}
use selfmade_mpc_wallet.Texts.{trim_text}
use selfmade_mpc_wallet.Server.{Server}
use selfmade_mpc_wallet.Server.Laws.{db_transaction-Post}
use selfmade_mpc_wallet.SignOrchestrator.{
  collected, expire_rows, expire_row, is_expired, is_processing_row,
}
use selfmade_mpc_wallet.SignOrchestrator.Reuse.{
  reuse_or_conflict_existing, reuse_or_conflict_existing-Post,
}
use selfmade_mpc_wallet.SignOrchestrator.Start.{
  StartEnv, StartRequest, Opened, reuse, created, or_blank, parse_withdraw_amount_to_wei,
  parse_withdraw_asset, gas_or_bad, require_active_mpc_wallet, open_locked, scoped_idempotency_key,
}
use selfmade_mpc_wallet.SignOrchestrator.Begin.{
  or_else, prepare, new_row, open_session_for, start_new, start_or_reuse, start,
}
use selfmade_mpc_wallet.SignOrchestrator.OneOpen.{
  OneOpen, KeepsOneOpen, mark_expired-NoMore, open_locked-OneOpen,
}

expire_if-NoMore :
    (b : Bool) (v req : String) (db : MainDb)
    → open_normal_ab v (if b then expire_row req db else db) ≤ open_normal_ab v db
expire_if-NoMore true v req db = mark_expired-NoMore v (is_processing_row req) db.withdraw_requests
expire_if-NoMore false v req db = omega arith

expire_rows-NoMore :
    (now : ℕ) (v : String) (m : Dict SignSessionState) (db : MainDb)
    → open_normal_ab v (expire_rows now m db) ≤ open_normal_ab v db
unfolding expire_rows
expire_rows-NoMore now v [] db = omega arith
expire_rows-NoMore now v ((k, st) ∷ m) db =
    let db1 = if is_expired now st then expire_row st.withdraw_request_id db else db in
    omega (
      arith,
      expire_if-NoMore (is_expired now st) v st.withdraw_request_id db,
      expire_rows-NoMore now v m db1,
    )

or_else-Post :
    {A B : Type 0} {Q : B → Server → Type 0} {E : Error → Server → Type 0} (g : Error → Error)
    (r : Result A) (f : A → Exec Server B) (s : Server)
    → ((e : Error) → E e s)
    → ((a : A) → Post Q E (f a s))
    → Post Q E (after (or_else g r s).0 f (or_else g r s).1)
or_else-Post g (returned a) f s h k = k a
or_else-Post g (threw e) f s h k = throws (h (g e))

wallet-same :
    (user_id wallet_id : String) (s : Server)
    → Post
        (λ _ s'. (s' ≡ s) × Unit {0})
        (λ _ s'. s' ≡ s)
        (require_active_mpc_wallet user_id wallet_id s)
unfolding require_active_mpc_wallet
wallet-same user_id wallet_id s =
    Post-of_parts (require_active_mpc_wallet user_id wallet_id s) (λ a h. ground arith)
      (λ e h. ground arith)

module _ (e : StartEnv) (now : ℕ) (q : StartRequest) where
  reuse-OneOpen :
      (wallet_id : String) (row : WithdrawRequest) (to : String) (amount : ℕ)
      (asset : WithdrawAsset) (s : Server)
      → OneOpen s
      → KeepsOneOpen (
          reuse_or_conflict_existing e.provider.get_address q.user_id wallet_id row to amount asset
            s)
  reuse-OneOpen wallet_id row to amount asset s one =
      Post-mono
        (reuse_or_conflict_existing-Post e.provider.get_address q.user_id wallet_id row to amount
          asset s)
        (λ _ s' h v. rw h.0 (one v)) (λ _ s' (h : s' ≡ s). subst OneOpen (sym h) one)

  open_session_for-OneOpen :
      (wallet : Wallet) (to : String) (amount : ℕ) (asset : WithdrawAsset)
      (prepared : PreparedTransfer) (digest_b64 : String) (msg1b : WireMessage) (state_b64 : String)
      (opened : Opened) (s : Server)
      → OneOpen s
      → KeepsOneOpen (
          open_session_for e now q wallet to amount asset prepared digest_b64 msg1b state_b64 opened
            s)
  unfolding open_session_for
  open_session_for-OneOpen wallet to amount asset prepared digest_b64 msg1b state_b64 (reuse row) s
        one =
      reuse-OneOpen wallet.id row to amount asset s one
  open_session_for-OneOpen wallet to amount asset prepared digest_b64 msg1b state_b64 (created row)
        s one =
      lift-Post (e.provider.get_address prepared.tx.to) _ s (λ _ _. one) (λ _ _. returns one)

  start_new-OneOpen :
      (wallet : Wallet) (key to : String) (amount : ℕ) (asset : WithdrawAsset) (s : Server)
      → OneOpen s
      → KeepsOneOpen (start_new e now q wallet key to amount asset s)
  unfolding start_new
  start_new-OneOpen wallet key to amount asset s one =
      or_else-Post gas_or_bad (prepare e now q wallet to amount asset) _ s (λ _. one)
        λ prepared.
          lift-Post (e.decrypt_share_b (or_blank wallet.encrypted_share_b)) _ s (λ _ _. one)
            λ share _.
              lift-Post (e.open_session share) _ s (λ _ _. one)
                λ first _.
                  let digest_b64 = e.env.base64.bytes_to_base64 (e.unsigned_digest prepared.tx) in
                  let msg1b = encode_wire_message e.env.base64 first.0 in
                  let row = new_row q now wallet key to amount asset prepared digest_b64 msg1b in
                  after-Post _
                    (db_transaction-Post (open_locked e.get_receipt now wallet.id key row) s
                      (open_locked-OneOpen e.get_receipt now key row s one) (λ _ s1 _. one))
                    λ opened s1 one1.
                      open_session_for-OneOpen wallet to amount asset prepared digest_b64 msg1b
                        (e.env.base64.bytes_to_base64 first.1) opened s1 one1

  start_or_reuse-OneOpen :
      (wallet : Wallet) (key to : String) (amount : ℕ) (asset : WithdrawAsset)
      (o : Option WithdrawRequest) (s : Server)
      → OneOpen s
      → KeepsOneOpen (start_or_reuse e now q wallet key to amount asset o s)
  unfolding start_or_reuse
  start_or_reuse-OneOpen wallet key to amount asset (some row) s one =
      reuse-OneOpen wallet.id row to amount asset s one
  start_or_reuse-OneOpen wallet key to amount asset none s one =
      start_new-OneOpen wallet key to amount asset s one

-- From a state where every wallet has at most one normal withdrawal in flight, a start, whether it
-- returns or throws, leads to such a state.
pub start-OneOpen :
    (e : StartEnv) (now : ℕ) (q : StartRequest) (s : Server)
    → OneOpen s
    → OneOpen (start e now q s).1
unfolding start
start-OneOpen e now q s one =
    let s1 = collected now s in
    let one1 : OneOpen s1 =
      λ v. omega (arith, expire_rows-NoMore now v s.sign_sessions s.db, one v) in
    let address = e.provider.get_address in
    Post-state {P = OneOpen} (
      check-Post (trim_text (or_blank q.idempotency_key) == "") (bad_request validation_failed) _ s1
        (λ _. one1)
        λ _.
          or_else-Post (λ _. bad_request invalid_address) (address q.to_address) _ s1 (λ _. one1)
            λ to.
              or_else-Post (λ _. bad_request no_code)
                (parse_withdraw_amount_to_wei e.parse_ether q.amount) _ s1 (λ _. one1)
                λ amount.
                  or_else-Post (λ _. bad_request no_code) (parse_withdraw_asset q.asset) _ s1
                    (λ _. one1)
                    λ asset.
                      same-Post _ (wallet-same q.user_id q.wallet_id s1) (λ _. one1)
                        λ wallet _.
                          check-Post (not (truthy wallet.encrypted_share_b))
                            (bad_request share_b_missing) _ s1 (λ _. one1)
                            λ _.
                              lift-Post (address wallet.address) _ s1 (λ _ _. one1)
                                λ own _.
                                  check-Post (own == to) (bad_request invalid_address) _ s1
                                    (λ _. one1)
                                    λ _.
                                      start_or_reuse-OneOpen e now q wallet
                                        (scoped_idempotency_key wallet.id
                                          (trim_text (or_blank q.idempotency_key)))
                                        to amount asset _ s1 one1)
