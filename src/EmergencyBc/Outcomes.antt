-- ===== src/EmergencyBc/Outcomes.antt =====
-- Which withdrawals `settleOpenEmergencyBcOrThrow` (apps/api/src/wallet/emergency-bc-withdraw.ts)
-- rewrites, on what evidence, and to what.
use selfmade_mpc_wallet.Prelude.{
  ℕ, ◌-◌, String, ◌≡◌, refl, ◌∙◌, inl, inr, true, false, ◌&&◌, Option, none, some, List, [], ◌∷◌,
  arith, ◌==◌, truthy, ltb, eq_iff, find, filter, count, sort_by, count-sort_by, count-filter,
  count_mono, Bool-cases, All, All-sort_by, All-filter_of, All-count_none, IsFoundIn, HasUniqueKeys,
  HasUniqueKeys-found,
}
use selfmade_mpc_wallet.Exec.{Exec, pure, ◌>>◌}
use selfmade_mpc_wallet.Exec.Post.{Post, returns, throws, Post-mono, Post-state, after-Post}
use selfmade_mpc_wallet.MainDb.{
  WithdrawStatus, processing, broadcasted, WithdrawRequest, MainDb, request_has_id, update_request,
}
use selfmade_mpc_wallet.MainDb.Rewrites.{
  HasUniqueIds, Rewrites, Rewrites-same, Rewrites-update, Rewrites-join, update-found,
}
use selfmade_mpc_wallet.Chain.{GetReceipt, ReceiptLookup, lookup_failed, not_mined, mined}
use selfmade_mpc_wallet.NormalAb.{is_success, mark_failed, mark_executed}
use selfmade_mpc_wallet.NormalAb.Outcomes.{unsent-Closing, paid-Closing, reverted-Closing}
use selfmade_mpc_wallet.EmergencyBc.{
  is_emergency, is_open_row_of, token_first, created_before, open_emergency_rows, Rebroadcast,
  EmergencySettleOutcome, signed_raw_from_metadata, to_rebroadcast, settle_bc_receipt,
  settle_bc_processing, settle_bc_broadcasted, settle_bc_row, or_next, settle_bc_rows,
  settle_open_emergency_bc_or_throw, stale_emergency_processing_ms,
}
use selfmade_mpc_wallet.EmergencyBc.Settled.{is_open_emergency}
use selfmade_mpc_wallet.EmergencyBc.Closing.{EmergencyClosing, by_chain, expired, same, joins}

module _ (w : String) (g : GetReceipt) (now : ℕ) where
  abbrev J : WithdrawRequest → WithdrawRequest → Type 0
  J = EmergencyClosing w g now

  -- What one round of the loop does: to its row, and to the rows of other ids.
  record Round (row : WithdrawRequest) (db db' : MainDb) : Type 0 where
    rewrites : Rewrites J db db'
    others :
        (k : String)
        → (row.id == k) ≡ false
        → find (request_has_id k) db'.withdraw_requests
          ≡ find (request_has_id k) db.withdraw_requests

  abbrev After : WithdrawRequest → MainDb → {A : Type 0} → A → MainDb → Type 0
  After row db _ db' = Round row db db'

  module _ (row : WithdrawRequest) (db : MainDb) (open_row : is_open_emergency w row ≡ true)
      (here : find (request_has_id row.id) db.withdraw_requests ≡ some row) where
    nothing : Round row db db
    nothing = record { rewrites = Rewrites-same J (same w g now) db; others = λ k n. refl }

    update-Round :
        (f : WithdrawRequest → WithdrawRequest)
        → ((x : WithdrawRequest) → (f x).id ≡ x.id)
        → J row (f row)
        → Post {A = Option Rebroadcast}
            (After row db)
            (After row db)
            ((update_request row.id f >> pure none) db)
    update-Round f keeps j = rw here (
        returns (record {
          rewrites = Rewrites-update J (same w g now) f keeps row db here j;
          others = update-found J (same w g now) f keeps row db here;
        }))

    stopped-Round :
        (hash : String) (raw : Option String)
        → Post (After row db) (After row db) (to_rebroadcast row.id hash raw db)
    stopped-Round hash none = throws nothing
    stopped-Round hash (some raw) = returns nothing

    receipt-Round :
        (hash : String) (found : ReceiptLookup)
        → row.status ≡ broadcasted
        → row.tx_hash ≡ some hash
        → g hash ≡ found
        → Post (After row db) (After row db) (settle_bc_receipt now row hash found db)
    unfolding settle_bc_receipt
    receipt-Round hash lookup_failed b h e = throws nothing
    receipt-Round hash not_mined b h e = stopped-Round hash (signed_raw_from_metadata row.metadata)
    receipt-Round hash (mined status) b h e = elim (Bool-cases (is_success status)) [
      | inl t ↦ rw t (
          update-Round (mark_executed now) (λ x. refl)
            (by_chain (paid-Closing (is_open_emergency w) g now row open_row b hash status h e t)))
      | inr t ↦ rw t (
          update-Round (mark_failed "on-chain transaction reverted") (λ x. refl)
            (by_chain
              (reverted-Closing (is_open_emergency w) g now row open_row b hash status h e t)))
    ]

    unsent-Round :
        row.status ≡ broadcasted
        → truthy row.tx_hash ≡ false
        → Post {A = Option Rebroadcast}
            (After row db)
            (After row db)
            ((update_request row.id (mark_failed "broadcasted without txHash") >> pure none) db)
    unsent-Round b h =
        update-Round (mark_failed "broadcasted without txHash") (λ x. refl)
          (by_chain (unsent-Closing (is_open_emergency w) g now row open_row b h))

    broadcasted-Round :
        (hash : Option String)
        → row.status ≡ broadcasted
        → row.tx_hash ≡ hash
        → Post (After row db) (After row db) (settle_bc_broadcasted g now row hash db)
    unfolding settle_bc_broadcasted
    broadcasted-Round none b h = unsent-Round b (rw h refl)
    broadcasted-Round (some hash) b h = elim (Bool-cases (hash == "")) [
      | inl e ↦ rw e (unsent-Round b (rw h (rw e refl)))
      | inr e ↦ rw e (receipt-Round hash (g hash) b h refl)
    ]

    processing-Round :
        row.status ≡ processing
        → Post (After row db) (After row db) (settle_bc_processing now row db)
    unfolding settle_bc_processing
    processing-Round p = elim (Bool-cases (truthy row.tx_hash)) [
      | inl t ↦ rw t (throws nothing)
      | inr t ↦ elim (Bool-cases (ltb (now - row.created_at) stale_emergency_processing_ms)) [
        | inl y ↦ rw t (rw y (throws nothing))
        | inr y ↦ rw t (
            rw y (
              update-Round (mark_failed "stale processing without broadcast") (λ x. refl)
                (expired open_row p t (ground arith) refl)))
      ]
    ]

    row-Round :
        (st : WithdrawStatus)
        → row.status ≡ st
        → Post (After row db) (After row db) (settle_bc_row g now st row db)
    unfolding settle_bc_row
    row-Round processing b = processing-Round b
    row-Round broadcasted b = broadcasted-Round row.tx_hash b refl
    row-Round _ b = returns nothing

  abbrev Listed : MainDb → WithdrawRequest → Type 0
  Listed db r = (is_open_emergency w r ≡ true) × IsFoundIn (λ x. x.id) db.withdraw_requests r

  -- After a round, the rows that are left are still what their ids find.
  Round-Listed :
      (row : WithdrawRequest) (rows : List WithdrawRequest) (db db' : MainDb)
      → HasUniqueKeys (λ x. x.id) (row ∷ rows)
      → Round row db db'
      → All (Listed db) rows
      → All (Listed db') rows
  unfolding count
  Round-Listed row rows db db' u round =
      All-count_none (Listed db) (Listed db') (λ x. x.id == row.id)
        (λ x h n. (
          h.0,
          round.others x.id (ground (arith, n, eq_iff x.id row.id, eq_iff row.id x.id)) ∙ h.1,
        ))
        rows (ground (arith, u row.id, eq_iff row.id row.id))

  next-Rewrites :
      (found : Option Rebroadcast) (k : Exec MainDb EmergencySettleOutcome) (db : MainDb)
      → Post (λ _ db'. Rewrites J db db') (λ _ db'. Rewrites J db db') (k db)
      → Post (λ _ db'. Rewrites J db db') (λ _ db'. Rewrites J db db') (or_next found k db)
  next-Rewrites none k db h = h
  next-Rewrites (some x) k db h = returns (Rewrites-same J (same w g now) db)

  rows-Rewrites :
      (rows : List WithdrawRequest) (db : MainDb)
      → HasUniqueKeys (λ x. x.id) rows
      → All (Listed db) rows
      → Post
          (λ _ db'. Rewrites J db db')
          (λ _ db'. Rewrites J db db')
          (settle_bc_rows g now rows db)
  unfolding settle_bc_rows count
  rows-Rewrites [] db u a = returns (Rewrites-same J (same w g now) db)
  rows-Rewrites (row ∷ rows) db u ((open_row, here), rest) =
      after-Post _
        (Post-mono (row-Round row db open_row here row.status refl) (λ _ _ h. h)
          (λ _ _ h. h.rewrites))
        λ found db1 round.
          Post-mono
            (next-Rewrites found (settle_bc_rows g now rows) db1 (
              rows-Rewrites rows db1 (λ k. ground (arith, u k))
                (Round-Listed row rows db db1 u round rest)))
            (λ _ db2 h. Rewrites-join J (joins w g now) db db1 db2 round.rewrites h)
            (λ _ db2 h. Rewrites-join J (joins w g now) db db1 db2 round.rewrites h)

  open_rows-HasUniqueKeys :
      (rows : List WithdrawRequest)
      → HasUniqueKeys (λ x. x.id) rows
      → HasUniqueKeys (λ x. x.id) (open_emergency_rows w rows)
  unfolding open_emergency_rows
  open_rows-HasUniqueKeys rows u k =
      let p = request_has_id k in
      let own = filter (is_open_row_of w) rows in
      omega (
        arith,
        count-sort_by p token_first (filter is_emergency (sort_by created_before own)),
        count-filter p is_emergency (sort_by created_before own),
        count-sort_by (λ x. is_emergency x && p x) created_before own,
        count-filter (λ x. is_emergency x && p x) (is_open_row_of w) rows,
        count_mono (λ x. is_open_row_of w x && (is_emergency x && p x)) p (λ x t. ground arith)
            rows,
        u k,
      )

  open_rows-Listed :
      (db : MainDb) → HasUniqueIds db → All (Listed db) (open_emergency_rows w db.withdraw_requests)
  unfolding open_emergency_rows
  open_rows-Listed db u =
      let rows = db.withdraw_requests in
      let Own : WithdrawRequest → Type 0 =
        λ r. (is_open_row_of w r ≡ true) × IsFoundIn (λ x. x.id) rows r in
      let own = filter (is_open_row_of w) rows in
      All-sort_by (Listed db) token_first (filter is_emergency (sort_by created_before own)) (
        All-filter_of Own (Listed db) is_emergency (λ x h e. (ground (arith, h.0, e), h.1))
          (sort_by created_before own)
          (All-sort_by Own created_before own (
            All-filter_of (IsFoundIn (λ x. x.id) rows) Own (is_open_row_of w) (λ x h e. (e, h)) rows
              (HasUniqueKeys-found (λ x. x.id) rows u))))

-- Where no two withdrawals have the same id: a settlement of a wallet's emergency withdrawals,
-- returned or thrown, leaves the wallet rows and the audit log alone, and each withdrawal, looked up
-- by its id, as it was, unless that is an emergency withdrawal of this wallet and is then: EXECUTED
-- now, if BROADCASTED and the receipt of its hash has status 1; FAILED as reverted, if BROADCASTED
-- and the receipt has another status; FAILED as never broadcast, if BROADCASTED without a hash; FAILED
-- as stale, if PROCESSING without a hash for two minutes or more.
pub settle_emergency-Rewrites :
    (g : GetReceipt) (now : ℕ) (w : String) (db : MainDb)
    → HasUniqueIds db
    → Rewrites (EmergencyClosing w g now) db (settle_open_emergency_bc_or_throw g now w db).1
unfolding settle_open_emergency_bc_or_throw
settle_emergency-Rewrites g now w db u =
    Post-state {P = λ db'. Rewrites (EmergencyClosing w g now) db db'} (
      rows-Rewrites w g now (open_emergency_rows w db.withdraw_requests) db
        (open_rows-HasUniqueKeys w g now db.withdraw_requests u) (open_rows-Listed w g now db u))
