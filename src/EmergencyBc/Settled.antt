-- ===== src/EmergencyBc/Settled.antt =====
-- What `settleOpenEmergencyBcOrThrow` (apps/api/src/wallet/emergency-bc-withdraw.ts) leaves behind.
use selfmade_mpc_wallet.Prelude.{
  ℕ, ◌-◌, ◌≤◌, String, ◌≡◌, refl, ◌∙◌, inl, inr, Bool, true, false, not, ◌&&◌, Option, none, some,
  List, [], ◌∷◌, arith, ◌==◌, eq_iff, find, filter, count, count-update_into, count-update_le,
  count_mono, has_row, has_row-filter, has_row-sort_by, count-unlisted, count-sort_by, count-filter,
  count_none, has_row-sort_all, sort_by, truthy, ltb, Option-cases, Bool-cases,
}
use selfmade_mpc_wallet.Errors.{conflict, sign_session_busy, returned}
use selfmade_mpc_wallet.Exec.{Exec, pure, throw, ◌>>◌}
use selfmade_mpc_wallet.Exec.Post.{
  Post, returns, throws, Post-mono, Post-returned, Post-state, after-Post, branch-Post,
}
use selfmade_mpc_wallet.MainDb.{
  WithdrawStatus, processing, broadcasted, WithdrawRequest, MainDb, request_has_id, update_request,
}
use selfmade_mpc_wallet.Chain.{GetReceipt, ReceiptLookup, lookup_failed, not_mined, mined}
use selfmade_mpc_wallet.NormalAb.{
  is_open_ab_status, mark_failed, mark_executed, is_success, is_open_normal_ab,
}
use selfmade_mpc_wallet.NormalAb.Settled.{open_normal_ab}
use selfmade_mpc_wallet.EmergencyBc.{
  is_emergency, is_open_row_of, token_first, created_before, open_emergency_rows, Rebroadcast,
  EmergencySettleOutcome, clear, signed_raw_from_metadata, to_rebroadcast, settle_bc_receipt,
  settle_bc_processing, settle_bc_broadcasted, settle_bc_row, or_next, settle_bc_rows,
  settle_open_emergency_bc_or_throw, stale_emergency_processing_ms,
}

abbrev pub is_open_emergency : String → WithdrawRequest → Bool
is_open_emergency w r = is_open_row_of w r && is_emergency r

-- How many emergency withdrawals the wallet has in flight.
abbrev pub open_emergency : String → MainDb → ℕ
open_emergency w db = count (is_open_emergency w) db.withdraw_requests

abbrev id_of : WithdrawRequest → String
id_of r = r.id

-- In flight, and not one of the given rows.
abbrev unlisted : String → List WithdrawRequest → WithdrawRequest → Bool
unlisted w rows r = is_open_emergency w r && not (has_row id_of r.id rows)

-- Closed rows only: no withdrawal of any wallet is put in flight, and no wallet row changes.
pub record OnlyCloses (db db' : MainDb) : Type 0 where
  pub emergency : (v : String) → open_emergency v db' ≤ open_emergency v db
  pub normal : (v : String) → open_normal_ab v db' ≤ open_normal_ab v db
  pub wallets : db'.wallets ≡ db.wallets

closes_refl : (db : MainDb) → OnlyCloses db db
closes_refl db = record { emergency = λ v. omega arith; normal = λ v. omega arith; wallets = refl }

closes_trans : (a b c : MainDb) → OnlyCloses a b → OnlyCloses b c → OnlyCloses a c
closes_trans a b c h k = record {
  emergency = λ v. omega (arith, h.emergency v, k.emergency v);
  normal = λ v. omega (arith, h.normal v, k.normal v);
  wallets = k.wallets ∙ h.wallets;
}

unlisted-nil :
    (w : String) (x : WithdrawRequest) → is_open_emergency w x ≡ true → unlisted w [] x ≡ true
unfolding has_row
unlisted-nil w x t = ground arith

-- What one round of the loop does to the rows that are in flight.
record Step (w : String) (row : WithdrawRequest) (db : MainDb) (out : Option Rebroadcast)
    (db' : MainDb) : Type 0 where
  closes : OnlyCloses db db'
  rest :
      out ≡ none
      → (rows : List WithdrawRequest)
      → count (unlisted w rows) db'.withdraw_requests
        ≤ count (unlisted w (row ∷ rows)) db.withdraw_requests

unlisted-cons :
    (w : String) (row : WithdrawRequest) (rows : List WithdrawRequest) (x : WithdrawRequest)
    → request_has_id row.id x ≡ false
    → unlisted w rows x ≡ true
    → unlisted w (row ∷ rows) x ≡ true
unfolding has_row
unlisted-cons w row rows x m t = ground (arith, eq_iff row.id x.id, eq_iff x.id row.id)

module _ (w : String) (row : WithdrawRequest) (db : MainDb) where
  closed-Step :
      (f : WithdrawRequest → WithdrawRequest)
      → ((x : WithdrawRequest) → is_open_ab_status (f x).status ≡ false)
      → Post
          (Step w row db)
          (λ _ db'. OnlyCloses db db')
          ((update_request row.id f >> pure none) db)
  closed-Step f shut = elim (Option-cases (find (request_has_id row.id) db.withdraw_requests)) [
    | inl e ↦ rw e (throws (closes_refl db))
    | inr (x, e) ↦ rw e (
        returns (record {
          closes = record {
            emergency = λ v.
                count-update_le (is_open_emergency v) (request_has_id row.id) f
                  (λ x _ t. ground (arith, shut x)) db.withdraw_requests;
            normal = λ v.
                count-update_le (is_open_normal_ab v) (request_has_id row.id) f
                  (λ x _ t. ground (arith, shut x)) db.withdraw_requests;
            wallets = refl;
          };
          rest = λ _ rows.
              count-update_into (unlisted w rows) (unlisted w (row ∷ rows)) (request_has_id row.id)
                f (λ x _ t. ground (arith, shut x)) (λ x m t. unlisted-cons w row rows x m t)
                db.withdraw_requests;
        }))
  ]

  mark_failed-Step :
      (reason : String)
      → Post
          (Step w row db)
          (λ _ db'. OnlyCloses db db')
          ((update_request row.id (mark_failed reason) >> pure none) db)
  mark_failed-Step reason = closed-Step (mark_failed reason) (λ x. refl)

  stopped-Step :
      (id hash : String) (raw : Option String)
      → Post (Step w row db) (λ _ db'. OnlyCloses db db') (to_rebroadcast id hash raw db)
  stopped-Step id hash none = throws (closes_refl db)
  stopped-Step id hash (some raw) =
      returns (record { closes = closes_refl db; rest = λ t. absurd (cc) })

  receipt-Step :
      (now : ℕ) (hash : String) (found : ReceiptLookup)
      → Post (Step w row db) (λ _ db'. OnlyCloses db db') (settle_bc_receipt now row hash found db)
  unfolding settle_bc_receipt
  receipt-Step now hash lookup_failed = throws (closes_refl db)
  receipt-Step now hash not_mined = stopped-Step row.id hash (signed_raw_from_metadata row.metadata)
  receipt-Step now hash (mined status) = elim (Bool-cases (is_success status)) [
    | inl e ↦ rw e (closed-Step (mark_executed now) (λ x. refl))
    | inr e ↦ rw e (mark_failed-Step _)
  ]

  broadcasted-Step :
      (g : GetReceipt) (now : ℕ) (hash : Option String)
      → Post (Step w row db) (λ _ db'. OnlyCloses db db') (settle_bc_broadcasted g now row hash db)
  unfolding settle_bc_broadcasted
  broadcasted-Step g now none = mark_failed-Step _
  broadcasted-Step g now (some hash) =
      branch-Post (hash == "") _ _ db (λ _. mark_failed-Step _)
        (λ _. receipt-Step now hash (g hash))

  row-Step :
      (g : GetReceipt) (now : ℕ) (st : WithdrawStatus)
      → is_open_ab_status st ≡ true
      → Post (Step w row db) (λ _ db'. OnlyCloses db db') (settle_bc_row g now st row db)
  unfolding settle_bc_row settle_bc_processing
  row-Step g now processing o =
      branch-Post (truthy row.tx_hash) _ _ db (λ _. throws (closes_refl db))
        λ _.
          branch-Post (ltb (now - row.created_at) stale_emergency_processing_ms)
            (throw (conflict sign_session_busy))
            (update_request row.id (mark_failed "stale processing without broadcast") >> pure none)
            db (λ _. throws {e = conflict sign_session_busy} (closes_refl db))
            (λ _. mark_failed-Step "stale processing without broadcast")
  row-Step g now broadcasted o = broadcasted-Step g now row.tx_hash
  row-Step g now _ o = absurd (cc)

next-Closed :
    (w : String) (row : WithdrawRequest) (rows : List WithdrawRequest) (db : MainDb)
    (found : Option Rebroadcast) (k : Exec MainDb EmergencySettleOutcome) (db1 : MainDb)
    → Step w row db found db1
    → Post
        (λ out db'.
          OnlyCloses db1 db'
          × (out ≡ clear → open_emergency w db' ≤ count (unlisted w rows) db1.withdraw_requests))
        (λ _ db'. OnlyCloses db1 db')
        (k db1)
    → Post
        (λ out db'.
          OnlyCloses db db'
          × (out ≡ clear
              → open_emergency w db' ≤ count (unlisted w (row ∷ rows)) db.withdraw_requests))
        (λ _ db'. OnlyCloses db db')
        (or_next found k db1)
next-Closed w row rows db none k db1 step h =
    Post-mono h
      (λ _ db2 c.
        (closes_trans db db1 db2 step.closes c.0, λ t. omega (arith, c.1 t, step.rest refl rows)))
      (λ _ db2 c. closes_trans db db1 db2 step.closes c)
next-Closed w row rows db (some x) k db1 step h = returns (step.closes, λ t. absurd (cc))

abbrev is_closed : WithdrawRequest → Bool
is_closed r = not (is_open_ab_status r.status)

-- The loop, over rows that are all in flight when they are read.
rows-Closed :
    (w : String) (g : GetReceipt) (now : ℕ) (rows : List WithdrawRequest) (db : MainDb)
    → count is_closed rows ≡ 0
    → Post
        (λ out db'.
          OnlyCloses db db'
          × (out ≡ clear → open_emergency w db' ≤ count (unlisted w rows) db.withdraw_requests))
        (λ _ db'. OnlyCloses db db')
        (settle_bc_rows g now rows db)
unfolding settle_bc_rows count
rows-Closed w g now [] db o = returns (
  closes_refl db,
  λ _.
      count_mono (is_open_emergency w) (unlisted w []) (λ x t. unlisted-nil w x t)
        db.withdraw_requests,
)
rows-Closed w g now (row ∷ rows) db o =
    after-Post _ (row-Step w row db g now row.status (ground arith)) λ found db1 step.
      next-Closed w row rows db found (settle_bc_rows g now rows) db1 step
        (rows-Closed w g now rows db1 (ground arith))

open_rows-open :
    (w : String) (rows : List WithdrawRequest) → count is_closed (open_emergency_rows w rows) ≡ 0
unfolding open_emergency_rows
open_rows-open w rows =
    count-sort_by is_closed token_first _
    ∙ count-filter is_closed is_emergency (sort_by created_before (filter (is_open_row_of w) rows))
    ∙ count-sort_by (λ x. is_emergency x && is_closed x) created_before
        (filter (is_open_row_of w) rows)
    ∙ count-filter (λ x. is_emergency x && is_closed x) (is_open_row_of w) rows
    ∙ count_none (λ x. is_open_row_of w x && (is_emergency x && is_closed x)) (λ x. ground arith)
        rows

-- Every emergency row in flight is among the rows that the loop runs over.
open_rows-all :
    (w : String) (rows : List WithdrawRequest)
    → count (unlisted w (open_emergency_rows w rows)) rows ≡ 0
unfolding open_emergency_rows
open_rows-all w rows =
    count-unlisted id_of (is_open_emergency w) rows (open_emergency_rows w rows) λ k.
      has_row-sort_all id_of token_first k
        (filter is_emergency (sort_by created_before (filter (is_open_row_of w) rows)))
      ∙ has_row-sort_by id_of created_before is_emergency k (filter (is_open_row_of w) rows)
      ∙ has_row-filter id_of is_emergency (is_open_row_of w) k rows

-- What a settlement that returns `clear` leaves, and what any settlement keeps.
settle-Closed :
    (w : String) (g : GetReceipt) (now : ℕ) (db : MainDb)
    → Post
        (λ out db'. OnlyCloses db db' × (out ≡ clear → open_emergency w db' ≡ 0))
        (λ _ db'. OnlyCloses db db')
        (settle_open_emergency_bc_or_throw g now w db)
unfolding settle_open_emergency_bc_or_throw
settle-Closed w g now db =
    let rows = open_emergency_rows w db.withdraw_requests in
    Post-mono (rows-Closed w g now rows db (open_rows-open w db.withdraw_requests))
      (λ _ db' h. (h.0, λ t. omega (arith, h.1 t, open_rows-all w db.withdraw_requests)))
      (λ _ db' h. h)

-- A settlement of a wallet's emergency withdrawals that returns `clear` leaves it none in flight.
pub settle_emergency-clear :
    (g : GetReceipt) (now : ℕ) (w : String) (db : MainDb)
    → (settle_open_emergency_bc_or_throw g now w db).0 ≡ returned clear
    → open_emergency w (settle_open_emergency_bc_or_throw g now w db).1 ≡ 0
settle_emergency-clear g now w db h = (Post-returned (settle-Closed w g now db) h).1 refl

-- However it ends, it puts no withdrawal of any wallet in flight and changes no wallet row.
pub settle_emergency-OnlyCloses :
    (g : GetReceipt) (now : ℕ) (w : String) (db : MainDb)
    → OnlyCloses db (settle_open_emergency_bc_or_throw g now w db).1
settle_emergency-OnlyCloses g now w db =
    Post-state {P = λ db'. OnlyCloses db db'}
      (Post-mono (settle-Closed w g now db) (λ _ _ h. h.0) (λ _ _ h. h))
