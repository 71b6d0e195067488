-- ===== src/MainDb/Rewrites.antt =====
-- A database before and after a call that rewrites withdrawals in place: row by row, by primary key.
use selfmade_mpc_wallet.Prelude.{
  ◌≡◌, refl, sym, ap, ◌∙◌, subst, inl, inr, String, false, Option, none, some, ◌==◌, eq_iff, arith,
  find, update, find-update, map_option, HasUniqueKeys, Bool-cases,
}
use selfmade_mpc_wallet.MainDb.{WithdrawRequest, MainDb, request_has_id}

-- The row of one id, before and after.
pub data RowOf (J : WithdrawRequest → WithdrawRequest → Type 0)
    : Option WithdrawRequest → Option WithdrawRequest → Type 0 where
  missing : RowOf J none none
  there : {r r' : WithdrawRequest} → J r r' → RowOf J (some r) (some r')

pub record Rewrites (J : WithdrawRequest → WithdrawRequest → Type 0) (db db' : MainDb)
    : Type 0 where
  pub rows :
      (k : String)
      → RowOf J
          (find (request_has_id k) db.withdraw_requests)
          (find (request_has_id k) db'.withdraw_requests)
  pub wallets : db'.wallets ≡ db.wallets
  pub audit_logs : db'.audit_logs ≡ db.audit_logs

-- No two withdrawals have the same id.
abbrev pub HasUniqueIds : MainDb → Type 0
HasUniqueIds db = HasUniqueKeys (λ r. r.id) db.withdraw_requests

module _ (J : WithdrawRequest → WithdrawRequest → Type 0)
    (same : (r : WithdrawRequest) → J r r) where
  RowOf-same : (o : Option WithdrawRequest) → RowOf J o o
  RowOf-same none = missing
  RowOf-same (some r) = there (same r)

  pub Rewrites-same : (db : MainDb) → Rewrites J db db
  Rewrites-same db = record {
    rows = λ k. RowOf-same (find (request_has_id k) db.withdraw_requests);
    wallets = refl;
    audit_logs = refl;
  }

  -- The update of one row that is there.
  module _ (f : WithdrawRequest → WithdrawRequest) (keeps : (x : WithdrawRequest) → (f x).id ≡ x.id)
      (r : WithdrawRequest) (db : MainDb)
      (here : find (request_has_id r.id) db.withdraw_requests ≡ some r) where
    abbrev pub updated : MainDb
    updated = record db { withdraw_requests = update (request_has_id r.id) f db.withdraw_requests }

    pub update-found :
        (k : String)
        → (r.id == k) ≡ false
        → find (request_has_id k) updated.withdraw_requests
          ≡ find (request_has_id k) db.withdraw_requests
    update-found k n = find-update (λ x. x.id) f keeps r.id k db.withdraw_requests ∙ rw n refl

    RowOf-update :
        J r (f r)
        → (k : String)
        → RowOf J
            (find (request_has_id k) db.withdraw_requests)
            (find (request_has_id k) updated.withdraw_requests)
    RowOf-update j k = elim (Bool-cases (r.id == k)) [
      | inl e ↦
          let own : r.id ≡ k = ground (arith, e, eq_iff r.id k) in
          let before : find (request_has_id k) db.withdraw_requests ≡ some r =
            ap (λ i. find (request_has_id i) db.withdraw_requests) (sym own) ∙ here in
          let after : find (request_has_id k) updated.withdraw_requests ≡ some (f r) =
            find-update (λ x. x.id) f keeps r.id k db.withdraw_requests
            ∙ rw e (ap (map_option f) before) in
          subst (λ o. RowOf J o (find (request_has_id k) updated.withdraw_requests)) (sym before)
            (subst (λ o. RowOf J (some r) o) (sym after) (there j))
      | inr n ↦
          subst (λ o. RowOf J (find (request_has_id k) db.withdraw_requests) o)
            (sym (update-found k n)) (RowOf-same (find (request_has_id k) db.withdraw_requests))
    ]

    pub Rewrites-update : J r (f r) → Rewrites J db updated
    Rewrites-update j = record { rows = RowOf-update j; wallets = refl; audit_logs = refl }

-- One call after another.
module _ (J : WithdrawRequest → WithdrawRequest → Type 0)
    (joins : (a b c : WithdrawRequest) → J a b → J b c → J a c) where
  RowOf-join : (o p q : Option WithdrawRequest) → RowOf J o p → RowOf J p q → RowOf J o q
  RowOf-join none none none h k = missing
  RowOf-join none none (some c) h k = elim k [ ]
  RowOf-join none (some b) q h k = elim h [ ]
  RowOf-join (some a) none q h k = elim h [ ]
  RowOf-join (some a) (some b) none h k = elim k [ ]
  RowOf-join (some a) (some b) (some c) (there h) (there k) = there (joins a b c h k)

  pub Rewrites-join : (a b c : MainDb) → Rewrites J a b → Rewrites J b c → Rewrites J a c
  Rewrites-join a b c h k = record {
    rows = λ i.
        RowOf-join (find (request_has_id i) a.withdraw_requests)
          (find (request_has_id i) b.withdraw_requests)
          (find (request_has_id i) c.withdraw_requests) (h.rows i) (k.rows i);
    wallets = k.wallets ∙ h.wallets;
    audit_logs = k.audit_logs ∙ h.audit_logs;
  }
