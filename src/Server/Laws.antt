-- ===== src/Server/Laws.antt =====
-- How the database writes of a handler show in the server's state.
use selfmade_mpc_wallet.Prelude.{
  ℕ, ◌≤◌, String, ◌≡◌, refl, inl, inr, Option, ◌==◌, Option-cases, find, count, ap, find-update,
  map_option, if◌then◌else◌,
}
use selfmade_mpc_wallet.Errors.{Error}
use selfmade_mpc_wallet.Exec.{Exec}
use selfmade_mpc_wallet.Exec.Post.{Post, transaction-Post, returns, throws, Post-of_parts}
use selfmade_mpc_wallet.MainDb.{Wallet, wallet_has_id, update_wallet}
use selfmade_mpc_wallet.Chain.{GetReceipt}
use selfmade_mpc_wallet.NormalAb.{is_open_normal_ab, settle_open_normal_ab_or_throw}
use selfmade_mpc_wallet.NormalAb.Settled.{open_normal_ab, settle-Settled}
use selfmade_mpc_wallet.Server.{Server, on_db, db_transaction}

-- The wallet with a given id.
abbrev pub wallet_at : String → Server → Option Wallet
wallet_at k s = find (wallet_has_id k) s.db.wallets

-- Sign sessions and what was broadcast are as before.
pub record SameMemory (s s' : Server) : Type 0 where
  pub sign_sessions : s'.sign_sessions ≡ s.sign_sessions
  pub broadcasts : s'.broadcasts ≡ s.broadcasts

-- An update of one wallet row.
pub record WalletUpdated (k : String) (f : Wallet → Wallet) (s s' : Server) : Type 0 where
  pub at :
      (j : String)
      → wallet_at j s' ≡ (if k == j then map_option f (wallet_at j s) else wallet_at j s)
  pub withdraw_requests : s'.db.withdraw_requests ≡ s.db.withdraw_requests
  pub memory : SameMemory s s'

pub update_wallet-Post :
    (k : String) (f : Wallet → Wallet) (s : Server)
    → ((w : Wallet) → (f w).id ≡ w.id)
    → Post (λ _ s'. WalletUpdated k f s s') (λ _ s'. s' ≡ s) (on_db (update_wallet k f) s)
update_wallet-Post k f s keeps = elim (Option-cases (wallet_at k s)) [
  | inl e ↦ rw e (throws refl)
  | inr (w, e) ↦ rw e (
      returns (record {
        at = λ j. find-update (λ w. w.id) f keeps k j s.db.wallets;
        withdraw_requests = refl;
        memory = record { sign_sessions = refl; broadcasts = refl };
      }))
]

-- The settlement of a normal withdrawal, in a handler.
pub record SettledFor (w : String) (s s' : Server) : Type 0 where
  pub clears : open_normal_ab w s.db ≤ 1 → open_normal_ab w s'.db ≡ 0
  pub raises_none : (v : String) → open_normal_ab v s'.db ≤ open_normal_ab v s.db
  pub wallets : s'.db.wallets ≡ s.db.wallets
  pub memory : SameMemory s s'

pub settle-Post :
    (g : GetReceipt) (now : ℕ) (w : String) (s : Server)
    → Post
        (λ _ s'. SettledFor w s s')
        (λ _ s'. SameMemory s s')
        (on_db (settle_open_normal_ab_or_throw g now w) s)
settle-Post g now w s =
    let h = settle-Settled g now w s.db in
    Post-of_parts (on_db (settle_open_normal_ab_or_throw g now w) s)
      (λ a e. record {
        clears = h.clears e;
        raises_none = h.raises_none;
        wallets = h.same_wallets;
        memory = record { sign_sessions = refl; broadcasts = refl };
      })
      (λ _ _. record { sign_sessions = refl; broadcasts = refl })

pub open_normal_ab-same :
    (v : String) (s s' : Server)
    → s'.db.withdraw_requests ≡ s.db.withdraw_requests
    → open_normal_ab v s'.db ≡ open_normal_ab v s.db
open_normal_ab-same v s s' h = ap (count (is_open_normal_ab v)) h

-- A transaction commits what it did, or gives the database back.
pub db_transaction-Post :
    {A : Type 0} {Q : A → Server → Type 0} {E E' : Error → Server → Type 0} (m : Exec Server A)
    (s : Server)
    → Post Q E (m s)
    → ((e : Error) (s' : Server) → E e s' → E' e (record s' { db = s.db }))
    → Post Q E' (db_transaction m s)
db_transaction-Post m s p g = transaction-Post (λ x. x.db) (λ d x. record x { db = d }) m s p g
