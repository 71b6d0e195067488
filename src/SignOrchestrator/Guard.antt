-- ===== src/SignOrchestrator/Guard.antt =====
-- When `complete` (apps/api/src/mpc/sign-orchestrator.service.ts) broadcasts, and what.
use selfmade_mpc_wallet.Prelude.{
  ℕ, String, ◌≡◌, refl, ◌∙◌, ◌⊎◌, inl, inr, false, not, Option, none, some, List, [], ◌∷◌, ◌++◌,
  arith, ap, find, ltb, length,
}
use selfmade_mpc_wallet.Prelude.Dict.{lookup, insert, erase}
use selfmade_mpc_wallet.Errors.{bad_request, not_found, no_code, returned}
use selfmade_mpc_wallet.Exec.{throw}
use selfmade_mpc_wallet.Exec.Post.{
  Post, throws, after-Post, need-Post, check-Post, branch-Post, Post-mono, lift-Post, catch-Post,
  Post-state,
}
use selfmade_mpc_wallet.MpcCrypto.Routing.{WireMessage}
use selfmade_mpc_wallet.MainDb.{Wallet, active, request_has_id, wallet_has_id}
use selfmade_mpc_wallet.SignSession.{SignSessionState, SignStep, wait_msg4a, completing}
use selfmade_mpc_wallet.SignWasm.{SignEnv}
use selfmade_mpc_wallet.Server.{Server}
use selfmade_mpc_wallet.SignOrchestrator.{collected, delete_session, is_expired, owned_session}
use selfmade_mpc_wallet.SignOrchestrator.Sign.{sign_raw}
use selfmade_mpc_wallet.SignOrchestrator.Complete.{
  sign_and_broadcast, recover_failure, finish, complete_live, complete_session, complete,
  find_terminal_by_session, is_terminal_row, is_at_msg4a, is_active_wallet, is_terminal_found,
  mark_broadcasted,
}
use selfmade_mpc_wallet.SignOrchestrator.Rounds.{live_sessions-fresh, owned_lookup}
use selfmade_mpc_wallet.SignOrchestrator.Retry.{expire_rows-wallets}
use selfmade_mpc_wallet.SignOrchestrator.Budget.{
  terminal_or-Post, update_returning-Post, await_receipt-Post, recover_failure-Post,
}

-- One transaction was handed to the node: the one that the session of the caller signs, in a live
-- session that had gone through its three rounds, for a wallet that is ACTIVE.
pub record Authorised (env : SignEnv) (now : ℕ) (user_id session_id : String)
    (msg4a : List WireMessage) (s s' : Server) : Type 0 where
  pub session : SignSessionState
  pub found : lookup session_id (collected now s).sign_sessions ≡ some session
  pub fresh : is_expired now session ≡ false
  pub owner : session.user_id ≡ user_id
  pub at_step : session.step ≡ wait_msg4a
  pub wallet : Wallet
  pub wallet_found : find (wallet_has_id session.wallet_id) s.db.wallets ≡ some wallet
  pub is_active : wallet.status ≡ active
  pub raw : String
  pub signed : sign_raw env session msg4a ≡ returned raw
  pub sent : s'.broadcasts ≡ s.broadcasts ++ raw ∷ []

module _ (env : SignEnv) (st : SignSessionState) (msg4a : List WireMessage) (C : Type 0)
    (before : List String) where
  -- Nothing was broadcast, or the transaction that the session signs was, under a condition.
  pub data Sent (s : Server) : Type 0 where
    nothing : s.broadcasts ≡ before → Sent s
    one :
        C
        → (raw : String) → sign_raw env st msg4a ≡ returned raw
        → s.broadcasts ≡ before ++ raw ∷ []
        → Sent s

  Sent-same : (s1 s2 : Server) → Sent s1 → s2.broadcasts ≡ s1.broadcasts → Sent s2
  Sent-same s1 s2 (nothing e) h = nothing (h ∙ e)
  Sent-same s1 s2 (one c raw signed e) h = one c raw signed (h ∙ e)

active_wallet :
    (o : Option Wallet)
    → not (is_active_wallet o) ≡ false
    → (w : Wallet) × (o ≡ some w) × (w.status ≡ active)
active_wallet none h = absurd (cc)
active_wallet (some w) h = (w, refl, ground arith)

at_msg4a : (p : SignStep) → not (is_at_msg4a p) ≡ false → p ≡ wait_msg4a
at_msg4a p h = ground arith

under :
    {C D : Type 0} (env : SignEnv) (st : SignSessionState) (msg4a : List WireMessage)
    (before : List String) (s : Server)
    → (C → D)
    → Sent env st msg4a C before s
    → Sent env st msg4a D before s
under env st msg4a before s f (nothing e) = nothing e
under env st msg4a before s f (one c raw signed e) = one (f c) raw signed e

module _ (env : SignEnv) (now : ℕ) (user_id session_id : String) (st : SignSessionState)
    (msg4a : List WireMessage) where
  sign_and_broadcast-Sent :
      {C : Type 0} (c : C) (s : Server)
      → Post
          (λ _ s'. Sent env st msg4a C s.broadcasts s')
          (λ _ s'. Sent env st msg4a C s.broadcasts s')
          (sign_and_broadcast env now user_id session_id st msg4a s)
  unfolding sign_and_broadcast
  sign_and_broadcast-Sent c s =
      lift-Post (sign_raw env st msg4a) _ s (λ _ _. nothing refl)
        λ raw signed.
          lift-Post (env.broadcast_transaction raw) _ _ (λ _ _. one c raw signed refl)
            λ hash _.
              after-Post _
                (Post-mono
                  (update_returning-Post st.withdraw_request_id (mark_broadcasted now hash) _)
                  (λ _ _ h. h) (λ _ s1 h. one c raw signed (ap (λ x. x.broadcasts) h)))
                λ row s1 h.
                  Post-mono
                    (await_receipt-Post env now user_id session_id st hash row
                      (record s1 { sign_sessions = erase session_id s1.sign_sessions }))
                    (λ _ s2 k. one c raw signed (k.broadcasts ∙ h.broadcasts)) (λ _ _ k. k)

  abbrev ActiveAt : Server → Type 0
  ActiveAt s =
      (w : Wallet) × (find (wallet_has_id st.wallet_id) s.db.wallets ≡ some w) × (w.status ≡ active)

  finish-Sent :
      (s : Server)
      → Post
          (λ _ s'. Sent env st msg4a (ActiveAt s) s.broadcasts s')
          (λ _ s'. Sent env st msg4a (ActiveAt s) s.broadcasts s')
          (finish env now user_id session_id st msg4a s)
  unfolding finish
  finish-Sent s =
      let at = record st { step = completing } in
      let wallet_now = find (wallet_has_id st.wallet_id) s.db.wallets in
      check-Post (ltb (length msg4a) 1) (bad_request no_code) _ s (λ _. nothing refl)
        λ _.
          branch-Post (not (is_active_wallet wallet_now)) _ _ s (λ _. throws (nothing refl))
            λ w.
              catch-Post (recover_failure env now user_id session_id st)
                (sign_and_broadcast-Sent {C = ActiveAt s} (active_wallet wallet_now w)
                  (record s { sign_sessions = insert session_id at s.sign_sessions }))
                λ e s1 h.
                  Post-mono (recover_failure-Post env now user_id session_id st e s1)
                    (λ _ s2 k. Sent-same env st msg4a (ActiveAt s) s.broadcasts s1 s2 h k.0)
                    (λ _ s2 k. Sent-same env st msg4a (ActiveAt s) s.broadcasts s1 s2 h k.0)

  complete_live-Sent :
      (s : Server)
      → Post
          (λ _ s'. Sent env st msg4a ((st.step ≡ wait_msg4a) × ActiveAt s) s.broadcasts s')
          (λ _ s'. Sent env st msg4a ((st.step ≡ wait_msg4a) × ActiveAt s) s.broadcasts s')
          (complete_live env now user_id session_id st msg4a s)
  unfolding complete_live find_terminal_by_session
  complete_live-Sent s =
      branch-Post (not (is_at_msg4a st.step)) _ _ s
        (λ _.
          terminal_or-Post
            (find (is_terminal_row user_id session_id s.db.wallets) s.db.withdraw_requests)
            (throw (bad_request no_code)) s (λ _ _. nothing refl)
            (λ _. throws {s = s} (nothing refl)))
        λ at.
          Post-mono (finish-Sent s)
            (λ _ s' h. under env st msg4a s.broadcasts s' (λ c. (at_msg4a st.step at, c)) h)
            (λ _ s' h. under env st msg4a s.broadcasts s' (λ c. (at_msg4a st.step at, c)) h)

Authorised-of_Sent :
    (env : SignEnv) (now : ℕ) (user_id session_id : String) (st : SignSessionState)
    (msg4a : List WireMessage) (s s' : Server)
    → owned_session user_id session_id (collected now s) ≡ some st
    → Sent env st msg4a
        ((st.step ≡ wait_msg4a) × ActiveAt env now user_id session_id st msg4a (collected now s))
        s.broadcasts
        s'
    → (s'.broadcasts ≡ s.broadcasts) ⊎ Authorised env now user_id session_id msg4a s s'
Authorised-of_Sent env now user_id session_id st msg4a s s' own (nothing e) = inl e
Authorised-of_Sent env now user_id session_id st msg4a s s' own (one c raw signed e) =
    let h = owned_lookup user_id (lookup session_id (collected now s).sign_sessions) st own in
    inr (record {
      session = st;
      found = h.0;
      fresh = live_sessions-fresh now session_id s.sign_sessions st h.0;
      owner = h.1;
      at_step = c.0;
      wallet = c.1.0;
      wallet_found = rw (← expire_rows-wallets now s.sign_sessions s.db) c.1.1;
      is_active = c.1.2;
      raw = raw;
      signed = signed;
      sent = e;
    })

-- Whether it returns or throws, `complete` hands at most one transaction to the node, and only the
-- one that the caller's session signs, at most ten minutes old and at WAIT_MSG4A, while the row of
-- its wallet is ACTIVE.
pub complete-Authorised :
    (env : SignEnv) (now : ℕ) (user_id session_id : String) (msg4a : List WireMessage) (s : Server)
    → ((complete env now user_id session_id msg4a s).1.broadcasts ≡ s.broadcasts)
      ⊎ Authorised env now user_id session_id msg4a s
          (complete env now user_id session_id msg4a s).1
unfolding complete find_terminal_by_session complete_session
complete-Authorised env now user_id session_id msg4a s =
    let now_s = collected now s in
    Post-state
      {P = λ s'. (s'.broadcasts ≡ s.broadcasts) ⊎ Authorised env now user_id session_id msg4a s s'}
      (terminal_or-Post
        (find (is_terminal_row user_id session_id now_s.db.wallets) now_s.db.withdraw_requests)
        (complete_session env now user_id session_id msg4a) now_s (λ _ _. inl refl)
        λ _.
          need-Post (owned_session user_id session_id now_s) (not_found no_code) _ now_s
            (λ _. inl refl)
            λ st own.
              branch-Post
                (is_terminal_found
                  (find (request_has_id st.withdraw_request_id) now_s.db.withdraw_requests))
                _ _ now_s
                (λ _.
                  terminal_or-Post
                    (find (request_has_id st.withdraw_request_id) now_s.db.withdraw_requests)
                    (throw (bad_request no_code)) (delete_session session_id now_s).1
                    (λ _ _. inl refl)
                    (λ _. throws {s = (delete_session session_id now_s).1} (inl refl)))
                λ _.
                  Post-mono (complete_live-Sent env now user_id session_id st msg4a now_s)
                    (λ _ s' h. Authorised-of_Sent env now user_id session_id st msg4a s s' own h)
                    (λ _ s' h. Authorised-of_Sent env now user_id session_id st msg4a s s' own h))
