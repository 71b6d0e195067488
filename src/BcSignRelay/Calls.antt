-- ===== src/BcSignRelay/Calls.antt =====
-- What the calls of the relay (apps/api/src/mpc/bc-sign-relay.ts) leave on the Recovery Server.
use selfmade_mpc_wallet.Prelude.{
  ℕ, String, ◌≡◌, refl, ◌∙◌, not, none, List, [], ◌∷◌, arith, eq_refl,
}
use selfmade_mpc_wallet.Prelude.Dict.{Dict, lookup, lookup-erase}
use selfmade_mpc_wallet.Errors.{bad_request, not_found, no_code}
use selfmade_mpc_wallet.Exec.{Exec}
use selfmade_mpc_wallet.Exec.Post.{
  Post, returns, Post-mono, Post-of_parts, check-Post, need-Post, lift-Post,
}
use selfmade_mpc_wallet.MpcCrypto.Routing.{WireMessage}
use selfmade_mpc_wallet.RecoveryServer.{RecoveryServer, RecoveryEnv, SignStateC, RecoveryShare}
use selfmade_mpc_wallet.RecoveryServer.Sign.{
  start, round1, round2, round3, last_message, fresh_sessions, is_at_last,
}
use selfmade_mpc_wallet.RecoveryServer.Shares.{load_active_share_c_bytes}
use selfmade_mpc_wallet.RecoveryServer.History.{sign_round1, sign_round2, sign_round3, sign_last}
use selfmade_mpc_wallet.RecoveryServer.Untouched.{
  start-shares, round1-shares, round2-shares, round3-shares,
}
use selfmade_mpc_wallet.RecoveryClient.{
  Delivery, request, request_round1, request_round2, request_round3, request_last, request-Post,
}
use selfmade_mpc_wallet.BcSignRelay.{RelayEnv}

pub lookup-fresh_none :
    (now : ℕ) (k : String) (m : Dict SignStateC)
    → lookup k m ≡ none
    → lookup k (fresh_sessions now m) ≡ none
unfolding lookup fresh_sessions
lookup-fresh_none now k [] h = refl
lookup-fresh_none now k ((j, st) ∷ m) h = ground (arith, lookup-fresh_none now k m)

abbrev pub Kept : {A : Type 0} → List RecoveryShare → A → RecoveryServer → Type 0
Kept rows a s = s.shares ≡ rows

abbrev pub Closed : {A : Type 0} → String → List RecoveryShare → A → RecoveryServer → Type 0
Closed id rows a s = (s.shares ≡ rows) × (lookup id s.sign_sessions ≡ none)

-- A request whose handler keeps the rows of the shares.
pub request-Kept :
    {A : Type 0} (rows : List RecoveryShare) (d : Delivery) (call : Exec RecoveryServer A)
    (s : RecoveryServer)
    → (call s).1.shares ≡ s.shares
    → s.shares ≡ rows
    → Post (Kept rows) (Kept rows) (request d call s)
request-Kept rows d call s h k =
    request-Post {Q = Kept rows} {E = Kept rows} d call s
      (Post-of_parts (call s) (λ _ _. h ∙ k) (λ _ _. h ∙ k)) (λ _. k) (λ _ _ _ q. q) (λ _ _ _ q. q)

module _ (server : RecoveryEnv) (now : ℕ) (id : String) (s : RecoveryServer) where
  pub last-Closed : Post (Closed id s.shares) (Kept s.shares) (last_message server now id s)
  unfolding last_message
  last-Closed =
      let t = record s { sign_sessions = fresh_sessions now s.sign_sessions } in
      need-Post (lookup id t.sign_sessions) (not_found no_code) _ t (λ _. refl)
        λ st _.
          check-Post (not (is_at_last st.step)) (bad_request no_code) _ t (λ _. refl)
            λ _.
              lift-Post
                (server.sign_wasm.last_message (server.base64.base64_to_bytes st.state_b64)
                  (server.base64.base64_to_bytes st.digest_b64))
                _ t (λ _ _. refl)
                λ _ _. returns (refl, lookup-erase id id t.sign_sessions ∙ rw (eq_refl id) refl)

  pub start-Closed :
      (wallet_id digest_b64 : String)
      → lookup id s.sign_sessions ≡ none
      → Post
          (λ st s'. (s'.shares ≡ s.shares) × (st.session_id ≡ id))
          (Closed id s.shares)
          (start server now id wallet_id digest_b64 s)
  unfolding start load_active_share_c_bytes
  start-Closed wallet_id digest_b64 h =
      Post-of_parts (start server now id wallet_id digest_b64 s)
        (λ st e. (start-shares server now id wallet_id digest_b64 s, ground arith))
        λ err e. (
          start-shares server now id wallet_id digest_b64 s,
          ground (arith, lookup-fresh_none now id s.sign_sessions h),
        )

module _ (env : RelayEnv) (now : ℕ) (rows : List RecoveryShare) where
  pub round1-Kept :
      (id : String) (ms : List WireMessage) (s : RecoveryServer)
      → s.shares ≡ rows
      → Post (Kept rows) (Kept rows) (request_round1 env.recovery now id ms s)
  round1-Kept id ms s k =
      request-Kept rows (env.recovery.delivery (sign_round1 id ms))
        (round1 env.recovery.server now id ms) s (round1-shares env.recovery.server now id ms s) k

  pub round2-Kept :
      (id : String) (ms : List WireMessage) (s : RecoveryServer)
      → s.shares ≡ rows
      → Post (Kept rows) (Kept rows) (request_round2 env.recovery now id ms s)
  round2-Kept id ms s k =
      request-Kept rows (env.recovery.delivery (sign_round2 id ms))
        (round2 env.recovery.server now id ms) s (round2-shares env.recovery.server now id ms s) k

  pub round3-Kept :
      (id : String) (ms : List WireMessage) (s : RecoveryServer)
      → s.shares ≡ rows
      → Post (Kept rows) (Kept rows) (request_round3 env.recovery now id ms s)
  round3-Kept id ms s k =
      request-Kept rows (env.recovery.delivery (sign_round3 id ms))
        (round3 env.recovery.server now id ms) s (round3-shares env.recovery.server now id ms s) k

  pub last-Kept :
      (id : String) (s : RecoveryServer)
      → s.shares ≡ rows
      → Post (Closed id rows) (Kept rows) (request_last env.recovery now id s)
  last-Kept id s k =
      request-Post {Q = Closed id rows} {E = Kept rows} {E' = Kept rows}
        (env.recovery.delivery (sign_last id)) (last_message env.recovery.server now id) s
        (Post-mono (last-Closed env.recovery.server now id s) (λ _ _ q. (q.0 ∙ k, q.1))
          (λ _ _ q. q ∙ k))
        (λ _. k) (λ _ _ _ q. q.0) (λ _ _ _ q. q)
