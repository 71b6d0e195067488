-- ===== src/SignOrchestrator/Budget.antt =====
-- A broadcast uses up a sign session (apps/api/src/mpc/sign-orchestrator.service.ts).
use selfmade_mpc_wallet.Prelude.{
  ℕ, ◌+◌, ◌≤◌, String, ◌≡◌, refl, Option, none, some, List, [], ◌∷◌, ◌++◌, arith, length, ltb, true,
  not, find, inl, inr, Option-cases,
}
use selfmade_mpc_wallet.Prelude.Dict.{
  Dict, lookup, erase, insert, lookup-insert_self, length-erase_le, length-erase_lt, length-insert,
}
use selfmade_mpc_wallet.Errors.{Error, bad_request, not_found, no_code}
use selfmade_mpc_wallet.MpcCrypto.Routing.{WireMessage}
use selfmade_mpc_wallet.SignSession.{SignSessionState, completing}
use selfmade_mpc_wallet.SignWasm.{SignEnv}
use selfmade_mpc_wallet.Server.{Server}
use selfmade_mpc_wallet.SignOrchestrator.{live_sessions, collected, delete_session, owned_session}
use selfmade_mpc_wallet.Exec.{Exec, throw}
use selfmade_mpc_wallet.Exec.Post.{
  Post, returns, throws, after-Post, need-Post, check-Post, branch-Post, Post-mono, Post-of_parts,
  lift-Post, catch-Post,
}
use selfmade_mpc_wallet.MainDb.{WithdrawRequest, wallet_has_id, request_has_id}
use selfmade_mpc_wallet.NormalAb.{mark_executed}
use selfmade_mpc_wallet.Server.Laws.{SameMemory}
use selfmade_mpc_wallet.EmergencyRecovery.Checks.{unchanged-SameMemory}
use selfmade_mpc_wallet.SignOrchestrator.Rounds.{owned_lookup}
use selfmade_mpc_wallet.SignOrchestrator.Sign.{sign_raw}
use selfmade_mpc_wallet.SignOrchestrator.Complete.{
  fail_unfinished, mark_broadcasted, CompleteResult, update_returning, await_receipt, terminal_or,
  to_complete_result, find_terminal_by_session, complete_live, complete_session, is_terminal_row,
  is_at_msg4a, is_terminal_found, is_active_wallet, sign_and_broadcast, recover_failure, finish,
  complete,
}

-- The transactions broadcast, and the sessions that may still lead to one.
abbrev pub sent_or_open : Server → ℕ
sent_or_open s = length s.broadcasts + length s.sign_sessions

pub length-live_sessions :
    (now : ℕ) (m : Dict SignSessionState) → length (live_sessions now m) ≤ length m
unfolding live_sessions
length-live_sessions now [] = omega arith
length-live_sessions now ((id, st) ∷ m) = ground (arith, length-live_sessions now m)

length-add : (xs : List String) (x : String) → length (xs ++ x ∷ []) ≡ length xs + 1
length-add [] x = refl
length-add (y ∷ xs) x = omega (arith, length-add xs x)

unfinished-SameMemory :
    (id f : String) (again : Option WithdrawRequest) (s : Server)
    → SameMemory s (fail_unfinished id f again s).1
unfinished-SameMemory id f again s = ground arith

pub update_returning-Post :
    (id : String) (f : WithdrawRequest → WithdrawRequest) (s : Server)
    → Post (λ _ s'. SameMemory s s') (λ _ s'. s' ≡ s) (update_returning id f s)
unfolding update_returning
update_returning-Post id f s =
    elim (Option-cases (find (request_has_id id) s.db.withdraw_requests)) [
      | inl e ↦ rw e (throws refl)
      | inr (row, e) ↦ rw e (returns (record { sign_sessions = refl; broadcasts = refl }))
    ]

pub terminal_or-Post :
    {Q : CompleteResult → Server → Type 0} {E : Error → Server → Type 0}
    (o : Option WithdrawRequest) (k : Exec Server CompleteResult) (s : Server)
    → ((row : WithdrawRequest) → o ≡ some row → Q (to_complete_result row true) s)
    → (o ≡ none → Post Q E (k s))
    → Post Q E (terminal_or o k s)
terminal_or-Post none k s h g = g refl
terminal_or-Post (some row) k s h g = returns (h row refl)

module _ (env : SignEnv) (now : ℕ) (user_id session_id : String) where
  pub await_receipt-Post :
      {E : Error → Server → Type 0} (st : SignSessionState) (hash : String) (row : WithdrawRequest)
      (s : Server)
      → Post (λ _ s'. SameMemory s s') E (await_receipt env now user_id session_id st hash row s)
  unfolding await_receipt
  await_receipt-Post st hash row s =
      catch-Post _
        (branch-Post (env.wait_succeeds hash) _ _ s
          (λ _.
            after-Post _
              (Post-mono (update_returning-Post st.withdraw_request_id (mark_executed now) s)
                (λ _ _ h. h) (λ _ s1 (h : s1 ≡ s). unchanged-SameMemory h))
              λ _ s1 h.
                returns (record { sign_sessions = h.sign_sessions; broadcasts = h.broadcasts }))
          (λ _. throws (record { sign_sessions = refl; broadcasts = refl })))
        λ _ s1 h. returns (record { sign_sessions = h.sign_sessions; broadcasts = h.broadcasts })

  sign_and_broadcast-Post :
      (st : SignSessionState) (msg4a : List WireMessage) (s : Server) (st' : SignSessionState)
      → lookup session_id s.sign_sessions ≡ some st'
      → Post
          (λ _ s'. sent_or_open s' ≤ sent_or_open s)
          (λ _ s'.
            (length s'.broadcasts ≤ length s.broadcasts + 1) × (s'.sign_sessions ≡ s.sign_sessions))
          (sign_and_broadcast env now user_id session_id st msg4a s)
  unfolding sign_and_broadcast
  sign_and_broadcast-Post st msg4a s st' live =
      lift-Post (sign_raw env st msg4a) _ s (λ e _. (omega arith, refl))
        λ raw _.
          let one = length-add s.broadcasts raw in
          let fewer = length-erase_lt session_id s.sign_sessions st' live in
          lift-Post (env.broadcast_transaction raw) _ _ (λ e _. (omega (arith, one), refl))
            λ hash _.
              after-Post _
                (Post-mono
                  (update_returning-Post st.withdraw_request_id (mark_broadcasted now hash) _)
                  (λ _ _ h. h) (λ _ s1 h. ground (arith, one)))
                λ row s1 h.
                  Post-mono
                    (await_receipt-Post st hash row
                      (record s1 { sign_sessions = erase session_id s1.sign_sessions }))
                    (λ _ s2 k. ground (
                      arith, one, fewer, h.sign_sessions, h.broadcasts, k.sign_sessions,
                      k.broadcasts,
                    ))
                    (λ _ _ k. k)

  pub recover_failure-Post :
      (st : SignSessionState) (e : Error) (s : Server)
      → Post
          (λ _ s'.
            (s'.broadcasts ≡ s.broadcasts) × (s'.sign_sessions ≡ erase session_id s.sign_sessions))
          (λ _ s'.
            (s'.broadcasts ≡ s.broadcasts) × (s'.sign_sessions ≡ erase session_id s.sign_sessions))
          (recover_failure env now user_id session_id st e s)
  unfolding recover_failure
  recover_failure-Post st e s =
      Post-of_parts (recover_failure env now user_id session_id st e s) (λ a h. ground arith)
        (λ a h. ground arith)

  finish-Post :
      (st : SignSessionState) (msg4a : List WireMessage) (s : Server) (st' : SignSessionState)
      → lookup session_id s.sign_sessions ≡ some st'
      → Post
          (λ _ s'. sent_or_open s' ≤ sent_or_open s)
          (λ _ s'. sent_or_open s' ≤ sent_or_open s)
          (finish env now user_id session_id st msg4a s)
  unfolding finish
  finish-Post st msg4a s st' live =
      let at = record st { step = completing } in
      let kept = length-insert session_id s.sign_sessions st' at live in
      let there = lookup-insert_self session_id at s.sign_sessions in
      let fewer = length-erase_lt session_id (insert session_id at s.sign_sessions) at there in
      check-Post (ltb (length msg4a) 1) (bad_request no_code) _ s (λ _. omega arith)
        λ _.
          branch-Post (not (is_active_wallet (find (wallet_has_id st.wallet_id) s.db.wallets))) _ _
            s (λ _. throws (omega (arith, length-erase_le session_id s.sign_sessions)))
            λ _.
              catch-Post (recover_failure env now user_id session_id st)
                (Post-mono
                  (sign_and_broadcast-Post st msg4a
                    (record s { sign_sessions = insert session_id at s.sign_sessions }) at there)
                  (λ _ s1
                      (h : sent_or_open s1
                        ≤ length s.broadcasts + length (insert session_id at s.sign_sessions)).
                    omega (arith, kept))
                  (λ _ _ h. h))
                λ e s1 h.
                  Post-mono (recover_failure-Post st e s1)
                    (λ _ s2 k. ground (arith, h, k, kept, fewer))
                    (λ _ s2 k. ground (arith, h, k, kept, fewer))

  complete_live-Post :
      (st : SignSessionState) (msg4a : List WireMessage) (s : Server) (st' : SignSessionState)
      → lookup session_id s.sign_sessions ≡ some st'
      → Post
          (λ _ s'. sent_or_open s' ≤ sent_or_open s)
          (λ _ s'. sent_or_open s' ≤ sent_or_open s)
          (complete_live env now user_id session_id st msg4a s)
  unfolding complete_live find_terminal_by_session
  complete_live-Post st msg4a s st' live =
      branch-Post (not (is_at_msg4a st.step)) _ _ s
        (λ _.
          terminal_or-Post
            (find (is_terminal_row user_id session_id s.db.wallets) s.db.withdraw_requests)
            (throw (bad_request no_code)) s (λ _ _. omega arith)
            (λ _. throws {s = s} (omega arith)))
        (λ _. finish-Post st msg4a s st' live)

  complete_session-Post :
      (msg4a : List WireMessage) (s : Server)
      → Post
          (λ _ s'. sent_or_open s' ≤ sent_or_open s)
          (λ _ s'. sent_or_open s' ≤ sent_or_open s)
          (complete_session env now user_id session_id msg4a s)
  unfolding complete_session
  complete_session-Post msg4a s =
      let fewer = length-erase_le session_id s.sign_sessions in
      need-Post (owned_session user_id session_id s) (not_found no_code) _ s (λ _. omega arith)
        λ st own.
          branch-Post
            (is_terminal_found
              (find (request_has_id st.withdraw_request_id) s.db.withdraw_requests))
            _ _ s
            (λ _.
              terminal_or-Post (find (request_has_id st.withdraw_request_id) s.db.withdraw_requests)
                (throw (bad_request no_code)) (delete_session session_id s).1
                (λ _ _. omega (arith, fewer))
                (λ _. throws {s = (delete_session session_id s).1} (omega (arith, fewer))))
            (λ _.
              complete_live-Post st msg4a s st
                (owned_lookup user_id (lookup session_id s.sign_sessions) st own).0)

  -- However `complete` ends, there are no more broadcasts and sessions together than before it.
  pub complete-Post :
      (msg4a : List WireMessage) (s : Server)
      → Post
          (λ _ s'. sent_or_open s' ≤ sent_or_open s)
          (λ _ s'. sent_or_open s' ≤ sent_or_open s)
          (complete env now user_id session_id msg4a s)
  unfolding complete find_terminal_by_session
  complete-Post msg4a s =
      let fewer = length-live_sessions now s.sign_sessions in
      terminal_or-Post
        (find (is_terminal_row user_id session_id (collected now s).db.wallets)
          (collected now s).db.withdraw_requests)
        (complete_session env now user_id session_id msg4a) (collected now s)
        (λ _ _. omega (arith, fewer))
        λ _.
          Post-mono (complete_session-Post msg4a (collected now s))
            (λ _ s1 (h : sent_or_open s1 ≤ sent_or_open (collected now s)). omega (arith, fewer))
            (λ _ s1 (h : sent_or_open s1 ≤ sent_or_open (collected now s)). omega (arith, fewer))
