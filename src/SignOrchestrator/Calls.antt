-- ===== src/SignOrchestrator/Calls.antt =====
-- Sequences of calls to the sign orchestrator (apps/api/src/mpc/sign-orchestrator.service.ts)
-- after sessions were started, in any order and by any users.
use selfmade_mpc_wallet.Prelude.{ℕ, ◌≤◌, String, ◌≡◌, List, [], ◌∷◌, arith}
use selfmade_mpc_wallet.Prelude.Dict.{length-insert, length-erase_le}
use selfmade_mpc_wallet.Errors.{Result}
use selfmade_mpc_wallet.Exec.Post.{Post, Post-mono, Post-state}
use selfmade_mpc_wallet.MpcCrypto.Routing.{WireMessage}
use selfmade_mpc_wallet.SignSession.{SignStep}
use selfmade_mpc_wallet.SignWasm.{SignEnv}
use selfmade_mpc_wallet.Server.{Server}
use selfmade_mpc_wallet.SignOrchestrator.{round1, round2, round3, abort, collected}
use selfmade_mpc_wallet.SignOrchestrator.Complete.{complete}
use selfmade_mpc_wallet.SignOrchestrator.Rounds.{Advanced, round1-Post, round2-Post, round3-Post}
use selfmade_mpc_wallet.SignOrchestrator.Budget.{sent_or_open, length-live_sessions, complete-Post}

-- A request, with the time at which it is served.
pub data Call : Type 0 where
  call_round1 call_round2 call_round3 : ℕ → String → String → List WireMessage → Call
  call_complete : ℕ → String → String → List WireMessage → Call
  call_abort : String → String → Call

unfoldable pub serve : SignEnv → Call → Server → Server
serve env (call_round1 now user_id id msgs) s = (round1 env now user_id id msgs s).1
serve env (call_round2 now user_id id msgs) s = (round2 env now user_id id msgs s).1
serve env (call_round3 now user_id id msgs) s = (round3 env now user_id id msgs s).1
serve env (call_complete now user_id id msgs) s = (complete env now user_id id msgs s).1
serve env (call_abort user_id id) s = (abort user_id id s).1

unfoldable pub serve_all : SignEnv → List Call → Server → Server
unfolding serve
serve_all env [] s = s
serve_all env (c ∷ calls) s = serve_all env calls (serve env c s)

collected-bound : (now : ℕ) (s : Server) → sent_or_open (collected now s) ≤ sent_or_open s
collected-bound now s = omega (arith, length-live_sessions now s.sign_sessions)

round-bound :
    {A : Type 0} (now : ℕ) (user_id id : String) (p q : SignStep) (s : Server)
    (out : Result A × Server)
    → Post
        (λ _ s'. Advanced now user_id id p q (collected now s) s')
        (λ _ s'. s' ≡ collected now s)
        out
    → sent_or_open out.1 ≤ sent_or_open s
round-bound now user_id id p q s out h =
    let fewer = collected-bound now s in
    Post-state {P = λ s'. sent_or_open s' ≤ sent_or_open s} (
      Post-mono h
        (λ _ s' k.
          let same = length-insert id (collected now s).sign_sessions k.before k.moved k.found in
          ground (arith, fewer, same, k.sign_sessions, k.broadcasts))
        (λ _ s' (k : s' ≡ collected now s). rw k fewer))

abort-bound :
    (user_id id : String) (s : Server) → sent_or_open (abort user_id id s).1 ≤ sent_or_open s
unfolding abort
abort-bound user_id id s = ground (arith, length-erase_le id s.sign_sessions)

serve-bound :
    (env : SignEnv) (c : Call) (s : Server) → sent_or_open (serve env c s) ≤ sent_or_open s
unfolding serve
serve-bound env (call_round1 now user_id id msgs) s =
    round-bound now user_id id _ _ s _ (round1-Post env now user_id id msgs s)
serve-bound env (call_round2 now user_id id msgs) s =
    round-bound now user_id id _ _ s _ (round2-Post env now user_id id msgs s)
serve-bound env (call_round3 now user_id id msgs) s =
    round-bound now user_id id _ _ s _ (round3-Post env now user_id id msgs s)
serve-bound env (call_complete now user_id id msgs) s =
    Post-state (complete-Post env now user_id id msgs s)
serve-bound env (call_abort user_id id) s = abort-bound user_id id s

-- Rounds, completions and aborts, however many and in whatever order, broadcast at most as many
-- transactions as sessions were open before them, less the sessions still open after them.
pub serve_all-sent_or_open :
    (env : SignEnv) (calls : List Call) (s : Server)
    → sent_or_open (serve_all env calls s) ≤ sent_or_open s
unfolding serve_all
serve_all-sent_or_open env [] s = omega arith
serve_all-sent_or_open env (c ∷ calls) s =
    omega (arith, serve-bound env c s, serve_all-sent_or_open env calls (serve env c s))
