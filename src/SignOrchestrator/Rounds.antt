-- ===== src/SignOrchestrator/Rounds.antt =====
-- What the three rounds of apps/api/src/mpc/sign-orchestrator.service.ts do to a session.
use selfmade_mpc_wallet.Prelude.{
  ℕ, String, ◌≡◌, refl, Bool, false, not, ◌||◌, Option, none, some, List, [], ◌∷◌, arith, is_some,
  eq_iff,
}
use selfmade_mpc_wallet.Prelude.Dict.{Dict, lookup, insert}
use selfmade_mpc_wallet.Errors.{bad_request, not_found, no_code}
use selfmade_mpc_wallet.Exec.Post.{Post, returns, need-Post, check-Post, same-Post, lift-Post}
use selfmade_mpc_wallet.MpcCrypto.Routing.{MpcMessage, WireMessage}
use selfmade_mpc_wallet.SignSession.{
  SignSessionState, SignStep, wait_msg1a, wait_msg2a, wait_msg3a, wait_msg4a,
}
use selfmade_mpc_wallet.SignWasm.{SignEnv}
use selfmade_mpc_wallet.Server.{Server}
use selfmade_mpc_wallet.SignOrchestrator.{
  handle, is_expired, live_sessions, collected, owned, owned_session, is_at_msg1a, is_at_msg2a,
  is_at_msg3a, is_single_from_a, round1, round2, round3,
}

-- No session that stays is older than ten minutes.
pub live_sessions-fresh :
    (now : ℕ) (k : String) (m : Dict SignSessionState) (st : SignSessionState)
    → lookup k (live_sessions now m) ≡ some st
    → is_expired now st ≡ false
unfolding live_sessions lookup
live_sessions-fresh now k [] st h = cc
live_sessions-fresh now k ((j, x) ∷ m) st h = ground (arith, live_sessions-fresh now k m st)

pub owned_lookup :
    (user_id : String) (o : Option SignSessionState) (st : SignSessionState)
    → owned user_id o ≡ some st
    → (o ≡ some st) × (st.user_id ≡ user_id)
owned_lookup user_id none st h = cc
owned_lookup user_id (some x) st h = ground (arith, eq_iff x.user_id user_id)

-- The two states of a session differ in the step, the messages and the protocol state only.
pub record SameJob (before now : SignSessionState) : Type 0 where
  pub session_id : now.session_id ≡ before.session_id
  pub user_id : now.user_id ≡ before.user_id
  pub wallet_id : now.wallet_id ≡ before.wallet_id
  pub withdraw_request_id : now.withdraw_request_id ≡ before.withdraw_request_id
  pub digest_b64 : now.digest_b64 ≡ before.digest_b64
  pub tx : now.tx ≡ before.tx
  pub address : now.address ≡ before.address
  pub created_at : now.created_at ≡ before.created_at

-- What a round that returns has done; `s` is the state after the removal of old sessions.
pub record Advanced (now : ℕ) (user_id session_id : String) (from_step to_step : SignStep)
    (s s' : Server) : Type 0 where
  pub before : SignSessionState
  pub moved : SignSessionState
  pub found : lookup session_id s.sign_sessions ≡ some before
  pub fresh : is_expired now before ≡ false
  pub owner : before.user_id ≡ user_id
  pub from_ok : before.step ≡ from_step
  pub to_ok : moved.step ≡ to_step
  pub same_job : SameJob before moved
  pub sign_sessions : s'.sign_sessions ≡ insert session_id moved s.sign_sessions
  pub db : s'.db ≡ s.db
  pub broadcasts : s'.broadcasts ≡ s.broadcasts

at_msg1a : (p : SignStep) → not (is_at_msg1a p) ≡ false → p ≡ wait_msg1a
at_msg1a p h = ground arith

at_msg2a : (p : SignStep) (b : Bool) → (not (is_at_msg2a p) || not b) ≡ false → p ≡ wait_msg2a
at_msg2a p b h = ground arith

at_msg3a : (p : SignStep) (b : Bool) → (not (is_at_msg3a p) || not b) ≡ false → p ≡ wait_msg3a
at_msg3a p b h = ground arith

handle-Post :
    (env : SignEnv) (st : SignSessionState) (msgs : List MpcMessage) (s : Server)
    → Post (λ _ s'. (s' ≡ s) × Unit {0}) (λ _ s'. s' ≡ s) (handle env st msgs s)
handle-Post env st msgs s =
    lift-Post (env.wasm.handle_messages (env.base64.base64_to_bytes st.state_b64) msgs) _ s
      (λ _ _. refl) (λ _ _. returns (refl, tt))

kept_job :
    (st : SignSessionState) (msg1b : WireMessage) (msg2b msg3b : Option (List WireMessage))
    (state_b64 : String) (step : SignStep)
    → SameJob st (record st {
      msg1b = msg1b;
      msg2b = msg2b;
      msg3b = msg3b;
      state_b64 = state_b64;
      step = step;
    })
kept_job st msg1b msg2b msg3b state_b64 step = record {
  session_id = refl;
  user_id = refl;
  wallet_id = refl;
  withdraw_request_id = refl;
  digest_b64 = refl;
  tx = refl;
  address = refl;
  created_at = refl;
}

module _ (env : SignEnv) (now : ℕ) (user_id session_id : String) (msgs : List WireMessage)
    (s : Server) where
  abbrev now_s : Server
  now_s = collected now s

  advanced :
      (before moved : SignSessionState) (from_step to_step : SignStep)
      → owned_session user_id session_id (collected now s) ≡ some before
      → before.step ≡ from_step
      → moved.step ≡ to_step
      → SameJob before moved
      → Advanced now user_id session_id from_step to_step (collected now s) (record s {
        db = (collected now s).db;
        sign_sessions = insert session_id moved (collected now s).sign_sessions;
      })
  advanced before moved from_step to_step own from_ok to_ok job =
      let h = owned_lookup user_id (lookup session_id (collected now s).sign_sessions) before own in
      record {
        before = before;
        moved = moved;
        found = h.0;
        fresh = live_sessions-fresh now session_id s.sign_sessions before h.0;
        owner = h.1;
        from_ok = from_ok;
        to_ok = to_ok;
        same_job = job;
        sign_sessions = refl;
        db = refl;
        broadcasts = refl;
      }

  -- A first round that returns takes a session of the caller, at most ten minutes old, from
  -- WAIT_MSG1A to WAIT_MSG2A: what it signs stays, and so do all other sessions, the database and
  -- what was broadcast, after the removal of old sessions. One that throws does that removal only.
  pub round1-Post :
      Post
        (λ _ s'. Advanced now user_id session_id wait_msg1a wait_msg2a (collected now s) s')
        (λ _ s'. s' ≡ collected now s)
        (round1 env now user_id session_id msgs s)
  unfolding round1
  round1-Post =
      need-Post (owned_session user_id session_id now_s) (not_found no_code) _ now_s (λ _. refl)
        λ st own.
          check-Post (not (is_at_msg1a st.step)) (bad_request no_code) _ now_s (λ _. refl)
            λ at.
              check-Post (not (is_single_from_a msgs)) (bad_request no_code) _ now_s (λ _. refl)
                λ _.
                  same-Post _ (handle-Post env st _ now_s) (λ _. refl)
                    λ out _. returns (
                      advanced st _ wait_msg1a wait_msg2a own (at_msg1a st.step at) refl
                        (kept_job st _ _ _ _ _))

  -- A second round that returns takes a session of the caller, at most ten minutes old, from
  -- WAIT_MSG2A to WAIT_MSG3A: what it signs stays, and so do all other sessions, the database and
  -- what was broadcast, after the removal of old sessions. One that throws does that removal only.
  pub round2-Post :
      Post
        (λ _ s'. Advanced now user_id session_id wait_msg2a wait_msg3a (collected now s) s')
        (λ _ s'. s' ≡ collected now s)
        (round2 env now user_id session_id msgs s)
  unfolding round2
  round2-Post =
      need-Post (owned_session user_id session_id now_s) (not_found no_code) _ now_s (λ _. refl)
        λ st own.
          check-Post (not (is_at_msg2a st.step) || not (is_some st.msg2b)) (bad_request no_code) _
            now_s (λ _. refl)
            λ at.
              same-Post _ (handle-Post env st _ now_s) (λ _. refl)
                λ out _. returns (
                  advanced st _ wait_msg2a wait_msg3a own (at_msg2a st.step (is_some st.msg2b) at)
                    refl (kept_job st _ _ _ _ _))

  -- A third round that returns takes a session of the caller, at most ten minutes old, from
  -- WAIT_MSG3A to WAIT_MSG4A: what it signs stays, and so do all other sessions, the database and
  -- what was broadcast, after the removal of old sessions. One that throws does that removal only.
  pub round3-Post :
      Post
        (λ _ s'. Advanced now user_id session_id wait_msg3a wait_msg4a (collected now s) s')
        (λ _ s'. s' ≡ collected now s)
        (round3 env now user_id session_id msgs s)
  unfolding round3
  round3-Post =
      need-Post (owned_session user_id session_id now_s) (not_found no_code) _ now_s (λ _. refl)
        λ st own.
          check-Post (not (is_at_msg3a st.step) || not (is_some st.msg3b)) (bad_request no_code) _
            now_s (λ _. refl)
            λ at.
              same-Post _ (handle-Post env st _ now_s) (λ _. refl)
                λ out _. returns (
                  advanced st _ wait_msg3a wait_msg4a own (at_msg3a st.step (is_some st.msg3b) at)
                    refl (kept_job st _ _ _ _ _))
