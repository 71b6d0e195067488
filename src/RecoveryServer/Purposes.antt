-- ===== src/RecoveryServer/Purposes.antt =====
-- What the signing sessions of the Recovery Server (apps/recovery/src/sign/sign.service.ts) were
-- opened for, after each of its calls.
use selfmade_mpc_wallet.Prelude.{
  ℕ, ◌≤◌, String, ◌≡◌, refl, ap, ◌∙◌, Bool, true, not, ◌||◌, some, List, [], ◌∷◌, arith, eqb, ltb,
  length, is_some, ◌==◌, find, count,
}
use selfmade_mpc_wallet.Prelude.Dict.{
  Dict, lookup, insert, erase, count-erase_le, count-insert_le, lookup-count,
}
use selfmade_mpc_wallet.Errors.{Error, conflict, bad_request, not_found, no_code}
use selfmade_mpc_wallet.Exec.Post.{
  Post, returns, Post-of_parts, check-Post, need-Post, lift-Post, same-Post,
}
use selfmade_mpc_wallet.MpcCrypto.Routing.{MpcMessage, WireMessage}
use selfmade_mpc_wallet.RecoveryServer.{RecoveryServer, RecoveryEnv, SignStateC, share_of}
use selfmade_mpc_wallet.RecoveryServer.Shares.{load_active_share_c_bytes}
use selfmade_mpc_wallet.RecoveryServer.Sign.{
  fresh_sessions, start, round1, round2, round3, last_message, handle, is_at_msg1b, is_at_msg2b,
  is_at_msg3b,
}

-- A test on what a session was opened for: its id, its wallet and the text of its digest.
abbrev pub Purpose : Type 0
Purpose = String → String → String → Bool

abbrev pub strays : Purpose → String × SignStateC → Bool
strays g e = not (g e.0 e.1.wallet_id e.1.digest_b64)

-- How many sessions fail the test.
abbrev pub astray : Purpose → RecoveryServer → ℕ
astray g s = count (strays g) s.sign_sessions

module _ (g : Purpose) where
  pub fresh_le :
      (now : ℕ) (m : Dict SignStateC) → count (strays g) (fresh_sessions now m) ≤ count (strays g) m
  unfolding fresh_sessions count
  fresh_le now [] = omega arith
  fresh_le now ((id, st) ∷ m) = ground (arith, fresh_le now m)

  abbrev pub Clean : {A : Type 0} → A → RecoveryServer → Type 0
  Clean a s = astray g s ≡ 0

  module _ (env : RecoveryEnv) (now : ℕ) where
    pub handle-same :
        (st : SignStateC) (msgs : List MpcMessage) (s : RecoveryServer)
        → Post (λ _ s'. (s' ≡ s) × Unit {0}) (λ _ s'. s' ≡ s) (handle env st msgs s)
    handle-same st msgs s =
        lift-Post (env.sign_wasm.handle_messages (env.base64.base64_to_bytes st.state_b64) msgs) _ s
          (λ _ _. refl) λ _ _. returns (refl, tt)

    pub load-same :
        (w : String) (s : RecoveryServer)
        → Post (λ _ s'. (s' ≡ s) × Unit {0}) (λ _ s'. s' ≡ s) (load_active_share_c_bytes env w s)
    unfolding load_active_share_c_bytes
    load-same w s =
        need-Post (find (share_of w) s.shares) (not_found no_code) _ s (λ _. refl)
          λ row _.
            check-Post (not (row.status == "ACTIVE")) (conflict no_code) _ s (λ _. refl)
              λ _.
                Post-of_parts (env.decrypt_share_c row.encrypted_share_c, s) (λ _ _. (refl, tt))
                  (λ _ _. refl)

    abbrev pub swept : RecoveryServer → RecoveryServer
    swept s = record s { sign_sessions = fresh_sessions now s.sign_sessions }

    pub swept-Clean : (s : RecoveryServer) → astray g s ≡ 0 → astray g (swept s) ≡ 0
    swept-Clean s c = omega (arith, fresh_le now s.sign_sessions)

    abbrev pub ByThrow : Error → RecoveryServer → Type 0
    ByThrow e s = astray g s ≡ 0

    module _ (id : String) (s : RecoveryServer) (c : astray g s ≡ 0) where
      pub moved-Clean :
          (st moved : SignStateC)
          → lookup id (swept s).sign_sessions ≡ some st
          → g id moved.wallet_id moved.digest_b64 ≡ g id st.wallet_id st.digest_b64
          → count (strays g) (insert id moved (swept s).sign_sessions) ≡ 0
      moved-Clean st moved e same = omega (
        arith,
        swept-Clean s c,
        count-insert_le (strays g) id moved (swept s).sign_sessions (
            ap not same
            ∙ lookup-count (strays g) id st (swept s).sign_sessions (swept-Clean s c) e),
      )

      pub round1-Clean : (msgs : List WireMessage) → Post Clean ByThrow (round1 env now id msgs s)
      unfolding round1
      round1-Clean msgs =
          need-Post (lookup id (swept s).sign_sessions) (not_found no_code) _ (swept s)
            (λ _. swept-Clean s c)
            λ st e.
              check-Post (not (is_at_msg1b st.step)) (bad_request no_code) _ (swept s)
                (λ _. swept-Clean s c)
                λ _.
                  check-Post (ltb (length msgs) 1) (bad_request no_code) _ (swept s)
                    (λ _. swept-Clean s c)
                    λ _.
                      same-Post _ (handle-same st _ (swept s)) (λ _. swept-Clean s c)
                        λ out _. returns (moved-Clean st _ e refl)

      pub round2-Clean : (msgs : List WireMessage) → Post Clean ByThrow (round2 env now id msgs s)
      unfolding round2
      round2-Clean msgs =
          need-Post (lookup id (swept s).sign_sessions) (not_found no_code) _ (swept s)
            (λ _. swept-Clean s c)
            λ st e.
              check-Post (not (is_at_msg2b st.step) || not (is_some st.msg2c)) (bad_request no_code)
                _ (swept s) (λ _. swept-Clean s c)
                λ _.
                  same-Post _ (handle-same st _ (swept s)) (λ _. swept-Clean s c)
                    λ out _. returns (moved-Clean st _ e refl)

      pub round3-Clean : (msgs : List WireMessage) → Post Clean ByThrow (round3 env now id msgs s)
      unfolding round3
      round3-Clean msgs =
          need-Post (lookup id (swept s).sign_sessions) (not_found no_code) _ (swept s)
            (λ _. swept-Clean s c)
            λ st e.
              check-Post (not (is_at_msg3b st.step) || not (is_some st.msg3c)) (bad_request no_code)
                _ (swept s) (λ _. swept-Clean s c)
                λ _.
                  same-Post _ (handle-same st _ (swept s)) (λ _. swept-Clean s c)
                    λ out _. returns (moved-Clean st _ e refl)

      pub last-Clean : astray g (last_message env now id s).1 ≡ 0
      unfolding last_message
      last-Clean =
          ground (arith, swept-Clean s c, count-erase_le (strays g) id (swept s).sign_sessions)

      pub abort-Clean : count (strays g) (erase id s.sign_sessions) ≡ 0
      abort-Clean = omega (arith, c, count-erase_le (strays g) id s.sign_sessions)

      -- A session is opened for the id, wallet and digest that the caller names.
      pub start-Clean :
          (wallet_id digest_b64 : String)
          → (eqb (length (env.base64.base64_to_bytes digest_b64)) 32 ≡ true
              → g id wallet_id digest_b64 ≡ true)
          → Post Clean ByThrow (start env now id wallet_id digest_b64 s)
      unfolding start
      start-Clean wallet_id digest_b64 t =
          check-Post (not (eqb (length (env.base64.base64_to_bytes digest_b64)) 32))
            (bad_request no_code) _ (swept s) (λ _. swept-Clean s c)
            λ len.
              same-Post _ (load-same wallet_id (swept s)) (λ _. swept-Clean s c)
                λ share _.
                  lift-Post (env.open_session share) _ (swept s) (λ _ _. swept-Clean s c)
                    λ opened _. returns (
                      omega (
                        arith,
                        swept-Clean s c,
                        count-insert_le (strays g) id _ (swept s).sign_sessions
                            (ap not (t (ground arith))),
                      ))
