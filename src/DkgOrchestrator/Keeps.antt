-- ===== src/DkgOrchestrator/Keeps.antt =====
-- apps/api/src/mpc/dkg-orchestrator.service.ts: what the calls of the key generation
-- leave of the wallet rows and of the rows of Share C.
use selfmade_mpc_wallet.Prelude.{
  ℕ, String, ◌≡◌, refl, ap, not, Option, none, some, List, [], ◌∷◌, ◌++◌, ◌==◌, is_some, find,
}
use selfmade_mpc_wallet.Prelude.Dict.{Dict, lookup}
use selfmade_mpc_wallet.Errors.{Error}
use selfmade_mpc_wallet.Exec.{Exec, catch, ◌>>◌}
use selfmade_mpc_wallet.Exec.Post.{
  Post, returns, throws, or_throw-Post, after-Post, check-Post, need-Post, lift-Post,
}
use selfmade_mpc_wallet.Exec.Frame.{Frame, bind-Frame, if-Frame, Frame-Post}
use selfmade_mpc_wallet.MainDb.{Wallet}
use selfmade_mpc_wallet.RecoveryServer.{RecoveryServer, RecoveryEnv, RecoveryShare, share_of}
use selfmade_mpc_wallet.RecoveryClient.{
  Delivery, unserved, unanswered, garbled, answered, request, request-Post, ignored,
  request_dkg_abort,
}
use selfmade_mpc_wallet.RecoveryServer.History.{dkg_abort}
use selfmade_mpc_wallet.RecoveryServer.Dkg.{FinalizedC, abort_dkg, require_dkg, finalize}
use selfmade_mpc_wallet.RecoveryServer.Shares.{
  active_share, create_share, assert_share_c_insert_allowed,
}
use selfmade_mpc_wallet.MpcCrypto.Routing.{party_c}
use selfmade_mpc_wallet.DkgOrchestrator.{
  KeygenWorld, DkgSession, DkgEnv, on_party_c, delete_session, is_overdue, drop_overdue,
  gc_sessions, require_owned_dkg,
}

-- The wallet rows of the main server and the rows of Share C.
abbrev pub key_rows : KeygenWorld → List Wallet × List RecoveryShare
key_rows w = (w.db.wallets, w.recovery.shares)

abbrev pub wallet_rows : KeygenWorld → List Wallet
wallet_rows w = w.db.wallets

aborted-Frame :
    (env : DkgEnv) (now : ℕ) (id : String) (d : Delivery) (w : KeygenWorld)
    → key_rows (on_party_c (catch (request d (abort_dkg id)) ignored) w).1 ≡ key_rows w
aborted-Frame env now id unserved w = refl
aborted-Frame env now id unanswered w = refl
aborted-Frame env now id garbled w = refl
aborted-Frame env now id answered w = refl

module _ (env : DkgEnv) (now : ℕ) where
  pub dkg_abort-Frame :
      (id : String) → Frame key_rows (on_party_c (request_dkg_abort env.recovery now id))
  dkg_abort-Frame id = aborted-Frame env now id (env.recovery.delivery (dkg_abort id))

  drop_one-Frame :
      (id : String) (rest : Exec KeygenWorld Unit)
      → Frame key_rows rest
      → Frame key_rows
          (delete_session id >> (on_party_c (request_dkg_abort env.recovery now id) >> rest))
  drop_one-Frame id rest h =
      let abort = on_party_c (request_dkg_abort env.recovery now id) in
      bind-Frame key_rows {A = Unit} {B = Unit} (delete_session id) (λ _. abort >> rest) (λ w. refl)
        λ _. bind-Frame key_rows {A = Unit} {B = Unit} abort (λ _. rest) (dkg_abort-Frame id) λ _. h

  drop_overdue-Frame : (m : Dict DkgSession) → Frame key_rows (drop_overdue env now m)
  unfolding drop_overdue
  drop_overdue-Frame [] = λ w. refl
  drop_overdue-Frame ((id, st) ∷ m) =
      let rest = drop_overdue env now m in
      if-Frame key_rows (is_overdue now st)
        (delete_session id >> (on_party_c (request_dkg_abort env.recovery now id) >> rest)) rest
        (drop_one-Frame id rest (drop_overdue-Frame m)) (drop_overdue-Frame m)

  gc_sessions-Frame : Frame key_rows (gc_sessions env now)
  unfolding gc_sessions
  gc_sessions-Frame w = drop_overdue-Frame w.sessions w

  pub require_owned_dkg-Post :
      (user_id id : String) (w : KeygenWorld)
      → Post
          (λ _ w'. key_rows w' ≡ key_rows w)
          (λ _ w'. key_rows w' ≡ key_rows w)
          (require_owned_dkg env now user_id id w)
  unfolding require_owned_dkg
  require_owned_dkg-Post user_id id w =
      after-Post _ (Frame-Post key_rows (gc_sessions env now) w gc_sessions-Frame) λ _ w1 k.
        need-Post (lookup id w1.sessions) _ _ w1 (λ _. k)
          λ st _. check-Post (not (st.user_id == user_id)) _ _ w1 (λ _. k) λ _. returns k

-- One new row of Share C, with the public key that party C answered.
pub record Finalized (rows : List RecoveryShare) (final : FinalizedC) (s' : RecoveryServer)
    : Type 0 where
  pub share : RecoveryShare
  pub shares : s'.shares ≡ rows ++ share ∷ []
  pub same : share.mpc_public_key ≡ final.mpc_public_key

module _ (renv : RecoveryEnv) (now : ℕ) (row_id id : String) (rows : List RecoveryShare) where
  abbrev Anything : Error → RecoveryServer → Type 0
  Anything e s = Unit

  require_dkg-Post :
      (s : RecoveryServer)
      → s.shares ≡ rows
      → Post (λ _ s'. s'.shares ≡ rows) Anything (require_dkg now id s)
  unfolding require_dkg
  require_dkg-Post s k = or_throw-Post _ _ _ (λ _. tt) (λ _ _. k)

  insert_allowed-Post :
      (existing : Option RecoveryShare) (s : RecoveryServer)
      → s.shares ≡ rows
      → Post (λ _ s'. s'.shares ≡ rows) Anything (assert_share_c_insert_allowed existing s)
  insert_allowed-Post none s k = returns k
  insert_allowed-Post (some row) s k = throws tt

  create_share-Post :
      (row : RecoveryShare) (s : RecoveryServer)
      → s.shares ≡ rows
      → Post (λ _ s'. s'.shares ≡ rows ++ row ∷ []) Anything (create_share row s)
  create_share-Post row s k =
      check-Post (is_some (find (share_of row.wallet_id) s.shares)) _ _ s (λ _. tt)
        λ _. returns (ap (λ t. t ++ row ∷ []) k)

  finalize-Post :
      (s : RecoveryServer)
      → s.shares ≡ rows
      → Post (Finalized rows) Anything (finalize renv now row_id id s)
  unfolding finalize
  finalize-Post s k = after-Post _ (require_dkg-Post s k) λ st s1 k1.
      lift-Post (renv.keygen_wasm.keyshare (renv.base64.base64_to_bytes st.state_b64)) _ s1
        (λ _ _. tt)
        λ share _.
          lift-Post (renv.encrypt_share_c share.1) _ s1 (λ _ _. tt)
            λ encrypted _.
              after-Post _ (insert_allowed-Post (find (share_of st.wallet_id) s1.shares) s1 k1)
                λ _ s2 k2.
                  let row =
                    active_share now row_id st.wallet_id st.user_id party_c
                      (renv.public_key_to_hex share.0) encrypted in
                  after-Post {A = Unit} _ (create_share-Post row s2 k2)
                    λ _ s3 k3. returns (record { share = row; shares = k3; same = refl })

module _ (env : DkgEnv) (now : ℕ) (row_id id : String) (rows : List RecoveryShare) where
  pub request-finalize-Post :
      (d : Delivery) (s : RecoveryServer)
      → s.shares ≡ rows
      → Post
          (Finalized rows)
          (λ _ _. Unit)
          (request d (finalize env.recovery.server now row_id id) s)
  request-finalize-Post d s k =
      request-Post d (finalize env.recovery.server now row_id id) s
        (finalize-Post env.recovery.server now row_id id rows s k) (λ _. tt) (λ _ _ _ _. tt)
        (λ _ _ _ _. tt)
