-- ===== src/DkgOrchestrator/Done.antt =====
-- apps/api/src/mpc/dkg-orchestrator.service.ts: what `complete` leaves.
use selfmade_mpc_wallet.Prelude.{
  ℕ, String, ◌≡◌, refl, eq_refl, subst, sym, ap, ◌∙◌, arith, true, not, none, [], ◌∷◌, ◌++◌, ◌==◌,
  ◌||◌, eq_iff, is_some, find, count, find-none,
}
use selfmade_mpc_wallet.Prelude.Dict.{Dict, lookup, erase, lookup-erase}
use selfmade_mpc_wallet.Exec.Post.{
  Post, returns, throws, Post-mono, throw_if-Post, after-Post, check-Post, same-Post, lift-Post,
  zoom-Post, branch-Post,
}
use selfmade_mpc_wallet.Exec.Frame.{Frame-Post}
use selfmade_mpc_wallet.MainDb.{MainDb, Wallet, wallet_has_id}
use selfmade_mpc_wallet.SignOrchestrator.Start.{or_blank}
use selfmade_mpc_wallet.RecoveryServer.{RecoveryShare}
use selfmade_mpc_wallet.RecoveryClient.{request_dkg_abort, request_dkg_finalize}
use selfmade_mpc_wallet.RecoveryServer.History.{dkg_finalize}
use selfmade_mpc_wallet.RecoveryServer.Dkg.{FinalizedC}
use selfmade_mpc_wallet.DkgOrchestrator.{
  KeygenWorld, DkgSession, DkgEnv, on_main_db, on_party_c, is_live_of, assert_no_live_wallet,
}
use selfmade_mpc_wallet.DkgOrchestrator.Rounds.{
  KeygenAnswer, is_wait_final, breaks_index, create_wallet, new_wallet, assert_same_key,
  complete_keygen,
}
use selfmade_mpc_wallet.DkgOrchestrator.Keeps.{
  key_rows, wallet_rows, dkg_abort-Frame, require_owned_dkg-Post, Finalized, request-finalize-Post,
}

-- `complete` has returned: one new wallet, live and of this user, where there was no live one; and
-- one new row of Share C, under the same public key. The session is gone.
pub record KeygenDone (env : DkgEnv) (user_id id : String) (w : KeygenWorld) (a : KeygenAnswer)
    (w' : KeygenWorld) : Type 0 where
  pub wallet : Wallet
  pub wallets : w'.db.wallets ≡ w.db.wallets ++ wallet ∷ []
  pub live : is_live_of user_id wallet ≡ true
  pub first : count (is_live_of user_id) w.db.wallets ≡ 0
  pub fresh : find (wallet_has_id wallet.id) w.db.wallets ≡ none
  pub answer : (a.id ≡ wallet.id) × (a.mpc_public_key ≡ wallet.mpc_public_key)
  pub share : RecoveryShare
  pub shares : w'.recovery.shares ≡ w.recovery.shares ++ share ∷ []
  pub same_key :
      env.to_lower_case share.mpc_public_key ≡ env.to_lower_case (or_blank wallet.mpc_public_key)
  pub closed : lookup id w'.sessions ≡ none

module _ (env : DkgEnv) (now : ℕ) (user_id id : String) where
  abbrev SameWallets : KeygenWorld → {A : Type 0} → A → KeygenWorld → Type 0
  SameWallets w _ w' = w'.db.wallets ≡ w.db.wallets

  assert_no_live_wallet-Post :
      (w : KeygenWorld)
      → Post
          (λ _ w'. (w' ≡ w) × (count (is_live_of user_id) w.db.wallets ≡ 0))
          (λ _ w'. w' ≡ w)
          (assert_no_live_wallet user_id w)
  unfolding assert_no_live_wallet
  assert_no_live_wallet-Post w =
      throw_if-Post (is_some (find (is_live_of user_id) w.db.wallets)) _ w (λ _. refl)
        λ h. (refl, find-none (is_live_of user_id) w.db.wallets (ground (arith)))

  assert_same_key-Post :
      (public_key_hex : String) (final : FinalizedC) (w : KeygenWorld)
      → Post
          (λ _ w'.
            (w' ≡ w) × (env.to_lower_case final.mpc_public_key ≡ env.to_lower_case public_key_hex))
          (SameWallets w)
          (assert_same_key env now id public_key_hex final w)
  unfolding assert_same_key
  assert_same_key-Post public_key_hex final w =
      branch-Post (env.to_lower_case final.mpc_public_key == env.to_lower_case public_key_hex) _ _ w
        (λ h. returns (
          refl,
          ground (
            arith,
            h,
            eq_iff (env.to_lower_case final.mpc_public_key) (env.to_lower_case public_key_hex),
          ),
        ))
        λ _.
          after-Post _
            (Frame-Post wallet_rows (on_party_c (request_dkg_abort env.recovery now id)) w
              (λ w1. ap (λ x. x.0) (dkg_abort-Frame env now id w1)))
            λ _ w1 k. throws k

  create_wallet-Post :
      (row : Wallet) (db : MainDb)
      → Post
          (λ _ d.
            (d.wallets ≡ db.wallets ++ row ∷ []) × (find (wallet_has_id row.id) db.wallets ≡ none))
          (λ _ d. d ≡ db)
          (create_wallet row db)
  create_wallet-Post row db =
      check-Post (is_some (find (wallet_has_id row.id) db.wallets) || breaks_index row db.wallets) _
        _ db (λ _. refl) λ h. returns (refl, ground (arith))

  -- Party C has stored its share, and the wallet rows are still those of `w`.
  abbrev ShareStored : KeygenWorld → FinalizedC → KeygenWorld → Type 0
  ShareStored w final w' =
      (w'.db.wallets ≡ w.db.wallets) × Finalized w.recovery.shares final w'.recovery

  finalize_c-Post :
      (row_id : String) (w w1 : KeygenWorld)
      → key_rows w1 ≡ key_rows w
      → Post
          (ShareStored w)
          (SameWallets w)
          (on_party_c (request_dkg_finalize env.recovery now row_id id) w1)
  finalize_c-Post row_id w w1 k =
      let call = request_dkg_finalize env.recovery now row_id id in
      zoom-Post (λ x. x.recovery) (λ r x. record x { recovery = r }) call w1
        (request-finalize-Post env now row_id id w.recovery.shares
          (env.recovery.delivery (dkg_finalize row_id id)) w1.recovery (ap (λ x. x.1) k))
        (λ _ _ q. (ap (λ x. x.0) k, q)) (λ _ _ _. ap (λ x. x.0) k)

  abbrev SharesAgree : KeygenWorld → FinalizedC → String → Unit {0} → KeygenWorld → Type 0
  SharesAgree w final public_key_hex _ w' =
      ShareStored w final w'
      × (env.to_lower_case final.mpc_public_key ≡ env.to_lower_case public_key_hex)

  agree-Post :
      (public_key_hex : String) (final : FinalizedC) (w w2 : KeygenWorld)
      → ShareStored w final w2
      → Post
          (SharesAgree w final public_key_hex)
          (SameWallets w)
          (assert_same_key env now id public_key_hex final w2)
  agree-Post public_key_hex final w w2 k =
      Post-mono (assert_same_key-Post public_key_hex final w2)
        (λ _ w3 q. (subst (ShareStored w final) (sym q.0) k, q.1)) (λ _ _ h. h ∙ k.0)

  created-Post :
      (row : Wallet) (w w3 : KeygenWorld)
      → w3.db.wallets ≡ w.db.wallets
      → Post
          (λ _ w'.
            (w'.db.wallets ≡ w.db.wallets ++ row ∷ [])
            × (find (wallet_has_id row.id) w.db.wallets ≡ none)
            × (w'.recovery ≡ w3.recovery))
          (SameWallets w)
          (on_main_db (create_wallet row) w3)
  created-Post row w w3 k =
      zoom-Post (λ x. x.db) (λ d x. record x { db = d }) (create_wallet row) w3
        (create_wallet-Post row w3.db)
        (λ _ _ q.
          (q.0 ∙ ap (λ t. t ++ row ∷ []) k, ap (find (wallet_has_id row.id)) (sym k) ∙ q.1, refl))
        (λ _ _ h. ap (λ d. d.wallets) h ∙ k)

  closed-lookup : (m : Dict DkgSession) → lookup id (erase id m) ≡ none
  closed-lookup m = lookup-erase id id m ∙ rw (eq_refl id) refl

  -- `complete`, one step: when it returns, one wallet has been added, live and of this user, with a
  -- new id and where the user had no live one; the answer has its id and public key; party C has one
  -- more row of Share C, whose public key is the wallet's up to `toLowerCase`; and the session is
  -- gone. When it throws, the wallet rows are what they were.
  pub complete_keygen-Done :
      (row_id : String) (w : KeygenWorld)
      → Post
          (KeygenDone env user_id id w)
          (SameWallets w)
          (complete_keygen env now row_id user_id id w)
  unfolding complete_keygen
  complete_keygen-Done row_id w =
      after-Post _
        (Post-mono (require_owned_dkg-Post env now user_id id w) (λ _ _ k. k)
          (λ _ _ k. ap (λ x. x.0) k))
        λ st w1 k1.
          check-Post (not (is_wait_final st.step)) _ _ w1 (λ _. ap (λ x. x.0) k1)
            λ _.
              same-Post _ (assert_no_live_wallet-Post w1) (λ _. ap (λ x. x.0) k1)
                λ _ none_live.
                  lift-Post (env.keygen.keyshare (env.base64.base64_to_bytes st.state_b64)) _ w1
                    (λ _ _. ap (λ x. x.0) k1)
                    λ share_b _.
                      lift-Post (env.eth_address share_b.0) _ w1 (λ _ _. ap (λ x. x.0) k1)
                        λ address _.
                          lift-Post (env.encrypt_share_b share_b.1) _ w1 (λ _ _. ap (λ x. x.0) k1)
                            λ encrypted _.
                              after-Post _ (finalize_c-Post row_id w w1 k1) λ final w2 stored.
                                let key = env.public_key_to_hex share_b.0 in
                                let row =
                                  new_wallet now st.wallet_id user_id address key encrypted in
                                after-Post _ (agree-Post key final w w2 stored) λ _ w3 agree.
                                  after-Post _ (created-Post row w w3 agree.0.0) λ _ w4 made.
                                    returns (record {
                                      wallet = row;
                                      wallets = made.0;
                                      live = rw (eq_refl user_id) refl;
                                      first =
                                          ap (λ t. count (is_live_of user_id) t.0) (sym k1)
                                          ∙ none_live;
                                      fresh = made.1;
                                      answer = (refl, refl);
                                      share = agree.0.1.share;
                                      shares = ap (λ r. r.shares) made.2 ∙ agree.0.1.shares;
                                      same_key = ap env.to_lower_case agree.0.1.same ∙ agree.1;
                                      closed = closed-lookup w4.sessions;
                                    })
