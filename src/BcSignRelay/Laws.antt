-- ===== src/BcSignRelay/Laws.antt =====
-- What the relay of apps/api/src/mpc/bc-sign-relay.ts gives, and what it leaves on the Recovery Server.
use selfmade_mpc_wallet.Prelude.{
  ℕ, String, ◌≡◌, refl, ap, subst, ◌∙◌, ◌⊎◌, true, not, none, List, [], ◌∷◌, ◌++◌, arith, eqb,
  length, eq_refl,
}
use selfmade_mpc_wallet.Prelude.Dict.{lookup, lookup-erase}
use selfmade_mpc_wallet.Errors.{Error, plain, other}
use selfmade_mpc_wallet.Exec.{catch}
use selfmade_mpc_wallet.Exec.Post.{
  Post, returns, throws, Post-mono, Post-of_parts, Post-state, check-Post, lift-Post, after-Post,
  catch-Post,
}
use selfmade_mpc_wallet.MpcCrypto.Routing.{Bytes, party_b, filter_messages, select_messages}
use selfmade_mpc_wallet.MpcCrypto.Ethereum.{
  MpcEcdsaSignature, build_ecdsa_signature, build_ecdsa_signature-recovers, recovers,
}
use selfmade_mpc_wallet.RecoveryServer.{RecoveryServer, RecoveryShare}
use selfmade_mpc_wallet.RecoveryServer.Sign.{StartedC, abort, start}
use selfmade_mpc_wallet.RecoveryServer.History.{sign_start, sign_abort}
use selfmade_mpc_wallet.RecoveryServer.Untouched.{start-shares}
use selfmade_mpc_wallet.RecoveryClient.{
  Delivery, unserved, unanswered, garbled, answered, is_served, is_certain, request, unavailable,
  ignored,
}
use selfmade_mpc_wallet.BcSignRelay.{
  RelayEnv, encode, decode, LastMessages, relay_rounds, combined, abort_and, sign_digest_bc_relay,
}
use selfmade_mpc_wallet.BcSignRelay.Calls.{
  Kept, Closed, request-Kept, start-Closed, round1-Kept, round2-Kept, round3-Kept, last-Kept,
}

-- The signature's halves have 32 bytes each, and it recovers the address from the digest.
pub record RecoversTo (env : RelayEnv) (digest32 : Bytes) (address : String)
    (sig : MpcEcdsaSignature) : Type 0 where
  pub r_size : length sig.r ≡ 32
  pub s_size : length sig.s ≡ 32
  pub v : (sig.v ≡ 27) ⊎ (sig.v ≡ 28)
  pub recovered : recovers (env.recover digest32 sig.r sig.s sig.v) address ≡ true

module _ (env : RelayEnv) (now : ℕ) (rows : List RecoveryShare) where
  rounds-Closed :
      (share_b digest32 : Bytes) (started : StartedC) (s : RecoveryServer)
      → s.shares ≡ rows
      → Post
          (Closed started.session_id rows)
          (Kept rows)
          (relay_rounds env now share_b digest32 started s)
  unfolding relay_rounds
  rounds-Closed share_b digest32 started s k =
      let id = started.session_id in
      lift-Post (env.open_session share_b) _ s (λ _ _. k)
        λ opened _.
          let msg1b = encode env now (opened.0 ∷ []) in
          let in1 = filter_messages (decode env now (started.msg1c ∷ msg1b)) party_b in
          lift-Post (env.wasm.handle_messages opened.1 in1) _ s (λ _ _. k)
            λ out2 _.
              let msg2b = encode env now out2.0 in
              after-Post _ (round1-Kept env now rows id msg1b s k) λ r1 s1 k1.
                let in2 = select_messages (decode env now (msg2b ++ r1)) party_b in
                lift-Post (env.wasm.handle_messages out2.1 in2) _ s1 (λ _ _. k1)
                  λ out3 _.
                    let msg3b = encode env now out3.0 in
                    after-Post _ (round2-Kept env now rows id msg2b s1 k1) λ r2 s2 k2.
                      let in3 = select_messages (decode env now (msg3b ++ r2)) party_b in
                      lift-Post (env.wasm.handle_messages out3.1 in3) _ s2 (λ _ _. k2)
                        λ out4 _. after-Post _ (round3-Kept env now rows id msg3b s2 k2) λ _ s3 k3.
                          lift-Post (env.wasm.last_message out4.1 digest32) _ s3 (λ _ _. k3)
                            λ last_b _.
                              after-Post _ (last-Kept env now rows id s3 k3) λ _ s4 q. returns q

  abort-Closed :
      (id : String) (s : RecoveryServer) (d : Delivery)
      → is_served d ≡ true
      → s.shares ≡ rows
      → Post (Closed id rows) (Closed id rows) (catch (request d (abort id)) ignored s)
  abort-Closed id s unserved d k = absurd (cc)
  abort-Closed id s _ d k = returns (k, lookup-erase id id s.sign_sessions ∙ rw (eq_refl id) refl)

  -- The part that is under `try` with the session's id set.
  rounds_or_abort-Closed :
      (share_b digest32 : Bytes) (started : StartedC) (s : RecoveryServer)
      → is_served (env.recovery.delivery (sign_abort started.session_id)) ≡ true
      → s.shares ≡ rows
      → Post (Closed started.session_id rows) (Closed started.session_id rows) (
          catch
            (relay_rounds env now share_b digest32 started)
            (abort_and env now started.session_id)
            s)
  rounds_or_abort-Closed share_b digest32 started s served k =
      let id = started.session_id in
      catch-Post (abort_and env now id) (rounds-Closed share_b digest32 started s k) λ err s2 k2.
        after-Post _ (abort-Closed id s2 (env.recovery.delivery (sign_abort id)) served k2)
          λ _ s3 k3. throws k3

  started-Closed :
      (id wallet_id digest_b64 : String) (s : RecoveryServer) (d : Delivery)
      → is_certain d ≡ true
      → Closed id rows tt s
      → Post
          (λ st s'. (s'.shares ≡ rows) × (st.session_id ≡ id))
          (Closed id rows)
          (request d (start env.recovery.server now id wallet_id digest_b64) s)
  started-Closed id wallet_id digest_b64 s unserved d k = throws k
  started-Closed id wallet_id digest_b64 s answered d k =
      catch-Post unavailable
        (Post-mono (start-Closed env.recovery.server now id s wallet_id digest_b64 k.1)
          (λ _ _ q. (q.0 ∙ k.0, q.1)) (λ _ _ q. (q.0 ∙ k.0, q.1)))
        λ e s' q. throws q
  started-Closed id wallet_id digest_b64 s _ d k = absurd (cc)

  combined-Closed :
      (id : String) (digest32 : Bytes) (address : String) (last : LastMessages) (s : RecoveryServer)
      → Closed id rows tt s
      → Post
          (λ sig s'. RecoversTo env digest32 address sig × Closed id rows tt s')
          (Closed id rows)
          (combined env now digest32 address last s)
  unfolding combined
  combined-Closed id digest32 address last s k =
      lift-Post
        (env.wasm.combine last.session_b
          (filter_messages (decode env now (last.msg4b ++ last.msg4c)) party_b))
        _ s (λ _ _. k)
        λ halves _.
          Post-of_parts (build_ecdsa_signature env.recover digest32 halves.0 halves.1 address, s)
            (λ sig e.
              let h =
                build_ecdsa_signature-recovers env.recover digest32 halves.0 halves.1 address sig
                  e in
              (
                record {
                  r_size = ground (arith, h);
                  s_size = ground (arith, h);
                  v = h.5;
                  recovered = h.6;
                },
                k,
              ))
            (λ _ _. k)

-- With the first call's outcome known to the caller and the abort served, the relay leaves no
-- session under its id on the Recovery Server, whether it returns or throws, and in either case every
-- row of Share C stays as it was. A signature that it returns recovers the expected address from the digest.
pub sign_digest_bc_relay-Closed :
    (env : RelayEnv) (now : ℕ) (id : String) (share_b digest32 : Bytes) (wallet_id address : String)
    (s : RecoveryServer)
    → lookup id s.sign_sessions ≡ none
    → is_certain
        (env.recovery.delivery (sign_start id wallet_id (env.base64.bytes_to_base64 digest32)))
      ≡ true
    → is_served (env.recovery.delivery (sign_abort id)) ≡ true
    → Post
        (λ sig s'. RecoversTo env digest32 address sig × Closed id s.shares tt s')
        (Closed id s.shares)
        (sign_digest_bc_relay env now id share_b digest32 wallet_id address s)
unfolding sign_digest_bc_relay
sign_digest_bc_relay-Closed env now id share_b digest32 wallet_id address s h sure abortable =
    check-Post (not (eqb (length digest32) 32)) (plain other) _ s (λ _. (refl, h))
      λ _.
        after-Post _
          (started-Closed env now s.shares id wallet_id (env.base64.bytes_to_base64 digest32) s
            (env.recovery.delivery (sign_start id wallet_id (env.base64.bytes_to_base64 digest32)))
            sure (refl, h))
          λ started s1 k1.
            let own = ap (λ i. is_served (env.recovery.delivery (sign_abort i))) k1.1 ∙ abortable in
            after-Post _
              (Post-mono
                (rounds_or_abort-Closed env now s.shares share_b digest32 started s1 own k1.0)
                (λ _ s3 k3. (k3.0, subst (λ i. lookup i s3.sign_sessions ≡ none) k1.1 k3.1))
                (λ _ s3 k3. (k3.0, subst (λ i. lookup i s3.sign_sessions ≡ none) k1.1 k3.1)))
              λ last s3 k3. combined-Closed env now s.shares id digest32 address last s3 k3

module _ (env : RelayEnv) (now : ℕ) (rows : List RecoveryShare) where
  abort_and-Kept :
      (id : String) (err : Error) (s : RecoveryServer) (d : Delivery)
      → s.shares ≡ rows
      → Post (Kept rows) (Kept rows) (catch (request d (abort id)) ignored s)
  abort_and-Kept id err s unserved k = returns k
  abort_and-Kept id err s unanswered k = returns k
  abort_and-Kept id err s garbled k = returns k
  abort_and-Kept id err s answered k = returns k

combined-shares :
    (env : RelayEnv) (now : ℕ) (digest32 : Bytes) (address : String) (last : LastMessages)
    (s : RecoveryServer)
    → (combined env now digest32 address last s).1.shares ≡ s.shares
unfolding combined
combined-shares env now digest32 address last s = ground arith

-- Whatever becomes of its calls, the relay leaves the rows of Share C as they were.
pub sign_digest_bc_relay-shares :
    (env : RelayEnv) (now : ℕ) (id : String) (share_b digest32 : Bytes) (wallet_id address : String)
    (s : RecoveryServer)
    → (sign_digest_bc_relay env now id share_b digest32 wallet_id address s).1.shares ≡ s.shares
unfolding sign_digest_bc_relay combined
sign_digest_bc_relay-shares env now id share_b digest32 wallet_id address s =
    let rows = s.shares in
    let digest_b64 = env.base64.bytes_to_base64 digest32 in
    Post-state {P = λ s'. s'.shares ≡ s.shares} (
      check-Post {Q = Kept rows} {E = Kept rows} (not (eqb (length digest32) 32)) (plain other) _ s
        (λ _. refl)
        λ _.
          after-Post _
            (request-Kept rows (env.recovery.delivery (sign_start id wallet_id digest_b64))
              (start env.recovery.server now id wallet_id digest_b64) s
              (start-shares env.recovery.server now id wallet_id digest_b64 s) refl)
            λ started s1 k1.
              after-Post {Q = Kept rows} _
                (catch-Post (abort_and env now started.session_id)
                  (Post-mono (rounds-Closed env now rows share_b digest32 started s1 k1)
                    (λ _ _ q. q.0) (λ _ _ q. q))
                  λ err s2 k2.
                    after-Post _
                      (abort_and-Kept env now rows started.session_id err s2
                        (env.recovery.delivery (sign_abort started.session_id)) k2)
                      λ _ s3 k3. throws k3)
                λ last s3 k3.
                  Post-of_parts (combined env now digest32 address last s3)
                    (λ _ _. combined-shares env now digest32 address last s3 ∙ k3)
                    (λ _ _. combined-shares env now digest32 address last s3 ∙ k3))
