-- ===== src/RecoveryServer/SignedDigest.antt =====
-- What party C signs (apps/recovery/src/sign/sign.service.ts), over the history of the server.
use selfmade_mpc_wallet.Prelude.{
  ℕ, String, ◌≡◌, refl, ◌∙◌, Bool, true, false, not, ◌&&◌, ◌||◌, Option, none, List, [], ◌∷◌, arith,
  eqb, length, ◌==◌, eq_refl, count, count_mono,
}
use selfmade_mpc_wallet.Prelude.Dict.{lookup, lookup-count, lookup-erase}
use selfmade_mpc_wallet.Errors.{returned, bad_request, not_found, no_code}
use selfmade_mpc_wallet.Exec.Post.{Post, returns, Post-state, check-Post, need-Post, lift-Post}
use selfmade_mpc_wallet.MpcCrypto.Routing.{MpcMessage, WireMessage, Bytes, encode_wire_messages}
use selfmade_mpc_wallet.RecoveryServer.{RecoveryServer, RecoveryEnv}
use selfmade_mpc_wallet.RecoveryServer.Shares.{insert_share_c, retire_share}
use selfmade_mpc_wallet.RecoveryServer.Sign.{last_message, is_at_last}
use selfmade_mpc_wallet.RecoveryServer.Dkg.{
  start_dkg, handle_round1, handle_p2p, handle_broadcast, finalize,
}
use selfmade_mpc_wallet.RecoveryServer.History.{
  History, RecoveryCall, insert_share, retire, sign_start, sign_round1, sign_round2, sign_round3,
  sign_last, sign_abort, dkg_start, dkg_round1, dkg_broadcast, dkg_p2p, dkg_finalize, dkg_abort,
  run_call, run, no_shares,
}
use selfmade_mpc_wallet.RecoveryServer.Purposes.{
  Purpose, strays, astray, Clean, swept, swept-Clean, round1-Clean, round2-Clean, round3-Clean,
  last-Clean, abort-Clean, start-Clean,
}

-- The call opens a session under that id, for that wallet and that digest.
unfoldable pub is_start_of : String → String → String → RecoveryCall → Bool
is_start_of id wallet_id digest_b64 (sign_start a b c) =
    a == id && b == wallet_id && c == digest_b64
is_start_of id wallet_id digest_b64 _ = false

-- Some call of the history does.
unfoldable pub was_asked : History → String → String → String → Bool
unfolding is_start_of
was_asked [] id wallet_id digest_b64 = false
was_asked ((now, c) ∷ older) id wallet_id digest_b64 =
    is_start_of id wallet_id digest_b64 c || was_asked older id wallet_id digest_b64

module _ (env : RecoveryEnv) where
  abbrev is_digest : String → Bool
  is_digest digest_b64 = eqb (length (env.base64.base64_to_bytes digest_b64)) 32

  module _ (g : Purpose) (now : ℕ) (s : RecoveryServer) (c : astray g s ≡ 0) where
    start_dkg-Clean : (a b w : String) → astray g (start_dkg env now a b w s).1 ≡ 0
    unfolding start_dkg
    start_dkg-Clean a b w = ground (arith, c)

    round1_dkg-Clean :
        (a : String) (ms : List WireMessage) → astray g (handle_round1 env now a ms s).1 ≡ 0
    unfolding handle_round1
    round1_dkg-Clean a ms = ground (arith, c)

    broadcast-Clean :
        (a : String) (ms : List WireMessage) → astray g (handle_broadcast env now a ms s).1 ≡ 0
    unfolding handle_broadcast
    broadcast-Clean a ms = ground (arith, c)

    p2p-Clean :
        (a : String) (ms : List WireMessage) (cs : Option (List String))
        → astray g (handle_p2p env now a ms cs s).1 ≡ 0
    unfolding handle_p2p
    p2p-Clean a ms cs = ground (arith, c)

    finalize-Clean : (r a : String) → astray g (finalize env now r a s).1 ≡ 0
    unfolding finalize
    finalize-Clean r a = ground (arith, c)

    call-Clean :
        (call : RecoveryCall)
        → ((id w d : String)
            → is_start_of id w d call ≡ true
            → is_digest d ≡ true
            → g id w d ≡ true)
        → astray g (run_call env now call s) ≡ 0
    unfolding run_call is_start_of insert_share_c retire_share
    call-Clean (insert_share dto) t = ground (arith, c)
    call-Clean (retire w) t = ground (arith, c)
    call-Clean (sign_start id w d) t =
        Post-state {P = Clean g tt} (
          start-Clean g env now id s c w d
            (t id w d (rw (eq_refl id) (rw (eq_refl w) (eq_refl d)))))
    call-Clean (sign_round1 id ms) t =
        Post-state {P = Clean g tt} (round1-Clean g env now id s c ms)
    call-Clean (sign_round2 id ms) t =
        Post-state {P = Clean g tt} (round2-Clean g env now id s c ms)
    call-Clean (sign_round3 id ms) t =
        Post-state {P = Clean g tt} (round3-Clean g env now id s c ms)
    call-Clean (sign_last id) t = last-Clean g env now id s c
    call-Clean (sign_abort id) t = abort-Clean g env now id s c
    call-Clean (dkg_start id u w) t = start_dkg-Clean id u w
    call-Clean (dkg_round1 id ms) t = round1_dkg-Clean id ms
    call-Clean (dkg_broadcast id ms) t = broadcast-Clean id ms
    call-Clean (dkg_p2p id ms cs) t = p2p-Clean id ms cs
    call-Clean (dkg_finalize r id) t = finalize-Clean r id
    call-Clean (dkg_abort id) t = c

  -- What a session may be for, after a history: it was asked for, with a digest of 32 bytes.
  abbrev asked_purpose : History → Purpose
  asked_purpose past id w d = was_asked past id w d && is_digest d

  run-Clean : (past : History) → astray (asked_purpose past) (run env past no_shares) ≡ 0
  unfolding run was_asked count
  run-Clean [] = refl
  run-Clean ((now, c) ∷ older) =
      let s = run env older no_shares in
      call-Clean (asked_purpose ((now, c) ∷ older)) now s
        (omega (
          arith,
          run-Clean older,
          count_mono (strays (asked_purpose ((now, c) ∷ older))) (strays (asked_purpose older))
              (λ e t. ground arith) s.sign_sessions,
        ))
        c (λ id w d t l. ground arith)

  -- The messages that a signing session gives are the signature share of one digest, of 32 bytes.
  pub record SignedFor (past : History) (id : String) (ms : List WireMessage) : Type 0 where
    pub wallet_id : String
    pub digest_b64 : String
    pub asked : was_asked past id wallet_id digest_b64 ≡ true
    pub size : length (env.base64.base64_to_bytes digest_b64) ≡ 32
    pub state : Bytes
    pub out : MpcMessage × Bytes
    pub signed :
        env.sign_wasm.last_message state (env.base64.base64_to_bytes digest_b64) ≡ returned out
    pub messages : ms ≡ encode_wire_messages env.base64 (out.0 ∷ [])

  -- Party C's last message, whatever the server was asked before, is its signature share of a digest
  -- of 32 bytes with which a call of the history opened that session, and the session is then gone.
  pub last_message-SignedFor :
      (past : History) (now : ℕ) (id : String)
      → Post
          (λ ms s'. SignedFor past id ms × (lookup id s'.sign_sessions ≡ none))
          (λ _ _. Unit)
          (last_message env now id (run env past no_shares))
  unfolding last_message
  last_message-SignedFor past now id =
      let s = run env past no_shares in
      let t = swept (asked_purpose past) env now s in
      need-Post (lookup id t.sign_sessions) (not_found no_code) _ t (λ _. tt)
        λ st e.
          let ok =
            lookup-count (strays (asked_purpose past)) id st t.sign_sessions
              (swept-Clean (asked_purpose past) env now s (run-Clean past)) e in
          check-Post (not (is_at_last st.step)) (bad_request no_code) _ t (λ _. tt)
            λ _.
              lift-Post
                (env.sign_wasm.last_message (env.base64.base64_to_bytes st.state_b64)
                  (env.base64.base64_to_bytes st.digest_b64))
                _ t (λ _ _. tt)
                λ out h. returns (
                  record {
                    wallet_id = st.wallet_id;
                    digest_b64 = st.digest_b64;
                    asked = ground (arith, ok);
                    size = ground (arith, ok);
                    state = env.base64.base64_to_bytes st.state_b64;
                    out = out;
                    signed = h;
                    messages = refl;
                  },
                  lookup-erase id id t.sign_sessions ∙ rw (eq_refl id) refl,
                )
