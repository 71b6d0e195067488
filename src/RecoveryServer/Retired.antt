-- ===== src/RecoveryServer/Retired.antt =====
-- The history of a Recovery Server (apps/recovery/src): the calls that the main server or an
-- operator makes on it, newest first, each with the clock's reading.
use selfmade_mpc_wallet.Prelude.{
  ℕ, ◌≤◌, String, ◌≡◌, ◌≢◌, refl, ap, ◌∙◌, inl, inr, Bool, false, not, Option, none, some, List, [],
  ◌∷◌, ◌++◌, arith, eqb, ltb, length, ◌==◌, ◌&&◌, eq_iff, eq_refl, find, find-count, count,
  count-append, count-update_le, find-append, find-update, update, is_some, Option-cases,
  Bool-cases,
}
use selfmade_mpc_wallet.Prelude.Dict.{lookup}
use selfmade_mpc_wallet.Errors.{
  Error, not_found, returned, threw, conflict, no_code, unique_violation,
}
use selfmade_mpc_wallet.Exec.{Exec, ◌>>=◌}
use selfmade_mpc_wallet.Exec.Post.{
  Post, returns, throws, Post-state, check-Post, need-Post, lift-Post, after-Post,
}
use selfmade_mpc_wallet.RecoveryServer.{RecoveryShare, RecoveryServer, RecoveryEnv, share_of}
use selfmade_mpc_wallet.RecoveryServer.Shares.{
  party_or_c, share_c_party_id, UpsertShareC, SafeShare, create_share,
  assert_share_c_insert_allowed, insert_share_c, retire_share, retired_row, status_retired,
  load_active_share_c_bytes,
}
use selfmade_mpc_wallet.RecoveryServer.Dkg.{recent_sessions, finalize}
use selfmade_mpc_wallet.RecoveryServer.History.{
  RecoveryCall, insert_share, retire, sign_start, dkg_start, dkg_p2p, dkg_finalize, dkg_abort,
  History, run_call, run, no_shares, insert_share, retire, sign_start, sign_round1, sign_round2,
  sign_round3, sign_last, sign_abort, dkg_start, dkg_round1, dkg_broadcast, dkg_p2p, dkg_finalize,
  dkg_abort,
}
use selfmade_mpc_wallet.RecoveryServer.Untouched.{
  start-shares, round1-shares, round2-shares, round3-shares, last-shares, dkg_start-shares,
  handle_round1-shares, broadcast-shares, p2p-shares,
}

-- A row that is retired and still holds a ciphertext.
abbrev is_unwiped : RecoveryShare → Bool
is_unwiped row = row.status == status_retired && not (row.encrypted_share_c == "")

-- What every call keeps: the rows that are retired; and it leaves no other of them unwiped.
record Keeps (rows rows' : List RecoveryShare) : Type 0 where
  retired :
      (w : String) (row : RecoveryShare)
      → find (share_of w) rows ≡ some row
      → row.status ≡ status_retired
      → find (share_of w) rows' ≡ some row
  wiped : count is_unwiped rows' ≤ count is_unwiped rows

Keeps-same : {rows rows' : List RecoveryShare} → rows' ≡ rows → Keeps rows rows'
Keeps-same h = record {
  retired = λ w row f t. ap (find (share_of w)) h ∙ f;
  wiped = omega (arith, ap (count is_unwiped) h);
}

abbrev KeptBy : {A : Type 0} → RecoveryServer → A → RecoveryServer → Type 0
KeptBy s a s' = Keeps s.shares s'.shares

abbrev KeptByThrow : RecoveryServer → Error → RecoveryServer → Type 0
KeptByThrow s e s' = Keeps s.shares s'.shares

Keeps-append :
    (rows : List RecoveryShare) (row : RecoveryShare)
    → is_unwiped row ≡ false
    → Keeps rows (rows ++ row ∷ [])
unfolding count
Keeps-append rows row h = record {
  retired = λ w x f t. find-append (share_of w) rows (row ∷ []) x f;
  wiped = ground (arith, count-append is_unwiped rows (row ∷ []));
}

Keeps-update :
    (now : ℕ) (k : String) (rows : List RecoveryShare) (x : RecoveryShare)
    → find (share_of k) rows ≡ some x
    → (x.status == status_retired) ≡ false
    → Keeps rows (update (share_of k) (retired_row now) rows)
Keeps-update now k rows x e ns = record {
  retired = λ w row f t.
      find-update (λ r. r.wallet_id) (retired_row now) (λ r. refl) k w rows
      ∙ elim (Bool-cases (k == w)) [
        | inl m ↦ absurd (ground (arith, eq_iff k w, eq_iff x.status status_retired))
        | inr m ↦ rw m f
      ];
  wiped = count-update_le is_unwiped (share_of k) (retired_row now) (λ r _ t. absurd (cc)) rows;
}

create_share-Keeps :
    (row : RecoveryShare) (s : RecoveryServer)
    → is_unwiped row ≡ false
    → Post (KeptBy s) (KeptByThrow s) (create_share row s)
create_share-Keeps row s u =
    check-Post (is_some (find (share_of row.wallet_id) s.shares)) unique_violation _ s
      (λ _. Keeps-same refl) λ _. returns (Keeps-append s.shares row u)

insert_allowed-Keeps :
    {A : Type 0} (existing : Option RecoveryShare) (k : Unit {0} → Exec RecoveryServer A)
    (s : RecoveryServer)
    → Post (KeptBy s) (KeptByThrow s) (k tt s)
    → Post (KeptBy s) (KeptByThrow s) ((assert_share_c_insert_allowed existing >>= k) s)
insert_allowed-Keeps none k s h = h
insert_allowed-Keeps (some x) k s h = throws (Keeps-same refl)

module _ (env : RecoveryEnv) (now : ℕ) where
  retire-Keeps : (k : String) (s : RecoveryServer) → Keeps s.shares (retire_share now k s).1.shares
  unfolding retire_share
  retire-Keeps k s = elim (Option-cases (find (share_of k) s.shares)) [
    | inl e ↦ rw e (Keeps-same refl)
    | inr (x, e) ↦ elim (Bool-cases (x.status == status_retired)) [
      | inl r ↦ rw e (rw r (Keeps-same refl))
      | inr r ↦ rw e (rw r (rw e (Keeps-update now k s.shares x e r)))
    ]
  ]

  insert-Keeps :
      (dto : UpsertShareC) (s : RecoveryServer)
      → Post (KeptBy s) (KeptByThrow s) (insert_share_c env now dto s)
  unfolding insert_share_c
  insert-Keeps dto s =
      check-Post (not (eqb (party_or_c dto.party_id) share_c_party_id)) (conflict no_code) _ s
        (λ _. Keeps-same refl)
        λ _. insert_allowed-Keeps (find (share_of dto.wallet_id) s.shares) _ s (
          check-Post (ltb (length (env.base64.base64_to_bytes dto.share_c_base64)) 32)
            (conflict no_code) _ s (λ _. Keeps-same refl)
            λ _.
              lift-Post (env.encrypt_share_c (env.base64.base64_to_bytes dto.share_c_base64)) _ s
                (λ _ _. Keeps-same refl)
                λ encrypted _. after-Post _ (create_share-Keeps _ s refl) λ _ s' h. returns h)

  finalize-Keeps :
      (row_id id : String) (s : RecoveryServer)
      → Post (KeptBy s) (KeptByThrow s) (finalize env now row_id id s)
  unfolding finalize
  finalize-Keeps row_id id s =
      let t = record s { dkg_sessions = recent_sessions now s.dkg_sessions } in
      need-Post (lookup id t.dkg_sessions) (not_found no_code) _ t (λ _. Keeps-same refl)
        λ st _.
          lift-Post (env.keygen_wasm.keyshare (env.base64.base64_to_bytes st.state_b64)) _ t
            (λ _ _. Keeps-same refl)
            λ share _.
              lift-Post (env.encrypt_share_c share.1) _ t (λ _ _. Keeps-same refl)
                λ encrypted _.
                  insert_allowed-Keeps (find (share_of st.wallet_id) s.shares) _ t
                    (after-Post _ (create_share-Keeps _ t refl) λ _ s' h. returns h)

call-Keeps :
    (env : RecoveryEnv) (now : ℕ) (c : RecoveryCall) (s : RecoveryServer)
    → Keeps s.shares (run_call env now c s).shares
unfolding run_call
call-Keeps env now (insert_share dto) s =
    Post-state {P = λ s'. Keeps s.shares s'.shares} (insert-Keeps env now dto s)
call-Keeps env now (retire w) s = retire-Keeps env now w s
call-Keeps env now (sign_start a b c) s = Keeps-same (start-shares env now a b c s)
call-Keeps env now (sign_round1 a ms) s = Keeps-same (round1-shares env now a ms s)
call-Keeps env now (sign_round2 a ms) s = Keeps-same (round2-shares env now a ms s)
call-Keeps env now (sign_round3 a ms) s = Keeps-same (round3-shares env now a ms s)
call-Keeps env now (sign_last a) s = Keeps-same (last-shares env now a [] s)
call-Keeps env now (sign_abort a) s = Keeps-same refl
call-Keeps env now (dkg_start a b c) s = Keeps-same (dkg_start-shares env now a [] s b c)
call-Keeps env now (dkg_round1 a ms) s = Keeps-same (handle_round1-shares env now a ms s)
call-Keeps env now (dkg_broadcast a ms) s = Keeps-same (broadcast-shares env now a ms s)
call-Keeps env now (dkg_p2p a ms cs) s = Keeps-same (p2p-shares env now a ms s cs)
call-Keeps env now (dkg_finalize r a) s =
    Post-state {P = λ s'. Keeps s.shares s'.shares} (finalize-Keeps env now r a s)
call-Keeps env now (dkg_abort a) s = Keeps-same refl

run-Keeps :
    (env : RecoveryEnv) (calls : History) (s : RecoveryServer)
    → Keeps s.shares (run env calls s).shares
unfolding run
run-Keeps env [] s = Keeps-same refl
run-Keeps env ((now, c) ∷ older) s =
    let before = run-Keeps env older s in
    let last = call-Keeps env now c (run env older s) in
    record {
      retired = λ w row f t. last.retired w row (before.retired w row f t) t;
      wiped = omega (arith, before.wiped, last.wiped);
    }

-- A share that is there is retired by `retireShare`.
pub retire_share-found :
    (now : ℕ) (w : String) (s : RecoveryServer) (x : RecoveryShare)
    → find (share_of w) s.shares ≡ some x
    → (row : RecoveryShare) × (find (share_of w) (retire_share now w s).1.shares ≡ some row)
      × (row.status ≡ status_retired)
unfolding retire_share
retire_share-found now w s x e = elim (Bool-cases (x.status == status_retired)) [
  | inl r ↦ (x, rw e (rw r e), ground (arith, eq_iff x.status status_retired))
  | inr r ↦ (
    retired_row now x,
    rw e (
        rw r (
          rw e (
            find-update (λ y. y.wallet_id) (retired_row now) (λ y. refl) w w s.shares
            ∙ rw (eq_refl w) (rw e refl)))),
    refl,
  )
]

retire_share-none :
    (now : ℕ) (w : String) (s : RecoveryServer) (dto : SafeShare)
    → find (share_of w) s.shares ≡ none
    → (retire_share now w s).0 ≢ returned dto
unfolding retire_share
retire_share-none now w s dto e = rw e (λ h. cc)

retired_found :
    (now : ℕ) (w : String) (s : RecoveryServer) (dto : SafeShare)
    → (retire_share now w s).0 ≡ returned dto
    → (row : RecoveryShare) × (find (share_of w) (retire_share now w s).1.shares ≡ some row)
      × (row.status ≡ status_retired)
retired_found now w s dto h = elim (Option-cases (find (share_of w) s.shares)) [
  | inl e ↦ absurd (retire_share-none now w s dto e h)
  | inr (x, e) ↦ retire_share-found now w s x e
]

load-retired :
    (env : RecoveryEnv) (w : String) (s : RecoveryServer) (row : RecoveryShare)
    → find (share_of w) s.shares ≡ some row
    → row.status ≡ status_retired
    → (load_active_share_c_bytes env w s).0 ≡ threw (conflict no_code)
unfolding load_active_share_c_bytes
load-retired env w s row e t = rw e (rw t refl)

unwiped_none :
    (row : RecoveryShare)
    → is_unwiped row ≡ false
    → row.status ≡ status_retired
    → row.encrypted_share_c ≡ ""
unwiped_none row h t =
    ground (arith, eq_iff row.status status_retired, eq_iff row.encrypted_share_c "")

-- After `retireShare` has returned for a wallet on a server that has run any calls, its row is
-- RETIRED and without ciphertext, whatever calls come afterwards, and loading the share throws the
-- conflict.
pub retire_share-terminal :
    (env : RecoveryEnv) (past later : History) (now : ℕ) (w : String) (dto : SafeShare)
    → (retire_share now w (run env past no_shares)).0 ≡ returned dto
    → let s = run env later (retire_share now w (run env past no_shares)).1 in
      (row : RecoveryShare) × (find (share_of w) s.shares ≡ some row)
      × (row.status ≡ status_retired)
      × (row.encrypted_share_c ≡ "")
      × ((load_active_share_c_bytes env w s).0 ≡ threw (conflict no_code))
unfolding count
retire_share-terminal env past later now w dto h =
    let s = run env past no_shares in
    let t = (retire_share now w s).1 in
    let found = retired_found now w s dto h in
    let none_unwiped = run-Keeps env past no_shares in
    let kept = run-Keeps env later t in
    let retiring = retire-Keeps env now w s in
    let row_found = kept.retired w found.0 found.1 found.2 in
    (
      found.0,
      row_found,
      found.2,
      unwiped_none found.0
          (find-count (share_of w) is_unwiped (run env later t).shares found.0
            (omega (arith, none_unwiped.wiped, kept.wiped, retiring.wiped)) row_found)
          found.2,
      load-retired env w (run env later t) found.0 row_found found.2,
    )
