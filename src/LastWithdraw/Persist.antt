-- ===== src/LastWithdraw/Persist.antt =====
-- What `signPersistBroadcastWait` (apps/api/src/wallet/emergency-last-withdraw.service.ts) has
-- recorded of what it hands to the node.
use selfmade_mpc_wallet.Prelude.{
  ℕ, String, ◌≡◌, refl, ap, ◌∙◌, ◌⊎◌, inl, inr, arith, true, some, [], ◌∷◌, ◌++◌, find, Bool-cases,
  eq_refl, find-update,
}
use selfmade_mpc_wallet.Errors.{Error, returned}
use selfmade_mpc_wallet.Exec.Post.{
  Post, returns, throws, Post-mono, Post-of_parts, zoom-Post, lift-Post, after-Post, catch-Post,
  branch-Post,
}
use selfmade_mpc_wallet.Json.{Json, Fields}
use selfmade_mpc_wallet.Assets.{WithdrawAsset, eth, erc20}
use selfmade_mpc_wallet.MainDb.{
  WithdrawStatus, broadcasted, executed, WithdrawRequest, request_has_id, update_request,
}
use selfmade_mpc_wallet.SignSession.{UnsignedTxFields}
use selfmade_mpc_wallet.NormalAb.{mark_executed}
use selfmade_mpc_wallet.EmergencyBc.{starts_0x, signed_raw_from_metadata}
use selfmade_mpc_wallet.Server.{Server, on_db, db_transaction}
use selfmade_mpc_wallet.Server.Laws.{db_transaction-Post}
use selfmade_mpc_wallet.MpcCrypto.Ethereum.{MpcEcdsaSignature}
use selfmade_mpc_wallet.BcSignRelay.{sign_digest_bc_relay}
use selfmade_mpc_wallet.LastWithdraw.{
  World, LastEnv, on_api, with_signed_raw, tx_fields_for_storage, processing_meta,
}
use selfmade_mpc_wallet.LastWithdraw.Sweep.{
  SweepParams, SweepResult, SweepRow, executed_before, created, new_sweep_row, mark_sent,
  is_conflict, open_sweep, await_executed, send_sweep, sweep_failed, send_or_done,
  sign_persist_broadcast_wait,
}
use selfmade_mpc_wallet.LastWithdraw.OpenRow.{MadeIn, Quiet, open_sweep-Post}

-- The row that stands for a raw transaction that was handed to the node.
pub record Sent (env : LastEnv) (id : String) (st : WithdrawStatus) (s s' : Server) : Type 0 where
  pub raw : String
  pub hash : String
  pub row : WithdrawRequest
  pub sent : s'.broadcasts ≡ s.broadcasts ++ raw ∷ []
  pub found : find (request_has_id id) s'.db.withdraw_requests ≡ some row
  pub status : row.status ≡ st
  pub tx_hash : row.tx_hash ≡ some hash
  pub hash_of : env.signed_raw_tx_hash raw ≡ returned hash
  pub kept : signed_raw_from_metadata row.metadata ≡ some raw

-- Nothing was handed to the node, or one raw transaction, which its row keeps with its hash.
abbrev pub Recorded : LastEnv → String → WithdrawStatus → Server → Server → Type 0
Recorded env id st s s' = (s'.broadcasts ≡ s.broadcasts) ⊎ Sent env id st s s'

kept_raw :
    (asset : WithdrawAsset) (stored_tx : UnsignedTxFields) (extra : Fields) (raw : String)
    → starts_0x raw ≡ true
    → signed_raw_from_metadata (with_signed_raw raw (processing_meta asset stored_tx extra))
      ≡ some raw
unfolding signed_raw_from_metadata
kept_raw eth stored_tx extra raw t = rw t refl
kept_raw erc20 stored_tx extra raw t = rw t refl

abbrev handed : String → World → World
handed raw w = record w { api = record w.api { broadcasts = w.api.broadcasts ++ raw ∷ [] } }

-- The sending of a row that is there.
module _ (env : LastEnv) (now : ℕ) (q : SweepParams)
    (serialized : (tx : UnsignedTxFields) (sig : MpcEcdsaSignature) (raw : String)
      → env.serialize_signed tx sig ≡ returned raw
      → starts_0x raw ≡ true) where
  abbrev RecordedIn : WithdrawStatus → World → World → Type 0
  RecordedIn st w w' = Recorded env q.new_row_id st w.api w'.api

  await-Post :
      (hash sent : String) (w w1 : World)
      → Sent env q.new_row_id broadcasted w.api w1.api
      → Post
          (λ res w'. (res.status ≡ executed) × RecordedIn executed w w')
          (λ _ w'. RecordedIn broadcasted w w')
          (await_executed env now q q.new_row_id hash sent w1)
  unfolding await_executed
  await-Post hash sent w w1 x = elim (Bool-cases (env.wait_succeeds sent)) [
    | inr n ↦ rw n (throws (inr x))
    | inl t ↦ rw t (
        rw x.found (
          returns (
            refl,
            inr (record {
              raw = x.raw;
              hash = x.hash;
              row = mark_executed now x.row;
              sent = x.sent;
              found =
                  find-update (λ y. y.id) (mark_executed now) (λ y. refl) q.new_row_id q.new_row_id
                    w1.api.db.withdraw_requests
                  ∙ rw (eq_refl q.new_row_id) (rw x.found refl);
              status = refl;
              tx_hash = x.tx_hash;
              hash_of = x.hash_of;
              kept = x.kept;
            }),
          )))
  ]

  -- Nothing sent yet, and the row as it was made.
  abbrev Made : UnsignedTxFields → World → World → Type 0
  Made stored_tx w w1 =
      (w1.api.broadcasts ≡ w.api.broadcasts)
      × (find (request_has_id q.new_row_id) w1.api.db.withdraw_requests
          ≡ some (new_sweep_row now q stored_tx))

  abbrev stored_meta : UnsignedTxFields → String → Json
  stored_meta stored_tx raw =
      with_signed_raw raw (processing_meta q.asset stored_tx q.metadata_extra)

  mark-Post :
      (stored_tx : UnsignedTxFields) (raw hash : String) (w w1 : World)
      → Made stored_tx w w1
      → Post
          (λ _ w2.
            (w2.api.broadcasts ≡ w.api.broadcasts)
            × (find (request_has_id q.new_row_id) w2.api.db.withdraw_requests
                ≡ some (
                    mark_sent now hash
                      (stored_meta stored_tx raw)
                      (new_sweep_row now q stored_tx))))
          (λ _ w2. RecordedIn broadcasted w w2)
          (on_api
            (on_db (update_request q.new_row_id (mark_sent now hash (stored_meta stored_tx raw))))
            w1)
  mark-Post stored_tx raw hash w w1 m = rw m.1 (
      returns (
        m.0,
        find-update (λ y. y.id) (mark_sent now hash (stored_meta stored_tx raw)) (λ y. refl)
              q.new_row_id q.new_row_id w1.api.db.withdraw_requests
            ∙ rw (eq_refl q.new_row_id) (rw m.1 refl),
      ))

  send_sweep-Post :
      (stored_tx : UnsignedTxFields) (w w1 : World)
      → Made stored_tx w w1
      → Post
          (λ res w'. (res.status ≡ executed) × RecordedIn executed w w')
          (λ _ w'. RecordedIn broadcasted w w')
          (send_sweep env now q q.new_row_id
            (processing_meta q.asset stored_tx q.metadata_extra)
            w1)
  unfolding send_sweep
  send_sweep-Post stored_tx w w1 m =
      after-Post {Q = λ _ w2. Made stored_tx w w2} _
        (zoom-Post (λ x. x.recovery) (λ s x. record x { recovery = s })
          (sign_digest_bc_relay env.relay now q.new_session_id q.share_b (env.unsigned_digest q.tx)
            q.wallet_id q.expected_address)
          w1
          (Post-of_parts {Q = λ _ _. Unit {0}} {E = λ _ _. Unit {0}}
            (sign_digest_bc_relay env.relay now q.new_session_id q.share_b
              (env.unsigned_digest q.tx) q.wallet_id q.expected_address w1.recovery)
            (λ _ _. tt) (λ _ _. tt))
          (λ _ _ _. m) (λ _ _ _. inl m.0))
        λ signature w2 m2.
          lift-Post (env.serialize_signed q.tx signature) _ w2 (λ _ _. inl m2.0)
            λ raw ser.
              lift-Post (env.signed_raw_tx_hash raw) _ w2 (λ _ _. inl m2.0)
                λ hash hashed. after-Post _ (mark-Post stored_tx raw hash w w2 m2) λ _ w3 m3.
                  let row : Sent env q.new_row_id broadcasted w.api (handed raw w3).api = record {
                    raw = raw;
                    hash = hash;
                    row =
                        mark_sent now hash (stored_meta stored_tx raw)
                          (new_sweep_row now q stored_tx);
                    sent = ap (λ x. x ++ raw ∷ []) m3.0;
                    found = m3.1;
                    status = refl;
                    tx_hash = refl;
                    hash_of = hashed;
                    kept =
                        kept_raw q.asset stored_tx q.metadata_extra raw
                          (serialized q.tx signature raw ser);
                  } in
                  lift-Post (env.broadcast_transaction raw) _ (handed raw w3) (λ _ _. inr row)
                    λ sent _. await-Post hash sent w (handed raw w3) row

  -- The catch puts no row in the way of what was sent.
  failed-Post :
      (e : Error) (w w1 : World)
      → RecordedIn broadcasted w w1
      → Post
          (λ (_ : SweepResult) _. ⊥)
          (λ _ w'. RecordedIn broadcasted w w')
          (sweep_failed env now q q.new_row_id e w1)
  unfolding sweep_failed
  failed-Post e w w1 (inl h) =
      Post-of_parts (sweep_failed env now q q.new_row_id e w1) (λ _ k. ground arith)
        (λ _ k. inl (ground arith))
  failed-Post e w w1 (inr x) =
      branch-Post (is_conflict e) _ _ w1 (λ _. throws (inr x))
        λ _. rw x.found (rw x.status (throws (inr x)))

  opened-Post :
      (stored_tx : UnsignedTxFields) (row : SweepRow) (w w1 : World)
      → w1.api.broadcasts ≡ w.api.broadcasts
      → MadeIn now q stored_tx row w1.api
      → Post
          (λ res w'. (res.status ≡ executed) × RecordedIn executed w w')
          (λ _ w'. RecordedIn broadcasted w w')
          (send_or_done env now q row w1)
  unfolding send_or_done
  opened-Post stored_tx (executed_before r) w w1 h m = returns (refl, inl h)
  opened-Post stored_tx (created r) w w1 h m = rw m.0 (
      catch-Post _ (send_sweep-Post stored_tx w w1 (h, m.1 ∙ ap some m.0))
        λ e w2 k. Post-mono (failed-Post e w w2 k) (λ _ _ x. absurd x) (λ _ _ x. x))

  -- A sweep hands the node at most one raw transaction, and whether it returns or throws, the row of
  -- the sweep then keeps that raw transaction in its metadata, and the hash of it: EXECUTED after a
  -- return, BROADCASTED after a throw. Signed transactions are taken to be texts that start with 0x.
  pub sign_persist_broadcast_wait-Recorded :
      (w : World)
      → Post
          (λ res w'. (res.status ≡ executed) × Recorded env q.new_row_id executed w.api w'.api)
          (λ _ w'. Recorded env q.new_row_id broadcasted w.api w'.api)
          (sign_persist_broadcast_wait env now q w)
  unfolding sign_persist_broadcast_wait
  sign_persist_broadcast_wait-Recorded w =
      lift-Post (tx_fields_for_storage q.tx) _ w (λ _ _. inl refl)
        λ stored_tx _.
          after-Post
            {Q = λ row w1.
              (w1.api.broadcasts ≡ w.api.broadcasts) × MadeIn now q stored_tx row w1.api}
            _
            (zoom-Post (λ x. x.api) (λ s x. record x { api = s })
              (db_transaction (open_sweep env now q stored_tx)) w
              (db_transaction-Post {E' = Quiet env now q stored_tx w.api}
                (open_sweep env now q stored_tx) w.api (open_sweep-Post env now q stored_tx w.api)
                (λ _ _ h. h))
              (λ _ _ h. h) (λ _ _ h. inl h))
            λ row w1 h. opened-Post stored_tx row w w1 h.0 h.1
