-- ===== src/RecoveryClient.antt =====
-- apps/api/src/mpc/recovery-client.service.ts: the main server's calls of the Recovery Server. The
-- network between them is a parameter: how each call, with its body, is delivered.
use selfmade_mpc_wallet.Prelude.{ℕ, String, Bool, true, false, Option, List}
use selfmade_mpc_wallet.Errors.{Error, threw, service_unavailable, plain, other}
use selfmade_mpc_wallet.Exec.{Exec, throw, pure, catch}
use selfmade_mpc_wallet.Exec.Post.{Post, throws, catch-Post, Post-state, Post-mono}
use selfmade_mpc_wallet.MpcCrypto.Routing.{WireMessage}
use selfmade_mpc_wallet.RecoveryServer.{RecoveryServer, RecoveryEnv}
use selfmade_mpc_wallet.RecoveryServer.Shares.{SafeShare, retire_share}
use selfmade_mpc_wallet.RecoveryServer.Sign
use selfmade_mpc_wallet.RecoveryServer.Dkg.{
  FinalizedC, start_dkg, handle_round1, handle_p2p, handle_broadcast, finalize, abort_dkg,
}
use selfmade_mpc_wallet.RecoveryServer.History.{
  RecoveryCall, retire, sign_start, sign_round1, sign_round2, sign_round3, sign_last, sign_abort,
  dkg_start, dkg_round1, dkg_p2p, dkg_broadcast, dkg_finalize, dkg_abort,
}

pub data Delivery : Type 0 where
  -- not configured, or not reached
  unserved : Delivery
  -- served, and the connection breaks before the answer
  unanswered : Delivery
  -- served, and the body of the answer is no JSON
  garbled : Delivery
  answered : Delivery

abbrev pub is_served : Delivery → Bool
is_served unserved = false
is_served _ = true

-- The caller knows whether the call was served.
abbrev pub is_certain : Delivery → Bool
is_certain unserved = true
is_certain answered = true
is_certain _ = false

abbrev pub unavailable : {A : Type 0} → Error → Exec RecoveryServer A
unavailable e = throw service_unavailable

-- `request(method, path, body)`: every status that is not `ok` is one error.
abbrev pub request : {A : Type 0} → Delivery → Exec RecoveryServer A → Exec RecoveryServer A
request unserved call s = (threw service_unavailable, s)
request unanswered call s = (threw service_unavailable, (call s).1)
request garbled call s = (threw (plain other), (call s).1)
request answered call s = catch call unavailable s

-- `.catch(() => ({ ok: true }))`
abbrev pub ignored : Error → Exec RecoveryServer Unit
ignored e = pure tt

pub record RecoveryClient : Type 0 where
  pub server : RecoveryEnv
  pub delivery : RecoveryCall → Delivery

module _ (client : RecoveryClient) (now : ℕ) where
  abbrev pub request_start : String → String → String → Exec RecoveryServer Sign.StartedC
  request_start new_id wallet_id digest_b64 =
      request (client.delivery (sign_start new_id wallet_id digest_b64))
        (Sign.start client.server now new_id wallet_id digest_b64)

  abbrev pub request_round1 : String → List WireMessage → Exec RecoveryServer (List WireMessage)
  request_round1 session_id msgs =
      request (client.delivery (sign_round1 session_id msgs))
        (Sign.round1 client.server now session_id msgs)

  abbrev pub request_round2 : String → List WireMessage → Exec RecoveryServer (List WireMessage)
  request_round2 session_id msgs =
      request (client.delivery (sign_round2 session_id msgs))
        (Sign.round2 client.server now session_id msgs)

  abbrev pub request_round3 : String → List WireMessage → Exec RecoveryServer Unit
  request_round3 session_id msgs =
      request (client.delivery (sign_round3 session_id msgs))
        (Sign.round3 client.server now session_id msgs)

  abbrev pub request_last : String → Exec RecoveryServer (List WireMessage)
  request_last session_id =
      request (client.delivery (sign_last session_id))
        (Sign.last_message client.server now session_id)

  abbrev pub request_abort : String → Exec RecoveryServer Unit
  request_abort session_id =
      catch (request (client.delivery (sign_abort session_id)) (Sign.abort session_id)) ignored

  abbrev pub request_retire : String → Exec RecoveryServer SafeShare
  request_retire wallet_id =
      request (client.delivery (retire wallet_id)) (retire_share now wallet_id)

  abbrev pub request_dkg_start : String → String → String → Exec RecoveryServer WireMessage
  request_dkg_start session_id user_id wallet_id =
      request (client.delivery (dkg_start session_id user_id wallet_id))
        (start_dkg client.server now session_id user_id wallet_id)

  abbrev pub request_dkg_round1 :
      String → List WireMessage → Exec RecoveryServer (List WireMessage × String)
  request_dkg_round1 session_id msgs =
      request (client.delivery (dkg_round1 session_id msgs))
        (handle_round1 client.server now session_id msgs)

  abbrev pub request_dkg_p2p :
      String → List WireMessage → Option (List String) → Exec RecoveryServer (List WireMessage)
  request_dkg_p2p session_id msgs commitments =
      request (client.delivery (dkg_p2p session_id msgs commitments))
        (handle_p2p client.server now session_id msgs commitments)

  abbrev pub request_dkg_broadcast : String → List WireMessage → Exec RecoveryServer Unit
  request_dkg_broadcast session_id msgs =
      request (client.delivery (dkg_broadcast session_id msgs))
        (handle_broadcast client.server now session_id msgs)

  abbrev pub request_dkg_finalize : String → String → Exec RecoveryServer FinalizedC
  request_dkg_finalize new_row_id session_id =
      request (client.delivery (dkg_finalize new_row_id session_id))
        (finalize client.server now new_row_id session_id)

  abbrev pub request_dkg_abort : String → Exec RecoveryServer Unit
  request_dkg_abort session_id =
      catch (request (client.delivery (dkg_abort session_id)) (abort_dkg session_id)) ignored

-- A call keeps what its handler keeps, and what holds without it.
pub request-Post :
    {A : Type 0} {Q : A → RecoveryServer → Type 0} {E E' : Error → RecoveryServer → Type 0}
    (d : Delivery) (call : Exec RecoveryServer A) (s : RecoveryServer)
    → Post Q E (call s)
    → ((e : Error) → E' e s)
    → ((e : Error) (a : A) (s' : RecoveryServer) → Q a s' → E' e s')
    → ((e e' : Error) (s' : RecoveryServer) → E e s' → E' e' s')
    → Post Q E' (request d call s)
request-Post unserved call s h away done failed = throws (away _)
request-Post {E' = E'} unanswered call s h away done failed = throws (
    Post-state {P = E' service_unavailable}
      (Post-mono h (λ a s' q. done _ a s' q) (λ e s' x. failed e _ s' x)))
request-Post {E' = E'} garbled call s h away done failed = throws (
    Post-state {P = E' (plain other)}
      (Post-mono h (λ a s' q. done _ a s' q) (λ e s' x. failed e _ s' x)))
request-Post answered call s h away done failed =
    catch-Post unavailable h λ e s' x. throws (failed e _ s' x)
