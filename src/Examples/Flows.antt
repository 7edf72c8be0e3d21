-- ===== src/Examples/Flows.antt =====
-- The theorems about the sessions, the managers and the listener, applied.
use noctalia_unofficial_auth.Base.{
  ◌≡◌, refl, true, false, not, ◌&&◌, none, some, [], ◌∷◌, ◌==◌, ltb, String, if◌then◌else◌, arith,
  comparable_string, comparable_nat,
}
use noctalia_unofficial_auth.Base.Int.{pos, ◌≤ℤ◌, ◌<ℤ◌}
use noctalia_unofficial_auth.Base.Table
use noctalia_unofficial_auth.Base.Table.{lookup, remove, insert, keep_if, Distinct}
use noctalia_unofficial_auth.Json.{JsonObject, object, str}
use noctalia_unofficial_auth.Session.{Result, new_session}
use noctalia_unofficial_auth.SessionStore
use noctalia_unofficial_auth.Agent
use noctalia_unofficial_auth.Agent.{Agent, emit, auth_cancelled, used_after_free}
use noctalia_unofficial_auth.Agent.Steps.{CoreOk}
use noctalia_unofficial_auth.Agent.SessionMap.{sessions-close_session}
use noctalia_unofficial_auth.KeyringManager
use noctalia_unofficial_auth.KeyringManager.{error_reply, ok_response, cookie_of, parse_request}
use noctalia_unofficial_auth.KeyringManager.Requests.{
  Gives, respond_once, lookup-cleanup_for_socket, asked_by,
}
use noctalia_unofficial_auth.PinentryManager
use noctalia_unofficial_auth.PinentryManager.{
  resolve_retry_info, close_flow, session_is_pinentry, socket_response,
}
use noctalia_unofficial_auth.PinentryManager.Contract.{close_flow_closes, Shut, opened_flow-Shut}
use noctalia_unofficial_auth.PinentryManager.Attempts.{
  resolve_retry_info_bounds, resolve_retry_info-remembers, handle_response_once, IsReply,
}
use noctalia_unofficial_auth.RequestTypes.{no_flows}
use noctalia_unofficial_auth.PolkitListener.{finish_auth, cancel_pending, on_session_completed}
use noctalia_unofficial_auth.PolkitListener.Attempts.{contains-finish_auth, cancel_pending_dangling}
use noctalia_unofficial_auth.Examples.{
  env_at, start, keyring_request, pinentry_request, pinentry_waits, third_attempt, polkit_waits,
}

abbrev p1 : String
p1 = "p1"

start-CoreOk :
    (a : Agent) → a.event_queue ≡ start.event_queue → a.registry ≡ start.registry → CoreOk a
start-CoreOk a q r = record {
  queue = rw q (record { room = omega arith; bounded = omega arith; clean = tt; served = refl });
  registry = rw r (record { distinct = tt; known = refl });
}

sessions-close_session_example :
    lookup "p1" (Agent.close_session (env_at 0) "p1" Result.success pinentry_waits).sessions
    ≡ (if p1 == p1 then none else lookup "p1" pinentry_waits.sessions)
sessions-close_session_example =
    sessions-close_session (env_at 0) "p1" "p1" Result.success pinentry_waits
      (start-CoreOk pinentry_waits refl refl)

abbrev keyring_alone : Agent
keyring_alone = record start { keyring_requests = ("k1", keyring_request) ∷ [] }

k1_waits : lookup "k1" keyring_alone.keyring_requests ≡ some keyring_request
unfolding lookup
k1_waits = refl

respond_once_example :
    Gives "k1" "secret" (KeyringManager.handle_response (env_at 0) "k1" "secret" keyring_alone).0
    × ((KeyringManager.handle_response (env_at 0) "k1" "secret" keyring_alone).1.keyring_requests
        ≡ remove "k1" keyring_alone.keyring_requests)
    × (KeyringManager.handle_response
          (env_at 0)
          "k1"
          "again"
          (KeyringManager.handle_response (env_at 0) "k1" "secret" keyring_alone).1
        ≡ (
          error_reply "Unknown cookie",
          (KeyringManager.handle_response (env_at 0) "k1" "secret" keyring_alone).1,
        ))
respond_once_example =
    respond_once (env_at 0) "k1" "secret" "again" keyring_request keyring_alone
      (start-CoreOk keyring_alone refl refl) k1_waits

lookup-cleanup_for_socket_example :
    lookup "k1" (KeyringManager.cleanup_for_socket (env_at 0) 3 keyring_alone).keyring_requests ≡ (
      if asked_by 3 (lookup "k1" keyring_alone.keyring_requests)
      then none
      else lookup "k1" keyring_alone.keyring_requests)
unfolding lookup
lookup-cleanup_for_socket_example =
    lookup-cleanup_for_socket (env_at 0) 3 "k1" keyring_alone (start-CoreOk keyring_alone refl refl)
      (refl, tt)

p1_is_pinentry : session_is_pinentry (Agent.get_session "p1" pinentry_waits) ≡ true
unfolding Agent.get_session SessionStore.get_session lookup new_session
p1_is_pinentry = refl

close_flow_closes_example :
    let b = close_flow (env_at 0) "p1" Result.error "gone" pinentry_waits in
    (lookup "p1" b.sessions ≡ (if p1 == p1 then none else lookup "p1" pinentry_waits.sessions))
    × (lookup "p1" b.flows.pending_requests
        ≡ (if p1 == p1 then none else lookup "p1" pinentry_waits.flows.pending_requests))
    × (lookup "p1" b.flows.awaiting_outcome
        ≡ (if p1 == p1 then none else lookup "p1" pinentry_waits.flows.awaiting_outcome))
    × (lookup "p1" b.flows.flow_owners
        ≡ (if p1 == p1 then none else lookup "p1" pinentry_waits.flows.flow_owners))
    × (lookup "p1" b.flows.flow_keyinfos
        ≡ (if p1 == p1 then none else lookup "p1" pinentry_waits.flows.flow_keyinfos))
    × (lookup "p1" b.flows.retry_reported
        ≡ (if p1 == p1 then none else lookup "p1" pinentry_waits.flows.retry_reported))
close_flow_closes_example =
    close_flow_closes (env_at 0) "p1" "gone" Result.error pinentry_waits "p1"
      (start-CoreOk pinentry_waits refl refl) p1_is_pinentry

abbrev stolen : JsonObject
stolen = object (("cookie", str "p1") ∷ ("id", str "p1") ∷ ("result", str "success") ∷ [])

nobody_owns : lookup "p1" start.flows.flow_owners ≡ none
unfolding lookup
nobody_owns = refl

opened_flow-Shut_example :
    let opened = PinentryManager.handle_request (env_at 0) stolen 4 (pos 77) start in
    Shut (env_at 0) (env_at 9) stolen stolen 8 (pos 66) opened
    × Shut
        (env_at 0)
        (env_at 9)
        stolen
        stolen
        8
        (pos 66)
        (PinentryManager.handle_response (env_at 0) "p1" "1234" opened).1
opened_flow-Shut_example =
    opened_flow-Shut (env_at 0) (env_at 9) stolen stolen stolen 4 8 "p1" "1234" (pos 77) (pos 66)
      start (start-CoreOk start refl refl) (λ e. cc) refl refl refl nobody_owns (λ e. cc)

p1_waits : lookup "p1" pinentry_waits.flows.pending_requests ≡ some pinentry_request
unfolding lookup
p1_waits = refl

handle_response_once_example :
    let (reply, b) = PinentryManager.handle_response (env_at 0) "p1" "1234" pinentry_waits in
    IsReply pinentry_request "p1" "1234" reply
    × (lookup "p1" b.flows.pending_requests ≡ none)
    × (Table.contains "p1" b.flows.awaiting_outcome ≡ true)
    × (PinentryManager.handle_response (env_at 9) "p1" "5678" b
        ≡ (error_reply "Session is already awaiting terminal result", b))
handle_response_once_example =
    handle_response_once (env_at 0) (env_at 9) "p1" "1234" "5678" pinentry_request pinentry_waits
      p1_waits

resolve_retry_info_bounds_example :
    let (cur, max) = (resolve_retry_info (some (pos 2, pos 0)) pinentry_request no_flows).0 in
    (pos 0 ≤ℤ cur) × (pos 0 <ℤ max)
resolve_retry_info_bounds_example =
    resolve_retry_info_bounds (some (pos 2, pos 0)) pinentry_request no_flows

resolve_retry_info-remembers_example :
    (resolve_retry_info none pinentry_request
      (resolve_retry_info (some (pos 1, pos 5)) pinentry_request no_flows).1).0
    ≡ (resolve_retry_info (some (pos 1, pos 5)) pinentry_request no_flows).0
resolve_retry_info-remembers_example =
    resolve_retry_info-remembers (pos 1) (pos 5) pinentry_request pinentry_request no_flows
      (λ e. cc) refl

contains-finish_auth_example :
    Table.contains "c1" (finish_auth (env_at 0) third_attempt polkit_waits).listener.cookie_to_state
    ≡ ((not third_attempt.gained_auth && not third_attempt.cancelled) && ltb 3 3)
contains-finish_auth_example = contains-finish_auth (env_at 0) third_attempt polkit_waits refl

c1_waits : lookup "c1" polkit_waits.listener.cookie_to_state ≡ some third_attempt
unfolding lookup
c1_waits = refl

nine_is_c1 : lookup 9 polkit_waits.listener.session_to_state ≡ some "c1"
unfolding lookup
nine_is_c1 = refl

cancel_pending_dangling_example :
    cancel_pending (env_at 0) "c1" polkit_waits
    ≡ emit
        (used_after_free "c1")
        (on_session_completed (env_at 0) 9 false (emit (auth_cancelled 9) polkit_waits))
cancel_pending_dangling_example =
    cancel_pending_dangling (env_at 0) third_attempt polkit_waits refl c1_waits nine_is_c1
      (λ e. absurd (omega arith)) refl refl
