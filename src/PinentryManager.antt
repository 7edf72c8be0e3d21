-- ===== src/PinentryManager.antt =====
-- core/managers/PinentryManager.hpp and PinentryManager.cpp: the flows of pinentry.
pub mod Tables
pub mod Frames
pub mod Flows
pub mod Contract
pub mod Attempts
pub mod Retries
use noctalia_unofficial_auth.Base.{
  ℕ, ◌+◌, String, Bool, true, false, not, ◌&&◌, ◌||◌, Option, none, some, List, [], ◌∷◌, ◌==◌,
  if◌then◌else◌, is_some, comparable_nat, comparable_string,
}
use noctalia_unofficial_auth.Base.Int.{ℤ, pos, ltb_int, comparable_int}
use noctalia_unofficial_auth.Base.Table.{Table, lookup, insert, remove, contains}
use noctalia_unofficial_auth.Json.{JsonObject, str, object, value, to_string, to_bool}
use noctalia_unofficial_auth.Session.{
  Session, Context, Source, Result, default_context, is_pinentry,
}
use noctalia_unofficial_auth.EventQueue.{Socket, nullptr}
use noctalia_unofficial_auth.Environment.{Env}
use noctalia_unofficial_auth.RequestContext.{ActorInfo, resolve_actor_for_pid}
use noctalia_unofficial_auth.RequestTypes.{
  PinentryRequest, PinentryRetryInfo, AwaitingOutcome, PinentryTables,
}
use noctalia_unofficial_auth.ProviderRegistry.{or_else}
use noctalia_unofficial_auth.Agent
use noctalia_unofficial_auth.Agent.{Agent}
use noctalia_unofficial_auth.KeyringManager.{error_reply}
unfoldable pub use noctalia_unofficial_auth.PinentryManager.Tables.{
  pinentry_result_timeout_ms, set_flows, parse_pinentry_request, request_context, or_info,
  positive_or_three, clamp, parsed_or_default, next_info, info_numbers, resolve_retry_info,
  cleanup_awaiting, session_is_pinentry, validate_result_owner, forget_info, clear_flow,
  has_pending_input, is_awaiting_outcome, has_request, get_socket_for_pending_input,
  socket_response, cancelled_response, ok_reply,
}

module _ (env : Env) where
  unfoldable pub close_flow : String → Result → String → Agent → Agent
  close_flow cookie result error a =
      let told = if error == "" then a else Agent.update_session_error env cookie error a in
      let closed =
        if session_is_pinentry (Agent.get_session cookie a)
        then Agent.close_session env cookie result told
        else a in
      set_flows (clear_flow cookie closed.flows) closed

  -- The part of handleRequest behind the test of the owner.
  unfoldable pub open_flow : PinentryRequest → String → Agent → Agent
  open_flow q cookie a =
      let f = a.flows in
      let owned = record f {
        flow_owners = insert cookie q.peer_pid f.flow_owners;
        flow_keyinfos =
            if q.keyinfo == "" then f.flow_keyinfos else insert cookie q.keyinfo f.flow_keyinfos;
      } in
      let ((cur, max), resolved) = resolve_retry_info (env.match_attempts q.description) q owned in
      let b = set_flows resolved a in
      let c =
        if is_awaiting_outcome cookie b
        then Agent.update_session_error env cookie (or_else q.error_text "Authentication failed")
            (cleanup_awaiting cookie b)
        else b in
      let d =
        set_flows (record c.flows { pending_requests = insert cookie q c.flows.pending_requests })
          c in
      let e =
        if is_some (Agent.get_session cookie a)
        then Agent.update_session_pinentry_retry cookie cur max d
        else Agent.create_session env cookie Source.pinentry
            (request_context q cur max (resolve_actor_for_pid env q.peer_pid)) d in
      let prompted = Agent.update_session_prompt env cookie q.prompt false false e in
      let reported = contains cookie prompted.flows.retry_reported in
      let g =
        set_flows
          (record prompted.flows { retry_reported = remove cookie prompted.flows.retry_reported })
          prompted in
      if not (q.error_text == "") && not reported
      then Agent.update_session_error env cookie q.error_text g
      else g

  unfoldable pub handle_request : JsonObject → Socket → ℤ → Agent → Agent
  unfolding parse_pinentry_request
  handle_request msg s pid a =
      let parsed = parse_pinentry_request msg s pid in
      let cookie = or_else parsed.cookie env.uuid in
      let q = record parsed { cookie = cookie } in
      if validate_result_owner cookie pid a then open_flow q cookie a else a

  unfoldable pub handle_response : String → String → Agent → JsonObject × Agent
  handle_response cookie response a = elim (lookup cookie a.flows.pending_requests) [
    | none ↦ (
      error_reply (
          if is_awaiting_outcome cookie a
          then "Session is already awaiting terminal result"
          else "Unknown session"),
      a,
    )
    | some q ↦ (
      socket_response q cookie response,
      set_flows
          (record a.flows {
            pending_requests = remove cookie a.flows.pending_requests;
            awaiting_outcome =
                insert cookie
                  (record { request = q; deadline_ms = env.now_ms + pinentry_result_timeout_ms })
                  (remove cookie a.flows.awaiting_outcome);
          })
          a,
    )
  ]

  -- The timer of an awaited outcome fires.
  unfoldable pub on_timeout : String → Agent → Agent
  unfolding close_flow
  on_timeout cookie = close_flow cookie Result.error "Pinentry did not report terminal result"

  abbrev pub report_retry : String → String → Agent → Agent
  report_retry cookie reason a =
      let b = cleanup_awaiting cookie a in
      Agent.update_session_error env cookie reason
        (set_flows (record b.flows { retry_reported = insert cookie tt b.flows.retry_reported }) b)

  -- The part of handleResult behind its three tests.
  unfoldable pub apply_result : String → String → String → Agent → JsonObject × Agent
  apply_result cookie result error a =
      let reason = or_else error "Authentication failed" in
      if result == "success"
      then (ok_reply, close_flow cookie Result.success "" a)
      else if result == "retry"
      then (ok_reply, report_retry cookie reason a)
      else if result == "cancelled" || result == "canceled"
      then (ok_reply, close_flow cookie Result.cancelled "" a)
      else if result == "error"
      then (ok_reply, close_flow cookie Result.error reason a)
      else (error_reply "Invalid result type", a)

  unfoldable pub handle_result : JsonObject → ℤ → Agent → JsonObject × Agent
  handle_result msg pid a =
      let cookie = to_string (value "id" msg) in
      if cookie == ""
      then (error_reply "Missing id", a)
      else if not (validate_result_owner cookie pid a)
      then (error_reply "Result sender does not own session", a)
      else if not (session_is_pinentry (Agent.get_session cookie a))
      then (error_reply "Unknown pinentry session", a)
      else apply_result cookie (env.to_lower (to_string (value "result" msg)))
          (to_string (value "error" msg)) a

  abbrev cancel_flow : String → Agent → JsonObject × Agent
  cancel_flow cookie a = (cancelled_response cookie, close_flow cookie Result.cancelled "" a)

  unfoldable pub handle_cancel : String → Agent → JsonObject × Agent
  unfolding has_pending_input is_awaiting_outcome
  handle_cancel cookie a =
      if has_pending_input cookie a
      then cancel_flow cookie a
      else if is_awaiting_outcome cookie a
      then cancel_flow cookie a
      else if session_is_pinentry (Agent.get_session cookie a)
      then cancel_flow cookie a
      else (error_reply "Unknown session", a)

  -- The two loops of cleanupForSocket.
  unfoldable pub cookies_of : Socket → Table String PinentryRequest → List String
  cookies_of s [] = []
  cookies_of s ((k, q) ∷ rest) = let ks = cookies_of s rest in if q.socket == s then k ∷ ks else ks

  unfoldable pub close_all : List String → Agent → Agent
  close_all [] a = a
  close_all (k ∷ ks) a = close_all ks (close_flow k Result.cancelled "Pinentry disconnected" a)

  unfoldable pub cleanup_for_socket : Socket → Agent → Agent
  unfolding cookies_of close_all
  cleanup_for_socket s a = close_all (cookies_of s a.flows.pending_requests) a
