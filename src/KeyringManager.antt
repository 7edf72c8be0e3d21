-- ===== src/KeyringManager.antt =====
-- core/managers/KeyringManager.hpp and KeyringManager.cpp: the requests of the keyring prompter.
pub mod Requests
use noctalia_unofficial_auth.Base.{
  String, Bool, true, false, Option, none, some, List, [], ◌∷◌, ◌==◌, if◌then◌else◌, comparable_nat,
  comparable_string,
}
use noctalia_unofficial_auth.Base.Int.{ℤ}
use noctalia_unofficial_auth.Base.Table.{Table, lookup, insert, remove, contains}
use noctalia_unofficial_auth.Json
use noctalia_unofficial_auth.Json.{JsonObject, str, object, value, to_string, to_int}
use noctalia_unofficial_auth.Session.{Context, Source, Result, default_context}
use noctalia_unofficial_auth.EventQueue.{Socket, nullptr}
use noctalia_unofficial_auth.Environment.{Env}
use noctalia_unofficial_auth.RequestContext.{ActorInfo, resolve_actor_for_pid}
use noctalia_unofficial_auth.RequestTypes.{KeyringRequest}
use noctalia_unofficial_auth.Agent
use noctalia_unofficial_auth.Agent.{Agent}

-- QJsonObject{{"type", "error"}, {"message", text}}
abbrev pub error_reply : String → JsonObject
error_reply text = object (("type", str "error") ∷ ("message", str text) ∷ [])

unfoldable pub parse_request : String → Socket → ℤ → JsonObject → KeyringRequest
parse_request cookie s pid msg = record {
  cookie = cookie;
  socket = s;
  peer_pid = pid;
  title =
      if Json.contains "title" msg
      then to_string (value "title" msg)
      else to_string (value "prompt" msg);
  message = to_string (value "message" msg);
  choice = to_string (value "choice" msg);
  flags = to_int (value "flags" msg);
}

unfoldable pub request_context : KeyringRequest → ActorInfo → Context
request_context q actor = record default_context {
  message = q.title;
  keyring_name = q.message;
  requestor = record {
    name = actor.display_name;
    icon = actor.icon_name;
    fallback_letter = actor.fallback_letter;
    fallback_key = actor.fallback_key;
    pid = q.peer_pid;
  };
}

abbrev pub set_requests : Table String KeyringRequest → Agent → Agent
set_requests m a = record a { keyring_requests = m }

unfoldable pub ok_response : String → String → JsonObject
ok_response cookie response = object (
    ("type", str "keyring_response")
    ∷ ("id", str cookie)
    ∷ ("result", str "ok")
    ∷ ("password", str response)
    ∷ [])

unfoldable pub cancelled_response : String → JsonObject
cancelled_response cookie =
    object
      (("type", str "keyring_response") ∷ ("result", str "cancelled") ∷ ("id", str cookie) ∷ [])

module _ (env : Env) where
  abbrev pub cookie_of : JsonObject → String
  cookie_of msg =
      if to_string (value "cookie" msg) == "" then env.uuid else to_string (value "cookie" msg)

  unfoldable pub handle_request : JsonObject → Socket → ℤ → Agent → Agent
  unfolding parse_request request_context
  handle_request msg s pid a =
      let cookie = cookie_of msg in
      let q = parse_request cookie s pid msg in
      let b = set_requests (insert cookie q a.keyring_requests) a in
      let ctx = request_context q (resolve_actor_for_pid env pid) in
      Agent.update_session_prompt env cookie q.message false true
        (Agent.create_session env cookie Source.keyring ctx b)

  unfoldable pub handle_response : String → String → Agent → JsonObject × Agent
  handle_response cookie response a = elim (lookup cookie a.keyring_requests) [
    | none ↦ (error_reply "Unknown cookie", a)
    | some q ↦ (
      ok_response cookie response,
      Agent.close_session env cookie Result.success
          (set_requests (remove cookie a.keyring_requests) a),
    )
  ]

  unfoldable pub handle_cancel : String → Agent → JsonObject × Agent
  handle_cancel cookie a = elim (lookup cookie a.keyring_requests) [
    | none ↦ (error_reply "Unknown cookie", a)
    | some q ↦ (
      cancelled_response cookie,
      Agent.close_session env cookie Result.cancelled
          (set_requests (remove cookie a.keyring_requests) a),
    )
  ]

  -- The loop of cleanupForSocket over the entries that are still ahead of the iterator.
  unfoldable pub cleanup : Socket → Table String KeyringRequest → Agent → Agent
  cleanup s [] a = a
  cleanup s ((k, q) ∷ rest) a = cleanup s rest (
      if q.socket == s
      then Agent.close_session env q.cookie Result.cancelled
          (set_requests (remove k a.keyring_requests) a)
      else a)

  unfoldable pub cleanup_for_socket : Socket → Agent → Agent
  unfolding cleanup
  cleanup_for_socket s a = cleanup s a.keyring_requests a

unfoldable pub has_pending_request : String → Agent → Bool
has_pending_request cookie a = contains cookie a.keyring_requests

unfoldable pub get_socket_for_request : String → Agent → Socket
get_socket_for_request cookie a = elim (lookup cookie a.keyring_requests) [
  | none ↦ nullptr
  | some q ↦ q.socket
]
