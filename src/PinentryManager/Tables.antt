-- ===== src/PinentryManager/Tables.antt =====
-- core/managers/PinentryManager.cpp: the tables of the flows, the numbers of the attempts and the
-- replies; what the handlers of the parent module are made of.
use noctalia_unofficial_auth.Base.{
  ℕ, String, Bool, true, false, ◌||◌, Option, none, some, [], ◌∷◌, ◌==◌, if◌then◌else◌,
  comparable_nat, comparable_string,
}
use noctalia_unofficial_auth.Base.Int.{ℤ, pos, ltb_int, comparable_int}
use noctalia_unofficial_auth.Base.Table.{lookup, insert, remove, contains}
use noctalia_unofficial_auth.Json.{JsonObject, str, object, value, to_string, to_bool}
use noctalia_unofficial_auth.Session.{Session, Context, default_context, is_pinentry}
use noctalia_unofficial_auth.EventQueue.{Socket, nullptr}
use noctalia_unofficial_auth.RequestContext.{ActorInfo}
use noctalia_unofficial_auth.RequestTypes.{PinentryRequest, PinentryRetryInfo, PinentryTables}
use noctalia_unofficial_auth.ProviderRegistry.{or_else}
use noctalia_unofficial_auth.Agent
use noctalia_unofficial_auth.Agent.{Agent}

-- common/Constants.hpp
abbrev pub pinentry_result_timeout_ms : ℕ
pinentry_result_timeout_ms = 10000

abbrev pub set_flows : PinentryTables → Agent → Agent
set_flows f a = record a { flows = f }

unfoldable pub parse_pinentry_request : JsonObject → Socket → ℤ → PinentryRequest
parse_pinentry_request msg s pid = record {
  cookie = to_string (value "cookie" msg);
  socket = s;
  peer_pid = pid;
  prompt = or_else (to_string (value "prompt" msg)) "Enter passphrase:";
  description = to_string (value "description" msg);
  error_text = to_string (value "error" msg);
  keyinfo = to_string (value "keyinfo" msg);
  repeat = to_bool (value "repeat" msg);
  confirm_only = to_bool (value "confirm_only" msg);
}

unfoldable pub request_context : PinentryRequest → ℤ → ℤ → ActorInfo → Context
request_context q cur max actor = record default_context {
  message = q.prompt;
  description = q.description;
  keyinfo = q.keyinfo;
  cur_retry = cur;
  max_retries = max;
  confirm_only = q.confirm_only;
  repeat = q.repeat;
  requestor = record {
    name = actor.display_name;
    icon = actor.icon_name;
    fallback_letter = actor.fallback_letter;
    fallback_key = actor.fallback_key;
    pid = q.peer_pid;
  };
}

abbrev pub or_info : Option PinentryRetryInfo → PinentryRetryInfo
or_info none = record { keyinfo = ""; cur_retry = pos 0; max_retries = pos 0 }
or_info (some i) = i

abbrev pub positive_or_three : ℤ → ℤ
positive_or_three n = if ltb_int (pos 0) n then n else pos 3

abbrev pub clamp : ℤ × ℤ → ℤ × ℤ
clamp (cur, max) = (if ltb_int cur (pos 0) then pos 0 else cur, positive_or_three max)

abbrev pub parsed_or_default : Option (ℤ × ℤ) → ℤ × ℤ
parsed_or_default none = (pos 0, pos 3)
parsed_or_default (some p) = p

-- What m_retryInfo holds for a key after the request, and what resolveRetryInfo returns for it.
abbrev pub next_info : String → Option (ℤ × ℤ) → PinentryRetryInfo → PinentryRetryInfo
next_info key none i = record i { keyinfo = key }
next_info key (some (cur, max)) i = record i { keyinfo = key; cur_retry = cur; max_retries = max }

abbrev pub info_numbers : Option (ℤ × ℤ) → PinentryRetryInfo → ℤ × ℤ
info_numbers none i = (i.cur_retry, positive_or_three i.max_retries)
info_numbers (some p) i = p

unfoldable pub resolve_retry_info :
    Option (ℤ × ℤ) → PinentryRequest → PinentryTables → (ℤ × ℤ) × PinentryTables
resolve_retry_info parsed q f =
    if q.keyinfo == ""
    then (clamp (parsed_or_default parsed), f)
    else let info = or_info (lookup q.keyinfo f.retry_info) in
      (
        clamp (info_numbers parsed info),
        record f { retry_info = insert q.keyinfo (next_info q.keyinfo parsed info) f.retry_info },
      )

unfoldable pub cleanup_awaiting : String → Agent → Agent
cleanup_awaiting cookie a =
    set_flows (record a.flows { awaiting_outcome = remove cookie a.flows.awaiting_outcome }) a

abbrev pub session_is_pinentry : Option Session → Bool
session_is_pinentry none = false
session_is_pinentry (some s) = is_pinentry s.source

-- validateResultOwner: a cookie with no owner is anybody's.
unfoldable pub validate_result_owner : String → ℤ → Agent → Bool
validate_result_owner cookie pid a = elim (lookup cookie a.flows.flow_owners) [
  | none ↦ true
  | some owner ↦ owner == pid
]

-- The key whose retry information closeFlow forgets, if any.
abbrev pub forget_info : Option String → PinentryTables → PinentryTables
forget_info none f = f
forget_info (some key) f =
    if key == "" then f else record f { retry_info = remove key f.retry_info }

unfoldable pub clear_flow : String → PinentryTables → PinentryTables
clear_flow cookie f = forget_info (lookup cookie f.flow_keyinfos) (record f {
  pending_requests = remove cookie f.pending_requests;
  awaiting_outcome = remove cookie f.awaiting_outcome;
  flow_owners = remove cookie f.flow_owners;
  retry_reported = remove cookie f.retry_reported;
  flow_keyinfos = remove cookie f.flow_keyinfos;
})

unfoldable pub has_pending_input : String → Agent → Bool
has_pending_input cookie a = contains cookie a.flows.pending_requests

unfoldable pub is_awaiting_outcome : String → Agent → Bool
is_awaiting_outcome cookie a = contains cookie a.flows.awaiting_outcome

unfoldable pub has_request : String → Agent → Bool
unfolding has_pending_input is_awaiting_outcome
has_request cookie a =
    (has_pending_input cookie a || is_awaiting_outcome cookie a)
    || session_is_pinentry (Agent.get_session cookie a)

unfoldable pub get_socket_for_pending_input : String → Agent → Socket
get_socket_for_pending_input cookie a = elim (lookup cookie a.flows.pending_requests) [
  | none ↦ nullptr
  | some q ↦ q.socket
]

unfoldable pub socket_response : PinentryRequest → String → String → JsonObject
socket_response q cookie response =
    if q.confirm_only
    then object
        (("type", str "pinentry_response") ∷ ("id", str cookie) ∷ ("result", str "confirmed") ∷ [])
    else object (
        ("type", str "pinentry_response")
        ∷ ("id", str cookie)
        ∷ ("result", str "ok")
        ∷ ("password", str response)
        ∷ [])

unfoldable pub cancelled_response : String → JsonObject
cancelled_response cookie =
    object
      (("type", str "pinentry_response") ∷ ("id", str cookie) ∷ ("result", str "cancelled") ∷ [])

abbrev pub ok_reply : JsonObject
ok_reply = object (("type", str "ok") ∷ [])
