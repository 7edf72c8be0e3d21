-- ===== src/PinentryMode/Protocol.antt =====
-- The pinentry and the daemon: what core/managers/PinentryManager.cpp makes of the messages that
-- modes/pinentry.cpp sends, and what the latter makes of the answers.
use noctalia_unofficial_auth.Base.{
  String, true, false, not, some, ◌==◌, ◌≡◌, ◌≢◌, refl, ap, ◌∙◌, sym, comparable_string, arith,
  Bool-cases, inl, inr, eq_of_==, ==-refl,
}
use noctalia_unofficial_auth.Base.Int.{ℤ}
use noctalia_unofficial_auth.Json.{JsonObject, value, to_string, str, value-set}
use noctalia_unofficial_auth.Session.{Result}
use noctalia_unofficial_auth.EventQueue.{Socket}
use noctalia_unofficial_auth.Environment.{Env}
use noctalia_unofficial_auth.ProviderRegistry.{or_else}
use noctalia_unofficial_auth.Agent
use noctalia_unofficial_auth.Agent.{Agent}
use noctalia_unofficial_auth.PinentryManager.{
  parse_pinentry_request, socket_response, handle_result, apply_result, close_flow, report_retry,
  ok_reply, session_is_pinentry, validate_result_owner,
}
use noctalia_unofficial_auth.PinentryMode.{
  PinentryState, or_default, when_set, bare_result, bare_request, terminal_result, password_request,
  confirm_request, has_result, password_of,
}
use noctalia_unofficial_auth.PinentryMode.Ledger.{value-when_set, value-password_request}

text-when_set :
    (key text : String) (json : JsonObject)
    → to_string (value key json) ≡ ""
    → to_string (value key (when_set key text json)) ≡ text
text-when_set key text json h = elim (Bool-cases (text == "")) [
  | inl e ↦ rw e (h ∙ sym (eq_of_== text "" e))
  | inr e ↦ rw e (rw (value-set key key (str text) json, ==-refl key) refl)
]

or_else-or_default :
    (text default : String) → or_else (or_default text default) default ≡ or_default text default
or_else-or_default text default = ground arith

-- What the manager reads in a request for a password is what the pinentry was told.
pub parse-password_request :
    (cookie : String) (st : PinentryState) (s : Socket) (pid : ℤ)
    → parse_pinentry_request (password_request cookie st) s pid ≡ record {
      cookie = cookie;
      socket = s;
      peer_pid = pid;
      prompt = or_default st.prompt "Enter passphrase:";
      description = st.description;
      error_text = st.error;
      keyinfo = st.keyinfo;
      repeat = not (st.repeat == "");
      confirm_only = false;
    }
unfolding parse_pinentry_request
parse-password_request cookie st s pid =
    let bare = bare_request cookie st in
    let with_error = when_set "error" st.error bare in
    rw
      (
        value-password_request "cookie" cookie st refl refl,
        value-password_request "prompt" cookie st refl refl,
        value-password_request "description" cookie st refl refl,
        value-password_request "repeat" cookie st refl refl,
        value-password_request "confirm_only" cookie st refl refl,
        text-when_set "keyinfo" st.keyinfo with_error
            (ap to_string (value-when_set "error" "keyinfo" st.error bare refl)),
        value-when_set "keyinfo" "error" st.keyinfo with_error refl,
        text-when_set "error" st.error bare refl,
        or_else-or_default st.prompt "Enter passphrase:",
      )
      refl

-- The answer of the manager to a request for a password, or for a confirmation, is one that the
-- pinentry accepts, and it brings the response.
pub socket_response-accepted :
    (cookie response : String) (st : PinentryState) (s : Socket) (pid : ℤ)
    → let answer = some (
        socket_response
          (parse_pinentry_request (password_request cookie st) s pid)
          cookie
          response) in
      (has_result "ok" answer ≡ true)
      × (password_of answer ≡ response)
      × (has_result "confirmed" (
            some (
              socket_response
                (parse_pinentry_request (confirm_request cookie st) s pid)
                cookie
                response))
          ≡ true)
unfolding socket_response parse_pinentry_request
socket_response-accepted cookie response st s pid =
    let q = parse-password_request cookie st s pid in
    (
      ap (λ q. has_result "ok" (some (socket_response q cookie response))) q,
      ap (λ q. password_of (some (socket_response q cookie response))) q,
      refl,
    )

-- The words of a result, which lower case leaves as they are.
abbrev AreLower : (String → String) → Type 0
AreLower to_lower =
    (to_lower "success" ≡ "success")
    × (to_lower "cancelled" ≡ "cancelled")
    × (to_lower "error" ≡ "error")
    × (to_lower "retry" ≡ "retry")

module _ (env : Env) (cookie : String) (pid : ℤ) (a : Agent) where
  handle_result-terminal_result :
      (result error : String)
      → cookie ≢ ""
      → validate_result_owner cookie pid a ≡ true
      → session_is_pinentry (Agent.get_session cookie a) ≡ true
      → env.to_lower result ≡ result
      → handle_result env (terminal_result cookie result error) pid a
        ≡ apply_result env cookie result error a
  unfolding handle_result
  handle_result-terminal_result result error ne owner known lower =
      let named : (cookie == "") ≡ false = ground (arith, comparable_string.same_iff cookie "") in
      let bare = bare_result cookie result in
      rw
        (
          value-when_set "error" "id" error bare refl,
          value-when_set "error" "result" error bare refl,
          text-when_set "error" error bare refl,
          named,
          owner,
          known,
          lower,
        )
        refl

  -- The owner's report about a session of pinentry does to the daemon what the pinentry means by it:
  -- success, cancelled and an error close the flow with that result, retry keeps it with the error.
  pub handle_result-reports :
      (error : String)
      → cookie ≢ ""
      → error ≢ ""
      → validate_result_owner cookie pid a ≡ true
      → session_is_pinentry (Agent.get_session cookie a) ≡ true
      → AreLower env.to_lower
      → (handle_result env (terminal_result cookie "success" "") pid a
          ≡ (ok_reply, close_flow env cookie Result.success "" a))
        × (handle_result env (terminal_result cookie "cancelled" "") pid a
            ≡ (ok_reply, close_flow env cookie Result.cancelled "" a))
        × (handle_result env (terminal_result cookie "error" error) pid a
            ≡ (ok_reply, close_flow env cookie Result.error error a))
        × (handle_result env (terminal_result cookie "retry" error) pid a
            ≡ (ok_reply, report_retry env cookie error a))
  unfolding apply_result
  handle_result-reports error ne some_error owner known lower =
      let given : (error == "") ≡ false = ground (arith, comparable_string.same_iff error "") in
      (
        handle_result-terminal_result "success" "" ne owner known lower.0,
        handle_result-terminal_result "cancelled" "" ne owner known lower.1,
        handle_result-terminal_result "error" error ne owner known lower.2 ∙ rw given refl,
        handle_result-terminal_result "retry" error ne owner known lower.3 ∙ rw given refl,
      )
