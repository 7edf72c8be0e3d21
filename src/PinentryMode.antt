-- ===== src/PinentryMode.antt =====
-- modes/pinentry.cpp: one run of the program that gpg-agent starts as its pinentry.
pub mod Codec
pub mod Commands
pub mod Ledger
pub mod Flow
pub mod Endings
pub mod Settles
pub mod Replies
pub mod Verdict
pub mod Protocol
pub mod Delivery
use noctalia_unofficial_auth.Base.{
  ℕ, suc, String, Bool, true, false, not, ◌&&◌, ◌||◌, Option, none, some, List, [], ◌∷◌, ◌==◌,
  if◌then◌else◌, comparable_nat, comparable_string,
}
use noctalia_unofficial_auth.Base.Lists.{drop}
use noctalia_unofficial_auth.Text.{Text, index_of, left, is_empty}
use noctalia_unofficial_auth.Json.{JsonObject, boolean, str, object, set, value, to_string}
use noctalia_unofficial_auth.PinentryMode.Codec.{CodeFunctions, assuan_decode, assuan_encode}

-- What the program asks of its surroundings.
pub record World : Type 0 where
  pub codes : CodeFunctions
  -- A QString as its units, and back; toUpper of a QString; fromStdString.
  pub units : String → Text
  pub string : Text → String
  pub to_upper : String → String
  pub from_std : List ℕ → Text
  -- getpid() as a text, and the n-th createUuid().
  pub pid : String
  pub uuid : ℕ → String
  -- What IpcClient::sendRequest returns for the newest of the requests sent so far.
  pub reply : List JsonObject → Option JsonObject

pub record PinentryState : Type 0 where
  pub description : String
  pub prompt : String
  pub title : String
  pub error : String
  pub ok_text : String
  pub cancel_text : String
  pub not_ok_text : String
  pub keyinfo : String
  pub repeat : String
  pub confirm_mode : Bool

abbrev pub new_state : PinentryState
new_state = record {
  description = "";
  prompt = "";
  title = "";
  error = "";
  ok_text = "";
  cancel_text = "";
  not_ok_text = "";
  keyinfo = "";
  repeat = "";
  confirm_mode = false;
}

-- A line on standard output: OK, ERR and D.
pub data Line : Type 0 where
  ok_line : String → Line
  err_line : ℕ → String → Line
  data_line : Text → Line

-- `made` counts the identifiers made; `sent` and `out` hold the requests to the daemon and the lines
-- written, newest first.
pub record PinentrySession : Type 0 where
  pub state : PinentryState
  pub flow_cookie : String
  pub awaiting_terminal_result : Bool
  pub made : ℕ
  pub sent : List JsonObject
  pub out : List Line

abbrev pub new_session : PinentrySession
new_session = record {
  state = new_state;
  flow_cookie = "";
  awaiting_terminal_result = false;
  made = 0;
  sent = [];
  out = [];
}

abbrev pub clear_submit_state : PinentrySession → PinentrySession
clear_submit_state s = record s { awaiting_terminal_result = false }

abbrev pub reset_flow : PinentrySession → PinentrySession
reset_flow s = record (clear_submit_state s) { flow_cookie = "" }

abbrev pub send_ok : String → PinentrySession → PinentrySession
send_ok comment s = record s { out = ok_line comment ∷ s.out }

abbrev pub send_error : ℕ → String → PinentrySession → PinentrySession
send_error code message s = record s { out = err_line code message ∷ s.out }

abbrev pub clear_error : PinentrySession → PinentrySession
clear_error s = record s { state = record (s.state) { error = "" } }

abbrev pub when_set : String → String → JsonObject → JsonObject
when_set key text json = if text == "" then json else set key (str text) json

abbrev pub or_default : String → String → String
or_default text default = if text == "" then default else text

-- The request of reportTerminalResult, without and with its error.
abbrev pub bare_result : String → String → JsonObject
bare_result cookie result =
    object (("type", str "pinentry_result") ∷ ("id", str cookie) ∷ ("result", str result) ∷ [])

abbrev pub terminal_result : String → String → String → JsonObject
terminal_result cookie result error = when_set "error" error (bare_result cookie result)

-- The request of requestPasswordFromDaemon, without and with what is optional.
abbrev pub bare_request : String → PinentryState → JsonObject
bare_request cookie state = object (
    ("type", str "pinentry_request")
    ∷ ("cookie", str cookie)
    ∷ ("title", str (or_default state.title "GPG Key"))
    ∷ ("prompt", str (or_default state.prompt "Enter passphrase:"))
    ∷ ("description", str state.description)
    ∷ ("repeat", boolean (not (state.repeat == "")))
    ∷ [])

abbrev pub password_request : String → PinentryState → JsonObject
password_request cookie state =
    when_set "keyinfo" state.keyinfo (when_set "error" state.error (bare_request cookie state))

-- The request of requestConfirmFromDaemon.
abbrev pub confirm_request : String → PinentryState → JsonObject
confirm_request cookie state = object (
    ("type", str "pinentry_request")
    ∷ ("cookie", str cookie)
    ∷ ("title", str (or_default state.title "Confirm"))
    ∷ ("prompt", str (or_default state.description "Please confirm"))
    ∷ ("confirm_only", boolean true)
    ∷ [])

-- Whether the daemon answered with the result that is asked for.
abbrev pub has_result : String → Option JsonObject → Bool
has_result wanted none = false
has_result wanted (some response) =
    to_string (value "type" response) == "pinentry_response"
    && to_string (value "result" response) == wanted

abbrev pub password_of : Option JsonObject → String
password_of none = ""
password_of (some response) = to_string (value "password" response)

module _ (w : World) where
  unfoldable pub ensure_flow_cookie : PinentrySession → PinentrySession
  ensure_flow_cookie s =
      if s.flow_cookie == "" then record s { flow_cookie = w.uuid s.made; made = suc s.made } else s

  -- IpcClient::sendRequest
  abbrev pub send_request : JsonObject → PinentrySession → Option JsonObject × PinentrySession
  send_request request s = (w.reply (request ∷ s.sent), record s { sent = request ∷ s.sent })

  -- A failure is only printed.
  unfoldable pub report_terminal_result : String → String → PinentrySession → PinentrySession
  report_terminal_result result error s =
      if s.flow_cookie == ""
      then s
      else let (response, t) = send_request (terminal_result s.flow_cookie result error) s in
        if result == "retry" then clear_submit_state t else reset_flow t

  -- What finalizeOnStreamClose and BYE do alike: the error, if there is one, or `otherwise`.
  unfoldable pub report_error_or : String → PinentrySession → PinentrySession
  unfolding report_terminal_result
  report_error_or otherwise s =
      if not (s.state.error == "")
      then report_terminal_result "error" s.state.error s
      else report_terminal_result otherwise "" s

  unfoldable pub finalize_on_stream_close : PinentrySession → PinentrySession
  unfolding report_error_or
  finalize_on_stream_close s =
      if s.awaiting_terminal_result
      then report_error_or "success" s
      else if not (s.flow_cookie == "")
      then report_error_or "cancelled" s
      else s

  abbrev pub send_data : String → PinentrySession → PinentrySession
  send_data text s = record s { out = data_line (assuan_encode w.codes (w.units text)) ∷ s.out }

  -- The password, `none` where the code returns false.
  unfoldable pub request_password_from_daemon : PinentrySession → Option String × PinentrySession
  unfolding ensure_flow_cookie
  request_password_from_daemon s =
      let named = ensure_flow_cookie s in
      let (response, t) = send_request (password_request named.flow_cookie named.state) named in
      if has_result "ok" response
      then (some (password_of response), record t { awaiting_terminal_result = true })
      else (none, reset_flow t)

  unfoldable pub request_confirm_from_daemon : PinentrySession → Bool × PinentrySession
  unfolding ensure_flow_cookie
  request_confirm_from_daemon s =
      let named = ensure_flow_cookie s in
      let (response, t) = send_request (confirm_request named.flow_cookie named.state) named in
      if has_result "confirmed" response
      then (true, record t { awaiting_terminal_result = true })
      else (false, reset_flow t)

  abbrev cancelled : PinentrySession → PinentrySession
  cancelled = send_error 83886179 "Operation cancelled"

  -- The answer to GETPIN.
  unfoldable pub answer_pin : Option String → PinentrySession → PinentrySession
  answer_pin none s = cancelled s
  answer_pin (some password) s =
      if password == "" then cancelled s else send_ok "" (send_data password s)

  -- GETPIN while a result is awaited: the password before was wrong.
  unfoldable pub report_retry : PinentrySession → PinentrySession
  unfolding report_terminal_result
  report_retry s =
      if s.awaiting_terminal_result
      then report_terminal_result "retry" (or_default s.state.error "Authentication failed") s
      else s

  unfoldable pub handle_get_pin : PinentrySession → PinentrySession
  unfolding report_retry request_password_from_daemon answer_pin
  handle_get_pin s =
      let (password, t) = request_password_from_daemon (report_retry s) in
      clear_error (answer_pin password t)

  unfoldable pub handle_confirm : PinentrySession → PinentrySession
  unfolding request_confirm_from_daemon
  handle_confirm s =
      let (confirmed, t) = request_confirm_from_daemon s in
      clear_error (if confirmed then send_ok "" t else cancelled t)

  unfoldable pub handle_message : PinentrySession → PinentrySession
  handle_message s = send_ok "" s
