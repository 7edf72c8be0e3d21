-- ===== src/FallbackWindow.antt =====
-- fallback/FallbackWindow.cpp, without its layout: the session that the window shows, and what its
-- user and the client do to it. Its buildDisplayModel is, line for line, the build of module Prompt.
pub mod Events
pub mod Answers
pub mod Races
use noctalia_unofficial_auth.Base.{
  ℕ, suc, ◌-◌, String, Bool, true, false, not, ◌&&◌, ◌||◌, List, [], ◌∷◌, ◌++◌, ◌==◌, if◌then◌else◌,
  comparable_string,
}
use noctalia_unofficial_auth.Text.{Text, newline, is_empty, trimmed, units}
use noctalia_unofficial_auth.Json
use noctalia_unofficial_auth.Json.{JsonObject, value, to_string, to_bool, to_object}
use noctalia_unofficial_auth.Prompt.{TextFunctions, PromptDisplayModel}
use noctalia_unofficial_auth.Prompt.Normalize.{
  looks_like_fingerprint_prompt, looks_like_fido_prompt, looks_like_touch_prompt,
}
use noctalia_unofficial_auth.Prompt.Extractors.{text_of}
use noctalia_unofficial_auth.Prompt.Assembly.{build}

-- FallbackClient::sendResponse and sendCancel.
pub data Sent : Type 0 where
  response : String → Text → Sent
  cancel : String → Sent

-- `clears` counts the timers of 300 ms that a success has started, and `sent` is newest first.
pub record FallbackWindow : Type 0 where
  pub current_session_id : String
  pub confirm_only : Bool
  pub allow_empty_response : Bool
  pub busy : Bool
  pub visible : Bool
  pub idle_exit_timer : Bool
  pub clears : ℕ
  pub title : Text
  pub prompt : Text
  pub input : Text
  pub error : Text
  pub status : Text
  pub sent : List Sent

abbrev pub set_busy : Bool → FallbackWindow → FallbackWindow
set_busy b w = record w { busy = b }

abbrev pub set_error_text : Text → FallbackWindow → FallbackWindow
set_error_text text w = record w { error = text }

abbrev pub set_status_text : Text → FallbackWindow → FallbackWindow
set_status_text text w = record w { status = text }

abbrev pub hide : FallbackWindow → FallbackWindow
hide w = record w { visible = false }

abbrev pub clear_session : FallbackWindow → FallbackWindow
clear_session w = record w {
  current_session_id = "";
  confirm_only = false;
  allow_empty_response = false;
  title = units "Authentication Required";
  error = [];
  status = [];
  input = [];
  busy = false;
}

unfoldable pub start_idle_exit_timer : FallbackWindow → FallbackWindow
start_idle_exit_timer w =
    if w.current_session_id == "" && not w.visible then record w { idle_exit_timer = true } else w

-- clearSession(); hide(); startIdleExitTimer();
unfoldable pub leave_session : FallbackWindow → FallbackWindow
unfolding start_idle_exit_timer
leave_session w = start_idle_exit_timer (hide (clear_session w))

abbrev pub new_window : FallbackWindow
new_window = record {
  current_session_id = "";
  confirm_only = false;
  allow_empty_response = false;
  busy = false;
  visible = false;
  idle_exit_timer = false;
  clears = 0;
  title = units "Authentication Required";
  prompt = [];
  input = [];
  error = [];
  status = [];
  sent = [];
}

abbrev pub answer_of : FallbackWindow → Text
answer_of w = if w.confirm_only then units "confirm" else w.input

module _ (q : TextFunctions) where
  abbrev pub please_enter : Text → Text
  please_enter prompt =
      if q.contains_folded prompt (units "passphrase")
      then units "Please enter your passphrase."
      else units "Please enter your password."

  -- The slot of the submit button.
  unfoldable pub submit : FallbackWindow → FallbackWindow
  submit w =
      if w.current_session_id == ""
      then w
      else if not w.confirm_only && not w.allow_empty_response && is_empty w.input
      then set_error_text (please_enter w.prompt) w
      else record w {
        error = [];
        status = units "Verifying...";
        sent = response w.current_session_id (answer_of w) ∷ w.sent;
        input = if w.confirm_only then w.input else [];
        busy = true;
      }

  -- A click reaches a button that is enabled; the return key clicks it.
  unfoldable pub click_submit : FallbackWindow → FallbackWindow
  unfolding submit
  click_submit w = if w.busy then w else submit w

  unfoldable pub click_cancel : FallbackWindow → FallbackWindow
  click_cancel w = if w.busy then w else if w.current_session_id == "" then hide w else record w {
    status = units "Cancelling...";
    busy = true;
    sent = cancel w.current_session_id ∷ w.sent;
  }

  unfoldable pub close_event : FallbackWindow → FallbackWindow
  close_event w =
      if w.current_session_id == ""
      then hide w
      else hide (clear_session (record w { sent = cancel w.current_session_id ∷ w.sent }))

  unfoldable pub on_connection_state : Bool → FallbackWindow → FallbackWindow
  on_connection_state true w =
      if w.current_session_id == "" then w else set_status_text (units "Connected") w
  on_connection_state false w =
      set_busy true (set_status_text (units "Disconnected from daemon, reconnecting...") w)

  unfoldable pub on_provider_state : Bool → FallbackWindow → FallbackWindow
  unfolding start_idle_exit_timer
  on_provider_state true w =
      let shown = set_status_text [] w in
      if w.current_session_id == "" then shown else set_busy false shown
  on_provider_state false w =
      start_idle_exit_timer (hide (if w.current_session_id == "" then w else clear_session w))

  -- What a session that is created shows.
  abbrev pub shown : String → Bool → PromptDisplayModel → FallbackWindow → FallbackWindow
  shown id confirm_only model w = record w {
    current_session_id = id;
    confirm_only = confirm_only;
    allow_empty_response = model.allow_empty_response;
    title = model.title;
    prompt = model.prompt;
    input = [];
    error = [];
    status = [];
    busy = false;
    idle_exit_timer = false;
    visible = true;
  }

  unfoldable pub on_session_created : JsonObject → FallbackWindow → FallbackWindow
  unfolding build
  on_session_created event w =
      let id = to_string (value "id" event) in
      let confirm = to_bool (value "confirmOnly" (to_object (value "context" event))) in
      if id == "" then w else shown id confirm (build q event) w

  abbrev or_else : Text → Text → Text
  or_else text otherwise = if is_empty text then otherwise else text

  -- What an update of the current session shows.
  unfoldable pub update : JsonObject → FallbackWindow → FallbackWindow
  unfolding looks_like_fingerprint_prompt looks_like_fido_prompt looks_like_touch_prompt trimmed
  update event w =
      let asked = text_of "prompt" event in
      let info = trimmed q.is_space (text_of "info" event) in
      let hint = asked ++ newline ∷ info in
      let by_finger = looks_like_fingerprint_prompt q hint in
      let by_key = looks_like_fido_prompt q hint in
      let touch = by_finger || by_key || looks_like_touch_prompt q hint in
      record w {
        title =
            if by_finger
            then units "Verify Fingerprint"
            else if by_key
            then units "Use Security Key"
            else w.title;
        prompt =
            if touch && not w.confirm_only
            then units "Press Enter to continue (or wait)"
            else or_else asked w.prompt;
        allow_empty_response = if w.confirm_only then w.allow_empty_response else touch;
        status = info;
        error = text_of "error" event;
        busy = false;
      }

  abbrev pub concerns : JsonObject → FallbackWindow → Bool
  concerns event w =
      let id = to_string (value "id" event) in not (id == "") && id == w.current_session_id

  unfoldable pub on_session_updated : JsonObject → FallbackWindow → FallbackWindow
  unfolding update
  on_session_updated event w = if concerns event w then update event w else w

  -- What the end of the current session shows.
  unfoldable pub close_session : JsonObject → FallbackWindow → FallbackWindow
  unfolding leave_session
  close_session event w =
      let result = to_string (value "result" event) in
      if result == "success"
      then record w {
        error = [];
        status = units "Authentication successful.";
        clears = suc w.clears;
      }
      else if result == "cancelled" || result == "canceled"
      then leave_session w
      else record w {
        error = or_else (text_of "error" event) (units "Authentication failed.");
        status = [];
        busy = false;
      }

  unfoldable pub on_session_closed : JsonObject → FallbackWindow → FallbackWindow
  unfolding close_session
  on_session_closed event w = if concerns event w then close_session event w else w

  -- A timer of 300 ms fires.
  unfoldable pub on_clear : FallbackWindow → FallbackWindow
  unfolding leave_session
  on_clear w = leave_session (record w { clears = w.clears - 1 })
