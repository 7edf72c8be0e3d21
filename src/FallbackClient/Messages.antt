-- ===== src/FallbackClient/Messages.antt =====
-- handleMessage of fallback/FallbackClient.cpp, the lines that it gets, and the client's events.
use noctalia_unofficial_auth.Base.{
  ◌+◌, String, Bool, true, false, not, ◌&&◌, ◌||◌, Option, none, some, List, [], ◌∷◌, ◌++◌, ◌==◌,
  if◌then◌else◌, comparable_string,
}
use noctalia_unofficial_auth.Base.Lists.{length}
use noctalia_unofficial_auth.Text.{Text, is_empty, trimmed}
use noctalia_unofficial_auth.LineLoop.{process_lines}
use noctalia_unofficial_auth.Json
use noctalia_unofficial_auth.Json.{JsonObject, value, to_string, to_bool}
use noctalia_unofficial_auth.IpcServer.{is_space}
use noctalia_unofficial_auth.FallbackClient.{
  FallbackClient, SocketState, unconnected, status_message, session_created, session_updated,
  session_closed, emit, set_provider_active, clear_pending, apply_pending_provider_state,
  on_connected, on_disconnected, on_error, on_reconnect_timer, on_watchdog, on_heartbeat, start,
  send_json, send_response, send_cancel,
}

abbrev pub active_of : JsonObject → Bool
active_of msg = to_bool (value "active" msg)

unfoldable pub handle_subscribed : JsonObject → FallbackClient → FallbackClient
unfolding set_provider_active
handle_subscribed msg c =
    let d = record c { subscribed = true } in
    if Json.contains "active" msg then set_provider_active (active_of msg) d else d

unfoldable pub handle_registered : JsonObject → FallbackClient → FallbackClient
unfolding set_provider_active apply_pending_provider_state
handle_registered msg c =
    let d = record c { registered = true; provider_id = to_string (value "id" msg) } in
    if Json.contains "active" msg
    then clear_pending (set_provider_active (active_of msg) d)
    else apply_pending_provider_state d

unfoldable pub handle_active : JsonObject → FallbackClient → FallbackClient
unfolding set_provider_active
handle_active msg c =
    let active = active_of msg in
    let active_id = to_string (value "id" msg) in
    if active && (not c.registered || c.provider_id == "")
    then record c {
      pending_provider_active_known = true;
      pending_provider_active = true;
      pending_provider_id = active_id;
    }
    else if active
    then set_provider_active (active_id == c.provider_id) c
    else if c.registered
    then clear_pending (set_provider_active true c)
    else record c {
      pending_provider_active_known = true;
      pending_provider_active = false;
      pending_provider_id = "";
    }

unfoldable pub handle_error : JsonObject → FallbackClient → FallbackClient
unfolding set_provider_active
handle_error msg c =
    let message = to_string (value "message" msg) in
    let d = if message == "Not active UI provider" then set_provider_active false c else c in
    emit (status_message message) d

-- The events of sessions, which are for the active provider.
unfoldable pub handle_session : String → JsonObject → FallbackClient → FallbackClient
handle_session type msg c =
    if not c.provider_active && c.registered
    then c
    else if type == "session.created"
    then emit (session_created msg) c
    else if type == "session.updated"
    then emit (session_updated msg) c
    else if type == "session.closed"
    then emit (session_closed msg) c
    else c

unfoldable pub handle_message : JsonObject → FallbackClient → FallbackClient
unfolding handle_subscribed handle_registered handle_active handle_error handle_session
handle_message msg c =
    let type = to_string (value "type" msg) in
    if type == "subscribed"
    then handle_subscribed msg c
    else if type == "ui.registered"
    then handle_registered msg c
    else if type == "ui.active"
    then handle_active msg c
    else if type == "pong" || type == "ok"
    then c
    else if type == "error"
    then handle_error msg c
    else handle_session type msg c

-- What reaches the client: the signals of its socket and its timers, and the calls of the window.
pub data Event : Type 0 where
  started connected disconnected reconnect_timer watchdog heartbeat : Event
  ready_read : Text → Event
  error_occurred : SocketState → Event
  response : String → String → Event
  cancel : String → Event

abbrev pub new_client : FallbackClient
new_client = record {
  socket = unconnected;
  buffer = [];
  reconnect_delay_ms = 200;
  reconnect_timer = false;
  subscribed = false;
  registered = false;
  provider_active = false;
  provider_id = "";
  pending_provider_active_known = false;
  pending_provider_active = false;
  pending_provider_id = "";
  out = [];
}

module _ (from_json : Text → Option JsonObject) where
  unfoldable pub handle_payload : Option JsonObject → FallbackClient → FallbackClient
  unfolding handle_message
  handle_payload none c = emit (status_message "Invalid daemon payload") c
  handle_payload (some msg) c = handle_message msg c

  unfoldable pub take_line : Text → FallbackClient → FallbackClient
  unfolding handle_payload
  take_line raw c =
      let line = trimmed is_space raw in
      if is_empty line then c else handle_payload (from_json line) c

  -- Nothing that a line does changes the buffer.
  unfoldable pub on_ready_read : Text → FallbackClient → FallbackClient
  unfolding process_lines take_line
  on_ready_read chunk c =
      let buffer = c.buffer ++ chunk in
      let (rest, d) = process_lines take_line (length buffer + 1) buffer c in
      record d { buffer = rest }

  unfoldable pub step : Event → FallbackClient → FallbackClient
  unfolding on_connected on_disconnected on_reconnect_timer on_watchdog on_heartbeat on_error
      on_ready_read start send_json
  step started c = start c
  step connected c = on_connected c
  step disconnected c = on_disconnected c
  step reconnect_timer c = on_reconnect_timer c
  step watchdog c = on_watchdog c
  step heartbeat c = on_heartbeat c
  step (ready_read chunk) c = on_ready_read chunk c
  step (error_occurred after) c = on_error after c
  step (response id text) c = send_response id text c
  step (cancel id) c = send_cancel id c

  unfoldable pub run : List Event → FallbackClient → FallbackClient
  unfolding step
  run [] c = c
  run (event ∷ events) c = run events (step event c)
