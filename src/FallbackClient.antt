-- ===== src/FallbackClient.antt =====
-- fallback/FallbackClient.cpp: the connection of the fallback window to the daemon.
pub mod Messages
pub mod Connection
pub mod Buffer
pub mod Retries
use noctalia_unofficial_auth.Base.{
  ℕ, zero, suc, ◌+◌, ◌*◌, String, Bool, true, false, not, ◌&&◌, ◌||◌, Option, none, some, List, [],
  ◌∷◌, ◌++◌, ◌==◌, if◌then◌else◌, ltb, comparable_string,
}
use noctalia_unofficial_auth.Base.Int.{pos}
use noctalia_unofficial_auth.Base.Lists.{length}
use noctalia_unofficial_auth.Text.{Text, is_empty, trimmed}
use noctalia_unofficial_auth.LineLoop.{process_lines}
use noctalia_unofficial_auth.Json
use noctalia_unofficial_auth.Json.{JsonObject, num, str, object, value, to_string, to_bool}
use noctalia_unofficial_auth.IpcServer.{is_space}

-- QLocalSocket::state(), as far as the code tells the states apart.
pub data SocketState : Type 0 where
  unconnected connecting connected : SocketState

-- The signals that the client emits, and what it does to its socket, its timer and the daemon.
pub data Output : Type 0 where
  connection_state_changed provider_state_changed : Bool → Output
  status_message : String → Output
  session_created session_updated session_closed : JsonObject → Output
  connect_to_server : Output
  timer_started : ℕ → Output
  written : JsonObject → Output

-- `out` is newest first.
pub record FallbackClient : Type 0 where
  pub socket : SocketState
  pub buffer : Text
  pub reconnect_delay_ms : ℕ
  pub reconnect_timer : Bool
  pub subscribed : Bool
  pub registered : Bool
  pub provider_active : Bool
  pub provider_id : String
  pub pending_provider_active_known : Bool
  pub pending_provider_active : Bool
  pub pending_provider_id : String
  pub out : List Output

abbrev pub emit : Output → FallbackClient → FallbackClient
emit o c = record c { out = o ∷ c.out }

abbrev pub is_connected : FallbackClient → Bool
is_connected c = elim c.socket [ connected ↦ true | _ ↦ false ]

unfoldable pub send_json : JsonObject → FallbackClient → FallbackClient
send_json json c = if is_connected c then emit (written json) c else c

abbrev pub registration : JsonObject
registration = object (
    ("type", str "ui.register")
    ∷ ("name", str "bb-auth-fallback")
    ∷ ("kind", str "fallback")
    ∷ ("priority", num (pos 10))
    ∷ [])

abbrev pub subscription : JsonObject
subscription = object (("type", str "subscribe") ∷ [])

abbrev pub register_provider : FallbackClient → FallbackClient
register_provider c = send_json registration c

abbrev pub subscribe : FallbackClient → FallbackClient
subscribe c = send_json subscription c

abbrev pub send_response : String → String → FallbackClient → FallbackClient
send_response id response =
    send_json
      (object (("type", str "session.respond") ∷ ("id", str id) ∷ ("response", str response) ∷ []))

abbrev pub send_cancel : String → FallbackClient → FallbackClient
send_cancel id = send_json (object (("type", str "session.cancel") ∷ ("id", str id) ∷ []))

abbrev pub same_bool : Bool → Bool → Bool
same_bool true b = b
same_bool false b = not b

unfoldable pub set_provider_active : Bool → FallbackClient → FallbackClient
unfolding send_json
set_provider_active active c =
    let d = emit (provider_state_changed active) (record c { provider_active = active }) in
    if same_bool active c.provider_active
    then c
    else if active && is_connected d && d.registered
    then subscribe d
    else d

abbrev pub clear_pending : FallbackClient → FallbackClient
clear_pending c = record c {
  pending_provider_active_known = false;
  pending_provider_active = false;
  pending_provider_id = "";
}

unfoldable pub apply_pending_provider_state : FallbackClient → FallbackClient
unfolding set_provider_active
apply_pending_provider_state c =
    let should_be_active =
      if c.pending_provider_active then c.pending_provider_id == c.provider_id else true in
    if not c.pending_provider_active_known || not c.registered || c.provider_id == ""
    then c
    else clear_pending (set_provider_active should_be_active c)

-- What connecting and disconnecting forget.
abbrev pub forget : FallbackClient → FallbackClient
forget c = clear_pending (record c { subscribed = false; registered = false; provider_id = "" })

unfoldable pub on_connected : FallbackClient → FallbackClient
unfolding set_provider_active send_json
on_connected c =
    let d =
      set_provider_active false
        (forget (record c { socket = connected; reconnect_delay_ms = 200 })) in
    subscribe (
      register_provider
        (emit (status_message "Connected to auth daemon") (emit (connection_state_changed true) d)))

-- m_reconnectTimer.start(m_reconnectDelayMs), unless it runs, and the next delay.
unfoldable pub start_reconnect : FallbackClient → FallbackClient
start_reconnect c =
    let doubled = c.reconnect_delay_ms * 2 in
    if c.reconnect_timer
    then c
    else emit (timer_started c.reconnect_delay_ms) (record c {
      reconnect_timer = true;
      reconnect_delay_ms = if ltb doubled 4000 then doubled else 4000;
    })

unfoldable pub on_disconnected : FallbackClient → FallbackClient
unfolding set_provider_active start_reconnect
on_disconnected c =
    let d = set_provider_active false (forget (record c { socket = unconnected })) in
    start_reconnect (
      emit (status_message "Disconnected from auth daemon, reconnecting...")
        (emit (connection_state_changed false) d))

-- `after` is the state of the socket after the error.
unfoldable pub on_error : SocketState → FallbackClient → FallbackClient
unfolding start_reconnect
on_error after c =
    let d = record c { socket = after } in if is_connected d then d else start_reconnect d

unfoldable pub ensure_connected : FallbackClient → FallbackClient
ensure_connected c = elim c.socket [
  | unconnected ↦ emit connect_to_server (record c { socket = connecting })
  | _ ↦ c
]

unfoldable pub on_reconnect_timer : FallbackClient → FallbackClient
unfolding ensure_connected
on_reconnect_timer c = ensure_connected (record c { reconnect_timer = false })

unfoldable pub on_watchdog : FallbackClient → FallbackClient
unfolding send_json
on_watchdog c =
    let d = if c.registered then c else register_provider c in
    if not (is_connected c) then c else if d.subscribed then d else subscribe d

unfoldable pub on_heartbeat : FallbackClient → FallbackClient
unfolding send_json
on_heartbeat c =
    if not (is_connected c) || not c.registered
    then c
    else send_json (object (("type", str "ui.heartbeat") ∷ ("id", str c.provider_id) ∷ [])) c

unfoldable pub start : FallbackClient → FallbackClient
unfolding ensure_connected
start c = ensure_connected c
