-- ===== src/FallbackClient/Connection.antt =====
-- The client's attempts to connect again.
use noctalia_unofficial_auth.Base.{
  ℕ, String, Bool, true, false, not, ◌&&◌, ◌||◌, Option, none, some, List, [], ◌∷◌, ◌==◌, ◌≡◌, refl,
  ◌∙◌, if◌then◌else◌, if-test, comparable_string,
}
use noctalia_unofficial_auth.Text.{Text, is_empty, trimmed}
use noctalia_unofficial_auth.LineLoop.Lines.{take_all}
use noctalia_unofficial_auth.Json
use noctalia_unofficial_auth.Json.{JsonObject, value, to_string}
use noctalia_unofficial_auth.IpcServer.{is_space}
use noctalia_unofficial_auth.FallbackClient.{
  FallbackClient, SocketState, Output, timer_started, connection_state_changed, status_message,
  connect_to_server, written, subscription, emit, is_connected, provider_state_changed, same_bool,
  session_created, session_updated, session_closed, clear_pending, set_provider_active,
  apply_pending_provider_state, send_json, subscribe,
}
use noctalia_unofficial_auth.FallbackClient.Messages.{
  active_of, handle_subscribed, handle_registered, handle_active, handle_error, handle_session,
  handle_message, handle_payload, take_line,
}

-- The delays with which the timer that connects again was started.
abbrev pub delays : List Output → List ℕ
delays [] = []
delays (timer_started ms ∷ out) = ms ∷ delays out
delays (connection_state_changed b ∷ out) = delays out
delays (provider_state_changed b ∷ out) = delays out
delays (status_message text ∷ out) = delays out
delays (session_created msg ∷ out) = delays out
delays (session_updated msg ∷ out) = delays out
delays (session_closed msg ∷ out) = delays out
delays (connect_to_server ∷ out) = delays out
delays (written msg ∷ out) = delays out

-- The state of the connection, and the delays so far.
abbrev pub Link : Type 0
Link = SocketState × ℕ × Bool × Text × List ℕ

abbrev pub link : FallbackClient → Link
link c = (c.socket, c.reconnect_delay_ms, c.reconnect_timer, c.buffer, delays c.out)

-- A client whose connection is in this state.
unfoldable pub HasLink : Link → FallbackClient → Type 0
HasLink l c = link c ≡ l

pub of_link : (l : Link) (c : FallbackClient) → link c ≡ l → HasLink l c
unfolding HasLink
of_link l c e = e

-- The client with its connection as it was.
pub keeps : (c : FallbackClient) → HasLink (link c) c
keeps c = of_link (link c) c refl

pub send_json-HasLink :
    (json : JsonObject) (c : FallbackClient) → HasLink (link c) (send_json json c)
unfolding send_json
send_json-HasLink json c =
    if-test (HasLink (link c)) (is_connected c) (emit (written json) c) c (λ e. keeps _)
      (λ e. keeps _)

pub set_provider_active-HasLink :
    (active : Bool) (c : FallbackClient) → HasLink (link c) (set_provider_active active c)
unfolding set_provider_active
set_provider_active-HasLink active c =
    let d = emit (provider_state_changed active) (record c { provider_active = active }) in
    if-test (HasLink (link c)) (same_bool active c.provider_active) c _ (λ e. keeps c)
      λ e.
        if-test (HasLink (link c)) (active && is_connected d && d.registered) (subscribe d) d
          (λ e. send_json-HasLink subscription d) (λ e. keeps d)

apply_pending-HasLink : (c : FallbackClient) → HasLink (link c) (apply_pending_provider_state c)
unfolding apply_pending_provider_state HasLink
apply_pending-HasLink c =
    let active =
      if c.pending_provider_active then c.pending_provider_id == c.provider_id else true in
    if-test (HasLink (link c))
      (not c.pending_provider_active_known || not c.registered || c.provider_id == "") c
      (clear_pending (set_provider_active active c)) (λ e. keeps c)
      (λ e. set_provider_active-HasLink active c)

handle_registered-HasLink :
    (msg : JsonObject) (c : FallbackClient) → HasLink (link c) (handle_registered msg c)
unfolding handle_registered HasLink
handle_registered-HasLink msg c =
    let d = record c { registered = true; provider_id = to_string (value "id" msg) } in
    if-test (HasLink (link c)) (Json.contains "active" msg)
      (clear_pending (set_provider_active (active_of msg) d)) (apply_pending_provider_state d)
      (λ e. set_provider_active-HasLink (active_of msg) d) (λ e. apply_pending-HasLink d)

handle_subscribed-HasLink :
    (msg : JsonObject) (c : FallbackClient) → HasLink (link c) (handle_subscribed msg c)
unfolding handle_subscribed
handle_subscribed-HasLink msg c =
    let d = record c { subscribed = true } in
    if-test (HasLink (link c)) (Json.contains "active" msg) (set_provider_active (active_of msg) d)
      d (λ e. set_provider_active-HasLink (active_of msg) d) (λ e. keeps d)

handle_active-HasLink :
    (msg : JsonObject) (c : FallbackClient) → HasLink (link c) (handle_active msg c)
unfolding handle_active HasLink
handle_active-HasLink msg c =
    let P = HasLink (link c) in
    let active = active_of msg in
    let id = to_string (value "id" msg) in
    if-test P (active && (not c.registered || c.provider_id == "")) _ _ (λ e. refl)
      λ e.
        if-test P active (set_provider_active (id == c.provider_id) c) _
          (λ e. set_provider_active-HasLink (id == c.provider_id) c)
          λ e.
            if-test P c.registered (clear_pending (set_provider_active true c)) _
              (λ e. set_provider_active-HasLink true c) (λ e. refl)

handle_error-HasLink :
    (msg : JsonObject) (c : FallbackClient) → HasLink (link c) (handle_error msg c)
unfolding handle_error HasLink
handle_error-HasLink msg c =
    if-test (HasLink (link c)) (to_string (value "message" msg) == "Not active UI provider")
      (set_provider_active false c) c (λ e. set_provider_active-HasLink false c) (λ e. refl)

handle_session-HasLink :
    (type : String) (msg : JsonObject) (c : FallbackClient)
    → HasLink (link c) (handle_session type msg c)
unfolding handle_session
handle_session-HasLink type msg c =
    let P = HasLink (link c) in
    if-test P (not c.provider_active && c.registered) c _ (λ e. keeps c)
      λ e.
        if-test P (type == "session.created") (emit (session_created msg) c) _ (λ e. keeps _)
          λ e.
            if-test P (type == "session.updated") (emit (session_updated msg) c) _ (λ e. keeps _)
              λ e.
                if-test P (type == "session.closed") (emit (session_closed msg) c) c (λ e. keeps _)
                  (λ e. keeps c)

pub handle_message-HasLink :
    (msg : JsonObject) (c : FallbackClient) → HasLink (link c) (handle_message msg c)
unfolding handle_message
handle_message-HasLink msg c =
    let P = HasLink (link c) in
    let type = to_string (value "type" msg) in
    if-test P (type == "subscribed") (handle_subscribed msg c) _
      (λ e. handle_subscribed-HasLink msg c)
      λ e.
        if-test P (type == "ui.registered") (handle_registered msg c) _
          (λ e. handle_registered-HasLink msg c)
          λ e.
            if-test P (type == "ui.active") (handle_active msg c) _
              (λ e. handle_active-HasLink msg c)
              λ e.
                if-test P (type == "pong" || type == "ok") c _ (λ e. keeps c)
                  λ e.
                    if-test P (type == "error") (handle_error msg c) (handle_session type msg c)
                      (λ e. handle_error-HasLink msg c) (λ e. handle_session-HasLink type msg c)

module _ (from_json : Text → Option JsonObject) where
  handle_payload-HasLink :
      (o : Option JsonObject) (c : FallbackClient) → HasLink (link c) (handle_payload from_json o c)
  unfolding handle_payload
  handle_payload-HasLink none c = keeps _
  handle_payload-HasLink (some msg) c = handle_message-HasLink msg c

  pub take_line-HasLink :
      (raw : Text) (c : FallbackClient) → HasLink (link c) (take_line from_json raw c)
  unfolding take_line
  take_line-HasLink raw c =
      let line = trimmed is_space raw in
      if-test (HasLink (link c)) (is_empty line) c (handle_payload from_json (from_json line) c)
        (λ e. keeps c) (λ e. handle_payload-HasLink (from_json line) c)

  pub take_all-HasLink :
      (lines : List Text) (c : FallbackClient)
      → HasLink (link c) (take_all (take_line from_json) lines c)
  unfolding take_all HasLink
  take_all-HasLink [] c = refl
  take_all-HasLink (line ∷ lines) c =
      take_all-HasLink lines (take_line from_json line c) ∙ take_line-HasLink line c
