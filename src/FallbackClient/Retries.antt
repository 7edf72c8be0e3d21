-- ===== src/FallbackClient/Retries.antt =====
-- The client's attempts to connect again.
use mathlib.Core.Bool.{false≢true}
use noctalia_unofficial_auth.Base.{
  ℕ, ◌≤◌, Bool, true, false, not, ◌&&◌, ◌||◌, Option, List, [], ◌∷◌, ◌++◌, ◌≡◌, refl, ap, sym,
  subst, if◌then◌else◌, if-test, arith,
}
use noctalia_unofficial_auth.Base.Lists.{All}
use noctalia_unofficial_auth.Text.{Text}
use noctalia_unofficial_auth.EventQueue.{is_nil}
use noctalia_unofficial_auth.LineLoop.Lines.{complete_lines}
use noctalia_unofficial_auth.Json.{JsonObject}
use noctalia_unofficial_auth.FallbackClient
use noctalia_unofficial_auth.FallbackClient.{
  FallbackClient, SocketState, unconnected, connecting, status_message, connection_state_changed,
  emit, is_connected, set_provider_active, on_connected, on_disconnected, on_error,
  on_reconnect_timer, on_watchdog, on_heartbeat, start_reconnect, ensure_connected, start,
  send_json, subscribe, subscription, register_provider, registration, forget,
}
use noctalia_unofficial_auth.FallbackClient.Messages.{
  on_ready_read, Event, started, connected, disconnected, reconnect_timer, watchdog, heartbeat,
  ready_read, error_occurred, response, cancel, new_client, step, run,
}
use noctalia_unofficial_auth.FallbackClient.Connection.{
  Link, link, HasLink, delays, send_json-HasLink, set_provider_active-HasLink, take_all-HasLink,
}
use noctalia_unofficial_auth.FallbackClient.Buffer.{on_ready_read-lines}

abbrev pub is_unconnected : SocketState → Bool
is_unconnected unconnected = true
is_unconnected _ = false

-- A delay within its bounds.
abbrev pub IsInBounds : ℕ → Type 0
IsInBounds ms = (200 ≤ ms) × (ms ≤ 4000)

-- The former delays are within their bounds, and a timer that runs has been started with one.
abbrev pub IsPast : Bool → List ℕ → Type 0
IsPast timer former = All IsInBounds former × ((timer && is_nil former) ≡ false)

-- The next delay and all former ones are within their bounds, and an unconnected socket has the
-- timer running.
abbrev IsLiveLink : Link → Type 0
IsLiveLink (socket, delay, timer, buffer, former) =
    (200 ≤ delay)
    × (delay ≤ 4000)
    × ((is_unconnected socket && not timer) ≡ false)
    × IsPast timer former

abbrev pub IsLive : FallbackClient → Type 0
IsLive c = IsLiveLink (link c)

HasLink-IsLive : (l : Link) (c : FallbackClient) → HasLink l c → IsLiveLink l → IsLive c
unfolding HasLink
HasLink-IsLive l c e h = subst IsLiveLink (sym e) h

send_json-IsLive : (json : JsonObject) (c : FallbackClient) → IsLive c → IsLive (send_json json c)
send_json-IsLive json c = HasLink-IsLive (link c) _ (send_json-HasLink json c)

start_reconnect-IsLive :
    (c : FallbackClient)
    → 200 ≤ c.reconnect_delay_ms
    → c.reconnect_delay_ms ≤ 4000
    → IsPast c.reconnect_timer (delays c.out)
    → IsLive (start_reconnect c)
unfolding start_reconnect
start_reconnect-IsLive c low high past =
    if-test IsLive c.reconnect_timer c _ (λ e. (low, high, ground (arith, e), past))
      (λ e. (ground arith, ground arith, ground arith, (((low, high), past.0), refl)))

on_connected-IsLive : (c : FallbackClient) → IsLive c → IsLive (on_connected c)
unfolding on_connected
on_connected-IsLive c h =
    let d = forget (record c { socket = FallbackClient.connected; reconnect_delay_ms = 200 }) in
    send_json-IsLive subscription _ (
      send_json-IsLive registration _ (
        HasLink-IsLive (link d) (set_provider_active false d) (set_provider_active-HasLink false d)
          (omega arith, omega arith, refl, h.3)))

link_fields :
    (c : FallbackClient) (l : Link)
    → HasLink l c
    → (c.reconnect_delay_ms ≡ l.1) × (IsPast l.2 l.4 → IsPast c.reconnect_timer (delays c.out))
unfolding HasLink
link_fields c l e = (ap (λ (k : Link). k.1) e, λ h. subst (λ (k : Link). IsPast k.2 k.4) (sym e) h)

on_disconnected-IsLive : (c : FallbackClient) → IsLive c → IsLive (on_disconnected c)
unfolding on_disconnected
on_disconnected-IsLive c h =
    let d = forget (record c { socket = unconnected }) in
    let e =
      link_fields (set_provider_active false d) (link d) (set_provider_active-HasLink false d) in
    let told =
      emit (status_message "Disconnected from auth daemon, reconnecting...")
        (emit (connection_state_changed false) (set_provider_active false d)) in
    start_reconnect-IsLive told (omega (arith, e.0, h.0)) (omega (arith, e.0, h.1)) (e.1 h.3)

on_error-IsLive : (after : SocketState) (c : FallbackClient) → IsLive c → IsLive (on_error after c)
unfolding on_error
on_error-IsLive after c h =
    let d = record c { socket = after } in
    if-test IsLive (is_connected d) d (start_reconnect d)
      (λ e. (h.0, h.1, connected_is after e, h.3)) (λ e. start_reconnect-IsLive d h.0 h.1 h.3)
  where
    connected_is :
        (s : SocketState)
        → is_connected (record c { socket = s }) ≡ true
        → (is_unconnected s && not c.reconnect_timer) ≡ false
    connected_is unconnected e = absurd (false≢true e)
    connected_is connecting e = refl
    connected_is FallbackClient.connected e = refl

ensure_connected-IsLive :
    (c : FallbackClient)
    → 200 ≤ c.reconnect_delay_ms
    → c.reconnect_delay_ms ≤ 4000
    → IsPast c.reconnect_timer (delays c.out)
    → IsLive (ensure_connected c)
unfolding ensure_connected
ensure_connected-IsLive c low high past = cases c.socket refl
  where
    cases : (s : SocketState) → c.socket ≡ s → IsLive (ensure_connected c)
    cases unconnected e = rw e (low, high, refl, past)
    cases connecting e = rw e (low, high, refl, past)
    cases FallbackClient.connected e = rw e (low, high, refl, past)

on_watchdog-IsLive : (c : FallbackClient) → IsLive c → IsLive (on_watchdog c)
unfolding on_watchdog
on_watchdog-IsLive c h =
    let asked = if c.registered then c else register_provider c in
    let k : IsLive asked =
      if-test IsLive c.registered c (register_provider c) (λ e. h)
        (λ e. send_json-IsLive registration c h) in
    if-test IsLive (not (is_connected c)) c _ (λ e. h)
      λ e.
        if-test IsLive asked.subscribed asked (subscribe asked) (λ e. k)
          (λ e. send_json-IsLive subscription asked k)

on_heartbeat-IsLive : (c : FallbackClient) → IsLive c → IsLive (on_heartbeat c)
unfolding on_heartbeat
on_heartbeat-IsLive c h =
    if-test IsLive (not (is_connected c) || not c.registered) c _ (λ e. h)
      (λ e. send_json-IsLive _ c h)

module _ (from_json : Text → Option JsonObject) where
  on_ready_read-IsLive :
      (chunk : Text) (c : FallbackClient) → IsLive c → IsLive (on_ready_read from_json chunk c)
  on_ready_read-IsLive chunk c h = rw (on_ready_read-lines from_json chunk c) (
      HasLink-IsLive (link c) _ (take_all-HasLink from_json (complete_lines (c.buffer ++ chunk)) c)
        h)

  step-IsLive : (event : Event) (c : FallbackClient) → IsLive c → IsLive (step from_json event c)
  unfolding step start on_reconnect_timer on_watchdog on_heartbeat
  step-IsLive started c h = ensure_connected-IsLive c h.0 h.1 h.3
  step-IsLive connected c h = on_connected-IsLive c h
  step-IsLive disconnected c h = on_disconnected-IsLive c h
  step-IsLive reconnect_timer c h =
      ensure_connected-IsLive (record c { reconnect_timer = false }) h.0 h.1 (h.3.0, refl)
  step-IsLive watchdog c h = on_watchdog-IsLive c h
  step-IsLive heartbeat c h = on_heartbeat-IsLive c h
  step-IsLive (ready_read chunk) c h = on_ready_read-IsLive chunk c h
  step-IsLive (error_occurred after) c h = on_error-IsLive after c h
  step-IsLive (response id text) c h = send_json-IsLive _ c h
  step-IsLive (cancel id) c h = send_json-IsLive _ c h

  run-IsLive_from :
      (events : List Event) (c : FallbackClient) → IsLive c → IsLive (run from_json events c)
  unfolding run
  run-IsLive_from [] c h = h
  run-IsLive_from (event ∷ events) c h =
      run-IsLive_from events (step from_json event c) (step-IsLive event c h)

  -- Once started, and whatever the socket, the timers, the daemon and the window do then, the client
  -- has started the timer that connects it again with delays between 200 and 4000 milliseconds alone,
  -- and so will it the next time; while its socket is not connected and not connecting, the timer is
  -- running; and a timer that is running has been started with such a delay.
  pub run-IsLive : (events : List Event) → IsLive (run from_json (started ∷ events) new_client)
  unfolding run step start
  run-IsLive events =
      run-IsLive_from events (ensure_connected new_client)
        (ensure_connected-IsLive new_client (omega arith) (omega arith) (tt, refl))
