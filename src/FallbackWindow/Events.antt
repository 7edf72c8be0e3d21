-- ===== src/FallbackWindow/Events.antt =====
-- The events of the window, and a run of it.
use noctalia_unofficial_auth.Base.{Bool, List, [], ◌∷◌, if◌then◌else◌, ltb}
use noctalia_unofficial_auth.Text.{Text}
use noctalia_unofficial_auth.Json.{JsonObject}
use noctalia_unofficial_auth.Prompt.{TextFunctions}
use noctalia_unofficial_auth.FallbackWindow.{
  FallbackWindow, set_status_text, click_submit, click_cancel, close_event, on_connection_state,
  on_provider_state, on_session_created, on_session_updated, on_session_closed, on_clear,
}

pub data Event : Type 0 where
  typed status_message : Text → Event
  submitted cancelled closed clear_timeout : Event
  connection_state provider_state : Bool → Event
  session_created session_updated session_closed : JsonObject → Event

module _ (q : TextFunctions) where
  -- The user types into an input that is enabled; a timer fires that has been started.
  unfoldable pub step : Event → FallbackWindow → FallbackWindow
  unfolding click_submit click_cancel close_event on_connection_state on_provider_state
      on_session_created on_session_updated on_session_closed on_clear
  step (typed text) w = if w.busy then w else record w { input = text }
  step (status_message text) w = set_status_text text w
  step submitted w = click_submit q w
  step cancelled w = click_cancel q w
  step closed w = close_event q w
  step clear_timeout w = if ltb 0 w.clears then on_clear q w else w
  step (connection_state b) w = on_connection_state q b w
  step (provider_state b) w = on_provider_state q b w
  step (session_created event) w = on_session_created q event w
  step (session_updated event) w = on_session_updated q event w
  step (session_closed event) w = on_session_closed q event w

  unfoldable pub run : List Event → FallbackWindow → FallbackWindow
  unfolding step
  run [] w = w
  run (event ∷ events) w = run events (step event w)
