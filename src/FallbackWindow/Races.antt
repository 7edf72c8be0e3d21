-- ===== src/FallbackWindow/Races.antt =====
-- A session that is created soon after another has succeeded.
use noctalia_unofficial_auth.Base.{
  suc, ◌-◌, true, false, ◌==◌, ◌≡◌, ◌≢◌, refl, arith, comparable_string, ==-refl, ltb, ◌∙◌,
}
use noctalia_unofficial_auth.Json.{JsonObject, value, to_string}
use noctalia_unofficial_auth.Prompt.{TextFunctions}
use noctalia_unofficial_auth.FallbackWindow.{
  FallbackWindow, close_session, leave_session, start_idle_exit_timer, on_session_created,
  on_session_closed, on_clear,
}
use noctalia_unofficial_auth.FallbackWindow.Events.{
  session_created, session_closed, clear_timeout, step,
}

module _ (q : TextFunctions) where
  leave_session-fields :
      (w : FallbackWindow)
      → ((leave_session w).current_session_id ≡ "")
        × ((leave_session w).visible ≡ false)
        × ((leave_session w).sent ≡ w.sent)
  unfolding leave_session start_idle_exit_timer
  leave_session-fields w = (refl, refl, refl)

  success_shown :
      (ended : JsonObject) (w : FallbackWindow)
      → w.current_session_id ≢ ""
      → to_string (value "id" ended) ≡ w.current_session_id
      → to_string (value "result" ended) ≡ "success"
      → ((on_session_closed q ended w).clears ≡ suc w.clears)
        × ((on_session_closed q ended w).sent ≡ w.sent)
  unfolding on_session_closed close_session
  success_shown ended w ne same ok =
      let current : (w.current_session_id == "") ≡ false =
        ground (arith, comparable_string.same_iff w.current_session_id "") in
      rw (same, current, ==-refl w.current_session_id, ok) (refl, refl)

  created_shown :
      (begun : JsonObject) (w : FallbackWindow)
      → to_string (value "id" begun) ≢ ""
      → ((on_session_created q begun w).current_session_id ≡ to_string (value "id" begun))
        × ((on_session_created q begun w).clears ≡ w.clears)
        × ((on_session_created q begun w).sent ≡ w.sent)
  unfolding on_session_created
  created_shown begun w ne =
      let named : (to_string (value "id" begun) == "") ≡ false =
        ground (arith, comparable_string.same_iff (to_string (value "id" begun)) "") in
      rw named (refl, refl, refl)

  -- A session that is created within the 300 milliseconds after the success of another is shown, and
  -- then, when the timer of the success fires, the window drops and hides it without an answer and
  -- without a cancel.
  pub success_drops_next :
      (ended begun : JsonObject) (w : FallbackWindow)
      → w.current_session_id ≢ ""
      → to_string (value "id" ended) ≡ w.current_session_id
      → to_string (value "result" ended) ≡ "success"
      → to_string (value "id" begun) ≢ ""
      → let shown = step q (session_created begun) (step q (session_closed ended) w) in
        let after = step q clear_timeout shown in
        (shown.current_session_id ≡ to_string (value "id" begun))
        × (after.current_session_id ≡ "")
        × (after.visible ≡ false)
        × (after.sent ≡ w.sent)
  unfolding step on_clear
  success_drops_next ended begun w ne same ok named =
      let won = on_session_closed q ended w in
      let shown = on_session_created q begun won in
      let a = success_shown ended w ne same ok in
      let b = created_shown begun won named in
      let runs : ltb 0 shown.clears ≡ true = ground (arith, a.0, b.1) in
      let left = leave_session-fields (record shown { clears = shown.clears - 1 }) in
      (b.0, rw runs left.0, rw runs left.1, rw runs (left.2 ∙ b.2 ∙ a.1))
