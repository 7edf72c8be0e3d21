-- ===== src/PinentryMode/Settles.antt =====
-- A whole run of the pinentry, and the flows that it opens and ends.
use mathlib.Core.Bool.{false≢true}
use noctalia_unofficial_auth.Base.{
  ℕ, ◌≤◌, String, Bool, true, false, Option, none, some, List, [], ◌∷◌, ◌==◌, ◌≡◌, refl,
  if◌then◌else◌, comparable_nat, comparable_string, arith, sym, ◌∙◌, if-test,
}
use noctalia_unofficial_auth.Text.{index_of, is_empty}
use noctalia_unofficial_auth.PinentryMode.{
  World, PinentryState, PinentrySession, new_session, finalize_on_stream_close, handle_get_pin,
  handle_confirm, handle_message, send_ok,
}
use noctalia_unofficial_auth.PinentryMode.Commands.{
  set_field, info, send_info, handle_set, get_info, handle_other, dispatch, split_command,
  handle_command, strip_return, read_lines, run,
}
use noctalia_unofficial_auth.PinentryMode.Ledger.{endings, is_owed}
use noctalia_unofficial_auth.PinentryMode.Flow.{AreUnique, FlowOk}
use noctalia_unofficial_auth.PinentryMode.Endings.{
  IsEnded, finalize-IsEnded, handle_get_pin-FlowOk, handle_confirm-FlowOk,
}

not_owed : (b : Bool) → (b ≡ true → b ≡ false) → b ≡ false
not_owed true f = f refl
not_owed false f = refl

module _ (w : World) (unique : AreUnique w.uuid) where
  send_info-FlowOk :
      (text : Option String) (s : PinentrySession) → FlowOk w s → FlowOk w (send_info w text s)
  unfolding send_info
  send_info-FlowOk none s h = h
  send_info-FlowOk (some text) s h = h

  handle_other-FlowOk :
      (cmd arg : String) (s : PinentrySession) → FlowOk w s → FlowOk w (handle_other w cmd arg s)
  unfolding handle_other get_info handle_message
  handle_other-FlowOk cmd arg s h =
      let P = FlowOk w in
      if-test P (cmd == "OPTION") _ _ (λ e. h)
        λ e.
          if-test P (cmd == "GETINFO") (get_info w arg s) _ (λ e. send_info-FlowOk (info w arg) s h)
            λ e.
              if-test P (cmd == "GETPIN") (handle_get_pin w s) _
                (λ e. handle_get_pin-FlowOk w unique s h)
                λ e.
                  if-test P (cmd == "CONFIRM") (handle_confirm w s) _
                    (λ e. handle_confirm-FlowOk w unique s h)
                    λ e.
                      if-test P (cmd == "MESSAGE") _ _ (λ e. h)
                        λ e. if-test P (cmd == "RESET") _ _ (λ e. h) (λ e. h)

  handle_set-FlowOk :
      (state : Option PinentryState) (cmd arg : String) (s : PinentrySession)
      → FlowOk w s
      → FlowOk w (handle_set w state cmd arg s)
  unfolding handle_set
  handle_set-FlowOk none cmd arg s h = handle_other-FlowOk cmd arg s h
  handle_set-FlowOk (some state) cmd arg s h = h

  -- After BYE the flow is closed; every other command keeps the session going.
  Continues : Bool × PinentrySession → Type 0
  Continues (true, s) = FlowOk w s
  Continues (false, s) = IsEnded w unique s

  dispatch-Continues :
      (cmd arg : String) (s : PinentrySession) → FlowOk w s → Continues (dispatch w cmd arg s)
  unfolding dispatch Continues
  dispatch-Continues cmd arg s h =
      if-test Continues (cmd == "BYE")
        (false, send_ok "closing connection" (finalize_on_stream_close w s))
        (true, handle_set w (set_field cmd arg s.state) cmd arg s)
        (λ e. finalize-IsEnded w unique s h)
        (λ e. handle_set-FlowOk (set_field cmd arg s.state) cmd arg s h)

  Continues-FlowOk : (r : Bool × PinentrySession) → Continues r → FlowOk w r.1
  unfolding Continues
  Continues-FlowOk (true, s) h = h
  Continues-FlowOk (false, s) h = h.0

  read_lines-FlowOk :
      (lines : List (List ℕ)) (s : PinentrySession) → FlowOk w s → FlowOk w (read_lines w lines s)
  unfolding read_lines handle_command
  read_lines-FlowOk [] s h = h
  read_lines-FlowOk (line ∷ lines) s h =
      let text = w.from_std (strip_return line) in
      let (cmd, arg) = split_command w text (index_of 32 text) in
      let t = dispatch w cmd arg s in
      let k = Continues-FlowOk t (dispatch-Continues cmd arg s h) in
      if-test (FlowOk w) (is_empty line) (read_lines w lines s)
        (if t.0 then read_lines w lines t.1 else t.1) (λ e. read_lines-FlowOk lines s h)
        λ e.
          if-test (FlowOk w) t.0 (read_lines w lines t.1) t.1 (λ e. read_lines-FlowOk lines t.1 k)
            (λ e. k)

  new_session-FlowOk : FlowOk w (send_ok "BB Auth Pinentry" new_session)
  unfolding endings is_owed
  new_session-FlowOk = record {
    fresh = λ n le. (refl, λ e. unique.some_text n (sym e));
    running = λ ne. refl;
    once = λ c. omega arith;
    owed = λ c e. absurd (false≢true e);
    named = λ e. absurd (false≢true e);
  }

  -- Whatever lines gpg-agent sends and whatever the daemon answers, a run that has ended has ended
  -- every flow at most once, is owed no result for a request that the daemon accepted, and has no
  -- flow open.
  pub run-settles :
      (lines : List (List ℕ)) (cookie : String)
      → (endings cookie (run w lines).sent ≤ 1)
        × (is_owed w.reply cookie (run w lines).sent ≡ false)
        × ((run w lines).flow_cookie ≡ "")
  unfolding run
  run-settles lines cookie =
      let before = read_lines w lines (send_ok "BB Auth Pinentry" new_session) in
      let (h, closed) =
        finalize-IsEnded w unique before
          (read_lines-FlowOk lines (send_ok "BB Auth Pinentry" new_session) new_session-FlowOk) in
      (
        h.once cookie,
        not_owed (is_owed w.reply cookie (run w lines).sent)
            (λ o. absurd (false≢true (sym closed.1 ∙ (h.owed cookie o).0))),
        closed.0,
      )
