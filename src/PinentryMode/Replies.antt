-- ===== src/PinentryMode/Replies.antt =====
-- What a run of the pinentry writes to gpg-agent for each command, and what it reports at the end.
use noctalia_unofficial_auth.Base.{
  String, Bool, true, false, not, Option, none, some, List, [], ◌∷◌, ◌++◌, ◌==◌, ◌≡◌, refl, ap, ◌∙◌,
  comparable_string, if-test,
}
use noctalia_unofficial_auth.Base.Lists.{All}
use noctalia_unofficial_auth.Text.{Text, index_of}
use noctalia_unofficial_auth.PinentryMode.{
  World, PinentryState, PinentrySession, Line, ok_line, err_line, data_line, or_default,
  ensure_flow_cookie, report_terminal_result, report_error_or, finalize_on_stream_close,
  request_password_from_daemon, request_confirm_from_daemon, answer_pin, report_retry,
  handle_get_pin, handle_confirm, handle_message, send_ok,
}
use noctalia_unofficial_auth.PinentryMode.Commands.{
  set_field, info, send_info, get_info, handle_set, handle_other, dispatch, split_command,
  handle_command,
}

abbrev pub is_final : Line → Bool
is_final (ok_line comment) = true
is_final (err_line code message) = true
is_final (data_line text) = false

-- One line OK or ERR is written, with data lines alone before it.
abbrev pub Answers : List Line → List Line → Type 0
Answers before after =
    (last : Line) × (results : List Line) × (after ≡ last ∷ results ++ before)
    × (is_final last ≡ true)
    × All (λ l. is_final l ≡ false) results

module _ (w : World) where
  -- The lines written so far do not change.
  abbrev Silent : PinentrySession → PinentrySession → Type 0
  Silent s t = t.out ≡ s.out

  report_terminal_result-Silent :
      (result error : String) (s : PinentrySession)
      → Silent s (report_terminal_result w result error s)
  unfolding report_terminal_result
  report_terminal_result-Silent result error s =
      if-test (Silent s) (s.flow_cookie == "") s _ (λ e. refl)
        λ e. if-test (Silent s) (result == "retry") _ _ (λ e. refl) (λ e. refl)

  report_error_or-Silent :
      (otherwise : String) (s : PinentrySession) → Silent s (report_error_or w otherwise s)
  unfolding report_error_or
  report_error_or-Silent otherwise s =
      if-test (Silent s) (not (s.state.error == ""))
        (report_terminal_result w "error" s.state.error s) (report_terminal_result w otherwise "" s)
        (λ e. report_terminal_result-Silent "error" s.state.error s)
        (λ e. report_terminal_result-Silent otherwise "" s)

  finalize-Silent : (s : PinentrySession) → Silent s (finalize_on_stream_close w s)
  unfolding finalize_on_stream_close
  finalize-Silent s =
      if-test (Silent s) s.awaiting_terminal_result (report_error_or w "success" s) _
        (λ e. report_error_or-Silent "success" s)
        λ e.
          if-test (Silent s) (not (s.flow_cookie == "")) (report_error_or w "cancelled" s) s
            (λ e. report_error_or-Silent "cancelled" s) (λ e. refl)

  pub ensure_flow_cookie-Silent : (s : PinentrySession) → Silent s (ensure_flow_cookie w s)
  unfolding ensure_flow_cookie
  ensure_flow_cookie-Silent s = if-test (Silent s) (s.flow_cookie == "") _ s (λ e. refl) (λ e. refl)

  pub report_retry-Silent : (s : PinentrySession) → Silent s (report_retry w s)
  unfolding report_retry
  report_retry-Silent s =
      if-test (Silent s) s.awaiting_terminal_result
        (report_terminal_result w "retry" (or_default s.state.error "Authentication failed") s) s
        (λ e. report_terminal_result-Silent "retry" _ s) (λ e. refl)

  request_password-Silent : (s : PinentrySession) → Silent s (request_password_from_daemon w s).1
  unfolding request_password_from_daemon
  request_password-Silent s =
      if-test (λ (r : Option String × PinentrySession). Silent s r.1) _ _ _
        (λ e. ensure_flow_cookie-Silent s) (λ e. ensure_flow_cookie-Silent s)

  request_confirm-Silent : (s : PinentrySession) → Silent s (request_confirm_from_daemon w s).1
  unfolding request_confirm_from_daemon
  request_confirm-Silent s =
      if-test (λ (r : Bool × PinentrySession). Silent s r.1) _ _ _
        (λ e. ensure_flow_cookie-Silent s) (λ e. ensure_flow_cookie-Silent s)

  -- A session that answers.
  abbrev AnswersTo : List Line → PinentrySession → Type 0
  AnswersTo before t = Answers before t.out

  final-Answers :
      (last : Line) (before after : List Line)
      → is_final last ≡ true
      → after ≡ before
      → Answers before (last ∷ after)
  final-Answers last before after f e = (last, [], ap (◌∷◌ last) e, f, tt)

  data-Answers :
      (last : Line) (text : Text) (before after : List Line)
      → is_final last ≡ true
      → after ≡ before
      → Answers before (last ∷ data_line text ∷ after)
  data-Answers last text before after f e =
      (last, data_line text ∷ [], ap (λ l. last ∷ data_line text ∷ l) e, f, (refl, tt))

  answer_pin-Answers :
      (password : Option String) (s : PinentrySession) (before : List Line)
      → s.out ≡ before
      → AnswersTo before (answer_pin w password s)
  unfolding answer_pin
  answer_pin-Answers none s before e = final-Answers _ before s.out refl e
  answer_pin-Answers (some password) s before e =
      if-test (AnswersTo before) (password == "") _ _ (λ k. final-Answers _ before s.out refl e)
        (λ k. data-Answers _ _ before s.out refl e)

  handle_get_pin-Answers : (s : PinentrySession) → AnswersTo s.out (handle_get_pin w s)
  unfolding handle_get_pin
  handle_get_pin-Answers s =
      let (password, t) = request_password_from_daemon w (report_retry w s) in
      answer_pin-Answers password t s.out
        (request_password-Silent (report_retry w s) ∙ report_retry-Silent s)

  handle_confirm-Answers : (s : PinentrySession) → AnswersTo s.out (handle_confirm w s)
  unfolding handle_confirm
  handle_confirm-Answers s =
      let (confirmed, t) = request_confirm_from_daemon w s in
      if-test (AnswersTo s.out) confirmed _ _
        (λ e. final-Answers _ s.out t.out refl (request_confirm-Silent s))
        (λ e. final-Answers _ s.out t.out refl (request_confirm-Silent s))

  send_info-Answers :
      (text : Option String) (s : PinentrySession) → AnswersTo s.out (send_info w text s)
  unfolding send_info
  send_info-Answers none s = final-Answers _ s.out s.out refl refl
  send_info-Answers (some text) s = data-Answers _ _ s.out s.out refl refl

  handle_other-Answers :
      (cmd arg : String) (s : PinentrySession) → AnswersTo s.out (handle_other w cmd arg s)
  unfolding handle_other get_info handle_message
  handle_other-Answers cmd arg s =
      let P = AnswersTo s.out in
      let ok : P (send_ok "" s) = final-Answers _ s.out s.out refl refl in
      if-test P (cmd == "OPTION") _ _ (λ e. ok)
        λ e.
          if-test P (cmd == "GETINFO") (get_info w arg s) _ (λ e. send_info-Answers (info w arg) s)
            λ e.
              if-test P (cmd == "GETPIN") (handle_get_pin w s) _ (λ e. handle_get_pin-Answers s)
                λ e.
                  if-test P (cmd == "CONFIRM") (handle_confirm w s) _
                    (λ e. handle_confirm-Answers s)
                    λ e.
                      if-test P (cmd == "MESSAGE") _ _ (λ e. ok)
                        λ e. if-test P (cmd == "RESET") _ _ (λ e. ok) (λ e. ok)

  handle_set-Answers :
      (state : Option PinentryState) (cmd arg : String) (s : PinentrySession)
      → AnswersTo s.out (handle_set w state cmd arg s)
  unfolding handle_set
  handle_set-Answers none cmd arg s = handle_other-Answers cmd arg s
  handle_set-Answers (some state) cmd arg s = final-Answers _ s.out s.out refl refl

  -- Every command, known or not, is answered by one line OK or ERR, written last, with data lines
  -- alone before it.
  pub handle_command-Answers :
      (line : Text) (s : PinentrySession) → Answers s.out (handle_command w line s).1.out
  unfolding handle_command dispatch
  handle_command-Answers line s =
      let (cmd, arg) = split_command w line (index_of 32 line) in
      if-test (λ (r : Bool × PinentrySession). AnswersTo s.out r.1) (cmd == "BYE") _
        (true, handle_set w (set_field cmd arg s.state) cmd arg s)
        (λ e. final-Answers _ s.out (finalize_on_stream_close w s).out refl (finalize-Silent s))
        (λ e. handle_set-Answers (set_field cmd arg s.state) cmd arg s)
