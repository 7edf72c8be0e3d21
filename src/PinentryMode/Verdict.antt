-- ===== src/PinentryMode/Verdict.antt =====
-- GETPIN and the end of the stream.
use noctalia_unofficial_auth.Base.{
  ℕ, String, true, false, not, ◌&&◌, Option, some, List, [], ◌∷◌, ◌++◌, ◌==◌, ◌≡◌, ◌≢◌, refl, ap,
  ◌∙◌, if◌then◌else◌, comparable_string, arith, if-test, Bool-cases, inl, inr,
}
use noctalia_unofficial_auth.Json.{JsonObject}
use noctalia_unofficial_auth.PinentryMode.Codec.{assuan_encode}
use noctalia_unofficial_auth.PinentryMode.{
  World, PinentrySession, Line, ok_line, err_line, data_line, password_request, terminal_result,
  has_result, password_of, ensure_flow_cookie, report_terminal_result, report_error_or,
  finalize_on_stream_close, request_password_from_daemon, answer_pin, report_retry, handle_get_pin,
  clear_error,
}
use noctalia_unofficial_auth.PinentryMode.Flow.{ne_of}
use noctalia_unofficial_auth.PinentryMode.Replies.{report_retry-Silent, ensure_flow_cookie-Silent}

module _ (w : World) where
  -- The session in which GETPIN asks, and what it asks.
  abbrev pub asking : PinentrySession → PinentrySession
  asking s = ensure_flow_cookie w (report_retry w s)

  abbrev pub asked : PinentrySession → JsonObject
  asked s = password_request (asking s).flow_cookie (asking s).state

  abbrev pub answer_of : PinentrySession → Option JsonObject
  answer_of s = w.reply (asked s ∷ (asking s).sent)

  -- The lines for an answer of the daemon.
  abbrev pub lines_for : Option JsonObject → List Line
  lines_for answer =
      if has_result "ok" answer && not (password_of answer == "")
      then ok_line "" ∷ data_line (assuan_encode w.codes (w.units (password_of answer))) ∷ []
      else err_line 83886179 "Operation cancelled" ∷ []

  asking-out : (s : PinentrySession) → (asking s).out ≡ s.out
  asking-out s = ensure_flow_cookie-Silent w (report_retry w s) ∙ report_retry-Silent w s

  -- GETPIN hands out the password that the daemon answered, encoded, when the daemon answered `ok`
  -- with a password that is not empty, and else it writes that the operation was cancelled.
  pub handle_get_pin-lines :
      (s : PinentrySession) → (handle_get_pin w s).out ≡ lines_for (answer_of s) ++ s.out
  unfolding handle_get_pin request_password_from_daemon answer_pin
  handle_get_pin-lines s = elim (Bool-cases (has_result "ok" (answer_of s))) [
    | inl ok ↦ elim (Bool-cases (password_of (answer_of s) == "")) [
      | inl e ↦ rw (ok, e) (ap (◌∷◌ (err_line 83886179 "Operation cancelled")) (asking-out s))
      | inr e ↦
          rw (ok, e)
            (ap
              (λ l.
                ok_line ""
                ∷ data_line (assuan_encode w.codes (w.units (password_of (answer_of s))))
                ∷ l)
              (asking-out s))
    ]
    | inr refused ↦ rw refused (ap (◌∷◌ (err_line 83886179 "Operation cancelled")) (asking-out s))
  ]

  -- A session after GETPIN that the daemon answered.
  IsAnswered : String → List JsonObject → PinentrySession → Type 0
  IsAnswered cookie sent t =
      (t.flow_cookie ≡ cookie)
      × (t.awaiting_terminal_result ≡ true)
      × (t.state.error ≡ "")
      × (t.sent ≡ sent)

  answer_pin-IsAnswered :
      (password : String) (t : PinentrySession)
      → t.awaiting_terminal_result ≡ true
      → IsAnswered t.flow_cookie t.sent (clear_error (answer_pin w (some password) t))
  unfolding answer_pin IsAnswered
  answer_pin-IsAnswered password t h =
      if-test (λ u. IsAnswered t.flow_cookie t.sent (clear_error u)) (password == "") _ _
        (λ e. (refl, h, refl, refl)) (λ e. (refl, h, refl, refl))

  handle_get_pin-IsAnswered :
      (s : PinentrySession)
      → has_result "ok" (answer_of s) ≡ true
      → IsAnswered (asking s).flow_cookie (asked s ∷ (asking s).sent) (handle_get_pin w s)
  unfolding handle_get_pin request_password_from_daemon
  handle_get_pin-IsAnswered s ok = rw ok (
      answer_pin-IsAnswered (password_of (answer_of s))
        (record (asking s) { awaiting_terminal_result = true; sent = asked s ∷ (asking s).sent })
        refl)

  finalize-IsAnswered :
      (cookie : String) (sent : List JsonObject) (t : PinentrySession)
      → cookie ≢ ""
      → IsAnswered cookie sent t
      → (finalize_on_stream_close w t).sent ≡ terminal_result cookie "success" "" ∷ sent
  unfolding finalize_on_stream_close report_error_or report_terminal_result IsAnswered
  finalize-IsAnswered cookie sent t ne h =
      let open_flow : (cookie == "") ≡ false =
        ground (arith, comparable_string.same_iff cookie "") in
      rw (h.0, h.1, h.2, h.3, open_flow) refl

  ensure_flow_cookie-named :
      (s : PinentrySession) → w.uuid s.made ≢ "" → (ensure_flow_cookie w s).flow_cookie ≢ ""
  unfolding ensure_flow_cookie
  ensure_flow_cookie-named s h =
      if-test (λ (t : PinentrySession). t.flow_cookie ≢ "") (s.flow_cookie == "") _ s (λ e. h)
        (λ e. ne_of s.flow_cookie "" e)

  -- When the daemon answers GETPIN with `ok`, and the stream then ends, the daemon is told that the
  -- flow was a success: whether the secret was right is not known, and if the password is empty,
  -- gpg-agent has been told that the operation was cancelled.
  pub close_infers_success :
      (s : PinentrySession)
      → ((n : ℕ) → w.uuid n ≢ "")
      → has_result "ok" (answer_of s) ≡ true
      → ((finalize_on_stream_close w (handle_get_pin w s)).sent
          ≡ terminal_result (asking s).flow_cookie "success" "" ∷ asked s ∷ (asking s).sent)
        × ((handle_get_pin w s).out
            ≡ (if password_of (answer_of s) == ""
                then err_line 83886179 "Operation cancelled" ∷ []
                else ok_line ""
                  ∷ data_line (assuan_encode w.codes (w.units (password_of (answer_of s))))
                  ∷ [])
              ++ s.out)
  close_infers_success s named ok = (
    finalize-IsAnswered (asking s).flow_cookie (asked s ∷ (asking s).sent) (handle_get_pin w s)
        (ensure_flow_cookie-named (report_retry w s) (named (report_retry w s).made))
        (handle_get_pin-IsAnswered s ok),
    handle_get_pin-lines s ∙ elim (Bool-cases (password_of (answer_of s) == "")) [
      | inl e ↦ rw (ok, e) refl
      | inr e ↦ rw (ok, e) refl
    ],
  )
