-- ===== src/PinentryMode/Endings.antt =====
-- The commands of a run, and the flows that it opens and ends.
use noctalia_unofficial_auth.Base.{
  String, false, not, Option, none, some, ◌∷◌, ◌==◌, ◌≡◌, ◌≢◌, refl, if◌then◌else◌, comparable_nat,
  comparable_string, arith, Bool-cases, inl, inr, eq_of_==, if-test,
}
use noctalia_unofficial_auth.PinentryMode.{
  World, report_retry, PinentrySession, or_default, password_request, confirm_request, has_result,
  ensure_flow_cookie, report_terminal_result, report_error_or, finalize_on_stream_close,
  request_password_from_daemon, request_confirm_from_daemon, answer_pin, handle_get_pin,
  handle_confirm,
}
use noctalia_unofficial_auth.PinentryMode.Ledger.{
  password_request-IsRequest, confirm_request-IsRequest,
}
use noctalia_unofficial_auth.PinentryMode.Flow.{
  AreUnique, FlowOk, ensure_flow_cookie-FlowOk, request-FlowOk, report_terminal_result-FlowOk,
  ne_of,
}

-- A session with no flow, that awaits nothing.
abbrev pub IsClosed : PinentrySession → Type 0
IsClosed s = (s.flow_cookie ≡ "") × (s.awaiting_terminal_result ≡ false)

module _ (w : World) where
  report_terminal_result-IsClosed :
      (result error : String) (s : PinentrySession)
      → (result == "retry") ≡ false
      → s.flow_cookie ≢ ""
      → IsClosed (report_terminal_result w result error s)
  unfolding report_terminal_result
  report_terminal_result-IsClosed result error s r ne =
      let open_flow : (s.flow_cookie == "") ≡ false =
        ground (arith, comparable_string.same_iff s.flow_cookie "") in
      rw (open_flow, r) (refl, refl)

  report_error_or-IsClosed :
      (otherwise : String) (s : PinentrySession)
      → (otherwise == "retry") ≡ false
      → s.flow_cookie ≢ ""
      → IsClosed (report_error_or w otherwise s)
  unfolding report_error_or
  report_error_or-IsClosed otherwise s r ne =
      if-test IsClosed (not (s.state.error == ""))
        (report_terminal_result w "error" s.state.error s) (report_terminal_result w otherwise "" s)
        (λ e. report_terminal_result-IsClosed "error" s.state.error s refl ne)
        (λ e. report_terminal_result-IsClosed otherwise "" s r ne)

  module _ (unique : AreUnique w.uuid) where
    report_error_or-FlowOk :
        (otherwise : String) (s : PinentrySession)
        → FlowOk w s
        → FlowOk w (report_error_or w otherwise s)
    unfolding report_error_or
    report_error_or-FlowOk otherwise s h =
        if-test (FlowOk w) (not (s.state.error == ""))
          (report_terminal_result w "error" s.state.error s)
          (report_terminal_result w otherwise "" s)
          (λ e. report_terminal_result-FlowOk w unique "error" s.state.error s h)
          (λ e. report_terminal_result-FlowOk w unique otherwise "" s h)

    abbrev pub IsEnded : PinentrySession → Type 0
    IsEnded s = FlowOk w s × IsClosed s

    report_error_or-IsEnded :
        (otherwise : String) (s : PinentrySession)
        → (otherwise == "retry") ≡ false
        → s.flow_cookie ≢ ""
        → FlowOk w s
        → IsEnded (report_error_or w otherwise s)
    report_error_or-IsEnded otherwise s r ne h =
        (report_error_or-FlowOk otherwise s h, report_error_or-IsClosed otherwise s r ne)

    pub finalize-IsEnded :
        (s : PinentrySession) → FlowOk w s → IsEnded (finalize_on_stream_close w s)
    unfolding finalize_on_stream_close
    finalize-IsEnded s h =
        if-test IsEnded s.awaiting_terminal_result (report_error_or w "success" s)
          (if not (s.flow_cookie == "") then report_error_or w "cancelled" s else s)
          (λ a. report_error_or-IsEnded "success" s refl (h.named a) h)
          λ a.
            if-test IsEnded (not (s.flow_cookie == "")) (report_error_or w "cancelled" s) s
              (λ e.
                report_error_or-IsEnded "cancelled" s refl
                  (ne_of s.flow_cookie "" (ground (arith, e))) h)
              (λ e. (h, (eq_of_== s.flow_cookie "" (ground (arith, e)), a)))

    request_password-FlowOk :
        (s : PinentrySession) → FlowOk w s → FlowOk w (request_password_from_daemon w s).1
    unfolding request_password_from_daemon
    request_password-FlowOk s h =
        let named = ensure_flow_cookie w s in
        let (k, ne) = ensure_flow_cookie-FlowOk w unique s h in
        let request = password_request named.flow_cookie named.state in
        let asked =
          request-FlowOk w unique "ok" request named k ne
            (password_request-IsRequest named.flow_cookie named.state) in
        elim (Bool-cases (has_result "ok" (w.reply (request ∷ named.sent)))) [
          | inl e ↦ rw e (rw e at asked)
          | inr e ↦ rw e (rw e at asked)
        ]

    request_confirm-FlowOk :
        (s : PinentrySession) → FlowOk w s → FlowOk w (request_confirm_from_daemon w s).1
    unfolding request_confirm_from_daemon
    request_confirm-FlowOk s h =
        let named = ensure_flow_cookie w s in
        let (k, ne) = ensure_flow_cookie-FlowOk w unique s h in
        let request = confirm_request named.flow_cookie named.state in
        let asked =
          request-FlowOk w unique "confirmed" request named k ne
            (confirm_request-IsRequest named.flow_cookie named.state) in
        elim (Bool-cases (has_result "confirmed" (w.reply (request ∷ named.sent)))) [
          | inl e ↦ rw e (rw e at asked)
          | inr e ↦ rw e (rw e at asked)
        ]

    answer_pin-FlowOk :
        (password : Option String) (s : PinentrySession)
        → FlowOk w s
        → FlowOk w (answer_pin w password s)
    unfolding answer_pin
    answer_pin-FlowOk none s h = h
    answer_pin-FlowOk (some password) s h = elim (Bool-cases (password == "")) [
      | inl e ↦ rw e h
      | inr e ↦ rw e h
    ]

    report_retry-FlowOk : (s : PinentrySession) → FlowOk w s → FlowOk w (report_retry w s)
    unfolding report_retry
    report_retry-FlowOk s h =
        let text = or_default s.state.error "Authentication failed" in
        if-test (FlowOk w) s.awaiting_terminal_result (report_terminal_result w "retry" text s) s
          (λ a. report_terminal_result-FlowOk w unique "retry" text s h) (λ a. h)

    pub handle_get_pin-FlowOk : (s : PinentrySession) → FlowOk w s → FlowOk w (handle_get_pin w s)
    unfolding handle_get_pin
    handle_get_pin-FlowOk s h =
        let (password, t) = request_password_from_daemon w (report_retry w s) in
        answer_pin-FlowOk password t
          (request_password-FlowOk (report_retry w s) (report_retry-FlowOk s h))

    pub handle_confirm-FlowOk : (s : PinentrySession) → FlowOk w s → FlowOk w (handle_confirm w s)
    unfolding handle_confirm
    handle_confirm-FlowOk s h =
        let k = request_confirm-FlowOk s h in
        elim (Bool-cases (request_confirm_from_daemon w s).0) [ inl e ↦ rw e k | inr e ↦ rw e k ]
