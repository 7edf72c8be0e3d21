-- ===== src/PinentryMode/Delivery.antt =====
-- GETPIN, from the user's answer in the daemon to the line that gpg-agent reads.
use noctalia_unofficial_auth.Base.{
  String, false, some, ◌∷◌, ◌++◌, ◌==◌, ◌≡◌, ◌≢◌, refl, ap, ◌∙◌, comparable_string, arith,
}
use noctalia_unofficial_auth.Base.Int.{ℤ}
use noctalia_unofficial_auth.Base.Table.{lookup}
use noctalia_unofficial_auth.EventQueue.{Socket}
use noctalia_unofficial_auth.Environment.{Env}
use noctalia_unofficial_auth.RequestTypes.{PinentryRequest}
use noctalia_unofficial_auth.Agent.{Agent}
use noctalia_unofficial_auth.PinentryManager.{
  parse_pinentry_request, socket_response, handle_response,
}
use noctalia_unofficial_auth.PinentryMode.Codec.{assuan_encode}
use noctalia_unofficial_auth.PinentryMode.{
  World, PinentrySession, ok_line, data_line, handle_get_pin,
}
use noctalia_unofficial_auth.PinentryMode.Verdict.{
  asking, asked, answer_of, lines_for, handle_get_pin-lines,
}
use noctalia_unofficial_auth.PinentryMode.Protocol.{socket_response-accepted}

handle_response-pending :
    (env : Env) (cookie response : String) (a : Agent) (q : PinentryRequest)
    → lookup cookie a.flows.pending_requests ≡ some q
    → (handle_response env cookie response a).0 ≡ socket_response q cookie response
unfolding handle_response
handle_response-pending env cookie response a q e = rw (handle_response, e) refl

module _ (w : World) (env : Env) (s : PinentrySession) (a : Agent) where
  -- When the request of GETPIN waits in the daemon as the daemon read it, and the daemon's reply to
  -- it is what its manager makes of a response that is not empty, gpg-agent gets a data line
  -- with that response, encoded, and OK.
  pub handle_get_pin-delivers :
      (socket : Socket) (pid : ℤ) (response : String)
      → response ≢ ""
      → let cookie = (asking w s).flow_cookie in
        lookup cookie a.flows.pending_requests
          ≡ some (parse_pinentry_request (asked w s) socket pid)
        → answer_of w s ≡ some (handle_response env cookie response a).0
        → (handle_get_pin w s).out
          ≡ ok_line "" ∷ data_line (assuan_encode w.codes (w.units response)) ∷ s.out
  handle_get_pin-delivers socket pid response ne waits replied =
      let cookie = (asking w s).flow_cookie in
      let q = parse_pinentry_request (asked w s) socket pid in
      let reply = some (socket_response q cookie response) in
      let answer : answer_of w s ≡ reply =
        replied ∙ ap some (handle_response-pending env cookie response a q waits) in
      let ok = socket_response-accepted cookie response (asking w s).state socket pid in
      let filled : (response == "") ≡ false =
        ground (arith, comparable_string.same_iff response "") in
      handle_get_pin-lines w s
      ∙ ap (λ o. lines_for w o ++ s.out) answer
      ∙ rw (ok.0, ok.1, filled) refl
