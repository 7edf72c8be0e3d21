-- ===== src/Handlers/Managers.antt =====
-- The operations of the managers and the invariant.
use noctalia_unofficial_auth.Base.{
  inl, inr, String, Bool, true, false, not, ◌||◌, List, [], ◌∷◌, ◌==◌, if◌then◌else◌,
  comparable_string, comparable_nat, Option-cases,
}
use noctalia_unofficial_auth.Base.Int.{ℤ}
use noctalia_unofficial_auth.Base.Table.{Table, lookup, insert}
use noctalia_unofficial_auth.Json.{JsonObject, value, to_string}
use noctalia_unofficial_auth.Session.{Source, Result}
use noctalia_unofficial_auth.EventQueue.{Socket}
use noctalia_unofficial_auth.Environment.{Env}
use noctalia_unofficial_auth.RequestContext.{resolve_actor_for_pid}
use noctalia_unofficial_auth.RequestTypes.{KeyringRequest}
use noctalia_unofficial_auth.ProviderRegistry.{or_else}
use noctalia_unofficial_auth.Agent
use noctalia_unofficial_auth.Agent.{Agent}
use noctalia_unofficial_auth.Agent.Operations.{
  create_session-Step, update_session_error-Step, update_session_prompt-Step, close_session-Step,
}
use noctalia_unofficial_auth.KeyringManager
use noctalia_unofficial_auth.PinentryManager
use noctalia_unofficial_auth.PinentryManager.{
  clear_flow, close_flow, open_flow, validate_result_owner, session_is_pinentry, report_retry,
  apply_result, close_all, cookies_of, pinentry_result_timeout_ms, set_flows, cleanup_awaiting,
  has_pending_input, is_awaiting_outcome,
}
use noctalia_unofficial_auth.PinentryManager.Frames.{
  Moves-here, Moves-Step, close_flow-Moves, open_flow-Moves, opened,
}
use noctalia_unofficial_auth.PinentryManager.Flows.{
  opened-FlowsOk, clear_flow-FlowsOk, submitted-FlowsOk, reported, reported-FlowsOk,
}
use noctalia_unofficial_auth.PinentryManager.Attempts.{handle_response-pending}
use noctalia_unofficial_auth.Handlers.Safety.{
  Quiet, Quiet-refl, Quiet-trans, Quiet-if, Step-Quiet, Moves-Quiet, keyring-Quiet,
}

module _ (env : Env) where
  pub keyring_request-Quiet :
      (msg : JsonObject) (s : Socket) (pid : ℤ) (a : Agent)
      → Quiet a (KeyringManager.handle_request env msg s pid a)
  unfolding KeyringManager.handle_request
  keyring_request-Quiet msg s pid a =
      let cookie = KeyringManager.cookie_of env msg in
      let q = KeyringManager.parse_request cookie s pid msg in
      let b = KeyringManager.set_requests (insert cookie q a.keyring_requests) a in
      let ctx = KeyringManager.request_context q (resolve_actor_for_pid env pid) in
      let c = Agent.create_session env cookie Source.keyring ctx b in
      Quiet-trans a b _ (keyring-Quiet a _) (
        Quiet-trans b c _ (Step-Quiet b c (create_session-Step env cookie Source.keyring ctx b))
          (Step-Quiet c _ (update_session_prompt-Step env cookie q.message false true c)))

  keyring_close-Quiet :
      (c : String) (r : Result) (m : Table String KeyringRequest) (a : Agent)
      → Quiet a (Agent.close_session env c r (KeyringManager.set_requests m a))
  keyring_close-Quiet c r m a =
      Quiet-trans a (KeyringManager.set_requests m a) _ (keyring-Quiet a m)
        (Step-Quiet _ _ (close_session-Step env c r (KeyringManager.set_requests m a)))

  pub keyring_response-Quiet :
      (c response : String) (a : Agent)
      → Quiet a (KeyringManager.handle_response env c response a).1
  unfolding KeyringManager.handle_response
  keyring_response-Quiet c response a = elim (Option-cases (lookup c a.keyring_requests)) [
    | inl e ↦ rw (e, KeyringManager.handle_response) (Quiet-refl a)
    | inr (q, e) ↦ rw (e, KeyringManager.handle_response) (keyring_close-Quiet c Result.success _ a)
  ]

  pub keyring_cancel-Quiet :
      (c : String) (a : Agent) → Quiet a (KeyringManager.handle_cancel env c a).1
  unfolding KeyringManager.handle_cancel
  keyring_cancel-Quiet c a = elim (Option-cases (lookup c a.keyring_requests)) [
    | inl e ↦ rw (e, KeyringManager.handle_cancel) (Quiet-refl a)
    | inr (q, e) ↦ rw (e, KeyringManager.handle_cancel) (keyring_close-Quiet c Result.cancelled _ a)
  ]

  keyring_cleanup-Quiet :
      (s : Socket) (m : Table String KeyringRequest) (a : Agent)
      → Quiet a (KeyringManager.cleanup env s m a)
  unfolding KeyringManager.cleanup
  keyring_cleanup-Quiet s [] a = Quiet-refl a
  keyring_cleanup-Quiet s ((k, q) ∷ m) a =
      Quiet-trans a _ _
        (Quiet-if (q.socket == s) a _ a (keyring_close-Quiet q.cookie Result.cancelled _ a)
          (Quiet-refl a))
        (keyring_cleanup-Quiet s m _)

  pub keyring_cleanup_for_socket-Quiet :
      (s : Socket) (a : Agent) → Quiet a (KeyringManager.cleanup_for_socket env s a)
  unfolding KeyringManager.cleanup_for_socket
  keyring_cleanup_for_socket-Quiet s a = keyring_cleanup-Quiet s a.keyring_requests a

  pub close_flow-Quiet :
      (c error : String) (r : Result) (a : Agent) → Quiet a (close_flow env c r error a)
  close_flow-Quiet c error r a =
      Moves-Quiet (clear_flow c a.flows) a _ (close_flow-Moves env c r error a)
        (clear_flow-FlowsOk c a.flows)

  pub pinentry_request-Quiet :
      (msg : JsonObject) (s : Socket) (pid : ℤ) (a : Agent)
      → Quiet a (PinentryManager.handle_request env msg s pid a)
  unfolding PinentryManager.handle_request
  pinentry_request-Quiet msg s pid a =
      let parsed = PinentryManager.parse_pinentry_request msg s pid in
      let cookie = or_else parsed.cookie env.uuid in
      let q = record parsed { cookie = cookie } in
      Quiet-if (validate_result_owner cookie pid a) a _ a
        (Moves-Quiet (opened env q cookie a.flows) a _ (open_flow-Moves env q cookie a)
          (opened-FlowsOk env q cookie a.flows))
        (Quiet-refl a)

  pub pinentry_response-Quiet :
      (c response : String) (a : Agent)
      → Quiet a (PinentryManager.handle_response env c response a).1
  unfolding PinentryManager.handle_response
  pinentry_response-Quiet c response a = elim (Option-cases (lookup c a.flows.pending_requests)) [
    | inl e ↦ rw (e, PinentryManager.handle_response) (Quiet-refl a)
    | inr (q, e) ↦
        rw (handle_response-pending env c response q a e)
          (Moves-Quiet _ a _ (Moves-here _ a) (submitted-FlowsOk _ c a.flows (rw e)))
  ]

  report_retry-Quiet : (c reason : String) (a : Agent) → Quiet a (report_retry env c reason a)
  unfolding cleanup_awaiting
  report_retry-Quiet c reason a =
      let f = reported c a.flows in
      Moves-Quiet f a _
        (λ h.
          Moves-Step f a (set_flows f a) _ (Moves-here f a h)
            (update_session_error-Step env c reason (set_flows f a)))
        (reported-FlowsOk c a.flows)

  Quiet-if_pair :
      (t : Bool) (a : Agent) (p q : JsonObject × Agent)
      → Quiet a p.1
      → Quiet a q.1
      → Quiet a (if t then p else q).1
  Quiet-if_pair true a p q h k = h
  Quiet-if_pair false a p q h k = k

  apply_result-Quiet :
      (c result error : String) (a : Agent) → Quiet a (apply_result env c result error a).1
  unfolding apply_result
  apply_result-Quiet c result error a =
      let reason = or_else error "Authentication failed" in
      Quiet-if_pair (result == "success") a _ _ (close_flow-Quiet c "" Result.success a) (
        Quiet-if_pair (result == "retry") a _ _ (report_retry-Quiet c reason a) (
          Quiet-if_pair (result == "cancelled" || result == "canceled") a _ _
            (close_flow-Quiet c "" Result.cancelled a)
            (Quiet-if_pair (result == "error") a _ _ (close_flow-Quiet c reason Result.error a)
              (Quiet-refl a))))

  pub pinentry_result-Quiet :
      (msg : JsonObject) (pid : ℤ) (a : Agent)
      → Quiet a (PinentryManager.handle_result env msg pid a).1
  unfolding PinentryManager.handle_result
  pinentry_result-Quiet msg pid a =
      let c = to_string (value "id" msg) in
      Quiet-if_pair (c == "") a _ _ (Quiet-refl a) (
        Quiet-if_pair (not (validate_result_owner c pid a)) a _ _ (Quiet-refl a) (
          Quiet-if_pair (not (session_is_pinentry (Agent.get_session c a))) a _ _ (Quiet-refl a) (
            apply_result-Quiet c (env.to_lower (to_string (value "result" msg)))
              (to_string (value "error" msg)) a)))

  pub pinentry_cancel-Quiet :
      (c : String) (a : Agent) → Quiet a (PinentryManager.handle_cancel env c a).1
  unfolding PinentryManager.handle_cancel
  pinentry_cancel-Quiet c a =
      let close = close_flow-Quiet c "" Result.cancelled a in
      Quiet-if_pair (has_pending_input c a) a _ _ close (
        Quiet-if_pair (is_awaiting_outcome c a) a _ _ close
          (Quiet-if_pair (session_is_pinentry (Agent.get_session c a)) a _ _ close (Quiet-refl a)))

  close_all-Quiet : (ks : List String) (a : Agent) → Quiet a (close_all env ks a)
  unfolding close_all
  close_all-Quiet [] a = Quiet-refl a
  close_all-Quiet (k ∷ ks) a =
      Quiet-trans a _ _ (close_flow-Quiet k "Pinentry disconnected" Result.cancelled a)
        (close_all-Quiet ks _)

  pub pinentry_cleanup_for_socket-Quiet :
      (s : Socket) (a : Agent) → Quiet a (PinentryManager.cleanup_for_socket env s a)
  unfolding PinentryManager.cleanup_for_socket
  pinentry_cleanup_for_socket-Quiet s a =
      close_all-Quiet (cookies_of env s a.flows.pending_requests) a
