-- ===== src/PinentryManager/Contract.antt =====
-- The contract of docs/PINENTRY_FLOW.md: owners, closing, answers and attempts.
use noctalia_unofficial_auth.Base.{
  ◌≡◌, ◌≢◌, ◌∙◌, refl, ==-refl, Option-cases, inl, inr, String, true, false, none, some, ◌==◌,
  if◌then◌else◌, Bool-cases, comparable_string, arith,
}
use noctalia_unofficial_auth.Base.Int.{ℤ, comparable_int}
use noctalia_unofficial_auth.Base.Table.{lookup, lookup-remove, lookup-insert}
use noctalia_unofficial_auth.Json.{JsonObject, value, to_string}
use noctalia_unofficial_auth.Session.{Result}
use noctalia_unofficial_auth.EventQueue.{Socket}
use noctalia_unofficial_auth.Environment.{Env}
use noctalia_unofficial_auth.Agent
use noctalia_unofficial_auth.Agent.{Agent}
use noctalia_unofficial_auth.Agent.Steps.{CoreOk}
use noctalia_unofficial_auth.Agent.Operations.{update_session_error-Step}
use noctalia_unofficial_auth.Agent.SessionMap.{
  sessions-close_session, sessions-update_session_error,
}
use noctalia_unofficial_auth.KeyringManager.{error_reply}
use noctalia_unofficial_auth.PinentryManager.{
  close_flow, handle_request, handle_result, handle_response, validate_result_owner,
  session_is_pinentry, parse_pinentry_request,
}
use noctalia_unofficial_auth.PinentryManager.Frames.{close_flow-Moves, open_flow-Moves, owned_by}
use noctalia_unofficial_auth.PinentryManager.Flows.{clear_flow-tables, resolve_retry_info-rest}

module _ (env : Env) where
  sessions-close_flow :
      (c j error : String) (r : Result) (a : Agent)
      → CoreOk a
      → session_is_pinentry (Agent.get_session c a) ≡ true
      → lookup j (close_flow env c r error a).sessions
        ≡ (if c == j then none else lookup j a.sessions)
  unfolding close_flow
  sessions-close_flow c j error r a h p = elim (Bool-cases (error == "")) [
    | inl e ↦ rw (p, e) (sessions-close_session env c j r a h)
    | inr e ↦
        rw (p, e)
          (sessions-close_session env c j r _ (update_session_error-Step env c error a h).core
            ∙ ground (arith, sessions-update_session_error env c error j a h))
  ]

  -- Closing a flow whose session is pinentry's removes the session and everything that the manager
  -- knows under the cookie, its request, its awaited outcome, its owner, its key and the mark of a
  -- reported retry, and nothing under another cookie.
  pub close_flow_closes :
      (c error : String) (r : Result) (a : Agent) (j : String)
      → CoreOk a
      → session_is_pinentry (Agent.get_session c a) ≡ true
      → let b = close_flow env c r error a in
        (lookup j b.sessions ≡ (if c == j then none else lookup j a.sessions))
        × (lookup j b.flows.pending_requests
            ≡ (if c == j then none else lookup j a.flows.pending_requests))
        × (lookup j b.flows.awaiting_outcome
            ≡ (if c == j then none else lookup j a.flows.awaiting_outcome))
        × (lookup j b.flows.flow_owners ≡ (if c == j then none else lookup j a.flows.flow_owners))
        × (lookup j b.flows.flow_keyinfos
            ≡ (if c == j then none else lookup j a.flows.flow_keyinfos))
        × (lookup j b.flows.retry_reported
            ≡ (if c == j then none else lookup j a.flows.retry_reported))
  close_flow_closes c error r a j h p =
      let m = (close_flow-Moves env c r error a h).flows in
      let t = clear_flow-tables c a.flows in
      (
        sessions-close_flow c j error r a h p,
        rw (m, t.0) (lookup-remove c j a.flows.pending_requests),
        rw (m, t.1) (lookup-remove c j a.flows.awaiting_outcome),
        rw (m, t.2) (lookup-remove c j a.flows.flow_owners),
        rw (m, t.3) (lookup-remove c j a.flows.flow_keyinfos),
        rw (m, t.4) (lookup-remove c j a.flows.retry_reported),
      )

  stranger_refused :
      (c : String) (pid owner : ℤ) (a : Agent)
      → lookup c a.flows.flow_owners ≡ some owner
      → owner ≢ pid
      → validate_result_owner c pid a ≡ false
  unfolding validate_result_owner
  stranger_refused c pid owner a e ne =
      rw (e, validate_result_owner) (ground (arith, comparable_int.same_iff owner pid))

  -- What a stranger's request and report under the cookie do: nothing, and the report is refused.
  abbrev pub Shut : Env → JsonObject → JsonObject → Socket → ℤ → Agent → Type 0
  Shut later msg result s other a =
      (handle_request later msg s other a ≡ a)
      × (handle_result later result other a ≡ (error_reply "Result sender does not own session", a))

  stranger_changes_nothing :
      (later : Env) (msg result : JsonObject) (s : Socket) (c : String) (pid owner : ℤ) (a : Agent)
      → c ≢ ""
      → to_string (value "cookie" msg) ≡ c
      → to_string (value "id" result) ≡ c
      → lookup c a.flows.flow_owners ≡ some owner
      → owner ≢ pid
      → Shut later msg result s pid a
  unfolding handle_request handle_result
  stranger_changes_nothing later msg result s c pid owner a named asks ends e ne =
      let refused = stranger_refused c pid owner a e ne in
      let given : (c == "") ≡ false = ground (arith, comparable_string.same_iff c "") in
      (rw (asks, given, refused), rw (ends, given, refused))

  -- A request opens a flow for the process that sent it.
  handle_request-owner :
      (msg : JsonObject) (s : Socket) (pid : ℤ) (c : String) (a : Agent)
      → CoreOk a
      → c ≢ ""
      → to_string (value "cookie" msg) ≡ c
      → lookup c a.flows.flow_owners ≡ none
      → lookup c (handle_request env msg s pid a).flows.flow_owners ≡ some pid
  unfolding handle_request validate_result_owner
  handle_request-owner msg s pid c a h named asks free =
      let q = record (parse_pinentry_request msg s pid) { cookie = c } in
      let given : (c == "") ≡ false = ground (arith, comparable_string.same_iff c "") in
      rw
        (
          asks,
          given,
          free,
          validate_result_owner,
          (open_flow-Moves env q c a h).flows,
          (resolve_retry_info-rest (env.match_attempts q.description) q
              (owned_by env q c a.flows)).2,
          lookup-insert,
          ==-refl c,
        )
        refl

  handle_response-owners :
      (c response : String) (a : Agent)
      → (handle_response env c response a).1.flows.flow_owners ≡ a.flows.flow_owners
  unfolding handle_response
  handle_response-owners c response a = elim (Option-cases (lookup c a.flows.pending_requests)) [
    | inl e ↦ rw (e, handle_response) refl
    | inr (q, e) ↦ rw (e, handle_response) refl
  ]

  -- From the request that opens a flow on, and still after the user has answered it, no other process
  -- can continue the flow with a request of pinentry or end it with a report: either leaves the whole
  -- daemon as it was.
  pub opened_flow-Shut :
      (later : Env) (first msg result : JsonObject) (s t : Socket) (c response : String)
      (pid other : ℤ) (a : Agent)
      → CoreOk a
      → c ≢ ""
      → to_string (value "cookie" first) ≡ c
      → to_string (value "cookie" msg) ≡ c
      → to_string (value "id" result) ≡ c
      → lookup c a.flows.flow_owners ≡ none
      → pid ≢ other
      → let opened = handle_request env first s pid a in
        Shut later msg result t other opened
        × Shut later msg result t other (handle_response env c response opened).1
  opened_flow-Shut later first msg result s t c response pid other a h named starts asks ends free
        ne =
      let opened = handle_request env first s pid a in
      let owner = handle_request-owner first s pid c a h named starts free in
      let answered = (handle_response env c response opened).1 in
      (
        stranger_changes_nothing later msg result t c other pid opened named asks ends owner ne,
        stranger_changes_nothing later msg result t c other pid answered named asks ends
            (rw (handle_response-owners c response opened) owner) ne,
      )
