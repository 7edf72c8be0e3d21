-- ===== src/PinentryManager/Retries.antt =====
-- What a reported retry leaves behind.
use mathlib.Core.Bool.{false≢true}
use mathlib.Core.Option
use noctalia_unofficial_auth.Base.{
  ◌≡◌, ◌≢◌, refl, ap, ◌∙◌, inl, inr, String, true, false, Option, none, some, List, [], ◌∷◌, ◌==◌,
  Bool-cases, comparable_string, comparable_nat, arith, is_some, ==-refl,
}
use noctalia_unofficial_auth.Base.Int.{ℤ}
use noctalia_unofficial_auth.Base.Lists
use noctalia_unofficial_auth.Base.Table.{Table, lookup, lookup-remove}
use noctalia_unofficial_auth.Json.{JsonObject, value, to_string}
use noctalia_unofficial_auth.Session.{Session, Result, set_error}
use noctalia_unofficial_auth.EventQueue.{Socket}
use noctalia_unofficial_auth.Environment.{Env}
use noctalia_unofficial_auth.RequestTypes.{PinentryRequest}
use noctalia_unofficial_auth.ProviderRegistry.{or_else}
use noctalia_unofficial_auth.SessionStore
use noctalia_unofficial_auth.Agent
use noctalia_unofficial_auth.Agent.{Agent}
use noctalia_unofficial_auth.Agent.Steps.{CoreOk}
use noctalia_unofficial_auth.Agent.Operations.{update_session_error-Step}
use noctalia_unofficial_auth.Agent.SessionMap.{sessions-update_session_error}
use noctalia_unofficial_auth.PinentryManager.{
  close_flow, handle_result, apply_result, report_retry, set_flows, ok_reply, cookies_of, close_all,
  cleanup_for_socket, cleanup_awaiting, session_is_pinentry, validate_result_owner,
}
use noctalia_unofficial_auth.PinentryManager.Frames.{close_flow-Moves, set_flows-core}
use noctalia_unofficial_auth.PinentryManager.Flows.{reported}
use noctalia_unofficial_auth.PinentryManager.Contract.{close_flow_closes}

module _ (env : Env) (c : String) where
  -- Closing the flow of another cookie, whatever its session, leaves the session.
  close_flow-other :
      (k error : String) (r : Result) (a : Agent)
      → CoreOk a
      → (k == c) ≡ false
      → lookup c (close_flow env k r error a).sessions ≡ lookup c a.sessions
  unfolding close_flow
  close_flow-other k error r a h ne =
      elim (Bool-cases (session_is_pinentry (Agent.get_session k a))) [
        | inl p ↦ (close_flow_closes env k error r a c h p).0 ∙ rw ne refl
        | inr p ↦ rw p refl
      ]

  contains-cookies_of :
      (s : Socket) (m : Table String PinentryRequest)
      → lookup c m ≡ none
      → Lists.contains c (cookies_of env s m) ≡ false
  unfolding cookies_of Lists.contains lookup
  contains-cookies_of s [] h = refl
  contains-cookies_of s ((k, q) ∷ m) h = ground (arith, contains-cookies_of s m)

  close_all-other :
      (ks : List String) (a : Agent)
      → CoreOk a
      → Lists.contains c ks ≡ false
      → lookup c (close_all env ks a).sessions ≡ lookup c a.sessions
  unfolding close_all Lists.contains
  close_all-other [] a h n = refl
  close_all-other (k ∷ ks) a h n =
      let b = close_flow env k Result.cancelled "Pinentry disconnected" a in
      close_all-other ks b
        (close_flow-Moves env k Result.cancelled "Pinentry disconnected" a h).core
        (ground (arith, n))
      ∙ close_flow-other k "Pinentry disconnected" Result.cancelled a h (ground (arith, n))

some_session : (o : Option Session) → session_is_pinentry o ≡ true → is_some o ≡ true
some_session none h = absurd (false≢true h)
some_session (some s) h = refl

is_some-map : (f : Session → Session) (o : Option Session) → is_some (Option.map f o) ≡ is_some o
is_some-map f none = refl
is_some-map f (some s) = refl

module _ (env : Env) (c : String) (a : Agent) (core : CoreOk a) where
  pub handle_result-retry :
      (msg : JsonObject) (pid : ℤ)
      → c ≢ ""
      → to_string (value "id" msg) ≡ c
      → env.to_lower (to_string (value "result" msg)) ≡ "retry"
      → validate_result_owner c pid a ≡ true
      → session_is_pinentry (Agent.get_session c a) ≡ true
      → handle_result env msg pid a ≡ (
        ok_reply,
        report_retry env c (or_else (to_string (value "error" msg)) "Authentication failed") a,
      )
  unfolding handle_result apply_result
  handle_result-retry msg pid named id result owner pin =
      let given : (c == "") ≡ false = ground (arith, comparable_string.same_iff c "") in
      rw (id, given, owner, pin, result) refl

  -- The agent once a failed attempt is reported.
  abbrev retried : String → Agent
  retried reason = report_retry env c reason a

  retried-flows : (reason : String) → (retried reason).flows ≡ reported c a.flows
  unfolding cleanup_awaiting
  retried-flows reason =
      (update_session_error-Step env c reason (set_flows (reported c a.flows) a)
        (set_flows-core (reported c a.flows) a core)).flows

  retried-core : (reason : String) → CoreOk (retried reason)
  unfolding cleanup_awaiting
  retried-core reason =
      (update_session_error-Step env c reason (set_flows (reported c a.flows) a)
        (set_flows-core (reported c a.flows) a core)).core

  retried-session :
      (reason : String)
      → session_is_pinentry (Agent.get_session c a) ≡ true
      → is_some (lookup c (retried reason).sessions) ≡ true
  unfolding cleanup_awaiting Agent.get_session SessionStore.get_session
  retried-session reason pin =
      rw
        (sessions-update_session_error env c reason c (set_flows (reported c a.flows) a)
          (set_flows-core (reported c a.flows) a core))
        (rw (==-refl c) (
          is_some-map (set_error reason) (lookup c a.sessions)
          ∙ some_session (lookup c a.sessions) pin))

  -- A flow that waits for no input and whose process reports a retry waits for nothing any more:
  -- neither for input nor for an outcome, whose timer is gone, and its session stays, even when the
  -- connection of any socket ends.
  pub retry_unattended :
      (later : Env) (msg : JsonObject) (pid : ℤ) (s : Socket)
      → c ≢ ""
      → to_string (value "id" msg) ≡ c
      → env.to_lower (to_string (value "result" msg)) ≡ "retry"
      → validate_result_owner c pid a ≡ true
      → session_is_pinentry (Agent.get_session c a) ≡ true
      → lookup c a.flows.pending_requests ≡ none
      → let b = (handle_result env msg pid a).1 in
        (lookup c b.flows.pending_requests ≡ none)
        × (lookup c b.flows.awaiting_outcome ≡ none)
        × (is_some (lookup c (cleanup_for_socket later s b).sessions) ≡ true)
  unfolding cleanup_for_socket
  retry_unattended later msg pid s named id result owner pin idle =
      let reason = or_else (to_string (value "error" msg)) "Authentication failed" in
      let b = retried reason in
      let still : lookup c b.flows.pending_requests ≡ none = rw (retried-flows reason) idle in
      rw (handle_result-retry msg pid named id result owner pin) (
        still,
        rw (retried-flows reason)
            (lookup-remove c c a.flows.awaiting_outcome ∙ rw (==-refl c) refl),
        ap is_some (
              close_all-other later c (cookies_of later s b.flows.pending_requests) b
                (retried-core reason)
                (contains-cookies_of later c s b.flows.pending_requests still))
            ∙ retried-session reason pin,
      )
