-- ===== src/PinentryManager/Attempts.antt =====
-- Answers, attempts and failures of a flow.
use noctalia_unofficial_auth.Base.{
  ◌+◌, ◌≡◌, ◌≢◌, refl, ◌∙◌, String, true, false, Option, none, some, ◌==◌, comparable_string,
  if◌then◌else◌, Bool-cases, inl, inr, comparable_nat, arith, ==-refl,
}
use noctalia_unofficial_auth.Base.Int.{ℤ, pos, ◌≤ℤ◌, ◌<ℤ◌, ltb_int_iff, comparable_int}
use noctalia_unofficial_auth.Base.Table.{
  lookup, remove, contains, lookup-remove, lookup-insert, contains-insert,
}
use noctalia_unofficial_auth.Json.{JsonObject, null, str, value}
use noctalia_unofficial_auth.Environment.{Env}
use noctalia_unofficial_auth.RequestTypes.{PinentryRequest, PinentryTables, AwaitingOutcome}
use noctalia_unofficial_auth.Agent.{Agent}
use noctalia_unofficial_auth.KeyringManager.{error_reply}
use noctalia_unofficial_auth.PinentryManager.{
  handle_response, resolve_retry_info, clamp, set_flows, socket_response, is_awaiting_outcome,
  parsed_or_default, info_numbers, or_info, pinentry_result_timeout_ms,
}
use noctalia_unofficial_auth.PinentryManager.Flows.{submitted}

clamp_bounds : (p : ℤ × ℤ) → (pos 0 ≤ℤ (clamp p).0) × (pos 0 <ℤ (clamp p).1)
clamp_bounds (cur, max) = ground (arith, ltb_int_iff cur (pos 0), ltb_int_iff (pos 0) max)

-- Whatever a description or an earlier request of the key says, the number of the attempt is not
-- negative and the number of attempts is positive.
pub resolve_retry_info_bounds :
    (parsed : Option (ℤ × ℤ)) (q : PinentryRequest) (f : PinentryTables)
    → let (cur, max) = (resolve_retry_info parsed q f).0 in (pos 0 ≤ℤ cur) × (pos 0 <ℤ max)
unfolding resolve_retry_info
resolve_retry_info_bounds parsed q f = ground (
  arith,
  clamp_bounds (parsed_or_default parsed),
  clamp_bounds (info_numbers parsed (or_info (lookup q.keyinfo f.retry_info))),
)

-- A request that does not tell its attempt has the numbers that the last request of the same key
-- told.
pub resolve_retry_info-remembers :
    (cur max : ℤ) (first later : PinentryRequest) (f : PinentryTables)
    → first.keyinfo ≢ ""
    → later.keyinfo ≡ first.keyinfo
    → (resolve_retry_info none later (resolve_retry_info (some (cur, max)) first f).1).0
      ≡ (resolve_retry_info (some (cur, max)) first f).0
unfolding resolve_retry_info
resolve_retry_info-remembers cur max first later f ne same =
    rw
      (
        same,
        (let e : (first.keyinfo == "") ≡ false =
              ground (arith, comparable_string.same_iff first.keyinfo "") in
            e),
        lookup-insert,
        ==-refl first.keyinfo,
      )
      (ground arith)

pub handle_response-pending :
    (env : Env) (c response : String) (q : PinentryRequest) (a : Agent)
    → lookup c a.flows.pending_requests ≡ some q
    → handle_response env c response a ≡ (
      socket_response q c response,
      set_flows
          (submitted
            (record { request = q; deadline_ms = env.now_ms + pinentry_result_timeout_ms })
            c
            a.flows)
          a,
    )
unfolding handle_response
handle_response-pending env c response q a e = rw (e, handle_response)

handle_response-awaiting :
    (env : Env) (c response : String) (a : Agent)
    → lookup c a.flows.pending_requests ≡ none
    → contains c a.flows.awaiting_outcome ≡ true
    → handle_response env c response a
      ≡ (error_reply "Session is already awaiting terminal result", a)
unfolding handle_response is_awaiting_outcome
handle_response-awaiting env c response a e h = rw (e, handle_response, h)

-- The reply to a request for a confirmation says so and carries no password; the reply to any other
-- request carries the user's response.
abbrev pub IsReply : PinentryRequest → String → String → JsonObject → Type 0
IsReply q c response reply =
    (value "type" reply ≡ str "pinentry_response")
    × (value "id" reply ≡ str c)
    × (value "result" reply ≡ str (if q.confirm_only then "confirmed" else "ok"))
    × (value "password" reply ≡ (if q.confirm_only then null else str response))

socket_response-IsReply :
    (q : PinentryRequest) (c response : String)
    → IsReply q c response (socket_response q c response)
unfolding socket_response
socket_response-IsReply q c response = elim (Bool-cases q.confirm_only) [
  | inl e ↦ rw e (refl, refl, refl, refl)
  | inr e ↦ rw e (refl, refl, refl, refl)
]

module _ (env : Env) where
  -- A pending request is answered once: the reply carries the response, or for a request that only
  -- asks for a confirmation says that it was confirmed; the flow moves to the awaited outcomes, and a
  -- second answer is refused and changes nothing.
  pub handle_response_once :
      (later : Env) (c response again : String) (q : PinentryRequest) (a : Agent)
      → lookup c a.flows.pending_requests ≡ some q
      → let (reply, b) = handle_response env c response a in
        IsReply q c response reply
        × (lookup c b.flows.pending_requests ≡ none)
        × (contains c b.flows.awaiting_outcome ≡ true)
        × (handle_response later c again b
            ≡ (error_reply "Session is already awaiting terminal result", b))
  handle_response_once later c response again q a e =
      let w : AwaitingOutcome = record {
        request = q;
        deadline_ms = env.now_ms + pinentry_result_timeout_ms;
      } in
      let f = submitted w c a.flows in
      let gone : lookup c f.pending_requests ≡ none =
        lookup-remove c c a.flows.pending_requests ∙ rw (==-refl c) in
      let waits : contains c f.awaiting_outcome ≡ true =
        contains-insert c c w (remove c a.flows.awaiting_outcome) ∙ rw (==-refl c) in
      rw (handle_response-pending env c response q a e) (
        socket_response-IsReply q c response,
        gone,
        waits,
        handle_response-awaiting later c again (set_flows f a) gone waits,
      )
