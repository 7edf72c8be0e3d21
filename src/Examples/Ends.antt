-- ===== src/Examples/Ends.antt =====
-- The theorems about how flows and authentications end, and about who asks, applied.
use noctalia_unofficial_auth.Base.{
  ◌==◌, some, if◌then◌else◌, ◌≡◌, refl, true, none, [], ◌∷◌, comparable_string, arith, is_some,
}
use noctalia_unofficial_auth.Base.Int.{pos, comparable_int}
use noctalia_unofficial_auth.Base.Table.{lookup}
use noctalia_unofficial_auth.Json.{JsonObject, object, str}
use noctalia_unofficial_auth.Session.{new_session}
use noctalia_unofficial_auth.SessionStore
use noctalia_unofficial_auth.RequestTypes.{no_flows}
use noctalia_unofficial_auth.Agent
use noctalia_unofficial_auth.Agent.{Agent, result_completed}
use noctalia_unofficial_auth.Agent.Steps.{CoreOk}
use noctalia_unofficial_auth.Environment.{Env, ProcInfo}
use noctalia_unofficial_auth.RequestContext.{resolve_requestor_from_subject}
use noctalia_unofficial_auth.RequestContext.Names.{IsNamed}
use noctalia_unofficial_auth.RequestContext.Requestor.{
  IsOwnRequestor, resolve_requestor_from_subject-IsOwnRequestor,
}
use noctalia_unofficial_auth.PinentryManager.{
  handle_result, cleanup_for_socket, validate_result_owner, session_is_pinentry,
}
use noctalia_unofficial_auth.PinentryManager.Retries.{retry_unattended}
use noctalia_unofficial_auth.PolkitListener.{finish_auth}
use noctalia_unofficial_auth.PolkitListener.Answers.{Did, finish_auth_completes}
use noctalia_unofficial_auth.Examples.{
  env_at, pinentry_request, pinentry_waits, third_attempt, polkit_waits,
}

-- The flow of p1 waits for its outcome.
abbrev outcome_waits : Agent
outcome_waits = record pinentry_waits {
  flows = record no_flows {
    awaiting_outcome = ("p1", record { request = pinentry_request; deadline_ms = 10000 }) ∷ [];
    flow_owners = ("p1", pos 77) ∷ [];
  };
}

abbrev retry : JsonObject
retry = object (("type", str "pinentry_result") ∷ ("id", str "p1") ∷ ("result", str "retry") ∷ [])

outcome_waits-CoreOk : CoreOk outcome_waits
outcome_waits-CoreOk = record {
  queue = record { room = omega arith; bounded = omega arith; clean = tt; served = refl };
  registry = record { distinct = tt; known = refl };
}

p1_owned : validate_result_owner "p1" (pos 77) outcome_waits ≡ true
unfolding validate_result_owner lookup
p1_owned = refl

p1_session : session_is_pinentry (Agent.get_session "p1" outcome_waits) ≡ true
unfolding Agent.get_session SessionStore.get_session lookup new_session
p1_session = refl

p1_idle : lookup "p1" outcome_waits.flows.pending_requests ≡ none
unfolding lookup
p1_idle = refl

retry_unattended_example :
    let b = (handle_result (env_at 0) retry (pos 77) outcome_waits).1 in
    (lookup "p1" b.flows.pending_requests ≡ none)
    × (lookup "p1" b.flows.awaiting_outcome ≡ none)
    × (is_some (lookup "p1" (cleanup_for_socket (env_at 9) 4 b).sessions) ≡ true)
retry_unattended_example =
    retry_unattended (env_at 0) "p1" outcome_waits outcome_waits-CoreOk (env_at 9) retry (pos 77) 4
      (λ e. cc) refl refl p1_owned p1_session p1_idle

polkit_waits-CoreOk : CoreOk polkit_waits
polkit_waits-CoreOk = record {
  queue = record { room = omega arith; bounded = omega arith; clean = tt; served = refl };
  registry = record { distinct = tt; known = refl };
}

finish_auth_completes_example :
    Did (result_completed "c1") (finish_auth (env_at 0) third_attempt polkit_waits)
finish_auth_completes_example =
    finish_auth_completes (env_at 0) third_attempt polkit_waits polkit_waits-CoreOk refl refl

abbrev terminal : ProcInfo
terminal = record {
  pid = pos 700;
  ppid = pos 1;
  uid = pos 1000;
  name = "foot";
  exe = "/usr/bin/foot";
  cmdline = "foot";
}

abbrev pkexec : ProcInfo
pkexec = record {
  pid = pos 900;
  ppid = pos 700;
  uid = pos 0;
  name = "pkexec";
  exe = "";
  cmdline = "pkexec id";
}

-- A terminal of the user runs pkexec.
abbrev desk : Env
desk = record (env_at 0) {
  read_proc = λ pid. if pid == pos 900 then some pkexec else some terminal;
}

resolve_requestor_from_subject-IsOwnRequestor_example :
    IsOwnRequestor desk pkexec (resolve_requestor_from_subject desk pkexec)
    × IsNamed desk (resolve_requestor_from_subject desk pkexec)
resolve_requestor_from_subject-IsOwnRequestor_example =
    resolve_requestor_from_subject-IsOwnRequestor desk pkexec
